-- ===== src/Kernel/Plp/Admision/Resultado.antt =====
-- What `atenderProgramaEntrante` of proyectoKernel/plp.c leaves of a program that it admits, and of one that it
-- turns away.
use personal_copy_tp.Common.{
  sym, ◌∙◌, Option, All, ℕ, ◌+◌, ◌^◌, ◌<◌, ◌≡◌, ◌≢◌, refl, List, [], ◌∷◌, none, some, length, arith,
  minus_one, encode_int,
}
use personal_copy_tp.Commons.{ListOps, Ordered}
use personal_copy_tp.Sockets.Paquetes.{paquete}
use personal_copy_tp.Umv.Estado.{Segmento, Umv}
use personal_copy_tp.Umv.Acceso.{denegado, leer_bytes, pegar_bytes}
use personal_copy_tp.Umv.Liberacion.{destruir_segmentos}
use personal_copy_tp.Umv.Liberacion.Destruccion.{destruir_segmentos-denegado}
use personal_copy_tp.Umv.Liberacion.Vacios.{ocupados}
use personal_copy_tp.Umv.Invariante.{usado, IsValid}
use personal_copy_tp.Umv.Compactacion.{compactador}
use personal_copy_tp.Umv.Compactacion.Orden.{direccion, Positivo}
use personal_copy_tp.Kernel.Mensajes.{◌>>=◌}
use personal_copy_tp.Kernel.Mensajes.Pcbs.{paso}
use personal_copy_tp.Umv.Servidor.{listo, hilo_kernel, kernel_destruir_segmentos_programa}
use personal_copy_tp.Kernel.{NodoProceso}
use personal_copy_tp.Kernel.Plp.Segmentos.{
  plp_pedir_segmento-mal, plp_pedir_segmento-no_alcanza, pedir_paquete-int, decode_int-encode_int,
}
use personal_copy_tp.Kernel.Plp.{plp_pedir_segmento}
use personal_copy_tp.Kernel.Plp.Admision.{
  Metadata, Pedidos, Plp, confirmacion, plp_programa_no_se_pudo_crear, generar_pid, pedir_segmentos,
  rechazar, atender_literal, tamanio_indice,
}
use personal_copy_tp.Kernel.Plp.Admision.Repartido.{Repartido}

-- What a chain that ends well has of its first step.
paso-some :
    {A B : Type 0} (o : Option A) (f : A → Option B) {b : B}
    → (o >>= f) ≡ some b
    → (a : A) × (o ≡ some a) × (f a ≡ some b)
paso-some none f e = ground (arith, e)
paso-some (some a) f e = (a, refl, e)

generar_pid-corto : (pid : ℕ) → generar_pid pid < 2 ^ 32
generar_pid-corto pid = omega arith

module _ (lib : ListOps Segmento) (basura : ℕ → Segmento) where
  hilo_kernel-destruir :
      (u : Umv) (pid : ℕ)
      → pid < 2 ^ 32
      → hilo_kernel lib
          (basura 0)
          (basura 1)
          u
          (paquete kernel_destruir_segmentos_programa (encode_int pid))
        ≡ listo (destruir_segmentos u pid) none
  unfolding hilo_kernel
  hilo_kernel-destruir u pid h = rw (decode_int-encode_int pid h) refl

  rechazar_lem :
      (e : Plp) (pid : ℕ) (u : Umv)
      → pid < 2 ^ 32
      → rechazar lib basura e pid u
        ≡ some (record {
          plp = record e { umv = destruir_segmentos u pid; pid_actual = pid };
          al_programa = confirmacion ∷ paquete plp_programa_no_se_pudo_crear (65 ∷ 0 ∷ []) ∷ [];
        })
  unfolding rechazar
  rechazar_lem e pid u h = rw (
    pedir_paquete-int kernel_destruir_segmentos_programa pid,
    rechazar,
    hilo_kernel-destruir u pid h,
  )

  -- Where the code does not fit, the error that its request sets is what the four requests leave.
  pedir_segmentos-no_alcanza :
      (u : Umv) (pid largo tamanio_pila : ℕ) (m : Metadata) (q : Pedidos)
      → IsValid u
      → Ordered direccion u.lista_de_segmentos
      → All Positivo (ocupados u.lista_de_segmentos)
      → pid < 2 ^ 32
      → u.cantidad_bytes_malloc + (largo + 1) < 2 ^ 31
      → u.cantidad_bytes_malloc < usado u.lista_de_segmentos + (largo + 1)
      → pedir_segmentos lib basura u pid (largo + 1) tamanio_pila m ≡ some q
      → q.error ≡ 1
  unfolding pedir_segmentos
  pedir_segmentos-no_alcanza u pid largo tamanio_pila m q i o p hp small over asked =
      let mal =
        plp_pedir_segmento-no_alcanza lib (basura 0) (basura 1) u (largo + 1) pid 0 i o p
          (omega arith) hp small over in
      let at_stack = paso _ _ mal in
      let (s, e1, k1) =
        paso-some
          (plp_pedir_segmento lib (basura 2) (basura 3) 1 (compactador lib u) tamanio_pila pid) _
          (sym at_stack ∙ asked) in
      let m1 =
        plp_pedir_segmento-mal lib (basura 2) (basura 3) 1 (compactador lib u) tamanio_pila pid refl
          e1 in
      let (t, e2, k2) =
        paso-some (plp_pedir_segmento lib (basura 4) (basura 5) s.error s.umv m.etiquetas_size pid)
          _ k1 in
      let m2 =
        plp_pedir_segmento-mal lib (basura 4) (basura 5) s.error s.umv m.etiquetas_size pid m1 e2 in
      let (i', e3, k3) =
        paso-some
          (plp_pedir_segmento lib (basura 6) (basura 7) t.error t.umv (tamanio_indice m) pid) _
          k2 in
      let m3 =
        plp_pedir_segmento-mal lib (basura 6) (basura 7) t.error t.umv (tamanio_indice m) pid m2
          e3 in
      ground (arith, m3, k3)

  module _ (sobra : ℕ) (lib' : ListOps NodoProceso) (metadata : List ℕ → Metadata)
      (tamanio_pila : ℕ) (e : Plp) (literal : List ℕ) (socket : ℕ) where
    abbrev pid : ℕ
    pid = generar_pid e.pid_actual

    -- A program whose code, with its final zero, does not fit into what is free of a valid pool, whose
    -- table is sorted by address and has no empty used segment, is told that it could not be made, if
    -- each of its four requests is answered, the pool and the code together are an `int`, and its PID
    -- is not that of a hole; the kernel queues nothing, and the memory server refuses every access with
    -- the PID, whatever the later requests made.
    pub atender_literal-rechazado :
        (q : Pedidos) (base offset cantidad : ℕ) (bytes : List ℕ)
        → IsValid e.umv
        → Ordered direccion e.umv.lista_de_segmentos
        → All Positivo (ocupados e.umv.lista_de_segmentos)
        → e.umv.cantidad_bytes_malloc + (length literal + 1) < 2 ^ 31
        → e.umv.cantidad_bytes_malloc < usado e.umv.lista_de_segmentos + (length literal + 1)
        → pedir_segmentos lib basura e.umv pid (length literal + 1) tamanio_pila (metadata literal)
          ≡ some q
        → pid ≢ minus_one
        → (v : Umv) × (atender_literal lib basura sobra lib' metadata tamanio_pila e literal socket
            ≡ some (record {
              plp = record e { umv = v; pid_actual = pid };
              al_programa = confirmacion ∷ paquete plp_programa_no_se_pudo_crear (65 ∷ 0 ∷ []) ∷ [];
            }))
          × (leer_bytes v base offset cantidad pid ≡ denegado)
          × (pegar_bytes v bytes base offset cantidad pid ≡ denegado)
    unfolding atender_literal
    atender_literal-rechazado q base offset cantidad bytes i o p small over asked own =
        let refused =
          pedir_segmentos-no_alcanza e.umv pid (length literal) tamanio_pila (metadata literal) q i
            o p (generar_pid-corto e.pid_actual) small over asked in
        let (no_read, no_write) =
          destruir_segmentos-denegado q.umv pid base offset cantidad bytes own in
        (
          destruir_segmentos q.umv pid,
          rw (asked, atender_literal, refused)
              (rechazar_lem e pid q.umv (generar_pid-corto e.pid_actual)),
          no_read,
          no_write,
        )
