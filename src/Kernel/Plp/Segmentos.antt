-- ===== src/Kernel/Plp/Segmentos.antt =====
-- What `pedirSegmento` of proyectoKernel/plp.c gives back, by what the memory server does, and what
-- the memory server holds once the index of the code is written.
use personal_copy_tp.Common.{
  Bool-cases, inl, inr, ℕ, ◌+◌, ◌^◌, ◌<◌, ◌≡◌, refl, ap, sym, ◌∙◌, ◌==◌, List, [], ◌++◌, none, some,
  All, true, false, take_all, length, arith, encode_int, decode_int, decode-encode_int, int_leb,
  minus_one,
}
use mathlib.Core.List.{append-nil}
use personal_copy_tp.Commons.{ListOps, Ordered}
use personal_copy_tp.Sockets.{Paquete, pedir_paquete, aniadir_al_paquete}
use personal_copy_tp.Sockets.Paquetes.{paquete, pedir_paquete_lem, aniadir_al_paquete_lem}
use personal_copy_tp.Umv.Estado.{Segmento, Umv}
use personal_copy_tp.Umv.Invariante.{usado, IsValid}
use personal_copy_tp.Umv.Acceso.{hecho, leer_bytes, pegar_bytes}
use personal_copy_tp.Umv.Acceso.Aislamiento.{leer-pegar_bytes}
use personal_copy_tp.Umv.Asignacion.{crear_segmento}
use personal_copy_tp.Umv.Liberacion.Vacios.{ocupados}
use personal_copy_tp.Umv.Compactacion.{compactador}
use personal_copy_tp.Umv.Compactacion.Orden.{direccion, Positivo}
use personal_copy_tp.Umv.Servidor.{
  Vuelta, listo, termina, caida, espera, error_no_creo_segmento, tras_escribir, hilo_kernel,
  kernel_pedir, pedir_segmento, kernel_pedir_segmento_umv, kernel_escribir_segmento_umv, texto_ok,
}
use personal_copy_tp.Umv.Servidor.Campos.{mensaje}
use personal_copy_tp.Umv.Servidor.Escrituras.{kernel_escribir_lem}
use personal_copy_tp.Umv.Servidor.Pedidos.{pedir_segmento-no_alcanza}
use personal_copy_tp.Kernel.Plp.{
  Pedido, paquete_pedir_segmento, leer_respuesta, plp_pedir_segmento, paquete_escribir_indice,
}

abbrev dos_int : ℕ → ℕ → List ℕ
dos_int a b = encode_int a ++ encode_int b

length-dos_int : (a b : ℕ) → length (dos_int a b) ≡ 8
unfolding encode_int
length-dos_int a b = refl

paquete_pedir_segmento_lem :
    (tamanio pid : ℕ)
    → paquete_pedir_segmento tamanio pid
      ≡ some (paquete kernel_pedir_segmento_umv (dos_int pid tamanio))
unfolding paquete_pedir_segmento
paquete_pedir_segmento_lem tamanio pid =
    ap (pedir_paquete (dos_int pid tamanio) kernel_pedir_segmento_umv)
      (sym (length-dos_int pid tamanio))
    ∙ pedir_paquete_lem (dos_int pid tamanio) kernel_pedir_segmento_umv

pub decode_int-encode_int : (b : ℕ) → b < 2 ^ 32 → decode_int (encode_int b) ≡ some b
decode_int-encode_int b h =
    ap decode_int (sym (append-nil (encode_int b))) ∙ decode-encode_int b [] h

module _ (lib : ListOps Segmento) (basura basura' : Segmento) (u : Umv) (tamanio pid : ℕ) where
  hilo_kernel-pedir :
      tamanio < 2 ^ 32
      → pid < 2 ^ 32
      → hilo_kernel lib basura basura' u (paquete kernel_pedir_segmento_umv (dos_int pid tamanio))
        ≡ pedir_segmento lib basura basura' u pid tamanio
  unfolding hilo_kernel kernel_pedir encode_int
  hilo_kernel-pedir ht hp = rw (
    decode-encode_int pid (encode_int tamanio) hp,
    kernel_pedir,
    decode_int-encode_int tamanio ht,
  )

  plp_pedir_segmento_lem :
      (error : ℕ)
      → tamanio < 2 ^ 32
      → pid < 2 ^ 32
      → plp_pedir_segmento lib basura basura' error u tamanio pid
        ≡ leer_respuesta error (pedir_segmento lib basura basura' u pid tamanio)
  unfolding plp_pedir_segmento
  plp_pedir_segmento_lem error ht hp =
      rw (paquete_pedir_segmento_lem tamanio pid, plp_pedir_segmento)
        (ap (leer_respuesta error) (hilo_kernel-pedir ht hp))

  -- A request for no bytes returns -1 and changes nothing.
  pub plp_pedir_segmento-cero :
      (error : ℕ)
      → tamanio ≡ 0
      → pid < 2 ^ 32
      → plp_pedir_segmento lib basura basura' error u tamanio pid
        ≡ some (record { error = error; base = some minus_one; umv = u })
  unfolding pedir_segmento
  plp_pedir_segmento-cero error zero_size hp =
      let empty : (tamanio == 0) ≡ true = ground arith in
      plp_pedir_segmento_lem error (omega arith) hp
      ∙ rw (empty, pedir_segmento, decode_int-encode_int minus_one (omega arith)) refl

  -- Where the memory server makes a segment of a size that is not 0, at an address that is not
  -- negative, pedirSegmento returns that address and leaves the error as it was.
  pub plp_pedir_segmento-creado :
      (error : ℕ) {dir : ℕ} {v : Umv}
      → 0 < tamanio
      → tamanio < 2 ^ 32
      → pid < 2 ^ 32
      → dir < 2 ^ 31
      → crear_segmento lib basura u pid tamanio ≡ some (dir, v)
      → plp_pedir_segmento lib basura basura' error u tamanio pid
        ≡ some (record { error = error; base = some dir; umv = v })
  unfolding pedir_segmento
  plp_pedir_segmento-creado error {dir} {v} pos ht hp hd made =
      let nonzero : (tamanio == 0) ≡ false = ground arith in
      let positive : int_leb 0 dir ≡ true = ground arith in
      let back = decode_int-encode_int dir (omega arith) in
      plp_pedir_segmento_lem error ht hp ∙ rw (nonzero, pedir_segmento, made, positive, back)

  -- A request for more bytes than are free, on a valid table sorted by address with no empty used
  -- segment, sets the error, and the int that pedirSegmento then copies out of the answer is longer
  -- than the answer.
  pub plp_pedir_segmento-no_alcanza :
      (error : ℕ)
      → IsValid u
      → Ordered direccion u.lista_de_segmentos
      → All Positivo (ocupados u.lista_de_segmentos)
      → 0 < tamanio
      → pid < 2 ^ 32
      → u.cantidad_bytes_malloc + tamanio < 2 ^ 31
      → u.cantidad_bytes_malloc < usado u.lista_de_segmentos + tamanio
      → plp_pedir_segmento lib basura basura' error u tamanio pid
        ≡ some (record { error = 1; base = none; umv = compactador lib u })
  unfolding decode_int
  plp_pedir_segmento-no_alcanza error i o p pos hp small over =
      plp_pedir_segmento_lem error (omega arith) hp
      ∙ ap (leer_respuesta error)
          (pedir_segmento-no_alcanza lib basura u basura' pid tamanio i o p pos small over)

-- Once the error is set it stays set.
leer_respuesta-mal : (v : Vuelta Umv) {r : Pedido} → leer_respuesta 1 v ≡ some r → r.error ≡ 1
leer_respuesta-mal (listo v (some p)) {r} e =
    elim (Bool-cases (p.codigo_operacion == error_no_creo_segmento)) [
      | inl mal ↦ ground (arith, mal, e)
      | inr otro ↦ ground (arith, otro, e)
    ]
leer_respuesta-mal (listo v none) e = ground (arith, e)
leer_respuesta-mal termina e = ground (arith, e)
leer_respuesta-mal caida e = ground (arith, e)
leer_respuesta-mal espera e = ground (arith, e)

pub plp_pedir_segmento-mal :
    (lib : ListOps Segmento) (basura basura' : Segmento) (error : ℕ) (u : Umv) (tamanio pid : ℕ)
    {r : Pedido}
    → error ≡ 1
    → plp_pedir_segmento lib basura basura' error u tamanio pid ≡ some r
    → r.error ≡ 1
unfolding plp_pedir_segmento
plp_pedir_segmento-mal lib basura basura' error u tamanio pid {r} mal e =
    let p = paquete kernel_pedir_segmento_umv (dos_int pid tamanio) in
    let v = hilo_kernel lib basura basura' u p in
    let sent : plp_pedir_segmento lib basura basura' error u tamanio pid ≡ leer_respuesta error v =
      rw (paquete_pedir_segmento_lem tamanio pid, plp_pedir_segmento) refl in
    leer_respuesta-mal v (ap (λ k. leer_respuesta k v) (sym mal) ∙ sym sent ∙ e)

-- The first steps of the packet, on sizes that are known.
pub pedir_paquete-int :
    (codigo n : ℕ) → pedir_paquete (encode_int n) codigo 4 ≡ some (paquete codigo (encode_int n))
unfolding encode_int
pedir_paquete-int codigo n = pedir_paquete_lem (encode_int n) codigo

aniadir_al_paquete-int :
    (codigo : ℕ) (bytes : List ℕ) (n : ℕ)
    → length bytes + 4 < 2 ^ 32
    → aniadir_al_paquete (paquete codigo bytes) (encode_int n) 4
      ≡ some (paquete codigo (bytes ++ encode_int n))
unfolding encode_int
aniadir_al_paquete-int codigo bytes n h = aniadir_al_paquete_lem codigo bytes (encode_int n) h

pub paquete_escribir_indice_lem :
    (pid code_index : ℕ) (bytes : List ℕ)
    → length bytes < 2 ^ 31
    → paquete_escribir_indice pid (length bytes) code_index bytes
      ≡ some (paquete kernel_escribir_segmento_umv (mensaje pid (length bytes) code_index bytes))
unfolding paquete_escribir_indice encode_int
paquete_escribir_indice_lem pid code_index bytes h =
    let codigo = kernel_escribir_segmento_umv in
    let largo = length bytes in
    rw (
      pedir_paquete-int codigo pid,
      paquete_escribir_indice,
      aniadir_al_paquete-int codigo (encode_int pid) largo (omega arith),
      aniadir_al_paquete-int codigo (dos_int pid largo) code_index (omega arith),
      aniadir_al_paquete_lem codigo (dos_int pid largo ++ encode_int code_index) bytes
          (omega arith),
    )

-- Where the memory server grants the write of an index that is not empty, the packet of
-- atenderProgramaEntrante is answered with OK, and the segment of the index then holds its bytes.
pub paquete_escribir_indice-leer_bytes :
    (lib : ListOps Segmento) (basura basura' : Segmento) (u : Umv) (pid code_index : ℕ)
    (bytes : List ℕ) {v : Umv}
    → pid < 2 ^ 32
    → code_index < 2 ^ 32
    → 0 < length bytes
    → length bytes < 2 ^ 31
    → pegar_bytes u bytes code_index 0 (length bytes) pid ≡ hecho v
    → (p : Paquete) × (paquete_escribir_indice pid (length bytes) code_index bytes ≡ some p)
      × (hilo_kernel lib basura basura' u p
          ≡ listo v (some (paquete kernel_escribir_segmento_umv texto_ok)))
      × (leer_bytes v code_index 0 (length bytes) pid ≡ hecho bytes)
unfolding hilo_kernel
paquete_escribir_indice-leer_bytes lib basura basura' u pid code_index bytes {v} hp hc full small
      granted =
    (
      paquete kernel_escribir_segmento_umv (mensaje pid (length bytes) code_index bytes),
      paquete_escribir_indice_lem pid code_index bytes small,
      kernel_escribir_lem u pid code_index bytes hp hc full (omega arith)
          ∙ ap (tras_escribir (λ w. w) u kernel_escribir_segmento_umv) granted,
      leer-pegar_bytes u bytes code_index 0 (length bytes) pid small granted
          ∙ ap hecho (take_all (length bytes) bytes (omega arith)),
    )
