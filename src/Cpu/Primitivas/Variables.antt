-- ===== src/Cpu/Primitivas/Variables.antt =====
-- `asignar` and `desreferenciar` of proyectoCPU/primitivas.c: a variable keeps what is assigned to it.
use personal_copy_tp.Common.{
  ℕ, ◌^◌, ◌<◌, ◌≡◌, refl, ap, sym, ◌∙◌, List, [], Option, some, arith, encode_int, decode_int,
  decode-encode_int, int_sub, ◌==◌, false,
}
use mathlib.Core.List.{append-nil}
use personal_copy_tp.Sockets.{Paquete}
use personal_copy_tp.Sockets.Paquetes.{paquete}
use personal_copy_tp.Umv.Estado.{Umv}
use personal_copy_tp.Umv.Acceso.{hecho, pegar_bytes}
use personal_copy_tp.Umv.Servidor.{
  listo, HiloCpu, con_umv, cada_cpu, umv_mensaje_cpu_escribir, umv_mensaje_cpu_leer, texto_ok,
  error_fallo_segmento,
}
use personal_copy_tp.Cpu.Memoria.{escribir_y_leer}
use personal_copy_tp.Cpu.Primitivas.{
  normal, Cpu, Efecto, vale, ◌>>=◌, pila, si_normal, enviar_y_esperar, recibir_respuesta, asignar,
  asignacion, desreferenciar, lectura_de, valor_de, ejecutar_si_hubo_stack_overflow,
  ejecutar_si_hubo_segmentation_fault,
}

abbrev pub con_hilo : Cpu → HiloCpu → Cpu
con_hilo c h = record c { hilo = h }

-- An answer with another code than that of the refusal.
pub enviar_y_esperar-listo :
    (c : Cpu) (o : Option Paquete) (p : Paquete) (h : HiloCpu) (r : Paquete) (codigo : ℕ)
    (si_hay_problema : Cpu → Efecto (Unit {0}))
    → o ≡ some p
    → cada_cpu c.hilo p ≡ listo h (some r)
    → (r.codigo_operacion == codigo) ≡ false
    → enviar_y_esperar c o codigo si_hay_problema ≡ vale (con_hilo c h) r
unfolding enviar_y_esperar
enviar_y_esperar-listo c o p h r codigo si_hay_problema e answer other =
    rw (e, answer, recibir_respuesta, other)

pub value-back : (n : ℕ) → n < 2 ^ 32 → decode_int (encode_int n) ≡ some n
value-back n h = ap decode_int (sym (append-nil (encode_int n))) ∙ decode-encode_int n [] h

-- If the memory server grants the write of the four bytes of a variable, `asignar` succeeds, and
-- `desreferenciar` then gives the value assigned.
pub asignar-desreferenciar :
    (c : Cpu) (direccion valor : ℕ) (texto : List ℕ) {v : Umv}
    → c.estado ≡ normal
    → valor < 2 ^ 32
    → (pila c).base < 2 ^ 32
    → pegar_bytes c.hilo.umv
        (encode_int valor)
        (pila c).base
        (int_sub direccion (pila c).base)
        4
        c.hilo.pid_proceso_activo
      ≡ hecho v
    → (asignar c direccion valor texto ≡ vale (con_hilo c (con_umv c.hilo v)) tt)
      × (desreferenciar (con_hilo c (con_umv c.hilo v)) direccion texto
          ≡ vale (con_hilo c (con_umv c.hilo v)) valor)
unfolding asignar desreferenciar encode_int
asignar-desreferenciar c direccion valor texto {v} e small base granted =
    let off = int_sub direccion (pila c).base in
    let h = con_umv c.hilo v in
    let d = con_hilo c h in
    let (p, q, ep, eq, wrote, read) =
      escribir_y_leer c.hilo (pila c).base off (encode_int valor) base (omega arith) (omega arith)
        (omega arith) granted in
    let problem = λ (x : Cpu). ejecutar_si_hubo_stack_overflow x texto in
    let problem' = λ (x : Cpu). ejecutar_si_hubo_segmentation_fault x texto in
    let sent =
      enviar_y_esperar-listo c _ p h (paquete umv_mensaje_cpu_escribir texto_ok)
        error_fallo_segmento problem ep wrote refl in
    let got =
      enviar_y_esperar-listo d _ q h (paquete umv_mensaje_cpu_leer (encode_int valor))
        error_fallo_segmento problem' eq read refl in
    (
      ap (λ x. si_normal x c tt (asignacion c direccion valor texto)) e
          ∙ ap (λ x. x >>= λ y _. vale y tt) sent,
      ap (λ x. si_normal x d 0 (lectura_de d direccion texto)) e
          ∙ ap (λ x. x >>= λ y r. valor_de y (decode_int r.datos)) got
          ∙ ap (valor_de d) (value-back valor small),
    )
