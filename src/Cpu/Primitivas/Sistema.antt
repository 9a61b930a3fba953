-- ===== src/Cpu/Primitivas/Sistema.antt =====
-- The system calls in proyectoCPU/primitivas.c: what the processor sends to the kernel, and what it does
-- with the answers.
pub mod Envios
pub mod Compartidas
mod Pruebas
use personal_copy_tp.Common.{
  ℕ, ◌==◌, List, [], ◌∷◌, ◌++◌, Option, none, some, if◌then◌else◌, encode_int, decode_int, int_add,
}
use personal_copy_tp.Commons.Strings.{StringOps}
use personal_copy_tp.Sockets.{Paquete}
use personal_copy_tp.Sockets.Paquetes.{paquete}
use personal_copy_tp.Cpu.Primitivas.Textos.{remove_new_line}
use personal_copy_tp.Cpu.Primitivas.Llamadas.{con_pc, terminar_proceso}
use personal_copy_tp.Cpu.Primitivas.{
  Cpu, entrada_salida, wait, Efecto, vale, falla, ◌>>=◌, si_normal, change_state, valor_de,
}

-- conitos_protocol.h
abbrev pub cpu_pcp_pedir_variable_compartida : ℕ
cpu_pcp_pedir_variable_compartida = 2

abbrev pub cpu_pcp_asignar_variable_compartida : ℕ
cpu_pcp_asignar_variable_compartida = 3

abbrev pub cpu_pcp_imprimir_variable : ℕ
cpu_pcp_imprimir_variable = 5

abbrev pub cpu_pcp_imprimir_texto : ℕ
cpu_pcp_imprimir_texto = 6

abbrev pub cpu_pcp_signal : ℕ
cpu_pcp_signal = 8

abbrev pub cpu_pcp_wait : ℕ
cpu_pcp_wait = 9

abbrev pub pcp_cpu_wait_ok : ℕ
pcp_cpu_wait_ok = 1

-- `common_send` to the kernel.
abbrev pub enviar_al_kernel : Cpu → Paquete → Cpu
enviar_al_kernel c p = record c { al_kernel = c.al_kernel ++ p ∷ [] }

abbrev pub siguiente_del_kernel : Cpu → List Paquete → Efecto Paquete
siguiente_del_kernel c [] = falla
siguiente_del_kernel c (p ∷ resto) = vale (record c { del_kernel = resto }) p

-- `common_receive` from the kernel; with no packet to come it gives a null pointer, which the callers use.
abbrev pub recibir_del_kernel : Cpu → Efecto Paquete
recibir_del_kernel c = siguiente_del_kernel c c.del_kernel

-- A name as it is sent, with its final zero.
abbrev pub con_cero : List ℕ → List ℕ
con_cero texto = texto ++ 0 ∷ []

pub paquete_asignar_compartida : List ℕ → ℕ → Paquete
paquete_asignar_compartida nombre valor =
    paquete cpu_pcp_asignar_variable_compartida (con_cero nombre ++ encode_int valor)

-- What each call does with the name that `removeNewLine` gives, if the loop there ends.
abbrev pub con_nombre : {A : Type 0} → Option (List ℕ) → (List ℕ → Efecto A) → Efecto A
con_nombre none f = falla
con_nombre (some nombre) f = f nombre

abbrev pub tras_wait : Cpu → Paquete → Efecto (Unit {0})
tras_wait c r =
    if r.codigo_operacion == pcp_cpu_wait_ok
    then vale c tt
    else terminar_proceso (record c { estado = change_state c.estado wait }) []

pub imprimir : Cpu → ℕ → Efecto (Unit {0})
imprimir c valor =
    si_normal c.estado c tt
      (vale (enviar_al_kernel c (paquete cpu_pcp_imprimir_variable (encode_int valor))) tt)

-- The device name and the time go after the PCB, which already points behind the instruction.
pub entrada_salida_en : Cpu → List ℕ → ℕ → Efecto (Unit {0})
entrada_salida_en c dispositivo tiempo = si_normal c.estado c tt (
    terminar_proceso
      (record (con_pc c (int_add c.current_pcb.program_counter 1)) {
        estado = change_state c.estado entrada_salida;
      })
      (con_cero dispositivo ++ encode_int tiempo))

module _ (so : StringOps) where
  abbrev pub pedido_compartida : Cpu → List ℕ → Efecto ℕ
  pedido_compartida c nombre =
      recibir_del_kernel
        (enviar_al_kernel c (paquete cpu_pcp_pedir_variable_compartida (con_cero nombre)))
      >>= λ d r. valor_de d (decode_int r.datos)

  pub obtener_valor_compartida : Cpu → List ℕ → Efecto ℕ
  obtener_valor_compartida c variable =
      si_normal c.estado c 0 (con_nombre (remove_new_line so variable) (pedido_compartida c))

  pub asignar_valor_compartida : Cpu → List ℕ → ℕ → Efecto ℕ
  asignar_valor_compartida c variable valor = si_normal c.estado c 0 (
      con_nombre (remove_new_line so variable)
        (λ nombre. vale (enviar_al_kernel c (paquete_asignar_compartida nombre valor)) valor))

  -- The text without its end of line is computed, and the text itself is sent.
  pub imprimir_texto : Cpu → List ℕ → Efecto (Unit {0})
  imprimir_texto c texto = si_normal c.estado c tt (
      con_nombre (remove_new_line so texto)
        (λ _. vale (enviar_al_kernel c (paquete cpu_pcp_imprimir_texto (con_cero texto))) tt))

  pub p_signal : Cpu → List ℕ → Efecto (Unit {0})
  p_signal c identificador = si_normal c.estado c tt (
      con_nombre (remove_new_line so identificador)
        (λ nombre. vale (enviar_al_kernel c (paquete cpu_pcp_signal (con_cero nombre))) tt))

  pub p_wait : Cpu → List ℕ → Efecto (Unit {0})
  p_wait c identificador = si_normal c.estado c tt (
      con_nombre (remove_new_line so identificador) (λ nombre.
        recibir_del_kernel (enviar_al_kernel c (paquete cpu_pcp_wait (con_cero nombre)))
        >>= tras_wait))
