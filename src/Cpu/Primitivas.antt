-- ===== src/Cpu/Primitivas.antt =====
-- proyectoCPU: the stack (stack.c), the end of a process (common_execution.c, terminateActions.c) and
-- the primitives on variables (primitivas.c). The memory server answers as `cada_cpu` does.
pub mod Variables
pub mod Desborde
pub mod Textos
pub mod Llamadas
pub mod Sistema
pub mod Pruebas
use personal_copy_tp.Common.{
  ℕ, ◌+◌, ◌*◌, ◌==◌, Bool, true, false, List, [], ◌∷◌, ◌++◌, Option, none, some, if◌then◌else◌,
  encode_int, decode_int, int_add, int_sub, int_mod, ◌%◌,
}
use personal_copy_tp.Sockets.{Paquete}
use personal_copy_tp.Sockets.Paquetes.{paquete}
use personal_copy_tp.Kernel.{Pcb, Pila}
use personal_copy_tp.Umv.Servidor.{
  Vuelta, listo, termina, caida, espera, HiloCpu, cada_cpu, error_fallo_segmento, umv_cae_cpu,
}
use personal_copy_tp.Cpu.Paquetes.{paquete_escribir_umv, paquete_leer_umv}

-- estructuras.h
pub data Estado : Type 0 where
  normal : Estado
  seg_fault : Estado
  stk_overflow : Estado
  kill_cpu : Estado
  end_process : Estado
  entrada_salida : Estado
  wait : Estado

-- The globals, with the thread of the memory server that serves this CPU, and the packets sent to the
-- kernel. `variables` is the dictionary of variables, the last put first; `del_kernel` are the packets
-- that the kernel sends, from the next one on.
pub record Cpu : Type 0 where
  pub current_pcb : Pcb
  pub estado : Estado
  pub variables : List (ℕ × ℕ)
  pub hilo : HiloCpu
  pub proceso_activo : Bool
  pub al_kernel : List Paquete
  pub del_kernel : List Paquete
  pub diccionario_etiquetas : List ℕ
  pub desconexion : Bool

-- A primitive goes on with a value, or the CPU exits, with what it has just sent to the memory server, or
-- it uses memory that is not there.
pub data Efecto (A : Type 0) : Type 0 where
  vale : Cpu → A → Efecto A
  sale : Cpu → List Paquete → Efecto A
  falla : Efecto A

infixl 5 ◌>>=◌
abbrev pub ◌>>=◌ : {A B : Type 0} → Efecto A → (Cpu → A → Efecto B) → Efecto B
vale c a >>= f = f c a
sale c enviados >>= f = sale c enviados
falla >>= f = falla

abbrev pub umv_segmentation_fault : ℕ
umv_segmentation_fault = 1

-- `sizeof` of a variable and its name.
abbrev pub tamanio_registro_variable : ℕ
tamanio_registro_variable = 5

unfoldable pub codificar_pcb : Pcb → List ℕ
codificar_pcb p =
    encode_int p.pid
    ++ encode_int p.code_segment
    ++ encode_int p.current_stack.size
    ++ encode_int p.current_stack.base
    ++ encode_int p.current_stack.context_size
    ++ encode_int p.current_stack.stack_pointer
    ++ encode_int p.code_index
    ++ encode_int p.indice_etiquetas
    ++ encode_int p.program_counter
    ++ encode_int p.tamanio_indice_etiquetas

-- conitos_protocol.h: the code that the action of each state sends.
pub codigo_de_fin : Estado → Option ℕ
codigo_de_fin normal = some 1
codigo_de_fin seg_fault = some 10
codigo_de_fin stk_overflow = some 10
codigo_de_fin kill_cpu = none
codigo_de_fin end_process = some 4
codigo_de_fin entrada_salida = some 7
codigo_de_fin wait = some 11

-- The data that the actions send after the PCB.
pub datos_de_fin : Estado → List ℕ → List ℕ
datos_de_fin seg_fault extra = extra
datos_de_fin stk_overflow extra = extra
datos_de_fin entrada_salida extra = extra
datos_de_fin _ extra = []

abbrev pub cpu_pcp_disconnection : ℕ
cpu_pcp_disconnection = 12

-- `terminarCPU`: the PCB of the process goes back, if there is one, and the CPU exits.
pub terminar_cpu : Cpu → Efecto (Unit {0})
terminar_cpu c =
    if c.proceso_activo
    then sale
        (record c {
          variables = [];
          al_kernel =
              c.al_kernel ++ paquete cpu_pcp_disconnection (codificar_pcb c.current_pcb) ∷ [];
        })
        (paquete umv_cae_cpu (97 ∷ 0 ∷ []) ∷ [])
    else sale (record c { variables = [] }) []

-- `terminarProceso` in the states whose action prints no variables.
pub cerrar_proceso : Cpu → List ℕ → Efecto (Unit {0})
unfolding terminar_cpu
cerrar_proceso c extra = elim (codigo_de_fin c.estado) [
  | none ↦ terminar_cpu c
  | some codigo ↦
      vale
        (record c {
          proceso_activo = false;
          variables = [];
          al_kernel =
              c.al_kernel
              ++ paquete codigo (codificar_pcb c.current_pcb ++ datos_de_fin c.estado extra) ∷ [];
        })
        tt
]

pub change_state : Estado → Estado → Estado
change_state kill_cpu nuevo = kill_cpu
change_state _ nuevo = nuevo

-- The texts, with their final zero.
pub ejecutar_si_hubo_segmentation_fault : Cpu → List ℕ → Efecto (Unit {0})
ejecutar_si_hubo_segmentation_fault c texto =
    cerrar_proceso (record c { estado = change_state c.estado seg_fault }) texto

pub ejecutar_si_hubo_stack_overflow : Cpu → List ℕ → Efecto (Unit {0})
ejecutar_si_hubo_stack_overflow c texto =
    cerrar_proceso (record c { estado = change_state c.estado stk_overflow }) texto

-- `common_send`, the round of the memory server, and `common_receive`.
unfoldable pub recibir_respuesta : Cpu → Vuelta HiloCpu → Efecto Paquete
recibir_respuesta c (listo h (some r)) = vale (record c { hilo = h }) r
recibir_respuesta c (listo h none) = falla
recibir_respuesta c termina = falla
recibir_respuesta c caida = falla
recibir_respuesta c espera = falla

-- The test of the code that means a refusal.
pub tras_respuesta : ℕ → (Cpu → Efecto (Unit {0})) → Cpu → Paquete → Efecto Paquete
tras_respuesta codigo si_hay_problema c r =
    if r.codigo_operacion == codigo then (si_hay_problema c >>= λ d _. vale d r) else vale c r

pub enviar_y_esperar : Cpu → Option Paquete → ℕ → (Cpu → Efecto (Unit {0})) → Efecto Paquete
unfolding recibir_respuesta tras_respuesta
enviar_y_esperar c none codigo si_hay_problema = falla
enviar_y_esperar c (some p) codigo si_hay_problema =
    recibir_respuesta c (cada_cpu c.hilo p) >>= tras_respuesta codigo si_hay_problema

abbrev pub pila : Cpu → Pila
pila c = c.current_pcb.current_stack

abbrev pub con_pila : Cpu → Pila → Cpu
con_pila c s = record c { current_pcb = record (c.current_pcb) { current_stack = s } }

abbrev pub stack_offset_from_context : Pila → ℕ
stack_offset_from_context s = (s.context_size * tamanio_registro_variable) % int_mod

abbrev pub stack_last_variable_position : Pila → ℕ
stack_last_variable_position s =
    int_sub (int_add s.stack_pointer (stack_offset_from_context s)) tamanio_registro_variable

-- The packet of `stack_push` and of `asignar`.
pub stack_push : Cpu → List ℕ → ℕ → ℕ → List ℕ → Efecto (Unit {0})
stack_push c datos size offset texto =
    let s = pila c in
    enviar_y_esperar c
      (paquete_escribir_umv s.base (int_add (int_sub s.stack_pointer s.base) offset) size datos)
      umv_segmentation_fault (λ d. ejecutar_si_hubo_stack_overflow d texto)
    >>= λ d _.
        vale (con_pila d (record (pila d) { context_size = int_add (pila d).context_size 1 })) tt

abbrev pub si_normal : {A : Type 0} → Estado → Cpu → A → Efecto A → Efecto A
si_normal normal c otro e = e
si_normal _ c otro e = vale c otro

-- The variable that was just pushed enters the dictionary.
abbrev pub anotar_variable : ℕ → Cpu → Efecto ℕ
anotar_variable nombre d =
    let posicion = stack_last_variable_position (pila d) in
    vale (record d { variables = (nombre, posicion) ∷ d.variables }) (int_add posicion 1)

-- The body of `definir_variable`.
abbrev pub definicion : Cpu → ℕ → List ℕ → Efecto ℕ
definicion c nombre texto =
    stack_push c (nombre ∷ []) 1 (stack_offset_from_context (pila c)) texto >>= λ d _.
    anotar_variable nombre d

pub definir_variable : Cpu → ℕ → List ℕ → Efecto ℕ
definir_variable c nombre texto = si_normal c.estado c 0 (definicion c nombre texto)

-- The body of `asignar`.
abbrev pub asignacion : Cpu → ℕ → ℕ → List ℕ → Efecto (Unit {0})
asignacion c direccion valor texto =
    enviar_y_esperar c
      (paquete_escribir_umv (pila c).base (int_sub direccion (pila c).base) 4 (encode_int valor))
      error_fallo_segmento (λ d. ejecutar_si_hubo_stack_overflow d texto)
    >>= λ d _. vale d tt

pub asignar : Cpu → ℕ → ℕ → List ℕ → Efecto (Unit {0})
asignar c direccion valor texto = si_normal c.estado c tt (asignacion c direccion valor texto)

-- The value is read out of the answer; `falla` where the answer is shorter than an `int`.
abbrev pub valor_de : Cpu → Option ℕ → Efecto ℕ
valor_de c none = falla
valor_de c (some n) = vale c n

-- The body of `desreferenciar`.
abbrev pub lectura_de : Cpu → ℕ → List ℕ → Efecto ℕ
lectura_de c direccion texto =
    enviar_y_esperar c (paquete_leer_umv (pila c).base (int_sub direccion (pila c).base) 4)
      error_fallo_segmento (λ d. ejecutar_si_hubo_segmentation_fault d texto)
    >>= λ d r. valor_de d (decode_int r.datos)

pub desreferenciar : Cpu → ℕ → List ℕ → Efecto ℕ
desreferenciar c direccion texto = si_normal c.estado c 0 (lectura_de c direccion texto)
