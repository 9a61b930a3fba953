-- ===== src/Cpu/Ciclo.antt =====
-- The loop of proyectoCPU/CPU.c: a PCB comes from the kernel, its instructions run for one quantum, and
-- the process goes back.
pub mod Quantum
mod Pruebas
use personal_copy_tp.Common.{
  ℕ, zero, suc, ◌*◌, ◌%◌, ◌==◌, ◌||◌, Bool, true, false, List, [], ◌∷◌, ◌++◌, Option, none, some,
  if◌then◌else◌, drop, decode_int, encode_int, int_add, int_mod,
}
use personal_copy_tp.Sockets.{Paquete, copiar}
use personal_copy_tp.Sockets.Paquetes.{paquete}
use personal_copy_tp.Kernel.{Pcb}
use personal_copy_tp.Kernel.Mensajes.{unserialize_pcb}
use personal_copy_tp.Umv.Servidor.{cada_cpu, umv_proceso_activo_cpu, umv_cae_cpu}
use personal_copy_tp.Cpu.Primitivas.{
  Cpu, Estado, normal, kill_cpu, end_process, Efecto, vale, sale, falla, ◌>>=◌, si_normal,
  recibir_respuesta, terminar_cpu, cpu_pcp_disconnection,
}
use personal_copy_tp.Cpu.Primitivas.Llamadas.{
  con_pc, terminar_proceso, solicitar_algo_umv, recreate_variable_dictionary,
}
use personal_copy_tp.Cpu.Primitivas.Sistema.{recibir_del_kernel}

abbrev pub pcp_cpu_program_to_execute : ℕ
pcp_cpu_program_to_execute = 26

-- `sizeof(t_intructions)`: where an instruction starts in the code, and its length.
abbrev pub sizeof_intructions : ℕ
sizeof_intructions = 8

abbrev pub con_estado : Cpu → Estado → Cpu
con_estado c estado = record c { estado = estado }

abbrev pub recibir_pcb : Cpu → Option Pcb → Efecto (Unit {0})
recibir_pcb c none = falla
recibir_pcb c (some pcb) = vale (record c { current_pcb = pcb }) tt

-- A packet with another code leaves the CPU with a null pointer for a PCB, which it uses.
unfoldable pub get_new_pcb : Cpu → Efecto (Unit {0})
get_new_pcb c = recibir_del_kernel c >>= λ d p.
    if p.codigo_operacion == pcp_cpu_program_to_execute
    then recibir_pcb d (unserialize_pcb p.datos)
    else falla

pub avisar_proceso_activo : Cpu → Efecto (Unit {0})
avisar_proceso_activo c =
    let d = record c { proceso_activo = true } in
    recibir_respuesta d
      (cada_cpu d.hilo (paquete umv_proceso_activo_cpu (encode_int d.current_pcb.pid)))
    >>= λ e r.
        if r.codigo_operacion == umv_proceso_activo_cpu
        then vale e tt
        else vale (con_estado e end_process) tt

abbrev pub con_etiquetas : Cpu → Option (List ℕ) → Efecto (Unit {0})
con_etiquetas c none = falla
con_etiquetas c (some bytes) = vale (record c { diccionario_etiquetas = bytes }) tt

pub traer_segmento_etiquetas : Cpu → Efecto (Unit {0})
traer_segmento_etiquetas c =
    let p = c.current_pcb in
    if p.tamanio_indice_etiquetas == 0
    then vale c tt
    else (solicitar_algo_umv c p.indice_etiquetas 0 p.tamanio_indice_etiquetas >>= λ d r.
        con_etiquetas d (copiar r.datos p.tamanio_indice_etiquetas))

pub reset_context_from_0 : Cpu → Efecto (Unit {0})
reset_context_from_0 c = recreate_variable_dictionary c >>= λ d _. traer_segmento_etiquetas d

-- `analizador` is `analizadorLinea` of the parser with the primitives of the CPU: the repository only
-- calls it. The text goes to it up to the size of the packet.
module _ (analizador : List ℕ → Cpu → Efecto (Unit {0})) where
  abbrev pub ejecutar_texto : Cpu → Option (List ℕ) → Efecto (Unit {0})
  ejecutar_texto c none = falla
  ejecutar_texto c (some texto) =
      analizador texto c >>= λ d _. vale (con_pc d (int_add d.current_pcb.program_counter 1)) tt

  abbrev pub ejecutar_en : Cpu → Option ℕ → Option ℕ → Efecto (Unit {0})
  ejecutar_en c none tamanio = falla
  ejecutar_en c (some start) none = falla
  ejecutar_en c (some start) (some tamanio) =
      solicitar_algo_umv c c.current_pcb.code_segment start tamanio >>= λ d r.
      ejecutar_texto d (copiar r.datos r.data_size)

  pub ejecutar_instruccion : Cpu → Efecto (Unit {0})
  ejecutar_instruccion c =
      solicitar_algo_umv c c.current_pcb.code_index
        (c.current_pcb.program_counter * sizeof_intructions % int_mod) sizeof_intructions
      >>= λ d r. ejecutar_en d (decode_int r.datos) (decode_int (drop 4 r.datos))

  -- `while (quantum_aux > 0 && estado == NORMAL)`.
  pub ejecutar_quantum : ℕ → Cpu → Efecto (Unit {0})
  ejecutar_quantum zero c = vale c tt
  ejecutar_quantum (suc quantum) c =
      let vuelta = ejecutar_instruccion c >>= λ d _. ejecutar_quantum quantum d in
      si_normal c.estado c tt vuelta

  abbrev pub es_kill_cpu : Estado → Bool
  es_kill_cpu kill_cpu = true
  es_kill_cpu _ = false

  pub terminar_turno : Cpu → Efecto (Unit {0})
  terminar_turno c =
      if es_kill_cpu c.estado || c.desconexion
      then terminar_cpu c
      else if c.proceso_activo
      then terminar_proceso c []
      else vale c tt

  -- One round of the loop of `main`.
  pub turno : ℕ → Cpu → Efecto (Unit {0})
  turno quantum c = get_new_pcb (con_estado c normal) >>= λ d _. avisar_proceso_activo d >>= λ e _.
      reset_context_from_0 e >>= λ f _. ejecutar_quantum quantum f >>= λ g _. terminar_turno g

-- `terminarCPUSinPCB`
pub terminar_cpu_sin_pcb : Cpu → Efecto (Unit {0})
terminar_cpu_sin_pcb c =
    sale (record c { al_kernel = c.al_kernel ++ paquete cpu_pcp_disconnection (97 ∷ 0 ∷ []) ∷ [] })
      (paquete umv_cae_cpu (97 ∷ 0 ∷ []) ∷ [])

-- The handlers of the signals SIGUSR1 and SIGINT.
pub senial_usuario : Cpu → Efecto (Unit {0})
senial_usuario c =
    if c.proceso_activo then vale (record c { desconexion = true }) tt else terminar_cpu_sin_pcb c

pub senial_interrupcion : Cpu → Efecto (Unit {0})
senial_interrupcion c =
    if c.proceso_activo then vale (con_estado c kill_cpu) tt else terminar_cpu_sin_pcb c
