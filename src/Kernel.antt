-- ===== src/Kernel.antt =====
-- proyectoKernel: the queues of processes, the semaphores of the programs and the devices, and what
-- the threads of the kernel do to them.
pub mod Validez
pub mod Rondas
pub mod Listas
pub mod Pasos
pub mod Plp
pub mod Mensajes
pub mod Cpus
use personal_copy_tp.Common.{
  ℕ, zero, suc, ◌+◌, ◌==◌, ◌&&◌, Bool, true, false, List, [], ◌∷◌, ◌++◌, Option, none, some,
  if◌then◌else◌, get_elem?, ltb, int_add, int_sub, int_ltb,
}
use personal_copy_tp.Commons.{ListOps}

-- estructuras.h
pub record Pila : Type 0 where
  pub size : ℕ
  pub base : ℕ
  pub context_size : ℕ
  pub stack_pointer : ℕ

pub record Pcb : Type 0 where
  pub pid : ℕ
  pub code_segment : ℕ
  pub current_stack : Pila
  pub code_index : ℕ
  pub indice_etiquetas : ℕ
  pub program_counter : ℕ
  pub tamanio_indice_etiquetas : ℕ

pub record NodoProceso : Type 0 where
  pub pcb : Pcb
  pub peso : ℕ
  pub soquet_prog : ℕ

pub record NodoCpu : Type 0 where
  pub socket : ℕ
  pub pid : ℕ

pub record NodoEjecutando : Type 0 where
  pub proceso : NodoProceso
  pub cpu : NodoCpu

pub record NodoBloqueadoIo : Type 0 where
  pub proceso : NodoProceso
  pub espera : ℕ

-- semaforos.h; a name is the bytes of a C string.
pub record Semaforo : Type 0 where
  pub nombre : List ℕ
  pub valor : ℕ
  pub bloqueados : List NodoProceso

pub record Dispositivo : Type 0 where
  pub nombre : List ℕ
  pub retardo : ℕ
  pub bloqueados : List NodoBloqueadoIo
  pub sem_io : ℕ

-- The globals. `despachando` is the process that the dispatcher has taken and not yet sent to a CPU,
-- `entregado` the one that it has sent and not yet put on the executing list. The `sem_` fields are the
-- values of the POSIX semaphores.
pub record Kernel : Type 0 where
  pub lista_nuevos : List NodoProceso
  pub lista_listos : List NodoProceso
  pub lista_ejecutando : List NodoEjecutando
  pub lista_terminados : List NodoProceso
  pub lista_cpu_libres : List NodoCpu
  pub despachando : Option NodoProceso
  pub entregado : Option NodoEjecutando
  pub semaforos : List Semaforo
  pub dispositivos : List Dispositivo
  pub sem_lista_nuevos : ℕ
  pub sem_lista_listos : ℕ
  pub sem_lista_terminados : ℕ
  pub sem_lista_cpu : ℕ
  pub sem_multiprog : ℕ

-- `strcmp` of two names.
unfoldable pub mismo_nombre : List ℕ → List ℕ → Bool
mismo_nombre [] [] = true
mismo_nombre [] (b ∷ bs) = false
mismo_nombre (a ∷ resto) [] = false
mismo_nombre (a ∷ resto) (b ∷ bs) = a == b && mismo_nombre resto bs

-- `dictionary_get`, and the change of the struct that it points to.
unfoldable pub buscar_semaforo : List ℕ → List Semaforo → Option Semaforo
buscar_semaforo nombre [] = none
buscar_semaforo nombre (s ∷ ss) =
    if mismo_nombre s.nombre nombre then some s else buscar_semaforo nombre ss

pub poner_semaforo : List ℕ → Semaforo → List Semaforo → List Semaforo
poner_semaforo nombre t [] = []
poner_semaforo nombre t (s ∷ ss) =
    if mismo_nombre s.nombre nombre then t ∷ ss else s ∷ poner_semaforo nombre t ss

pub buscar_dispositivo : List ℕ → List Dispositivo → Option Dispositivo
buscar_dispositivo nombre [] = none
buscar_dispositivo nombre (d ∷ ds) =
    if mismo_nombre d.nombre nombre then some d else buscar_dispositivo nombre ds

pub poner_dispositivo : List ℕ → Dispositivo → List Dispositivo → List Dispositivo
poner_dispositivo nombre e [] = []
poner_dispositivo nombre e (d ∷ ds) =
    if mismo_nombre d.nombre nombre then e ∷ ds else d ∷ poner_dispositivo nombre e ds

-- globals.c. The first node with the PID is taken out.
pub remove_by_pid : ℕ → List NodoEjecutando → List NodoEjecutando
remove_by_pid pid [] = []
remove_by_pid pid (e ∷ es) = if e.proceso.pcb.pid == pid then es else e ∷ remove_by_pid pid es

pub remove_from_executing_list : Kernel → NodoEjecutando → Kernel
unfolding remove_by_pid
remove_from_executing_list k e = record k {
  lista_ejecutando = remove_by_pid e.proceso.pcb.pid k.lista_ejecutando;
}

pub add_cpu_to_cpu_free_list : Kernel → NodoCpu → Kernel
add_cpu_to_cpu_free_list k cpu = record k {
  lista_cpu_libres = k.lista_cpu_libres ++ cpu ∷ [];
  sem_lista_cpu = k.sem_lista_cpu + 1;
}

pub add_to_ready_queue : Kernel → NodoProceso → Kernel
add_to_ready_queue k p = record k {
  lista_listos = k.lista_listos ++ p ∷ [];
  sem_lista_listos = k.sem_lista_listos + 1;
}

pub stop_processing : Kernel → NodoEjecutando → Kernel
unfolding remove_from_executing_list add_cpu_to_cpu_free_list
stop_processing k e = add_cpu_to_cpu_free_list (remove_from_executing_list k e) e.cpu

pub pcp_exit_process : Kernel → NodoEjecutando → Kernel
unfolding remove_from_executing_list add_cpu_to_cpu_free_list
pcp_exit_process k e =
    let k' : Kernel = record k {
      lista_terminados = k.lista_terminados ++ e.proceso ∷ [];
      sem_lista_terminados = k.sem_lista_terminados + 1;
      sem_multiprog = k.sem_multiprog + 1;
    } in
    remove_from_executing_list (add_cpu_to_cpu_free_list k' e.cpu) e

-- semaforos.c
pub block_process : List NodoProceso → NodoEjecutando → List NodoProceso
block_process bloqueados e = bloqueados ++ e.proceso ∷ []

-- `queue_pop` on the blocked processes, after `valor++`.
pub desbloquear : Semaforo → List NodoProceso → Semaforo × Option NodoProceso
desbloquear s [] = (s, none)
desbloquear s (p ∷ ps) = (record s { bloqueados = ps }, some p)

pub semaforo_signal : Semaforo → Semaforo × Option NodoProceso
unfolding desbloquear
semaforo_signal s = desbloquear (record s { valor = int_add s.valor 1 }) s.bloqueados

-- Whether the process is blocked.
pub semaforo_wait : Semaforo → NodoEjecutando → Semaforo × Bool
unfolding block_process
semaforo_wait s e =
    if int_ltb 0 s.valor
    then (record s { valor = int_sub s.valor 1 }, false)
    else (record s { bloqueados = block_process s.bloqueados e }, true)

abbrev pub con_pcb : NodoEjecutando → Pcb → NodoEjecutando
con_pcb e pcb = record e { proceso = record (e.proceso) { pcb = pcb } }

-- A change of the node that stands at `i` in the executing list, through its pointer.
pub poner_en : ℕ → NodoEjecutando → List NodoEjecutando → List NodoEjecutando
poner_en i e [] = []
poner_en zero e (d ∷ ds) = e ∷ ds
poner_en (suc i) e (d ∷ ds) = d ∷ poner_en i e ds

abbrev pub actualizar_pcb : Kernel → ℕ → NodoEjecutando → Pcb → Kernel
actualizar_pcb k i e pcb = record k {
  lista_ejecutando = poner_en i (con_pcb e pcb) k.lista_ejecutando;
}

abbrev pub despertar : Kernel → Option NodoProceso → Kernel
despertar k none = k
despertar k (some p) = add_to_ready_queue k p
