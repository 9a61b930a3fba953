-- ===== src/Kernel/Rondas.antt =====
-- proyectoKernel/accionesParaCPU.c, dispatcher.c, entradaSalida.c and plp.c: one round of each thread.
pub mod Seguras
pub mod Llegadas
pub mod Esperas
mod Pruebas
use personal_copy_tp.Common.{
  ℕ, zero, suc, ◌+◌, ◌-◌, ◌==◌, Bool, true, false, List, [], ◌∷◌, ◌++◌, Option, none, some,
  if◌then◌else◌, ltb, decode_int,
}
use personal_copy_tp.Commons.{ListOps}
use personal_copy_tp.Sockets.{Paquete}
use personal_copy_tp.Kernel.{
  Pcb, NodoProceso, NodoCpu, NodoEjecutando, NodoBloqueadoIo, Semaforo, Dispositivo, Kernel,
  buscar_semaforo, poner_semaforo, buscar_dispositivo, poner_dispositivo,
  remove_from_executing_list, add_cpu_to_cpu_free_list, add_to_ready_queue, stop_processing,
  pcp_exit_process, semaforo_signal, semaforo_wait, con_pcb, actualizar_pcb, despertar,
}

-- A round changes the state, or waits on a semaphore, or uses a null pointer. A thread that waits on the
-- second of two semaphores holds a unit of the first, which the model counts as still free.
pub data Ronda : Type 0 where
  siguiente : Kernel → Ronda
  bloqueada : Ronda
  nulo : Ronda

-- accionesParaCPU.c: `e` is the node at `i` of the executing list, whose CPU sent the message.
pub cpu_finishes_quantum : Kernel → ℕ → NodoEjecutando → Pcb → Ronda
cpu_finishes_quantum k i e tmp =
    let e' = con_pcb e tmp in
    siguiente (add_to_ready_queue (stop_processing (actualizar_pcb k i e tmp) e') e'.proceso)

pub signal_request : Kernel → List ℕ → Ronda
signal_request k nombre = elim (buscar_semaforo nombre k.semaforos) [
  | none ↦ nulo
  | some s ↦
      let r = semaforo_signal s in
      siguiente (despertar (record k { semaforos = poner_semaforo nombre r.0 k.semaforos }) r.1)
]

-- What follows the answer to a process that is blocked: `leido` is what `onWaitGetProcessFromCPU`
-- gives, a null pointer if the message had another code.
pub on_wait_update : Kernel → ℕ → NodoEjecutando → Option Pcb → Ronda
on_wait_update k i e none = nulo
on_wait_update k i e (some pcb) =
    siguiente (stop_processing (actualizar_pcb k i e pcb) (con_pcb e pcb))

pub wait_request : Kernel → ℕ → NodoEjecutando → List ℕ → Option Pcb → Ronda
unfolding on_wait_update
wait_request k i e nombre leido = elim (buscar_semaforo nombre k.semaforos) [
  | none ↦ nulo
  | some s ↦
      let r = semaforo_wait s e in
      let k' : Kernel = record k { semaforos = poner_semaforo nombre r.0 k.semaforos } in
      if r.1 then on_wait_update k' i e leido else siguiente k'
]

-- `exceptionCPU` does the same to the queues.
pub cpu_finishes_process : Kernel → ℕ → NodoEjecutando → Pcb → Ronda
cpu_finishes_process k i e pcb =
    siguiente (pcp_exit_process (actualizar_pcb k i e pcb) (con_pcb e pcb))

pub cpu_disconnects : Kernel → ℕ → NodoEjecutando → Pcb → Ronda
cpu_disconnects k i e tmp =
    let e' = con_pcb e tmp in
    siguiente
      (add_to_ready_queue (remove_from_executing_list (actualizar_pcb k i e tmp) e') e'.proceso)

-- entradaSalida.c
pub block_process_io : Dispositivo → NodoBloqueadoIo → Dispositivo
block_process_io d n = record d { bloqueados = d.bloqueados ++ n ∷ []; sem_io = d.sem_io + 1 }

pub do_in_out : Kernel → NodoProceso → List ℕ → ℕ → Ronda
unfolding block_process_io
do_in_out k p nombre tiempo = elim (buscar_dispositivo nombre k.dispositivos) [
  | none ↦ nulo
  | some d ↦ siguiente (record k {
    dispositivos =
        poner_dispositivo nombre (block_process_io d (record { proceso = p; espera = tiempo }))
          k.dispositivos;
  })
]

pub in_out : Kernel → ℕ → NodoEjecutando → Pcb → List ℕ → ℕ → Ronda
in_out k i e pcb nombre tiempo =
    let e' = con_pcb e pcb in
    do_in_out (stop_processing (actualizar_pcb k i e pcb) e') e'.proceso nombre tiempo

-- A round of the thread of the device with this name; the wait for the device is left out.
pub sacar_de_dispositivo : Kernel → List ℕ → Dispositivo → List NodoBloqueadoIo → Ronda
sacar_de_dispositivo k nombre d [] = nulo
sacar_de_dispositivo k nombre d (n ∷ ns) = siguiente (
    add_to_ready_queue
      (record k {
        dispositivos =
            poner_dispositivo nombre (record d { bloqueados = ns; sem_io = d.sem_io - 1 })
              k.dispositivos;
      })
      n.proceso)

pub in_out_thread : Kernel → List ℕ → Ronda
in_out_thread k nombre = elim (buscar_dispositivo nombre k.dispositivos) [
  | none ↦ nulo
  | some d ↦ if d.sem_io == 0 then bloqueada else sacar_de_dispositivo k nombre d d.bloqueados
]

-- dispatcher.c: the parts of a round, of which the first two can wait. The other threads run between them.
pub sacar_listo : Kernel → List NodoProceso → Ronda
sacar_listo k [] = nulo
sacar_listo k (p ∷ ps) = siguiente (record k {
  lista_listos = ps;
  sem_lista_listos = k.sem_lista_listos - 1;
  despachando = some p;
})

pub get_process_to_dispatch : Kernel → Ronda
unfolding sacar_listo
get_process_to_dispatch k =
    if k.sem_lista_listos == 0 then bloqueada else sacar_listo k k.lista_listos

unfoldable pub sacar_cpu : Kernel → NodoProceso → List NodoCpu → Ronda
sacar_cpu k p [] = nulo
sacar_cpu k p (c ∷ cs) = siguiente (record k {
  lista_cpu_libres = cs;
  sem_lista_cpu = k.sem_lista_cpu - 1;
  despachando = none;
  entregado = some (record { proceso = p; cpu = c });
})

unfoldable pub get_cpu_and_dispatch : Kernel → NodoProceso → Ronda
unfolding sacar_cpu
get_cpu_and_dispatch k p =
    if k.sem_lista_cpu == 0 then bloqueada else sacar_cpu k p k.lista_cpu_libres

pub add_to_executing_list : Kernel → NodoEjecutando → Kernel
add_to_executing_list k e = record k {
  lista_ejecutando = k.lista_ejecutando ++ e ∷ [];
  entregado = none;
}

-- pcp.c
abbrev pub handshake : ℕ
handshake = 1

-- What a new CPU says on its socket; an answer that does not come is freed through a null pointer.
pub do_handshake_cpu : Kernel → ℕ → Option Paquete → Ronda
do_handshake_cpu k socket none = nulo
do_handshake_cpu k socket (some respuesta) =
    if respuesta.codigo_operacion == handshake
    then elim (decode_int respuesta.datos) [
      | none ↦ nulo
      | some pid ↦ siguiente (add_cpu_to_cpu_free_list k (record { socket = socket; pid = pid }))
    ]
    else siguiente k

-- plp.c
pub algoritmo_sjf : NodoProceso → NodoProceso → Bool
algoritmo_sjf a b = ltb a.peso b.peso

pub sacar_nuevo : Kernel → List NodoProceso → Ronda
sacar_nuevo k [] = nulo
sacar_nuevo k (p ∷ ps) = siguiente (record k {
  lista_nuevos = ps;
  lista_listos = k.lista_listos ++ p ∷ [];
  sem_multiprog = k.sem_multiprog - 1;
  sem_lista_nuevos = k.sem_lista_nuevos - 1;
  sem_lista_listos = k.sem_lista_listos + 1;
})

pub hilo_multiprogramacion : Kernel → Ronda
unfolding sacar_nuevo
hilo_multiprogramacion k =
    if k.sem_multiprog == 0
    then bloqueada
    else if k.sem_lista_nuevos == 0
    then bloqueada
    else sacar_nuevo k k.lista_nuevos

pub sacar_terminado : Kernel → List NodoProceso → Ronda
sacar_terminado k [] = nulo
sacar_terminado k (p ∷ ps) =
    siguiente
      (record k { lista_terminados = ps; sem_lista_terminados = k.sem_lista_terminados - 1 })

pub hilo_destruccion : Kernel → Ronda
unfolding sacar_terminado
hilo_destruccion k =
    if k.sem_lista_terminados == 0 then bloqueada else sacar_terminado k k.lista_terminados

module _ (lib : ListOps NodoProceso) where
  open lib use {list_add, list_sort}

  pub encolar_pcb : Kernel → Pcb → ℕ → ℕ → Kernel
  encolar_pcb k pcb peso socket = record k {
    lista_nuevos =
        list_sort algoritmo_sjf
          (list_add k.lista_nuevos (record { pcb = pcb; peso = peso; soquet_prog = socket }));
    sem_lista_nuevos = k.sem_lista_nuevos + 1;
  }
