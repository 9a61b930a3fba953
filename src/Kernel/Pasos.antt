-- ===== src/Kernel/Pasos.antt =====
-- The threads of proyectoKernel in any order: the rounds as steps, and what holds in every state that
-- they reach. `removeCPUFromKernel` (Kernel/Cpus), for an idle CPU, is
-- left out of them: it breaks what is kept here.
use personal_copy_tp.Common.{ℕ, ◌≤◌, ◌≡◌, ◌≢◌, subst, List, Option, some, none, get_elem?, arith}
use personal_copy_tp.Commons.{ListOps}
use personal_copy_tp.Sockets.{Paquete}
use personal_copy_tp.Kernel.{
  Pcb, NodoProceso, NodoEjecutando, Semaforo, Dispositivo, Kernel, buscar_semaforo,
  buscar_dispositivo,
}
use personal_copy_tp.Kernel.Rondas.{
  Ronda, siguiente, nulo, cpu_finishes_quantum, signal_request, wait_request, cpu_finishes_process,
  cpu_disconnects, in_out, in_out_thread, get_process_to_dispatch, get_cpu_and_dispatch,
  add_to_executing_list, do_handshake_cpu, hilo_multiprogramacion, hilo_destruccion, encolar_pcb,
}
use personal_copy_tp.Kernel.Validez.{IsValid, Segura, en_sistema}
use personal_copy_tp.Kernel.Rondas.Seguras.{
  cpu_finishes_quantum-Segura, cpu_finishes_process-Segura, cpu_disconnects-Segura,
  wait_request-Segura, in_out-Segura, signal_request-Segura, in_out_thread-Segura,
  get_process_to_dispatch-Segura, get_cpu_and_dispatch-Segura, get_process_to_dispatch-ne-nulo,
  get_cpu_and_dispatch-ne-nulo, in_out_thread-ne-nulo, hilo_multiprogramacion-Segura,
  hilo_destruccion-Segura, encolar_pcb-IsValid,
}
use personal_copy_tp.Kernel.Rondas.Llegadas.{
  add_to_executing_list-IsValid, do_handshake_cpu-IsValid,
}

module _ (lib : ListOps NodoProceso) where
  -- One round. A message of a CPU comes with the node of its process; the semaphores and devices that
  -- messages name exist.
  pub data Paso (k k' : Kernel) : Type 0 where
    fin_de_quantum :
        (j : ℕ) (e : NodoEjecutando) (tmp : Pcb)
        → get_elem? k.lista_ejecutando j ≡ some e
        → cpu_finishes_quantum k j e tmp ≡ siguiente k'
        → Paso k k'
    fin_de_proceso :
        (j : ℕ) (e : NodoEjecutando) (pcb : Pcb)
        → get_elem? k.lista_ejecutando j ≡ some e
        → cpu_finishes_process k j e pcb ≡ siguiente k'
        → Paso k k'
    desconexion :
        (j : ℕ) (e : NodoEjecutando) (tmp : Pcb)
        → get_elem? k.lista_ejecutando j ≡ some e
        → cpu_disconnects k j e tmp ≡ siguiente k'
        → Paso k k'
    espera :
        (j : ℕ) (e : NodoEjecutando) (nombre : List ℕ) (leido : Pcb) (s : Semaforo)
        → get_elem? k.lista_ejecutando j ≡ some e
        → buscar_semaforo nombre k.semaforos ≡ some s
        → wait_request k j e nombre (some leido) ≡ siguiente k'
        → Paso k k'
    senial :
        (nombre : List ℕ) (s : Semaforo)
        → buscar_semaforo nombre k.semaforos ≡ some s
        → signal_request k nombre ≡ siguiente k'
        → Paso k k'
    entrada_salida :
        (j : ℕ) (e : NodoEjecutando) (pcb : Pcb) (nombre : List ℕ) (tiempo : ℕ) (d : Dispositivo)
        → get_elem? k.lista_ejecutando j ≡ some e
        → buscar_dispositivo nombre k.dispositivos ≡ some d
        → in_out k j e pcb nombre tiempo ≡ siguiente k'
        → Paso k k'
    fin_de_espera :
        (nombre : List ℕ) (d : Dispositivo)
        → buscar_dispositivo nombre k.dispositivos ≡ some d
        → in_out_thread k nombre ≡ siguiente k'
        → Paso k k'
    toma :
        k.despachando ≡ none
        → k.entregado ≡ none
        → get_process_to_dispatch k ≡ siguiente k'
        → Paso k k'
    despacha :
        (p : NodoProceso)
        → k.despachando ≡ some p
        → k.entregado ≡ none
        → get_cpu_and_dispatch k p ≡ siguiente k'
        → Paso k k'
    anota : (e : NodoEjecutando) → k.entregado ≡ some e → add_to_executing_list k e ≡ k' → Paso k k'
    llega :
        (socket : ℕ) (respuesta : Option Paquete)
        → do_handshake_cpu k socket respuesta ≡ siguiente k'
        → Paso k k'
    admite : hilo_multiprogramacion k ≡ siguiente k' → Paso k k'
    destruye : hilo_destruccion k ≡ siguiente k' → Paso k k'
    encola : (pcb : Pcb) (peso socket : ℕ) → encolar_pcb lib k pcb peso socket ≡ k' → Paso k k'

  pub data Alcanza (k : Kernel) : Kernel → Type 0 where
    inicio : Alcanza k k
    otro : {k' k'' : Kernel} → Alcanza k k' → Paso k' k'' → Alcanza k k''

  Paso-IsValid : (grado : ℕ) {k k' : Kernel} → IsValid grado 0 k → Paso k k' → IsValid grado 0 k'
  Paso-IsValid grado i (fin_de_quantum j e tmp at q) =
      subst (Segura grado) q (cpu_finishes_quantum-Segura grado _ i j e at tmp)
  Paso-IsValid grado i (fin_de_proceso j e pcb at q) =
      subst (Segura grado) q (cpu_finishes_process-Segura grado _ i j e at pcb)
  Paso-IsValid grado i (desconexion j e tmp at q) =
      subst (Segura grado) q (cpu_disconnects-Segura grado _ i j e at tmp)
  Paso-IsValid grado i (espera j e nombre leido s at found q) =
      subst (Segura grado) q (wait_request-Segura grado _ i j e at nombre leido found)
  Paso-IsValid grado i (senial nombre s found q) =
      subst (Segura grado) q (signal_request-Segura grado _ i nombre found)
  Paso-IsValid grado i (entrada_salida j e pcb nombre tiempo d at found q) =
      subst (Segura grado) q (in_out-Segura grado _ i j e at pcb nombre tiempo found)
  Paso-IsValid grado i (fin_de_espera nombre d found q) =
      subst (Segura grado) q (in_out_thread-Segura grado _ i nombre found)
  Paso-IsValid grado i (toma idle free q) =
      subst (Segura grado) q (get_process_to_dispatch-Segura grado _ i idle)
  Paso-IsValid grado i (despacha p busy free q) =
      subst (Segura grado) q (get_cpu_and_dispatch-Segura grado _ i p busy free)
  Paso-IsValid grado i (anota e sent q) =
      subst (IsValid grado 0) q (add_to_executing_list-IsValid grado _ i e sent)
  Paso-IsValid grado i (llega socket respuesta q) =
      do_handshake_cpu-IsValid grado _ i socket respuesta q
  Paso-IsValid grado i (admite q) = subst (Segura grado) q (hilo_multiprogramacion-Segura grado _ i)
  Paso-IsValid grado i (destruye q) = subst (Segura grado) q (hilo_destruccion-Segura grado _ i)
  Paso-IsValid grado i (encola pcb peso socket q) =
      subst (IsValid grado 0) q (encolar_pcb-IsValid grado _ i lib pcb peso socket)

  -- From a valid state the rounds of `Paso`, in any order, reach only states in which every semaphore
  -- counts its queue and no more processes than the degree of multiprogramming are ready, dispatched,
  -- running or blocked. The removal of an idle CPU is none of these rounds.
  pub Alcanza-IsValid :
      (grado : ℕ) {k k' : Kernel}
      → IsValid grado 0 k
      → Alcanza k k'
      → IsValid grado 0 k' × (en_sistema k' ≤ grado)
  Alcanza-IsValid grado i inicio = (i, omega (arith, i.multiprogramacion))
  Alcanza-IsValid grado i (otro a p) =
      let j = Paso-IsValid grado (Alcanza-IsValid grado i a).0 p in
      (j, omega (arith, j.multiprogramacion))

  Segura-ne-nulo : (grado : ℕ) (r : Ronda) → Segura grado r → r ≢ nulo
  Segura-ne-nulo grado r h e = subst (Segura grado) e h

  -- In the states that the rounds of `Paso`, of which the removal of an idle CPU is none, reach from a
  -- valid one, no thread takes a process or a CPU out of an empty queue: neither those of the
  -- multiprogramming, of the ends and of the dispatcher, nor that of a device that is there.
  pub Alcanza-sin_nulos :
      (grado : ℕ) (p : NodoProceso) (nombre : List ℕ) (d : Dispositivo) {k k' : Kernel}
      → IsValid grado 0 k
      → Alcanza k k'
      → buscar_dispositivo nombre k'.dispositivos ≡ some d
      → (hilo_multiprogramacion k' ≢ nulo)
        × (hilo_destruccion k' ≢ nulo)
        × (get_process_to_dispatch k' ≢ nulo)
        × (get_cpu_and_dispatch k' p ≢ nulo)
        × (in_out_thread k' nombre ≢ nulo)
  Alcanza-sin_nulos grado p nombre d i a found =
      let j = (Alcanza-IsValid grado i a).0 in
      (
        Segura-ne-nulo grado _ (hilo_multiprogramacion-Segura grado _ j),
        Segura-ne-nulo grado _ (hilo_destruccion-Segura grado _ j),
        get_process_to_dispatch-ne-nulo grado _ j,
        get_cpu_and_dispatch-ne-nulo grado _ j p,
        in_out_thread-ne-nulo grado _ j nombre found,
      )
