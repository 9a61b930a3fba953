-- ===== src/Kernel/Rondas/Seguras.antt =====
-- Each round of proyectoKernel keeps the invariant of the queues and uses no null pointer, if the
-- names in the messages exist.
use personal_copy_tp.Common.{
  subst, ℕ, Bool, ◌-◌, ◌<◌, ◌==◌, ◌≡◌, ◌≢◌, refl, ap, true, false, List, [], ◌∷◌, none, some,
  if◌then◌else◌, get_elem?, length, length-append, arith, Bool-cases, inl, inr, int_ltb, int_sub,
  int_add,
}
use personal_copy_tp.Commons.{ListOps}
use personal_copy_tp.Kernel.{
  Pcb, NodoProceso, NodoCpu, NodoEjecutando, NodoBloqueadoIo, Semaforo, Dispositivo, Kernel,
  buscar_semaforo, poner_semaforo, buscar_dispositivo, stop_processing, semaforo_signal,
  semaforo_wait, block_process, con_pcb, actualizar_pcb, despertar, desbloquear,
}
use personal_copy_tp.Kernel.Rondas.{
  Ronda, bloqueada, nulo, cpu_finishes_quantum, signal_request, wait_request, cpu_finishes_process,
  cpu_disconnects, block_process_io, do_in_out, in_out, in_out_thread, get_process_to_dispatch,
  get_cpu_and_dispatch, algoritmo_sjf, hilo_multiprogramacion, hilo_destruccion, encolar_pcb,
  sacar_de_dispositivo, sacar_listo, sacar_cpu, sacar_nuevo, sacar_terminado,
}
use personal_copy_tp.Kernel.Listas.{length-perm, get_elem?-poner_en, buscar_dispositivo-Contado}
use personal_copy_tp.Kernel.Validez.{
  IsValid, Segura, en_despacho, en_entrega, add_to_ready_queue-IsValid,
  remove_from_executing_list-IsValid, actualizar_pcb-IsValid, stop_processing-IsValid,
  pcp_exit_process-IsValid, poner_semaforo-IsValid, poner_dispositivo-IsValid,
}

Segura-if :
    (grado : ℕ) (b : Bool) (r : Ronda)
    → (b ≡ false → Segura grado r)
    → Segura grado (if b then bloqueada else r)
Segura-if grado true r h = tt
Segura-if grado false r h = h refl

if-ne-nulo : (b : Bool) (r : Ronda) → (b ≡ false → r ≢ nulo) → (if b then bloqueada else r) ≢ nulo
if-ne-nulo true r h = λ q. cc
if-ne-nulo false r h = h refl

module _ (grado : ℕ) (k : Kernel) (i : IsValid grado 0 k) where
  -- Rounds on a message of the CPU whose process is the node at `j` of the executing list.
  module _ (j : ℕ) (e : NodoEjecutando) (at : get_elem? k.lista_ejecutando j ≡ some e) where
    stop-IsValid :
        (pcb : Pcb) → IsValid grado 1 (stop_processing (actualizar_pcb k j e pcb) (con_pcb e pcb))
    stop-IsValid pcb =
        stop_processing-IsValid grado 0 j (actualizar_pcb k j e pcb) (con_pcb e pcb)
          (actualizar_pcb-IsValid grado 0 j k e pcb i)
          (get_elem?-poner_en j (con_pcb e pcb) k.lista_ejecutando at)

    pub cpu_finishes_quantum-Segura : (tmp : Pcb) → Segura grado (cpu_finishes_quantum k j e tmp)
    unfolding cpu_finishes_quantum
    cpu_finishes_quantum-Segura tmp =
        add_to_ready_queue-IsValid grado 0 _ (con_pcb e tmp).proceso (stop-IsValid tmp)

    pub cpu_finishes_process-Segura : (pcb : Pcb) → Segura grado (cpu_finishes_process k j e pcb)
    unfolding cpu_finishes_process
    cpu_finishes_process-Segura pcb =
        pcp_exit_process-IsValid grado j (actualizar_pcb k j e pcb) (con_pcb e pcb)
          (actualizar_pcb-IsValid grado 0 j k e pcb i)
          (get_elem?-poner_en j (con_pcb e pcb) k.lista_ejecutando at)

    pub cpu_disconnects-Segura : (tmp : Pcb) → Segura grado (cpu_disconnects k j e tmp)
    unfolding cpu_disconnects
    cpu_disconnects-Segura tmp = add_to_ready_queue-IsValid grado 0 _ (con_pcb e tmp).proceso (
        remove_from_executing_list-IsValid grado 0 j (actualizar_pcb k j e tmp) (con_pcb e tmp)
          (actualizar_pcb-IsValid grado 0 j k e tmp i)
          (get_elem?-poner_en j (con_pcb e tmp) k.lista_ejecutando at))

    block-IsValid :
        (nombre : List ℕ) (leido : Pcb) {s : Semaforo}
        → buscar_semaforo nombre k.semaforos ≡ some s
        → IsValid grado 0 (
            stop_processing
              (actualizar_pcb
                (record k {
                  semaforos =
                      poner_semaforo nombre
                        (record s { bloqueados = block_process s.bloqueados e })
                        k.semaforos;
                })
                j
                e
                leido)
              (con_pcb e leido))
    unfolding stop_processing block_process
    block-IsValid nombre leido {s} found =
        poner_semaforo-IsValid grado 1 0
          (stop_processing (actualizar_pcb k j e leido) (con_pcb e leido)) nombre
          (record s { bloqueados = block_process s.bloqueados e }) (stop-IsValid leido) found
          (omega (arith, length-append s.bloqueados (e.proceso ∷ [])))

    pub wait_request-Segura :
        (nombre : List ℕ) (leido : Pcb) {s : Semaforo}
        → buscar_semaforo nombre k.semaforos ≡ some s
        → Segura grado (wait_request k j e nombre (some leido))
    unfolding wait_request semaforo_wait
    wait_request-Segura nombre leido {s} found = elim (Bool-cases (int_ltb 0 s.valor)) [
      | inl free ↦
          rw (found, wait_request, free)
            (poner_semaforo-IsValid grado 0 0 k nombre (record s { valor = int_sub s.valor 1 }) i
              found refl)
      | inr taken ↦ rw (found, wait_request, taken) (block-IsValid nombre leido found)
    ]

    pub in_out-Segura :
        (pcb : Pcb) (nombre : List ℕ) (tiempo : ℕ) {d : Dispositivo}
        → buscar_dispositivo nombre k.dispositivos ≡ some d
        → Segura grado (in_out k j e pcb nombre tiempo)
    unfolding in_out do_in_out block_process_io stop_processing
    in_out-Segura pcb nombre tiempo {d} found =
        let n : NodoBloqueadoIo = record { proceso = (con_pcb e pcb).proceso; espera = tiempo } in
        let counted = buscar_dispositivo-Contado nombre k.dispositivos found i.dispositivos in
        let more = length-append d.bloqueados (n ∷ []) in
        rw (found, do_in_out)
          (poner_dispositivo-IsValid grado 1 0
            (stop_processing (actualizar_pcb k j e pcb) (con_pcb e pcb)) nombre
            (block_process_io d n) (stop-IsValid pcb) found (omega arith) (omega arith))

  desbloquear-Segura :
      (nombre : List ℕ) (s : Semaforo) (xs : List NodoProceso) {r : Semaforo}
      → buscar_semaforo nombre k.semaforos ≡ some r
      → r.bloqueados ≡ xs
      → s.bloqueados ≡ xs
      → IsValid grado 0 (
          despertar
            (record k { semaforos = poner_semaforo nombre (desbloquear s xs).0 k.semaforos })
            (desbloquear s xs).1)
  unfolding desbloquear
  desbloquear-Segura nombre s [] found e e' =
      poner_semaforo-IsValid grado 0 0 k nombre s i found (omega (arith, ap length e, ap length e'))
  desbloquear-Segura nombre s (p ∷ ps) found e e' = add_to_ready_queue-IsValid grado 0 _ p (
      poner_semaforo-IsValid grado 0 1 k nombre (record s { bloqueados = ps }) i found
        (omega (arith, ap length e)))

  pub signal_request-Segura :
      (nombre : List ℕ) {s : Semaforo}
      → buscar_semaforo nombre k.semaforos ≡ some s
      → Segura grado (signal_request k nombre)
  unfolding signal_request semaforo_signal
  signal_request-Segura nombre {s} found =
      rw (found, signal_request)
        (desbloquear-Segura nombre (record s { valor = int_add s.valor 1 }) s.bloqueados found refl
          refl)

  sacar_de_dispositivo-Segura :
      (nombre : List ℕ) (d : Dispositivo) (ns : List NodoBloqueadoIo)
      → buscar_dispositivo nombre k.dispositivos ≡ some d
      → d.bloqueados ≡ ns
      → (d.sem_io == 0) ≡ false
      → Segura grado (sacar_de_dispositivo k nombre d ns)
  unfolding sacar_de_dispositivo
  sacar_de_dispositivo-Segura nombre d [] found e busy =
      let counted = buscar_dispositivo-Contado nombre k.dispositivos found i.dispositivos in
      let empty = ap length e in ground arith
  sacar_de_dispositivo-Segura nombre d (n ∷ ns) found e busy =
      let counted = buscar_dispositivo-Contado nombre k.dispositivos found i.dispositivos in
      add_to_ready_queue-IsValid grado 0 _ n.proceso (
        poner_dispositivo-IsValid grado 0 1 k nombre
          (record d { bloqueados = ns; sem_io = d.sem_io - 1 }) i found (omega (arith, ap length e))
          (omega (arith, ap length e)))

  pub in_out_thread-Segura :
      (nombre : List ℕ) {d : Dispositivo}
      → buscar_dispositivo nombre k.dispositivos ≡ some d
      → Segura grado (in_out_thread k nombre)
  unfolding in_out_thread
  in_out_thread-Segura nombre {d} found = elim (Bool-cases (d.sem_io == 0)) [
    | inl idle ↦ rw (found, in_out_thread, idle) tt
    | inr busy ↦
        rw (found, in_out_thread, busy)
          (sacar_de_dispositivo-Segura nombre d d.bloqueados found refl busy)
  ]

  sacar_listo-Segura :
      (xs : List NodoProceso)
      → k.lista_listos ≡ xs
      → (k.sem_lista_listos == 0) ≡ false
      → k.despachando ≡ none
      → Segura grado (sacar_listo k xs)
  unfolding sacar_listo
  sacar_listo-Segura [] e some_left idle =
      let empty = ap length e in let counted = i.listos in ground arith
  sacar_listo-Segura (p ∷ ps) e some_left idle =
      let len = ap length e in
      let free = ap en_despacho idle in
      record {
        nuevos = i.nuevos;
        listos = omega (arith, i.listos);
        terminados = i.terminados;
        cpus = i.cpus;
        dispositivos = i.dispositivos;
        multiprogramacion = omega (arith, i.multiprogramacion);
      }

  pub get_process_to_dispatch-Segura :
      k.despachando ≡ none → Segura grado (get_process_to_dispatch k)
  unfolding get_process_to_dispatch
  get_process_to_dispatch-Segura idle =
      Segura-if grado (k.sem_lista_listos == 0) (sacar_listo k k.lista_listos)
        (λ go. sacar_listo-Segura k.lista_listos refl go idle)

  sacar_listo-ne-nulo :
      (xs : List NodoProceso)
      → k.lista_listos ≡ xs
      → (k.sem_lista_listos == 0) ≡ false
      → sacar_listo k xs ≢ nulo
  unfolding sacar_listo
  sacar_listo-ne-nulo [] e some_left =
      let empty = ap length e in let counted = i.listos in ground arith
  sacar_listo-ne-nulo (p ∷ ps) e some_left = λ q. cc

  pub get_process_to_dispatch-ne-nulo : get_process_to_dispatch k ≢ nulo
  unfolding get_process_to_dispatch
  get_process_to_dispatch-ne-nulo =
      if-ne-nulo (k.sem_lista_listos == 0) (sacar_listo k k.lista_listos)
        (sacar_listo-ne-nulo k.lista_listos refl)

  sacar_cpu-ne-nulo :
      (p : NodoProceso) (cs : List NodoCpu)
      → k.lista_cpu_libres ≡ cs
      → (k.sem_lista_cpu == 0) ≡ false
      → sacar_cpu k p cs ≢ nulo
  unfolding sacar_cpu
  sacar_cpu-ne-nulo p [] e some_left =
      let empty = ap length e in let counted = i.cpus in ground arith
  sacar_cpu-ne-nulo p (c ∷ cs) e some_left = λ q. cc

  pub get_cpu_and_dispatch-ne-nulo : (p : NodoProceso) → get_cpu_and_dispatch k p ≢ nulo
  unfolding get_cpu_and_dispatch
  get_cpu_and_dispatch-ne-nulo p =
      if-ne-nulo (k.sem_lista_cpu == 0) (sacar_cpu k p k.lista_cpu_libres)
        (sacar_cpu-ne-nulo p k.lista_cpu_libres refl)

  sacar_cpu-Segura :
      (p : NodoProceso) (cs : List NodoCpu)
      → k.lista_cpu_libres ≡ cs
      → (k.sem_lista_cpu == 0) ≡ false
      → k.despachando ≡ some p
      → k.entregado ≡ none
      → Segura grado (sacar_cpu k p cs)
  unfolding sacar_cpu
  sacar_cpu-Segura p [] e some_left busy free =
      let empty = ap length e in let counted = i.cpus in ground arith
  sacar_cpu-Segura p (c ∷ cs) e some_left busy free =
      let len = ap length e in
      let held = ap en_despacho busy in
      let none_sent = ap en_entrega free in
      record {
        nuevos = i.nuevos;
        listos = i.listos;
        terminados = i.terminados;
        cpus = omega (arith, i.cpus);
        dispositivos = i.dispositivos;
        multiprogramacion = omega (arith, i.multiprogramacion);
      }

  pub get_cpu_and_dispatch-Segura :
      (p : NodoProceso)
      → k.despachando ≡ some p
      → k.entregado ≡ none
      → Segura grado (get_cpu_and_dispatch k p)
  unfolding get_cpu_and_dispatch
  get_cpu_and_dispatch-Segura p busy free =
      Segura-if grado (k.sem_lista_cpu == 0) (sacar_cpu k p k.lista_cpu_libres)
        (λ go. sacar_cpu-Segura p k.lista_cpu_libres refl go busy free)

  sacar_nuevo-Segura :
      (xs : List NodoProceso)
      → k.lista_nuevos ≡ xs
      → (k.sem_multiprog == 0) ≡ false
      → (k.sem_lista_nuevos == 0) ≡ false
      → Segura grado (sacar_nuevo k xs)
  unfolding sacar_nuevo
  sacar_nuevo-Segura [] e free some_left =
      let empty = ap length e in let counted = i.nuevos in ground arith
  sacar_nuevo-Segura (p ∷ ps) e free some_left =
      let len = ap length e in
      let more = length-append k.lista_listos (p ∷ []) in
      let place : 0 < k.sem_multiprog = ground arith in
      record {
        nuevos = omega (arith, i.nuevos);
        listos = omega (arith, i.listos);
        terminados = i.terminados;
        cpus = i.cpus;
        dispositivos = i.dispositivos;
        multiprogramacion = omega (arith, i.multiprogramacion);
      }

  pub in_out_thread-ne-nulo :
      (nombre : List ℕ) {d : Dispositivo}
      → buscar_dispositivo nombre k.dispositivos ≡ some d
      → in_out_thread k nombre ≢ nulo
  in_out_thread-ne-nulo nombre found e = subst (Segura grado) e (in_out_thread-Segura nombre found)

  pub hilo_multiprogramacion-Segura : Segura grado (hilo_multiprogramacion k)
  unfolding hilo_multiprogramacion
  hilo_multiprogramacion-Segura = Segura-if grado (k.sem_multiprog == 0) _ (λ free.
      Segura-if grado (k.sem_lista_nuevos == 0) (sacar_nuevo k k.lista_nuevos)
        (λ go. sacar_nuevo-Segura k.lista_nuevos refl free go))

  sacar_terminado-Segura :
      (xs : List NodoProceso)
      → k.lista_terminados ≡ xs
      → (k.sem_lista_terminados == 0) ≡ false
      → Segura grado (sacar_terminado k xs)
  unfolding sacar_terminado
  sacar_terminado-Segura [] e some_left =
      let empty = ap length e in let counted = i.terminados in ground arith
  sacar_terminado-Segura (p ∷ ps) e some_left =
      let len = ap length e in
      record {
        nuevos = i.nuevos;
        listos = i.listos;
        terminados = omega (arith, i.terminados);
        cpus = i.cpus;
        dispositivos = i.dispositivos;
        multiprogramacion = i.multiprogramacion;
      }

  pub hilo_destruccion-Segura : Segura grado (hilo_destruccion k)
  unfolding hilo_destruccion
  hilo_destruccion-Segura =
      Segura-if grado (k.sem_lista_terminados == 0) (sacar_terminado k k.lista_terminados)
        (λ go. sacar_terminado-Segura k.lista_terminados refl go)

  pub encolar_pcb-IsValid :
      (lib : ListOps NodoProceso) (pcb : Pcb) (peso socket : ℕ)
      → IsValid grado 0 (encolar_pcb lib k pcb peso socket)
  unfolding encolar_pcb
  encolar_pcb-IsValid lib pcb peso socket =
      let nodo : NodoProceso = record { pcb = pcb; peso = peso; soquet_prog = socket } in
      let sorted =
        length-perm (lib.list_sort_perm algoritmo_sjf (lib.list_add k.lista_nuevos nodo)) in
      let added = ap length (lib.list_add_lem k.lista_nuevos nodo) in
      record {
        nuevos = omega (arith, i.nuevos, length-append k.lista_nuevos (nodo ∷ []));
        listos = i.listos;
        terminados = i.terminados;
        cpus = i.cpus;
        dispositivos = i.dispositivos;
        multiprogramacion = i.multiprogramacion;
      }
