-- ===== src/Kernel/Rondas/Esperas.antt =====
-- A process that waits on a semaphore of proyectoKernel and is woken: which PCB goes back to the ready
-- queue.
use personal_copy_tp.Common.{
  ℕ, ◌≡◌, refl, ap, sym, ◌∙◌, true, false, List, [], ◌∷◌, ◌++◌, some, Bool-cases, inl, inr, arith,
  int_ltb, int_add,
}
use personal_copy_tp.Kernel.{
  Pcb, NodoProceso, NodoEjecutando, Semaforo, Kernel, mismo_nombre, buscar_semaforo, poner_semaforo,
  block_process, semaforo_wait, semaforo_signal, desbloquear, add_to_ready_queue, stop_processing,
  actualizar_pcb, con_pcb,
}
use personal_copy_tp.Kernel.Rondas.{siguiente, wait_request, signal_request}

buscar_semaforo-nombre :
    (nombre : List ℕ) (ss : List Semaforo) {s : Semaforo}
    → buscar_semaforo nombre ss ≡ some s
    → mismo_nombre s.nombre nombre ≡ true
unfolding buscar_semaforo
buscar_semaforo-nombre nombre [] e = cc
buscar_semaforo-nombre nombre (r ∷ ss) {s} e = elim (Bool-cases (mismo_nombre r.nombre nombre)) [
  | inl hit ↦
      let same : r ≡ s = ground arith in
      ap (λ (x : Semaforo). mismo_nombre x.nombre nombre) (sym same) ∙ hit
  | inr miss ↦ buscar_semaforo-nombre nombre ss {s = s} (ground arith)
]

-- The dictionary after a change of the struct that it holds.
buscar_semaforo-poner_semaforo :
    (nombre : List ℕ) (t : Semaforo) (ss : List Semaforo) {s : Semaforo}
    → buscar_semaforo nombre ss ≡ some s
    → mismo_nombre t.nombre nombre ≡ true
    → buscar_semaforo nombre (poner_semaforo nombre t ss) ≡ some t
unfolding buscar_semaforo poner_semaforo
buscar_semaforo-poner_semaforo nombre t [] e same = cc
buscar_semaforo-poner_semaforo nombre t (r ∷ ss) {s} e same =
    elim (Bool-cases (mismo_nombre r.nombre nombre)) [
      | inl hit ↦ rw (hit, same)
      | inr miss ↦
          let later : buscar_semaforo nombre ss ≡ some s = ground arith in
          rw (miss, miss) (buscar_semaforo-poner_semaforo nombre t ss later same)
    ]

module _ (k : Kernel) (j : ℕ) (e : NodoEjecutando) (nombre : List ℕ) (leido : Pcb) (s : Semaforo)
    (found : buscar_semaforo nombre k.semaforos ≡ some s) where
  -- The state after the wait, with `bs` blocked on the semaphore.
  abbrev tras_espera : List NodoProceso → Kernel
  tras_espera bs =
      stop_processing
        (actualizar_pcb
          (record k {
            semaforos = poner_semaforo nombre (record s { bloqueados = bs }) k.semaforos;
          })
          j e leido)
        (con_pcb e leido)

  wait_request-blocks :
      int_ltb 0 s.valor ≡ false
      → wait_request k j e nombre (some leido)
        ≡ siguiente (tras_espera (s.bloqueados ++ e.proceso ∷ []))
  unfolding wait_request semaforo_wait block_process
  wait_request-blocks taken = rw (found, wait_request, taken)

  abbrev tras_senial : NodoProceso → Kernel
  tras_senial p =
      add_to_ready_queue
        (record (tras_espera (p ∷ [])) {
          semaforos =
              poner_semaforo nombre (record s { bloqueados = []; valor = int_add s.valor 1 })
                (tras_espera (p ∷ [])).semaforos;
        })
        p

  signal_request-wakes :
      (p : NodoProceso) → signal_request (tras_espera (p ∷ [])) nombre ≡ siguiente (tras_senial p)
  unfolding signal_request semaforo_signal desbloquear stop_processing
  signal_request-wakes p =
      let again : buscar_semaforo nombre (tras_espera (p ∷ [])).semaforos
          ≡ some (record s { bloqueados = p ∷ [] }) =
        buscar_semaforo-poner_semaforo nombre (record s { bloqueados = p ∷ [] }) k.semaforos found
          (buscar_semaforo-nombre nombre k.semaforos found) in
      rw (again, signal_request)

  listos-tras_senial : (p : NodoProceso) → (tras_senial p).lista_listos ≡ k.lista_listos ++ p ∷ []
  unfolding stop_processing add_to_ready_queue
  listos-tras_senial p = refl

-- A process that is blocked by a wait on a semaphore on which nobody waits, and then woken by a signal,
-- comes back to the ready queue with the PCB that it had when it was dispatched, whatever PCB the
-- kernel read from its CPU.
pub wait-signal_pcb_viejo :
    (k : Kernel) (j : ℕ) (e : NodoEjecutando) (nombre : List ℕ) (leido : Pcb) {s : Semaforo}
    → buscar_semaforo nombre k.semaforos ≡ some s
    → int_ltb 0 s.valor ≡ false
    → s.bloqueados ≡ []
    → (k' : Kernel) × (k'' : Kernel) × (wait_request k j e nombre (some leido) ≡ siguiente k')
      × (signal_request k' nombre ≡ siguiente k'')
      × (k''.lista_listos ≡ k.lista_listos ++ e.proceso ∷ [])
wait-signal_pcb_viejo k j e nombre leido {s} found taken nobody = (
  tras_espera k j e nombre leido s found (e.proceso ∷ []),
  tras_senial k j e nombre leido s found e.proceso,
  wait_request-blocks k j e nombre leido s found taken
      ∙ ap
          (λ (bs : List NodoProceso).
            siguiente (tras_espera k j e nombre leido s found (bs ++ e.proceso ∷ [])))
          nobody,
  signal_request-wakes k j e nombre leido s found e.proceso,
  listos-tras_senial k j e nombre leido s found e.proceso,
)
