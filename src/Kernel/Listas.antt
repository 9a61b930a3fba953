-- ===== src/Kernel/Listas.antt =====
-- What the list functions of proyectoKernel do to the numbers of processes.
use personal_copy_tp.Common.{
  ℕ, zero, suc, ◌+◌, ◌==◌, ◌≡◌, refl, ap, ◌∙◌, true, List, [], ◌∷◌, some, get_elem?, length, arith,
  Bool-cases, inl, inr, Permᴰ, All,
}
use personal_copy_tp.Kernel.{
  NodoEjecutando, Semaforo, Dispositivo, mismo_nombre, buscar_semaforo, poner_semaforo,
  buscar_dispositivo, poner_dispositivo, remove_by_pid, poner_en,
}

abbrev pub bloqueados_en_semaforos : List Semaforo → ℕ
bloqueados_en_semaforos [] = 0
bloqueados_en_semaforos (s ∷ ss) = length s.bloqueados + bloqueados_en_semaforos ss

abbrev pub bloqueados_en_dispositivos : List Dispositivo → ℕ
bloqueados_en_dispositivos [] = 0
bloqueados_en_dispositivos (d ∷ ds) = length d.bloqueados + bloqueados_en_dispositivos ds

pub length-perm {ℓ} : {A : Type ℓ} {xs ys : List A} → Permᴰ xs ys → length xs ≡ length ys
length-perm Permᴰ.nil = refl
length-perm (Permᴰ.cons e d) = ap suc (length-perm d)
length-perm (Permᴰ.swap e f) = refl
length-perm (Permᴰ.trans d e) = length-perm d ∙ length-perm e

pub remove_by_pid-length :
    (es : List NodoEjecutando) (i : ℕ) {e : NodoEjecutando}
    → get_elem? es i ≡ some e
    → length (remove_by_pid e.proceso.pcb.pid es) + 1 ≡ length es
unfolding remove_by_pid
remove_by_pid-length [] i h = cc
remove_by_pid-length (d ∷ ds) zero {e} h =
    let same : d ≡ e = cc in
    let hit : (d.proceso.pcb.pid == e.proceso.pcb.pid) ≡ true = ground arith in rw hit (omega arith)
remove_by_pid-length (d ∷ ds) (suc i) {e} h =
    elim (Bool-cases (d.proceso.pcb.pid == e.proceso.pcb.pid)) [
      | inl hit ↦ rw hit (omega arith)
      | inr miss ↦ rw miss (omega (arith, remove_by_pid-length ds i h))
    ]

pub poner_en-length :
    (i : ℕ) (e : NodoEjecutando) (es : List NodoEjecutando) → length (poner_en i e es) ≡ length es
unfolding poner_en
poner_en-length zero e [] = refl
poner_en-length (suc i) e [] = refl
poner_en-length zero e (d ∷ ds) = refl
poner_en-length (suc i) e (d ∷ ds) = ap suc (poner_en-length i e ds)

pub get_elem?-poner_en :
    (i : ℕ) (e : NodoEjecutando) (es : List NodoEjecutando) {d : NodoEjecutando}
    → get_elem? es i ≡ some d
    → get_elem? (poner_en i e es) i ≡ some e
unfolding poner_en
get_elem?-poner_en zero e [] h = cc
get_elem?-poner_en (suc i) e [] h = cc
get_elem?-poner_en zero e (d ∷ ds) h = refl
get_elem?-poner_en (suc i) e (d ∷ ds) h = get_elem?-poner_en i e ds h

pub poner_semaforo-bloqueados :
    (nombre : List ℕ) (t : Semaforo) (ss : List Semaforo) {s : Semaforo}
    → buscar_semaforo nombre ss ≡ some s
    → bloqueados_en_semaforos (poner_semaforo nombre t ss) + length s.bloqueados
      ≡ bloqueados_en_semaforos ss + length t.bloqueados
unfolding buscar_semaforo poner_semaforo
poner_semaforo-bloqueados nombre t [] h = cc
poner_semaforo-bloqueados nombre t (r ∷ ss) {s} h =
    elim (Bool-cases (mismo_nombre r.nombre nombre)) [
      | inl hit ↦
          let same : r ≡ s = ground arith in
          rw hit (omega (arith, ap (λ (x : Semaforo). length x.bloqueados) same))
      | inr miss ↦
          let later : buscar_semaforo nombre ss ≡ some s = ground arith in
          rw miss (omega (arith, poner_semaforo-bloqueados nombre t ss later))
    ]

pub poner_dispositivo-bloqueados :
    (nombre : List ℕ) (t : Dispositivo) (ds : List Dispositivo) {d : Dispositivo}
    → buscar_dispositivo nombre ds ≡ some d
    → bloqueados_en_dispositivos (poner_dispositivo nombre t ds) + length d.bloqueados
      ≡ bloqueados_en_dispositivos ds + length t.bloqueados
unfolding buscar_dispositivo poner_dispositivo
poner_dispositivo-bloqueados nombre t [] h = cc
poner_dispositivo-bloqueados nombre t (r ∷ ds) {d} h =
    elim (Bool-cases (mismo_nombre r.nombre nombre)) [
      | inl hit ↦
          let same : r ≡ d = ground arith in
          rw hit (omega (arith, ap (λ (x : Dispositivo). length x.bloqueados) same))
      | inr miss ↦
          let later : buscar_dispositivo nombre ds ≡ some d = ground arith in
          rw miss (omega (arith, poner_dispositivo-bloqueados nombre t ds later))
    ]

-- The semaphore of a device counts its queue.
abbrev pub Contado : Dispositivo → Type 0
Contado d = d.sem_io ≡ length d.bloqueados

pub poner_dispositivo-Contado :
    (nombre : List ℕ) (t : Dispositivo) (ds : List Dispositivo)
    → Contado t
    → All Contado ds
    → All Contado (poner_dispositivo nombre t ds)
unfolding poner_dispositivo
poner_dispositivo-Contado nombre t [] c h = tt
poner_dispositivo-Contado nombre t (r ∷ ds) c h = elim (Bool-cases (mismo_nombre r.nombre nombre)) [
  | inl hit ↦ rw hit (c, h.1)
  | inr miss ↦ rw miss (h.0, poner_dispositivo-Contado nombre t ds c h.1)
]

pub buscar_dispositivo-Contado :
    (nombre : List ℕ) (ds : List Dispositivo) {d : Dispositivo}
    → buscar_dispositivo nombre ds ≡ some d
    → All Contado ds
    → Contado d
unfolding buscar_dispositivo
buscar_dispositivo-Contado nombre [] e h = cc
buscar_dispositivo-Contado nombre (r ∷ ds) {d} e h =
    elim (Bool-cases (mismo_nombre r.nombre nombre)) [
      | inl hit ↦
          let same : r ≡ d = ground arith in
          omega (
            arith,
            ap (λ (x : Dispositivo). length x.bloqueados) same,
            ap (λ (x : Dispositivo). x.sem_io) same,
          )
      | inr miss ↦ buscar_dispositivo-Contado nombre ds {d = d} (ground arith) h.1
    ]
