-- ===== src/Umv/Abstracto/Busqueda.antt =====
-- The search of `leerBytes` and `pegarBytes` in proyectoUMV/umv.c, which takes the first node with an address
-- and a PID: where no process holds an address twice, the order of the table does not matter to it.
use personal_copy_tp.Common.{
  ℕ, ◌≡◌, ◌≢◌, ◌⊎◌, refl, ap, subst, ◌==◌, ◌&&◌, Bool, List, [], ◌∷◌, none, some, minus_one, true,
  false, inl, inr, arith, All, All-mono, Bool-cases,
}
use personal_copy_tp.Umv.Estado.{Segmento}
use personal_copy_tp.Umv.Acceso.{buscar_segmento}

-- The test of `buscar_segmento`.
abbrev pub es_de : ℕ → ℕ → Segmento → Bool
es_de base pid s = s.direccion_virtual == base && s.process_id == pid

-- No process holds an address twice.
abbrev pub Distinto : Segmento → Segmento → Type 0
Distinto x y =
    (x.process_id ≡ minus_one)
    ⊎ ((x.direccion_virtual ≢ y.direccion_virtual) ⊎ (x.process_id ≢ y.process_id))

abbrev pub Unicos : List Segmento → Type 0
Unicos [] = Unit
Unicos (x ∷ xs) = All (Distinto x) xs × Unicos xs

abbrev pub No : ℕ → ℕ → Segmento → Type 0
No base pid s = es_de base pid s ≡ false

abbrev pub Solo : ℕ → ℕ → Segmento → Segmento → Type 0
Solo base pid s t = es_de base pid t ≡ true → t ≡ s

pub buscar_segmento-none :
    (xs : List Segmento) (base pid : ℕ) → buscar_segmento xs base pid ≡ none → All (No base pid) xs
unfolding buscar_segmento
buscar_segmento-none [] base pid e = tt
buscar_segmento-none (x ∷ xs) base pid e = elim (Bool-cases (es_de base pid x)) [
  | inl hit ↦ let bad : some x ≡ none = rw (hit, buscar_segmento) at e in cc
  | inr miss ↦ (miss, buscar_segmento-none xs base pid (rw (miss, buscar_segmento) at e))
]

pub No-buscar_segmento :
    (xs : List Segmento) (base pid : ℕ) → All (No base pid) xs → buscar_segmento xs base pid ≡ none
unfolding buscar_segmento
No-buscar_segmento [] base pid h = refl
No-buscar_segmento (x ∷ xs) base pid h =
    rw (h.0, buscar_segmento) (No-buscar_segmento xs base pid h.1)

pub buscar_segmento-some :
    (xs : List Segmento) (base pid : ℕ) {s : Segmento}
    → buscar_segmento xs base pid ≡ some s
    → es_de base pid s ≡ true
unfolding buscar_segmento
buscar_segmento-some [] base pid e = cc
buscar_segmento-some (x ∷ xs) base pid {s} e = elim (Bool-cases (es_de base pid x)) [
  | inl hit ↦
      let found : some x ≡ some s = rw (hit, buscar_segmento) at e in
      let same : x ≡ s = cc in subst (λ t. es_de base pid t ≡ true) same hit
  | inr miss ↦ buscar_segmento-some xs base pid (rw (miss, buscar_segmento) at e)
]

-- Where the nodes with a key are all one node, a search that finds any finds that one.
pub Solo-buscar_segmento :
    (xs : List Segmento) (base pid : ℕ) (s : Segmento)
    → All (Solo base pid s) xs
    → buscar_segmento xs base pid ≢ none
    → buscar_segmento xs base pid ≡ some s
unfolding buscar_segmento
Solo-buscar_segmento [] base pid s h some_one = absurd (some_one refl)
Solo-buscar_segmento (x ∷ xs) base pid s h some_one = elim (Bool-cases (es_de base pid x)) [
  | inl hit ↦ rw (hit, buscar_segmento) (ap some (h.0 hit))
  | inr miss ↦
      rw (miss, buscar_segmento)
        (Solo-buscar_segmento xs base pid s h.1 (rw (miss, buscar_segmento) at some_one))
]

pub Unicos-Solo :
    (xs : List Segmento) (base pid : ℕ) {s : Segmento}
    → pid ≢ minus_one
    → Unicos xs
    → buscar_segmento xs base pid ≡ some s
    → All (Solo base pid s) xs
unfolding buscar_segmento
Unicos-Solo [] base pid n h e = tt
Unicos-Solo (x ∷ xs) base pid {s} n h e = elim (Bool-cases (es_de base pid x)) [
  | inl hit ↦
      let found : some x ≡ some s = rw (hit, buscar_segmento) at e in
      let same : x ≡ s = cc in (λ t. same, All-mono xs (λ y d own. absurd (ground arith)) h.0)
  | inr miss ↦
      let later : buscar_segmento xs base pid ≡ some s = rw (miss, buscar_segmento) at e in
      (λ own. absurd (ground arith), Unicos-Solo xs base pid n h.1 later)
]
