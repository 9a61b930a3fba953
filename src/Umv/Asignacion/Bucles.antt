-- ===== src/Umv/Asignacion/Bucles.antt =====
-- The loops of `firstFit` and `worstFit` of proyectoUMV/umv.c: the hole that each one finds, and when
-- the drawing of a virtual address ends.
use personal_copy_tp.Common.{
  ℕ, suc, ◌+◌, ◌≡◌, refl, ap, ◌∙◌, ◌⊎◌, inl, inr, ◌≢◌, List, [], ◌∷◌, ◌++◌, Option, none, some,
  Bool, true, false, not, arith, ◌==◌, ◌&&◌, int_leb, int_ltb, All, Bool-cases, length, subst, sym,
}
use personal_copy_tp.Umv.Estado.{Segmento, dir_vir_esta_en_umv}
use personal_copy_tp.Umv.Asignacion.{sortear_no_nulo, sortear_direccion, primer_vacio, mayor_vacio}

-- Some value still to be drawn is not 0.
abbrev pub HayNoNulo : List ℕ → Type 0
HayNoNulo [] = ⊥
HayNoNulo (r ∷ rs) = (r ≢ 0) ⊎ HayNoNulo rs

pub sortear_no_nulo-total :
    (rs : List ℕ) → HayNoNulo rs → (d : ℕ) × (rest : List ℕ) × (sortear_no_nulo rs ≡ some (d, rest))
unfolding sortear_no_nulo
sortear_no_nulo-total [] h = absurd h
sortear_no_nulo-total (r ∷ rs) h = elim (Bool-cases (r == 0)) [
  | inl e ↦
      let more : HayNoNulo rs = elim h [ inl n ↦ absurd (n (ground arith)) | inr k ↦ k ] in
      let (d, rest, q) = sortear_no_nulo-total rs more in (d, rest, rw (e, sortear_no_nulo) q)
  | inr e ↦ (r, rs, rw (e, sortear_no_nulo))
]

pub sortear_direccion-total :
    (xs : List Segmento) (rs : List ℕ)
    → HayNoNulo rs
    → (d : ℕ) × (rest : List ℕ) × (sortear_direccion xs rs ≡ some (d, rest))
unfolding sortear_direccion
sortear_direccion-total xs [] h = absurd h
sortear_direccion-total xs (r ∷ rs) h = elim (Bool-cases (r == 0 && dir_vir_esta_en_umv xs r)) [
  | inl e ↦
      let more : HayNoNulo rs = elim h [ inl n ↦ absurd (n (ground arith)) | inr k ↦ k ] in
      let (d, rest, q) = sortear_direccion-total xs rs more in
      (d, rest, rw (e, sortear_direccion) q)
  | inr e ↦ (r, rs, rw (e, sortear_direccion))
]

-- What both loops take for a hole: a node whose PID is not positive as an `int`.
abbrev pub vacio_para : Segmento → Bool
vacio_para s = not (int_ltb 0 s.process_id)

-- A node at its position.
pub record Posicion (xs : List Segmento) (i : ℕ) (s : Segmento) : Type 0 where
  pub antes : List Segmento
  pub despues : List Segmento
  pub lista : xs ≡ antes ++ s ∷ despues
  pub indice : i ≡ length antes

-- The first hole that is large enough, and only smaller ones before it.
pub record PrimerVacio (tamano : ℕ) (xs : List Segmento) (i : ℕ) (s : Segmento) : Type 0 where
  pub posicion : Posicion xs i s
  pub vacio : vacio_para s ≡ true
  pub alcanza : int_leb tamano s.tamano_segmento ≡ true
  pub primero : All (λ t. (vacio_para t && int_leb tamano t.tamano_segmento) ≡ false) posicion.antes

shift_Posicion :
    (x : Segmento) {xs : List Segmento} {i : ℕ} {s : Segmento}
    → Posicion xs i s
    → Posicion (x ∷ xs) (suc i) s
shift_Posicion x p = record {
  antes = x ∷ p.antes;
  despues = p.despues;
  lista = ap (◌∷◌ x) p.lista;
  indice = ap suc p.indice;
}

pub primer_vacio_lem :
    (tamano k : ℕ) (xs : List Segmento) {j : ℕ} {s : Segmento}
    → primer_vacio tamano k xs ≡ some (j, s)
    → (i : ℕ) × (j ≡ k + i) × PrimerVacio tamano xs i s
unfolding primer_vacio shift_Posicion
primer_vacio_lem tamano k [] e = cc
primer_vacio_lem tamano k (x ∷ xs) {j} {s} e =
    elim (Bool-cases (vacio_para x && int_leb tamano x.tamano_segmento)) [
      | inl hit ↦
          let same : x ≡ s = ground arith in
          (
            0,
            ground arith,
            record {
              posicion = record {
                antes = [];
                despues = xs;
                lista = ap (λ t. t ∷ xs) same;
                indice = refl;
              };
              vacio = subst (λ t. vacio_para t ≡ true) same (ground arith);
              alcanza = subst (λ t. int_leb tamano t.tamano_segmento ≡ true) same (ground arith);
              primero = tt;
            },
          )
      | inr miss ↦
          let later : primer_vacio tamano (k + 1) xs ≡ some (j, s) = ground arith in
          let (i, q, p) = primer_vacio_lem tamano (k + 1) xs later in
          (
            suc i,
            omega arith,
            record {
              posicion = shift_Posicion x p.posicion;
              vacio = p.vacio;
              alcanza = p.alcanza;
              primero = (miss, p.primero);
            },
          )
    ]

-- The loop finds nothing exactly where no hole is large enough.
pub primer_vacio-none :
    (tamano k : ℕ) (xs : List Segmento)
    → primer_vacio tamano k xs ≡ none
    → All (λ t. (vacio_para t && int_leb tamano t.tamano_segmento) ≡ false) xs
unfolding primer_vacio
primer_vacio-none tamano k [] e = tt
primer_vacio-none tamano k (x ∷ xs) e =
    (ground arith, primer_vacio-none tamano (k + 1) xs (ground arith))

-- A hole of positive size, and no larger one in the list.
pub record MayorVacio (maximo : ℕ) (xs : List Segmento) (i : ℕ) (s : Segmento) : Type 0 where
  pub posicion : Posicion xs i s
  pub vacio : vacio_para s ≡ true
  pub supera : int_ltb maximo s.tamano_segmento ≡ true
  pub mayor : All (λ t. (vacio_para t && int_ltb s.tamano_segmento t.tamano_segmento) ≡ false) xs

-- What the loop ends with: what it held, if no hole is above its maximum, or the largest hole.
abbrev Hallazgo : ℕ → Option (ℕ × Segmento) → ℕ → List Segmento → Option (ℕ × Segmento) → Type 0
Hallazgo maximo hallado k xs r =
    ((r ≡ hallado) × All (λ t. (vacio_para t && int_ltb maximo t.tamano_segmento) ≡ false) xs)
    ⊎ ((i : ℕ) × (s : Segmento) × (r ≡ some (k + i, s)) × MayorVacio maximo xs i s)

mayor_vacio-Hallazgo :
    (maximo : ℕ) (hallado : Option (ℕ × Segmento)) (k : ℕ) (xs : List Segmento)
    → Hallazgo maximo hallado k xs (mayor_vacio maximo hallado k xs)
unfolding mayor_vacio
mayor_vacio-Hallazgo maximo hallado k [] = inl (refl, tt)
mayor_vacio-Hallazgo maximo hallado k (x ∷ xs) =
    elim (Bool-cases (vacio_para x && int_ltb maximo x.tamano_segmento)) [
      | inl better ↦
          rw (better, mayor_vacio)
            (elim (mayor_vacio-Hallazgo x.tamano_segmento (some (k, x)) (k + 1) xs) [
              | inl (q, none_above) ↦ inr (
                0,
                x,
                rw q (ground arith),
                record {
                  posicion = record { antes = []; despues = xs; lista = refl; indice = refl };
                  vacio = ground arith;
                  supera = ground arith;
                  mayor = (ground arith, none_above);
                },
              )
              | inr (i, s, q, p) ↦ inr (
                suc i,
                s,
                rw q (ground arith),
                record {
                  posicion = shift_Posicion x p.posicion;
                  vacio = p.vacio;
                  supera = ground (arith, p.supera);
                  mayor = (ground (arith, p.supera), p.mayor);
                },
              )
            ])
      | inr worse ↦
          rw (worse, mayor_vacio)
            (elim (mayor_vacio-Hallazgo maximo hallado (k + 1) xs) [
              | inl (q, none_above) ↦ inl (q, (refl, none_above))
              | inr (i, s, q, p) ↦ inr (
                suc i,
                s,
                rw q (ground arith),
                record {
                  posicion = shift_Posicion x p.posicion;
                  vacio = p.vacio;
                  supera = p.supera;
                  mayor = (ground (arith, p.supera), p.mayor);
                },
              )
            ])
    ]

pub mayor_vacio_lem :
    (xs : List Segmento) {i : ℕ} {s : Segmento}
    → mayor_vacio 0 none 0 xs ≡ some (i, s)
    → MayorVacio 0 xs i s
mayor_vacio_lem xs {i} {s} e = elim (mayor_vacio-Hallazgo 0 none 0 xs) [
  | inl (q, _) ↦ let bad : ◌≡◌ {A = Option (ℕ × Segmento)} none (some (i, s)) = sym q ∙ e in cc
  | inr (j, t, q, p) ↦
      let ei : j ≡ i = ground arith in
      let et : t ≡ s = ground arith in
      subst (λ n. MayorVacio 0 xs n s) ei (subst (λ n. MayorVacio 0 xs j n) et p)
]

pub mayor_vacio-none :
    (xs : List Segmento)
    → mayor_vacio 0 none 0 xs ≡ none
    → All (λ t. (vacio_para t && int_ltb 0 t.tamano_segmento) ≡ false) xs
mayor_vacio-none xs e = elim (mayor_vacio-Hallazgo 0 none 0 xs) [
  | inl (_, none_above) ↦ none_above
  | inr (j, t, q, p) ↦ absurd (not-both (0 + j, t) (sym q ∙ e))
]
  where
    not-both : (p : ℕ × Segmento) → ◌≡◌ {A = Option (ℕ × Segmento)} (some p) none → ⊥
    not-both p b = cc
