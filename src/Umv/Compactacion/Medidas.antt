-- ===== src/Umv/Compactacion/Medidas.antt =====
-- What the contents of two lists of segments tell of their sizes and owners, and what a list with no
-- gap covers (for `compactador` of proyectoUMV/umv.c).
use personal_copy_tp.Common.{
  ℕ, ◌+◌, ◌^◌, ◌≤◌, ◌<◌, ◌≡◌, refl, ap, sym, ◌∙◌, List, [], ◌∷◌, ◌++◌, false, Bool-cases, inl, inr,
  arith, subst, Memory, All, All-mono,
}
use personal_copy_tp.Umv.Estado.{Segmento, esta_libre}
use personal_copy_tp.Umv.Invariante.{EnPool, Separados, total, usado}
use personal_copy_tp.Umv.Liberacion.Vacios.{ocupados}
use personal_copy_tp.Umv.Compactacion.{ultimo}
use personal_copy_tp.Umv.Compactacion.Contenidos.{Contenido, contenido, contenidos, Contiguos}

-- A predicate on contents, on the segments that hold them.
pub All-contenidos {ℓ} :
    (P : Contenido → Type ℓ) (m : Memory) (xs : List Segmento)
    → All (λ s. P (contenido m s)) xs
    → All P (contenidos m xs)
All-contenidos P m [] h = tt
All-contenidos P m (s ∷ xs) h = (h.0, All-contenidos P m xs h.1)

pub contenidos-All {ℓ} :
    (P : Contenido → Type ℓ) (m : Memory) (xs : List Segmento)
    → All P (contenidos m xs)
    → All (λ s. P (contenido m s)) xs
contenidos-All P m [] h = tt
contenidos-All P m (s ∷ xs) h = (h.0, contenidos-All P m xs h.1)

pub mismos-All {ℓ} :
    (P : Contenido → Type ℓ) (m m' : Memory) (xs ys : List Segmento)
    → contenidos m ys ≡ contenidos m' xs
    → All (λ s. P (contenido m' s)) xs
    → All (λ s. P (contenido m s)) ys
mismos-All P m m' xs ys e h =
    contenidos-All P m ys (subst (All P) (sym e) (All-contenidos P m' xs h))

suma : List Contenido → ℕ
suma [] = 0
suma (c ∷ cs) = c.tamano + suma cs

suma-total : (m : Memory) (xs : List Segmento) → suma (contenidos m xs) ≡ total xs
unfolding suma
suma-total m [] = refl
suma-total m (s ∷ xs) = ap (λ n. s.tamano_segmento + n) (suma-total m xs)

pub mismos-total :
    (m m' : Memory) (xs ys : List Segmento)
    → contenidos m ys ≡ contenidos m' xs
    → total ys ≡ total xs
mismos-total m m' xs ys e = sym (suma-total m ys) ∙ ap suma e ∙ suma-total m' xs

-- With no gap the segments lie between the start and the start plus their total, and apart.
pub Contiguos-EnPool :
    (ini cant lo : ℕ) (xs : List Segmento)
    → ini ≤ lo
    → lo + total xs ≤ ini + cant
    → All (λ s. s.tamano_segmento < 2 ^ 31) xs
    → Contiguos lo xs
    → All (EnPool ini cant) xs
Contiguos-EnPool ini cant lo [] h k small c = tt
Contiguos-EnPool ini cant lo (s ∷ xs) h k small c = (
  omega (arith, small.0, c.0),
  Contiguos-EnPool ini cant (s.direccion_real + s.tamano_segmento) xs (omega (arith, c.0))
      (omega (arith, c.0)) small.1 c.1,
)

Contiguos-above :
    (lo : ℕ) (xs : List Segmento) → Contiguos lo xs → All (λ s. lo ≤ s.direccion_real) xs
Contiguos-above lo [] c = tt
Contiguos-above lo (s ∷ xs) c = (
  omega (arith, c.0),
  All-mono xs (λ t k. omega (arith, c.0))
      (Contiguos-above (s.direccion_real + s.tamano_segmento) xs c.1),
)

pub Contiguos-Separados : (lo : ℕ) (xs : List Segmento) → Contiguos lo xs → Separados xs
Contiguos-Separados lo [] c = tt
Contiguos-Separados lo (s ∷ xs) c = (
  All-mono xs (λ t k. inl k) (Contiguos-above (s.direccion_real + s.tamano_segmento) xs c.1),
  Contiguos-Separados (s.direccion_real + s.tamano_segmento) xs c.1,
)

pub ultimo-Contiguos :
    (s : Segmento) (xs : List Segmento)
    → Contiguos (s.direccion_real + s.tamano_segmento) xs
    → (ultimo s xs).direccion_real + (ultimo s xs).tamano_segmento
      ≡ s.direccion_real + s.tamano_segmento + total xs
ultimo-Contiguos s [] c = omega arith
ultimo-Contiguos s (t ∷ xs) c = omega (arith, ultimo-Contiguos t xs c.1, c.0)

pub ultimo-All {ℓ} :
    (P : Segmento → Type ℓ) (s : Segmento) (xs : List Segmento) → P s → All P xs → P (ultimo s xs)
ultimo-All P s [] p h = p
ultimo-All P s (t ∷ xs) p h = ultimo-All P t xs h.0 h.1

pub Contiguos-append :
    (lo : ℕ) (xs : List Segmento) (h : Segmento)
    → Contiguos lo xs
    → h.direccion_real ≡ lo + total xs
    → Contiguos lo (xs ++ h ∷ [])
Contiguos-append lo [] h c e = (omega arith, tt)
Contiguos-append lo (s ∷ xs) h c e =
    (c.0, Contiguos-append (s.direccion_real + s.tamano_segmento) xs h c.1 (omega (arith, c.0)))

pub total-append :
    (xs : List Segmento) (h : Segmento) → total (xs ++ h ∷ []) ≡ total xs + h.tamano_segmento
total-append [] h = omega arith
total-append (s ∷ xs) h = omega (arith, total-append xs h)

-- Without holes everything is used.
pub usado-total : (xs : List Segmento) → All (λ s. esta_libre s ≡ false) xs → usado xs ≡ total xs
usado-total [] h = refl
usado-total (s ∷ xs) h = rw h.0 (omega (arith, usado-total xs h.1))

pub total-ocupados : (xs : List Segmento) → total (ocupados xs) ≡ usado xs
total-ocupados [] = refl
total-ocupados (s ∷ xs) = ground (arith, total-ocupados xs)

pub ocupados-usados : (xs : List Segmento) → All (λ s. esta_libre s ≡ false) (ocupados xs)
ocupados-usados [] = tt
ocupados-usados (s ∷ xs) = elim (Bool-cases (esta_libre s)) [
  | inl e ↦ rw e (ocupados-usados xs)
  | inr e ↦ rw e (e, ocupados-usados xs)
]
