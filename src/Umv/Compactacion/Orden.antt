-- ===== src/Umv/Compactacion/Orden.antt =====
-- Segments sorted by their address, as the allocators of proyectoUMV/umv.c leave the table, follow one
-- another in memory; dropping the holes keeps this.
use personal_copy_tp.Common.{ℕ, ◌+◌, ◌≤◌, ◌<◌, List, [], ◌∷◌, Bool-cases, inl, inr, arith, All}
use personal_copy_tp.Commons.{Ordered}
use personal_copy_tp.Umv.Estado.{Segmento, esta_libre}
use personal_copy_tp.Umv.Invariante.{EnPool, Separado, Separados}
use personal_copy_tp.Umv.Liberacion.Vacios.{ocupados}
use personal_copy_tp.Umv.Compactacion.Contenidos.{Encadenados}

abbrev pub direccion : Segmento → ℕ
direccion s = s.direccion_real

abbrev pub Positivo : Segmento → Type 0
Positivo s = 0 < s.tamano_segmento

pub ocupados-All {ℓ} : (P : Segmento → Type ℓ) (xs : List Segmento) → All P xs → All P (ocupados xs)
ocupados-All P [] h = tt
ocupados-All P (s ∷ xs) h = elim (Bool-cases (esta_libre s)) [
  | inl e ↦ rw e (ocupados-All P xs h.1)
  | inr e ↦ rw e (h.0, ocupados-All P xs h.1)
]

pub ocupados-Ordered : (xs : List Segmento) → Ordered direccion xs → Ordered direccion (ocupados xs)
ocupados-Ordered [] h = tt
ocupados-Ordered (s ∷ xs) h = elim (Bool-cases (esta_libre s)) [
  | inl e ↦ rw e (ocupados-Ordered xs h.1)
  | inr e ↦ rw e (ocupados-All (λ t. direccion s ≤ direccion t) xs h.0, ocupados-Ordered xs h.1)
]

pub ocupados-Separados : (xs : List Segmento) → Separados xs → Separados (ocupados xs)
ocupados-Separados [] h = tt
ocupados-Separados (s ∷ xs) h = elim (Bool-cases (esta_libre s)) [
  | inl e ↦ rw e (ocupados-Separados xs h.1)
  | inr e ↦ rw e (ocupados-All (Separado s) xs h.0, ocupados-Separados xs h.1)
]

-- Above `s` in the order, apart from it and not empty: behind its end.
detras :
    (s : Segmento) (xs : List Segmento)
    → All (λ t. direccion s ≤ direccion t) xs
    → All (Separado s) xs
    → All Positivo xs
    → All (λ t. s.direccion_real + s.tamano_segmento ≤ direccion t) xs
detras s [] o a p = tt
detras s (t ∷ xs) o a p = (omega (arith, o.0, a.0, p.0), detras s xs o.1 a.1 p.1)

pub Ordered-Encadenados :
    (ini cant lo : ℕ) (xs : List Segmento)
    → lo ≤ ini + cant
    → All (λ t. lo ≤ direccion t) xs
    → All (EnPool ini cant) xs
    → Separados xs
    → All Positivo xs
    → Ordered direccion xs
    → Encadenados (ini + cant) lo xs
Ordered-Encadenados ini cant lo [] h l p a q o = h
Ordered-Encadenados ini cant lo (s ∷ xs) h l p a q o = (
  p.0.0,
  l.0,
  Ordered-Encadenados ini cant (s.direccion_real + s.tamano_segmento) xs p.0.2
      (detras s xs o.0 a.0 q.1) p.1 a.1 q.1 o.1,
)
