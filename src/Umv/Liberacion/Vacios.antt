-- ===== src/Umv/Liberacion/Vacios.antt =====
-- `eliminaVacios` of proyectoUMV/umv.c, which removes from the list that it walks, against a filter.
use personal_copy_tp.Common.{
  ◌+◌, ◌≡◌, refl, ◌∙◌, List, [], ◌∷◌, ◌++◌, some, if◌then◌else◌, length, get_elem?, Bool-cases, inl,
  inr, length-append,
}
use mathlib.Core.List.{append_assoc}
use personal_copy_tp.Commons.{ListOps}
use personal_copy_tp.Umv.Estado.{Segmento, esta_libre}
use personal_copy_tp.Umv.Liberacion.{elimina_desde, elimina_vacios}

-- The nodes that are no holes, in their order.
abbrev pub ocupados : List Segmento → List Segmento
ocupados [] = []
ocupados (s ∷ xs) = if esta_libre s then ocupados xs else s ∷ ocupados xs

pub get_elem?-length :
    (xs : List Segmento) (s : Segmento) (ys : List Segmento)
    → get_elem? (xs ++ s ∷ ys) (length xs) ≡ some s
get_elem?-length [] s ys = refl
get_elem?-length (x ∷ xs) s ys = get_elem?-length xs s ys

module _ (lib : ListOps Segmento) where
  open lib use {list_remove, list_remove_lem}

  elimina_desde-ocupados :
      (xs ys : List Segmento)
      → elimina_desde lib (length ys) (length xs) (xs ++ ys) ≡ xs ++ ocupados ys
  unfolding elimina_desde
  elimina_desde-ocupados xs [] = refl
  elimina_desde-ocupados xs (s ∷ ys) = elim (Bool-cases (esta_libre s)) [
    | inl e ↦
        rw (get_elem?-length xs s ys, elimina_desde, e)
          (rw (list_remove_lem xs ys s) (elimina_desde-ocupados xs ys))
    | inr e ↦
        let next : length (xs ++ s ∷ []) ≡ length xs + 1 = length-append xs (s ∷ []) in
        rw (get_elem?-length xs s ys, elimina_desde, e)
          (rw (← next, ← append_assoc xs (s ∷ []) ys)
            (elimina_desde-ocupados (xs ++ s ∷ []) ys ∙ append_assoc xs (s ∷ []) (ocupados ys)))
  ]

  -- The loop that removes nodes from the list that it walks keeps just the nodes that are no holes.
  pub elimina_vacios-ocupados : (xs : List Segmento) → elimina_vacios lib xs ≡ ocupados xs
  unfolding elimina_vacios
  elimina_vacios-ocupados xs = elimina_desde-ocupados [] xs
