-- ===== src/Umv/Liberacion.antt =====
-- How proyectoUMV/umv.c gives segments back: `destruirSegmentosDeUnPrograma`, `eliminaVacios` and the
-- console's `testEliminaSegmento`.
pub mod Vacios
pub mod Destruccion
pub mod Elimina
mod Pruebas
use personal_copy_tp.Common.{
  ℕ, zero, suc, ◌+◌, ◌==◌, List, [], ◌∷◌, Option, none, some, if◌then◌else◌, length, get_elem?,
  minus_one,
}
use personal_copy_tp.Commons.{ListOps}
use personal_copy_tp.Umv.Estado.{Segmento, Umv, esta_libre}

unfoldable pub liberar_de : ℕ → List Segmento → List Segmento
liberar_de pid [] = []
liberar_de pid (s ∷ xs) =
    (if s.process_id == pid then record s { process_id = minus_one } else s) ∷ liberar_de pid xs

pub destruir_segmentos : Umv → ℕ → Umv
unfolding liberar_de
destruir_segmentos u pid = record u { lista_de_segmentos = liberar_de pid u.lista_de_segmentos }

module _ (lib : ListOps Segmento) where
  open lib use {list_add, list_remove}

  -- The loop of `eliminaVacios` with `tamanoLista - i` rounds left: each round moves on, or removes
  -- the node at `i` and stays. `list_get` is never out of range there.
  pub elimina_desde : ℕ → ℕ → List Segmento → List Segmento
  elimina_desde zero i xs = xs
  elimina_desde (suc k) i xs = elim (get_elem? xs i) [
    | none ↦ xs
    | some s ↦
        elimina_desde k (if esta_libre s then i else i + 1)
          (if esta_libre s then list_remove xs i else xs)
  ]

  unfoldable pub elimina_vacios : List Segmento → List Segmento
  unfolding elimina_desde
  elimina_vacios xs = elimina_desde (length xs) 0 xs

  -- `none` is the null pointer that `list_remove` gives for a number out of range, and the code uses.
  pub elimina_segmento : Umv → ℕ → Option Umv
  elimina_segmento u numero = elim (get_elem? u.lista_de_segmentos numero) [
    | none ↦ none
    | some s ↦ some (record u {
      lista_de_segmentos =
          list_add (list_remove u.lista_de_segmentos numero) (record s { process_id = minus_one });
    })
  ]
