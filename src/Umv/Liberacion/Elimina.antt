-- ===== src/Umv/Liberacion/Elimina.antt =====
-- `testEliminaSegmento` of proyectoUMV/umv.c, the order of the console that makes one node a hole.
use mathlib.Core.List.Permᴰ
use personal_copy_tp.Common.{
  ℕ, zero, suc, ◌<◌, ◌≡◌, refl, ap, subst, List, [], ◌∷◌, ◌++◌, some, length, get_elem?, arith, inl,
  inr, minus_one,
}
use personal_copy_tp.Commons.{ListOps}
use personal_copy_tp.Umv.Estado.{Segmento, Umv}
use personal_copy_tp.Umv.Invariante.{TablaValida, TablaValida-perm, IsValid}
use personal_copy_tp.Umv.Liberacion.{elimina_segmento}
use personal_copy_tp.Umv.Liberacion.Vacios.{get_elem?-length}

abbrev liberado : Segmento → Segmento
liberado s = record s { process_id = minus_one }

posicion :
    (xs : List Segmento) (i : ℕ)
    → i < length xs
    → (s : Segmento) × (antes : List Segmento) × (despues : List Segmento) × (xs
        ≡ antes ++ s ∷ despues)
      × (i ≡ length antes)
posicion [] i h = absurd (omega arith)
posicion (x ∷ xs) zero h = (x, [], xs, refl, refl)
posicion (x ∷ xs) (suc i) h =
    let (s, antes, despues, e, k) = posicion xs i (omega arith) in
    (s, x ∷ antes, despues, ap (λ t. x ∷ t) e, omega (arith, k))

TablaValida-liberado :
    (ini cant : ℕ) (s : Segmento) (xs : List Segmento)
    → TablaValida ini cant (s ∷ xs)
    → TablaValida ini cant (liberado s ∷ xs)
TablaValida-liberado ini cant s xs t = record {
  en_pool = t.en_pool;
  separados = t.separados;
  con_dueno = (inl refl, t.con_dueno.1);
  completa = elim t.completa [ inl e ↦ inl (cc) | inr e ↦ inr e ];
}

module _ (lib : ListOps Segmento) where
  open lib use {list_add, list_remove, list_add_lem, list_remove_lem}

  tabla_tras_eliminar :
      (xs antes despues : List Segmento) (s : Segmento) (i : ℕ)
      → xs ≡ antes ++ s ∷ despues
      → i ≡ length antes
      → (get_elem? xs i ≡ some s)
        × (list_add (list_remove xs i) (liberado s) ≡ (antes ++ despues) ++ liberado s ∷ [])
  tabla_tras_eliminar xs antes despues s i e k = (
    rw (e, k) (get_elem?-length antes s despues),
    rw (e, k, list_remove_lem antes despues s) (list_add_lem (antes ++ despues) (liberado s)),
  )

  -- On a valid table, the order to give up the node at a position of the table succeeds, and the
  -- table stays valid.
  pub elimina_segmento-IsValid :
      (u : Umv) (numero : ℕ)
      → IsValid u
      → numero < length u.lista_de_segmentos
      → (v : Umv) × (elimina_segmento lib u numero ≡ some v) × IsValid v
  unfolding elimina_segmento
  elimina_segmento-IsValid u numero i h =
      let (s, antes, despues, e, k) = posicion u.lista_de_segmentos numero h in
      let (found, tabla) = tabla_tras_eliminar u.lista_de_segmentos antes despues s numero e k in
      let ini = u.inicio_malloc in
      let cant = u.cantidad_bytes_malloc in
      let front : TablaValida ini cant (s ∷ antes ++ despues) =
        TablaValida-perm ini cant (Permᴰ.middle s antes despues)
          (subst (TablaValida ini cant) e i.tabla) in
      let back : TablaValida ini cant ((antes ++ despues) ++ liberado s ∷ []) =
        TablaValida-perm ini cant (Permᴰ.append_comm (liberado s ∷ []) (antes ++ despues))
          (TablaValida-liberado ini cant s (antes ++ despues) front) in
      (
        record u { lista_de_segmentos = (antes ++ despues) ++ liberado s ∷ [] },
        rw (found, elimina_segmento) (ap (λ xs. some (record u { lista_de_segmentos = xs })) tabla),
        record { direccionable = i.direccionable; cantidad_int = i.cantidad_int; tabla = back },
      )
