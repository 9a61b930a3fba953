-- ===== src/Umv/Compactacion/Desorden.antt =====
-- `compactador` of proyectoUMV/umv.c walks the table in the order that it happens to have: the table is
-- sorted when a segment is created, before the new nodes are added at its end.
use personal_copy_tp.Common.{
  ℕ, All, ◌+◌, ◌^◌, ◌≤◌, ◌<◌, ◌≡◌, refl, ap, sym, ◌∙◌, List, [], ◌∷◌, ◌++◌, false, Bool-cases, inl,
  inr, arith, subst, Memory, int_ltb, int_sub, ltb, ptr_add_nonneg,
}
use mathlib.Core.List.{append-nil}
use personal_copy_tp.Commons.{ListOps}
use personal_copy_tp.Umv.Estado.{Segmento, Umv, tamano_usado_del_malloc}
use personal_copy_tp.Umv.Invariante.{EnPool, Separados, IsValid}
use personal_copy_tp.Umv.Liberacion.Vacios.{ocupados, elimina_vacios-ocupados}
use personal_copy_tp.Umv.Compactacion.{
  bajar, mover, fin, ultimo, hueco_final, terminar, compactar, compactador,
}
use personal_copy_tp.Umv.Compactacion.Contenidos.{memmove, bajar-Bajado}
use personal_copy_tp.Umv.Compactacion.Copias.{compactar-tabla}
use personal_copy_tp.Umv.Compactacion.Orden.{ocupados-All}

mover-head :
    (m : Memory) (s : Segmento) (xs : List Segmento)
    → (cola : List Segmento) × ((mover memmove m s xs).1 ≡ s ∷ cola)
unfolding mover
mover-head m s [] = ([], refl)
mover-head m s (t ∷ xs) =
    ((mover memmove (bajar memmove m (fin s) t).0 (bajar memmove m (fin s) t).1 xs).1, refl)

bajar-stays :
    (m : Memory) (destino : ℕ) (s : Segmento)
    → s.direccion_real ≤ destino
    → bajar memmove m destino s ≡ (m, s)
unfolding bajar
bajar-stays m destino s h =
    let below : ltb destino s.direccion_real ≡ false = ground arith in rw below

module _ (lib : ListOps Segmento) (u : Umv) where
  open lib use {list_add_lem}

  terminar-append :
      (s : Segmento) (m : Memory) (ys : List Segmento)
      → (zs : List Segmento) × ((terminar lib u s m ys).lista_de_segmentos ≡ ys ++ zs)
  unfolding terminar
  terminar-append s m ys =
      elim (Bool-cases (int_ltb (tamano_usado_del_malloc ys) u.cantidad_bytes_malloc)) [
        | inl rest ↦
            let h =
              hueco_final u (fin (ultimo s ys))
                (int_sub u.cantidad_bytes_malloc (tamano_usado_del_malloc ys)) in
            (h ∷ [], rw rest (list_add_lem ys h))
        | inr full ↦ ([], rw full (sym (append-nil ys)))
      ]

  compactar-append :
      (s t : Segmento) (xs : List Segmento)
      → EnPool u.inicio_malloc u.cantidad_bytes_malloc s
      → u.inicio_malloc + u.cantidad_bytes_malloc < 2 ^ 64
      → t.direccion_real ≤ u.inicio_malloc + s.tamano_segmento
      → (r : Segmento) × (zs : List Segmento) × (r.direccion_real ≡ u.inicio_malloc)
        × (r.tamano_segmento ≡ s.tamano_segmento)
        × ((compactar lib memmove u (s ∷ t ∷ xs)).lista_de_segmentos ≡ r ∷ t ∷ zs)
  unfolding compactar mover
  compactar-append s t xs p room low =
      let b = bajar-Bajado u.memoria u.inicio_malloc s p.0 p.1 in
      let r = bajar memmove u.memoria u.inicio_malloc s in
      let top : fin r.1 ≡ u.inicio_malloc + s.tamano_segmento =
        ptr_add_nonneg r.1.direccion_real r.1.tamano_segmento (omega (arith, b.tamano))
          (omega (arith, b.tamano, b.lugar))
        ∙ omega (arith, b.tamano, b.lugar) in
      let stays = bajar-stays r.0 (fin r.1) t (omega arith) in
      let (cola, head) = mover-head r.0 t xs in
      let q = mover memmove r.0 r.1 (t ∷ xs) in
      let (zs, e) = terminar-append r.1 q.0 q.1 in
      let rest : (mover memmove (bajar memmove r.0 (fin r.1) t).0 (bajar memmove r.0 (fin r.1) t).1
            xs).1
          ≡ t ∷ cola =
        ap (λ (k : Memory × Segmento). (mover memmove k.0 k.1 xs).1) stays ∙ head in
      (r.1, cola ++ zs, b.lugar, b.tamano, e ∙ ap (λ l. r.1 ∷ (l ++ zs)) rest)

  -- If the second used segment of a valid table is not empty and starts in the bytes that the first
  -- needs when it is moved to the start of the pool, the compaction puts the first over the second:
  -- the table that it leaves is not valid.
  pub compactador_desordenado :
      (s t : Segmento) (xs : List Segmento)
      → IsValid u
      → ocupados u.lista_de_segmentos ≡ s ∷ t ∷ xs
      → t.direccion_real < u.inicio_malloc + s.tamano_segmento
      → 0 < t.tamano_segmento
      → ¬ IsValid (compactador lib u)
  unfolding compactador
  compactador_desordenado s t xs i e low positive bad =
      let pools : All (EnPool u.inicio_malloc u.cantidad_bytes_malloc) (s ∷ t ∷ xs) =
        subst (All (EnPool u.inicio_malloc u.cantidad_bytes_malloc)) e (
          ocupados-All (EnPool u.inicio_malloc u.cantidad_bytes_malloc) u.lista_de_segmentos
            i.tabla.en_pool) in
      let (r, zs, at, size, shape) =
        compactar-append s t xs pools.0 i.direccionable (omega arith) in
      let (m, table) = compactar-tabla lib u.solapado memmove u (s ∷ t ∷ xs) in
      let bad' : Separados (compactar lib memmove u (s ∷ t ∷ xs)).lista_de_segmentos =
        subst Separados (ap (λ (w : Umv). w.lista_de_segmentos) table) (
          subst (λ ys. Separados (compactar lib u.solapado u ys).lista_de_segmentos)
            (elimina_vacios-ocupados lib u.lista_de_segmentos ∙ e) bad.tabla.separados) in
      let apart = subst Separados shape bad' in omega (arith, apart.0.0, pools.1.0, at, size)
