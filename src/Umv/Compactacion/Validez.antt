-- ===== src/Umv/Compactacion/Validez.antt =====
-- After `compactador` of proyectoUMV/umv.c the table is valid and the free bytes lie in one hole.
use personal_copy_tp.Common.{
  ℕ, ◌+◌, ◌^◌, ◌<◌, ◌≡◌, sym, ◌∙◌, ◌==◌, ◌⊎◌, List, [], ◌∷◌, ◌++◌, minus_one, false, inl, inr,
  arith, subst, All, All-mono, All-append,
}
use personal_copy_tp.Umv.Estado.{Segmento, Umv, Configuracion}
use personal_copy_tp.Umv.Invariante.{ConDueno, total, usado, TablaValida, IsValid}
use personal_copy_tp.Umv.Liberacion.Vacios.{ocupados}
use personal_copy_tp.Umv.Compactacion.Contenidos.{Contiguos}
use personal_copy_tp.Umv.Compactacion.Medidas.{
  mismos-All, mismos-total, Contiguos-EnPool, Contiguos-Separados, Contiguos-append, total-append,
  usado-total, total-ocupados, ocupados-usados,
}
use personal_copy_tp.Umv.Compactacion.Orden.{ocupados-All}
use personal_copy_tp.Umv.Compactacion.Correccion.{Compactado}

-- A list with no gap that makes up the pool.
TablaValida-Contiguos :
    (ini cant : ℕ) (xs : List Segmento)
    → Contiguos ini xs
    → All (λ s. s.tamano_segmento < 2 ^ 31) xs
    → All ConDueno xs
    → total xs ≡ cant
    → TablaValida ini cant xs
TablaValida-Contiguos ini cant xs c small own whole = record {
  en_pool = Contiguos-EnPool ini cant ini xs (omega arith) (omega arith) small c;
  separados = Contiguos-Separados ini xs c;
  con_dueno = own;
  completa = inr whole;
}

pub usado-append :
    (xs : List Segmento) (h : Segmento) → h.process_id ≡ minus_one → usado (xs ++ h ∷ []) ≡ usado xs
usado-append [] h e = ground arith
usado-append (s ∷ xs) h e = omega (arith, usado-append xs h e)

module _ (u v : Umv) (i : IsValid u) (c : Compactado u v) where
  medidas : total c.usados ≡ usado u.lista_de_segmentos
  medidas =
      mismos-total v.memoria u.memoria (ocupados u.lista_de_segmentos) c.usados c.mismos
      ∙ total-ocupados u.lista_de_segmentos

  tabla-valida : TablaValida u.inicio_malloc u.cantidad_bytes_malloc v.lista_de_segmentos
  tabla-valida =
      let xs = u.lista_de_segmentos in
      let small : All (λ t. t.tamano_segmento < 2 ^ 31) c.usados =
        mismos-All (λ k. k.tamano < 2 ^ 31) v.memoria u.memoria (ocupados xs) c.usados c.mismos
          (ocupados-All (λ t. t.tamano_segmento < 2 ^ 31) xs
            (All-mono xs (λ t k. k.0) i.tabla.en_pool)) in
      let own : All ConDueno c.usados =
        mismos-All (λ k. (k.pid ≡ minus_one) ⊎ ((0 < k.pid) × (k.pid < 2 ^ 31))) v.memoria u.memoria
          (ocupados xs) c.usados c.mismos (ocupados-All ConDueno xs i.tabla.con_dueno) in
      elim c.final [
        | inl (e, full) ↦
            rw e
              (TablaValida-Contiguos _ _ c.usados c.sin_huecos small own (omega (arith, medidas)))
        | inr (h, e, hole, at, size) ↦ rw e (
            TablaValida-Contiguos _ _ (c.usados ++ h ∷ [])
              (Contiguos-append u.inicio_malloc c.usados h c.sin_huecos (omega (arith, medidas)))
              (All-append (λ t. t.tamano_segmento < 2 ^ 31) c.usados (h ∷ []) small
                (omega (arith, i.cantidad_int), tt))
              (All-append ConDueno c.usados (h ∷ []) own (inl hole, tt))
              (omega (arith, total-append c.usados h, medidas)))
      ]

  pub Compactado-IsValid : IsValid v
  Compactado-IsValid =
      let same = sym c.misma_configuracion in
      record {
        direccionable =
            subst (λ (g : Configuracion). g.inicio_malloc + g.cantidad_bytes_malloc < 2 ^ 64) same
              i.direccionable;
        cantidad_int =
            subst (λ (g : Configuracion). g.cantidad_bytes_malloc < 2 ^ 31) same i.cantidad_int;
        tabla =
            subst
              (λ (g : Configuracion).
                TablaValida g.inicio_malloc g.cantidad_bytes_malloc v.lista_de_segmentos)
              same tabla-valida;
      }

  usados-llenos : usado c.usados ≡ usado u.lista_de_segmentos
  usados-llenos =
      usado-total c.usados (
        mismos-All (λ k. (k.pid == minus_one) ≡ false) v.memoria u.memoria
          (ocupados u.lista_de_segmentos) c.usados c.mismos (ocupados-usados u.lista_de_segmentos))
      ∙ medidas

  pub Compactado-usado : usado v.lista_de_segmentos ≡ usado u.lista_de_segmentos
  Compactado-usado = elim c.final [
    | inl (e, full) ↦ rw e usados-llenos
    | inr (h, e, hole, at, size) ↦ rw e (usado-append c.usados h hole ∙ usados-llenos)
  ]
