-- ===== src/Umv/Asignacion/PeorAjuste.antt =====
-- `crearSegmento` of proyectoUMV/umv.c under worst fit. `worstFit` takes the largest hole without
-- comparing its size with the one asked for.
use mathlib.Core.List.Permᴰ
use personal_copy_tp.Common.{
  ℕ, ◌+◌, ◌^◌, ◌≤◌, ◌<◌, ◌≡◌, refl, ap, ◌∙◌, inl, inr, ◌≢◌, List, [], ◌∷◌, none, some, true, false,
  arith, ◌&&◌, int_ltb, All, All-perm, All-append_right, Option-cases, List-cases,
  append-cons-ne-nil, subst, sym,
}
use personal_copy_tp.Commons.{ListOps}
use personal_copy_tp.Umv.Estado.{Segmento, Umv, auxiliar_para_ordenar}
use personal_copy_tp.Umv.Invariante.{EnPool, IsValid, usado, perm-nil}
use personal_copy_tp.Umv.Asignacion.Bucles.{
  Posicion, HayNoNulo, vacio_para, mayor_vacio_lem, mayor_vacio-none,
}
use personal_copy_tp.Umv.Asignacion.Validez.{
  Asignado, Asignado-perm, ocupar_vacio-some, ocupar_vacio-Asignado,
}
use personal_copy_tp.Umv.Asignacion.Crear.{ordenar-IsValid, Posicion-All}
use personal_copy_tp.Umv.Asignacion.PrimerAjuste.{datos_de, crear_segmento-cabe}
use personal_copy_tp.Umv.Asignacion.Exito.{ocupar_vacio-total}
use personal_copy_tp.Umv.Asignacion.{
  con_direccion, sobrante_de, nuevo_en, segmento_create, mayor_vacio, ocupar_vacio, ordenar,
  worst_fit_en, worst_fit, crear_segmento,
}

-- The largest hole of a table, by its position.
abbrev pub EsMayor : List Segmento → ℕ → Segmento → Type 0
EsMayor xs j t =
    Posicion xs j t
    × (vacio_para t ≡ true)
    × (0 < t.tamano_segmento)
    × All (λ r. (vacio_para r && int_ltb t.tamano_segmento r.tamano_segmento) ≡ false) xs

module _ (lib : ListOps Segmento) where
  open lib use {list_sort_perm, list_add_lem}

  worst_fit_en-some :
      (w : Umv) (datos : Segmento) (x : Segmento) (xs : List Segmento) (i : ℕ) (vacio : Segmento)
      → w.lista_de_segmentos ≡ x ∷ xs
      → mayor_vacio 0 none 0 w.lista_de_segmentos ≡ some (i, vacio)
      → worst_fit_en lib w datos ≡ ocupar_vacio lib w datos i vacio
  unfolding worst_fit_en
  worst_fit_en-some w datos x xs i vacio e q = ground arith

  -- With a hole of positive size in the table, the loop of `worstFit` ends at a largest one.
  worst_fit-ocupar :
      (u : Umv) (datos : Segmento) (j : ℕ) {t : Segmento}
      → IsValid u
      → EsMayor u.lista_de_segmentos j t
      → (i : ℕ) × (vacio : Segmento) × (worst_fit lib u datos
          ≡ ocupar_vacio lib (ordenar lib u) datos i vacio)
        × Posicion (ordenar lib u).lista_de_segmentos i vacio
        × (vacio_para vacio ≡ true)
        × (vacio.tamano_segmento ≡ t.tamano_segmento)
  unfolding worst_fit
  worst_fit-ocupar u datos j {t} i m =
      let w = ordenar lib u in
      let sorted = list_sort_perm auxiliar_para_ordenar u.lista_de_segmentos in
      let pool = EnPool u.inicio_malloc u.cantidad_bytes_malloc in
      let t_in = Posicion-All lib pool m.0 i.tabla.en_pool in
      elim (List-cases w.lista_de_segmentos) [
        | inl vacia ↦ absurd (
            append-cons-ne-nil m.0.antes t m.0.despues
              (sym m.0.lista ∙ perm-nil (Permᴰ.symm sorted) vacia))
        | inr (x, xs, llena) ↦ elim (Option-cases (mayor_vacio 0 none 0 w.lista_de_segmentos)) [
          | inl q ↦
              let below =
                Posicion-All lib (λ r. (vacio_para r && int_ltb 0 r.tamano_segmento) ≡ false) m.0
                  (All-perm (λ r. (vacio_para r && int_ltb 0 r.tamano_segmento) ≡ false)
                    (Permᴰ.symm sorted) (mayor_vacio-none w.lista_de_segmentos q)) in
              absurd (ground (arith, m.1, m.2))
          | inr ((k, vacio), q) ↦
              let p = mayor_vacio_lem w.lista_de_segmentos q in
              let v_in = Posicion-All lib pool p.posicion (ordenar-IsValid lib u i).tabla.en_pool in
              let t_not_above =
                Posicion-All lib
                  (λ r. (vacio_para r && int_ltb vacio.tamano_segmento r.tamano_segmento) ≡ false)
                  m.0
                  (All-perm
                    (λ r. (vacio_para r && int_ltb vacio.tamano_segmento r.tamano_segmento) ≡ false)
                    (Permᴰ.symm sorted) p.mayor) in
              let v_not_above =
                Posicion-All lib
                  (λ r. (vacio_para r && int_ltb t.tamano_segmento r.tamano_segmento) ≡ false)
                  p.posicion
                  (All-perm
                    (λ r. (vacio_para r && int_ltb t.tamano_segmento r.tamano_segmento) ≡ false)
                    sorted m.3) in
              (
                k,
                vacio,
                worst_fit_en-some w datos x xs k vacio llena q,
                p.posicion,
                p.vacio,
                ground (arith, m.1, p.vacio),
              )
        ]
      ]

module _ (lib : ListOps Segmento) (basura : Segmento) where
  open lib use {list_sort_perm, list_remove, list_add_lem}

  crear_segmento-ocupar :
      (u : Umv) (pid tamano j : ℕ) {t : Segmento}
      → IsValid u
      → u.algoritmo_activo ≢ 1
      → u.cantidad_bytes_malloc + tamano < 2 ^ 31
      → usado u.lista_de_segmentos + tamano ≤ u.cantidad_bytes_malloc
      → EsMayor u.lista_de_segmentos j t
      → (i : ℕ) × (vacio : Segmento) × (crear_segmento lib basura u pid tamano
          ≡ con_direccion
              (ocupar_vacio lib (ordenar lib u) (datos_de lib basura pid tamano) i vacio))
        × Posicion (ordenar lib u).lista_de_segmentos i vacio
        × (vacio_para vacio ≡ true)
        × (vacio.tamano_segmento ≡ t.tamano_segmento)
  crear_segmento-ocupar u pid tamano j {t} i alg small fits m =
      let (k, vacio, q, at, hole, size) =
        worst_fit-ocupar lib u (datos_de lib basura pid tamano) j i m in
      (
        k,
        vacio,
        ground (arith, crear_segmento-cabe lib basura u pid tamano i small fits),
        at,
        hole,
        size,
      )

  -- Under worst fit, on a valid table, for a size that together with the pool is an `int`, if the sizes
  -- leave room, the largest hole holds the bytes asked for and `rand` still gives a value other than 0,
  -- the request returns and cuts its segment out of a hole of that size.
  pub crear_segmento-peor_Asignado :
      (u : Umv) (pid tamano j : ℕ) {t : Segmento}
      → IsValid u
      → u.algoritmo_activo ≢ 1
      → u.cantidad_bytes_malloc + tamano < 2 ^ 31
      → usado u.lista_de_segmentos + tamano ≤ u.cantidad_bytes_malloc
      → HayNoNulo u.aleatorios
      → EsMayor u.lista_de_segmentos j t
      → tamano ≤ t.tamano_segmento
      → (dir : ℕ) × (v : Umv) × (crear_segmento lib basura u pid tamano ≡ some (dir, v))
        × (a : Asignado u v pid tamano dir) × (a.vacio.tamano_segmento ≡ t.tamano_segmento)
  crear_segmento-peor_Asignado u pid tamano j {t} i alg small fits h m enough =
      let w = ordenar lib u in
      let datos = datos_de lib basura pid tamano in
      let (k, vacio, q, at, hole, size) = crear_segmento-ocupar u pid tamano j i alg small fits m in
      let (s, v, r) = ocupar_vacio-total lib w datos k vacio h in
      let here =
        Posicion-All lib (EnPool u.inicio_malloc u.cantidad_bytes_malloc) at
          (ordenar-IsValid lib u i).tabla.en_pool in
      let sorted = list_sort_perm auxiliar_para_ordenar u.lista_de_segmentos in
      let a =
        ocupar_vacio-Asignado lib w datos k vacio i.direccionable here at hole (omega arith) r in
      let b = Asignado-perm u w v pid tamano s.direccion_virtual sorted refl refl a.0 in
      (
        s.direccion_virtual,
        v,
        q ∙ ap con_direccion r,
        b.0,
        ap (λ x. x.tamano_segmento) (b.1 ∙ a.1) ∙ size,
      )

  -- Under worst fit, on a valid table, for a size that together with the pool is an `int`, if the largest
  -- hole is too small though the sizes leave room, and `rand` still gives a value other than 0, the
  -- request takes that hole all the same, and the table that it leaves is not valid.
  pub crear_segmento-peor_invalido :
      (u : Umv) (pid tamano j : ℕ) {t : Segmento}
      → IsValid u
      → u.algoritmo_activo ≢ 1
      → u.cantidad_bytes_malloc + tamano < 2 ^ 31
      → usado u.lista_de_segmentos + tamano ≤ u.cantidad_bytes_malloc
      → HayNoNulo u.aleatorios
      → EsMayor u.lista_de_segmentos j t
      → t.tamano_segmento < tamano
      → (dir : ℕ) × (v : Umv) × (crear_segmento lib basura u pid tamano ≡ some (dir, v))
        × ¬ IsValid v
  crear_segmento-peor_invalido u pid tamano j {t} i alg small fits h m short =
      let w = ordenar lib u in
      let datos = datos_de lib basura pid tamano in
      let (k, vacio, q, at, hole, size) = crear_segmento-ocupar u pid tamano j i alg small fits m in
      let (s, v, r) = ocupar_vacio-total lib w datos k vacio h in
      let (dir, resto, es, ev) = ocupar_vacio-some lib w datos k vacio r in
      (
        s.direccion_virtual,
        v,
        q ∙ ap con_direccion r,
        subst (λ x. ¬ IsValid x) ev
            (λ bad.
              let last =
                All-append_right (EnPool u.inicio_malloc u.cantidad_bytes_malloc)
                  (list_remove
                    (segmento_create lib (nuevo_en w datos vacio dir) w.lista_de_segmentos) k)
                  (sobrante_de datos vacio ∷ [])
                  (subst (All (EnPool u.inicio_malloc u.cantidad_bytes_malloc)) (list_add_lem _ _)
                    bad.tabla.en_pool) in
              omega (arith, last.0, size)),
      )
