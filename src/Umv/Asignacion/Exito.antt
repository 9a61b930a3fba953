-- ===== src/Umv/Asignacion/Exito.antt =====
-- When `crearSegmento` of proyectoUMV/umv.c finds room under first fit, and what it does when the
-- room there is lies in pieces.
use mathlib.Core.List.Permᴰ
use personal_copy_tp.Common.{
  ℕ, ◌+◌, ◌^◌, ◌≤◌, ◌<◌, ◌≡◌, ◌∙◌, inl, inr, ◌≢◌, [], some, true, false, arith, ◌&&◌, int_leb, All,
  All-perm, Option-cases, List-cases, append-cons-ne-nil, sym,
}
use personal_copy_tp.Commons.{ListOps}
use personal_copy_tp.Umv.Estado.{Segmento, Umv, auxiliar_para_ordenar}
use personal_copy_tp.Umv.Invariante.{EnPool, IsValid, usado, perm-nil}
use personal_copy_tp.Umv.Asignacion.Bucles.{
  Posicion, HayNoNulo, sortear_no_nulo-total, sortear_direccion-total, vacio_para, primer_vacio_lem,
}
use personal_copy_tp.Umv.Asignacion.Validez.{Asignado, tabla_ocupada}
use personal_copy_tp.Umv.Asignacion.Crear.{
  rechazado, primero, asignado, sin_hueco, Posicion-All, first_fit_en-nil, first_fit_en-none,
  first_fit_en-some,
}
use personal_copy_tp.Umv.Asignacion.PrimerAjuste.{
  datos_de, crear_segmento-cabe, crear_segmento-Resultado,
}
use personal_copy_tp.Umv.Asignacion.{
  nuevo_primero, vacio_primero, nuevo_en, con_tabla, segmento_create, primer_vacio, primer_segmento,
  ocupar_vacio, ordenar, first_fit, crear_segmento,
}

module _ (lib : ListOps Segmento) where
  open lib use {list_sort_perm}

  pub ocupar_vacio-total :
      (u : Umv) (datos : Segmento) (i : ℕ) (vacio : Segmento)
      → HayNoNulo u.aleatorios
      → (s : Segmento) × (v : Umv) × (ocupar_vacio lib u datos i vacio ≡ some (s, v))
  unfolding ocupar_vacio
  ocupar_vacio-total u datos i vacio h =
      let (dir, resto, q) = sortear_direccion-total u.lista_de_segmentos u.aleatorios h in
      (
        nuevo_en u datos vacio dir,
        con_tabla u (tabla_ocupada lib u datos i vacio dir) resto,
        rw (q, ocupar_vacio),
      )

  pub primer_segmento-total :
      (u : Umv) (datos : Segmento)
      → HayNoNulo u.aleatorios
      → (s : Segmento) × (v : Umv) × (primer_segmento lib u datos ≡ some (s, v))
  unfolding primer_segmento
  primer_segmento-total u datos h =
      let (dir, resto, q) = sortear_no_nulo-total u.aleatorios h in
      (
        nuevo_primero u datos dir,
        con_tabla u
            (segmento_create lib (vacio_primero u datos)
              (segmento_create lib (nuevo_primero u datos dir) u.lista_de_segmentos))
            resto,
        rw (q, primer_segmento),
      )

  first_fit-total :
      (u : Umv) (datos : Segmento)
      → HayNoNulo u.aleatorios
      → u.cantidad_bytes_malloc < 2 ^ 31
      → datos.tamano_segmento ≤ u.cantidad_bytes_malloc
      → (s : Segmento) × (v : Umv) × (first_fit lib u datos ≡ some (s, v))
  unfolding first_fit
  first_fit-total u datos h small fits =
      let w = ordenar lib u in
      elim (List-cases w.lista_de_segmentos) [
        | inl vacia ↦
            let (s, v, q) = primer_segmento-total w datos h in
            (s, v, first_fit_en-nil lib w datos vacia (ground arith) ∙ q)
        | inr (x, xs, llena) ↦
            elim (Option-cases (primer_vacio datos.tamano_segmento 0 w.lista_de_segmentos)) [
              | inl q ↦ (datos, w, first_fit_en-none lib w datos x xs llena q)
              | inr ((j, vacio), q) ↦
                  let (s, v, r) = ocupar_vacio-total w datos j vacio h in
                  (s, v, first_fit_en-some lib w datos x xs j vacio llena q ∙ r)
            ]
      ]

module _ (lib : ListOps Segmento) (basura : Segmento) where
  open lib use {list_sort_perm}

  crear_segmento-total :
      (u : Umv) (pid tamano : ℕ)
      → IsValid u
      → u.algoritmo_activo ≡ 1
      → u.cantidad_bytes_malloc + tamano < 2 ^ 31
      → usado u.lista_de_segmentos + tamano ≤ u.cantidad_bytes_malloc
      → HayNoNulo u.aleatorios
      → (dir : ℕ) × (v : Umv) × (crear_segmento lib basura u pid tamano ≡ some (dir, v))
  crear_segmento-total u pid tamano i alg small fits h =
      let (s, v, q) =
        first_fit-total lib u (datos_de lib basura pid tamano) h i.cantidad_int (omega arith) in
      (
        s.direccion_virtual,
        v,
        ground (arith, crear_segmento-cabe lib basura u pid tamano i small fits),
      )

  -- Under first fit, on a valid table, for a size that together with the pool is an `int`, if the sizes
  -- leave room, some hole holds the bytes asked for and `rand` still gives a value other than 0, the
  -- request returns and cuts its segment out of a hole.
  pub crear_segmento-Asignado :
      (u : Umv) (pid tamano j : ℕ) {t : Segmento}
      → IsValid u
      → u.algoritmo_activo ≡ 1
      → u.cantidad_bytes_malloc + tamano < 2 ^ 31
      → usado u.lista_de_segmentos + tamano ≤ u.cantidad_bytes_malloc
      → HayNoNulo u.aleatorios
      → Posicion u.lista_de_segmentos j t
      → vacio_para t ≡ true
      → tamano ≤ t.tamano_segmento
      → (dir : ℕ) × (v : Umv) × (crear_segmento lib basura u pid tamano ≡ some (dir, v))
        × Asignado u v pid tamano dir
  crear_segmento-Asignado u pid tamano j {t} i alg small fits h at hole enough =
      let (dir, v, q) = crear_segmento-total u pid tamano i alg small fits h in
      let here =
        Posicion-All lib (EnPool u.inicio_malloc u.cantidad_bytes_malloc) at i.tabla.en_pool in
      (
        dir,
        v,
        q,
        elim (crear_segmento-Resultado lib basura u pid tamano i alg small q) [
          | rechazado over _ _ ↦ absurd (omega arith)
          | primero p ↦ absurd (not-nil at p.vacia)
          | asignado a ↦ a
          | sin_hueco _ no_room _ _ ↦
              let bad =
                Posicion-All lib (λ t. (vacio_para t && int_leb tamano t.tamano_segmento) ≡ false)
                  at no_room in
              absurd (ground arith)
        ],
      )
    where
      not-nil : Posicion u.lista_de_segmentos j t → u.lista_de_segmentos ≡ [] → ⊥
      not-nil at e = append-cons-ne-nil at.antes t at.despues (sym at.lista ∙ e)

  -- If the sizes leave room but no hole is large enough, the call succeeds in nothing: the table is
  -- sorted, and the answer is whatever the uninitialised address field held.
  pub crear_segmento-sin_hueco :
      (u : Umv) (pid tamano : ℕ)
      → IsValid u
      → u.algoritmo_activo ≡ 1
      → u.cantidad_bytes_malloc + tamano < 2 ^ 31
      → usado u.lista_de_segmentos + tamano ≤ u.cantidad_bytes_malloc
      → u.lista_de_segmentos ≢ []
      → All (λ t. (vacio_para t && int_leb tamano t.tamano_segmento) ≡ false) u.lista_de_segmentos
      → crear_segmento lib basura u pid tamano ≡ some (basura.direccion_virtual, ordenar lib u)
  unfolding first_fit
  crear_segmento-sin_hueco u pid tamano i alg small fits some_node no_room =
      let w = ordenar lib u in
      let sorted = list_sort_perm auxiliar_para_ordenar u.lista_de_segmentos in
      let none_here =
        All-perm (λ t. (vacio_para t && int_leb tamano t.tamano_segmento) ≡ false) sorted no_room in
      let run : first_fit lib u (datos_de lib basura pid tamano)
          ≡ some (datos_de lib basura pid tamano, w) =
        elim (List-cases w.lista_de_segmentos) [
          | inl vacia ↦ absurd (some_node (perm-nil (Permᴰ.symm sorted) vacia))
          | inr (x, xs, llena) ↦ elim (Option-cases (primer_vacio tamano 0 w.lista_de_segmentos)) [
            | inl q ↦ first_fit_en-none lib w (datos_de lib basura pid tamano) x xs llena q
            | inr ((j, vacio), q) ↦
                let (k, ej, p) = primer_vacio_lem tamano 0 w.lista_de_segmentos q in
                let bad =
                  Posicion-All lib (λ t. (vacio_para t && int_leb tamano t.tamano_segmento) ≡ false)
                    p.posicion none_here in
                absurd (ground (arith, p.vacio, p.alcanza))
          ]
        ] in
      ground (arith, crear_segmento-cabe lib basura u pid tamano i small fits)
