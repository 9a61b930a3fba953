-- ===== src/Umv/Asignacion/PrimerAjuste.antt =====
-- `crearSegmento` of proyectoUMV/umv.c under first fit, from the call to the answer.
use native.Mathlib.Decide.{dec_le}
use personal_copy_tp.Common.{
  ℕ, ◌+◌, ◌^◌, ◌≤◌, ◌<◌, ◌≡◌, ◌∙◌, Option, none, some, arith, if◌then◌else◌, ◌==◌, leb, int_leb,
  int_add, subst, sym, minus_one,
}
use personal_copy_tp.Commons.{ListOps}
use personal_copy_tp.Umv.Estado.{Segmento, Umv, tamano_usado_del_malloc}
use personal_copy_tp.Umv.Invariante.{IsValid, usado, usado-le, tamano_usado-usado}
use personal_copy_tp.Umv.Asignacion.Validez.{Asignado-IsValid}
use personal_copy_tp.Umv.Asignacion.Crear.{
  Primero-IsValid, Resultado, rechazado, primero, asignado, sin_hueco, ordenar-IsValid,
  first_fit-Resultado,
}
use personal_copy_tp.Umv.Asignacion.{con_direccion, first_fit, worst_fit, crear_segmento}

pub con_direccion-some :
    (o : Option (Segmento × Umv)) {dir : ℕ} {v : Umv}
    → con_direccion o ≡ some (dir, v)
    → (s : Segmento) × (o ≡ some (s, v)) × (s.direccion_virtual ≡ dir)
con_direccion-some none e = cc
con_direccion-some (some (s, w)) e = (s, ground arith, ground arith)

-- The test of `crear_segmento` on a valid table is that of the sum of the sizes.
prueba-usado :
    (u : Umv) (tamano : ℕ)
    → IsValid u
    → u.cantidad_bytes_malloc + tamano < 2 ^ 31
    → int_leb
        (int_add (tamano_usado_del_malloc u.lista_de_segmentos) tamano)
        u.cantidad_bytes_malloc
      ≡ leb (usado u.lista_de_segmentos + tamano) u.cantidad_bytes_malloc
prueba-usado u tamano i small = rw (tamano_usado-usado u i) (ground (arith, usado-le u i))

module _ (lib : ListOps Segmento) (basura : Segmento) where
  abbrev pub datos_de : ℕ → ℕ → Segmento
  datos_de pid tamano = record basura { process_id = pid; tamano_segmento = tamano }

  pub crear_segmento-cabe :
      (u : Umv) (pid tamano : ℕ)
      → IsValid u
      → u.cantidad_bytes_malloc + tamano < 2 ^ 31
      → usado u.lista_de_segmentos + tamano ≤ u.cantidad_bytes_malloc
      → crear_segmento lib basura u pid tamano
        ≡ con_direccion (
            if u.algoritmo_activo == 1
            then first_fit lib u (datos_de pid tamano)
            else worst_fit lib u (datos_de pid tamano))
  unfolding crear_segmento
  crear_segmento-cabe u pid tamano i small fits = ground (arith, prueba-usado u tamano i)

  pub crear_segmento-rechaza :
      (u : Umv) (pid tamano : ℕ)
      → IsValid u
      → u.cantidad_bytes_malloc + tamano < 2 ^ 31
      → u.cantidad_bytes_malloc < usado u.lista_de_segmentos + tamano
      → crear_segmento lib basura u pid tamano ≡ some (minus_one, u)
  unfolding crear_segmento
  crear_segmento-rechaza u pid tamano i small over = ground (arith, prueba-usado u tamano i)

  -- Under first fit a request that `crear_segmento` answers, on a valid table and for a size that
  -- together with the pool is an `int`, ends in one of four ways: refused for lack of bytes, first
  -- segment of an empty table, a segment cut out of a hole, or no hole large enough; each with the table
  -- that it leaves.
  pub crear_segmento-Resultado :
      (u : Umv) (pid tamano : ℕ) {dir : ℕ} {v : Umv}
      → IsValid u
      → u.algoritmo_activo ≡ 1
      → u.cantidad_bytes_malloc + tamano < 2 ^ 31
      → crear_segmento lib basura u pid tamano ≡ some (dir, v)
      → Resultado lib basura u pid tamano dir v
  unfolding crear_segmento
  crear_segmento-Resultado u pid tamano {dir} {v} i alg small e =
      elim (dec_le (usado u.lista_de_segmentos + tamano) u.cantidad_bytes_malloc) [
        | yes fits ↦
            let run : con_direccion (first_fit lib u (datos_de pid tamano)) ≡ some (dir, v) =
              ground (arith, crear_segmento-cabe u pid tamano i small fits) in
            let (s, q, es) = con_direccion-some (first_fit lib u (datos_de pid tamano)) run in
            subst (λ d. Resultado lib basura u pid tamano d v) es
              (first_fit-Resultado lib basura u pid tamano i fits q)
        | no over ↦
            let same : ◌≡◌ {A = Option (ℕ × Umv)} (some (minus_one, u)) (some (dir, v)) =
              sym (crear_segmento-rechaza u pid tamano i small (omega arith)) ∙ e in
            rechazado (omega arith) (ground arith) (cc)
      ]

  -- Under first fit a request on a valid table, with a PID that is positive as an `int` and a size that
  -- together with the pool is an `int`, keeps the table valid, whatever it answers.
  pub crear_segmento-IsValid :
      (u : Umv) (pid tamano : ℕ) {dir : ℕ} {v : Umv}
      → IsValid u
      → u.algoritmo_activo ≡ 1
      → u.cantidad_bytes_malloc + tamano < 2 ^ 31
      → 0 < pid
      → pid < 2 ^ 31
      → crear_segmento lib basura u pid tamano ≡ some (dir, v)
      → IsValid v
  crear_segmento-IsValid u pid tamano {dir} {v} i alg small positive int e =
      elim (crear_segmento-Resultado u pid tamano i alg small e) [
        | rechazado _ _ same ↦ subst IsValid (sym same) i
        | primero p ↦ Primero-IsValid u v pid tamano dir positive int p i
        | asignado a ↦ Asignado-IsValid u v pid tamano dir positive int a i
        | sin_hueco _ _ _ same ↦ subst IsValid (sym same) (ordenar-IsValid lib u i)
      ]
