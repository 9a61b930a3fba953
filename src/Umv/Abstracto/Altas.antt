-- ===== src/Umv/Abstracto/Altas.antt =====
-- A new segment of proyectoUMV/umv.c, against the texts of the processes: one text appears, of the size asked
-- for, and the others stay.
use mathlib.Core.List.Permᴰ
use personal_copy_tp.Common.{
  ℕ, ◌≡◌, ◌≢◌, ◌⊎◌, refl, fun_ext, ap, ap₂, sym, ◌∙◌, ◌==◌, ◌&&◌, List, Option, none, some, length,
  minus_one, true, false, inl, inr, arith, All, All-perm, All-mono, Option-cases, Bool-cases,
  read_bytes, length-read_bytes,
}
use personal_copy_tp.Umv.Estado.{Segmento, Umv}
use personal_copy_tp.Umv.Invariante.{IsValid, ConDueno}
use personal_copy_tp.Umv.Acceso.{buscar_segmento}
use personal_copy_tp.Umv.Asignacion.Validez.{Asignado}
use personal_copy_tp.Umv.Abstracto.{vista, texto_de, cambiar}
use personal_copy_tp.Umv.Abstracto.Refinamiento.{otro_lugar}
use personal_copy_tp.Umv.Abstracto.Busqueda.{
  es_de, Unicos, No, Solo, buscar_segmento-none, No-buscar_segmento, Solo-buscar_segmento,
  Unicos-Solo,
}

texto_de-memoria :
    (u v : Umv) (s : Option Segmento) → v.memoria ≡ u.memoria → texto_de v s ≡ texto_de u s
texto_de-memoria u v none e = refl
texto_de-memoria u v (some s) e = ap (λ m. some (read_bytes m s.direccion_real s.tamano_segmento)) e

module _ (u v : Umv) (pid tamano dir : ℕ) (i : IsValid u) (a : Asignado u v pid tamano dir)
    (n : pid ≢ minus_one) where
  hueco : a.vacio.process_id ≡ minus_one
  hueco =
      let owner = (All-perm ConDueno a.antes i.tabla.con_dueno).0 in
      let empty = a.de_un_vacio in ground arith

  -- What holds of the nodes with a key, in the table before and in the table after, for a key that the new
  -- node does not have.
  resto-No : (base p : ℕ) → All (No base p) u.lista_de_segmentos → All (No base p) a.resto
  resto-No base p h = (All-perm (No base p) a.antes h).1

  module _ (base p : ℕ) (k : p ≢ minus_one) where
    sobrante-No : No base p a.sobrante
    sobrante-No = let e = hueco in let d = a.mismo_dueno in ground arith

    vacio-No : No base p a.vacio
    vacio-No = let e = hueco in ground arith

    module _ (other : (dir ≢ base) ⊎ (pid ≢ p)) where
      nuevo-No : No base p a.nuevo
      nuevo-No = let e = a.en_direccion in let d = a.del_proceso in ground arith

      antes-No : All (No base p) v.lista_de_segmentos → All (No base p) u.lista_de_segmentos
      antes-No h =
          let rest = (All-perm (No base p) a.despues h).1.1 in
          All-perm (No base p) (Permᴰ.symm a.antes) (vacio-No, rest)

      despues-No : All (No base p) u.lista_de_segmentos → All (No base p) v.lista_de_segmentos
      despues-No h =
          All-perm (No base p) (Permᴰ.symm a.despues) (nuevo-No, (sobrante-No, resto-No base p h))

      despues-Solo :
          (s : Segmento)
          → All (Solo base p s) u.lista_de_segmentos
          → All (Solo base p s) v.lista_de_segmentos
      despues-Solo s h =
          let rest = (All-perm (Solo base p s) a.antes h).1 in
          let new = nuevo-No in
          let left = sobrante-No in
          All-perm (Solo base p s) (Permᴰ.symm a.despues)
            (λ own. absurd (ground arith), (λ own. absurd (ground arith), rest))

      buscar_segmento-Asignado :
          Unicos u.lista_de_segmentos
          → buscar_segmento v.lista_de_segmentos base p
            ≡ buscar_segmento u.lista_de_segmentos base p
      buscar_segmento-Asignado once =
          elim (Option-cases (buscar_segmento u.lista_de_segmentos base p)) [
            | inl miss ↦
                No-buscar_segmento v.lista_de_segmentos base p
                  (despues-No (buscar_segmento-none u.lista_de_segmentos base p miss))
                ∙ sym miss
            | inr (s, hit) ↦
                Solo-buscar_segmento v.lista_de_segmentos base p s
                  (despues-Solo s (Unicos-Solo u.lista_de_segmentos base p k once hit))
                  (λ gone.
                    let bad : none ≡ some s =
                      sym (
                        No-buscar_segmento u.lista_de_segmentos base p
                          (antes-No (buscar_segmento-none v.lista_de_segmentos base p gone)))
                      ∙ hit in
                    cc)
                ∙ sym hit
          ]

      vista-otra : Unicos u.lista_de_segmentos → vista v p base ≡ vista u p base
      vista-otra once =
          let someone : (p == minus_one) ≡ false = ground arith in
          rw (someone, buscar_segmento-Asignado once)
            (texto_de-memoria u v (buscar_segmento u.lista_de_segmentos base p) a.misma_memoria)

  -- The node found under the new key.
  buscar_segmento-nuevo :
      buscar_segmento u.lista_de_segmentos dir pid ≡ none
      → buscar_segmento v.lista_de_segmentos dir pid ≡ some a.nuevo
  buscar_segmento-nuevo fresh =
      let own : es_de dir pid a.nuevo ≡ true =
        let e = a.en_direccion in let d = a.del_proceso in ground arith in
      let rest = resto-No dir pid (buscar_segmento-none u.lista_de_segmentos dir pid fresh) in
      let left = sobrante-No dir pid n in
      Solo-buscar_segmento v.lista_de_segmentos dir pid a.nuevo
        (All-perm (Solo dir pid a.nuevo) (Permᴰ.symm a.despues) (
          λ t. refl,
          (λ t. absurd (ground arith), All-mono a.resto (λ s no yes. absurd (ground arith)) rest),
        ))
        (λ gone.
          let none_new =
            (All-perm (No dir pid) a.despues
              (buscar_segmento-none v.lista_de_segmentos dir pid gone)).0 in
          absurd (ground arith))

  -- A segment cut out of a hole, at an address that its process does not have, is one text more.
  pub Asignado-vista :
      Unicos u.lista_de_segmentos
      → buscar_segmento u.lista_de_segmentos dir pid ≡ none
      → (texto : List ℕ) × (length texto ≡ tamano) × (vista v ≡ cambiar (vista u) pid dir texto)
  Asignado-vista once fresh =
      let someone : (pid == minus_one) ≡ false = ground arith in
      let texto = read_bytes v.memoria a.nuevo.direccion_real a.nuevo.tamano_segmento in
      let mine : vista v pid dir ≡ some texto = rw (someone, buscar_segmento-nuevo fresh) refl in
      let each : (p b : ℕ) → vista v p b ≡ cambiar (vista u) pid dir texto p b = λ p b.
        elim (Bool-cases (p == pid && b == dir)) [
          | inl own ↦
              let one : p ≡ pid = ground arith in
              let two : b ≡ dir = ground arith in rw own (ap₂ (λ x y. vista v x y) one two ∙ mine)
          | inr other ↦ elim (Bool-cases (p == minus_one)) [
            | inl hole ↦ rw (other, hole) refl
            | inr k ↦ rw other (vista-otra b p (ground arith) (otro_lugar p b pid dir other) once)
          ]
        ] in
      (
        texto,
        length-read_bytes v.memoria a.nuevo.direccion_real a.nuevo.tamano_segmento ∙ a.del_tamano,
        fun_ext (λ p. fun_ext (λ b. each p b)),
      )
