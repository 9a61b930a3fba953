-- ===== src/Umv/Abstracto/Refinamiento.antt =====
-- The operations of proyectoUMV/umv.c that run between two allocations, against the texts of the processes:
-- a write changes one text, the end of a process takes its texts away, and a compaction changes none.
use personal_copy_tp.Common.{
  ℕ, ◌+◌, ◌^◌, ◌<◌, ◌≡◌, ◌≢◌, ◌⊎◌, refl, fun_ext, ap, ap₂, sym, ◌∙◌, subst, ◌==◌, ◌&&◌, List, none,
  some, leb, leb→le, length, minus_one, false, inl, inr, arith, All, Option-cases, Bool-cases,
  read_bytes, write_bytes, length-read_bytes,
}
use personal_copy_tp.Commons.{ListOps, Ordered}
use personal_copy_tp.Umv.Estado.{Segmento, Umv}
use personal_copy_tp.Umv.Invariante.{IsValid}
use personal_copy_tp.Umv.Acceso.{denegado, hecho, buscar_segmento, pegar_bytes}
use personal_copy_tp.Umv.Acceso.Limites.{pegar_bytes_lem}
use personal_copy_tp.Umv.Acceso.Aislamiento.{pegar_bytes-IsValid, leer-pegar_bytes_otro}
use personal_copy_tp.Umv.Liberacion.{destruir_segmentos}
use personal_copy_tp.Umv.Liberacion.Vacios.{ocupados}
use personal_copy_tp.Umv.Liberacion.Destruccion.{
  destruir_segmentos-IsValid, leer_bytes-destruir_propio, leer_bytes-destruir_segmentos,
}
use personal_copy_tp.Umv.Compactacion.{compactador}
use personal_copy_tp.Umv.Compactacion.Copias.{SinSolape}
use personal_copy_tp.Umv.Compactacion.Orden.{direccion, Positivo}
use personal_copy_tp.Umv.Compactacion.Transparencia.{compactador_transparente, compactador-IsValid}
use personal_copy_tp.Umv.Abstracto.{vista, pegar_texto, reemplazar, cambiar, quitar}
use personal_copy_tp.Umv.Abstracto.Textos.{
  read-write_bytes-reemplazar, vista-ext, vista-corta, leer_texto-ext, leer_bytes-leer_texto,
}

pub otro_lugar : (p b pid base : ℕ) → (p == pid && b == base) ≡ false → (base ≢ b) ⊎ (pid ≢ p)
otro_lugar p b pid base e = elim (Bool-cases (p == pid)) [
  | inl same ↦ inl (ground arith)
  | inr other ↦ inr (ground arith)
]

module _ (u : Umv) (pid base offset : ℕ) (bytes : List ℕ) {v : Umv} (i : IsValid u)
    (n : pid ≢ minus_one) (small : offset + length bytes < 2 ^ 31)
    (e : pegar_bytes u bytes base offset (length bytes) pid ≡ hecho v) where
  -- The text that is written to.
  pegar_bytes-propio :
      (nuevo : List ℕ) × (pegar_texto (vista u pid base) bytes offset ≡ hecho nuevo)
      × (vista v pid base ≡ some nuevo)
  pegar_bytes-propio =
      let someone : (pid == minus_one) ≡ false = ground arith in
      let written = sym (pegar_bytes_lem u bytes base offset pid i small) ∙ e in
      elim (Option-cases (buscar_segmento u.lista_de_segmentos base pid)) [
        | inl miss ↦ let bad : denegado ≡ hecho v = rw miss at written in cc
        | inr (s, hit) ↦
            let viejo = read_bytes u.memoria s.direccion_real s.tamano_segmento in
            let whole = length-read_bytes u.memoria s.direccion_real s.tamano_segmento in
            let done = rw hit at written in
            elim (Bool-cases (leb (offset + length bytes) s.tamano_segmento)) [
              | inr big ↦ let bad : denegado ≡ hecho v = rw big at done in cc
              | inl fits ↦
                  let m = write_bytes u.memoria (s.direccion_real + offset) bytes in
                  let after : hecho (record u { memoria = m }) ≡ hecho v = rw fits at done in
                  let same : record u { memoria = m } ≡ v = cc in
                  (
                    reemplazar viejo offset bytes,
                    rw (someone, hit, whole, fits) refl,
                    subst (λ w. vista w pid base ≡ some (reemplazar viejo offset bytes)) same
                        (rw (someone, hit)
                          (ap some (
                            read-write_bytes-reemplazar u.memoria s.direccion_real s.tamano_segmento
                              offset (s.direccion_real + offset) bytes refl (leb→le _ _ fits)))),
                  )
            ]
      ]

  -- The other texts.
  pegar_bytes-ajeno : (p b : ℕ) → (base ≢ b) ⊎ (pid ≢ p) → vista v p b ≡ vista u p b
  pegar_bytes-ajeno p b d = elim (Bool-cases (p == minus_one)) [
    | inl hole ↦ rw hole refl
    | inr someone ↦
        vista-ext v u p b (pegar_bytes-IsValid u bytes base offset (length bytes) pid i e) i
          (ground arith)
          (λ k h. leer-pegar_bytes_otro u bytes base offset pid b 0 k p i small (omega arith) d e)
  ]

  pub pegar_bytes-vista :
      (nuevo : List ℕ) × (pegar_texto (vista u pid base) bytes offset ≡ hecho nuevo)
      × (vista v ≡ cambiar (vista u) pid base nuevo)
  pegar_bytes-vista =
      let (nuevo, wrote, text) = pegar_bytes-propio in
      let each : (p b : ℕ) → vista v p b ≡ cambiar (vista u) pid base nuevo p b = λ p b.
        elim (Bool-cases (p == pid && b == base)) [
          | inl own ↦
              let one : p ≡ pid = ground arith in
              let two : b ≡ base = ground arith in rw own (ap₂ (λ x y. vista v x y) one two ∙ text)
          | inr other ↦ rw other (pegar_bytes-ajeno p b (otro_lugar p b pid base other))
        ] in
      (nuevo, wrote, fun_ext (λ p. fun_ext (λ b. each p b)))

sin_texto :
    (u : Umv) (pid base : ℕ)
    → IsValid u
    → pid ≢ minus_one
    → vista (destruir_segmentos u pid) pid base ≡ none
sin_texto u pid base i n =
    let v = destruir_segmentos u pid in
    let j = destruir_segmentos-IsValid u pid i in
    leer_texto-ext (vista v pid base) none (vista-corta v pid base j) (λ ys e. absurd (cc))
      (λ k h.
        sym (leer_bytes-leer_texto v base 0 k pid j n (omega arith))
        ∙ leer_bytes-destruir_propio u pid base 0 k n)

pub destruir_segmentos-vista :
    (u : Umv) (pid : ℕ)
    → IsValid u
    → pid ≢ minus_one
    → vista (destruir_segmentos u pid) ≡ quitar (vista u) pid
destruir_segmentos-vista u pid i n = fun_ext (λ p. fun_ext (λ b.
    elim (Bool-cases (p == minus_one)) [
      | inl hole ↦ let other : (p == pid) ≡ false = ground arith in rw (hole, other) refl
      | inr someone ↦ elim (Bool-cases (p == pid)) [
        | inl own ↦
            let one : pid ≡ p = ground arith in
            rw own
              (subst (λ x. vista (destruir_segmentos u pid) x b ≡ none) one (sin_texto u pid b i n))
        | inr other ↦ rw other (
            vista-ext (destruir_segmentos u pid) u p b (destruir_segmentos-IsValid u pid i) i
              (ground arith)
              (λ k h. leer_bytes-destruir_segmentos u pid p b 0 k (ground arith) (ground arith)))
      ]
    ]))

pub compactador-vista :
    (lib : ListOps Segmento) (u : Umv)
    → IsValid u
    → Ordered direccion u.lista_de_segmentos
    → All Positivo (ocupados u.lista_de_segmentos)
    → SinSolape u.inicio_malloc (ocupados u.lista_de_segmentos)
    → vista (compactador lib u) ≡ vista u
compactador-vista lib u i o pos apart = fun_ext (λ p. fun_ext (λ b.
    elim (Bool-cases (p == minus_one)) [
      | inl hole ↦ rw hole refl
      | inr someone ↦
          let n : p ≢ minus_one = ground arith in
          vista-ext (compactador lib u) u p b (compactador-IsValid lib u i o pos).0 i n
            (λ k h. compactador_transparente lib u b 0 k p i o pos apart n (omega arith))
    ]))
