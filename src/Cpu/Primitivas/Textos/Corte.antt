-- ===== src/Cpu/Primitivas/Textos/Corte.antt =====
-- Where the loop of `removeNewLine` in proyectoCPU/primitivas.c stops.
use personal_copy_tp.Common.{
  ℕ, zero, suc, ◌+◌, ◌<◌, ◌≤◌, ◌≡◌, refl, ap, ◌∙◌, List, [], ◌∷◌, ◌++◌, none, some, true, false,
  arith, length, length-append, take, All, ◌⊎◌, inl, inr, sym,
}
use personal_copy_tp.Commons.Strings.{StringOps}
use personal_copy_tp.Cpu.Primitivas.Textos.{isalnum, alnum_en, retroceder, remove_new_line}

le_suc-cases : (i n : ℕ) → i ≤ suc n → (i ≡ suc n) ⊎ (i ≤ n)
le_suc-cases i n h = grind arith

retroceder-some :
    (texto : List ℕ) (i fin : ℕ)
    → i ≤ fin
    → alnum_en texto i ≡ true
    → ((j : ℕ) → i < j → alnum_en texto j ≡ false)
    → retroceder texto fin ≡ some i
unfolding retroceder
retroceder-some texto i zero h hit after =
    let same : i ≡ 0 = omega arith in
    let hit' : alnum_en texto zero ≡ true = rw same at hit in rw hit' (ap some (omega arith))
retroceder-some texto i (suc fin) h hit after = elim (le_suc-cases i fin h) [
  | inl same ↦
      let hit' : alnum_en texto (suc fin) ≡ true = rw same at hit in rw hit' (ap some (sym same))
  | inr less ↦ rw (after (suc fin) (omega arith)) (retroceder-some texto i fin less hit after)
]

retroceder-none :
    (texto : List ℕ) (fin : ℕ) → ((j : ℕ) → alnum_en texto j ≡ false) → retroceder texto fin ≡ none
unfolding retroceder
retroceder-none texto zero h = rw (h zero)
retroceder-none texto (suc fin) h = rw (h (suc fin)) (retroceder-none texto fin h)

abbrev pub SinAlnum : List ℕ → Type 0
SinAlnum = All (λ c. isalnum c ≡ false)

alnum_en-SinAlnum : (texto : List ℕ) (j : ℕ) → SinAlnum texto → alnum_en texto j ≡ false
alnum_en-SinAlnum [] j h = refl
alnum_en-SinAlnum (c ∷ texto) zero h = h.0
alnum_en-SinAlnum (c ∷ texto) (suc j) h = alnum_en-SinAlnum texto j h.1

alnum_en-last :
    (texto : List ℕ) (c : ℕ) (resto : List ℕ)
    → alnum_en (texto ++ c ∷ resto) (length texto) ≡ isalnum c
alnum_en-last [] c resto = refl
alnum_en-last (x ∷ texto) c resto = alnum_en-last texto c resto

alnum_en-after :
    (texto : List ℕ) (c : ℕ) (resto : List ℕ) (j : ℕ)
    → SinAlnum resto
    → length texto < j
    → alnum_en (texto ++ c ∷ resto) j ≡ false
alnum_en-after [] c resto zero h k = absurd (omega arith)
alnum_en-after [] c resto (suc j) h k = alnum_en-SinAlnum resto j h
alnum_en-after (x ∷ texto) c resto zero h k = absurd (omega arith)
alnum_en-after (x ∷ texto) c resto (suc j) h k = alnum_en-after texto c resto j h (omega arith)

take-last :
    (texto : List ℕ) (c : ℕ) (resto : List ℕ)
    → take (length texto + 1) (texto ++ c ∷ resto) ≡ texto ++ c ∷ []
take-last [] c resto = refl
take-last (x ∷ texto) c resto =
    let next : suc (length texto) + 1 ≡ suc (length texto + 1) = omega arith in
    rw next (ap (◌∷◌ x) (take-last texto c resto))

-- On a text with a letter or a digit, the loop of removeNewLine ends inside the text, and what is left is
-- the text up to its last letter or digit.
pub remove_new_line_lem :
    (so : StringOps) (texto : List ℕ) (c : ℕ) (resto : List ℕ)
    → isalnum c ≡ true
    → SinAlnum resto
    → remove_new_line so (texto ++ c ∷ resto) ≡ some (texto ++ c ∷ [])
unfolding remove_new_line
remove_new_line_lem so texto c resto good rest =
    let whole = texto ++ c ∷ resto in
    let len : length whole ≡ length texto + (length resto + 1) =
      length-append texto (c ∷ resto) ∙ omega arith in
    let found =
      retroceder-some whole (length texto) (length whole) (omega (arith, len))
        (alnum_en-last texto c resto ∙ good) (λ j k. alnum_en-after texto c resto j rest k) in
    rw (found, remove_new_line)
      (ap some (
        so.string_substring_until_lem whole (length texto + 1) (omega (arith, len))
        ∙ take-last texto c resto))

-- On a text with no letter and no digit the loop runs on into the memory before the text.
pub remove_new_line-none :
    (so : StringOps) (texto : List ℕ) → SinAlnum texto → remove_new_line so texto ≡ none
unfolding remove_new_line
remove_new_line-none so texto h =
    rw (retroceder-none texto (length texto) (λ j. alnum_en-SinAlnum texto j h), remove_new_line)
