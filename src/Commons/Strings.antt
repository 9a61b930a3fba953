-- ===== src/Commons/Strings.antt =====
-- commons/string.h of the commons library, as far as proyectoCPU calls it; a text is its bytes without
-- the final zero.
use personal_copy_tp.Common.{ℕ, ◌≤◌, ◌≡◌, refl, List, length, take}

pub record StringOps : Type 0 where
  pub string_substring_until : List ℕ → ℕ → List ℕ
  pub string_substring_until_lem :
      (texto : List ℕ) (n : ℕ) → n ≤ length texto → string_substring_until texto n ≡ take n texto

-- An implementation, for the tests.
abbrev pub string_ops : StringOps
string_ops = record {
  string_substring_until = λ texto n. take n texto;
  string_substring_until_lem = λ texto n h. refl;
}
