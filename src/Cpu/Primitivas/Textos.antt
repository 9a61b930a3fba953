-- ===== src/Cpu/Primitivas/Textos.antt =====
-- `removeNewLine` of proyectoCPU/primitivas.c, which cuts a name behind its last letter or digit.
pub mod Corte
use personal_copy_tp.Common.{
  ℕ, zero, suc, ◌+◌, Bool, false, ◌&&◌, ◌||◌, List, Option, none, some, if◌then◌else◌, leb, length,
  get_elem?,
}
use personal_copy_tp.Commons.Strings.{StringOps}

-- `isalnum` of the C locale.
unfoldable pub isalnum : ℕ → Bool
isalnum c = leb b'0' c && leb c b'9' || leb b'A' c && leb c b'Z' || leb b'a' c && leb c b'z'

-- The test at a place of the text; behind the text stands its final zero.
abbrev pub alnum_en : List ℕ → ℕ → Bool
alnum_en texto i = elim (get_elem? texto i) [ none ↦ false | some c ↦ isalnum c ]

-- `while (!isalnum(string[fin])) fin--;`, from `fin` on; `none` where it reads before the text.
pub retroceder : List ℕ → ℕ → Option ℕ
retroceder texto zero = if alnum_en texto zero then some zero else none
retroceder texto (suc fin) =
    let antes = retroceder texto fin in if alnum_en texto (suc fin) then some (suc fin) else antes

unfoldable pub remove_new_line : StringOps → List ℕ → Option (List ℕ)
unfolding retroceder
remove_new_line so texto = elim (retroceder texto (length texto)) [
  | none ↦ none
  | some fin ↦ some (so.string_substring_until texto (fin + 1))
]
