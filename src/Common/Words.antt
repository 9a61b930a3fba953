-- ===== src/Common/Words.antt =====
-- C integers as bit patterns: an `int`, an `int32_t` and a `uint32_t` are all numbers below 2 ^ 32,
-- so the conversions between them change nothing. `int` arithmetic wraps as on the machine, and
-- the signed comparisons read the pattern in two's complement. A pointer is a number below 2 ^ 64.
-- An integer in a buffer is four bytes, the low one first.
use Prim.Native.Nat.{ℕ, ◌+◌, ◌-◌, ◌*◌, ◌/◌, ◌%◌, ◌^◌, ◌<◌}
use mathlib.Core.Path.{◌≡◌}
use mathlib.Core.Bool.{Bool}
use mathlib.Core.Option.{Option, none, some}
use mathlib.Core.List.{List, [], ◌∷◌, ◌++◌}
use native.Mathlib.Omega.{arith}
use personal_copy_tp.Common.Tests.{ltb, leb, if◌then◌else◌}

abbrev pub int_mod : ℕ
int_mod = 2 ^ 32

-- the first pattern that stands for a negative number
abbrev pub int_min : ℕ
int_min = 2 ^ 31

abbrev pub minus_one : ℕ
minus_one = 2 ^ 32 - 1

abbrev pub int_add : ℕ → ℕ → ℕ
int_add a b = (a + b) % 2 ^ 32

abbrev pub int_sub : ℕ → ℕ → ℕ
int_sub a b = (a + 2 ^ 32 - b) % 2 ^ 32

-- The pattern with its sign bit flipped: signed order is the order of these.
abbrev pub bias : ℕ → ℕ
bias a = (a + 2 ^ 31) % 2 ^ 32

abbrev pub int_ltb : ℕ → ℕ → Bool
int_ltb a b = ltb (bias a) (bias b)

abbrev pub int_leb : ℕ → ℕ → Bool
int_leb a b = leb (bias a) (bias b)

-- An `int` carried over to 64 bits, as pointer arithmetic and `size_t` arguments do.
abbrev pub extend : ℕ → ℕ
extend a = if ltb a (2 ^ 31) then a else a + (2 ^ 64 - 2 ^ 32)

abbrev pub ptr_add : ℕ → ℕ → ℕ
ptr_add p a = (p + extend a) % 2 ^ 64

pub ptr_add_nonneg : (p a : ℕ) → a < 2 ^ 31 → p + a < 2 ^ 64 → ptr_add p a ≡ p + a
ptr_add_nonneg p a h k = ground arith

pub int_leb_nonneg : (a b : ℕ) → a < 2 ^ 31 → b < 2 ^ 31 → int_leb a b ≡ leb a b
int_leb_nonneg a b h k = ground arith

pub int_ltb_nonneg : (a b : ℕ) → a < 2 ^ 31 → b < 2 ^ 31 → int_ltb a b ≡ ltb a b
int_ltb_nonneg a b h k = ground arith

unfoldable pub encode_int : ℕ → List ℕ
encode_int n = n % 256 ∷ n / 256 % 256 ∷ n / 65536 % 256 ∷ n / 16777216 % 256 ∷ []

-- A read past the end of the buffer is `none`.
unfoldable pub decode_int : List ℕ → Option ℕ
decode_int (a ∷ b ∷ c ∷ d ∷ rest) = some (a + 256 * b + 65536 * c + 16777216 * d)
decode_int _ = none

pub decode-encode_int :
    (n : ℕ) (rest : List ℕ) → n < 2 ^ 32 → decode_int (encode_int n ++ rest) ≡ some n
unfolding decode_int encode_int
decode-encode_int n rest h = ground arith
