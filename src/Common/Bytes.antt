-- ===== src/Common/Bytes.antt =====
-- The bytes of the process, by address. `read_bytes` and `write_bytes` are the two halves of `memcpy`.
use Prim.Native.Nat.{ℕ, zero, suc, ◌+◌, ◌≤◌, ◌<◌}
use mathlib.Core.Path.{◌≡◌, refl, ap, ap₂, ◌∙◌}
use mathlib.Core.Logic.{◌⊎◌}
use mathlib.Core.List.{List, [], ◌∷◌}
use native.Mathlib.Omega.{arith}
use personal_copy_tp.Common.Tests.{◌==◌, if◌then◌else◌}
use personal_copy_tp.Common.Lists.{length, take, drop}

abbrev pub Memory : Type 0
Memory = ℕ → ℕ

abbrev pub update : Memory → ℕ → ℕ → Memory
update m p v q = if p == q then v else m q

unfoldable pub read_bytes : Memory → ℕ → ℕ → List ℕ
read_bytes m p zero = []
read_bytes m p (suc n) = m p ∷ read_bytes m (p + 1) n

unfoldable pub write_bytes : Memory → ℕ → List ℕ → Memory
write_bytes m p [] = m
write_bytes m p (b ∷ bs) = write_bytes (update m p b) (p + 1) bs

-- Two ranges that share no byte.
abbrev pub Apart : ℕ → ℕ → ℕ → ℕ → Type 0
Apart p n q k = (p + n ≤ q) ⊎ (q + k ≤ p)

pub length-read_bytes : (m : Memory) (p n : ℕ) → length (read_bytes m p n) ≡ n
unfolding read_bytes
length-read_bytes m p zero = refl
length-read_bytes m p (suc n) = ap suc (length-read_bytes m (p + 1) n)

pub write_bytes_outside :
    (m : Memory) (p : ℕ) (bs : List ℕ) (q : ℕ)
    → (q < p) ⊎ (p + length bs ≤ q)
    → write_bytes m p bs q ≡ m q
unfolding write_bytes
write_bytes_outside m p [] q h = refl
write_bytes_outside m p (b ∷ bs) q h =
    write_bytes_outside (update m p b) (p + 1) bs q (omega arith) ∙ ground arith

pub read_bytes_cong :
    (m m' : Memory) (p n : ℕ)
    → ((q : ℕ) → p ≤ q → q < p + n → m q ≡ m' q)
    → read_bytes m p n ≡ read_bytes m' p n
unfolding read_bytes
read_bytes_cong m m' p zero h = refl
read_bytes_cong m m' p (suc n) h =
    ap₂ ◌∷◌ (h p (omega arith) (omega arith))
      (read_bytes_cong m m' (p + 1) n (λ q a b. h q (omega arith) (omega arith)))

-- What was written is read back.
pub read-write_bytes :
    (m : Memory) (p : ℕ) (bs : List ℕ) → read_bytes (write_bytes m p bs) p (length bs) ≡ bs
unfolding read_bytes write_bytes
read-write_bytes m p [] = refl
read-write_bytes m p (b ∷ bs) =
    ap₂ ◌∷◌ (write_bytes_outside (update m p b) (p + 1) bs p (omega arith) ∙ ground arith)
      (read-write_bytes (update m p b) (p + 1) bs)

-- A write leaves a range that it does not meet.
pub read-write_bytes-Apart :
    (m : Memory) (p : ℕ) (bs : List ℕ) (q n : ℕ)
    → Apart p (length bs) q n
    → read_bytes (write_bytes m p bs) q n ≡ read_bytes m q n
read-write_bytes-Apart m p bs q n h =
    read_bytes_cong (write_bytes m p bs) m q n (λ r a b. write_bytes_outside m p bs r (omega arith))

-- A part of what is read is what a read of the part gives.
pub take-drop-read_bytes :
    (m : Memory) (p n offset cantidad : ℕ)
    → offset + cantidad ≤ n
    → take cantidad (drop offset (read_bytes m p n)) ≡ read_bytes m (p + offset) cantidad
unfolding read_bytes
take-drop-read_bytes m p n zero zero h = refl
take-drop-read_bytes m p zero zero (suc c) h = absurd (omega arith)
take-drop-read_bytes m p (suc n) zero (suc c) h = ap₂ ◌∷◌ (ap m (omega arith)) (
    take-drop-read_bytes m (p + 1) n zero c (omega arith)
    ∙ ap (λ q. read_bytes m q c) (omega arith))
take-drop-read_bytes m p zero (suc o) c h = absurd (omega arith)
take-drop-read_bytes m p (suc n) (suc o) c h =
    take-drop-read_bytes m (p + 1) n o c (omega arith) ∙ ap (λ q. read_bytes m q c) (omega arith)
