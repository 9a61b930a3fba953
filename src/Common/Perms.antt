-- ===== src/Common/Perms.antt =====
-- Permutations as the library's derivations `Permᴰ`, and what they preserve.
use mathlib.Core.Path.{subst}
use mathlib.Core.List.{List}
use personal_copy_tp.Common.Lists.{All}
pub use mathlib.Core.List.{Permᴰ}

pub All-perm {ℓ κ} :
    {A : Type ℓ} (P : A → Type κ) {xs ys : List A} → Permᴰ xs ys → All P xs → All P ys
All-perm P Permᴰ.nil h = tt
All-perm P (Permᴰ.cons e d) h = (subst P e h.0, All-perm P d h.1)
All-perm P (Permᴰ.swap e f) h = (subst P f h.1.0, (subst P e h.0, h.1.1))
All-perm P (Permᴰ.trans d e) h = All-perm P e (All-perm P d h)
