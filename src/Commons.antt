-- ===== src/Commons.antt =====
-- commons/collections/list.h and queue.h of the commons library, which the repository only calls:
-- an interface with the documented behaviour of the calls that the program makes.
pub mod Reference
pub mod Strings
use personal_copy_tp.Common.{
  ℕ, ◌≡◌, Bool, Option, none, some, List, [], ◌∷◌, ◌++◌, ltb, length, Permᴰ, ◌≤◌, All,
}

-- Keys that do not fall along the list.
abbrev pub Ordered {ℓ} : {A : Type ℓ} → (A → ℕ) → List A → Type 0
Ordered key [] = Unit
Ordered key (x ∷ xs) = All (λ y. key x ≤ key y) xs × Ordered key xs

pub record ListOps (A : Type 0) : Type 0 where
  pub list_add : List A → A → List A
  pub list_remove : List A → ℕ → List A
  pub list_sort : (A → A → Bool) → List A → List A
  pub list_add_lem : (xs : List A) (x : A) → list_add xs x ≡ xs ++ x ∷ []
  pub list_remove_lem : (xs ys : List A) (x : A) → list_remove (xs ++ x ∷ ys) (length xs) ≡ xs ++ ys
  pub list_sort_perm : (less : A → A → Bool) (xs : List A) → Permᴰ xs (list_sort less xs)
  pub list_sort_ordered :
      (less : A → A → Bool) (key : A → ℕ)
      → ((a b : A) → less a b ≡ ltb (key a) (key b))
      → (xs : List A) → Ordered key (list_sort less xs)
