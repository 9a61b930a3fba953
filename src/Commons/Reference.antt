-- ===== src/Commons/Reference.antt =====
-- An implementation of the interface, which shows that its laws can be met and runs in the tests.
use personal_copy_tp.Common.{
  ℕ, zero, suc, ◌≡◌, refl, ap, Bool, List, [], ◌∷◌, ◌++◌, ltb, length, Permᴰ, ◌≤◌, All-mono,
  All-perm, arith, Bool-cases, inl, inr, if◌then◌else◌,
}
use mathlib.Core.List.Permᴰ
use personal_copy_tp.Commons.{ListOps, Ordered}

module _ {A : Type 0} where
  unfoldable pub add_last : List A → A → List A
  add_last xs x = xs ++ x ∷ []

  unfoldable pub remove_at : List A → ℕ → List A
  remove_at [] i = []
  remove_at (x ∷ xs) zero = xs
  remove_at (x ∷ xs) (suc i) = x ∷ remove_at xs i

  unfoldable pub insert_by : (A → A → Bool) → A → List A → List A
  insert_by less x [] = x ∷ []
  insert_by less x (y ∷ ys) = if less y x then y ∷ insert_by less x ys else x ∷ y ∷ ys

  unfoldable pub sort_by : (A → A → Bool) → List A → List A
  unfolding insert_by
  sort_by less [] = []
  sort_by less (x ∷ xs) = insert_by less x (sort_by less xs)

  pub add_last_lem : (xs : List A) (x : A) → add_last xs x ≡ xs ++ x ∷ []
  unfolding add_last
  add_last_lem xs x = refl

  pub remove_at_lem : (xs ys : List A) (x : A) → remove_at (xs ++ x ∷ ys) (length xs) ≡ xs ++ ys
  unfolding remove_at
  remove_at_lem [] ys x = refl
  remove_at_lem (z ∷ xs) ys x = ap (◌∷◌ z) (remove_at_lem xs ys x)

  insert_by-perm :
      (less : A → A → Bool) (x : A) (xs : List A) → Permᴰ (x ∷ xs) (insert_by less x xs)
  unfolding insert_by
  insert_by-perm less x [] = Permᴰ.refl (x ∷ [])
  insert_by-perm less x (y ∷ ys) = elim (Bool-cases (less y x)) [
    | inl e ↦ rw e (Permᴰ.trans (Permᴰ.swap refl refl) (Permᴰ.cons refl (insert_by-perm less x ys)))
    | inr e ↦ rw e (Permᴰ.refl (x ∷ y ∷ ys))
  ]

  pub sort_by-perm : (less : A → A → Bool) (xs : List A) → Permᴰ xs (sort_by less xs)
  unfolding sort_by
  sort_by-perm less [] = Permᴰ.nil
  sort_by-perm less (x ∷ xs) =
      Permᴰ.trans (Permᴰ.cons refl (sort_by-perm less xs)) (insert_by-perm less x (sort_by less xs))

  module _ (less : A → A → Bool) (key : A → ℕ)
      (h : (a b : A) → less a b ≡ ltb (key a) (key b)) where
    insert_by-Ordered : (x : A) (xs : List A) → Ordered key xs → Ordered key (insert_by less x xs)
    unfolding insert_by
    insert_by-Ordered x [] o = (tt, tt)
    insert_by-Ordered x (y ∷ ys) o = elim (Bool-cases (less y x)) [
      | inl e ↦
          let below : key y ≤ key x = ground (arith, h y x) in
          rw e (
            All-perm (λ z. key y ≤ key z) (insert_by-perm less x ys) (below, o.0),
            insert_by-Ordered x ys o.1,
          )
      | inr e ↦
          let below : key x ≤ key y = ground (arith, h y x) in
          rw e ((below, All-mono ys (λ z k. omega arith) o.0), o)
    ]

    pub sort_by-Ordered : (xs : List A) → Ordered key (sort_by less xs)
    unfolding sort_by
    sort_by-Ordered [] = tt
    sort_by-Ordered (x ∷ xs) = insert_by-Ordered x (sort_by less xs) (sort_by-Ordered xs)

  abbrev pub list_ops : ListOps A
  list_ops = record {
    list_add = add_last;
    list_remove = remove_at;
    list_sort = sort_by;
    list_add_lem = add_last_lem;
    list_remove_lem = remove_at_lem;
    list_sort_perm = sort_by-perm;
    list_sort_ordered = λ less key h. sort_by-Ordered less key h;
  }
