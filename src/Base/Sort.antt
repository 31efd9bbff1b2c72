-- ===== src/Base/Sort.antt =====
-- SQL's `ORDER BY` as a stable insertion sort, and `LIMIT`.
use Prim.Native.Nat.{ℕ, suc, ◌-◌, ◌<◌, ◌^◌}
use mathlib.Core.Path.{◌≡◌, refl, ap, ◌∙◌}
use mathlib.Core.Bool.{Bool, true, false, ◌&&◌, ◌||◌}
use mathlib.Core.List.{List, [], ◌∷◌, ◌++◌, reverse, reverse-cons, Perm}
use mathlib.Core.List.Perm
use mathlib.Core.Logic.{inl, inr}
use native.Mathlib.Omega.{arith}
use multinode_controller.Base.Tests.{if◌then◌else◌, ltb, Bool-cases}
use multinode_controller.Base.Ints.{ℤ, pos, negsuc}
use multinode_controller.Base.Lists.{length, any, all, All, All-reverse, Pairs, take}

module _ {ℓ} {A : Type ℓ} where
  unfoldable pub insert_by : (A → A → Bool) → A → List A → List A
  insert_by le x [] = x ∷ []
  insert_by le x (y ∷ ys) = if le x y then x ∷ y ∷ ys else y ∷ insert_by le x ys

  unfoldable pub sort_by : (A → A → Bool) → List A → List A
  unfolding insert_by
  sort_by le [] = []
  sort_by le (x ∷ xs) = insert_by le x (sort_by le xs)

  insert_by-perm : (le : A → A → Bool) (x : A) (ys : List A) → Perm (insert_by le x ys) (x ∷ ys)
  unfolding insert_by
  insert_by-perm le x [] = Perm.refl _
  insert_by-perm le x (y ∷ ys) = elim (Bool-cases (le x y)) [
    | inl e ↦ rw e (Perm.refl _)
    | inr e ↦ rw e (Perm.trans (Perm.cons y (insert_by-perm le x ys)) (Perm.swap x y ys))
  ]

  sort_by-perm : (le : A → A → Bool) (xs : List A) → Perm (sort_by le xs) xs
  unfolding sort_by
  sort_by-perm le [] = Perm.refl _
  sort_by-perm le (x ∷ xs) =
      Perm.trans (insert_by-perm le x (sort_by le xs)) (Perm.cons x (sort_by-perm le xs))

  -- In order: every element is at most each later one.
  abbrev pub Sorted : (A → A → Bool) → List A → Type 0
  Sorted le = Pairs (λ a b. le a b ≡ true)

  -- A list in order stays as it is.
  sort_by-Sorted : (le : A → A → Bool) (xs : List A) → Sorted le xs → sort_by le xs ≡ xs
  unfolding sort_by insert_by
  sort_by-Sorted le [] s = refl
  sort_by-Sorted le (x ∷ []) s = refl
  sort_by-Sorted le (x ∷ y ∷ ys) s = rw (sort_by-Sorted le (y ∷ ys) s.1, s.0.0)

  insert_by-last :
      (le : A → A → Bool) (x : A) (ys : List A)
      → All (λ y. le x y ≡ false) ys
      → insert_by le x ys ≡ ys ++ x ∷ []
  unfolding insert_by
  insert_by-last le x [] h = refl
  insert_by-last le x (y ∷ ys) h = rw (h.0, insert_by-last le x ys h.1)

  -- No element is at most a later one.
  abbrev pub Falling : (A → A → Bool) → List A → Type 0
  Falling le = Pairs (λ a b. le a b ≡ false)

  -- Such a list is sorted by turning it round.
  pub sort_by-Falling :
      (le : A → A → Bool) (xs : List A) → Falling le xs → sort_by le xs ≡ reverse xs
  unfolding sort_by
  sort_by-Falling le [] s = refl
  sort_by-Falling le (x ∷ xs) s =
      rw (sort_by-Falling le xs s.1, reverse-cons x xs)
        (insert_by-last le x (reverse xs) (All-reverse (λ y. le x y ≡ false) xs s.0))

  -- `LIMIT n` with a 64-bit signed bound: a negative one is no limit.
  unfoldable pub sql_limit : ℤ → List A → List A
  sql_limit (pos n) xs = take n xs
  sql_limit (negsuc n) xs = xs

module _ {ℓ} {A : Type ℓ} (le : A → A → Bool) where
  any-insert_by :
      (p : A → Bool) (x : A) (ys : List A) → any p (insert_by le x ys) ≡ (p x || any p ys)
  unfolding any insert_by
  any-insert_by p x [] = refl
  any-insert_by p x (y ∷ ys) = ground (arith, any-insert_by p x ys)

  pub any-sort_by : (p : A → Bool) (xs : List A) → any p (sort_by le xs) ≡ any p xs
  unfolding any sort_by
  any-sort_by p [] = refl
  any-sort_by p (x ∷ xs) = any-insert_by p x (sort_by le xs) ∙ ap (λ b. p x || b) (any-sort_by p xs)

  all-insert_by :
      (p : A → Bool) (x : A) (ys : List A) → all p (insert_by le x ys) ≡ (p x && all p ys)
  unfolding all insert_by
  all-insert_by p x [] = refl
  all-insert_by p x (y ∷ ys) = ground (arith, all-insert_by p x ys)

  pub all-sort_by : (p : A → Bool) (xs : List A) → all p (sort_by le xs) ≡ all p xs
  unfolding all sort_by
  all-sort_by p [] = refl
  all-sort_by p (x ∷ xs) = all-insert_by p x (sort_by le xs) ∙ ap (λ b. p x && b) (all-sort_by p xs)

  All-insert_by {κ} :
      (P : A → Type κ) (x : A) (ys : List A) → P x → All P ys → All P (insert_by le x ys)
  unfolding insert_by
  All-insert_by P x [] h hs = (h, tt)
  All-insert_by P x (y ∷ ys) h hs = ground (arith, All-insert_by P x ys h hs.1)

  pub All-sort_by {κ} : (P : A → Type κ) (xs : List A) → All P xs → All P (sort_by le xs)
  unfolding sort_by
  All-sort_by P [] h = tt
  All-sort_by P (x ∷ xs) h = All-insert_by P x (sort_by le xs) h.0 (All-sort_by P xs h.1)

  length-insert_by : (x : A) (ys : List A) → length (insert_by le x ys) ≡ length (x ∷ ys)
  unfolding insert_by
  length-insert_by x [] = refl
  length-insert_by x (y ∷ ys) = ground (arith, length-insert_by x ys)

  pub length-sort_by : (xs : List A) → length (sort_by le xs) ≡ length xs
  unfolding sort_by
  length-sort_by [] = refl
  length-sort_by (x ∷ xs) = length-insert_by x (sort_by le xs) ∙ ap (λ n. suc n) (length-sort_by xs)

-- `x as i64` of a u64, and `y as u64` of an i64.
unfoldable pub to_i64 : ℕ → ℤ
to_i64 x = if ltb x (2 ^ 63) then pos x else negsuc (2 ^ 64 - 1 - x)

unfoldable pub to_u64 : ℤ → ℕ
to_u64 (pos n) = n
to_u64 (negsuc n) = 2 ^ 64 - 1 - n

-- A u64 comes back from the column unchanged.
pub to_u64-to_i64 : (x : ℕ) → x < 2 ^ 64 → to_u64 (to_i64 x) ≡ x
unfolding to_u64 to_i64
to_u64-to_i64 x h = ground arith
