-- ===== src/Base/Lists.antt =====
-- Lists measured by native numbers, tests over lists, and predicates by recursion.
use Prim.Native.Nat.{ℕ, zero, suc}
use mathlib.Core.Path.{◌≡◌, refl, ap, sym}
use mathlib.Core.Bool.{Bool, true, false, ◌&&◌, ◌||◌}
use mathlib.Core.List.{List, [], ◌∷◌, ◌++◌, map, map-append, append-nil, reverse, reverse-cons}
use mathlib.Core.Option.{Option, none, some}
use native.Mathlib.Omega.{arith}
use multinode_controller.Base.Tests.{if◌then◌else◌}

module _ {ℓ} {A : Type ℓ} where
  abbrev pub length : List A → ℕ
  length [] = 0
  length (x ∷ xs) = suc (length xs)

  unfoldable pub take : ℕ → List A → List A
  take zero xs = []
  take (suc n) [] = []
  take (suc n) (x ∷ xs) = x ∷ take n xs

  unfoldable pub drop : ℕ → List A → List A
  drop zero xs = xs
  drop (suc n) [] = []
  drop (suc n) (x ∷ xs) = drop n xs

  -- `Iterator::any` and `Iterator::all`.
  unfoldable pub any : (A → Bool) → List A → Bool
  any p [] = false
  any p (x ∷ xs) = p x || any p xs

  unfoldable pub all : (A → Bool) → List A → Bool
  all p [] = true
  all p (x ∷ xs) = p x && all p xs

  -- `Iterator::filter` and SQL's `WHERE`, by a Boolean test.
  unfoldable pub select : (A → Bool) → List A → List A
  select p [] = []
  select p (x ∷ xs) = if p x then x ∷ select p xs else select p xs

  unfoldable pub is_empty : List A → Bool
  is_empty [] = true
  is_empty (x ∷ xs) = false

  unfoldable pub first : List A → Option A
  first [] = none
  first (x ∷ xs) = some x

  abbrev pub All {κ} : (A → Type κ) → List A → Type κ
  All P [] = Unit
  All P (x ∷ xs) = P x × All P xs

module _ {ℓ} {A : Type ℓ} where
  pub All-map {κ κ'} :
      (P : A → Type κ) (Q : A → Type κ') (f : (a : A) → P a → Q a) (xs : List A)
      → All P xs
      → All Q xs
  All-map P Q f [] h = tt
  All-map P Q f (x ∷ xs) h = (f x h.0, All-map P Q f xs h.1)

  pub All-append {κ} : (P : A → Type κ) (ls bs : List A) → All P ls → All P bs → All P (ls ++ bs)
  All-append P [] bs front back = back
  All-append P (a ∷ ls) bs front back = (front.0, All-append P ls bs front.1 back)

  All-select {κ} : (P : A → Type κ) (p : A → Bool) (xs : List A) → All P xs → All P (select p xs)
  unfolding select
  All-select P p [] h = tt
  All-select P p (x ∷ xs) h = ground (arith, All-select P p xs h.1)

  pub select-append :
      (p : A → Bool) (xs ys : List A) → select p (xs ++ ys) ≡ select p xs ++ select p ys
  unfolding select
  select-append p [] ys = refl
  select-append p (x ∷ xs) ys = ground (arith, select-append p xs ys)

  pub select-reverse : (p : A → Bool) (xs : List A) → select p (reverse xs) ≡ reverse (select p xs)
  unfolding select
  select-reverse p [] = refl
  select-reverse p (x ∷ xs) =
      rw (reverse-cons x xs, select-append p (reverse xs) (x ∷ []), select-reverse p xs)
        (reverse_if (p x))
    where
      reverse_if :
          (b : Bool)
          → reverse (select p xs) ++ (if b then x ∷ [] else [])
            ≡ reverse (if b then x ∷ select p xs else select p xs)
      reverse_if true = sym (reverse-cons x (select p xs))
      reverse_if false = append-nil (reverse (select p xs))

  pub All-reverse {κ} : (P : A → Type κ) (xs : List A) → All P xs → All P (reverse xs)
  All-reverse P [] h = tt
  All-reverse P (x ∷ xs) h =
      rw (reverse-cons x xs) (All-append P (reverse xs) (x ∷ []) (All-reverse P xs h.1) (h.0, tt))

  All-take {κ} : (P : A → Type κ) (n : ℕ) (xs : List A) → All P xs → All P (take n xs)
  unfolding take
  All-take P zero xs h = tt
  All-take P (suc n) [] h = tt
  All-take P (suc n) (x ∷ xs) h = (h.0, All-take P n xs h.1)

  -- The relation holds between each element and every later one.
  abbrev pub Pairs {κ} : (A → A → Type κ) → List A → Type κ
  Pairs R [] = Unit
  Pairs R (x ∷ xs) = All (R x) xs × Pairs R xs

  pub Pairs-map {κ κ'} :
      (R : A → A → Type κ) (S : A → A → Type κ') (f : (a b : A) → R a b → S a b) (xs : List A)
      → Pairs R xs
      → Pairs S xs
  Pairs-map R S f [] h = tt
  Pairs-map R S f (x ∷ xs) h = (All-map (R x) (S x) (f x) xs h.0, Pairs-map R S f xs h.1)

  pub Pairs-append {κ} :
      (R : A → A → Type κ) (xs : List A) (y : A)
      → All (λ x. R x y) xs
      → Pairs R xs
      → Pairs R (xs ++ y ∷ [])
  Pairs-append R [] y h s = (tt, tt)
  Pairs-append R (x ∷ xs) y h s =
      (All-append (R x) xs (y ∷ []) s.0 (h.0, tt), Pairs-append R xs y h.1 s.1)

  pub Pairs-select {κ} :
      (R : A → A → Type κ) (p : A → Bool) (xs : List A) → Pairs R xs → Pairs R (select p xs)
  unfolding select
  Pairs-select R p [] s = tt
  Pairs-select R p (x ∷ xs) s = ground (arith, All-select (R x) p xs s.0, Pairs-select R p xs s.1)

  pub Pairs-take {κ} : (R : A → A → Type κ) (n : ℕ) (xs : List A) → Pairs R xs → Pairs R (take n xs)
  unfolding take
  Pairs-take R zero xs s = tt
  Pairs-take R (suc n) [] s = tt
  Pairs-take R (suc n) (x ∷ xs) s = (All-take (R x) n xs s.0, Pairs-take R n xs s.1)

  pub Pairs-reverse {κ} :
      (R : A → A → Type κ) (xs : List A) → Pairs R xs → Pairs (λ a b. R b a) (reverse xs)
  Pairs-reverse R [] s = tt
  Pairs-reverse R (x ∷ xs) s = rw (reverse-cons x xs) (
      Pairs-append (λ a b. R b a) (reverse xs) x (All-reverse (R x) xs s.0)
        (Pairs-reverse R xs s.1))

  -- The last `n` elements, in their order.
  unfoldable pub newest : ℕ → List A → List A
  newest n xs = reverse (take n (reverse xs))

module _ {ℓ κ} {A : Type ℓ} {B : Type κ} (f : A → B) where
  map-take : (n : ℕ) (xs : List A) → map f (take n xs) ≡ take n (map f xs)
  unfolding take
  map-take zero xs = refl
  map-take (suc n) [] = refl
  map-take (suc n) (x ∷ xs) = ap (◌∷◌ (f x)) (map-take n xs)

  map-reverse : (xs : List A) → map f (reverse xs) ≡ reverse (map f xs)
  map-reverse [] = refl
  map-reverse (x ∷ xs) = rw (
    reverse-cons x xs,
    reverse-cons (f x) (map f xs),
    map-append f (reverse xs) (x ∷ []),
    map-reverse xs,
  )

  pub map-newest : (n : ℕ) (xs : List A) → map f (newest n xs) ≡ newest n (map f xs)
  unfolding newest
  map-newest n xs = rw (map-reverse (take n (reverse xs)), map-take n (reverse xs), map-reverse xs)

pub any-map {ℓ κ} :
    {A : Type ℓ} {B : Type κ} (f : A → B) (p : B → Bool) (xs : List A)
    → any p (map f xs) ≡ any (λ x. p (f x)) xs
unfolding any
any-map f p [] = refl
any-map f p (x ∷ xs) = ap (λ b. p (f x) || b) (any-map f p xs)

pub all-map {ℓ κ} :
    {A : Type ℓ} {B : Type κ} (f : A → B) (p : B → Bool) (xs : List A)
    → all p (map f xs) ≡ all (λ x. p (f x)) xs
unfolding all
all-map f p [] = refl
all-map f p (x ∷ xs) = ap (λ b. p (f x) && b) (all-map f p xs)

pub select-All {ℓ} : {A : Type ℓ} (p : A → Bool) (xs : List A) → All (λ x. p x ≡ true) (select p xs)
unfolding select
select-All p [] = tt
select-All p (x ∷ xs) = ground (arith, select-All p xs)

pub length-map {ℓ κ} :
    {A : Type ℓ} {B : Type κ} (f : A → B) (xs : List A) → length (map f xs) ≡ length xs
length-map f [] = refl
length-map f (x ∷ xs) = ap suc (length-map f xs)
