-- ===== src/Base/Maps.antt =====
-- Maps as association lists; the order of the list is the order of iteration.
use mathlib.Core.Path.{◌≡◌, refl}
use mathlib.Core.Logic.{ite}
use mathlib.Core.List.{List, [], ◌∷◌, map}
use mathlib.Core.Option.{Option, none, some}
use native.Mathlib.Omega.{arith}
use multinode_controller.Base.Lists.{All, Pairs}
use multinode_controller.Base.Bytes.{Text, text_dec}

abbrev pub Map {ℓ} : Type ℓ → Type ℓ
Map V = List (Text × V)

module _ {ℓ} {V : Type ℓ} where
  unfoldable pub get : Text → Map V → Option V
  get k [] = none
  get k ((j, v) ∷ m) = ite (text_dec j k) (some v) (get k m)

  -- A new key goes last; a present one keeps its place.
  unfoldable pub insert : Text → V → Map V → Map V
  insert k v [] = (k, v) ∷ []
  insert k v ((j, w) ∷ m) = ite (text_dec j k) ((k, v) ∷ m) ((j, w) ∷ insert k v m)

  unfoldable pub remove : Text → Map V → Map V
  remove k [] = []
  remove k ((j, w) ∷ m) = ite (text_dec j k) (remove k m) ((j, w) ∷ remove k m)

  -- `get_mut` followed by a change of the value found.
  unfoldable pub modify : Text → (V → V) → Map V → Map V
  modify k f [] = []
  modify k f ((j, w) ∷ m) = ite (text_dec j k) ((j, f w) ∷ m) ((j, w) ∷ modify k f m)

  abbrev pub keys : Map V → List Text
  keys = map (λ e. e.0)

  abbrev pub values : Map V → List V
  values = map (λ e. e.1)

  pub get-insert :
      (k j : Text) (v : V) (m : Map V)
      → get j (insert k v m) ≡ ite (text_dec k j) (some v) (get j m)
  unfolding get insert
  get-insert k j v [] = refl
  get-insert k j v ((i, w) ∷ m) = ground (arith, get-insert k j v m)

  pub get-remove : (k j : Text) (m : Map V) → get j (remove k m) ≡ ite (text_dec k j) none (get j m)
  unfolding get remove
  get-remove k j [] = ground arith
  get-remove k j ((i, w) ∷ m) = ground (arith, get-remove k j m)

  pub get-modify :
      (k j : Text) (f : V → V) (m : Map V)
      → get j (modify k f m)
        ≡ ite (text_dec k j) (elim (get j m) [ none ↦ none | some v ↦ some (f v) ]) (get j m)
  unfolding get modify
  get-modify k j f [] = ground arith
  get-modify k j f ((i, w) ∷ m) = ground (arith, get-modify k j f m)

module _ {ℓ κ} {V : Type ℓ} (P : Text × V → Type κ) where
  pub All-insert : (k : Text) (v : V) (m : Map V) → P (k, v) → All P m → All P (insert k v m)
  unfolding insert
  All-insert k v [] h hs = (h, tt)
  All-insert k v ((j, w) ∷ m) h hs = ground (arith, All-insert k v m h hs.1)

  pub All-remove : (k : Text) (m : Map V) → All P m → All P (remove k m)
  unfolding remove
  All-remove k [] hs = tt
  All-remove k ((j, w) ∷ m) hs = ground (arith, All-remove k m hs.1)

module _ {ℓ κ} {V : Type ℓ} (R : Text × V → Text × V → Type κ) where
  pub Pairs-insert :
      (k : Text) (v : V) (m : Map V)
      → All (λ e. R e (k, v)) m
      → All (R (k, v)) m
      → Pairs R m
      → Pairs R (insert k v m)
  unfolding insert
  Pairs-insert k v [] before after hs = (tt, tt)
  Pairs-insert k v ((j, w) ∷ m) before after hs =
      ground
        (arith, All-insert (R (j, w)) k v m before.0 hs.0, Pairs-insert k v m before.1 after.1 hs.1)

  pub Pairs-remove : (k : Text) (m : Map V) → Pairs R m → Pairs R (remove k m)
  unfolding remove
  Pairs-remove k [] hs = tt
  Pairs-remove k ((j, w) ∷ m) hs =
      ground (arith, All-remove (R (j, w)) k m hs.0, Pairs-remove k m hs.1)
