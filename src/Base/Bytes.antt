-- ===== src/Base/Bytes.antt =====
-- Text as its list of bytes. A literal is `bytes "…"`, which stays shut: two literals are told
-- apart by a lemma.
use Prim.Native.Char.{code}
use Prim.Native.String.{String}
use Prim.Native.Nat.{ℕ, zero, suc, ◌+◌, ◌/◌, ◌%◌, ◌<◌, compare, Ordering}
use mathlib.Core.Path.{◌≡◌}
use native.Mathlib.Omega.{arith}
use mathlib.Core.Bool.{Bool, true, false, ◌&&◌, ◌||◌}
use mathlib.Core.List.{List, [], ◌∷◌, ◌++◌, map}
use native.Mathlib.Decide.{ℕ_discrete, dec_lt}
use multinode_controller.Base.Tests.{is_yes, ◌==◌, leb, ltb, if◌then◌else◌}

abbrev pub Text : Type 0
Text = List ℕ

-- The literals are ASCII, so a code point is a byte.
unfoldable pub bytes : String → Text
bytes String.[] = []
bytes (String.◌∷◌ c s) = code c ∷ bytes s

unfoldable pub text_dec : Discrete Text
unfolding ℕ_discrete
text_dec = hlevel ℕ_discrete

abbrev pub eq_text : Text → Text → Bool
eq_text a b = is_yes (text_dec a b)

-- The byte-wise order of texts, `a <= b`.
unfoldable pub leb_text : Text → Text → Bool
leb_text [] b = true
leb_text (x ∷ a) [] = false
leb_text (x ∷ a) (y ∷ b) = elim (compare x y) [
  | Ordering.lt ↦ true
  | Ordering.eq ↦ leb_text a b
  | Ordering.gt ↦ false
]

-- The first byte, by which literals are told apart.
abbrev pub first_byte : Text → ℕ
first_byte [] = 0
first_byte (x ∷ a) = x

unfoldable pub starts_with : Text → Text → Bool
starts_with t [] = true
starts_with [] (y ∷ p) = false
starts_with (x ∷ t) (y ∷ p) = (x == y) && starts_with t p

unfoldable pub to_ascii_lowercase : Text → Text
to_ascii_lowercase = map (λ c. if leb 65 c && leb c 90 then c + 32 else c)

-- `haystack.contains(needle)`.
unfoldable pub contains_text : Text → Text → Bool
contains_text [] needle = starts_with [] needle
contains_text (x ∷ t) needle = starts_with (x ∷ t) needle || contains_text t needle

unfoldable pub join : Text → List Text → Text
join separator [] = []
join separator (t ∷ []) = t
join separator (t ∷ u ∷ ts) = t ++ (separator ++ join separator (u ∷ ts))

-- The decimal digits of a number, written in front of a text; a number has fewer of them than its
-- successor, which is the count of rounds given.
unfoldable pub digits_onto : ℕ → ℕ → Text → Text
digits_onto zero n t = t
digits_onto (suc m) n t =
    let rest = digits_onto m (n / 10) ((48 + n % 10) ∷ t) in if ltb n 10 then (48 + n) ∷ t else rest

unfoldable pub show : ℕ → Text
show n = digits_onto (suc n) n []

-- More rounds than the number change nothing.
digits_onto-enough : (m n : ℕ) (t : Text) → n < m → digits_onto (suc m) n t ≡ digits_onto m n t
unfolding digits_onto
digits_onto-enough zero n t h = absurd (omega arith)
digits_onto-enough (suc m) n t h = elim (dec_lt n 10) [
  | yes small ↦ ground arith
  | no large ↦ ground (arith, digits_onto-enough m (n / 10) ((48 + n % 10) ∷ t) (omega arith))
]
