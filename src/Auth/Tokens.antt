-- ===== src/Auth/Tokens.antt =====
-- crates/auth/src/lib.rs: the comparison of tokens.
use multinode_controller.Base.{
  ℕ, zero, suc, ◌+◌, ◌≤◌, ◌<◌, max, ◌≡◌, refl, subst, Bool, [], ◌∷◌, Text, text_dec, eq_text,
  length, bit_or, bit_xor, bit_or-zero, bit_xor-zero, ◌==◌, ℕ_discrete, arith,
}

-- `bytes.get(index).copied().unwrap_or_default()`.
unfoldable pub byte : ℕ → Text → ℕ
byte i [] = 0
byte zero (x ∷ t) = x
byte (suc i) (x ∷ t) = byte i t

-- The loop over the indices, of which `n` are left, from `i` on.
unfoldable pub compare_bytes : ℕ → ℕ → Text → Text → ℕ → ℕ
compare_bytes zero i provided expected diff = diff
compare_bytes (suc n) i provided expected diff =
    compare_bytes n (suc i) provided expected
      (bit_or diff (bit_xor (byte i provided) (byte i expected)))

unfoldable pub token_matches : Text → Text → Bool
token_matches provided expected =
    compare_bytes (max (length provided) (length expected)) 0 provided expected
      (bit_xor (length provided) (length expected))
    == 0

same-compare_bytes : (n i : ℕ) (t : Text) → compare_bytes n i t t 0 ≡ 0
unfolding compare_bytes
same-compare_bytes zero i t = refl
same-compare_bytes (suc n) i t =
    rw ((bit_xor-zero (byte i t) (byte i t)).1 refl, (bit_or-zero 0 0).1 (refl, refl))
      (same-compare_bytes n (suc i) t)

compare_bytes-difference : (n i d : ℕ) (p e : Text) → compare_bytes n i p e d ≡ 0 → d ≡ 0
unfolding compare_bytes
compare_bytes-difference zero i d p e h = h
compare_bytes-difference (suc n) i d p e h =
    ((bit_or-zero d (bit_xor (byte i p) (byte i e))).0
      (compare_bytes-difference n (suc i) _ p e h)).0

compare_bytes-byte :
    (n i d : ℕ) (p e : Text) (j : ℕ)
    → compare_bytes n i p e d ≡ 0
    → i ≤ j
    → j < i + n
    → byte j p ≡ byte j e
unfolding compare_bytes
compare_bytes-byte zero i d p e j h a b = absurd (omega arith)
compare_bytes-byte (suc n) i d p e j h a b = elim (ℕ_discrete i j) [
  | yes same ↦
      subst (λ k. byte k p ≡ byte k e) same
        ((bit_xor-zero (byte i p) (byte i e)).0
          ((bit_or-zero d (bit_xor (byte i p) (byte i e))).0
            (compare_bytes-difference n (suc i) _ p e h)).1)
  | no other ↦ compare_bytes-byte n (suc i) _ p e j h (omega arith) (omega arith)
]

same_bytes :
    (p e : Text) → length p ≡ length e → ((j : ℕ) → j < length p → byte j p ≡ byte j e) → p ≡ e
unfolding byte
same_bytes [] [] h f = refl
same_bytes [] (y ∷ e) h f = absurd (omega arith)
same_bytes (x ∷ p) [] h f = absurd (omega arith)
same_bytes (x ∷ p) (y ∷ e) h f =
    rw (f 0 (omega arith), same_bytes p e (omega arith) (λ j below. f (suc j) (omega arith))) refl

abbrev difference : Text → Text → ℕ
difference p e = compare_bytes (max (length p) (length e)) 0 p e (bit_xor (length p) (length e))

difference-same : (p e : Text) → p ≡ e → difference p e ≡ 0
difference-same p e same =
    rw (same, (bit_xor-zero (length e) (length e)).1 refl)
      (same-compare_bytes (max (length e) (length e)) 0 e)

difference_zero : (p e : Text) → difference p e ≡ 0 → p ≡ e
difference_zero p e h =
    let n = max (length p) (length e) in
    let d = bit_xor (length p) (length e) in
    let lengths = (bit_xor-zero (length p) (length e)).0 (compare_bytes-difference n 0 d p e h) in
    same_bytes p e lengths (λ j below. compare_bytes-byte n 0 d p e j h (omega arith) (omega arith))

-- A token is taken exactly if it is, byte for byte, the one expected.
pub token_matches_lem :
    (provided expected : Text) → token_matches provided expected ≡ eq_text provided expected
unfolding token_matches
token_matches_lem p e = elim (text_dec p e) [
  | yes same ↦ ground (arith, difference-same p e same)
  | no other ↦ ground (arith, difference_zero p e)
]
