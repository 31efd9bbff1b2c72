-- ===== src/Policy/Paths.antt =====
-- crates/policy/src/lib.rs: `std::path::Path::file_name` on Unix, which `command_matches` uses.
use multinode_controller.Base.{
  ℕ, ◌≡◌, ◌≢◌, refl, ap, ◌∙◌, Bool, false, not, ◌||◌, if◌then◌else◌, List, [], ◌∷◌, ◌++◌, Option,
  none, some, Text, eq_text, ◌==◌, select, select-append, is_empty, any, arith,
}

-- The character that separates the parts of a path.
abbrev pub slash : ℕ
slash = 47

abbrev pub dot : Text
dot = 46 ∷ []

abbrev pub dots : Text
dots = 46 ∷ 46 ∷ []

unfoldable pub onto_first : ℕ → List Text → List Text
onto_first x [] = (x ∷ []) ∷ []
onto_first x (p ∷ ps) = (x ∷ p) ∷ ps

unfoldable pub split_path : Text → List Text
split_path [] = [] ∷ []
split_path (x ∷ t) = let rest = split_path t in if x == slash then [] ∷ rest else onto_first x rest

unfoldable pub last {ℓ} : {A : Type ℓ} → List A → Option A
last [] = none
last (x ∷ xs) = elim (last xs) [ none ↦ some x | some y ↦ some y ]

-- The empty parts and the dots say nothing.
unfoldable pub is_component : Text → Bool
is_component p = not (is_empty p || eq_text p dot)

-- The name in a last part, which is not a step up.
abbrev named : Option Text → Option Text
named none = none
named (some p) = if eq_text p dots then none else some p

unfoldable pub file_name : Text → Option Text
file_name path = named (last (select is_component (split_path path)))

unfoldable pub has_slash : Text → Bool
has_slash t = any (λ x. x == slash) t

-- A name that a path can end in.
pub record IsName (name : Text) : Type 0 where
  pub whole : has_slash name ≡ false
  pub filled : is_empty name ≡ false
  pub here : eq_text name dot ≡ false
  pub up : eq_text name dots ≡ false

onto_first-append :
    (x : ℕ) (ps qs : List Text) → ps ≢ [] → onto_first x (ps ++ qs) ≡ onto_first x ps ++ qs
unfolding onto_first
onto_first-append x [] qs h = absurd (h refl)
onto_first-append x (p ∷ ps) qs h = refl

onto_first-filled : (x : ℕ) (ps : List Text) → onto_first x ps ≢ []
unfolding onto_first
onto_first-filled x [] e = absurd (ground arith)
onto_first-filled x (p ∷ ps) e = absurd (ground arith)

split_path-filled : (t : Text) → split_path t ≢ []
unfolding split_path
split_path-filled [] e = absurd (ground arith)
split_path-filled (x ∷ t) e = ground (arith, onto_first-filled x (split_path t))

split_path-slash : (d n : Text) → split_path (d ++ slash ∷ n) ≡ split_path d ++ split_path n
unfolding split_path
split_path-slash [] n = refl
split_path-slash (x ∷ d) n = ground (
  arith,
  split_path-slash d n,
  onto_first-append x (split_path d) (split_path n) (split_path-filled d),
)

split_path-whole : (n : Text) → has_slash n ≡ false → split_path n ≡ n ∷ []
unfolding split_path has_slash any onto_first
split_path-whole [] h = refl
split_path-whole (x ∷ n) h = ground (arith, split_path-whole n)

last-append {ℓ} : {A : Type ℓ} (xs : List A) (y : A) → last (xs ++ y ∷ []) ≡ some y
unfolding last
last-append [] y = refl
last-append (x ∷ xs) y = rw (last-append xs y) refl

components-slash :
    (d n : Text)
    → IsName n
    → select is_component (split_path (d ++ slash ∷ n))
      ≡ select is_component (split_path d) ++ n ∷ []
unfolding select is_component
components-slash d n h =
    ap (select is_component)
      (split_path-slash d n ∙ ap (λ e. split_path d ++ e) (split_path-whole n h.whole))
    ∙ select-append is_component (split_path d) (n ∷ [])
    ∙ ap (λ e. select is_component (split_path d) ++ e) (ground (arith, h.filled, h.here))

-- A path's file name is what follows its last slash.
pub file_name-slash :
    (directory name : Text) → IsName name → file_name (directory ++ slash ∷ name) ≡ some name
unfolding file_name
file_name-slash d n h =
    ap named (ap last (components-slash d n h) ∙ last-append (select is_component (split_path d)) n)
    ∙ ground (arith, h.up)
