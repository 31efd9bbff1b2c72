-- ===== src/Base/Results.antt =====
-- Results, with an error's text as `{error:#}` writes it: each context before its cause.
use mathlib.Core.List.{◌++◌}
use multinode_controller.Base.Bytes.{Text, bytes}

pub data Result {ℓ} (A : Type ℓ) : Type ℓ where
  ok : A → Result A
  err : Text → Result A

-- The operator `?`.
unfoldable pub try {ℓ κ} : {A : Type ℓ} {B : Type κ} → Result A → (A → Result B) → Result B
try (ok a) f = f a
try (err e) f = err e

unfoldable pub with_context {ℓ} : {A : Type ℓ} → Text → Result A → Result A
with_context context (ok a) = ok a
with_context context (err e) = err (context ++ bytes ": " ++ e)
