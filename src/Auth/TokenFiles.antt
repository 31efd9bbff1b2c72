-- ===== src/Auth/TokenFiles.antt =====
-- crates/auth/src/lib.rs: what `from_files` reads.
use multinode_controller.Base.{
  ◌≡◌, ap, ◌∙◌, false, Option, none, some, Text, is_empty, arith, Bool-cases, Option-cases, inl,
  inr,
}
use multinode_controller.Auth.Requests.{
  AuthRole, AuthConfig, trim, read_token_file, read_optional_token, or_else, from_files,
  token_for_role,
}

read_token_file-filled :
    (read : Text → Option Text) (path t : Text)
    → read_token_file read path ≡ some t
    → is_empty t ≡ false
unfolding read_token_file
read_token_file-filled read path t h = elim (Option-cases (read path)) [
  | inl e ↦ absurd (ground (arith, e))
  | inr (content, e) ↦ elim (Bool-cases (is_empty (trim content))) [
    | inl blank ↦ absurd (ground (arith, e))
    | inr filled ↦ ground (arith, e)
  ]
]

read_optional_token-filled :
    (read : Text → Option Text) (path : Option Text) (t : Text)
    → read_optional_token read path ≡ some (some t)
    → is_empty t ≡ false
unfolding read_optional_token
read_optional_token-filled read none t h = absurd (ground arith)
read_optional_token-filled read (some path) t h = elim (Option-cases (read_token_file read path)) [
  | inl e ↦ absurd (ground (arith, e))
  | inr (token, e) ↦ read_token_file-filled read path t (ground (arith, e))
]

or_else-filled :
    (a b : Option Text) (t : Text)
    → ((t : Text) → a ≡ some t → is_empty t ≡ false)
    → ((t : Text) → b ≡ some t → is_empty t ≡ false)
    → or_else a b ≡ some t
    → is_empty t ≡ false
unfolding or_else
or_else-filled none b t ha hb h = hb t h
or_else-filled (some a) b t ha hb h = ha t h

-- Whatever the files hold, a configuration read from them has no empty token.
from_files-filled :
    (read : Text → Option Text) (shared worker client : Option Text) (auth : AuthConfig)
    (role : AuthRole) (t : Text)
    → from_files read shared worker client ≡ some auth
    → token_for_role auth role ≡ some t
    → is_empty t ≡ false
unfolding from_files token_for_role
from_files-filled read shared worker client auth role t made has =
    elim (Option-cases (read_optional_token read shared)) [
      | inl e ↦ absurd (ground (arith, e))
      | inr (s, es) ↦ elim (Option-cases (read_optional_token read worker)) [
        | inl e ↦ absurd (ground (arith, e))
        | inr (w, ew) ↦ elim (Option-cases (read_optional_token read client)) [
          | inl e ↦ absurd (ground (arith, e))
          | inr (c, ec) ↦ by_role role s w c es ew ec made has
        ]
      ]
    ]
  where
    by_role :
        (role : AuthRole) (s w c : Option Text)
        → read_optional_token read shared ≡ some s
        → read_optional_token read worker ≡ some w
        → read_optional_token read client ≡ some c
        → from_files read shared worker client ≡ some auth
        → token_for_role auth role ≡ some t
        → is_empty t ≡ false
    by_role AuthRole.worker s w c es ew ec made has =
        or_else-filled w s t (λ u e. read_optional_token-filled read worker u (ew ∙ ap some e))
          (λ u e. read_optional_token-filled read shared u (es ∙ ap some e))
          (ground (arith, es, ew, ec))
    by_role AuthRole.client s w c es ew ec made has =
        or_else-filled c s t (λ u e. read_optional_token-filled read client u (ec ∙ ap some e))
          (λ u e. read_optional_token-filled read shared u (es ∙ ap some e))
          (ground (arith, es, ew, ec))
