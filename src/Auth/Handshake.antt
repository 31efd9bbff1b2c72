-- ===== src/Auth/Handshake.antt =====
-- crates/auth/src/lib.rs: what the client's request and the coordinator's check of it agree on.
use multinode_controller.Base.{
  to_ascii_lowercase, ◌≡◌, ◌≢◌, refl, ap, sym, ◌∙◌, true, false, [], ◌∷◌, if◌then◌else◌, ◌++◌,
  Option, none, some, Text, bytes, first_byte, text_dec, eq_text, All, is_empty, arith,
  Option-cases, inl, inr,
}
use multinode_controller.Auth.Tokens.{token_matches, token_matches_lem}
use multinode_controller.Auth.Requests.{
  AuthRole, AuthConfig, AuthFailure, Checked, ok, err, ok_or, ◌and_then◌, as_str, role_of,
  bearer_token, trim, split_once, eq_ignore_ascii_case, token_for_role, IsVisible, is_blank,
  starts_blank, ends_blank, skip, Http, role_header, authorization_header, websocket_request,
  parse_role, parse_bearer_token, authenticate_request,
}

headers_differ : eq_ignore_ascii_case authorization_header role_header ≡ false
unfolding eq_ignore_ascii_case to_ascii_lowercase text_dec bytes
headers_differ = refl

role_header-same : eq_ignore_ascii_case role_header role_header ≡ true
unfolding eq_ignore_ascii_case to_ascii_lowercase text_dec bytes
role_header-same = refl

authorization_header-same : eq_ignore_ascii_case authorization_header authorization_header ≡ true
unfolding eq_ignore_ascii_case to_ascii_lowercase text_dec bytes
authorization_header-same = refl

as_str-blanks :
    (role : AuthRole) → (starts_blank (as_str role) ≡ false) × (ends_blank (as_str role) ≡ false)
unfolding as_str bytes starts_blank ends_blank is_blank
as_str-blanks AuthRole.worker = (refl, refl)
as_str-blanks AuthRole.client = (refl, refl)

bearer-blanks :
    (token : Text)
    → is_empty (trim token) ≡ false
    → ends_blank token ≡ false
    → (starts_blank (bytes "Bearer " ++ token) ≡ false)
      × (ends_blank (bytes "Bearer " ++ token) ≡ false)
unfolding bytes starts_blank ends_blank is_blank trim skip is_empty
bearer-blanks [] filled ends = absurd (cc filled)
bearer-blanks (c ∷ token) filled ends = (refl, ends)

client-not-worker : bytes "client" ≢ bytes "worker"
unfolding bytes
client-not-worker e = omega (arith, ap first_byte e)

as_str-IsVisible : (role : AuthRole) → All IsVisible (as_str role)
unfolding as_str bytes
as_str-IsVisible AuthRole.worker = (refl, (refl, (refl, (refl, (refl, (refl, tt))))))
as_str-IsVisible AuthRole.client = (refl, (refl, (refl, (refl, (refl, (refl, tt))))))

role_of-as_str : (role : AuthRole) → role_of (as_str role) ≡ ok role
unfolding role_of as_str
role_of-as_str AuthRole.worker = ground arith
role_of-as_str AuthRole.client = ground (arith, client-not-worker)

bearer-IsVisible : (token : Text) → All IsVisible token → All IsVisible (bytes "Bearer " ++ token)
unfolding bytes
bearer-IsVisible token h = (refl, (refl, (refl, (refl, (refl, (refl, (refl, h)))))))

bearer_token-bearer :
    (token : Text)
    → is_empty (trim token) ≡ false
    → bearer_token (bytes "Bearer " ++ token) ≡ ok token
unfolding bearer_token split_once bytes eq_ignore_ascii_case to_ascii_lowercase text_dec
bearer_token-bearer token filled = rw filled refl

-- What the coordinator answers to a token, by the one that it has for the role.
unfoldable pub verdict : AuthRole → Text → Option Text → Checked AuthRole
verdict role token none = err AuthFailure.role_disabled
verdict role token (some expected) =
    if eq_text token expected then ok role else err AuthFailure.invalid_token

pub and_then-ok :
    {A B : Type 0} (m : Checked A) (f : A → Checked B) (b : B)
    → (m and_then f) ≡ ok b
    → (a : A) × (m ≡ ok a) × (f a ≡ ok b)
unfolding ◌and_then◌
and_then-ok (ok a) f b h = (a, refl, h)
and_then-ok (err e) f b h = absurd (ground arith)

ok_or-ok : {A : Type 0} (f : AuthFailure) (o : Option A) (a : A) → ok_or f o ≡ ok a → o ≡ some a
unfolding ok_or
ok_or-ok f none a h = absurd (ground arith)
ok_or-ok f (some b) a h = ground arith

matched :
    (token expected : Text) (who role : AuthRole)
    → (if token_matches token expected then ok who else err AuthFailure.invalid_token) ≡ ok role
    → (token ≡ expected) × (who ≡ role)
matched token expected who role h = elim (text_dec token expected) [
  | yes same ↦ (same, ground (arith, token_matches_lem token expected))
  | no other ↦ absurd (ground (arith, token_matches_lem token expected))
]

module _ (http : Http) where
  open http use {
    Request, HeaderValue, into_client_request, get_header, insert_header, from_str, from_static,
    to_str, received, get-insert, get-received, to_str-from_static, to_str-from_str,
  }

  authenticate_headers :
      (r : Request) (auth : AuthConfig) (role : AuthRole) (token : Text) (v w : HeaderValue)
      → get_header role_header r ≡ some v
      → parse_role http v ≡ ok role
      → get_header authorization_header r ≡ some w
      → parse_bearer_token http w ≡ ok token
      → authenticate_request http r auth ≡ verdict role token (token_for_role auth role)
  unfolding authenticate_request verdict ok_or ◌and_then◌
  authenticate_headers r auth role token v w a b c d =
      elim (Option-cases (token_for_role auth role)) [
        | inl e ↦ rw (a, b, c, d, e) refl
        | inr (expected, e) ↦ rw (a, b, c, d, e, token_matches_lem token expected) refl
      ]

  -- With a token of visible ASCII characters, not all of them blank nor the last one, and an address
  -- that parses, the client's request is made, and the coordinator that receives it admits it in the
  -- client's role exactly if its token for that role is the same; else the role is disabled or the
  -- token invalid.
  pub authenticate_request-websocket_request :
      (coordinator : Text) (role : AuthRole) (token : Text) (base : Request) (auth : AuthConfig)
      → into_client_request coordinator ≡ some base
      → All IsVisible token
      → is_empty (trim token) ≡ false
      → ends_blank token ≡ false
      → (r : Request) × (websocket_request http coordinator role (some token) ≡ some r)
        × (authenticate_request http (received r) auth
            ≡ verdict role token (token_for_role auth role))
  unfolding websocket_request parse_bearer_token parse_role ok_or ◌and_then◌
  authenticate_request-websocket_request coordinator role token base auth made visible filled ends =
      let value = from_static (as_str role) in
      let (w, from, to) =
        to_str-from_str (bytes "Bearer " ++ token) (bearer-IsVisible token visible) in
      let named = insert_header role_header value base in
      let r = insert_header authorization_header w named in
      let (role_starts, role_ends) = as_str-blanks role in
      let (bearer_starts, bearer_ends) = bearer-blanks token filled ends in
      let (v', there, reads) =
        get-received role_header value (as_str role) r
          (ground (
            arith,
            headers_differ,
            role_header-same,
            get-insert role_header role_header value base,
            get-insert authorization_header role_header w named,
          ))
          (to_str-from_static (as_str role) (as_str-IsVisible role)) (as_str-IsVisible role)
          role_starts role_ends in
      let (w', present, reads') =
        get-received authorization_header w (bytes "Bearer " ++ token) r
          (ground (
            arith,
            authorization_header-same,
            get-insert authorization_header authorization_header w named,
          ))
          to (bearer-IsVisible token visible) bearer_starts bearer_ends in
      (
        r,
        rw (made, from, websocket_request) refl,
        authenticate_headers (received r) auth role token v' w' there
            (rw reads (role_of-as_str role)) present (rw reads' (bearer_token-bearer token filled)),
      )

  -- Any request that is admitted in a role carries the token that the coordinator has for it.
  pub authenticate_request-ok :
      (r : Request) (auth : AuthConfig) (role : AuthRole)
      → authenticate_request http r auth ≡ ok role
      → (w : HeaderValue) × (token : Text) × (get_header authorization_header r ≡ some w)
        × (parse_bearer_token http w ≡ ok token)
        × (token_for_role auth role ≡ some token)
  unfolding authenticate_request
  authenticate_request-ok r auth role h =
      let (who, claimed, h1) =
        and_then-ok
          (ok_or AuthFailure.missing_role (get_header role_header r) and_then parse_role http) _
          role h in
      let (token, said, h2) =
        and_then-ok
          (ok_or AuthFailure.missing_authorization (get_header authorization_header r)
            and_then parse_bearer_token http)
          _ role h1 in
      let (w, there, parsed) =
        and_then-ok (ok_or AuthFailure.missing_authorization (get_header authorization_header r))
          (parse_bearer_token http) token said in
      let (expected, has, h3) =
        and_then-ok (ok_or AuthFailure.role_disabled (token_for_role auth who)) _ role h2 in
      let (same, role_is) = matched token expected who role h3 in
      (
        w,
        token,
        ok_or-ok AuthFailure.missing_authorization (get_header authorization_header r) w there,
        parsed,
        ap (token_for_role auth) (sym role_is)
            ∙ ok_or-ok AuthFailure.role_disabled (token_for_role auth who) expected has
            ∙ ap some (sym same),
      )
