-- ===== src/Auth/Requests.antt =====
-- crates/auth/src/lib.rs: token files, and the headers of a WebSocket handshake. `Http` is the
-- tungstenite and http crates' part; the files are a function from paths to their text.
use multinode_controller.Base.{
  ℕ, zero, suc, ◌≡◌, Bool, true, false, not, ◌&&◌, ◌||◌, if◌then◌else◌, List, [], ◌∷◌, ◌++◌, map,
  reverse, Option, none, some, Text, bytes, eq_text, leb, ◌==◌, length, starts_with,
  to_ascii_lowercase, All, is_empty,
}
use multinode_controller.Auth.Tokens.{token_matches}

pub data AuthRole : Type 0 where
  worker client : AuthRole

unfoldable pub as_str : AuthRole → Text
as_str AuthRole.worker = bytes "worker"
as_str AuthRole.client = bytes "client"

pub record AuthConfig : Type 0 where
  pub worker_token : Option Text
  pub client_token : Option Text

pub data AuthFailure : Type 0 where
  missing_role invalid_role missing_authorization invalid_authorization role_disabled
        invalid_token :
      AuthFailure

pub data Checked (A : Type 0) : Type 0 where
  ok : A → Checked A
  err : AuthFailure → Checked A

unfoldable pub ok_or : {A : Type 0} → AuthFailure → Option A → Checked A
ok_or f none = err f
ok_or f (some a) = ok a

infixl 5 ◌and_then◌
unfoldable pub ◌and_then◌ : {A B : Type 0} → Checked A → (A → Checked B) → Checked B
◌and_then◌ (ok a) f = f a
◌and_then◌ (err e) f = err e

-- A byte of the characters with the property White_Space, each with its UTF-8 encoding.
unfoldable pub white_space : List Text
white_space =
    (9 ∷ [])
    ∷ (10 ∷ [])
    ∷ (11 ∷ [])
    ∷ (12 ∷ [])
    ∷ (13 ∷ [])
    ∷ (32 ∷ [])
    ∷ (194 ∷ 133 ∷ [])
    ∷ (194 ∷ 160 ∷ [])
    ∷ (225 ∷ 154 ∷ 128 ∷ [])
    ∷ (226 ∷ 128 ∷ 128 ∷ [])
    ∷ (226 ∷ 128 ∷ 129 ∷ [])
    ∷ (226 ∷ 128 ∷ 130 ∷ [])
    ∷ (226 ∷ 128 ∷ 131 ∷ [])
    ∷ (226 ∷ 128 ∷ 132 ∷ [])
    ∷ (226 ∷ 128 ∷ 133 ∷ [])
    ∷ (226 ∷ 128 ∷ 134 ∷ [])
    ∷ (226 ∷ 128 ∷ 135 ∷ [])
    ∷ (226 ∷ 128 ∷ 136 ∷ [])
    ∷ (226 ∷ 128 ∷ 137 ∷ [])
    ∷ (226 ∷ 128 ∷ 138 ∷ [])
    ∷ (226 ∷ 128 ∷ 168 ∷ [])
    ∷ (226 ∷ 128 ∷ 169 ∷ [])
    ∷ (226 ∷ 128 ∷ 175 ∷ [])
    ∷ (226 ∷ 129 ∷ 159 ∷ [])
    ∷ (227 ∷ 128 ∷ 128 ∷ [])
    ∷ []

-- The length of the first of the texts that `t` starts with, 0 if there is none.
unfoldable pub prefix_length : List Text → Text → ℕ
prefix_length [] t = 0
prefix_length (p ∷ ps) t = if starts_with t p then length p else prefix_length ps t

-- Skips `n` bytes, then characters from the list as long as there are any.
unfoldable pub skip : List Text → ℕ → Text → Text
skip ps n [] = []
skip ps (suc n) (x ∷ t) = skip ps n t
skip ps zero (x ∷ t) = elim (prefix_length ps (x ∷ t)) [ zero ↦ x ∷ t | suc n ↦ skip ps n t ]

unfoldable pub trim : Text → Text
trim t = reverse (skip (map reverse white_space) 0 (reverse (skip white_space 0 t)))

unfoldable pub eq_ignore_ascii_case : Text → Text → Bool
eq_ignore_ascii_case a b = eq_text (to_ascii_lowercase a) (to_ascii_lowercase b)

-- `split_once(' ')`.
unfoldable pub split_once : Text → Option (Text × Text)
split_once [] = none
split_once (x ∷ t) =
    let rest = split_once t in
    if x == 32 then some ([], t) else elim rest [ none ↦ none | some (a, b) ↦ some (x ∷ a, b) ]

-- The files, `none` where reading fails. The texts of the errors are not modelled.
unfoldable pub read_token_file : (Text → Option Text) → Text → Option Text
read_token_file read_to_string path = elim (read_to_string path) [
  | none ↦ none
  | some content ↦ if is_empty (trim content) then none else some (trim content)
]

-- `path.map(read_token_file).transpose()`.
unfoldable pub read_optional_token : (Text → Option Text) → Option Text → Option (Option Text)
read_optional_token read_to_string none = some none
read_optional_token read_to_string (some path) = elim (read_token_file read_to_string path) [
  | none ↦ none
  | some token ↦ some (some token)
]

unfoldable pub or_else : Option Text → Option Text → Option Text
or_else none b = b
or_else (some a) b = some a

unfoldable pub from_files :
    (Text → Option Text) → Option Text → Option Text → Option Text → Option AuthConfig
from_files read_to_string shared_token_file worker_token_file client_token_file =
    elim (read_optional_token read_to_string shared_token_file) [
      | none ↦ none
      | some shared_token ↦ elim (read_optional_token read_to_string worker_token_file) [
        | none ↦ none
        | some worker_token ↦ elim (read_optional_token read_to_string client_token_file) [
          | none ↦ none
          | some client_token ↦ some (record {
            worker_token = or_else worker_token shared_token;
            client_token = or_else client_token shared_token;
          })
        ]
      ]
    ]

unfoldable pub token_for_role : AuthConfig → AuthRole → Option Text
token_for_role auth AuthRole.worker = auth.worker_token
token_for_role auth AuthRole.client = auth.client_token

-- A byte that `HeaderValue::to_str` takes: a visible ASCII character, a space or a tab.
abbrev pub IsVisible : ℕ → Type 0
IsVisible c = ((leb 32 c && leb c 126) || (c == 9)) ≡ true

-- A space or a tab.
unfoldable pub is_blank : ℕ → Bool
is_blank c = (c == 32) || (c == 9)

unfoldable pub starts_blank : Text → Bool
starts_blank [] = false
starts_blank (c ∷ t) = is_blank c

unfoldable pub ends_blank : Text → Bool
ends_blank [] = false
ends_blank (c ∷ []) = is_blank c
ends_blank (c ∷ d ∷ t) = ends_blank (d ∷ t)

-- Requests and header values, with what the documentation of the http crate and that of HTTP say of
-- them: an inserted header is the one found under its name, whatever the case of its letters; a
-- value made from visible ASCII text reads as that text; and of a request that has been sent, the
-- server receives the same values, but for blanks at their ends.
pub record Http : Type 1 where
  pub Request : Type 0
  pub HeaderValue : Type 0
  pub into_client_request : Text → Option Request
  pub get_header : Text → Request → Option HeaderValue
  pub insert_header : Text → HeaderValue → Request → Request
  pub from_str : Text → Option HeaderValue
  pub from_static : Text → HeaderValue
  pub to_str : HeaderValue → Option Text
  pub received : Request → Request
  pub get-insert :
      (k j : Text) (v : HeaderValue) (r : Request)
      → get_header j (insert_header k v r)
        ≡ (if eq_ignore_ascii_case k j then some v else get_header j r)
  pub to_str-from_static : (t : Text) → All IsVisible t → to_str (from_static t) ≡ some t
  pub to_str-from_str :
      (t : Text) → All IsVisible t → (v : HeaderValue) × (from_str t ≡ some v) × (to_str v ≡ some t)
  pub get-received :
      (k : Text) (v : HeaderValue) (t : Text) (r : Request)
      → get_header k r ≡ some v
      → to_str v ≡ some t
      → All IsVisible t
      → starts_blank t ≡ false
      → ends_blank t ≡ false
      → (w : HeaderValue) × (get_header k (received r) ≡ some w) × (to_str w ≡ some t)

abbrev pub role_header : Text
role_header = bytes "x-agent-role"

abbrev pub authorization_header : Text
authorization_header = bytes "authorization"

unfoldable pub role_of : Text → Checked AuthRole
role_of value =
    if eq_text value (bytes "worker")
    then ok AuthRole.worker
    else if eq_text value (bytes "client")
    then ok AuthRole.client
    else err AuthFailure.invalid_role

unfoldable pub bearer_token : Text → Checked Text
bearer_token value = elim (split_once value) [
  | none ↦ err AuthFailure.invalid_authorization
  | some (scheme, token) ↦
      if not (eq_ignore_ascii_case scheme (bytes "bearer")) || is_empty (trim token)
      then err AuthFailure.invalid_authorization
      else ok token
]

module _ (http : Http) where
  open http use {
    Request, HeaderValue, into_client_request, get_header, insert_header, from_str, from_static,
    to_str,
  }

  unfoldable pub websocket_request : Text → AuthRole → Option Text → Option Request
  websocket_request coordinator role token = elim (into_client_request coordinator) [
    | none ↦ none
    | some request ↦
        let request = insert_header role_header (from_static (as_str role)) request in
        elim token [
          | none ↦ some request
          | some token ↦ elim (from_str (bytes "Bearer " ++ token)) [
            | none ↦ none
            | some value ↦ some (insert_header authorization_header value request)
          ]
        ]
  ]

  unfoldable pub parse_role : HeaderValue → Checked AuthRole
  parse_role value = ok_or AuthFailure.invalid_role (to_str value) and_then role_of

  unfoldable pub parse_bearer_token : HeaderValue → Checked Text
  parse_bearer_token value =
      ok_or AuthFailure.invalid_authorization (to_str value) and_then bearer_token

  unfoldable pub authenticate_request : Request → AuthConfig → Checked AuthRole
  authenticate_request request auth =
      (ok_or AuthFailure.missing_role (get_header role_header request) and_then parse_role)
      and_then λ role.
          (ok_or AuthFailure.missing_authorization (get_header authorization_header request)
            and_then parse_bearer_token)
          and_then λ authorization.
              ok_or AuthFailure.role_disabled (token_for_role auth role) and_then λ expected.
              if token_matches authorization expected
              then ok role
              else err AuthFailure.invalid_token
