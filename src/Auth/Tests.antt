-- ===== src/Auth/Tests.antt =====
-- The theorems of the handshake at concrete inputs; headers are a map, and every text is a value.
use multinode_controller.Base.{
  to_ascii_lowercase, starts_with, ◌≡◌, refl, if◌then◌else◌, arith, [], ◌∷◌, none, some, Text,
  bytes, Map, get, insert, get-insert, text_dec, eq_text, is_empty,
}
use multinode_controller.Auth.Tokens.{byte, compare_bytes, token_matches, token_matches_lem}
use multinode_controller.Auth.Requests.{
  is_blank, ends_blank, AuthRole, AuthConfig, Http, ok, from_files, trim, skip, prefix_length,
  white_space, websocket_request, authenticate_request, parse_bearer_token, authorization_header,
  token_for_role, read_optional_token, read_token_file, or_else, ok_or, ◌and_then◌, parse_role,
  role_of, bearer_token, split_once, eq_ignore_ascii_case,
}
use multinode_controller.Auth.Handshake.{
  verdict, authenticate_request-websocket_request, authenticate_request-ok,
}
use multinode_controller.Protocol.{WireMessage, WorkerMessage}
use multinode_controller.Coordinator.Connections.{
  Route, is_some, enabled, same_role, ensure_role, on_first, served_as, accept_authenticated,
  handle_connection, handle_connection-token,
}
use multinode_controller.Samples.{info}

-- Header names are compared in lower case.
get-lowercase :
    (k j : Text) (v : Text) (r : Map Text)
    → get (to_ascii_lowercase j) (insert (to_ascii_lowercase k) v r)
      ≡ (if eq_ignore_ascii_case k j then some v else get (to_ascii_lowercase j) r)
unfolding eq_ignore_ascii_case
get-lowercase k j v r = ground (arith, get-insert (to_ascii_lowercase k) (to_ascii_lowercase j) v r)

abbrev plain_http : Http
plain_http = record {
  Request = Map Text;
  HeaderValue = Text;
  into_client_request = λ u. some [];
  get_header = λ k r. get (to_ascii_lowercase k) r;
  insert_header = λ k v r. insert (to_ascii_lowercase k) v r;
  from_str = some;
  from_static = λ t. t;
  to_str = some;
  received = λ r. r;
  get-insert = get-lowercase;
  to_str-from_static = λ t h. refl;
  to_str-from_str = λ t h. (t, refl, refl);
  get-received = λ k v t r found reads visible starts ends. (v, found, reads);
}

abbrev both : AuthConfig
both = record { worker_token = some (bytes "w1"); client_token = some (bytes "c1") }

token_matches_lem_example :
    token_matches (bytes "ab") (bytes "ac") ≡ eq_text (bytes "ab") (bytes "ac")
token_matches_lem_example = token_matches_lem (bytes "ab") (bytes "ac")

trimmed : trim (bytes " ab \t") ≡ bytes "ab"
unfolding trim skip prefix_length starts_with white_space bytes
trimmed = refl

authenticate_request-websocket_request_example :
    (r : Map Text) × (websocket_request plain_http
        (bytes "ws://c")
        AuthRole.worker
        (some (bytes "w1"))
      ≡ some r)
    × (authenticate_request plain_http r both
        ≡ verdict AuthRole.worker (bytes "w1") (some (bytes "w1")))
unfolding trim skip prefix_length starts_with white_space bytes is_empty token_for_role ends_blank
    is_blank
authenticate_request-websocket_request_example =
    authenticate_request-websocket_request plain_http (bytes "ws://c") AuthRole.worker (bytes "w1")
      [] both refl (refl, (refl, tt)) refl refl

abbrev worker_request : Map Text
worker_request =
    (bytes "x-agent-role", bytes "worker") ∷ (bytes "authorization", bytes "bearer w1") ∷ []

worker_request-ok : authenticate_request plain_http worker_request both ≡ ok AuthRole.worker
unfolding authenticate_request get text_dec bytes ok_or ◌and_then◌ parse_role role_of
    parse_bearer_token bearer_token split_once eq_ignore_ascii_case to_ascii_lowercase trim skip
    prefix_length starts_with white_space is_empty token_matches compare_bytes byte token_for_role
worker_request-ok = refl

authenticate_request-ok_example :
    (w : Text) × (token : Text) × (get (to_ascii_lowercase authorization_header) worker_request
      ≡ some w)
    × (parse_bearer_token plain_http w ≡ ok token)
    × (token_for_role both AuthRole.worker ≡ some token)
authenticate_request-ok_example =
    authenticate_request-ok plain_http worker_request both AuthRole.worker worker_request-ok

abbrev shared_only : AuthConfig
shared_only = record { worker_token = some (bytes "ab"); client_token = some (bytes "ab") }

-- Both roles take the shared token, without the blanks around it.
shared-token :
    from_files (λ p. some (bytes " ab \t")) (some (bytes "f")) none none ≡ some shared_only
unfolding from_files trim skip prefix_length starts_with white_space bytes read_optional_token
    read_token_file is_empty or_else
shared-token = refl

worker_connected :
    handle_connection plain_http both worker_request
      (some (WireMessage.worker (WorkerMessage.register info)))
    ≡ ok (Route.handle_worker info)
unfolding handle_connection accept_authenticated on_first ensure_role same_role enabled is_some
    authenticate_request get text_dec bytes ok_or ◌and_then◌ parse_role role_of parse_bearer_token
    bearer_token split_once eq_ignore_ascii_case to_ascii_lowercase trim skip prefix_length
    starts_with white_space is_empty token_matches compare_bytes byte token_for_role
worker_connected = refl

handle_connection-token_example :
    (w : Text) × (token : Text) × (get (to_ascii_lowercase authorization_header) worker_request
      ≡ some w)
    × (parse_bearer_token plain_http w ≡ ok token)
    × (token_for_role both AuthRole.worker ≡ some token)
unfolding enabled is_some served_as
handle_connection-token_example =
    handle_connection-token plain_http both worker_request
      (some (WireMessage.worker (WorkerMessage.register info))) (Route.handle_worker info)
      AuthRole.worker refl worker_connected refl
