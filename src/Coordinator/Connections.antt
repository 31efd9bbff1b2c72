-- ===== src/Coordinator/Connections.antt =====
-- crates/coordinator/src/main.rs: who is let in, and which handler a connection gets.
use multinode_controller.Base.{
  ◌≡◌, refl, ap, sym, ◌∙◌, Bool, true, false, ◌||◌, if◌then◌else◌, Option, none, some, Text, bytes,
  arith,
}
use multinode_controller.Protocol.{NodeInfo, ClientRequest, WireMessage, WorkerMessage}
use multinode_controller.Auth.Requests.{
  AuthRole, AuthConfig, Checked, ok, ◌and_then◌, token_for_role, Http, authorization_header,
  parse_bearer_token, authenticate_request,
}
use multinode_controller.Auth.Handshake.{and_then-ok, authenticate_request-ok}

-- What a connection comes to after its first message: a handler, the answer that the message is
-- out of place, or its end.
pub data Route : Type 0 where
  handle_worker : NodeInfo → Route
  handle_client : ClientRequest → Route
  unexpected : WireMessage → Route
  closed : Text → Route

unfoldable pub is_some {ℓ} : {A : Type ℓ} → Option A → Bool
is_some none = false
is_some (some a) = true

unfoldable pub enabled : AuthConfig → Bool
enabled auth = is_some auth.worker_token || is_some auth.client_token

unfoldable pub same_role : AuthRole → AuthRole → Bool
same_role AuthRole.worker AuthRole.worker = true
same_role AuthRole.worker AuthRole.client = false
same_role AuthRole.client AuthRole.worker = false
same_role AuthRole.client AuthRole.client = true

-- `ensure_role`, and what follows it if it succeeds.
unfoldable pub ensure_role : Option AuthRole → AuthRole → Route → Route
ensure_role none expected route = route
ensure_role (some role) expected route =
    if same_role role expected
    then route
    else closed (bytes "authenticated role does not match first message")

-- The match of `handle_connection` on the first message; `none` is a connection that has ended.
unfoldable pub on_first : Option AuthRole → Option WireMessage → Route
on_first role none = closed (bytes "connection closed before role registration")
on_first role (some (WireMessage.worker (WorkerMessage.register info))) =
    ensure_role role AuthRole.worker (handle_worker info)
on_first role (some (WireMessage.client_request request)) =
    ensure_role role AuthRole.client (handle_client request)
on_first role (some (WireMessage.worker (WorkerMessage.heartbeat beat))) =
    unexpected (WireMessage.worker (WorkerMessage.heartbeat beat))
on_first role (some (WireMessage.worker (WorkerMessage.task_started event))) =
    unexpected (WireMessage.worker (WorkerMessage.task_started event))
on_first role (some (WireMessage.worker (WorkerMessage.log_line line))) =
    unexpected (WireMessage.worker (WorkerMessage.log_line line))
on_first role (some (WireMessage.worker (WorkerMessage.task_exited event))) =
    unexpected (WireMessage.worker (WorkerMessage.task_exited event))
on_first role (some (WireMessage.worker (WorkerMessage.error error))) =
    unexpected (WireMessage.worker (WorkerMessage.error error))
on_first role (some (WireMessage.coordinator message)) =
    unexpected (WireMessage.coordinator message)
on_first role (some (WireMessage.client_response response)) =
    unexpected (WireMessage.client_response response)

-- The role whose handler is entered.
unfoldable pub served_as : Route → Option AuthRole
served_as (handle_worker info) = some AuthRole.worker
served_as (handle_client request) = some AuthRole.client
served_as (unexpected message) = none
served_as (closed reason) = none

module _ (http : Http) where
  open http use {Request, HeaderValue, get_header}

  unfoldable pub accept_authenticated : AuthConfig → Request → Checked (Option AuthRole)
  accept_authenticated auth request =
      if enabled auth
      then (authenticate_request http request auth and_then λ role. ok (some role))
      else ok none

  unfoldable pub handle_connection : AuthConfig → Request → Option WireMessage → Checked Route
  handle_connection auth request first =
      accept_authenticated auth request and_then λ role. ok (on_first role first)

  ensured :
      (role expected as_role : AuthRole) (route : Route)
      → served_as route ≡ some expected
      → served_as (ensure_role (some role) expected route) ≡ some as_role
      → role ≡ as_role
  unfolding ensure_role same_role served_as
  ensured AuthRole.worker AuthRole.worker as_role route h k = ground (arith, h)
  ensured AuthRole.client AuthRole.client as_role route h k = ground (arith, h)
  ensured AuthRole.worker AuthRole.client as_role route h k = absurd (ground arith)
  ensured AuthRole.client AuthRole.worker as_role route h k = absurd (ground arith)

  on_first-role :
      (role as_role : AuthRole) (first : Option WireMessage)
      → served_as (on_first (some role) first) ≡ some as_role
      → role ≡ as_role
  unfolding on_first served_as
  on_first-role role a none k = absurd (ground arith)
  on_first-role role a (some (WireMessage.worker (WorkerMessage.register info))) k =
      ensured role AuthRole.worker a (handle_worker info) refl k
  on_first-role role a (some (WireMessage.client_request request)) k =
      ensured role AuthRole.client a (handle_client request) refl k
  on_first-role role a (some (WireMessage.worker (WorkerMessage.heartbeat beat))) k =
      absurd (ground arith)
  on_first-role role a (some (WireMessage.worker (WorkerMessage.task_started event))) k =
      absurd (ground arith)
  on_first-role role a (some (WireMessage.worker (WorkerMessage.log_line line))) k =
      absurd (ground arith)
  on_first-role role a (some (WireMessage.worker (WorkerMessage.task_exited event))) k =
      absurd (ground arith)
  on_first-role role a (some (WireMessage.worker (WorkerMessage.error error))) k =
      absurd (ground arith)
  on_first-role role a (some (WireMessage.coordinator message)) k = absurd (ground arith)
  on_first-role role a (some (WireMessage.client_response response)) k = absurd (ground arith)

  accept_authenticated-role :
      (auth : AuthConfig) (request : Request) (slot : Option AuthRole)
      → enabled auth ≡ true
      → accept_authenticated auth request ≡ ok slot
      → (role : AuthRole) × (authenticate_request http request auth ≡ ok role) × (slot ≡ some role)
  unfolding accept_authenticated
  accept_authenticated-role auth request slot on accepted =
      let checked = authenticate_request http request auth and_then λ role. ok (some role) in
      let (role, admitted, filled) =
        and_then-ok (authenticate_request http request auth) (λ role. ok (some role)) slot
          (ap (λ b. if b then checked else ok none) (sym on) ∙ accepted) in
      (role, admitted, cc filled)

  -- If the coordinator has a token at all, a connection gets the handler of workers, or that of
  -- clients, only if its handshake carried the coordinator's token for that role.
  pub handle_connection-token :
      (auth : AuthConfig) (request : Request) (first : Option WireMessage) (route : Route)
      (role : AuthRole)
      → enabled auth ≡ true
      → handle_connection auth request first ≡ ok route
      → served_as route ≡ some role
      → (w : HeaderValue) × (token : Text) × (get_header authorization_header request ≡ some w)
        × (parse_bearer_token http w ≡ ok token)
        × (token_for_role auth role ≡ some token)
  unfolding handle_connection
  handle_connection-token auth request first route role on connected entered =
      let (slot, accepted, routed) =
        and_then-ok (accept_authenticated auth request) (λ slot. ok (on_first slot first)) route
          connected in
      let (who, admitted, filled) = accept_authenticated-role auth request slot on accepted in
      let at : on_first slot first ≡ route = cc routed in
      let served : served_as (on_first (some who) first) ≡ some role =
        ap (λ s. served_as (on_first s first)) (sym filled) ∙ ap served_as at ∙ entered in
      authenticate_request-ok http request auth role
        (admitted ∙ ap ok (on_first-role who role first served))
