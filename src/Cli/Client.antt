-- ===== src/Cli/Client.antt =====
-- crates/cli/src/main.rs: `request`, which sends one request to the coordinator and collects the
-- responses up to the first that ends it.
use multinode_controller.Base.{
  Bool, true, false, List, [], ◌∷◌, ◌++◌, Option, none, some, Text, if◌then◌else◌, Result, try,
}
use multinode_controller.Protocol.{ClientRequest, ClientResponse, WireMessage}
use multinode_controller.Auth.Requests.{AuthRole, Http, websocket_request}
use multinode_controller.Socket.{Incoming, fault, closing, frame}
use multinode_controller.Coordinator.State.{Outcome, ok, err, waiting}

-- The `matches!` of the loop: whether a response is the last.
unfoldable pub is_done : ClientResponse → Bool
is_done (ClientResponse.nodes x) = true
is_done (ClientResponse.jobs x) = true
is_done (ClientResponse.job x) = true
is_done (ClientResponse.logs x) = true
is_done (ClientResponse.leases x) = true
is_done (ClientResponse.lease_created x) = true
is_done (ClientResponse.job_diagnosis x) = true
is_done (ClientResponse.run_started x) = false
is_done (ClientResponse.task_started x) = false
is_done (ClientResponse.log_line x) = false
is_done (ClientResponse.task_exited x) = false
is_done (ClientResponse.job_finished x) = true
is_done (ClientResponse.error x) = true
is_done ClientResponse.ack = true

-- One message; `later` is the rest of the loop.
unfoldable pub on_wire :
    WireMessage
    → List ClientResponse
    → (List ClientResponse → Outcome (List ClientResponse))
    → Outcome (List ClientResponse)
on_wire (WireMessage.client_response response) responses later =
    if is_done response then ok (responses ++ response ∷ []) else later (responses ++ response ∷ [])
on_wire (WireMessage.client_request m) responses later = later responses
on_wire (WireMessage.worker m) responses later = later responses
on_wire (WireMessage.coordinator m) responses later = later responses

unfoldable pub on_parsed :
    Result WireMessage
    → List ClientResponse
    → (List ClientResponse → Outcome (List ClientResponse))
    → Outcome (List ClientResponse)
on_parsed (Result.ok wire) responses later = on_wire wire responses later
on_parsed (Result.err e) responses later = err e

-- The loop; where what has come gives out it waits for more.
unfoldable pub read_responses :
    {T : Type 0}
    → (T → Result WireMessage)
    → List (Incoming T)
    → List ClientResponse
    → Outcome (List ClientResponse)
read_responses from_text [] responses = waiting
read_responses from_text (fault e ∷ rest) responses = err e
read_responses from_text (closing ∷ rest) responses = ok responses
read_responses from_text (frame text ∷ rest) responses =
    on_parsed (try text from_text) responses (read_responses from_text rest)

-- `request`; `connect` makes the handshake and gives a socket, which takes the text of the request
-- and gives what is then to be read. `refused` is the error of `websocket_request`.
module _ (http : Http) {T : Type 0} where
  unfoldable pub exchange :
      (T → Result WireMessage) → Result (List (Incoming T)) → Outcome (List ClientResponse)
  exchange from_text (Result.ok incoming) = read_responses from_text incoming []
  exchange from_text (Result.err e) = err e

  unfoldable pub request :
      (refused : Text) (connect : http.Request → Result (T → Result (List (Incoming T))))
      (to_text : WireMessage → Result T) (from_text : T → Result WireMessage)
      → Text
      → Option Text
      → ClientRequest
      → Outcome (List ClientResponse)
  request refused connect to_text from_text coordinator token client_request =
      elim (websocket_request http coordinator AuthRole.client token) [
        | none ↦ err refused
        | some handshake ↦ exchange from_text (
            try (connect handshake)
              λ socket. try (to_text (WireMessage.client_request client_request)) socket)
      ]
