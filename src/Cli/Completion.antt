-- ===== src/Cli/Completion.antt =====
-- crates/cli/src/main.rs and crates/coordinator/src/main.rs together: every request that the
-- coordinator's handler completes is completed for the client that reads its responses.
use multinode_controller.Base.{
  ◌≡◌, refl, sym, subst, ◌∙◌, ap, Bool, true, false, List, [], ◌∷◌, ◌++◌, map, Result, ok, All,
  Bool-cases, inl, inr, try,
}
use mathlib.Core.List.{append_assoc}
use multinode_controller.Protocol.{LeaseId, DateTime, ClientRequest, ClientResponse, WireMessage}
use multinode_controller.Socket.{Incoming, frame}
use multinode_controller.Store.Tables.{Formats}
use multinode_controller.Coordinator.State.{Sender, Served, Outcome}
use multinode_controller.Coordinator.Runs.{Draws, Received}
use multinode_controller.Coordinator.Clients.{handle_client}
use multinode_controller.Cli.Client.{is_done, on_wire, on_parsed, read_responses}
use multinode_controller.Cli.Replies.{handle_client-Completes}

-- The text of a response as it comes to the client.
abbrev pub delivered : {T : Type 0} → (WireMessage → T) → ClientResponse → Incoming T
delivered to_text response = frame (ok (to_text (WireMessage.client_response response)))

-- The responses up to the first that ends the request.
abbrev pub Read :
    {T : Type 0}
    → (List (Incoming T) → Outcome (List ClientResponse))
    → (ClientResponse → Incoming T)
    → List ClientResponse
    → List ClientResponse
    → Type 0
Read read deliver before written =
    (front : List ClientResponse) × ((last : ClientResponse) × ((rest : List ClientResponse)
        × ((written ≡ front ++ last ∷ rest)
            × (All (λ r. is_done r ≡ false) front)
            × (is_done last ≡ true)
            × (read (map deliver written) ≡ Outcome.ok (before ++ (front ++ last ∷ []))))))

module _ {T : Type 0} (to_text : WireMessage → T) (from_text : T → Result WireMessage)
    (from_text-to_text : (m : WireMessage) → from_text (to_text m) ≡ ok m) where
  pub read_responses-first :
      (r : ClientResponse) (rest : List ClientResponse) (before : List ClientResponse)
      → is_done r ≡ true
      → read_responses from_text (map (delivered to_text) (r ∷ rest)) before
        ≡ Outcome.ok (before ++ r ∷ [])
  unfolding read_responses on_parsed on_wire try
  read_responses-first r rest before e =
      rw (from_text-to_text (WireMessage.client_response r), e) refl

  read_responses-next :
      (r : ClientResponse) (rest : List ClientResponse) (before : List ClientResponse)
      → is_done r ≡ false
      → read_responses from_text (map (delivered to_text) (r ∷ rest)) before
        ≡ read_responses from_text (map (delivered to_text) rest) (before ++ r ∷ [])
  unfolding read_responses on_parsed on_wire try
  read_responses-next r rest before e =
      rw (from_text-to_text (WireMessage.client_response r), e) refl

  reads-Read :
      (front : List ClientResponse) (last : ClientResponse) (before : List ClientResponse)
      → is_done last ≡ true
      → Read
          (λ incoming. read_responses from_text incoming before)
          (delivered to_text)
          before
          (front ++ last ∷ [])
  reads-Read [] last before done =
      ([], (last, ([], (refl, tt, done, read_responses-first last [] before done))))
  reads-Read (r ∷ front) last before done = elim (Bool-cases (is_done r)) [
    | inl e ↦ ([], (r, (front ++ last ∷ [], (refl, tt, e, read_responses-first r _ before e))))
    | inr e ↦
        let (front', (l, (rest, (split, open_so_far, over, reads)))) =
          reads-Read front last (before ++ r ∷ []) done in
        (
          r ∷ front',
          (
            l,
            (
              rest,
              (
                ap (◌∷◌ r) split,
                (e, open_so_far),
                over,
                read_responses-next r _ before e
                    ∙ reads
                    ∙ ap Outcome.ok (append_assoc before (r ∷ []) (front' ++ l ∷ [])),
              ),
            ),
          ),
        )
  ]

  -- Whatever a client requests, if the coordinator's handler comes to its end, the client's loop
  -- comes to its end too: it returns the responses up to and with the first that ends a request.
  pub handle_client-completes :
      ⦃formats : Formats⦄
      → (request : ClientRequest) (draws : Draws) (lease_id : LeaseId) (now : DateTime)
        (is_open : Sender → Bool) (received : List Received) (c : Served)
      → (handle_client request draws lease_id now is_open received c).0 ≡ Outcome.ok tt
      → Read
          (λ incoming. read_responses from_text incoming [])
          (delivered to_text)
          []
          (handle_client request draws lease_id now is_open received c).1.sink.written
  handle_client-completes request draws lease_id now is_open received c ends =
      let (front, (last, (split, done))) =
        handle_client-Completes request draws lease_id now is_open received c ends in
      subst (Read (λ incoming. read_responses from_text incoming []) (delivered to_text) [])
        (sym split) (reads-Read front last [] done)
