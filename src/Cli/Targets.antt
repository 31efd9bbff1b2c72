-- ===== src/Cli/Targets.antt =====
-- crates/cli/src/main.rs with crates/coordinator/src/main.rs as its server: the nodes that a
-- command selects under a lease.
use multinode_controller.Base.{
  ℕ, suc, ◌<◌, ◌≡◌, refl, Bool, true, false, not, List, [], ◌∷◌, ◌++◌, map, some, Result, ok, Map,
  get, values, text_dec, any, is_empty, All, arith,
}
use multinode_controller.Protocol.{
  NodeId, LeaseId, DateTime, ClientRequest, ClientResponse, WireMessage, NodeSummary,
  RunProcessRequest,
}
use multinode_controller.Socket.{Incoming, closing}
use multinode_controller.Store.Tables.{Formats}
use multinode_controller.Coordinator.State.{
  AppState, LeaseRecord, Sender, Served, Outcome, err, waiting, summary, send,
}
use multinode_controller.Coordinator.Sends.{send_open}
use multinode_controller.Coordinator.Leases.{contains, list_leases}
use multinode_controller.Coordinator.LeaseTable.{Keyed, IsLeaseTable}
use multinode_controller.Coordinator.Runs.{Draws, Received, chosen, leased_nodes, within_lease}
use multinode_controller.Coordinator.Clients.{handle_client}
use multinode_controller.Cli.Client.{is_done, read_responses}
use multinode_controller.Cli.Completion.{delivered, read_responses-first}
use multinode_controller.Cli.Commands.{TorchrunArgs}
use multinode_controller.Cli.Programs.{
  Server, Session, nodes_of_lease, done, ending_of, continue_with, call, find_leases, fetch_leases,
  lease_named, nodes_by_lease, resolve_target_nodes,
}
use multinode_controller.Cli.Handlers.{torchrun_request}

-- What the coordinator draws from outside for one request, and how much the socket takes.
pub record Draw : Type 0 where
  pub draws : Draws
  pub lease_id : LeaseId
  pub now : DateTime
  pub is_open : Sender → Bool
  pub received : List Received
  pub room : ℕ

-- The coordinator between two requests, with the draws of those to come.
pub record Live : Type 0 where
  pub app : AppState
  pub coming : ℕ → Draw

unfoldable pub fresh_served : AppState → ℕ → Served
fresh_served app room = record { app = app; sink = record { written = []; room = room } }

-- A handler that fails closes the connection.
unfoldable pub after_handler : {T : Type 0} → Outcome (Unit {0}) → List (Incoming T)
after_handler (Outcome.ok finished) = []
after_handler (err e) = closing ∷ []
after_handler waiting = []

module _ {T : Type 0} (to_text : WireMessage → T) (from_text : T → Result WireMessage)
    ⦃formats : Formats⦄ where
  unfoldable pub serve : ClientRequest → Draw → AppState → Outcome (List ClientResponse) × AppState
  serve request d app =
      let (outcome, c) =
        handle_client request d.draws d.lease_id d.now d.is_open d.received
          (fresh_served app d.room) in
      (
        read_responses from_text (map (delivered to_text) c.sink.written ++ after_handler outcome)
            [],
        c.app,
      )

  -- The coordinator as the command line sees it, when no one else uses it.
  abbrev pub coordinator : Server
  coordinator = record {
    World = Live;
    request = λ request live.
        let (outcome, app) = serve request (live.coming 0) live.app in
        (outcome, record { app = app; coming = λ n. live.coming (suc n) });
    sleep = λ seconds live. live;
  }

lease_named-summary :
    (id : LeaseId) (m : Map LeaseRecord) (l : LeaseRecord)
    → All Keyed m
    → get id m ≡ some l
    → (lease_named id (map summary (values m)) ≡ some (summary l)) × (is_empty l.nodes ≡ false)
unfolding lease_named get summary
lease_named-summary id [] l keyed found = absurd (cc found)
lease_named-summary id ((k, w) ∷ m) l ((own, filled), keyed) found =
    let later = lease_named-summary id m l keyed in
    elim (text_dec k id) [
      | yes same ↦ ground (arith, own, filled, found)
      | no other ↦ ground (arith, own, later, found)
    ]

within-each :
    (nodes xs : List NodeId)
    → ((n : NodeId) → contains xs n ≡ true → contains nodes n ≡ true)
    → any (λ n. not (contains nodes n)) xs ≡ false
unfolding contains any
within-each nodes [] h = refl
within-each nodes (x ∷ xs) h =
    let here : contains nodes x ≡ true = h x (ground arith) in
    let rest = within-each nodes xs (λ n e. h n (ground (arith, e))) in rw here rest

-- A run that names the nodes of its lease has them chosen.
leased_nodes-lease :
    (request : RunProcessRequest) (id : LeaseId) (leases : Map LeaseRecord) (l : LeaseRecord)
    → request.nodes ≡ l.nodes
    → request.lease_id ≡ some id
    → get id leases ≡ some l
    → is_empty l.nodes ≡ false
    → leased_nodes request leases ≡ chosen l.nodes
unfolding leased_nodes within_lease
leased_nodes-lease request id leases l own lease found filled =
    rw (lease, leased_nodes)
      (rw found (rw (own, filled, within-each l.nodes l.nodes (λ n e. e)) refl))

module _ {T : Type 0} (to_text : WireMessage → T) (from_text : T → Result WireMessage)
    (from_text-to_text : (m : WireMessage) → from_text (to_text m) ≡ ok m) ⦃formats : Formats⦄ where
  abbrev server : Server
  server = coordinator to_text from_text

  abbrev asked : Session Live → Session Live
  asked s = record s { world = record { app = s.world.app; coming = λ n. s.world.coming (suc n) } }

  fetch_leases-coordinator :
      (s : Session Live)
      → 0 < (s.world.coming 0).room
      → fetch_leases server s ≡ (done (map summary (values s.world.app.leases)), asked s)
  unfolding fetch_leases call serve handle_client list_leases fresh_served is_done ending_of
      continue_with find_leases after_handler send
  fetch_leases-coordinator s room =
      let told = ClientResponse.leases (map summary (values s.world.app.leases)) in
      rw
        (
          send_open told (fresh_served s.world.app (s.world.coming 0).room) room,
          read_responses-first to_text from_text from_text-to_text told [] [] refl,
        )
        refl

  -- Under a lease that it does not name nodes of, a command that runs under torchrun selects the
  -- nodes of the lease, and the coordinator, where nothing has changed, chooses those nodes for
  -- the run that it requests.
  pub resolve_target_nodes-lease :
      (args : TorchrunArgs) (id : LeaseId) (l : LeaseRecord) (summaries : List NodeSummary)
      (s : Session Live)
      → IsLeaseTable s.world.app.leases
      → get id s.world.app.leases ≡ some l
      → args.lease ≡ some id
      → 0 < (s.world.coming 0).room
      → (resolve_target_nodes server [] (some id) s ≡ (done l.nodes, asked s))
        × (leased_nodes (torchrun_request args l.nodes summaries) s.world.app.leases
            ≡ chosen l.nodes)
  unfolding resolve_target_nodes nodes_by_lease nodes_of_lease torchrun_request continue_with
      is_empty summary
  resolve_target_nodes-lease args id l summaries s table found lease room =
      let (named, filled) = lease_named-summary id s.world.app.leases l table.keyed found in
      (
        rw (fetch_leases-coordinator s room, named) refl,
        leased_nodes-lease (torchrun_request args l.nodes summaries) id s.world.app.leases l refl
            lease found filled,
      )
