-- ===== src/Coordinator/LeaseRequests.antt =====
-- crates/coordinator/src/main.rs: when `create_lease` grants a lease, and what it and
-- `release_lease` do to the table and tell the client.
use Prim.Native.Nat.{max}
use multinode_controller.Base.{
  ℕ, zero, suc, ◌≤◌, ap, sym, subst, List, Option, Map, keys, length, take, if◌then◌else◌, ◌-◌, ◌<◌,
  ◌≡◌, refl, inl, inr, false, [], ◌∷◌, ◌++◌, none, some, Text, text_dec, ite, get, insert, remove,
  values, get-remove, is_empty, All, arith, Bool-cases, Option-cases,
}
use multinode_controller.Protocol.{
  NodeId, LeaseId, DateTime, CreateLeaseRequest, ReleaseLeaseRequest, ClientResponse,
}
use multinode_controller.Coordinator.State.{
  WorkerHandle, LeaseRecord, Served, Outcome, ok, summary, send,
}
use multinode_controller.Coordinator.Sends.{send-app, send_open}
use multinode_controller.Coordinator.Leases.{
  lease_nodes, missing_node, conflicting_lease, new_lease, grant_lease, refuse_no_nodes,
  refuse_missing, refuse_overlap, create_lease, release_lease,
}
use multinode_controller.Coordinator.LeaseTable.{
  Compatible, IsConnected, IsLeaseTable, insert-IsLeaseTable, remove-IsLeaseTable,
  granted-Compatible, Compatible-granted, missing-IsConnected,
}

-- The nodes that a request asks for: those that it names, or else as many of the connected ones as
-- it counts, one at least, or else all of them.
unfoldable pub asked_nodes : List NodeId → Option ℕ → List NodeId → List NodeId
asked_nodes (n ∷ ns) count connected = n ∷ ns
asked_nodes [] none connected = connected
asked_nodes [] (some zero) connected = take 1 connected
asked_nodes [] (some (suc k)) connected = take (suc k) connected

take-keys : (n : ℕ) (nodes : Map WorkerHandle) → length nodes ≤ n → take n (keys nodes) ≡ keys nodes
unfolding take
take-keys zero [] h = refl
take-keys (suc n) [] h = refl
take-keys zero (e ∷ nodes) h = absurd (omega arith)
take-keys (suc n) ((k, w) ∷ nodes) h = ap (◌∷◌ k) (take-keys n nodes (omega arith))

counted-asked_nodes :
    (count : Option ℕ) (nodes : Map WorkerHandle)
    → take (max (elim count [ none ↦ length nodes | some n ↦ n ]) 1) (keys nodes)
      ≡ asked_nodes [] count (keys nodes)
unfolding asked_nodes
counted-asked_nodes none nodes = take-keys (max (length nodes) 1) nodes (omega arith)
counted-asked_nodes (some zero) nodes = refl
counted-asked_nodes (some (suc k)) nodes = ap (λ n. take n (keys nodes)) (omega arith)

lease_nodes-asked_nodes :
    (request : CreateLeaseRequest) (nodes : Map WorkerHandle)
    → lease_nodes request nodes ≡ asked_nodes request.nodes request.count (keys nodes)
unfolding lease_nodes asked_nodes is_empty
lease_nodes-asked_nodes request nodes = by_names request.nodes
  where
    by_names :
        (ns : List NodeId)
        → (if is_empty ns
            then take (max (elim request.count [ none ↦ length nodes | some n ↦ n ]) 1) (keys nodes)
            else ns)
          ≡ asked_nodes ns request.count (keys nodes)
    by_names [] = counted-asked_nodes request.count nodes
    by_names (n ∷ ns) = refl

module _ (request : CreateLeaseRequest) (lease_id : LeaseId) (now : DateTime) (c : Served) where
  -- The lease that a request asks for.
  abbrev pub requested : LeaseRecord
  requested = record {
    lease_id = lease_id;
    nodes = asked_nodes request.nodes request.count (keys c.app.nodes);
    gpus_per_node = request.gpus_per_node;
    exclusive = request.exclusive;
    created_at = now;
  }

  -- When it is to be had: it has a node, all its nodes are connected, and it goes with every
  -- lease there.
  pub record IsGrantable : Type 0 where
    pub nonempty : is_empty requested.nodes ≡ false
    pub connected : All (IsConnected c.app) requested.nodes
    pub free : All (λ (e : LeaseId × LeaseRecord). Compatible e.1 requested) c.app.leases

  -- `create_lease` once the nodes are chosen.
  abbrev created : List NodeId → Outcome (Unit {0}) × Served
  created selected =
      if is_empty selected then refuse_no_nodes c else elim (missing_node c.app.nodes selected) [
        | some node_id ↦ refuse_missing node_id c
        | none ↦ elim (conflicting_lease selected request.exclusive (values c.app.leases)) [
          | some lease ↦ refuse_overlap lease c
          | none ↦ grant_lease (new_lease request lease_id now selected) c
        ]
      ]

  pub create_lease_cases {κ} :
      (P : Outcome (Unit {0}) × Served → Type κ)
      → ((message : Text) → ¬ IsGrantable → P (send (ClientResponse.error message) c))
      → (IsGrantable → P (grant_lease requested c))
      → P (create_lease request lease_id now c)
  unfolding create_lease refuse_no_nodes refuse_missing refuse_overlap new_lease
  create_lease_cases P refused accepted =
      let selected = asked_nodes request.nodes request.count (keys c.app.nodes) in
      let ls = c.app.leases in
      subst (λ ns. P (created ns)) (sym (lease_nodes-asked_nodes request c.app.nodes))
        (elim (Bool-cases (is_empty selected)) [
          | inl e ↦ rw e (refused _ (λ g. ground (arith, g.nonempty)))
          | inr e ↦ rw e (elim (Option-cases (missing_node c.app.nodes selected)) [
            | inr (n, m) ↦ rw m (
                refused _ (λ g. ground (arith, (missing-IsConnected c.app selected).1 g.connected)))
            | inl m ↦
                rw m
                  (elim (Option-cases (conflicting_lease selected request.exclusive (values ls))) [
                    | inr (l, f) ↦
                        rw f
                          (refused _ (λ g. ground (arith, Compatible-granted requested ls g.free)))
                    | inl f ↦ rw f (
                        accepted (record {
                          nonempty = e;
                          connected = (missing-IsConnected c.app selected).0 m;
                          free = granted-Compatible requested ls f;
                        }))
                  ])
          ])
        ])

  -- A grantable lease, of the nodes that the request names, or else of as many connected ones as it
  -- counts, one at least, or else of all of them, is granted: the lease is in the table under its
  -- identifier, nothing else of the state changes, and the client is told of it.
  pub create_lease-grants :
      IsGrantable
      → 0 < c.sink.room
      → create_lease request lease_id now c ≡ (
        ok tt,
        record c {
          app = record c.app { leases = insert lease_id requested c.app.leases };
          sink = record {
            written = c.sink.written ++ ClientResponse.lease_created (summary requested) ∷ [];
            room = c.sink.room - 1;
          };
        },
      )
  unfolding grant_lease new_lease
  create_lease-grants g room =
      create_lease_cases (λ r. r ≡ (ok tt, told)) (λ message refused. absurd (refused g))
        λ _. send_open (ClientResponse.lease_created (summary requested)) _ room
    where
      told : Served
      told = record {
        app = record c.app { leases = insert lease_id requested c.app.leases };
        sink = record {
          written = c.sink.written ++ ClientResponse.lease_created (summary requested) ∷ [];
          room = c.sink.room - 1;
        };
      }

  -- Any other request changes no lease nor anything else of the state, and gets one error.
  pub create_lease-refuses :
      ¬ IsGrantable
      → 0 < c.sink.room
      → ((create_lease request lease_id now c).1.app ≡ c.app)
        × ((message : Text) × ((create_lease request lease_id now c).1.sink.written
              ≡ c.sink.written ++ ClientResponse.error message ∷ []))
  create_lease-refuses g room =
      create_lease_cases
        (λ r.
          (r.1.app ≡ c.app)
          × ((message : Text) × (r.1.sink.written
                ≡ c.sink.written ++ ClientResponse.error message ∷ [])))
        (λ message _. rw (send_open (ClientResponse.error message) c room) (refl, (message, refl)))
        λ h. absurd (g h)

  -- Whatever a client asks for, `create_lease` keeps the table of leases well formed: no node is
  -- in an exclusive lease and in another one.
  pub create_lease-IsLeaseTable :
      IsLeaseTable c.app.leases → IsLeaseTable (create_lease request lease_id now c).1.app.leases
  unfolding grant_lease new_lease
  create_lease-IsLeaseTable t =
      create_lease_cases (λ r. IsLeaseTable r.1.app.leases)
        (λ message _. rw (send-app (ClientResponse.error message) c) t)
        λ g. rw (send-app _ _) (
          insert-IsLeaseTable requested c.app.leases
            (Compatible-granted requested c.app.leases g.free) g.nonempty t)

-- So does `release_lease`.
pub release_lease-IsLeaseTable :
    (request : ReleaseLeaseRequest) (c : Served)
    → IsLeaseTable c.app.leases
    → IsLeaseTable (release_lease request c).1.app.leases
unfolding release_lease
release_lease-IsLeaseTable request c t = elim (Option-cases (get request.lease_id c.app.leases)) [
  | inl e ↦ rw (e, release_lease) (rw (send-app _ _) t)
  | inr (l, e) ↦
      rw (e, release_lease)
        (rw (send-app _ _) (remove-IsLeaseTable request.lease_id c.app.leases t))
]

-- After `release_lease` the lease is not in the table and every other one is as it was, whether it
-- was there or not; the client gets an acknowledgement just when it was there.
pub release_lease_lem :
    (request : ReleaseLeaseRequest) (c : Served)
    → 0 < c.sink.room
    → let c' = (release_lease request c).1 in
      ((k : LeaseId)
        → get k c'.app.leases ≡ ite (text_dec request.lease_id k) none (get k c.app.leases))
      × ((l : LeaseRecord)
          → get request.lease_id c.app.leases ≡ some l
          → c'.sink.written ≡ c.sink.written ++ ClientResponse.ack ∷ [])
      × (get request.lease_id c.app.leases ≡ none
          → (message : Text) × (c'.sink.written
              ≡ c.sink.written ++ ClientResponse.error message ∷ []))
unfolding release_lease
release_lease_lem request c room = elim (Option-cases (get request.lease_id c.app.leases)) [
  | inl e ↦
      rw (e, release_lease) (rw (send_open _ c room) (λ k. ground arith, λ l h. cc, λ _. (_, refl)))
  | inr (l, e) ↦
      let rest = remove request.lease_id c.app.leases in
      let released : Served = record c { app = record c.app { leases = rest } } in
      rw (e, release_lease)
        (rw (send_open ClientResponse.ack released room)
          (λ k. get-remove request.lease_id k c.app.leases, λ _ _. refl, λ h. cc))
]
