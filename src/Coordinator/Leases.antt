-- ===== src/Coordinator/Leases.antt =====
-- crates/coordinator/src/main.rs: `create_lease`, `list_leases` and `release_lease`. The new
-- identifier and the time are arguments.
use multinode_controller.Base.{
  Bool, true, false, ◌&&◌, ◌||◌, if◌then◌else◌, List, [], ◌∷◌, ◌++◌, map, Option, none, some, bytes,
  eq_text, Map, get, insert, remove, keys, values, length, take, any, is_empty,
}
use Prim.Native.Nat.{max}
use multinode_controller.Protocol.{
  NodeId, LeaseId, DateTime, CreateLeaseRequest, ReleaseLeaseRequest, ClientResponse,
}
use multinode_controller.Coordinator.State.{WorkerHandle, LeaseRecord, Handler, summary, send}

-- `Vec::contains`.
unfoldable pub contains : List NodeId → NodeId → Bool
contains nodes node_id = any (λ n. eq_text n node_id) nodes

unfoldable pub contains_key : Map WorkerHandle → NodeId → Bool
contains_key nodes node_id = elim (get node_id nodes) [ none ↦ false | some node ↦ true ]

-- The nodes that a request is for: those that it names, or the first `count` of the map.
unfoldable pub lease_nodes : CreateLeaseRequest → Map WorkerHandle → List NodeId
lease_nodes request nodes =
    if is_empty request.nodes
    then take (max (elim request.count [ none ↦ length nodes | some n ↦ n ]) 1) (keys nodes)
    else request.nodes

-- The first loop: a node that is not connected.
unfoldable pub missing_node : Map WorkerHandle → List NodeId → Option NodeId
missing_node nodes [] = none
missing_node nodes (n ∷ ns) = if contains_key nodes n then missing_node nodes ns else some n

unfoldable pub overlaps : List NodeId → LeaseRecord → Bool
overlaps selected lease = any (λ n. contains lease.nodes n) selected

-- The second loop: a lease in the way.
unfoldable pub conflicting_lease : List NodeId → Bool → List LeaseRecord → Option LeaseRecord
conflicting_lease selected exclusive [] = none
conflicting_lease selected exclusive (l ∷ ls) =
    if overlaps selected l && (l.exclusive || exclusive)
    then some l
    else conflicting_lease selected exclusive ls

unfoldable pub new_lease : CreateLeaseRequest → LeaseId → DateTime → List NodeId → LeaseRecord
new_lease request lease_id now selected = record {
  lease_id = lease_id;
  nodes = selected;
  gpus_per_node = request.gpus_per_node;
  exclusive = request.exclusive;
  created_at = now;
}

unfoldable pub grant_lease : LeaseRecord → Handler (Unit {0})
grant_lease lease c =
    send (ClientResponse.lease_created (summary lease))
      (record c { app = record c.app { leases = insert lease.lease_id lease c.app.leases } })

unfoldable pub refuse_no_nodes : Handler (Unit {0})
refuse_no_nodes = send (ClientResponse.error (bytes "no connected nodes are available for a lease"))

unfoldable pub refuse_missing : NodeId → Handler (Unit {0})
refuse_missing node_id =
    send (ClientResponse.error (bytes "node " ++ (node_id ++ bytes " is not connected")))

unfoldable pub refuse_overlap : LeaseRecord → Handler (Unit {0})
refuse_overlap lease =
    send
      (ClientResponse.error (bytes "requested nodes overlap with active lease " ++ lease.lease_id))

unfoldable pub create_lease : CreateLeaseRequest → LeaseId → DateTime → Handler (Unit {0})
create_lease request lease_id now c =
    let selected = lease_nodes request c.app.nodes in
    if is_empty selected then refuse_no_nodes c else elim (missing_node c.app.nodes selected) [
      | some node_id ↦ refuse_missing node_id c
      | none ↦ elim (conflicting_lease selected request.exclusive (values c.app.leases)) [
        | some lease ↦ refuse_overlap lease c
        | none ↦ grant_lease (new_lease request lease_id now selected) c
      ]
    ]

unfoldable pub list_leases : Handler (Unit {0})
list_leases c = send (ClientResponse.leases (map summary (values c.app.leases))) c

unfoldable pub release_lease : ReleaseLeaseRequest → Handler (Unit {0})
release_lease request c = elim (get request.lease_id c.app.leases) [
  | some lease ↦
      send ClientResponse.ack
        (record c { app = record c.app { leases = remove request.lease_id c.app.leases } })
  | none ↦
      send (ClientResponse.error (bytes "lease " ++ (request.lease_id ++ bytes " was not found"))) c
]
