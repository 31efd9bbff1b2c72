-- ===== src/Coordinator/LeaseTable.antt =====
-- crates/coordinator/src/main.rs: what the table of leases promises: no node is in an exclusive
-- lease and in another lease too.
use multinode_controller.Base.{
  ◌≡◌, refl, ap, inl, inr, Bool, true, false, ◌&&◌, ◌||◌, List, [], ◌∷◌, none, some, Map, get,
  insert, remove, values, any, is_empty, All, Pairs, All-map, All-insert, All-remove, Pairs-insert,
  Pairs-remove, arith, Bool-cases, Option-cases,
}
use multinode_controller.Protocol.{NodeId, LeaseId}
use multinode_controller.Coordinator.State.{WorkerHandle, LeaseRecord, AppState}
use multinode_controller.Coordinator.Leases.{
  contains, contains_key, missing_node, overlaps, conflicting_lease,
}

-- Two leases on one node are both shared ones.
abbrev pub Compatible : LeaseRecord → LeaseRecord → Type 0
Compatible a b =
    (n : NodeId)
    → contains a.nodes n ≡ true
    → contains b.nodes n ≡ true
    → (a.exclusive ≡ false) × (b.exclusive ≡ false)

-- Each entry stands under its own identifier.
abbrev pub Keyed : LeaseId × LeaseRecord → Type 0
Keyed e = (e.1.lease_id ≡ e.0) × (is_empty e.1.nodes ≡ false)

pub record IsLeaseTable (m : Map LeaseRecord) : Type 0 where
  pub compatible : Pairs (λ (a b : LeaseId × LeaseRecord). Compatible a.1 b.1) m
  pub keyed : All Keyed m

any-contains :
    (p : NodeId → Bool) (xs : List NodeId) (n : NodeId)
    → contains xs n ≡ true
    → p n ≡ true
    → any p xs ≡ true
unfolding contains any
any-contains p [] n h e = cc
any-contains p (x ∷ xs) n h e = ground (arith, any-contains p xs n, ap p)

no_conflict :
    (selected : List NodeId) (exclusive : Bool) (a : LeaseRecord) (b : LeaseRecord) (n : NodeId)
    → (overlaps selected a && (a.exclusive || exclusive)) ≡ false
    → contains a.nodes n ≡ true
    → contains selected n ≡ true
    → (a.exclusive ≡ false) × (exclusive ≡ false)
unfolding overlaps
no_conflict selected exclusive a b n h in_a in_b =
    ground (arith, any-contains (λ m. contains a.nodes m) selected n in_b in_a)

pub granted-Compatible :
    (new : LeaseRecord) (m : Map LeaseRecord)
    → conflicting_lease new.nodes new.exclusive (values m) ≡ none
    → All (λ (e : LeaseId × LeaseRecord). Compatible e.1 new) m
unfolding conflicting_lease
granted-Compatible new [] h = tt
granted-Compatible new ((k, l) ∷ m) h =
    elim (Bool-cases (overlaps new.nodes l && (l.exclusive || new.exclusive))) [
      | inl e ↦ absurd (ground arith)
      | inr e ↦ (
        λ n in_l in_new. no_conflict new.nodes new.exclusive l new n e in_l in_new,
        granted-Compatible new m (ground arith),
      )
    ]

any-witness :
    (p : NodeId → Bool) (xs : List NodeId)
    → any p xs ≡ true
    → (n : NodeId) × (contains xs n ≡ true) × (p n ≡ true)
unfolding any contains
any-witness p [] h = cc
any-witness p (x ∷ xs) h = elim (Bool-cases (p x)) [
  | inl e ↦ (x, ground arith, e)
  | inr e ↦ let (n, i, q) = any-witness p xs (ground arith) in (n, ground arith, q)
]

overlaps-Compatible :
    (new l : LeaseRecord)
    → Compatible l new
    → (overlaps new.nodes l && (l.exclusive || new.exclusive)) ≡ false
unfolding overlaps
overlaps-Compatible new l h = elim (Bool-cases (any (λ n. contains l.nodes n) new.nodes)) [
  | inl e ↦
      let (n, i, j) = any-witness (λ n. contains l.nodes n) new.nodes e in ground (arith, h n j i)
  | inr e ↦ ground arith
]

pub Compatible-granted :
    (new : LeaseRecord) (m : Map LeaseRecord)
    → All (λ (e : LeaseId × LeaseRecord). Compatible e.1 new) m
    → conflicting_lease new.nodes new.exclusive (values m) ≡ none
unfolding conflicting_lease
Compatible-granted new [] h = refl
Compatible-granted new ((k, l) ∷ m) h =
    rw (overlaps-Compatible new l h.0) (Compatible-granted new m h.1)

abbrev pub IsConnected : AppState → NodeId → Type 0
IsConnected app n = (w : WorkerHandle) × (get n app.nodes ≡ some w)

pub missing-IsConnected :
    (app : AppState) (ns : List NodeId)
    → (missing_node app.nodes ns ≡ none → All (IsConnected app) ns)
      × (All (IsConnected app) ns → missing_node app.nodes ns ≡ none)
unfolding missing_node contains_key
missing-IsConnected app [] = (λ h. tt, λ h. refl)
missing-IsConnected app (n ∷ ns) = elim (Option-cases (get n app.nodes)) [
  | inl e ↦ (λ h. absurd (ground arith), λ h. absurd (ground (arith, h.0.1)))
  | inr (w, e) ↦
      let (to, from) = missing-IsConnected app ns in
      (λ h. ((w, e), to (ground arith)), λ h. ground (arith, from h.1))
]

pub insert-IsLeaseTable :
    (new : LeaseRecord) (m : Map LeaseRecord)
    → conflicting_lease new.nodes new.exclusive (values m) ≡ none
    → is_empty new.nodes ≡ false
    → IsLeaseTable m
    → IsLeaseTable (insert new.lease_id new m)
insert-IsLeaseTable new m h ne t = record {
  compatible =
      Pairs-insert (λ (a b : LeaseId × LeaseRecord). Compatible a.1 b.1) new.lease_id new m
        (granted-Compatible new m h)
        (All-map (λ (e : LeaseId × LeaseRecord). Compatible e.1 new)
          (λ (e : LeaseId × LeaseRecord). Compatible new e.1)
          (λ e c n in_new in_e. let (a, b) = c n in_e in_new in (b, a)) m
          (granted-Compatible new m h))
        t.compatible;
  keyed = All-insert Keyed new.lease_id new m (refl, ne) t.keyed;
}

pub remove-IsLeaseTable :
    (k : LeaseId) (m : Map LeaseRecord) → IsLeaseTable m → IsLeaseTable (remove k m)
remove-IsLeaseTable k m t = record {
  compatible = Pairs-remove (λ (a b : LeaseId × LeaseRecord). Compatible a.1 b.1) k m t.compatible;
  keyed = All-remove Keyed k m t.keyed;
}
