-- ===== src/Lookup/Answer.antt =====
-- src/lookup.rs: what a search keeps through its turns, and what it answers.
use kademlia_packet_manager.Prelude.{
  ℕ, zero, suc, ◌-◌, ◌≤◌, ◌≡◌, ◌≢◌, refl, sym, List, [], ◌∷◌, ◌++◌, length, All, All-append,
  All-take, arith, Bool-cases, Option-cases, inl, inr, length-take, subst,
}
use kademlia_packet_manager.Prelude.Sort.{
  sort_by, dedup_by_key, All-sort_by, All-dedup_by_key, IsAscending-take, sort_by-IsSorted,
}
use kademlia_packet_manager.CloseNodes.{
  NodeId, Contact, CloseNodes, IsId, k, id_discrete, by_distance,
}
use kademlia_packet_manager.CloseNodes.Distance.{by_distance-IsOrder}
use kademlia_packet_manager.CloseNodes.Nearest.{
  IsNearestFirst, merged-IsNearestFirst, sort_by-IsDistinct, distinct_sorted-IsNearestFirst,
  IsNearestFirst-IsDistinct,
}
use kademlia_packet_manager.CloseNodes.Contract.{IsAnswer, IsRouting}
use kademlia_packet_manager.Package.{is_key}
use kademlia_packet_manager.VersionChain.Spec.{is_key-false}
use kademlia_packet_manager.Rpc.{Wire, Rpc, Local, find_node}
use kademlia_packet_manager.Rpc.Table.{IsSound, Keeps, find_node-Keeps, find_node-IsId}
use kademlia_packet_manager.Lookup.{
  alpha, lookup_fuel, Search, next_unqueried, fill, take_one, without_id, offer_all, merge, turn,
  search, first_search, final_search, lookup_node,
}

pub All-without_id :
    (P : Contact → Type 0) (my_id : NodeId) (cs : List Contact)
    → All P cs
    → All P (without_id my_id cs)
unfolding without_id
All-without_id P my_id [] h = tt
All-without_id P my_id (c ∷ cs) h = ground (arith, All-without_id P my_id cs)

pub without_id-gone :
    (my_id : NodeId) (cs : List Contact) → All (λ c. c.id ≢ my_id) (without_id my_id cs)
unfolding without_id
without_id-gone my_id [] = tt
without_id-gone my_id (c ∷ cs) = elim (Bool-cases (is_key c.id my_id)) [
  | inl me ↦ rw (me, without_id) (without_id-gone my_id cs)
  | inr other ↦ rw (other, without_id) (is_key-false c.id my_id other, without_id-gone my_id cs)
]

pub offer_all-Inv :
    {S : Type 0} (table : CloseNodes S) (my_id : NodeId) (Inv : S → Type 0)
    → IsRouting table my_id Inv
    → (s : S) (cs : List Contact) → All (λ c. IsId c.id) cs
    → Inv s
    → Inv (offer_all table s cs)
unfolding offer_all
offer_all-Inv table my_id Inv routing s [] h v = v
offer_all-Inv table my_id Inv routing s (c ∷ cs) h v =
    offer_all-Inv table my_id Inv routing (table.maybe_add_contact s c) cs h.1
      (routing.maybe_add_contact-Inv s c h.0 v)

-- What candidates and new contacts have in common, the merged candidates have.
pub All-merge :
    (P : Contact → Type 0) (target : NodeId) (cs new : List Contact)
    → All P cs
    → All P new
    → All P (merge target cs new)
unfolding merge
All-merge P target cs new h g = All-take P k _ (
    All-dedup_by_key (λ c. c.id) id_discrete P _
      (All-sort_by (by_distance target) P (cs ++ new) (All-append P cs new h g)))

pub merge-IsNearestFirst :
    (target : NodeId) (cs new : List Contact)
    → IsId target
    → All (λ c. IsId c.id) cs
    → All (λ c. IsId c.id) new
    → IsNearestFirst target (merge target cs new)
unfolding merge
merge-IsNearestFirst target cs new t h g =
    IsAscending-take (by_distance target) k _
      (merged-IsNearestFirst target (cs ++ new) t (All-append _ cs new h g))

pub length-merge : (target : NodeId) (cs new : List Contact) → length (merge target cs new) ≤ k
unfolding merge
length-merge target cs new = omega (
  arith,
  length-take k (dedup_by_key (λ c. c.id) id_discrete (sort_by (by_distance target) (cs ++ new))),
)

pub fill-candidates : (slots : ℕ) (q : Search) → (fill slots q).candidates ≡ q.candidates
unfolding fill
fill-candidates zero q = refl
fill-candidates (suc slots) q = elim (Option-cases (next_unqueried q.queried q.candidates)) [
  | inl done ↦ rw (done, fill) refl
  | inr (next, found) ↦ rw (found, fill) (fill-candidates slots _)
]

module _ (wire : Wire) {S : Type 0} (rpc : Rpc S) (Inv : S → Type 0) (sound : IsSound rpc Inv)
    (target : NodeId) (target_id : IsId target) where
  abbrev IsCandidates : List Contact → Type 0
  IsCandidates = IsAnswer rpc.my_contact.id target

  pub turn-Keeps :
      (s : Local S rpc.World) (q : Search) (peer : Contact) (others : List Contact)
      → Keeps wire rpc Inv sound s
      → Keeps wire rpc Inv sound (turn wire rpc target s q peer others).0
  unfolding turn
  turn-Keeps s q peer others v =
      offer_all-Inv rpc.close_nodes rpc.my_contact.id Inv sound.routing _ _
        (All-without_id (λ c. IsId c.id) rpc.my_contact.id _
          (find_node-IsId wire rpc Inv sound s peer target))
        (find_node-Keeps wire rpc Inv sound s peer target v)

  pub turn-IsAnswer :
      (s : Local S rpc.World) (q : Search) (peer : Contact) (others : List Contact)
      → IsCandidates q.candidates
      → IsCandidates (turn wire rpc target s q peer others).1.candidates
  unfolding turn
  turn-IsAnswer s q peer others a =
      let reply = (find_node wire rpc s peer target).1 in
      let new = without_id rpc.my_contact.id reply in
      let ids =
        All-without_id (λ c. IsId c.id) rpc.my_contact.id reply
          (find_node-IsId wire rpc Inv sound s peer target) in
      record {
        nearest_first = merge-IsNearestFirst target q.candidates new target_id a.well_formed ids;
        bounded = length-merge target q.candidates new;
        well_formed = All-merge _ target q.candidates new a.well_formed ids;
        not_self =
            All-merge _ target q.candidates new a.not_self
              (without_id-gone rpc.my_contact.id reply);
      }

  search-IsAnswer :
      (fuel : ℕ) (s : Local S rpc.World) (q : Search)
      → Keeps wire rpc Inv sound s
      → IsCandidates q.candidates
      → Keeps wire rpc Inv sound (search wire rpc fuel target s q).0
        × IsCandidates (search wire rpc fuel target s q).1.candidates
  unfolding search
  search-IsAnswer zero s q v a = (v, a)
  search-IsAnswer (suc fuel) s q v a =
      let filled = fill (alpha - length q.in_flight) q in
      let same = fill-candidates (alpha - length q.in_flight) q in
      let a' : IsCandidates filled.candidates = subst IsCandidates (sym same) a in
      elim (Option-cases (take_one (rpc.first_to_end s.world) filled.in_flight)) [
        | inl settled ↦ rw (settled, search) (v, a')
        | inr ((peer, others), running) ↦
            rw (running, search)
              (search-IsAnswer fuel (turn wire rpc target s filled peer others).0
                (turn wire rpc target s filled peer others).1 (turn-Keeps s filled peer others v)
                (turn-IsAnswer s filled peer others a'))
      ]

  pub first_search-IsAnswer :
      (s : Local S rpc.World)
      → Keeps wire rpc Inv sound s
      → Keeps wire rpc Inv sound (first_search wire rpc target s).0
        × IsCandidates (first_search wire rpc target s).1.candidates
  unfolding first_search
  first_search-IsAnswer s v =
      let now = rpc.now s.world in
      let a = sound.routing.close_nodes-IsAnswer now s.table target target_id v in
      let known = (rpc.close_nodes.close_nodes now s.table target).1 in
      let cmp = by_distance target in
      (
        sound.routing.close_nodes-Inv now s.table target target_id v,
        record {
          nearest_first = IsAscending-take cmp k _ (
              distinct_sorted-IsNearestFirst target (sort_by cmp known) target_id
                (All-sort_by cmp _ known a.well_formed)
                (sort_by-IsDistinct target known
                  (IsNearestFirst-IsDistinct target known a.nearest_first))
                (sort_by-IsSorted cmp (by_distance-IsOrder target) known));
          bounded = omega (arith, length-take k (sort_by cmp known));
          well_formed = All-take _ k _ (All-sort_by cmp _ known a.well_formed);
          not_self = All-take _ k _ (All-sort_by cmp _ known a.not_self);
        },
      )

  -- Whatever the network answers and in whatever order, a lookup keeps the invariant of the routing
  -- table, and finds at most `k` contacts, strictly nearest first, with ids of 32 bytes, never the node
  -- itself.
  pub lookup_node-IsAnswer :
      (s : Local S rpc.World)
      → Keeps wire rpc Inv sound s
      → Keeps wire rpc Inv sound (lookup_node wire rpc s target).0
        × IsAnswer rpc.my_contact.id target (lookup_node wire rpc s target).1
  unfolding lookup_node final_search
  lookup_node-IsAnswer s v =
      let (kept, a) = first_search-IsAnswer s v in
      search-IsAnswer lookup_fuel (first_search wire rpc target s).0
        (first_search wire rpc target s).1 kept a
