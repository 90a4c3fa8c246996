-- ===== src/Lookup.antt =====
-- src/lookup.rs, `lookup_node`: the search for the contacts nearest to a target. A call in flight is
-- carried out as a whole when its future ends, which one ends first being the world's choice.
pub mod Answer
pub mod Termination
pub mod Merge
pub mod Values
pub mod Found
pub mod Verified
pub mod Reaches
pub mod Calls
pub mod Stored
use kademlia_packet_manager.Prelude.{
  ℕ, zero, suc, ◌+◌, ◌-◌, ◌*◌, ◌^◌, Option, none, some, List, [], ◌∷◌, ◌++◌, length, take,
  if◌then◌else◌,
}
use kademlia_packet_manager.Prelude.Sort.{sort_by, dedup_by_key}
use kademlia_packet_manager.CloseNodes.{
  NodeId, Contact, CloseNodes, k, id_bytes, id_discrete, by_distance, xor_distance_cmp,
}
use kademlia_packet_manager.Package.{is_key}
use kademlia_packet_manager.Rpc.{Wire, Rpc, Local, has_id, insert_id, find_node}

-- How many calls a lookup keeps in flight.
abbrev pub alpha : ℕ
alpha = 3

-- More turns than there are ids of 32 bytes: each turn ends a call, and no id is called twice.
unfoldable pub lookup_fuel : ℕ
lookup_fuel = suc (256 ^ id_bytes)

-- The variables of the loop.
pub record Search : Type 0 where
  pub candidates : List Contact
  pub queried : List NodeId
  pub in_flight : List Contact

-- `candidates.iter().find(|contact| !queried.contains(&contact.id))`
unfoldable pub next_unqueried : List NodeId → List Contact → Option Contact
unfolding has_id
next_unqueried queried [] = none
next_unqueried queried (c ∷ cs) = if has_id c.id queried then next_unqueried queried cs else some c

-- The inner loop, for the slots that are free.
unfoldable pub fill : ℕ → Search → Search
unfolding next_unqueried insert_id
fill zero q = q
fill (suc slots) q = elim (next_unqueried q.queried q.candidates) [
  | none ↦ q
  | some next ↦ fill slots (record {
    candidates = q.candidates;
    queried = insert_id next.id q.queried;
    in_flight = q.in_flight ++ next ∷ [];
  })
]

-- One of those in flight, and the others.
unfoldable pub take_one : ℕ → List Contact → Option (Contact × List Contact)
take_one n [] = none
take_one zero (c ∷ cs) = some (c, cs)
take_one (suc n) (c ∷ cs) = elim (take_one n cs) [
  | none ↦ some (c, cs)
  | some found ↦ some (found.0, c ∷ found.1)
]

-- `retain(|c| c.id != my_id)`
unfoldable pub without_id : NodeId → List Contact → List Contact
without_id my_id [] = []
without_id my_id (c ∷ cs) =
    if is_key c.id my_id then without_id my_id cs else c ∷ without_id my_id cs

unfoldable pub offer_all : {S : Type 0} → CloseNodes S → S → List Contact → S
offer_all table s [] = s
offer_all table s (c ∷ cs) = offer_all table (table.maybe_add_contact s c) cs

-- The candidates after new contacts: all of them sorted, each id once, and the `k` closest.
unfoldable pub merge : NodeId → List Contact → List Contact → List Contact
unfolding sort_by dedup_by_key xor_distance_cmp id_discrete
merge target candidates contacts =
    take k
      (dedup_by_key (λ c. c.id) id_discrete (sort_by (by_distance target) (candidates ++ contacts)))

module _ (wire : Wire) {S : Type 0} (rpc : Rpc S) where
  -- The call to `peer` ends.
  unfoldable pub turn :
      NodeId → Local S rpc.World → Search → Contact → List Contact → Local S rpc.World × Search
  unfolding find_node without_id offer_all merge
  turn target s q peer others =
      let (s', reply) = find_node wire rpc s peer target in
      let contacts = without_id rpc.my_contact.id reply in
      (
        record { table = offer_all rpc.close_nodes s'.table contacts; world = s'.world },
        record {
          candidates = merge target q.candidates contacts;
          queried = q.queried;
          in_flight = others;
        },
      )

  -- The outer loop, with fuel. It ends by itself where nothing is in flight.
  unfoldable pub search : ℕ → NodeId → Local S rpc.World → Search → Local S rpc.World × Search
  unfolding fill take_one turn
  search zero target s q = (s, q)
  search (suc fuel) target s q =
      let filled = fill (alpha - length q.in_flight) q in
      elim (take_one (rpc.first_to_end s.world) filled.in_flight) [
        | none ↦ (s, filled)
        | some (peer, others) ↦
            let (s', q') = turn target s filled peer others in search fuel target s' q'
      ]

  -- The first candidates: what the routing table answers.
  unfoldable pub first_search : NodeId → Local S rpc.World → Local S rpc.World × Search
  unfolding sort_by xor_distance_cmp
  first_search target s =
      let (table, known) = rpc.close_nodes.close_nodes (rpc.now s.world) s.table target in
      (
        record { table = table; world = s.world },
        record {
          candidates = take k (sort_by (by_distance target) known);
          queried = [];
          in_flight = [];
        },
      )

  unfoldable pub final_search : NodeId → Local S rpc.World → Local S rpc.World × Search
  unfolding first_search search
  final_search target s = let (s', q) = first_search target s in search lookup_fuel target s' q

  unfoldable pub lookup_node : Local S rpc.World → NodeId → Local S rpc.World × List Contact
  unfolding final_search
  lookup_node s target = let (s', q) = final_search target s in (s', q.candidates)
