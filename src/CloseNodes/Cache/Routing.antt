-- ===== src/CloseNodes/Cache/Routing.antt =====
-- The cache over a routing table is a routing table, and keeps its map small.
use kademlia_packet_manager.Prelude.{ℕ, ◌≤◌, sym, subst, List, arith, max}
use kademlia_packet_manager.DashMap.{DashMap}
use kademlia_packet_manager.CloseNodes.{NodeId, Contact, CloseNodes, IsId}
use kademlia_packet_manager.CloseNodes.Contract.{IsAnswer, IsRouting}
use kademlia_packet_manager.CloseNodes.Cache.{
  Entry, CachedCloseNodes, ttl_only, cached, compute, close_nodes, maybe_add_contact,
  remove_contact,
}
use kademlia_packet_manager.CloseNodes.Cache.Generations.{
  AllEntries, AllEntries-empty, kept, computed, close_nodes-Answered, compute-AllEntries,
  close_nodes-len,
}

module _ (map : DashMap NodeId Entry) {C : Type 0} (layer : CloseNodes C) (my_id : NodeId)
    (Inv : C → Type 0) (routing : IsRouting layer my_id Inv) where
  abbrev IsKept : NodeId → Entry → Type 0
  IsKept id e = IsAnswer my_id id e.contacts

  -- Every entry is a proper answer to its key, and the map is within its capacity.
  pub record IsValid (s : CachedCloseNodes map C) : Type 0 where
    pub inner_Inv : Inv s.inner
    pub entries_IsAnswer : AllEntries map IsKept s.entries
    pub bounded : map.len s.entries ≤ max s.capacity 1

  -- The state after a call and its answer.
  Good : NodeId → CachedCloseNodes map C × List Contact → Type 0
  Good id r = IsValid r.0 × IsAnswer my_id id r.1

  close_nodes-Good :
      (now : ℕ) (s : CachedCloseNodes map C) (id : NodeId)
      → IsId id
      → IsValid s
      → Good id (close_nodes map layer now s id)
  unfolding Good
  close_nodes-Good now s id w v = elim (close_nodes-Answered map layer now s id) [
    | kept e found g young made ↦ subst (Good id) (sym made) (v, v.entries_IsAnswer id e found)
    | computed made ↦
        let a = routing.close_nodes-IsAnswer now s.inner id w v.inner_Inv in
        let bound : map.len (compute map layer now s id).0.entries ≤ max s.capacity 1 =
          subst (λ r. map.len r.0.entries ≤ max s.capacity 1) made
            (close_nodes-len map layer now s id v.bounded) in
        let entries = compute-AllEntries map layer IsKept now s id v.entries_IsAnswer a in
        subst (Good id) (sym made) (
          unfold compute in
          (
            record {
              inner_Inv = routing.close_nodes-Inv now s.inner id w v.inner_Inv;
              entries_IsAnswer = entries;
              bounded = bound;
            },
            a,
          ))
  ]

  -- The cache, in either mode, over a routing table is a routing table: every method keeps the
  -- invariant, and every answer, also one from the map, is as promised.
  pub cached-IsRouting : IsRouting (cached map layer) my_id IsValid
  unfolding cached maybe_add_contact remove_contact Good
  cached-IsRouting = record {
    close_nodes-Inv = λ now s id w v. (close_nodes-Good now s id w v).0;
    close_nodes-IsAnswer = λ now s id w v. (close_nodes-Good now s id w v).1;
    maybe_add_contact-Inv = λ s c w v. record {
      inner_Inv = routing.maybe_add_contact-Inv s.inner c w v.inner_Inv;
      entries_IsAnswer = v.entries_IsAnswer;
      bounded = v.bounded;
    };
    remove_contact-Inv = λ s c v. record {
      inner_Inv = routing.remove_contact-Inv s.inner c v.inner_Inv;
      entries_IsAnswer = v.entries_IsAnswer;
      bounded = v.bounded;
    };
  }

  -- The state that a constructor makes.
  pub ttl_only-IsValid :
      (inner : C) (ttl capacity : ℕ) → Inv inner → IsValid (ttl_only map inner ttl capacity)
  unfolding ttl_only
  ttl_only-IsValid inner ttl capacity v = record {
    inner_Inv = v;
    entries_IsAnswer = AllEntries-empty map IsKept;
    bounded = omega (arith, map.len-empty);
  }
