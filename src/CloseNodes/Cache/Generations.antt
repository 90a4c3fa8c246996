-- ===== src/CloseNodes/Cache/Generations.antt =====
-- The entries of the cache through its operations.
use kademlia_packet_manager.Prelude.{
  ℕ, ◌-◌, max, if_ind, ltb, not, ◌≤◌, ◌<◌, ◌≡◌, ◌⊎◌, ◌∙◌, refl, sym, none, some, List, Bool-cases,
  Option-cases, inl, inr, arith, subst,
}
use kademlia_packet_manager.DashMap.{DashMap}
use kademlia_packet_manager.CloseNodes.{NodeId, Contact, CloseNodes, id_discrete}
use kademlia_packet_manager.CloseNodes.Cache.{
  Entry, CachedCloseNodes, make_room, is_fresh, compute, close_nodes,
}

module _ (map : DashMap NodeId Entry) where
  -- Every entry satisfies `P`.
  abbrev pub AllEntries : (NodeId → Entry → Type 0) → map.Map → Type 0
  AllEntries P m = (id : NodeId) (e : Entry) → map.get m id ≡ some e → P id e

  pub AllEntries-empty : (P : NodeId → Entry → Type 0) → AllEntries P map.empty
  AllEntries-empty P id e h =
      let none_there : map.get map.empty id ≡ none = map.get-empty id in cc (none_there, h)

  pub AllEntries-insert :
      (P : NodeId → Entry → Type 0) (m : map.Map) (id : NodeId) (e : Entry)
      → AllEntries P m
      → P id e
      → AllEntries P (map.insert m id e)
  AllEntries-insert P m id e h p id' e' found = elim (id_discrete id' id) [
    | yes same ↦
        let found' : map.get (map.insert m id e) id ≡ some e' =
          subst (λ i. map.get (map.insert m id e) i ≡ some e') same found in
        let here : map.get (map.insert m id e) id ≡ some e = map.get-insert m id e in
        let eq : e ≡ e' = cc (here, found') in subst (λ i. P i e') (sym same) (subst (P id) eq p)
    | no n ↦ h id' e' (sym (map.get-insert_ne m id id' e n) ∙ found)
  ]

  module _ {C : Type 0} where
    pub make_room-AllEntries :
        (P : NodeId → Entry → Type 0) (now : ℕ) (s : CachedCloseNodes map C) (g : ℕ)
        → AllEntries P s.entries
        → AllEntries P (make_room map now s g)
    unfolding make_room
    make_room-AllEntries P now s g h =
        let kept = map.retain s.entries (λ id entry. is_fresh map now s entry g) in
        if_ind (AllEntries P) (ltb (map.len s.entries) s.capacity) h (
          if_ind (AllEntries P) (not (ltb (map.len kept) s.capacity)) {y = kept}
            (AllEntries-empty P) (λ id e found. h id e (map.get-retain s.entries _ id e found)))

    make_room-len :
        (now : ℕ) (s : CachedCloseNodes map C) (g : ℕ)
        → (map.len (make_room map now s g) < s.capacity) ⊎ (map.len (make_room map now s g) ≡ 0)
    unfolding make_room
    make_room-len now s g = ground (arith, map.len-empty)

    module _ (layer : CloseNodes C) where
      -- An answer is a fresh entry's, or is computed.
      pub data Answered (now : ℕ) (s : CachedCloseNodes map C) (id : NodeId)
          (r : CachedCloseNodes map C × List Contact) : Type 0 where
        kept :
            (e : Entry)
            → map.get s.entries id ≡ some e
            → e.generation ≡ s.generation
            → now - e.stored < s.ttl
            → r ≡ (s, e.contacts)
            → Answered now s id r
        computed : r ≡ compute map layer now s id → Answered now s id r

      pub close_nodes-Answered :
          (now : ℕ) (s : CachedCloseNodes map C) (id : NodeId)
          → Answered now s id (close_nodes map layer now s id)
      unfolding close_nodes
      close_nodes-Answered now s id = elim (Option-cases (map.get s.entries id)) [
        | inl absent ↦ computed (rw (absent, close_nodes) refl)
        | inr (e, found) ↦ elim (Bool-cases (is_fresh map now s e s.generation)) [
          | inl fresh ↦
              let both : (e.generation ≡ s.generation) × (now - e.stored < s.ttl) =
                (unfold is_fresh in ground arith) in
              kept e found both.0 both.1 (rw (found, close_nodes, fresh) refl)
          | inr stale ↦ computed (rw (found, close_nodes, stale) refl)
        ]
      ]

      -- What holds of the entries and of the new one holds of the entries after a call.
      pub compute-AllEntries :
          (P : NodeId → Entry → Type 0) (now : ℕ) (s : CachedCloseNodes map C) (id : NodeId)
          → AllEntries P s.entries
          → P id (record {
            contacts = (layer.close_nodes now s.inner id).1;
            generation = s.generation;
            stored = now;
          })
          → AllEntries P (compute map layer now s id).0.entries
      unfolding compute
      compute-AllEntries P now s id h p =
          AllEntries-insert P _ id _ (make_room-AllEntries P now s s.generation h) p

      -- If the map holds at most `capacity` entries, or one where that is 0, then so it does after a
      -- call.
      pub close_nodes-len :
          (now : ℕ) (s : CachedCloseNodes map C) (id : NodeId)
          → map.len s.entries ≤ max s.capacity 1
          → map.len (close_nodes map layer now s id).0.entries ≤ max s.capacity 1
      close_nodes-len now s id h = elim (close_nodes-Answered now s id) [
        | kept e found g young made ↦
            subst (λ r. map.len r.0.entries ≤ max s.capacity 1) (sym made) h
        | computed made ↦
            subst (λ r. map.len r.0.entries ≤ max s.capacity 1) (sym made)
              (unfold compute in
                omega (
                  arith,
                  make_room-len now s s.generation,
                  map.len-insert (make_room map now s s.generation) id (record {
                    contacts = (layer.close_nodes now s.inner id).1;
                    generation = s.generation;
                    stored = now;
                  }),
                ))
      ]
