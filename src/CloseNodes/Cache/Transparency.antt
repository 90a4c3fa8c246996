-- ===== src/CloseNodes/Cache/Transparency.antt =====
-- What a cached answer is worth: with `new` it is what the layer below would answer, and after a
-- removal it is so in both modes.
use kademlia_packet_manager.Prelude.{
  ℕ, ◌+◌, ◌≤◌, ◌<◌, ◌≡◌, ◌∙◌, refl, sym, ap, subst, true, List, [], ◌∷◌, length, arith,
}
use kademlia_packet_manager.DashMap.{DashMap}
use kademlia_packet_manager.CloseNodes.{NodeId, Contact, CloseNodes}
use kademlia_packet_manager.CloseNodes.Contract.{Call, run}
use kademlia_packet_manager.CloseNodes.Contract.Call.{
  close_nodes, maybe_add_contact, remove_contact,
}
use kademlia_packet_manager.CloseNodes.Cache
use kademlia_packet_manager.CloseNodes.Cache.{
  Entry, CachedCloseNodes, new, ttl_only, cached, compute, fetch_add, u64_values,
}
use kademlia_packet_manager.CloseNodes.Cache.Generations.{
  AllEntries, AllEntries-empty, kept, computed, close_nodes-Answered, compute-AllEntries,
}

pub fetch_add_lem : (g : ℕ) → g + 1 < u64_values → fetch_add g ≡ g + 1
unfolding fetch_add
fetch_add_lem g h = omega arith

module _ (map : DashMap NodeId Entry) {C : Type 0} (layer : CloseNodes C) where
  -- No entry is of a later generation than the counter.
  abbrev pub IsOld : CachedCloseNodes map C → Type 0
  IsOld s = AllEntries map (λ id e. e.generation ≤ s.generation) s.entries

  close_nodes-IsOld :
      (now : ℕ) (s : CachedCloseNodes map C) (id : NodeId)
      → IsOld s
      → IsOld (Cache.close_nodes map layer now s id).0
  close_nodes-IsOld now s id old = elim (close_nodes-Answered map layer now s id) [
    | kept e found g young made ↦ subst (λ r. IsOld r.0) (sym made) old
    | computed made ↦
        subst (λ r. IsOld r.0) (sym made)
          (unfold compute in
            compute-AllEntries map layer (λ id e. e.generation ≤ s.generation) now s id old
              (omega arith))
  ]

  close_nodes-generation :
      (now : ℕ) (s : CachedCloseNodes map C) (id : NodeId)
      → (Cache.close_nodes map layer now s id).0.generation ≡ s.generation
  close_nodes-generation now s id = elim (close_nodes-Answered map layer now s id) [
    | kept e found g young made ↦ ap (λ r. r.0.generation) made
    | computed made ↦ unfold compute in ap (λ r. r.0.generation) made
  ]

  module _ (answer : C → NodeId → List Contact)
      (reads : (now : ℕ) (s : C) (id : NodeId)
        → layer.close_nodes now s id ≡ (s, answer s id)) where
    -- An entry of this generation holds what the layer below answers.
    abbrev pub IsCurrent : CachedCloseNodes map C → Type 0
    IsCurrent s =
        AllEntries map (λ id e. e.generation ≡ s.generation → e.contacts ≡ answer s.inner id)
          s.entries

    record Read (s : CachedCloseNodes map C) (id : NodeId)
        (r : CachedCloseNodes map C × List Contact) : Type 0 where
      answered : r.1 ≡ answer s.inner id
      current : IsCurrent r.0
      inner_same : r.0.inner ≡ s.inner
      mode_same : r.0.invalidate_on_write ≡ s.invalidate_on_write

    close_nodes-Read :
        (now : ℕ) (s : CachedCloseNodes map C) (id : NodeId)
        → IsCurrent s
        → Read s id (Cache.close_nodes map layer now s id)
    close_nodes-Read now s id c = elim (close_nodes-Answered map layer now s id) [
      | kept e found g young made ↦
          subst (Read s id) (sym made)
            (record { answered = c id e found g; current = c; inner_same = refl; mode_same = refl })
      | computed made ↦ subst (Read s id) (sym made) computed-Read
    ]
      where
        computed-Read : Read s id (compute map layer now s id)
        computed-Read =
            let inner : (layer.close_nodes now s.inner id).0 ≡ s.inner =
              ap (λ r. r.0) (reads now s.inner id) in
            let out : (layer.close_nodes now s.inner id).1 ≡ answer s.inner id =
              ap (λ r. r.1) (reads now s.inner id) in
            let entries =
              compute-AllEntries map layer
                (λ id e. e.generation ≡ s.generation → e.contacts ≡ answer s.inner id) now s id c
                (λ e. out) in
            unfold compute in
            record {
              answered = out;
              current = λ i e found g. entries i e found g ∙ ap (λ z. answer z i) (sym inner);
              inner_same = inner;
              mode_same = refl;
            }

    -- A write that moves the counter leaves no entry of the new generation.
    write-IsCurrent :
        (s : CachedCloseNodes map C) (inner : C) (g : ℕ)
        → IsOld s
        → g ≡ s.generation + 1
        → IsCurrent (record s { inner = inner; generation = g })
    write-IsCurrent s inner g old e id entry found same = absurd (omega (arith, old id entry found))

    write-IsOld :
        (s : CachedCloseNodes map C) (inner : C) (g : ℕ)
        → IsOld s
        → s.generation ≤ g
        → IsOld (record s { inner = inner; generation = g })
    write-IsOld s inner g old e id entry found = omega (arith, old id entry found)

    run-transparent :
        (calls : List Call) (s : CachedCloseNodes map C)
        → IsOld s
        → IsCurrent s
        → s.invalidate_on_write ≡ true
        → s.generation + length calls < u64_values
        → (run (cached map layer) calls s).1 ≡ (run layer calls s.inner).1
    unfolding run cached
    run-transparent [] s old c mode few = refl
    run-transparent (close_nodes now id ∷ calls) s old c mode few =
        let r = close_nodes-Read now s id c in
        let rest =
          run-transparent calls (Cache.close_nodes map layer now s id).0
            (close_nodes-IsOld now s id old) r.current (r.mode_same ∙ mode)
            (omega (arith, close_nodes-generation now s id)) in
        rw (r.answered, rest, r.inner_same, reads now s.inner id) refl
    run-transparent (maybe_add_contact x ∷ calls) s old c mode few =
        let inner = layer.maybe_add_contact s.inner x in
        let g = (Cache.maybe_add_contact map layer s x).generation in
        let moved : g ≡ s.generation + 1 =
          (unfold Cache.maybe_add_contact in
            rw (mode, fetch_add_lem s.generation (omega arith)) refl) in
        unfold Cache.maybe_add_contact in
        run-transparent calls (record s { inner = inner; generation = g })
          (write-IsOld s inner g old (omega (arith, moved))) (write-IsCurrent s inner g old moved)
          mode (omega (arith, moved))
    run-transparent (remove_contact x ∷ calls) s old c mode few =
        let inner = layer.remove_contact s.inner x in
        let moved = fetch_add_lem s.generation (omega arith) in
        unfold Cache.remove_contact in
        run-transparent calls (record s { inner = inner; generation = fetch_add s.generation })
          (write-IsOld s inner _ old (omega (arith, moved))) (write-IsCurrent s inner _ old moved)
          mode (omega (arith, moved))

    -- A cache made by `new`, over a layer whose answers change nothing and do not depend on the clock,
    -- gives through any calls the answers of the layer alone, whatever its time to live and capacity,
    -- as long as the calls are fewer than the values of the counter.
    pub new-transparent :
        (calls : List Call) (inner : C) (ttl capacity : ℕ)
        → length calls < u64_values
        → (run (cached map layer) calls (new map inner ttl capacity)).1 ≡ (run layer calls inner).1
    unfolding new
    new-transparent calls inner ttl capacity few =
        run-transparent calls (new map inner ttl capacity)
          (AllEntries-empty map (λ id e. e.generation ≤ 0))
          (AllEntries-empty map (λ id e. e.generation ≡ 0 → e.contacts ≡ answer inner id)) refl
          (omega (arith, few))

    remove_contact-close_nodes :
        (s : CachedCloseNodes map C) (c : Contact) (now : ℕ) (id : NodeId)
        → IsOld s
        → s.generation + 1 < u64_values
        → (Cache.close_nodes map layer now (Cache.remove_contact map layer s c) id).1
          ≡ answer (layer.remove_contact s.inner c) id
    unfolding Cache.remove_contact
    remove_contact-close_nodes s c now id old few =
        let moved = fetch_add_lem s.generation few in
        (close_nodes-Read now _ id (
          write-IsCurrent s (layer.remove_contact s.inner c) (fetch_add s.generation) old
            moved)).answered

    -- The counter after calls: no entry is ahead of it, and it moved by at most one for each.
    record Counted (n : ℕ) (s : CachedCloseNodes map C) : Type 0 where
      old : IsOld s
      moved : s.generation ≤ n

    run-Counted :
        (calls : List Call) (s : CachedCloseNodes map C) (n : ℕ)
        → Counted n s
        → n + length calls < u64_values
        → Counted (n + length calls) (run (cached map layer) calls s).0
    unfolding run cached
    run-Counted [] s n v few = record { old = v.old; moved = omega (arith, v.moved) }
    run-Counted (close_nodes now id ∷ calls) s n v few =
        subst
          (λ m. Counted m (run (cached map layer) calls (Cache.close_nodes map layer now s id).0).0)
          (omega arith)
          (run-Counted calls (Cache.close_nodes map layer now s id).0 (n + 1)
            (record {
              old = close_nodes-IsOld now s id v.old;
              moved = omega (arith, v.moved, close_nodes-generation now s id);
            })
            (omega arith))
    run-Counted (maybe_add_contact x ∷ calls) s n v few =
        let inner = layer.maybe_add_contact s.inner x in
        let g = (Cache.maybe_add_contact map layer s x).generation in
        let next = fetch_add_lem s.generation (omega (arith, v.moved)) in
        let moved : (s.generation ≤ g) × (g ≤ s.generation + 1) =
          (unfold Cache.maybe_add_contact in ground (arith, next)) in
        subst
          (λ m. Counted m (run (cached map layer) calls (Cache.maybe_add_contact map layer s x)).0)
          (omega arith)
          (unfold Cache.maybe_add_contact in
            run-Counted calls (record s { inner = inner; generation = g }) (n + 1)
              (record {
                old = write-IsOld s inner g v.old moved.0;
                moved = omega (arith, moved, v.moved);
              })
              (omega arith))
    run-Counted (remove_contact x ∷ calls) s n v few =
        let inner = layer.remove_contact s.inner x in
        let next = fetch_add_lem s.generation (omega (arith, v.moved)) in
        subst (λ m. Counted m (run (cached map layer) calls (Cache.remove_contact map layer s x)).0)
          (omega arith)
          (unfold Cache.remove_contact in
            run-Counted calls (record s { inner = inner; generation = fetch_add s.generation })
              (n + 1)
              (record {
                old = write-IsOld s inner _ v.old (omega (arith, next));
                moved = omega (arith, next, v.moved);
              })
              (omega arith))

    -- Also a cache made by `ttl_only`, over a layer whose answers change nothing and do not depend on the
    -- clock, gives after any calls no answer that was computed before a removal: what it answers right
    -- after the removal is what the layer below, with the contact removed from it, answers. The calls,
    -- with the removal, are fewer than the values of the counter.
    pub ttl_only-removal :
        (calls : List Call) (inner : C) (ttl capacity : ℕ) (c : Contact) (now : ℕ) (id : NodeId)
        → length calls + 1 < u64_values
        → (Cache.close_nodes map layer now
            (Cache.remove_contact map layer
              (run (cached map layer) calls (ttl_only map inner ttl capacity)).0
              c)
            id).1
          ≡ answer
              (layer.remove_contact
                (run (cached map layer) calls (ttl_only map inner ttl capacity)).0.inner
                c)
              id
    unfolding ttl_only
    ttl_only-removal calls inner ttl capacity c now id few =
        let end =
          run-Counted calls (ttl_only map inner ttl capacity) 0
            (record { old = AllEntries-empty map (λ id e. e.generation ≤ 0); moved = omega arith })
            (omega arith) in
        remove_contact-close_nodes _ c now id end.old (omega (arith, end.moved))
