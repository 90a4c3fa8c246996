-- ===== src/Lookup/Calls.antt =====
-- src/lookup.rs: the calls that a lookup makes, one FIND_NODE for each node that it asks.
use mathlib.Core.Logic.Or
use mathlib.Core.HLevel.{¬_prop}
use mathlib.Core.List.{
  Perm, perm_middle, Mem, mem-cons, mem-cons_self, mem-cons_of_mem, not-mem-nil, Nodup, Pairwise,
}
use mathlib.Core.List.Perm
use kademlia_packet_manager.Prelude.{
  ℕ, zero, suc, ◌-◌, ◌≡◌, ◌≢◌, ◌∙◌, refl, sym, ap, subst, some, List, [], ◌∷◌, ◌++◌, length, map,
  arith, Option-cases, inl, inr, map-append, append_assoc, append-nil, All,
}
use kademlia_packet_manager.Prelude.Pigeonhole.{Apart}
use kademlia_packet_manager.CloseNodes.{NodeId, Contact, IsId}
use kademlia_packet_manager.Rpc.{Wire, Rpc, Local, insert_id}
use kademlia_packet_manager.Rpc.Table.{IsSound, Keeps}
use kademlia_packet_manager.Rpc.Worlds.{asked, find_node-world}
use kademlia_packet_manager.Lookup.Termination.{
  IsSettled, next_unqueried-fresh, final_search-IsSettled,
}
use kademlia_packet_manager.Lookup.{
  alpha, lookup_fuel, Search, next_unqueried, fill, take_one, turn, search, first_search,
  final_search,
}

abbrev ids_of : List Contact → List NodeId
ids_of cs = map (λ c. c.id) cs

take_one-Perm :
    (n : ℕ) (cs : List Contact) (c : Contact) (others : List Contact)
    → take_one n cs ≡ some (c, others)
    → Perm (c ∷ others) cs
unfolding take_one
take_one-Perm n [] c others e = cc
take_one-Perm zero (d ∷ ds) c others e =
    let same : d ∷ ds ≡ c ∷ others = cc e in subst (λ l. Perm l (d ∷ ds)) same Perm.rfl
take_one-Perm (suc n) (d ∷ ds) c others e = elim (Option-cases (take_one n ds)) [
  | inl absent ↦
      let made : some (d, ds) ≡ some (c, others) = rw (absent, take_one) at e in
      let same : d ∷ ds ≡ c ∷ others = cc made in subst (λ l. Perm l (d ∷ ds)) same Perm.rfl
  | inr ((found, rest), there) ↦
      let made : some (found, d ∷ rest) ≡ some (c, others) = rw (there, take_one) at e in
      let same : found ∷ d ∷ rest ≡ c ∷ others = cc made in
      subst (λ l. Perm l (d ∷ ds)) same
        (Perm.trans (Perm.swap d found rest) (Perm.cons d (take_one-Perm n ds found rest there)))
]

All-tt : (cs : List Contact) → All (λ c. Unit {0}) cs
All-tt [] = tt
All-tt (c ∷ cs) = (tt, All-tt cs)

-- What was called and what is in flight are the ids that were queried.
abbrev AllQueried : List Contact → Search → Type 0
AllQueried called q = Perm (ids_of (called ++ q.in_flight)) q.queried

fill-AllQueried :
    (slots : ℕ) (called : List Contact) (q : Search)
    → AllQueried called q
    → AllQueried called (fill slots q)
unfolding fill
fill-AllQueried zero called q a = a
fill-AllQueried (suc slots) called q a =
    elim (Option-cases (next_unqueried q.queried q.candidates)) [
      | inl settled ↦ rw (settled, fill) a
      | inr (c, found) ↦
          let (fresh, _) =
            next_unqueried-fresh (λ x. Unit {0}) q.queried q.candidates c found
              (All-tt q.candidates) in
          let added : insert_id c.id q.queried ≡ c.id ∷ q.queried =
            unfold insert_id in ground (arith, fresh) in
          let more : ids_of (called ++ (q.in_flight ++ c ∷ []))
              ≡ ids_of (called ++ q.in_flight) ++ c.id ∷ [] =
            ap ids_of (sym (append_assoc called q.in_flight (c ∷ [])))
            ∙ map-append (λ x. x.id) (called ++ q.in_flight) (c ∷ []) in
          let moved : Perm (ids_of (called ++ q.in_flight) ++ c.id ∷ []) (c.id ∷ q.queried) =
            Perm.trans (perm_middle (ids_of (called ++ q.in_flight)) [])
              (Perm.cons c.id (subst (λ l. Perm l q.queried) (sym (append-nil _)) a)) in
          rw (found, fill) (fill-AllQueried slots called _ (rw (added, more) moved))
    ]

-- What comes once in a list comes once in any order of it.
Apart-Nodup : (ids : List NodeId) → Apart ids → Nodup ids
Apart-Nodup [] h = Pairwise.nil
Apart-Nodup (x ∷ xs) h = Pairwise.cons (λ y m. All_at y xs h.0 m) (Apart-Nodup xs h.1)
  where
    All_at : {x : NodeId} (y : NodeId) (xs : List NodeId) → All (λ y. x ≢ y) xs → Mem y xs → x ≢ y
    All_at y [] h m = absurd (not-mem-nil m)
    All_at {x} y (z ∷ zs) h m =
        Or.elim ¬_prop (mem-cons.0 m) (λ e. subst (λ v. x ≢ v) (sym e) h.0) (All_at y zs h.1)

Nodup-Apart : (ids : List NodeId) → Nodup ids → Apart ids
Nodup-Apart [] h = tt
Nodup-Apart (x ∷ xs) (Pairwise.cons apart rest) =
    (All_from xs (λ y m. apart y m), Nodup-Apart xs rest)
  where
    All_from :
        {x : NodeId} (xs : List NodeId) → ((y : NodeId) → Mem y xs → x ≢ y) → All (λ y. x ≢ y) xs
    All_from [] h = tt
    All_from (z ∷ zs) h = (h z mem-cons_self, All_from zs (λ y m. h y (mem-cons_of_mem z m)))

Apart-Perm : {a b : List NodeId} → Perm a b → Apart b → Apart a
Apart-Perm {a} {b} p h = Nodup-Apart a (Perm.nodup (Perm.symm p) (Apart-Nodup b h))

module _ (wire : Wire) {S : Type 0} (rpc : Rpc S) (target : NodeId) where
  -- The world after a FIND_NODE to each of some contacts, one after the other.
  abbrev pub calls : rpc.World → List Contact → rpc.World
  calls w [] = w
  calls w (c ∷ cs) = calls (asked wire rpc target w c) cs

  calls-snoc :
      (w : rpc.World) (cs : List Contact) (c : Contact)
      → calls w (cs ++ c ∷ []) ≡ asked wire rpc target (calls w cs) c
  calls-snoc w [] c = refl
  calls-snoc w (d ∷ ds) c = calls-snoc (asked wire rpc target w d) ds c

  turn-world :
      (s : Local S rpc.World) (q : Search) (peer : Contact) (others : List Contact)
      → (turn wire rpc target s q peer others).0.world ≡ asked wire rpc target s.world peer
  unfolding turn
  turn-world s q peer others = find_node-world wire rpc s peer target

  -- A search that started in `w`, after calls.
  record Called (w : rpc.World) (s : Local S rpc.World) (q : Search) : Type 0 where
    called : List Contact
    all_queried : AllQueried called q
    world : s.world ≡ calls w called

  turn-Called :
      (w : rpc.World) (s : Local S rpc.World) (q : Search) (n : ℕ) (peer : Contact)
      (others : List Contact)
      → take_one n q.in_flight ≡ some (peer, others)
      → Called w s q
      → Called w (turn wire rpc target s q peer others).0 (turn wire rpc target s q peer others).1
  turn-Called w s q n peer others e h = record {
    called = h.called ++ peer ∷ [];
    all_queried =
        unfold turn in
        rw (append_assoc h.called (peer ∷ []) others) (
          Perm.trans
            (Perm.map (λ c. c.id)
              (Perm.append_left h.called (take_one-Perm n q.in_flight peer others e)))
            h.all_queried);
    world =
        turn-world s q peer others
        ∙ ap (λ v. asked wire rpc target v peer) h.world
        ∙ sym (calls-snoc w h.called peer);
  }

  search-Called :
      (fuel : ℕ) (w : rpc.World) (s : Local S rpc.World) (q : Search)
      → Called w s q
      → Called w (search wire rpc fuel target s q).0 (search wire rpc fuel target s q).1
  unfolding search
  search-Called zero w s q h = h
  search-Called (suc fuel) w s q h =
      let filled = fill (alpha - length q.in_flight) q in
      let n = rpc.first_to_end s.world in
      let h' : Called w s filled = record {
        called = h.called;
        all_queried = fill-AllQueried (alpha - length q.in_flight) h.called q h.all_queried;
        world = h.world;
      } in
      elim (Option-cases (take_one n filled.in_flight)) [
        | inl idle ↦ rw (idle, search) h'
        | inr ((peer, others), running) ↦
            rw (running, search)
              (search-Called fuel w _ _ (turn-Called w s filled n peer others running h'))
      ]

  -- A lookup from a world that has ended by itself: every contact that it returns was called, no id
  -- twice, and of the world it used its transport for one FIND_NODE to each node called and for nothing
  -- else.
  pub record IsComplete (w : rpc.World) (r : Local S rpc.World × Search) : Type 0 where
    pub settled : IsSettled r.1
    pub called : List Contact
    pub are_queried : Perm (map (λ c. c.id) called) r.1.queried
    pub once : Apart (map (λ c. c.id) called)
    pub one_call_each : r.0.world ≡ calls w called

  -- A lookup always ends by itself, whatever the network answers and in whatever order: nothing is in
  -- flight any more, every contact that it returns was called, and it sent one FIND_NODE to each node
  -- that it called, of which no two have the same id, and nothing else. The routing table keeps its
  -- promises, and the target has 32 bytes.
  pub final_search-IsComplete :
      (Inv : S → Type 0) (sound : IsSound rpc Inv)
      → IsId target
      → (s : Local S rpc.World) → Keeps wire rpc Inv sound s
      → IsComplete s.world (final_search wire rpc target s)
  final_search-IsComplete Inv sound target_id s v =
      let settled = final_search-IsSettled wire rpc Inv sound target target_id s v in
      let start : Called s.world (first_search wire rpc target s).0
          (first_search wire rpc target s).1 =
        record {
          called = [];
          all_queried = unfold first_search in Perm.rfl;
          world = unfold first_search in refl;
        } in
      let end : Called s.world (final_search wire rpc target s).0
          (final_search wire rpc target s).1 =
        unfold final_search in
        search-Called lookup_fuel s.world (first_search wire rpc target s).0
          (first_search wire rpc target s).1 start in
      let are_queried : Perm (ids_of end.called) (final_search wire rpc target s).1.queried =
        subst (λ l. Perm (ids_of l) (final_search wire rpc target s).1.queried)
          (append-nil end.called)
          (subst (λ f. Perm (ids_of (end.called ++ f)) (final_search wire rpc target s).1.queried)
            settled.in_flight end.all_queried) in
      record {
        settled = settled;
        called = end.called;
        are_queried = are_queried;
        once = Apart-Perm are_queried settled.once;
        one_call_each = end.world;
      }
