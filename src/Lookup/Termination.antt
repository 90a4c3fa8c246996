-- ===== src/Lookup/Termination.antt =====
-- src/lookup.rs: a lookup ends by itself, when every candidate is one of the ids that it queried.
use kademlia_packet_manager.Prelude.{
  ℕ, zero, suc, ◌+◌, ◌-◌, ◌^◌, ◌≤◌, ◌<◌, ◌≡◌, ◌≢◌, ◌∙◌, refl, sym, ap, subst, true, false, none,
  some, List, [], ◌∷◌, ◌++◌, length, All, All-imp, arith, Bool-cases, Option-cases, inl, inr,
  length-append, compare, Ordering,
}
use kademlia_packet_manager.Prelude.Pigeonhole.{Apart, numbered-Apart-length}
use kademlia_packet_manager.CloseNodes.{NodeId, Contact, IsId, id_bytes}
use kademlia_packet_manager.CloseNodes.Distance.{lex_cmp-eq}
use kademlia_packet_manager.CloseNodes.Numeric.{value, value-lt, lex_cmp-value}
use kademlia_packet_manager.CloseNodes.Contract.{IsAnswer}
use kademlia_packet_manager.Rpc.{Wire, Rpc, Local, has_id, insert_id}
use kademlia_packet_manager.Rpc.Forget.{has_id-false}
use kademlia_packet_manager.Rpc.Table.{IsSound, Keeps}
use kademlia_packet_manager.Lookup.{
  alpha, lookup_fuel, Search, next_unqueried, fill, take_one, turn, search, first_search,
  final_search,
}
use kademlia_packet_manager.Lookup.Answer.{
  fill-candidates, turn-Keeps, turn-IsAnswer, first_search-IsAnswer,
}

value-inj : (a b : NodeId) → IsId a → IsId b → value a ≡ value b → a ≡ b
value-inj a b p q e =
    let same : compare (value a) (value b) ≡ Ordering.eq = ground (arith, e) in
    lex_cmp-eq a b (lex_cmp-value a b p.bytes q.bytes (p.size ∙ sym q.size) ∙ same)

-- There are no more different ids than that.
ids_bounded : (ids : List NodeId) → All IsId ids → Apart ids → length ids ≤ 256 ^ id_bytes
ids_bounded ids h a =
    numbered-Apart-length IsId value value-inj (256 ^ id_bytes) ids h
      (All-imp (λ id w. subst (λ n. value id < 256 ^ n) w.size (value-lt id w.bytes)) ids h) a

-- The ids that were called.
pub record IsQueried (q : Search) : Type 0 where
  pub once : Apart q.queried
  pub ids : All IsId q.queried

pub next_unqueried-fresh :
    (P : Contact → Type 0) (queried : List NodeId) (cs : List Contact) (c : Contact)
    → next_unqueried queried cs ≡ some c
    → All P cs
    → (has_id c.id queried ≡ false) × P c
unfolding next_unqueried
next_unqueried-fresh P queried [] c e h = cc
next_unqueried-fresh P queried (d ∷ ds) c e h = elim (Bool-cases (has_id d.id queried)) [
  | inl asked ↦ next_unqueried-fresh P queried ds c (rw (asked, next_unqueried) at e) h.1
  | inr fresh ↦
      let same : some d ≡ some c = rw (fresh, next_unqueried) at e in
      let it : d ≡ c = cc same in
      (subst (λ x. has_id x.id queried ≡ false) it fresh, subst P it h.0)
]

next_unqueried-none :
    (queried : List NodeId) (cs : List Contact)
    → next_unqueried queried cs ≡ none
    → All (λ c. has_id c.id queried ≡ true) cs
unfolding next_unqueried
next_unqueried-none queried [] e = tt
next_unqueried-none queried (d ∷ ds) e = elim (Bool-cases (has_id d.id queried)) [
  | inl asked ↦ (asked, next_unqueried-none queried ds (rw (asked, next_unqueried) at e))
  | inr fresh ↦
      let found : next_unqueried queried (d ∷ ds) ≡ some d = rw (fresh, next_unqueried) refl in
      cc (found, e)
]

-- Each call that is started is of an id that was not called before, and holds one slot.
fill-IsQueried :
    (slots : ℕ) (q : Search)
    → All (λ c. IsId c.id) q.candidates
    → IsQueried q
    → IsQueried (fill slots q)
      × (length (fill slots q).queried + length q.in_flight
          ≡ length q.queried + length (fill slots q).in_flight)
      × (length (fill slots q).in_flight ≤ length q.in_flight + slots)
unfolding fill
fill-IsQueried zero q h v = (v, refl, omega arith)
fill-IsQueried (suc slots) q h v = elim (Option-cases (next_unqueried q.queried q.candidates)) [
  | inl settled ↦ rw (settled, fill) (v, refl, omega arith)
  | inr (c, found) ↦
      let (fresh, id) = next_unqueried-fresh (λ x. IsId x.id) q.queried q.candidates c found h in
      let added : insert_id c.id q.queried ≡ c.id ∷ q.queried =
        unfold insert_id in ground (arith, fresh) in
      let q' : Search = record {
        candidates = q.candidates;
        queried = insert_id c.id q.queried;
        in_flight = q.in_flight ++ c ∷ [];
      } in
      let v' : IsQueried q' = record {
        once = subst Apart (sym added) (has_id-false c.id q.queried fresh, v.once);
        ids = subst (All IsId) (sym added) (id, v.ids);
      } in
      let (kept, count, room) = fill-IsQueried slots q' h v' in
      let more = length-append q.in_flight (c ∷ []) in
      let longer = ap length added in
      rw (found, fill) (kept, omega (arith, count, more, longer), omega (arith, room, more))
]

-- A search that has ended by itself: nothing is in flight, every candidate is among the queried ids, and
-- none of them comes twice.
pub record IsSettled (q : Search) : Type 0 where
  pub in_flight : q.in_flight ≡ []
  pub asked : All (λ c. has_id c.id q.queried ≡ true) q.candidates
  pub once : Apart q.queried

pub take_one-none : (n : ℕ) (cs : List Contact) → take_one n cs ≡ none → cs ≡ []
unfolding take_one
take_one-none n [] e = refl
take_one-none zero (c ∷ cs) e = cc
take_one-none (suc n) (c ∷ cs) e = ground arith

pub take_one-length :
    (n : ℕ) (cs : List Contact) (c : Contact) (others : List Contact)
    → take_one n cs ≡ some (c, others)
    → length cs ≡ suc (length others)
unfolding take_one
take_one-length n [] c others e = cc
take_one-length zero (d ∷ ds) c others e =
    let same : ds ≡ others = cc e in ap (λ xs. suc (length xs)) same
take_one-length (suc n) (d ∷ ds) c others e = elim (Option-cases (take_one n ds)) [
  | inl absent ↦
      let made : some (d, ds) ≡ some (c, others) = rw (absent, take_one) at e in
      let same : ds ≡ others = cc made in ap (λ xs. suc (length xs)) same
  | inr (found, there) ↦
      let made : some (found.0, d ∷ found.1) ≡ some (c, others) = rw (there, take_one) at e in
      let same : d ∷ found.1 ≡ others = cc made in
      let longer : suc (length found.1) ≡ length others = ap length same in
      omega (arith, longer, take_one-length n ds found.0 found.1 there)
]

fill-in_flight : (slots : ℕ) (q : Search) → length q.in_flight ≤ length (fill slots q).in_flight
unfolding fill
fill-in_flight zero q = omega arith
fill-in_flight (suc slots) q = elim (Option-cases (next_unqueried q.queried q.candidates)) [
  | inl settled ↦ rw (settled, fill) (omega arith)
  | inr (c, found) ↦
      rw (found, fill)
        (omega (
          arith,
          length-append q.in_flight (c ∷ []),
          fill-in_flight slots (record {
            candidates = q.candidates;
            queried = insert_id c.id q.queried;
            in_flight = q.in_flight ++ c ∷ [];
          }),
        ))
]

-- With a slot free, only a search without unqueried candidates starts nothing.
fill-idle :
    (slots : ℕ) (q : Search)
    → (fill (suc slots) q).in_flight ≡ []
    → (next_unqueried q.queried q.candidates ≡ none) × (fill (suc slots) q ≡ q)
unfolding fill
fill-idle slots q e = elim (Option-cases (next_unqueried q.queried q.candidates)) [
  | inl settled ↦ (settled, rw (settled, fill) refl)
  | inr (c, found) ↦
      let q' : Search = record {
        candidates = q.candidates;
        queried = insert_id c.id q.queried;
        in_flight = q.in_flight ++ c ∷ [];
      } in
      let started : fill (suc slots) q ≡ fill slots q' = rw (found, fill) refl in
      let none_there = ap length (sym (ap (λ r. r.in_flight) started) ∙ e) in
      absurd
        (omega (arith, none_there, fill-in_flight slots q', length-append q.in_flight (c ∷ [])))
]

fill-IsSettled :
    (slots : ℕ) (q : Search)
    → IsQueried q
    → slots ≢ 0
    → (fill slots q).in_flight ≡ []
    → IsSettled (fill slots q)
fill-IsSettled zero q v n e = absurd (n refl)
fill-IsSettled (suc slots) q v n e =
    let (settled, same) = fill-idle slots q e in
    subst IsSettled (sym same) (record {
      in_flight = ap (λ r. r.in_flight) (sym same) ∙ e;
      asked = next_unqueried-none q.queried q.candidates settled;
      once = v.once;
    })

module _ (wire : Wire) {S : Type 0} (rpc : Rpc S) (Inv : S → Type 0) (sound : IsSound rpc Inv)
    (target : NodeId) (target_id : IsId target) where
  search-IsSettled :
      (fuel : ℕ) (s : Local S rpc.World) (q : Search)
      → Keeps wire rpc Inv sound s
      → IsAnswer rpc.my_contact.id target q.candidates
      → IsQueried q
      → length q.in_flight ≤ alpha
      → 256 ^ id_bytes + length q.in_flight < fuel + length q.queried
      → IsSettled (search wire rpc fuel target s q).1
  unfolding search
  search-IsSettled zero s q v a c room enough =
      absurd (omega (arith, ids_bounded q.queried c.ids c.once))
  search-IsSettled (suc fuel) s q v a c room enough =
      let slots = alpha - length q.in_flight in
      let filled = fill slots q in
      let a' : IsAnswer rpc.my_contact.id target filled.candidates =
        subst (IsAnswer rpc.my_contact.id target) (sym (fill-candidates slots q)) a in
      let (c', count, room') = fill-IsQueried slots q a.well_formed c in
      elim (Option-cases (take_one (rpc.first_to_end s.world) filled.in_flight)) [
        | inl idle ↦
            let empty = take_one-none (rpc.first_to_end s.world) filled.in_flight idle in
            let free : slots ≢ 0 =
              λ full. absurd (omega (arith, full, ap length empty, fill-in_flight slots q)) in
            rw (idle, search) (fill-IsSettled slots q c free empty)
        | inr ((peer, others), running) ↦
            let fewer =
              take_one-length (rpc.first_to_end s.world) filled.in_flight peer others running in
            let s' = (turn wire rpc target s filled peer others).0 in
            let q' = (turn wire rpc target s filled peer others).1 in
            let v' = turn-Keeps wire rpc Inv sound target target_id s filled peer others v in
            let a'' = turn-IsAnswer wire rpc Inv sound target target_id s filled peer others a' in
            let c'' : IsQueried q' = record {
              once = unfold turn in c'.once;
              ids = unfold turn in c'.ids;
            } in
            let few : length others ≤ alpha = omega (arith, fewer, room', room) in
            let left : 256 ^ id_bytes + length others < fuel + length filled.queried =
              omega (arith, enough, fewer, count) in
            rw (running, search)
              (search-IsSettled fuel s' q' v' a'' c'' (unfold turn in few) (unfold turn in left))
      ]

  -- A lookup always ends by itself, whatever the network answers and in whatever order: nothing is in
  -- flight any more, and every contact that it returns is among the queried ids, none of which comes
  -- twice.
  pub final_search-IsSettled :
      (s : Local S rpc.World)
      → Keeps wire rpc Inv sound s
      → IsSettled (final_search wire rpc target s).1
  unfolding final_search
  final_search-IsSettled s v =
      let (kept, a) = first_search-IsAnswer wire rpc Inv sound target target_id s v in
      search-IsSettled lookup_fuel (first_search wire rpc target s).0
        (first_search wire rpc target s).1 kept a
        (unfold first_search in record { once = tt; ids = tt }) (unfold first_search in omega arith)
        (unfold first_search in unfold lookup_fuel in omega arith)
