-- ===== src/Lookup/Found.antt =====
-- src/lookup.rs: what the search for a value finds, and that it ends.
use kademlia_packet_manager.Prelude.{
  ℕ, zero, suc, ◌+◌, ◌-◌, ◌≤◌, ◌<◌, ◌≡◌, ◌≢◌, ◌⊎◌, refl, sym, ap, subst, Bool, true, false, some,
  List, [], ◌∷◌, ◌++◌, ◌&&◌, length, All, All-append, Has, arith, Bool-cases, Option-cases, inl,
  inr, length-append, and-true, Any-append_left, Any-append_right,
}
use kademlia_packet_manager.CloseNodes.{Key, Contact}
use kademlia_packet_manager.Store.{Value}
use kademlia_packet_manager.Rpc.{Wire, Rpc, Local, FindValue, find_value}
use kademlia_packet_manager.Lookup.{alpha, take_one}
use kademlia_packet_manager.Lookup.Termination.{take_one-none, take_one-length}
use kademlia_packet_manager.Lookup.Values.{Probe, start_probes, take_reply, probe}

start_probes-length :
    (slots : ℕ) (w i : List Contact)
    → length (start_probes slots w i).0 + length (start_probes slots w i).1 ≡ length w + length i
unfolding start_probes
start_probes-length zero w i = refl
start_probes-length (suc slots) [] i = refl
start_probes-length (suc slots) (c ∷ cs) i =
    omega (arith, start_probes-length slots cs (i ++ c ∷ []), length-append i (c ∷ []))

start_probes-in_flight :
    (slots : ℕ) (w i : List Contact) → length i ≤ length (start_probes slots w i).1
unfolding start_probes
start_probes-in_flight zero w i = omega arith
start_probes-in_flight (suc slots) [] i = omega arith
start_probes-in_flight (suc slots) (c ∷ cs) i =
    omega (arith, start_probes-in_flight slots cs (i ++ c ∷ []), length-append i (c ∷ []))

-- With a slot free, nothing is in flight only where nobody waits.
start_probes-idle :
    (slots : ℕ) (w i : List Contact)
    → (start_probes (suc slots) w i).1 ≡ []
    → (start_probes (suc slots) w i).0 ≡ []
unfolding start_probes
start_probes-idle slots [] i e = refl
start_probes-idle slots (c ∷ cs) i e = absurd (
    omega
      (arith, ap length e, start_probes-in_flight slots cs (i ++ c ∷ []), length-append i (c ∷ [])))

pub start_probes-Has :
    (h : Contact) (slots : ℕ) (w i : List Contact)
    → Has h w ⊎ Has h i
    → Has h (start_probes slots w i).0 ⊎ Has h (start_probes slots w i).1
unfolding start_probes
start_probes-Has h zero w i m = m
start_probes-Has h (suc slots) [] i m = m
start_probes-Has h (suc slots) (c ∷ cs) i (inl (inl e)) =
    start_probes-Has h slots cs (i ++ c ∷ []) (inr (Any-append_right _ i (c ∷ []) (inl e)))
start_probes-Has h (suc slots) (c ∷ cs) i (inl (inr m)) =
    start_probes-Has h slots cs (i ++ c ∷ []) (inl m)
start_probes-Has h (suc slots) (c ∷ cs) i (inr m) =
    start_probes-Has h slots cs (i ++ c ∷ []) (inr (Any-append_left _ i (c ∷ []) m))

among_others :
    (h d : Contact) (ds : List Contact) (found : Contact × List Contact)
    → (Has h ds → (h ≡ found.0) ⊎ Has h found.1)
    → Has h (d ∷ ds)
    → (h ≡ found.0) ⊎ Has h (d ∷ found.1)
among_others h d ds found f (inl same) = inr (inl same)
among_others h d ds found f (inr m) = elim (f m) [ inl it ↦ inl it | inr rest ↦ inr (inr rest) ]

pub take_one-Has :
    (h : Contact) (n : ℕ) (cs : List Contact) (c : Contact) (others : List Contact)
    → take_one n cs ≡ some (c, others)
    → Has h cs
    → (h ≡ c) ⊎ Has h others
unfolding take_one
take_one-Has h n [] c others e m = absurd m
take_one-Has h zero (d ∷ ds) c others e m =
    let first : d ≡ c = cc e in let rest : ds ≡ others = cc e in rw (← first, ← rest) m
take_one-Has h (suc n) (d ∷ ds) c others e m = elim (Option-cases (take_one n ds)) [
  | inl absent ↦
      let made : some (d, ds) ≡ some (c, others) = rw (absent, take_one) at e in
      let first : d ≡ c = cc made in let rest : ds ≡ others = cc made in rw (← first, ← rest) m
  | inr (found, there) ↦
      let made : some (found.0, d ∷ found.1) ≡ some (c, others) = rw (there, take_one) at e in
      let first : found.0 ≡ c = cc made in
      let rest : d ∷ found.1 ≡ others = cc made in
      rw (← first, ← rest) (among_others h d ds found (take_one-Has h n ds found.0 found.1 there) m)
]

append-nonempty : {A : Type 0} (xs : List A) (x : A) → xs ++ x ∷ [] ≢ []
append-nonempty [] x e = cc
append-nonempty (y ∷ ys) x e = cc

-- How a search for a value ends: with a value, where the first one is enough, or with nobody waiting
-- and nothing in flight.
abbrev pub IsFinished : Bool → Probe → Type 0
IsFinished stop_at_first p =
    ((stop_at_first ≡ true) × (p.found ≢ [])) ⊎ ((p.waiting ≡ []) × (p.in_flight ≡ []))

module _ (wire : Wire) {S : Type 0} (rpc : Rpc S) (accept : Value → Bool) where
  abbrev pub AllAccepted : List (Contact × Value) → Type 0
  AllAccepted = All (λ f. accept f.1 ≡ true)

  pub take_reply-AllAccepted :
      (s : Local S rpc.World) (found : List (Contact × Value)) (source : Contact)
      (reply : FindValue)
      → AllAccepted found
      → AllAccepted (take_reply wire rpc accept s found source reply).1
  unfolding take_reply
  take_reply-AllAccepted s found source (FindValue.closest contacts) h = h
  take_reply-AllAccepted s found source (FindValue.value v) h = elim (Bool-cases (accept v)) [
    | inl good ↦ rw (good, take_reply) (All-append _ found ((source, v) ∷ []) h (good, tt))
    | inr bad ↦ rw (bad, take_reply) h
  ]

  -- An accepted answer is listed.
  pub take_reply-nonempty :
      (s : Local S rpc.World) (found : List (Contact × Value)) (source : Contact)
      (reply : FindValue)
      → (found ≢ []) ⊎ ((take_reply wire rpc accept s found source reply).2 ≡ true)
      → (take_reply wire rpc accept s found source reply).1 ≢ []
  unfolding take_reply
  take_reply-nonempty s found source (FindValue.closest contacts) (inl n) = n
  take_reply-nonempty s found source (FindValue.closest contacts) (inr e) = cc
  take_reply-nonempty s found source (FindValue.value v) m = elim (Bool-cases (accept v)) [
    | inl good ↦ rw (good, take_reply) (append-nonempty found (source, v))
    | inr bad ↦ not_accepted bad m
  ]
    where
      not_accepted :
          accept v ≡ false
          → (found ≢ [])
            ⊎ ((take_reply wire rpc accept s found source (FindValue.value v)).2 ≡ true)
          → (take_reply wire rpc accept s found source (FindValue.value v)).1 ≢ []
      not_accepted bad (inl n) = rw (bad, take_reply) n
      not_accepted bad (inr e) =
          let refused : (take_reply wire rpc accept s found source (FindValue.value v)).2 ≡ false =
            rw (bad, take_reply) refl in
          cc (refused, e)

  -- The probe after the free slots were filled, and after an answer.
  abbrev pub started : Probe → Probe
  started p = record {
    waiting = (start_probes (alpha - length p.in_flight) p.waiting p.in_flight).0;
    in_flight = (start_probes (alpha - length p.in_flight) p.waiting p.in_flight).1;
    found = p.found;
  }

  abbrev pub reply_of :
      Key → Local S rpc.World → Probe → Contact → Local S rpc.World × List (Contact × Value) × Bool
  reply_of key s p source =
      take_reply wire rpc accept (find_value wire rpc s source key).0 p.found source
        (find_value wire rpc s source key).1

  abbrev after_reply : Key → Local S rpc.World → Probe → Contact → List Contact → Probe
  after_reply key s p source others = record {
    waiting = (started p).waiting;
    in_flight = others;
    found = (reply_of key s p source).1;
  }

  started-IsFinished :
      (stop_at_first : Bool) (p : Probe)
      → (started p).in_flight ≡ []
      → IsFinished stop_at_first (started p)
  started-IsFinished stop p e =
      let less = start_probes-in_flight (alpha - length p.in_flight) p.waiting p.in_flight in
      let slots : alpha - length p.in_flight ≡ 3 = omega (arith, less, ap length e) in
      let nobody : (started p).waiting ≡ [] =
        subst (λ m. (start_probes m p.waiting p.in_flight).0 ≡ []) (sym slots)
          (start_probes-idle 2 p.waiting p.in_flight
            (subst (λ m. (start_probes m p.waiting p.in_flight).1 ≡ []) slots e)) in
      inr (nobody, e)

  -- With fuel for those who wait or are in flight, and one turn more, the search ends by itself; and
  -- what holds of the start and is kept by every turn holds of the end.
  module _ (key : Key) (stop_at_first : Bool) (Inv : Local S rpc.World → Probe → Type 0)
      (start_keeps : (s : Local S rpc.World) (p : Probe) → Inv s p → Inv s (started p))
      (turn_keeps : (s : Local S rpc.World) (p : Probe) (n : ℕ) (source : Contact)
          (others : List Contact)
        → take_one n (started p).in_flight ≡ some (source, others)
        → Inv s (started p)
        → Inv (reply_of key s p source).0 (after_reply key s p source others)) where
    pub probe_ind :
        (fuel : ℕ) (s : Local S rpc.World) (p : Probe)
        → length p.waiting + length p.in_flight < fuel
        → Inv s p
        → Inv
            (probe wire rpc fuel key accept stop_at_first s p).0
            (probe wire rpc fuel key accept stop_at_first s p).1
          × IsFinished stop_at_first (probe wire rpc fuel key accept stop_at_first s p).1
    unfolding probe
    probe_ind zero s p enough v = absurd (omega arith)
    probe_ind (suc fuel) s p enough v =
        let v' = start_keeps s p v in
        elim (Option-cases (take_one (rpc.first_to_end s.world) (started p).in_flight)) [
          | inl idle ↦
              rw (idle, probe)
                (
                  v',
                  started-IsFinished stop_at_first p
                      (take_one-none (rpc.first_to_end s.world) (started p).in_flight idle),
                )
          | inr ((source, others), running) ↦
              let w = turn_keeps s p (rpc.first_to_end s.world) source others running v' in
              let accepted = (reply_of key s p source).2 in
              elim (Bool-cases (accepted && stop_at_first)) [
                | inl stops ↦
                    let (yes_accepted, yes_stop) = and-true accepted stop_at_first stops in
                    rw (running, probe, stops)
                      (w, inl (yes_stop, take_reply-nonempty _ p.found source _ (inr yes_accepted)))
                | inr on ↦
                    let fewer =
                      take_one-length (rpc.first_to_end s.world) (started p).in_flight source others
                        running in
                    let count =
                      start_probes-length (alpha - length p.in_flight) p.waiting p.in_flight in
                    rw (running, probe, on)
                      (probe_ind fuel (reply_of key s p source).0
                        (after_reply key s p source others) (omega (arith, fewer, count, enough)) w)
              ]
        ]
