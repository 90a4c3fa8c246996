-- ===== src/Lookup/Reaches.antt =====
-- src/lookup.rs: a value that one of the nodes nearest to its key answers with is found.
use kademlia_packet_manager.Prelude.{
  ℕ, suc, ◌≡◌, ◌≢◌, ◌⊎◌, refl, subst, Bool, true, false, some, List, [], ◌∷◌, length, Has, arith,
  inl, inr,
}
use kademlia_packet_manager.CloseNodes.{Key, Contact}
use kademlia_packet_manager.Package.{Libraries, key_for_value}
use kademlia_packet_manager.VersionChain.Spec.{is_key_of}
use kademlia_packet_manager.Store.{Value, blob, latest}
use kademlia_packet_manager.Rpc.{Wire, Rpc, Local, FindValue, find_value}
use kademlia_packet_manager.Lookup.{take_one}
use kademlia_packet_manager.Lookup.Values.{
  Probe, holders, take_reply, lookup_values, first_blob, is_blob_of, lookup_value,
}
use kademlia_packet_manager.Lookup.Found.{
  AllAccepted, take_reply-nonempty, probe_ind, IsFinished, start_probes-Has, take_one-Has, started,
  reply_of,
}
use kademlia_packet_manager.Lookup.Verified.{lookup_values-AllAccepted}

module _ (wire : Wire) {S : Type 0} (rpc : Rpc S) where
  -- Whenever the node is asked, it answers with a value that is accepted.
  pub record Serves (accept : Value → Bool) (key : Key) (node : Contact) (v : Value) : Type 0 where
    pub answers : (s : Local S rpc.World) → (find_value wire rpc s node key).1 ≡ FindValue.value v
    pub accepted : accept v ≡ true

  module _ (accept : Value → Bool) (key : Key) (node : Contact) (v : Value)
      (serves : Serves accept key node v) where
    -- Something was found, or the node is still to be asked.
    abbrev Ahead : Probe → Type 0
    Ahead p = (p.found ≢ []) ⊎ (Has node p.waiting ⊎ Has node p.in_flight)

    served_reply :
        (s : Local S rpc.World) (p : Probe) (source : Contact)
        → node ≡ source
        → (reply_of wire rpc accept key s p source).2 ≡ true
    unfolding take_reply
    served_reply s p source e =
        let answer : (find_value wire rpc s source key).1 ≡ FindValue.value v =
          subst (λ c. (find_value wire rpc s c key).1 ≡ FindValue.value v) e (serves.answers s) in
        rw (answer, take_reply, serves.accepted) refl

    turn-Ahead :
        (s : Local S rpc.World) (p : Probe) (n : ℕ) (source : Contact) (others : List Contact)
        → take_one n (started wire rpc accept p).in_flight ≡ some (source, others)
        → Ahead (started wire rpc accept p)
        → Ahead (record {
          waiting = (started wire rpc accept p).waiting;
          in_flight = others;
          found = (reply_of wire rpc accept key s p source).1;
        })
    turn-Ahead s p n source others e (inl some_found) =
        inl (take_reply-nonempty wire rpc accept _ p.found source _ (inl some_found))
    turn-Ahead s p n source others e (inr (inl waits)) = inr (inl waits)
    turn-Ahead s p n source others e (inr (inr flies)) =
        elim (take_one-Has node n _ source others e flies) [
          | inl same ↦ inl (
              take_reply-nonempty wire rpc accept _ p.found source _
                (inr (served_reply s p source same)))
          | inr other ↦ inr (inr other)
        ]

    start-Ahead : (p : Probe) → Ahead p → Ahead (started wire rpc accept p)
    start-Ahead p (inl some_found) = inl some_found
    start-Ahead p (inr m) = inr (start_probes-Has node _ p.waiting p.in_flight m)

    pub lookup_values-nonempty :
        (s : Local S rpc.World) (stop_at_first : Bool)
        → Has node (holders wire rpc s key).1
        → (lookup_values wire rpc s key accept stop_at_first).1 ≢ []
    unfolding lookup_values
    lookup_values-nonempty s stop near =
        let (ahead, finished) =
          probe_ind wire rpc accept key stop (λ s p. Ahead p) (λ s p. start-Ahead p) turn-Ahead
            (suc (length (holders wire rpc s key).1)) (holders wire rpc s key).0
            (record { waiting = (holders wire rpc s key).1; in_flight = []; found = [] })
            (omega arith) (inr (inl near)) in
        settle _ ahead finished
      where
        settle : (p : Probe) → Ahead p → IsFinished stop p → p.found ≢ []
        settle p a (inl (yes_stop, n)) = n
        settle p (inl n) (inr f) = n
        settle p (inr (inl m)) (inr (nobody, idle)) = absurd (rw nobody at m)
        settle p (inr (inr m)) (inr (nobody, idle)) = absurd (rw idle at m)

  first_blob-nonempty :
      (lib : Libraries) (key : Key) (found : List (Contact × Value))
      → AllAccepted wire rpc (is_blob_of wire rpc lib key) found
      → found ≢ []
      → (source : Contact) × (bytes : List ℕ) × (first_blob wire rpc found ≡ some (source, bytes))
  unfolding first_blob is_blob_of
  first_blob-nonempty lib key [] h n = absurd (n refl)
  first_blob-nonempty lib key ((c, blob b) ∷ rest) h n = (c, b, refl)
  first_blob-nonempty lib key ((c, latest p) ∷ rest) h n = let wrong : false ≡ true = h.0 in cc

  -- If one of the nodes that should hold a blob answers with it whenever it is asked, a lookup of its
  -- key returns a blob, whatever the others answer and however late that one comes.
  pub lookup_value-returns :
      (lib : Libraries) (s : Local S rpc.World) (node : Contact) (bytes : List ℕ)
      → ((s' : Local S rpc.World)
          → (find_value wire rpc s' node (key_for_value lib bytes)).1
            ≡ FindValue.value (blob bytes))
      → Has node (holders wire rpc s (key_for_value lib bytes)).1
      → (source : Contact) × (out : List ℕ) × ((lookup_value wire rpc lib s
            (key_for_value lib bytes)).1
          ≡ some (source, out))
  unfolding lookup_value is_blob_of
  lookup_value-returns lib s node bytes answers near =
      let key = key_for_value lib bytes in
      let serves : Serves (is_blob_of wire rpc lib key) key node (blob bytes) = record {
        answers = answers;
        accepted = is_key_of key key refl;
      } in
      first_blob-nonempty lib key _
        (lookup_values-AllAccepted wire rpc s key (is_blob_of wire rpc lib key) true)
        (lookup_values-nonempty (is_blob_of wire rpc lib key) key node (blob bytes) serves s true
          near)
