-- ===== src/Lookup/Stored.antt =====
-- src/lookup.rs: what the count of a storing says: the nodes that acknowledged the value.
use kademlia_packet_manager.Prelude.{
  ℕ, suc, ◌+◌, ◌≡◌, ◌≢◌, ◌∙◌, refl, ap, ap₂, none, some, List, [], ◌∷◌, ◌++◌, Bool, true, false,
  Option-cases, inl, inr, arith, if◌then◌else◌,
}
use kademlia_packet_manager.CloseNodes.{Key, Contact}
use kademlia_packet_manager.Package.{Libraries}
use kademlia_packet_manager.VersionChain.{Record}
use kademlia_packet_manager.Frames.{Method, tag}
use kademlia_packet_manager.Store.{Value, value_key}
use kademlia_packet_manager.Rpc.{Wire, Rpc, Local, store_with_proof}
use kademlia_packet_manager.Rpc.Worlds.{acknowledges, store_with_proof_lem, store_with_proof-none}
use kademlia_packet_manager.Lookup.Values.{holders, store_at, store_value_with_proof}

counted : (b : Bool) (n m : ℕ) → (if b then suc n else n) + m ≡ n + (if b then suc m else m)
counted true n m = omega arith
counted false n m = refl

module _ (wire : Wire) {S : Type 0} (rpc : Rpc S) where
  -- The framed STORE goes to some contacts, one after the other: the world, and how many of them
  -- acknowledged it.
  abbrev pub acknowledgements : List ℕ → rpc.World → List Contact → rpc.World × ℕ
  acknowledgements request w [] = (w, 0)
  acknowledgements request w (c ∷ cs) =
      let (w', result) = rpc.robust_transport w request c.address in
      let (w'', count) = acknowledgements request w' cs in
      (w'', if acknowledges wire rpc result then suc count else count)

  abbrev pub store_request : List ℕ → List ℕ
  store_request body = rpc.my_contact.id ++ (tag Method.store ++ body)

  store_at-acknowledgements :
      (s : Local S rpc.World) (targets : List Contact) (key : Key) (v : Value) (proof : List Record)
      (n : ℕ) (body : List ℕ)
      → wire.serialize_request (record { key = key; value = v; proof = proof }) ≡ some body
      → ((store_at wire rpc s targets key v proof n).0.world
          ≡ (acknowledgements (store_request body) s.world targets).0)
        × ((store_at wire rpc s targets key v proof n).1
            ≡ n + (acknowledgements (store_request body) s.world targets).1)
  unfolding store_at
  store_at-acknowledgements s [] key v proof n body encoded = (refl, omega arith)
  store_at-acknowledgements s (c ∷ cs) key v proof n body encoded =
      let ended = (store_with_proof wire rpc s c key v proof).0 in
      let ok = (store_with_proof wire rpc s c key v proof).1 in
      let (after, taken) = store_with_proof_lem wire rpc s c key v proof body encoded in
      let (world, count) =
        store_at-acknowledgements ended cs key v proof (if ok then suc n else n) body encoded in
      let rest =
        (acknowledgements (store_request body)
          (rpc.robust_transport s.world (store_request body) c.address).0 cs).1 in
      (
        world ∙ ap (λ w. (acknowledgements (store_request body) w cs).0) after,
        count
            ∙ ap (λ w. (if ok then suc n else n) + (acknowledgements (store_request body) w cs).1)
                after
            ∙ ap (λ b. (if b then suc n else n) + rest) taken
            ∙ counted _ n rest,
      )

  store_at-none :
      (s : Local S rpc.World) (targets : List Contact) (key : Key) (v : Value) (proof : List Record)
      (n : ℕ)
      → wire.serialize_request (record { key = key; value = v; proof = proof }) ≡ none
      → (store_at wire rpc s targets key v proof n).1 ≡ n
  unfolding store_at
  store_at-none s [] key v proof n bad = refl
  store_at-none s (c ∷ cs) key v proof n bad =
      rw (store_at, store_with_proof-none wire rpc s c key v proof bad)
        (store_at-none s cs key v proof n bad)

  module _ (lib : Libraries) where
    -- A value was stored, from one state to the next: the request that holds it under its own key went
    -- to the nodes that a lookup of the key found, `count` of them acknowledged it, and `count` is not 0.
    pub record IsStoredAt (s s' : Local S rpc.World) (v : Value) (proof : List Record) (key : Key)
        (count : ℕ) : Type 0 where
      pub body : List ℕ
      pub own_key : key ≡ value_key lib v
      pub encoded :
          wire.serialize_request (record { key = key; value = v; proof = proof }) ≡ some body
      pub sent :
          (s'.world, count)
          ≡ acknowledgements
              (store_request body)
              (holders wire rpc s key).0.world
              (holders wire rpc s key).1
      pub some_there : count ≢ 0

    pub store_value_with_proof-IsStoredAt :
        (s : Local S rpc.World) (v : Value) (proof : List Record)
        → (store_value_with_proof wire rpc lib s v proof).2 ≢ 0
        → IsStoredAt s
            (store_value_with_proof wire rpc lib s v proof).0
            v
            proof
            (store_value_with_proof wire rpc lib s v proof).1
            (store_value_with_proof wire rpc lib s v proof).2
    unfolding store_value_with_proof
    store_value_with_proof-IsStoredAt s v proof some_there =
        let key = value_key lib v in
        let (s', targets) = holders wire rpc s key in
        elim (Option-cases
          (wire.serialize_request (record { key = key; value = v; proof = proof }))) [
            | inl bad ↦ absurd (some_there (store_at-none s' targets key v proof 0 bad))
            | inr (body, good) ↦
                let (w, n) = store_at-acknowledgements s' targets key v proof 0 body good in
                record {
                  body = body;
                  own_key = refl;
                  encoded = good;
                  sent = ap₂ (λ x y. (x, y)) w (n ∙ omega arith);
                  some_there = some_there;
                }
          ]
