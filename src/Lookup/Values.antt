-- ===== src/Lookup/Values.antt =====
-- src/lookup.rs: the search for a value at the nodes nearest to its key, and its storing there.
use kademlia_packet_manager.Prelude.{
  ℕ, zero, suc, ◌-◌, Bool, true, false, Option, none, some, List, [], ◌∷◌, ◌++◌, ◌&&◌, length,
  if◌then◌else◌,
}
use kademlia_packet_manager.CloseNodes.{Key, Contact}
use kademlia_packet_manager.Package.{
  Str, version_lt, Signed, LatestPointer, Libraries, is_key, is_str, key_for_value, latest_key,
  latest_is_valid,
}
use kademlia_packet_manager.VersionChain.{Record}
use kademlia_packet_manager.Store.{Value, blob, latest, value_key}
use kademlia_packet_manager.Rpc.{Wire, Rpc, Local, FindValue, find_value, store_with_proof}
use kademlia_packet_manager.Lookup.{alpha, take_one, offer_all, merge, lookup_node}

-- The variables of the loop of `lookup_values`.
pub record Probe : Type 0 where
  pub waiting : List Contact
  pub in_flight : List Contact
  pub found : List (Contact × Value)

-- The inner loop, for the slots that are free.
unfoldable pub start_probes : ℕ → List Contact → List Contact → List Contact × List Contact
start_probes zero waiting in_flight = (waiting, in_flight)
start_probes (suc slots) [] in_flight = ([], in_flight)
start_probes (suc slots) (c ∷ cs) in_flight = start_probes slots cs (in_flight ++ c ∷ [])

module _ (wire : Wire) {S : Type 0} (rpc : Rpc S) where
  -- An answer from `source`: whether it is accepted.
  unfoldable pub take_reply :
      (Value → Bool)
      → Local S rpc.World
      → List (Contact × Value)
      → Contact
      → FindValue
      → Local S rpc.World × List (Contact × Value) × Bool
  unfolding offer_all
  take_reply accept s found source (FindValue.value v) =
      if accept v then (s, found ++ (source, v) ∷ [], true) else (s, found, false)
  take_reply accept s found source (FindValue.closest contacts) =
      (record { table = offer_all rpc.close_nodes s.table contacts; world = s.world }, found, false)

  -- The outer loop, with fuel. It ends by itself where nothing is in flight, or at the first value
  -- that is accepted where that is asked for.
  unfoldable pub probe :
      ℕ → Key → (Value → Bool) → Bool → Local S rpc.World → Probe → Local S rpc.World × Probe
  unfolding start_probes take_one find_value take_reply
  probe zero key accept stop_at_first s p = (s, p)
  probe (suc fuel) key accept stop_at_first s p =
      let (waiting, in_flight) = start_probes (alpha - length p.in_flight) p.waiting p.in_flight in
      elim (take_one (rpc.first_to_end s.world) in_flight) [
        | none ↦ (s, record { waiting = waiting; in_flight = in_flight; found = p.found })
        | some (next, others) ↦
            let (s', reply) = find_value wire rpc s next key in
            let (s'', found, accepted) = take_reply accept s' p.found next reply in
            let p' : Probe = record { waiting = waiting; in_flight = others; found = found } in
            elim (accepted && stop_at_first) [
              | true ↦ (s'', p')
              | false ↦ probe fuel key accept stop_at_first s'' p'
            ]
      ]

  -- The nodes that should hold a value: those nearest to its key, and we may be one of them.
  unfoldable pub holders : Local S rpc.World → Key → Local S rpc.World × List Contact
  unfolding lookup_node merge
  holders s key =
      let (s', candidates) = lookup_node wire rpc s key in
      (s', merge key candidates (rpc.my_contact ∷ []))

  unfoldable pub lookup_values :
      Local S rpc.World → Key → (Value → Bool) → Bool → Local S rpc.World × List (Contact × Value)
  unfolding holders probe
  lookup_values s key accept stop_at_first =
      let (s', candidates) = holders s key in
      let (s'', p) =
        probe (suc (length candidates)) key accept stop_at_first s'
          (record { waiting = candidates; in_flight = []; found = [] }) in
      (s'', p.found)

  -- `into_iter().next()?`, and the bytes of a blob.
  unfoldable pub first_blob : List (Contact × Value) → Option (Contact × List ℕ)
  first_blob [] = none
  first_blob ((source, blob bytes) ∷ rest) = some (source, bytes)
  first_blob ((source, latest pointer) ∷ rest) = none

  -- `filter_map`
  unfoldable pub pointers : List (Contact × Value) → List (Signed LatestPointer)
  pointers [] = []
  pointers ((source, latest pointer) ∷ rest) = pointer ∷ pointers rest
  pointers ((source, blob bytes) ∷ rest) = pointers rest

  -- `max_by_key`, from the best one so far on: of equal ones, the last.
  unfoldable pub newest_from :
      Signed LatestPointer → List (Signed LatestPointer) → Signed LatestPointer
  unfolding version_lt
  newest_from best [] = best
  newest_from best (pointer ∷ rest) =
      if version_lt pointer.body.version best.body.version
      then newest_from best rest
      else newest_from pointer rest

  unfoldable pub newest : List (Signed LatestPointer) → Option (Signed LatestPointer)
  unfolding newest_from
  newest [] = none
  newest (pointer ∷ rest) = some (newest_from pointer rest)

  -- The loop over the targets, with the count so far.
  unfoldable pub store_at :
      Local S rpc.World → List Contact → Key → Value → List Record → ℕ → Local S rpc.World × ℕ
  unfolding store_with_proof
  store_at s [] key v proof accepted = (s, accepted)
  store_at s (target ∷ targets) key v proof accepted =
      let (s', ok) = store_with_proof wire rpc s target key v proof in
      store_at s' targets key v proof (if ok then suc accepted else accepted)

  module _ (lib : Libraries) where
    unfoldable pub is_blob_of : Key → Value → Bool
    unfolding key_for_value
    is_blob_of key (blob bytes) = is_key (key_for_value lib bytes) key
    is_blob_of key (latest pointer) = false

    unfoldable pub lookup_value :
        Local S rpc.World → Key → Local S rpc.World × Option (Contact × List ℕ)
    unfolding lookup_values is_blob_of first_blob
    lookup_value s key =
        let (s', found) = lookup_values s key (is_blob_of key) true in (s', first_blob found)

    unfoldable pub is_latest_of : lib.VerifyingKey → Str → Str → Value → Bool
    unfolding latest_is_valid
    is_latest_of owner domain package_name (blob bytes) = false
    is_latest_of owner domain package_name (latest pointer) =
        is_str pointer.body.domain domain
        && is_str pointer.body.package_name package_name
        && latest_is_valid lib pointer owner

    -- Behind the DNS query.
    unfoldable pub latest_signed_by :
        lib.VerifyingKey
        → Local S rpc.World
        → Str
        → Str
        → Local S rpc.World × Option (Signed LatestPointer)
    unfolding lookup_values is_latest_of pointers newest latest_key
    latest_signed_by owner s domain package_name =
        let (s', found) =
          lookup_values s (latest_key lib domain package_name)
            (is_latest_of owner domain package_name) false in
        (s', newest (pointers found))

    unfoldable pub get_latest :
        (Str → Option lib.VerifyingKey)
        → Local S rpc.World
        → Str
        → Str
        → Local S rpc.World × Option (Signed LatestPointer)
    unfolding latest_signed_by
    get_latest get_dns_vk s domain package_name = elim (get_dns_vk domain) [
      | none ↦ (s, none)
      | some owner ↦ latest_signed_by owner s domain package_name
    ]

    unfoldable pub store_value_with_proof :
        Local S rpc.World → Value → List Record → Local S rpc.World × Key × ℕ
    unfolding value_key holders store_at
    store_value_with_proof s v proof =
        let key = value_key lib v in
        let (s', targets) = holders s key in
        let (s'', accepted) = store_at s' targets key v proof 0 in (s'', key, accepted)

    unfoldable pub store_value : Local S rpc.World → Value → Local S rpc.World × Key
    unfolding store_value_with_proof
    store_value s v = let (s', key, accepted) = store_value_with_proof s v [] in (s', key)
