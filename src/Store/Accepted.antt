-- ===== src/Store/Accepted.antt =====
-- What a request may change in the values that a node keeps.
use kademlia_packet_manager.Prelude.{
  ℕ, ◌≡◌, ◌⊎◌, ◌∙◌, refl, ap, true, false, Option, none, some, List, [], ◌∷◌, holds, Bool-cases,
  Option-cases, inl, inr, holds-yes,
}
use kademlia_packet_manager.DashMap.{DashMap}
use kademlia_packet_manager.CloseNodes.{Key}
use kademlia_packet_manager.Package.{
  Str, version_lt, Signed, LatestPointer, Libraries, is_key, latest_is_valid,
}
use kademlia_packet_manager.VersionChain.{Record}
use kademlia_packet_manager.VersionChain.Proof.{validate_chain_proof-IsHistory, Result-cases}
use kademlia_packet_manager.VersionChain.Spec.{is_key-true, IsHistory}
use kademlia_packet_manager.Store.{
  Value, blob, latest, StoreRequest, signed_pointer_discrete, value_key, any_record_of,
  continues_previous, store_blob, replace_latest, store_latest, serve, handle, stored,
}

module _ (lib : Libraries) (map : DashMap Key Value) (get_dns_vk : Str → Option lib.VerifyingKey)
    (deserialize_request : List ℕ → Option StoreRequest) where
  -- A value may take the place of what a slot holds: a blob that of a blob, and a pointer that the
  -- owner signed, with a history that was verified, that of anything but a pointer that it neither
  -- equals nor continues.
  abbrev pub Replaces : Option Value → Value → Type 0
  Replaces none v = Unit
  Replaces (some (blob old)) v = Unit
  Replaces (some (latest old)) (blob bytes) = ⊥
  Replaces (some (latest old)) (latest new) =
      (old ≡ new)
      ⊎ (version_lt old.body.version new.body.version ≡ true)
        × ((owner : lib.VerifyingKey) × (chain : List Record) × IsHistory lib new owner
              new.body.domain new.body.package_name chain
            × (any_record_of lib old chain ≡ true))

  abbrev pub IsOwned : Value → Type 0
  IsOwned (blob bytes) = Unit
  IsOwned (latest pointer) =
      (owner : lib.VerifyingKey) × (get_dns_vk pointer.body.domain ≡ some owner)
      × (latest_is_valid lib pointer owner ≡ true)

  -- A request leaves the values as they are, or puts one value under its own key.
  pub data Outcome (values : map.Map) : map.Map × Option (List ℕ) → Type 0 where
    declined : Outcome values (values, none)
    stored_value :
        (v : Value) (reply : List ℕ)
        → IsOwned v
        → Replaces (map.get values (value_key lib v)) v
        → Outcome values (map.insert values (value_key lib v) v, some reply)

  continues_previous-Replaces :
      (old new : Signed LatestPointer) (owner : lib.VerifyingKey) (chain : List Record)
      → IsHistory lib new owner new.body.domain new.body.package_name chain
      → continues_previous lib old new chain ≡ true
      → Replaces (some (latest old)) (latest new)
  unfolding continues_previous
  continues_previous-Replaces old new owner chain h e =
      elim (Bool-cases (holds (signed_pointer_discrete old new))) [
        | inl p ↦ inl (holds-yes (signed_pointer_discrete old new) p)
        | inr n ↦ elim (Bool-cases (version_lt old.body.version new.body.version)) [
          | inl higher ↦ elim (Bool-cases (any_record_of lib old chain)) [
            | inl known ↦ inr (higher, (owner, chain, h, known))
            | inr unknown ↦
                let refused : continues_previous lib old new chain ≡ false =
                  rw (n, higher, unknown, continues_previous) refl in
                cc (refused, e)
          ]
          | inr lower ↦
              let refused : continues_previous lib old new chain ≡ false =
                rw (n, lower, continues_previous) refl in
              cc (refused, e)
        ]
      ]

  store_blob-Outcome :
      (values : map.Map) (bytes : List ℕ) (proof : List Record)
      → Outcome values (
          store_blob lib map get_dns_vk deserialize_request values
            (value_key lib (blob bytes))
            bytes
            proof)
  unfolding store_blob
  store_blob-Outcome values bytes (r ∷ proof) = declined
  store_blob-Outcome values bytes [] =
      elim (Option-cases (map.get values (value_key lib (blob bytes)))) [
        | inl absent ↦ rw (absent, store_blob) (stored_value (blob bytes) stored tt (rw absent tt))
        | inr (latest old, found) ↦ rw (found, store_blob) declined
        | inr (blob old, found) ↦
            rw (found, store_blob) (stored_value (blob bytes) stored tt (rw found tt))
      ]

  replace_latest-Outcome :
      (values : map.Map) (pointer : Signed LatestPointer) (owner : lib.VerifyingKey)
      (chain : List Record)
      → get_dns_vk pointer.body.domain ≡ some owner
      → IsHistory lib pointer owner pointer.body.domain pointer.body.package_name chain
      → Outcome values (
          replace_latest lib map get_dns_vk deserialize_request values
            (value_key lib (latest pointer))
            pointer
            chain)
  unfolding replace_latest
  replace_latest-Outcome values pointer owner chain dns h =
      let owned : IsOwned (latest pointer) = (owner, dns, h.pointer_valid) in
      elim (Option-cases (map.get values (value_key lib (latest pointer)))) [
        | inl absent ↦
            rw (absent, replace_latest) (stored_value (latest pointer) stored owned (rw absent tt))
        | inr (blob old, found) ↦
            rw (found, replace_latest) (stored_value (latest pointer) stored owned (rw found tt))
        | inr (latest old, found) ↦ elim (Bool-cases (continues_previous lib old pointer chain)) [
          | inl go ↦
              rw (found, replace_latest, go)
                (stored_value (latest pointer) stored owned
                  (rw found (continues_previous-Replaces old pointer owner chain h go)))
          | inr stop ↦ rw (found, replace_latest, stop) declined
        ]
      ]

  store_latest-Outcome :
      (values : map.Map) (pointer : Signed LatestPointer) (proof : List Record)
      → Outcome values (
          store_latest lib map get_dns_vk deserialize_request values
            (value_key lib (latest pointer))
            pointer
            proof)
  unfolding store_latest
  store_latest-Outcome values pointer proof = elim (Option-cases (get_dns_vk pointer.body.domain)) [
    | inl absent ↦ rw (absent, store_latest) declined
    | inr (owner, dns) ↦ elim (Bool-cases (latest_is_valid lib pointer owner)) [
      | inr forged ↦ rw (dns, store_latest, forged) declined
      | inl valid ↦
          let (r, judged, good) = validate_chain_proof-IsHistory lib pointer owner proof in
          elim (Result-cases r) [
            | inr (error, bad) ↦ rw (dns, store_latest, valid, judged ∙ ap some bad) declined
            | inl (chain, history) ↦
                rw (dns, store_latest, valid, judged ∙ ap some history)
                  (replace_latest-Outcome values pointer owner chain dns (good chain history).1)
          ]
    ]
  ]

  serve-Outcome :
      (values : map.Map) (request : StoreRequest)
      → Outcome values (serve lib map get_dns_vk deserialize_request values request)
  unfolding serve
  serve-Outcome values request =
      elim (Bool-cases (is_key request.key (value_key lib request.value))) [
        | inr other ↦ rw (other, serve) declined
        | inl same ↦
            rw (same, serve)
              (by_value request.value request.key
                (is_key-true request.key (value_key lib request.value) same))
      ]
    where
      by_value :
          (v : Value) (key : Key)
          → key ≡ value_key lib v
          → Outcome values (elim v [
            | blob bytes ↦
                store_blob lib map get_dns_vk deserialize_request values key bytes request.proof
            | latest pointer ↦
                store_latest lib map get_dns_vk deserialize_request values key pointer request.proof
          ])
      by_value (blob bytes) key e = rw e (store_blob-Outcome values bytes request.proof)
      by_value (latest pointer) key e = rw e (store_latest-Outcome values pointer request.proof)

  -- Whatever bytes come in, a request leaves the values as they are and gets no reply, or puts one
  -- value under the key of its own and is acknowledged. Such a value replaces a pointer only if it is
  -- the same pointer, or one of a higher version that the domain's owner signed, whose verified history
  -- holds the record of the old one.
  pub handle-Outcome :
      (values : map.Map) (body : List ℕ)
      → Outcome values (handle lib map get_dns_vk deserialize_request values body)
  unfolding handle
  handle-Outcome values body = elim (Option-cases (deserialize_request body)) [
    | inl bad ↦ rw (bad, handle) declined
    | inr (request, good) ↦ rw (good, handle) (serve-Outcome values request)
  ]
