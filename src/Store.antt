-- ===== src/Store.antt =====
-- src/value.rs and src/handle_rpc/store.rs: what a node keeps for the network, and when it takes it.
pub mod Accepted
pub mod History
use kademlia_packet_manager.Prelude.{
  ℕ, ◌≡◌, Bool, true, false, Option, none, some, List, [], ◌∷◌, ◌&&◌, not, holds, if◌then◌else◌,
  list_discrete, ℕ_discrete,
}
use kademlia_packet_manager.DashMap.{DashMap}
use kademlia_packet_manager.CloseNodes.{Key, id_discrete}
use kademlia_packet_manager.Package.{
  Str, Version, version_lt, is_version, Signed, VersionRecord, LatestPointer, Libraries, is_key,
  key_for_value, latest_key, record_key, latest_is_valid,
}
use kademlia_packet_manager.VersionChain.{Record, Result, ok, err}
use kademlia_packet_manager.VersionChain.Compare.{version_discrete}
use kademlia_packet_manager.VersionChain.Proof.{validate_chain_proof}

pub data Value : Type 0 where
  blob : List ℕ → Value
  latest : Signed LatestPointer → Value

pub record StoreRequest : Type 0 where
  pub key : Key
  pub value : Value
  pub proof : List Record

-- `STORED`, the bytes of the acknowledgement.
abbrev pub stored : List ℕ
stored = 83 ∷ 84 ∷ 79 ∷ 82 ∷ 69 ∷ 68 ∷ []

-- The derived `PartialEq`.
unfoldable pub pointer_discrete : Discrete LatestPointer
unfolding list_discrete ℕ_discrete id_discrete version_discrete
pointer_discrete a b = elim (list_discrete ℕ_discrete a.tag b.tag) [
  | no n ↦ no (λ e. n (cc e))
  | yes p ↦ elim (list_discrete ℕ_discrete a.domain b.domain) [
    | no n ↦ no (λ e. n (cc e))
    | yes q ↦ elim (list_discrete ℕ_discrete a.package_name b.package_name) [
      | no n ↦ no (λ e. n (cc e))
      | yes r ↦ elim (version_discrete a.version b.version) [
        | no n ↦ no (λ e. n (cc e))
        | yes s ↦ elim (id_discrete a.version_record_hash b.version_record_hash) [
          | no n ↦ no (λ e. n (cc e))
          | yes t ↦ yes (λ i. record {
            tag = p i;
            domain = q i;
            package_name = r i;
            version = s i;
            version_record_hash = t i;
          })
        ]
      ]
    ]
  ]
]

unfoldable pub signed_pointer_discrete : Discrete (Signed LatestPointer)
unfolding list_discrete ℕ_discrete pointer_discrete
signed_pointer_discrete a b = elim (pointer_discrete a.body b.body) [
  | no n ↦ no (λ e. n (cc e))
  | yes p ↦ elim (list_discrete ℕ_discrete a.sig b.sig) [
    | no n ↦ no (λ e. n (cc e))
    | yes q ↦ yes (λ i. record { body = p i; sig = q i })
  ]
]

module _ (lib : Libraries) where
  -- `Value::key`
  unfoldable pub value_key : Value → Key
  unfolding key_for_value latest_key
  value_key (blob bytes) = key_for_value lib bytes
  value_key (latest pointer) = latest_key lib pointer.body.domain pointer.body.package_name

  -- `record_key(record) == Some(hash) && record.body.version == version`
  unfoldable pub is_record_of : Signed LatestPointer → Record → Bool
  unfolding record_key is_version
  is_record_of old signed = elim (record_key lib signed) [
    | none ↦ false
    | some key ↦
        is_key key old.body.version_record_hash && is_version signed.body.version old.body.version
  ]

  unfoldable pub any_record_of : Signed LatestPointer → List Record → Bool
  unfolding is_record_of
  any_record_of old [] = false
  any_record_of old (r ∷ rs) = if is_record_of old r then true else any_record_of old rs

  unfoldable pub continues_previous :
      Signed LatestPointer → Signed LatestPointer → List Record → Bool
  unfolding signed_pointer_discrete version_lt any_record_of
  continues_previous old proposed verified_chain =
      if holds (signed_pointer_discrete old proposed)
      then true
      else if not (version_lt old.body.version proposed.body.version)
      then false
      else any_record_of old verified_chain

  -- The node's map of values, and what it asks of the DNS and of `bincode`.
  module _ (map : DashMap Key Value) (get_dns_vk : Str → Option lib.VerifyingKey)
      (deserialize_request : List ℕ → Option StoreRequest) where
    -- The values after the request, and the reply.
    abbrev pub Reply : Type 0
    Reply = map.Map × Option (List ℕ)

    -- `Value::Blob`, with the proof that came along.
    unfoldable pub store_blob : map.Map → Key → List ℕ → List Record → Reply
    store_blob values key bytes [] = elim (map.get values key) [
      | some (latest old) ↦ (values, none)
      | some (blob old) ↦ (map.insert values key (blob bytes), some stored)
      | none ↦ (map.insert values key (blob bytes), some stored)
    ]
    store_blob values key bytes (r ∷ proof) = (values, none)

    -- The slot of a pointer whose history was verified.
    unfoldable pub replace_latest : map.Map → Key → Signed LatestPointer → List Record → Reply
    unfolding continues_previous
    replace_latest values key pointer verified_chain = elim (map.get values key) [
      | none ↦ (map.insert values key (latest pointer), some stored)
      | some (blob old) ↦ (map.insert values key (latest pointer), some stored)
      | some (latest old) ↦
          if not (continues_previous old pointer verified_chain)
          then (values, none)
          else (map.insert values key (latest pointer), some stored)
    ]

    unfoldable pub store_latest : map.Map → Key → Signed LatestPointer → List Record → Reply
    unfolding replace_latest latest_is_valid validate_chain_proof
    store_latest values key pointer proof = elim (get_dns_vk pointer.body.domain) [
      | none ↦ (values, none)
      | some owner ↦ elim (latest_is_valid lib pointer owner) [
        | false ↦ (values, none)
        | true ↦ elim (validate_chain_proof lib pointer owner proof) [
          | some (ok verified_chain) ↦ replace_latest values key pointer verified_chain
          | some (err error) ↦ (values, none)
          | none ↦ (values, none)
        ]
      ]
    ]

    -- A request that could be decoded.
    unfoldable pub serve : map.Map → StoreRequest → Reply
    unfolding store_blob store_latest value_key
    serve values request =
        if not (is_key request.key (value_key request.value))
        then (values, none)
        else elim request.value [
          | blob bytes ↦ store_blob values request.key bytes request.proof
          | latest pointer ↦ store_latest values request.key pointer request.proof
        ]

    unfoldable pub handle : map.Map → List ℕ → Reply
    unfolding serve
    handle values body = elim (deserialize_request body) [
      | none ↦ (values, none)
      | some request ↦ serve values request
    ]
