-- ===== src/Registry/Publish.antt =====
-- src/registry.rs, `publish_package`: preparing a publication, and storing its parts one after the
-- other.
use kademlia_packet_manager.Prelude.{
  ℕ, ◌≡◌, ◌≢◌, ◌⊎◌, ◌∙◌, refl, sym, ap, Bool, true, false, Option, none, some, List, [], ◌==◌, not,
  holds, if◌then◌else◌, Bool-cases, Option-cases, inl, inr, holds-yes,
}
use kademlia_packet_manager.CloseNodes.{Key}
use kademlia_packet_manager.Package.{Str, Version, Signed, LatestPointer, Libraries}
use kademlia_packet_manager.VersionChain.{Record, ok, err}
use kademlia_packet_manager.VersionChain.Load.{load_chain_from_pointer}
use kademlia_packet_manager.Store.{blob, latest}
use kademlia_packet_manager.Rpc.{Wire, Rpc, Local}
use kademlia_packet_manager.Lookup.Values.{get_latest, store_value_with_proof}
use kademlia_packet_manager.Registry.{
  PublishError, Attempt, success, failure, PreparedPublication, no_dns_key, wrong_signing_key,
  invalid_existing_history, blob_not_stored, record_not_stored, pointer_not_stored, encoding_failed,
  prepare_publication,
}

pub record PublishReceipt : Type 0 where
  pub blob_key : Key
  pub record_key : Key
  pub latest_key : Key
  pub blob_accepted : ℕ
  pub record_accepted : ℕ
  pub latest_accepted : ℕ

module _ (wire : Wire) {S : Type 0} (rpc : Rpc S) (lib : Libraries)
    (get_dns_vk : Str → Option lib.VerifyingKey) where
  abbrev pub State : Type 0
  State = Local S rpc.World

  abbrev pub Published : Type 0
  Published = State × Attempt PublishReceipt PublishError

  -- The key that the domain's DNS record must name.
  unfoldable pub signer_error : Bool → lib.SigningKey → Str → Option PublishError
  signer_error true signer domain = none
  signer_error false signer domain = elim (get_dns_vk domain) [
    | none ↦ some no_dns_key
    | some owner ↦
        if not (holds (lib.key_discrete (lib.verifying_key signer) owner))
        then some wrong_signing_key
        else none
  ]

  -- `load_chain_from_pointer(..).map_err(..)`, or no history where there is no pointer.
  unfoldable pub existing_history :
      State → Option (Signed LatestPointer) → State × Attempt (List Record) PublishError
  unfolding load_chain_from_pointer
  existing_history s none = (s, success [])
  existing_history s (some pointer) =
      let (s', loaded) = load_chain_from_pointer wire rpc lib get_dns_vk s pointer in
      elim loaded [
        | ok history ↦ (s', success history)
        | err e ↦ (s', failure (invalid_existing_history e))
      ]

  unfoldable pub store_pointer : State → PreparedPublication → Key → ℕ → Key → ℕ → Published
  unfolding store_value_with_proof
  store_pointer s p blob_key blob_accepted record_key record_accepted =
      let (s', latest_key, latest_accepted) =
        store_value_with_proof wire rpc lib s (latest p.pointer) p.proof in
      if latest_accepted == 0 then (s', failure pointer_not_stored) else (
        s',
        success (record {
          blob_key = blob_key;
          record_key = record_key;
          latest_key = latest_key;
          blob_accepted = blob_accepted;
          record_accepted = record_accepted;
          latest_accepted = latest_accepted;
        }),
      )

  unfoldable pub store_record : State → PreparedPublication → Key → ℕ → Published
  unfolding store_value_with_proof store_pointer
  store_record s p blob_key blob_accepted = elim (lib.serialize_record p.signed_record) [
    | none ↦ (s, failure encoding_failed)
    | some record_bytes ↦
        let (s', record_key, record_accepted) =
          store_value_with_proof wire rpc lib s (blob record_bytes) [] in
        let stored = store_pointer s' p blob_key blob_accepted record_key record_accepted in
        if record_accepted == 0 then (s', failure record_not_stored) else stored
  ]

  -- The blob, the record and the pointer, in this order.
  unfoldable pub store_publication : State → PreparedPublication → Published
  unfolding store_value_with_proof store_record
  store_publication s p =
      let (s', blob_key, blob_accepted) = store_value_with_proof wire rpc lib s (blob p.blob) [] in
      let stored = store_record s' p blob_key blob_accepted in
      if blob_accepted == 0 then (s', failure blob_not_stored) else stored

  -- Behind the history.
  unfoldable pub publish_on :
      State
      → Str
      → Str
      → Version
      → List ℕ
      → lib.SigningKey
      → List Record
      → Option Version
      → Bool
      → Published
  unfolding prepare_publication store_publication
  publish_on s domain package_name version bytes signer existing previous force =
      elim (prepare_publication lib domain package_name version bytes signer existing previous
        force) [ failure e ↦ (s, failure e) | success prepared ↦ store_publication s prepared ]

  -- Behind the check of the signer.
  unfoldable pub publish_signed :
      State → Str → Str → Version → List ℕ → lib.SigningKey → Option Version → Bool → Published
  unfolding get_latest existing_history publish_on
  publish_signed s domain package_name version bytes signer previous force =
      let (s', found) = get_latest wire rpc lib get_dns_vk s domain package_name in
      let (s'', history) = existing_history s' found in
      elim history [
        | failure e ↦ (s'', failure e)
        | success existing ↦
            publish_on s'' domain package_name version bytes signer existing previous force
      ]

  unfoldable pub publish_package :
      State → Str → Str → Version → List ℕ → lib.SigningKey → Option Version → Bool → Published
  unfolding signer_error publish_signed
  publish_package s domain package_name version bytes signer previous force =
      elim (signer_error force signer domain) [
        | some e ↦ (s, failure e)
        | none ↦ publish_signed s domain package_name version bytes signer previous force
      ]

  -- Without force, a key that the DNS does not name for the domain publishes nothing: the call fails
  -- before anything is sent, with `no_dns_key` or with `wrong_signing_key`.
  pub publish_package-refused :
      (s : State) (domain package_name : Str) (version : Version) (bytes : List ℕ)
      (signer : lib.SigningKey) (previous : Option Version)
      → get_dns_vk domain ≢ some (lib.verifying_key signer)
      → (publish_package s domain package_name version bytes signer previous false
          ≡ (s, failure no_dns_key))
        ⊎ (publish_package s domain package_name version bytes signer previous false
            ≡ (s, failure wrong_signing_key))
  unfolding publish_package signer_error
  publish_package-refused s domain package_name version bytes signer previous n =
      elim (Option-cases (get_dns_vk domain)) [
        | inl absent ↦ inl (rw (absent, publish_package, signer_error) refl)
        | inr (owner, dns) ↦
            elim (Bool-cases (holds (lib.key_discrete (lib.verifying_key signer) owner))) [
              | inl same ↦
                  let it = holds-yes (lib.key_discrete (lib.verifying_key signer) owner) same in
                  absurd (n (dns ∙ ap some (sym it)))
              | inr other ↦ inr (rw (dns, publish_package, signer_error, other) refl)
            ]
      ]
