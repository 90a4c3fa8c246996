-- ===== src/Registry.antt =====
-- src/registry.rs: publishing a version of a package, installing one, and listing them.
pub mod Prepared
pub mod Continuation
pub mod Taken
pub mod Publish
pub mod Stored
pub mod Install
use kademlia_packet_manager.Prelude.{
  ℕ, zero, suc, ◌≡◌, Bool, true, false, Option, none, some, List, [], ◌∷◌, ◌++◌, ◌&&◌, ◌||◌, not,
  ◌==◌, if◌then◌else◌, get_elem?, drop, replicate,
}
use kademlia_packet_manager.CloseNodes.{Key}
use kademlia_packet_manager.Package.{
  Str, Version, version_lt, is_version, Signed, VersionRecord, LatestPointer, Libraries,
  version_record_tag, latest_pointer_tag, is_str, key_for_value, record_key, sign,
}
use kademlia_packet_manager.VersionChain.{Record, ChainError, end_of_chain}

pub data PublishError : Type 0 where
  version_not_newer : PublishError
  previous_not_found : PublishError
  previous_not_latest : PublishError
  wrong_package_history : PublishError
  encoding_failed : PublishError
  no_dns_key : PublishError
  wrong_signing_key : PublishError
  invalid_existing_history : ChainError → PublishError
  blob_not_stored : PublishError
  record_not_stored : PublishError
  pointer_not_stored : PublishError

-- `Result`
pub data Attempt (A E : Type 0) : Type 0 where
  success : A → Attempt A E
  failure : E → Attempt A E

-- `ok_or`, and `?` behind it.
abbrev pub or_failure : {A B E : Type 0} → Option A → E → (A → Attempt B E) → Attempt B E
or_failure none e f = failure e
or_failure (some a) e f = f a

pub record PreparedPublication : Type 0 where
  pub blob : List ℕ
  pub signed_record : Record
  pub pointer : Signed LatestPointer
  pub proof : List Record

-- `existing.iter().any(|record| ..)`
unfoldable pub other_package : Str → Str → List Record → Bool
other_package domain package_name [] = false
other_package domain package_name (r ∷ rs) =
    if not (is_str r.body.domain domain) || not (is_str r.body.package_name package_name)
    then true
    else other_package domain package_name rs

-- `existing.iter().position(|record| ..)`
unfoldable pub position_of : Version → List Record → Option ℕ
unfolding is_version
position_of requested [] = none
position_of requested (r ∷ rs) =
    let later = position_of requested rs in
    if is_version r.body.version requested
    then some 0
    else elim later [ none ↦ none | some i ↦ some (suc i) ]

-- The record to continue: `none` for the first version of all.
unfoldable pub previous_index : List Record → Option Version → Attempt (Option ℕ) PublishError
unfolding position_of
previous_index existing (some requested) =
    or_failure (position_of requested existing) previous_not_found (λ i. success (some i))
previous_index [] none = success none
previous_index (r ∷ rs) none = success (some 0)

-- `previous_index == Some(0)`
unfoldable pub is_head : Option ℕ → Bool
is_head none = false
is_head (some i) = i == 0

-- What keeps an unforced publication from continuing the history.
unfoldable pub not_continuing : Bool → List Record → Version → Option ℕ → Option PublishError
unfolding version_lt is_head
not_continuing true existing version index = none
not_continuing false [] version index = none
not_continuing false (head ∷ rest) version index =
    if not (version_lt head.body.version version)
    then some version_not_newer
    else if not (is_head index)
    then some previous_not_latest
    else none

-- The records from an index on.
unfoldable pub continued : List Record → Option ℕ → List Record
continued existing none = []
continued existing (some i) = drop i existing

module _ (lib : Libraries) where
  -- The hash that the new record names. An index is in bounds.
  unfoldable pub prev_hash : List Record → Option ℕ → Option Key
  unfolding record_key
  prev_hash existing none = some end_of_chain
  prev_hash existing (some i) = elim (get_elem? existing i) [
    | none ↦ none
    | some r ↦ record_key lib r
  ]

  module _ (domain package_name : Str) (version : Version) (blob : List ℕ)
      (signer : lib.SigningKey) where
    unfoldable pub new_record : Key → Option Record
    unfolding sign key_for_value
    new_record prev =
        sign lib lib.serialize_record_body
          (record {
            tag = version_record_tag;
            domain = domain;
            package_name = package_name;
            version = version;
            blob_hash = key_for_value lib blob;
            prev = prev;
          })
          signer

    unfoldable pub new_pointer : Key → Option (Signed LatestPointer)
    unfolding sign
    new_pointer hash =
        sign lib lib.serialize_latest_body
          (record {
            tag = latest_pointer_tag;
            domain = domain;
            package_name = package_name;
            version = version;
            version_record_hash = hash;
          })
          signer

    -- The signing, once the record to continue is known.
    unfoldable pub sign_publication :
        List Record → Option ℕ → Attempt PreparedPublication PublishError
    unfolding prev_hash new_record new_pointer record_key continued
    sign_publication existing index = or_failure (prev_hash existing index) encoding_failed (λ prev.
        or_failure (new_record prev) encoding_failed (λ signed.
          or_failure (record_key lib signed) encoding_failed (λ hash.
            or_failure (new_pointer hash) encoding_failed (λ pointer. success (record {
              blob = blob;
              signed_record = signed;
              pointer = pointer;
              proof = signed ∷ continued existing index;
            })))))

    unfoldable pub prepare_publication :
        List Record → Option Version → Bool → Attempt PreparedPublication PublishError
    unfolding other_package previous_index not_continuing sign_publication
    prepare_publication existing previous force =
        if other_package domain package_name existing
        then failure wrong_package_history
        else elim (previous_index existing previous) [
          | failure e ↦ failure e
          | success index ↦ elim (not_continuing force existing version index) [
            | some e ↦ failure e
            | none ↦ sign_publication existing index
          ]
        ]
