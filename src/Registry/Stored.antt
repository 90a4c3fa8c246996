-- ===== src/Registry/Stored.antt =====
-- src/registry.rs, `publish_package`: what a publication that succeeded has stored, and where.
use kademlia_packet_manager.Prelude.{ℕ, ◌≡◌, ◌⊎◌, Bool, true, Option, none, some, List, []}
use kademlia_packet_manager.Package.{Str, Version, Libraries}
use kademlia_packet_manager.VersionChain.{Record}
use kademlia_packet_manager.Store.{blob, latest}
use kademlia_packet_manager.Rpc.{Wire, Rpc, Local}
use kademlia_packet_manager.Lookup.Values.{get_latest}
use kademlia_packet_manager.Lookup.Stored.{IsStoredAt}
use kademlia_packet_manager.Registry.Prepared.{IsPublication}
use kademlia_packet_manager.Registry.{success, PreparedPublication, not_continuing}
use kademlia_packet_manager.Registry.Publish.{PublishReceipt, existing_history}

module _ (wire : Wire) {S : Type 0} (rpc : Rpc S) (lib : Libraries)
    (get_dns_vk : Str → Option lib.VerifyingKey) where
  abbrev State : Type 0
  State = Local S rpc.World

  -- From `s` to `s'` the blob, the record and the pointer of a publication were stored, one after the
  -- other, as the receipt says.
  pub record AreStored (p : PreparedPublication) (s s' : State) (r : PublishReceipt) : Type 0 where
    pub after_blob : State
    pub after_record : State
    pub record_bytes : List ℕ
    pub encoded : lib.serialize_record p.signed_record ≡ some record_bytes
    pub blob_stored :
        IsStoredAt wire rpc lib s after_blob (blob p.blob) [] r.blob_key r.blob_accepted
    pub record_stored :
        IsStoredAt wire rpc lib after_blob after_record
          (blob record_bytes)
          []
          r.record_key
          r.record_accepted
    pub latest_stored :
        IsStoredAt wire rpc lib after_record s'
          (latest p.pointer)
          p.proof
          r.latest_key
          r.latest_accepted

  module _ (domain package_name : Str) (version : Version) (bytes : List ℕ)
      (signer : lib.SigningKey) (previous : Option Version) (force : Bool) where
    -- A call from `s` to `s'`: on the history that the network has, a publication that the guards let
    -- through was prepared and stored, by the key that the DNS names for the domain or with force.
    pub record IsPublished (s s' : State) (r : PublishReceipt) : Type 0 where
      pub existing : List Record
      pub loaded : State
      pub p : PreparedPublication
      pub history :
          existing_history wire rpc lib get_dns_vk
            (get_latest wire rpc lib get_dns_vk s domain package_name).0
            (get_latest wire rpc lib get_dns_vk s domain package_name).1
          ≡ (loaded, success existing)
      pub index : Option ℕ
      pub publication : IsPublication lib domain package_name version bytes signer existing index p
      pub guarded : not_continuing force existing version index ≡ none
      pub stored : AreStored p loaded s' r
      pub owner : (force ≡ true) ⊎ (get_dns_vk domain ≡ some (lib.verifying_key signer))
