-- ===== src/Registry/Taken.antt =====
-- src/registry.rs and src/handle_rpc/store.rs: the nodes that have the old pointer take the new one.
use kademlia_packet_manager.Prelude.{
  ◌<◌, ◌≡◌, ◌≢◌, ◌∙◌, refl, sym, ap, subst, true, false, Option, some, List, [], ℕ, length,
}
use kademlia_packet_manager.DashMap.{DashMap}
use kademlia_packet_manager.CloseNodes.{Key}
use kademlia_packet_manager.Package.{
  Str, Version, Signed, LatestPointer, Libraries, contains, colon,
}
use kademlia_packet_manager.VersionChain.{Record, end_of_chain, max_chain_length}
use kademlia_packet_manager.VersionChain.Spec.{IsHistory, is_key_of}
use kademlia_packet_manager.VersionChain.Proof.{lookup}
use kademlia_packet_manager.VersionChain.Complete.{Unseen}
use kademlia_packet_manager.VersionChain.Taken.{validate_chain_proof-accepts}
use kademlia_packet_manager.Store.{
  Value, latest, StoreRequest, stored, value_key, continues_previous, replace_latest, store_latest,
  serve, handle,
}
use kademlia_packet_manager.Registry.{success, PreparedPublication, prepare_publication}
use kademlia_packet_manager.Registry.Continuation.{prepare_publication-continues}

module _ (lib : Libraries) (domain package_name : Str) (signer : lib.SigningKey) where
  abbrev owner : lib.VerifyingKey
  owner = lib.verifying_key signer

  -- No two records of a proof stand under one key, from the one that the pointer names on.
  abbrev pub KeysApart : Signed LatestPointer → List Record → Type 0
  KeysApart pointer chain =
      Unseen lib pointer (lib.verifying_key signer) pointer.body.domain pointer.body.package_name
        (lookup lib pointer (lib.verifying_key signer) []) [] pointer.body.version_record_hash chain

  module _ (map : DashMap Key Value) (get_dns_vk : Str → Option lib.VerifyingKey)
      (deserialize_request : List ℕ → Option StoreRequest) where
    -- A request with the verified history of a pointer, where the slot has a pointer that it continues.
    handle-replaces :
        (old pointer : Signed LatestPointer) (proof : List Record) (values : map.Map)
        (body : List ℕ)
        → IsHistory lib pointer owner domain package_name proof
        → KeysApart pointer proof
        → continues_previous lib old pointer proof ≡ true
        → get_dns_vk domain ≡ some owner
        → map.get values (value_key lib (latest pointer)) ≡ some (latest old)
        → deserialize_request body
          ≡ some (record {
            key = value_key lib (latest pointer);
            value = latest pointer;
            proof = proof;
          })
        → handle lib map get_dns_vk deserialize_request values body
          ≡ (map.insert values (value_key lib (latest pointer)) (latest pointer), some stored)
    unfolding handle serve
    handle-replaces old pointer proof values body h apart continuing dns slot decoded =
        let key = value_key lib (latest pointer) in
        let named : get_dns_vk pointer.body.domain ≡ some owner =
          ap get_dns_vk h.domain_same ∙ dns in
        let whole : IsHistory lib pointer owner pointer.body.domain pointer.body.package_name
            proof =
          subst (λ d. IsHistory lib pointer owner d pointer.body.package_name proof)
            (sym h.domain_same)
            (subst (λ n. IsHistory lib pointer owner domain n proof) (sym h.package_same) h) in
        let judged = validate_chain_proof-accepts lib pointer owner proof whole apart in
        let taken : replace_latest lib map get_dns_vk deserialize_request values key pointer proof
            ≡ (map.insert values key (latest pointer), some stored) =
          rw (slot, replace_latest, continuing) refl in
        let latest_taken : store_latest lib map get_dns_vk deserialize_request values key pointer
              proof
            ≡ (map.insert values key (latest pointer), some stored) =
          rw (named, store_latest, h.pointer_valid, judged) taken in
        rw (decoded, handle, is_key_of key key refl) latest_taken

    module _ (version : Version) (blob : List ℕ) where
      -- An unforced publication on top of the verified history of an old pointer, for a domain without a
      -- colon, is taken by every node that has the old pointer in the slot and for which the DNS names
      -- the signer: the STORE of the new pointer with its proof puts it in place of the old one and is
      -- acknowledged. There is room for one more record, the record that the pointer names is not all
      -- zeros, and no two records of the proof have one hash.
      pub prepare_publication-taken :
          (old : Signed LatestPointer) (existing : List Record) (previous : Option Version)
          (p : PreparedPublication) (values : map.Map) (body : List ℕ)
          → existing ≢ []
          → contains domain colon ≡ false
          → IsHistory lib old owner domain package_name existing
          → length existing < max_chain_length
          → prepare_publication lib domain package_name version blob signer existing previous false
            ≡ success p
          → p.pointer.body.version_record_hash ≢ end_of_chain
          → KeysApart p.pointer p.proof
          → get_dns_vk domain ≡ some (lib.verifying_key signer)
          → map.get values (value_key lib (latest p.pointer)) ≡ some (latest old)
          → deserialize_request body
            ≡ some (record {
              key = value_key lib (latest p.pointer);
              value = latest p.pointer;
              proof = p.proof;
            })
          → handle lib map get_dns_vk deserialize_request values body
            ≡ (map.insert values (value_key lib (latest p.pointer)) (latest p.pointer), some stored)
      prepare_publication-taken old existing previous p values body some_there plain h short e named
            apart dns slot decoded =
          let (history, continuing) =
            prepare_publication-continues lib domain package_name version blob signer old existing
              previous p some_there plain h short e named in
          handle-replaces old p.pointer p.proof values body history apart continuing dns slot
            decoded
