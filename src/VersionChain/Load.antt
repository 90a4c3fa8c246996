-- ===== src/VersionChain/Load.antt =====
-- src/version_chain.rs, `load_chain` and `load_chain_from_pointer`: a history fetched from the network,
-- each record by a lookup of its hash.
use kademlia_packet_manager.Prelude.{
  ℕ, ◌≡◌, ◌∙◌, sym, ap, Option, none, some, List, Option-cases, inl, inr,
}
use kademlia_packet_manager.CloseNodes.{Key, Contact}
use kademlia_packet_manager.Package.{Str, Signed, LatestPointer, Libraries}
use kademlia_packet_manager.VersionChain.{
  Record, Result, ok, err, no_dns_key, no_latest_pointer, too_many_versions, walk_chain,
}
use kademlia_packet_manager.VersionChain.Spec.{IsHistory}
use kademlia_packet_manager.VersionChain.Sound.{walk_chain-IsHistory}
use kademlia_packet_manager.VersionChain.Complete.{walk_chain-returns}
use kademlia_packet_manager.Rpc.{Wire, Rpc, Local}
use kademlia_packet_manager.Lookup.Values.{lookup_value, get_latest}

-- The result of a walk; the fuel of one is never spent.
unfoldable pub walked : Option (Result (List Record)) → Result (List Record)
walked none = err too_many_versions
walked (some result) = result

-- `map(|(_, bytes)| bytes)`
unfoldable pub bytes_of : Option (Contact × List ℕ) → Option (List ℕ)
bytes_of none = none
bytes_of (some (source, bytes)) = some bytes

module _ (wire : Wire) {S : Type 0} (rpc : Rpc S) (lib : Libraries)
    (get_dns_vk : Str → Option lib.VerifyingKey) where
  -- The closure that the walk fetches with.
  unfoldable pub fetch_record : Local S rpc.World → Key → Local S rpc.World × Option (List ℕ)
  unfolding lookup_value bytes_of
  fetch_record s key = let (s', found) = lookup_value wire rpc lib s key in (s', bytes_of found)

  unfoldable pub load_walk :
      lib.VerifyingKey
      → Signed LatestPointer
      → Str
      → Str
      → Local S rpc.World
      → Local S rpc.World × Result (List Record)
  unfolding walk_chain walked fetch_record
  load_walk owner pointer domain package_name s =
      let (s', result) = walk_chain lib pointer owner domain package_name fetch_record s in
      (s', walked result)

  unfoldable pub load_chain_by :
      lib.VerifyingKey → Local S rpc.World → Str → Str → Local S rpc.World × Result (List Record)
  unfolding get_latest load_walk
  load_chain_by owner s domain package_name =
      let (s', found) = get_latest wire rpc lib get_dns_vk s domain package_name in
      elim found [
        | none ↦ (s', err no_latest_pointer)
        | some pointer ↦ load_walk owner pointer domain package_name s'
      ]

  unfoldable pub load_chain :
      Local S rpc.World → Str → Str → Local S rpc.World × Result (List Record)
  unfolding load_chain_by
  load_chain s domain package_name = elim (get_dns_vk domain) [
    | none ↦ (s, err no_dns_key)
    | some owner ↦ load_chain_by owner s domain package_name
  ]

  unfoldable pub load_chain_from_pointer :
      Local S rpc.World → Signed LatestPointer → Local S rpc.World × Result (List Record)
  unfolding load_walk
  load_chain_from_pointer s pointer = elim (get_dns_vk pointer.body.domain) [
    | none ↦ (s, err no_dns_key)
    | some owner ↦ load_walk owner pointer pointer.body.domain pointer.body.package_name s
  ]

  load_walk-IsHistory :
      (owner : lib.VerifyingKey) (pointer : Signed LatestPointer) (domain package_name : Str)
      (s : Local S rpc.World) (out : List Record)
      → (load_walk owner pointer domain package_name s).1 ≡ ok out
      → IsHistory lib pointer owner domain package_name out
  unfolding load_walk walked
  load_walk-IsHistory owner pointer domain package_name s out e =
      let (r, returns) = walk_chain-returns lib pointer owner domain package_name fetch_record s in
      let same : r ≡ ok out = sym (ap walked returns) ∙ e in
      walk_chain-IsHistory lib pointer owner domain package_name fetch_record s out
        (returns ∙ ap some same)

  -- A history of the package that the owner of the domain signed, from one of its pointers.
  abbrev pub IsOwned : Str → Str → List Record → Type 0
  IsOwned domain package_name out =
      (owner : lib.VerifyingKey) × (pointer : Signed LatestPointer) × (get_dns_vk domain
        ≡ some owner)
      × IsHistory lib pointer owner domain package_name out

  load_chain_by-IsHistory :
      (owner : lib.VerifyingKey) (s : Local S rpc.World) (domain package_name : Str)
      (out : List Record)
      → (load_chain_by owner s domain package_name).1 ≡ ok out
      → (pointer : Signed LatestPointer) × IsHistory lib pointer owner domain package_name out
  unfolding load_chain_by
  load_chain_by-IsHistory owner s domain package_name out e =
      elim (Option-cases (get_latest wire rpc lib get_dns_vk s domain package_name).1) [
        | inl absent ↦
            let missing : err no_latest_pointer ≡ ok out = rw (absent, load_chain_by) at e in
            cc missing
        | inr (pointer, found) ↦
            let made : (load_walk owner pointer domain package_name
                  (get_latest wire rpc lib get_dns_vk s domain package_name).0).1
                ≡ ok out =
              rw (found, load_chain_by) at e in
            (pointer, load_walk-IsHistory owner pointer domain package_name _ out made)
      ]

  -- Whatever the network answers, a history that is loaded for a package is one of that package, signed
  -- throughout by the owner that the DNS names.
  pub load_chain-IsOwned :
      (s : Local S rpc.World) (domain package_name : Str) (out : List Record)
      → (load_chain s domain package_name).1 ≡ ok out
      → IsOwned domain package_name out
  unfolding load_chain
  load_chain-IsOwned s domain package_name out e = elim (Option-cases (get_dns_vk domain)) [
    | inl absent ↦
        let missing : err no_dns_key ≡ ok out = rw (absent, load_chain) at e in cc missing
    | inr (owner, dns) ↦
        let made : (load_chain_by owner s domain package_name).1 ≡ ok out =
          rw (dns, load_chain) at e in
        let (pointer, h) = load_chain_by-IsHistory owner s domain package_name out made in
        (owner, pointer, dns, h)
  ]

  pub load_chain_from_pointer-IsHistory :
      (s : Local S rpc.World) (pointer : Signed LatestPointer) (out : List Record)
      → (load_chain_from_pointer s pointer).1 ≡ ok out
      → (owner : lib.VerifyingKey) × (get_dns_vk pointer.body.domain ≡ some owner)
        × IsHistory lib pointer owner pointer.body.domain pointer.body.package_name out
  unfolding load_chain_from_pointer
  load_chain_from_pointer-IsHistory s pointer out e =
      elim (Option-cases (get_dns_vk pointer.body.domain)) [
        | inl absent ↦
            let missing : err no_dns_key ≡ ok out = rw (absent, load_chain_from_pointer) at e in
            cc missing
        | inr (owner, dns) ↦
            let made : (load_walk owner pointer pointer.body.domain pointer.body.package_name s).1
                ≡ ok out =
              rw (dns, load_chain_from_pointer) at e in
            (
              owner,
              dns,
              load_walk-IsHistory owner pointer pointer.body.domain pointer.body.package_name s out
                  made,
            )
      ]
