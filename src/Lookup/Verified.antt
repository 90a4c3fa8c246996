-- ===== src/Lookup/Verified.antt =====
-- src/lookup.rs: what a node takes from the network was checked.
use kademlia_packet_manager.Prelude.{
  ℕ, suc, ◌≡◌, refl, subst, Bool, true, false, Option, none, some, List, [], ◌∷◌, ◌&&◌, length, All,
  All-Has, Has, arith, Bool-cases, Option-cases, inl, inr, and-true,
}
use kademlia_packet_manager.CloseNodes.{Key, Contact}
use kademlia_packet_manager.Package.{
  Str, Version, version_cmp, version_lt, Signed, LatestPointer, Libraries, is_str, key_for_value,
  latest_key, latest_is_valid,
}
use kademlia_packet_manager.VersionChain.Spec.{is_key-true, is_str-true}
use kademlia_packet_manager.Store.{Value, blob, latest}
use kademlia_packet_manager.Rpc.{Wire, Rpc, Local}
use kademlia_packet_manager.Lookup.Values.{
  holders, lookup_values, first_blob, pointers, newest_from, newest, is_blob_of, lookup_value,
  is_latest_of, latest_signed_by, get_latest,
}
use kademlia_packet_manager.Lookup.Found.{AllAccepted, take_reply-AllAccepted, probe_ind}

no_newer_trans :
    (a b c : Version) → version_lt a b ≡ false → version_lt b c ≡ false → version_lt a c ≡ false
unfolding version_lt version_cmp
no_newer_trans a b c p q = grind arith

no_newer_refl : (a : Version) → version_lt a a ≡ false
unfolding version_lt version_cmp
no_newer_refl a = ground arith

no_newer_of : (a b : Version) → version_lt a b ≡ true → version_lt b a ≡ false
unfolding version_lt version_cmp
no_newer_of a b p = grind arith

module _ (wire : Wire) {S : Type 0} (rpc : Rpc S) where
  -- All that a search for a value finds was accepted.
  pub lookup_values-AllAccepted :
      (s : Local S rpc.World) (key : Key) (accept : Value → Bool) (stop_at_first : Bool)
      → AllAccepted wire rpc accept (lookup_values wire rpc s key accept stop_at_first).1
  unfolding lookup_values
  lookup_values-AllAccepted s key accept stop =
      (probe_ind wire rpc accept key stop (λ s p. AllAccepted wire rpc accept p.found) (λ s p h. h)
        (λ s p n source others e h. take_reply-AllAccepted wire rpc accept _ p.found source _ h)
        (suc (length (holders wire rpc s key).1)) (holders wire rpc s key).0
        (record { waiting = (holders wire rpc s key).1; in_flight = []; found = [] }) (omega arith)
        tt).0

  first_blob-accepted :
      (accept : Value → Bool) (found : List (Contact × Value)) (source : Contact) (bytes : List ℕ)
      → AllAccepted wire rpc accept found
      → first_blob wire rpc found ≡ some (source, bytes)
      → accept (blob bytes) ≡ true
  unfolding first_blob
  first_blob-accepted accept [] source bytes h e = cc
  first_blob-accepted accept ((c, latest pointer) ∷ rest) source bytes h e = cc
  first_blob-accepted accept ((c, blob b) ∷ rest) source bytes h e =
      let same : b ≡ bytes = cc e in subst (λ x. accept (blob x) ≡ true) same h.0

  pointers-accepted :
      (accept : Value → Bool) (found : List (Contact × Value))
      → AllAccepted wire rpc accept found
      → All (λ p. accept (latest p) ≡ true) (pointers wire rpc found)
  unfolding pointers
  pointers-accepted accept [] h = tt
  pointers-accepted accept ((c, latest pointer) ∷ rest) h = (h.0, pointers-accepted accept rest h.1)
  pointers-accepted accept ((c, blob b) ∷ rest) h = pointers-accepted accept rest h.1

  -- One of the pointers, and none of them is newer.
  pub record IsNewest (all : List (Signed LatestPointer)) (p : Signed LatestPointer) : Type 0 where
    pub among : Has p all
    pub newest : All (λ q. version_lt p.body.version q.body.version ≡ false) all

  newest_from-IsNewest :
      (best : Signed LatestPointer) (rest : List (Signed LatestPointer))
      → IsNewest (best ∷ rest) (newest_from wire rpc best rest)
  unfolding newest_from
  newest_from-IsNewest best [] = record {
    among = inl refl;
    newest = (no_newer_refl best.body.version, tt);
  }
  newest_from-IsNewest best (p ∷ rest) =
      elim (Bool-cases (version_lt p.body.version best.body.version)) [
        | inl older ↦
            let m = newest_from wire rpc best rest in
            let h = newest_from-IsNewest best rest in
            let below =
              no_newer_trans m.body.version best.body.version p.body.version h.newest.0
                (no_newer_of p.body.version best.body.version older) in
            rw (older, newest_from)
              (record { among = skip_second h.among; newest = (h.newest.0, (below, h.newest.1)) })
        | inr newer ↦
            let m = newest_from wire rpc p rest in
            let h = newest_from-IsNewest p rest in
            let below =
              no_newer_trans m.body.version p.body.version best.body.version h.newest.0 newer in
            rw (newer, newest_from) (record { among = inr h.among; newest = (below, h.newest) })
      ]
    where
      skip_second : {m : Signed LatestPointer} → Has m (best ∷ rest) → Has m (best ∷ p ∷ rest)
      skip_second (inl e) = inl e
      skip_second (inr h) = inr (inr h)

  pub newest-IsNewest :
      (all : List (Signed LatestPointer)) (p : Signed LatestPointer)
      → newest wire rpc all ≡ some p
      → IsNewest all p
  unfolding newest
  newest-IsNewest [] p e = cc
  newest-IsNewest (q ∷ rest) p e =
      let same : newest_from wire rpc q rest ≡ p = cc e in
      subst (IsNewest (q ∷ rest)) same (newest_from-IsNewest q rest)

  module _ (lib : Libraries) where
    -- Whatever the network answers, the bytes that a lookup of a value returns hash to the key.
    pub lookup_value-key_for_value :
        (s : Local S rpc.World) (key : Key) (source : Contact) (bytes : List ℕ)
        → (lookup_value wire rpc lib s key).1 ≡ some (source, bytes)
        → key_for_value lib bytes ≡ key
    unfolding lookup_value is_blob_of
    lookup_value-key_for_value s key source bytes e = is_key-true (key_for_value lib bytes) key (
        first_blob-accepted (is_blob_of wire rpc lib key) _ source bytes
          (lookup_values-AllAccepted s key (is_blob_of wire rpc lib key) true) e)

    -- A pointer of the package, that the domain's owner signed.
    pub record IsLatestOf (owner : lib.VerifyingKey) (domain package_name : Str)
        (p : Signed LatestPointer) : Type 0 where
      pub domain_same : p.body.domain ≡ domain
      pub package_same : p.body.package_name ≡ package_name
      pub valid : latest_is_valid lib p owner ≡ true

    is_latest_of-IsLatestOf :
        (owner : lib.VerifyingKey) (domain package_name : Str) (p : Signed LatestPointer)
        → is_latest_of wire rpc lib owner domain package_name (latest p) ≡ true
        → IsLatestOf owner domain package_name p
    unfolding is_latest_of
    is_latest_of-IsLatestOf owner domain package_name p e =
        let a = is_str p.body.domain domain in
        let b = is_str p.body.package_name package_name in
        let (ab, valid) = and-true (a && b) (latest_is_valid lib p owner) e in
        let (same_domain, same_package) = and-true a b ab in
        record {
          domain_same = is_str-true p.body.domain domain same_domain;
          package_same = is_str-true p.body.package_name package_name same_package;
          valid = valid;
        }

    -- What is settled on behind the DNS query: a pointer of the package, and the newest that came back.
    abbrev pub IsChosen :
        lib.VerifyingKey → Local S rpc.World → Str → Str → Signed LatestPointer → Type 0
    IsChosen owner s domain package_name p =
        IsLatestOf owner domain package_name p
        × IsNewest
            (pointers wire rpc
              (lookup_values wire rpc s (latest_key lib domain package_name)
                (is_latest_of wire rpc lib owner domain package_name) false).1)
            p

    latest_signed_by-IsChosen :
        (owner : lib.VerifyingKey) (s : Local S rpc.World) (domain package_name : Str)
        (p : Signed LatestPointer)
        → (latest_signed_by wire rpc lib owner s domain package_name).1 ≡ some p
        → IsChosen owner s domain package_name p
    unfolding latest_signed_by
    latest_signed_by-IsChosen owner s domain package_name p e =
        let accept = is_latest_of wire rpc lib owner domain package_name in
        let key = latest_key lib domain package_name in
        let found = (lookup_values wire rpc s key accept false).1 in
        let best = newest-IsNewest (pointers wire rpc found) p e in
        let good =
          All-Has (λ q. accept (latest q) ≡ true) p (pointers wire rpc found)
            (pointers-accepted accept found (lookup_values-AllAccepted s key accept false))
            best.among in
        (is_latest_of-IsLatestOf owner domain package_name p good, best)

    -- Whatever the network answers, the latest pointer that a node settles on is one of the package
    -- that the owner of the domain, by its DNS record, signed; and of all the valid pointers that came
    -- back, none is newer.
    pub get_latest-IsChosen :
        (get_dns_vk : Str → Option lib.VerifyingKey) (s : Local S rpc.World)
        (domain package_name : Str) (p : Signed LatestPointer)
        → (get_latest wire rpc lib get_dns_vk s domain package_name).1 ≡ some p
        → (owner : lib.VerifyingKey) × (get_dns_vk domain ≡ some owner)
          × IsChosen owner s domain package_name p
    unfolding get_latest
    get_latest-IsChosen get_dns_vk s domain package_name p e =
        elim (Option-cases (get_dns_vk domain)) [
          | inl absent ↦ let nothing : none ≡ some p = rw (absent, get_latest) at e in cc nothing
          | inr (owner, dns) ↦
              let made : (latest_signed_by wire rpc lib owner s domain package_name).1 ≡ some p =
                rw (dns, get_latest) at e in
              (owner, dns, latest_signed_by-IsChosen owner s domain package_name p made)
        ]
