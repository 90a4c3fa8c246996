-- ===== src/VersionChain/Taken.antt =====
-- src/version_chain.rs, `validate_chain_proof`: every history in which no key comes twice is accepted.
use kademlia_packet_manager.Prelude.{
  ℕ, ◌≤◌, ◌==◌, ◌≡◌, refl, subst, true, false, Option, none, some, List, [], ◌∷◌, ltb, length, map,
  Bool-cases, Option-cases, inl, inr, arith,
}
use kademlia_packet_manager.CloseNodes.{Key}
use kademlia_packet_manager.Package.{Version, Signed, LatestPointer, Libraries, is_key, record_key}
use kademlia_packet_manager.VersionChain.{Record, ok, was_seen, max_chain_length}
use kademlia_packet_manager.VersionChain.Spec.{Continues, IsHistory, is_key_of, is_key-true}
use kademlia_packet_manager.VersionChain.Complete.{Served, Unseen, walk_chain-accepts}
use kademlia_packet_manager.VersionChain.Proof.{
  Records, get_bytes, lookup, index_records, walk_records, check_count, validate_chain_proof,
}

not_more : (a b : ℕ) → b ≤ a → ltb a b ≡ false
not_more a b h = ground (arith, h)

same_length : (n : ℕ) → (n == n) ≡ true
same_length n = ground arith

-- The keys inserted.
abbrev keys : Records → List Key
keys records = map (λ p. p.0) records

unseen_absent :
    (records : Records) (key : Key)
    → was_seen (keys records) key ≡ false
    → get_bytes records key ≡ none
unfolding was_seen get_bytes
unseen_absent [] key e = refl
unseen_absent (p ∷ ps) key e = ground (arith, unseen_absent ps key)

module _ (lib : Libraries) (latest : Signed LatestPointer) (owner : lib.VerifyingKey) where
  record_key-encoded :
      (r : Record) (key : Key)
      → record_key lib r ≡ some key
      → (bytes : List _) × (lib.serialize_record r ≡ some bytes)
  unfolding record_key
  record_key-encoded r key e = elim (Option-cases (lib.serialize_record r)) [
    | inl bad ↦ let nothing : none ≡ some key = rw (bad, record_key) at e in cc nothing
    | inr good ↦ good
  ]

  abbrev Found : Records → Key → List Record → Type 0
  Found records =
      Served lib latest owner latest.body.domain latest.body.package_name
        (lookup lib latest owner records) tt

  abbrev Fresh : Records → Key → List Record → Type 0
  Fresh records key chain =
      Unseen lib latest owner latest.body.domain latest.body.package_name
        (lookup lib latest owner records) (keys records) key chain

  -- What was found before is found still.
  abbrev Extends : Records → Records → Type 0
  Extends a b =
      (key : Key) (bytes : _) → get_bytes a key ≡ some bytes → get_bytes b key ≡ some bytes

  index_records-ok :
      (chain : List Record) (key : Key) (newer : Option Version) (records : Records)
      → Continues lib latest owner latest.body.domain latest.body.package_name key newer chain
      → Fresh records key chain
      → (final : Records) × (index_records lib chain records ≡ ok final)
        × Extends records final
        × Found final key chain
  unfolding index_records
  index_records-ok [] key newer records c u = (records, refl, (λ k b e. e), tt)
  index_records-ok (r ∷ rs) key newer records (n, fits, v, c) (fresh, u) =
      let (bytes, encoded) = record_key-encoded r key fits.stored_under in
      let absent = unseen_absent records key fresh in
      let (final, filled, kept, found) =
        index_records-ok rs r.body.prev (some r.body.version) ((key, bytes) ∷ records) c u in
      let here : get_bytes ((key, bytes) ∷ records) key ≡ some bytes =
        unfold get_bytes in rw (is_key_of key key refl) refl in
      (
        final,
        rw (fits.stored_under, index_records, encoded, absent) filled,
        λ k b e. kept k b (elim (Bool-cases (is_key key k)) [
          | inl same ↦
              let it : key ≡ k = is_key-true key k same in
              let none_there : get_bytes records k ≡ none =
                subst (λ x. get_bytes records x ≡ none) it absent in
              cc (none_there, e)
          | inr other ↦ rw (get_bytes, other) e
        ]),
        ((bytes, encoded, kept key bytes here), found),
      )

  -- A history of the pointer in which no two records stand under one key is accepted, as it is.
  pub validate_chain_proof-accepts :
      (chain : List Record)
      → IsHistory lib latest owner latest.body.domain latest.body.package_name chain
      → Fresh [] latest.body.version_record_hash chain
      → validate_chain_proof lib latest owner chain ≡ some (ok chain)
  unfolding validate_chain_proof
  validate_chain_proof-accepts chain h u =
      let (final, filled, kept, found) =
        index_records-ok chain latest.body.version_record_hash none [] h.continues u in
      let short : ltb max_chain_length (length chain) ≡ false =
        not_more max_chain_length (length chain) h.bounded in
      let walked : walk_records lib latest owner final ≡ some (ok chain) =
        walk_chain-accepts lib latest owner latest.body.domain latest.body.package_name
          (lookup lib latest owner final) tt chain h found u in
      let counted : check_count lib latest owner chain (ok chain) ≡ ok chain =
        rw (check_count, same_length (length chain)) refl in
      rw (short, validate_chain_proof, filled, walked, counted) refl
