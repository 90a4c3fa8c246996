-- ===== src/Registry/Continuation.antt =====
-- src/registry.rs and src/handle_rpc/store.rs: a prepared publication is what the nodes that store it
-- ask for.
use kademlia_packet_manager.Prelude.{
  ℕ, zero, suc, ◌<◌, ◌≡◌, ◌≢◌, ◌∙◌, refl, sym, ap, subst, true, false, Option, none, some, List, [],
  ◌∷◌, not, length, arith, Bool-cases, inl, inr, and_intro, holds,
}
use kademlia_packet_manager.CloseNodes.{Key}
use kademlia_packet_manager.Package.{
  Str, Version, version_cmp, version_lt, is_version, Signed, LatestPointer, Libraries,
  latest_pointer_tag, record_key, latest_is_valid, contains, colon,
}
use kademlia_packet_manager.VersionChain.{Record, end_of_chain, max_chain_length}
use kademlia_packet_manager.VersionChain.Spec.{Fits, Continues, IsHistory, is_key_of, is_str_of}
use kademlia_packet_manager.Store.{
  continues_previous, any_record_of, is_record_of, signed_pointer_discrete,
}
use kademlia_packet_manager.Registry.{
  success, PreparedPublication, continued, prev_hash, prepare_publication,
}
use kademlia_packet_manager.Registry.Prepared.{
  IsPublication, prepare_publication-IsPublication, not_continuing-none,
}

is_version_refl : (v : Version) → is_version v v ≡ true
unfolding is_version
is_version_refl v = ground arith

version_lt_of :
    (a b c : Version) → is_version a b ≡ true → version_lt a c ≡ true → version_lt b c ≡ true
unfolding is_version version_lt version_cmp
version_lt_of a b c same lower = grind arith

-- A chain whose second record is that of the old pointer continues it under a higher version.
known_head_continues :
    (lib : Libraries) (old new : Signed LatestPointer) (r head : Record) (rest : List Record)
    → version_lt old.body.version new.body.version ≡ true
    → record_key lib head ≡ some old.body.version_record_hash
    → is_version head.body.version old.body.version ≡ true
    → continues_previous lib old new (r ∷ head ∷ rest) ≡ true
unfolding continues_previous
known_head_continues lib old new r head rest higher stored same =
    let it : is_record_of lib old head ≡ true =
      unfold is_record_of in
      rw (stored, is_record_of)
        (and_intro (is_key_of old.body.version_record_hash old.body.version_record_hash refl)
          same) in
    let found : any_record_of lib old (r ∷ head ∷ rest) ≡ true =
      unfold any_record_of in ground (arith, it) in
    elim (Bool-cases (holds (signed_pointer_discrete old new))) [
      | inl equal ↦ rw (equal, continues_previous) refl
      | inr other ↦ rw (other, higher, continues_previous) found
    ]

module _ (lib : Libraries) (owner : lib.VerifyingKey) (domain package_name : Str)
    (a b : Signed LatestPointer) where
  -- Behind the head, a chain does not depend on the pointer.
  Fits-under :
      (r : Record) (key : Key)
      → Fits lib a owner domain package_name r key
      → Fits lib b owner domain package_name r key
  Fits-under r key f = record {
    stored_under = f.stored_under;
    tag = f.tag;
    domain_same = f.domain_same;
    package_same = f.package_same;
    verified = f.verified;
  }

  Continues-under :
      (key : Key) (newer : Version) (rs : List Record)
      → Continues lib a owner domain package_name key (some newer) rs
      → Continues lib b owner domain package_name key (some newer) rs
  Continues-under key newer [] c = c
  Continues-under key newer (r ∷ rs) (n, f, v, c) =
      (n, Fits-under r key f, v, Continues-under r.body.prev r.body.version rs c)

module _ (lib : Libraries) (domain package_name : Str) (version : Version) (blob : List ℕ)
    (signer : lib.SigningKey) where
  abbrev owner : lib.VerifyingKey
  owner = lib.verifying_key signer

  abbrev Published : List Record → Option ℕ → PreparedPublication → Type 0
  Published = IsPublication lib domain package_name version blob signer

  pointer_is_valid :
      (existing : List Record) (index : Option ℕ) (p : PreparedPublication)
      → contains domain colon ≡ false
      → Published existing index p
      → latest_is_valid lib p.pointer owner ≡ true
  unfolding latest_is_valid
  pointer_is_valid existing index p plain made =
      let no_colon : not (contains p.pointer.body.domain colon) ≡ true =
        ap not (ap (λ d. contains d colon) made.pointer_domain ∙ plain) in
      and_intro
        (and_intro (is_str_of p.pointer.body.tag latest_pointer_tag made.pointer_tag) no_colon)
        made.pointer_verified

  head_fits_pointer :
      (existing : List Record) (index : Option ℕ) (p : PreparedPublication)
      → Published existing index p
      → is_version p.signed_record.body.version p.pointer.body.version ≡ true
  head_fits_pointer existing index p made =
      subst (λ v. is_version v p.pointer.body.version ≡ true) (sym made.version_same)
        (subst (λ v. is_version version v ≡ true) (sym made.pointer_version)
          (is_version_refl version))

  -- What a history of at most `max_chain_length` records makes of a chain under the new pointer.
  IsHistory-of :
      (existing : List Record) (index : Option ℕ) (p : PreparedPublication) (rest : List Record)
      → contains domain colon ≡ false
      → Published existing index p
      → p.pointer.body.version_record_hash ≢ end_of_chain
      → length rest < max_chain_length
      → Continues lib p.pointer owner domain package_name p.signed_record.body.prev
          (some p.signed_record.body.version)
          rest
      → IsHistory lib p.pointer owner domain package_name (p.signed_record ∷ rest)
  IsHistory-of existing index p rest plain made named short chain = record {
    domain_same = made.pointer_domain;
    package_same = made.pointer_package;
    pointer_valid = pointer_is_valid existing index p plain made;
    continues = (named, made.fits, head_fits_pointer existing index p made, chain);
    named = named;
    bounded = omega (arith, short);
  }

  -- The record that a continuing publication names is the one that the old pointer names.
  named_head :
      (old : Signed LatestPointer) (head : Record) (rest : List Record) (p : PreparedPublication)
      → IsHistory lib old owner domain package_name (head ∷ rest)
      → Published (head ∷ rest) (some 0) p
      → old.body.version_record_hash ≡ p.signed_record.body.prev
  named_head old head rest p h made =
      let named : record_key lib head ≡ some p.signed_record.body.prev =
        unfold prev_hash in made.prev in
      let stored = h.continues.1.stored_under in cc (stored, named)

  -- A first publication, unforced, is a history of one record.
  pub prepare_publication-first :
      (previous : Option Version) (p : PreparedPublication)
      → contains domain colon ≡ false
      → prepare_publication lib domain package_name version blob signer [] previous false
        ≡ success p
      → p.pointer.body.version_record_hash ≢ end_of_chain
      → IsHistory lib p.pointer owner domain package_name p.proof
  prepare_publication-first previous p plain e named =
      let (index, made, fine, good) =
        prepare_publication-IsPublication lib domain package_name version blob signer [] previous
          false p e in
      subst (IsHistory lib p.pointer owner domain package_name)
        (sym (made.proof_same ∙ ap (λ xs. p.signed_record ∷ xs) (empty index)))
        (IsHistory-of [] index p [] plain made named (omega arith) (first index made.prev))
    where
      empty : (index : Option ℕ) → continued [] index ≡ []
      empty none = unfold continued in refl
      empty (some zero) = unfold continued in refl
      empty (some (suc i)) = unfold continued in refl

      first :
          (index : Option ℕ) {key : Key} → prev_hash lib [] index ≡ some key → key ≡ end_of_chain
      first none e = unfold prev_hash in cc
      first (some i) e = unfold prev_hash in cc

  -- An unforced publication on top of a verified history, for a domain without a colon, is itself a
  -- history of its pointer, so long as there is room for one more record and no digest is all zeros;
  -- and whoever holds the old pointer finds its own in it, under a higher version.
  pub prepare_publication-continues :
      (old : Signed LatestPointer) (existing : List Record) (previous : Option Version)
      (p : PreparedPublication)
      → existing ≢ []
      → contains domain colon ≡ false
      → IsHistory lib old owner domain package_name existing
      → length existing < max_chain_length
      → prepare_publication lib domain package_name version blob signer existing previous false
        ≡ success p
      → p.pointer.body.version_record_hash ≢ end_of_chain
      → IsHistory lib p.pointer owner domain package_name p.proof
        × (continues_previous lib old p.pointer p.proof ≡ true)
  prepare_publication-continues old [] previous p some_there plain h short e named =
      absurd (some_there refl)
  prepare_publication-continues old (head ∷ rest) previous p some_there plain h short e named =
      let (index, made, fine, good) =
        prepare_publication-IsPublication lib domain package_name version blob signer (head ∷ rest)
          previous false p e in
      let (higher, first) =
        not_continuing-none lib domain package_name version blob signer head rest index fine in
      let made' : Published (head ∷ rest) (some 0) p =
        subst (λ i. Published (head ∷ rest) i p) first made in
      let whole : p.proof ≡ p.signed_record ∷ head ∷ rest =
        made'.proof_same ∙ unfold continued in refl in
      (
        subst (IsHistory lib p.pointer owner domain package_name) (sym whole) (
            IsHistory-of (head ∷ rest) (some 0) p (head ∷ rest) plain made' named short
              (chained made' higher)),
        subst (λ chain. continues_previous lib old p.pointer chain ≡ true) (sym whole)
            (known_head_continues lib old p.pointer p.signed_record head rest
              (version_lt_of head.body.version old.body.version p.pointer.body.version h.continues.2
                (subst (λ v. version_lt head.body.version v ≡ true) (sym made'.pointer_version)
                  higher))
              h.continues.1.stored_under h.continues.2),
      )
    where
      chained :
          Published (head ∷ rest) (some 0) p
          → version_lt head.body.version version ≡ true
          → Continues lib p.pointer owner domain package_name p.signed_record.body.prev
              (some p.signed_record.body.version)
              (head ∷ rest)
      chained made higher =
          let (n, f, v, c) = h.continues in
          subst
            (λ key.
              Continues lib p.pointer owner domain package_name key
                (some p.signed_record.body.version) (head ∷ rest))
            (named_head old head rest p h made)
            (
              n,
              Fits-under lib owner domain package_name old p.pointer head _ f,
              subst (λ w. version_lt head.body.version w ≡ true) (sym made.version_same) higher,
              Continues-under lib owner domain package_name old p.pointer head.body.prev
                  head.body.version rest c,
            )
