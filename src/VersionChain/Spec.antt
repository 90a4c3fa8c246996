-- ===== src/VersionChain/Spec.antt =====
-- src/version_chain.rs: what a history that the walk may accept is.
use kademlia_packet_manager.Prelude.{
  ◌≤◌, ◌≡◌, ◌≢◌, ◌∙◌, refl, ap, true, false, Option, none, some, List, [], ◌∷◌, ◌&&◌, length, arith,
  Option-cases, inl, inr, holds-yes, holds-no, holds-true, holds-false, and-true, and_intro,
  list_discrete, ℕ_discrete,
}
use kademlia_packet_manager.CloseNodes.{Key, id_discrete}
use kademlia_packet_manager.Package.{
  Str, Version, version_lt, is_version, Signed, LatestPointer, Libraries, version_record_tag,
  is_key, is_str, record_key, verify, latest_is_valid,
}
use kademlia_packet_manager.VersionChain.{
  Record, end_of_chain, max_chain_length, record_fits, version_error,
}

pub is_str-true : (a b : Str) → is_str a b ≡ true → a ≡ b
is_str-true a b e = holds-yes (list_discrete ℕ_discrete a b) e

pub is_str_of : (a b : Str) → a ≡ b → is_str a b ≡ true
is_str_of a b e = holds-true (list_discrete ℕ_discrete a b) e

pub is_key-true : (a b : Key) → is_key a b ≡ true → a ≡ b
is_key-true a b e = holds-yes (id_discrete a b) e

pub is_key-false : (a b : Key) → is_key a b ≡ false → a ≢ b
is_key-false a b e = holds-no (id_discrete a b) e

pub is_key_of : (a b : Key) → a ≡ b → is_key a b ≡ true
is_key_of a b e = holds-true (id_discrete a b) e

pub is_key_ne : (a b : Key) → a ≢ b → is_key a b ≡ false
is_key_ne a b n = holds-false (id_discrete a b) n

module _ (lib : Libraries) (latest : Signed LatestPointer) (owner : lib.VerifyingKey)
    (domain package_name : Str) where
  -- A record that stands under a key, is of this package, and is signed by its owner.
  pub record Fits (signed : Record) (key : Key) : Type 0 where
    pub stored_under : record_key lib signed ≡ some key
    pub tag : signed.body.tag ≡ version_record_tag
    pub domain_same : signed.body.domain ≡ domain
    pub package_same : signed.body.package_name ≡ package_name
    pub verified : verify lib lib.serialize_record_body signed owner ≡ true

  abbrev pub VersionFits : Option Version → Version → Type 0
  VersionFits none version = is_version version latest.body.version ≡ true
  VersionFits (some newer) version = version_lt version newer ≡ true

  -- A chain from the record under a key back to the first version.
  abbrev pub Continues : Key → Option Version → List Record → Type 0
  Continues key newer [] = key ≡ end_of_chain
  Continues key newer (r ∷ rs) =
      (key ≢ end_of_chain)
      × Fits r key
      × VersionFits newer r.body.version
      × Continues r.body.prev (some r.body.version) rs

  pub record_fits-Fits :
      (r : Record) (key : Key)
      → record_fits lib latest owner domain package_name r key ≡ true
      → Fits r key
  unfolding record_fits
  record_fits-Fits r key e = elim (Option-cases (record_key lib r)) [
    | inl absent ↦
        let no_key : record_fits lib latest owner domain package_name r key ≡ false =
          rw (absent, record_fits) refl in
        cc (no_key, e)
    | inr (found, stored) ↦
        let all : (is_key found key
              && is_str r.body.tag version_record_tag
              && is_str r.body.domain domain
              && is_str r.body.package_name package_name
              && verify lib lib.serialize_record_body r owner)
            ≡ true =
          rw (stored, record_fits) at e in
        let a = is_key found key in
        let b = is_str r.body.tag version_record_tag in
        let c = is_str r.body.domain domain in
        let d = is_str r.body.package_name package_name in
        let (abcd, v) =
          and-true (a && b && c && d) (verify lib lib.serialize_record_body r owner) all in
        let (abc, same_package) = and-true (a && b && c) d abcd in
        let (ab, same_domain) = and-true (a && b) c abc in
        let (same_key, same_tag) = and-true a b ab in
        record {
          stored_under = stored ∙ ap some (is_key-true found key same_key);
          tag = is_str-true _ version_record_tag same_tag;
          domain_same = is_str-true _ domain same_domain;
          package_same = is_str-true _ package_name same_package;
          verified = v;
        }
  ]

  pub Fits-record_fits :
      (r : Record) (key : Key)
      → Fits r key
      → record_fits lib latest owner domain package_name r key ≡ true
  unfolding record_fits
  Fits-record_fits r key f =
      rw (f.stored_under, record_fits)
        (and_intro
          (and_intro
            (and_intro (and_intro (is_key_of key key refl) (is_str_of _ version_record_tag f.tag))
              (is_str_of _ domain f.domain_same))
            (is_str_of _ package_name f.package_same))
          f.verified)

  pub version_error-VersionFits :
      (newer : Option Version) (v : Version)
      → version_error lib latest owner domain package_name newer v ≡ none
      → VersionFits newer v
  unfolding version_error
  version_error-VersionFits none v e = ground arith
  version_error-VersionFits (some n) v e = ground arith

  pub VersionFits-version_error :
      (newer : Option Version) (v : Version)
      → VersionFits newer v
      → version_error lib latest owner domain package_name newer v ≡ none
  unfolding version_error
  VersionFits-version_error none v e = rw e refl
  VersionFits-version_error (some n) v e = rw e refl

  -- What the walk accepts: a valid pointer of this package, and a chain of at most
  -- `max_chain_length` records from the one that it names.
  pub record IsHistory (chain : List Record) : Type 0 where
    pub domain_same : latest.body.domain ≡ domain
    pub package_same : latest.body.package_name ≡ package_name
    pub pointer_valid : latest_is_valid lib latest owner ≡ true
    pub continues : Continues latest.body.version_record_hash none chain
    pub named : latest.body.version_record_hash ≢ end_of_chain
    pub bounded : length chain ≤ max_chain_length
