-- ===== src/Registry/Prepared.antt =====
-- src/registry.rs, `prepare_publication`: what is prepared continues the history.
use kademlia_packet_manager.Prelude.{
  ℕ, ◌≡◌, ◌⊎◌, ◌∙◌, refl, sym, ap, subst, Bool, true, false, Option, none, some, List, ◌∷◌, arith,
  Bool-cases, Option-cases, inl, inr,
}
use kademlia_packet_manager.Package.{
  Str, Version, version_lt, Signed, Libraries, latest_pointer_tag, record_key, sign, verify,
  body_hash, key_for_value,
}
use kademlia_packet_manager.VersionChain.{Record}
use kademlia_packet_manager.VersionChain.Spec.{Fits}
use kademlia_packet_manager.Registry.{
  Attempt, success, failure, or_failure, PreparedPublication, wrong_package_history,
  encoding_failed, previous_not_latest, version_not_newer, previous_index, is_head, not_continuing,
  continued, prev_hash, new_record, new_pointer, sign_publication, prepare_publication,
  other_package,
}

-- An attempt behind `?` that succeeded had its value.
or_failure-success :
    {A B E : Type 0} (o : Option A) (e : E) (f : A → Attempt B E) (b : B)
    → or_failure o e f ≡ success b
    → (a : A) × (o ≡ some a) × (f a ≡ success b)
or_failure-success none e f b h = cc
or_failure-success (some a) e f b h = (a, refl, h)

pub Attempt-cases :
    {A E : Type 0} (r : Attempt A E) → ((a : A) × (r ≡ success a)) ⊎ ((e : E) × (r ≡ failure e))
Attempt-cases (success a) = inl (a, refl)
Attempt-cases (failure e) = inr (e, refl)

module _ (lib : Libraries) where
  -- What was signed has its body, and verifies under the signer's key.
  sign-verify :
      {T : Type 0} (serialize : T → Option (List ℕ)) (body : T) (signer : lib.SigningKey)
      (signed : Signed T)
      → sign lib serialize body signer ≡ some signed
      → (signed.body ≡ body) × (verify lib serialize signed (lib.verifying_key signer) ≡ true)
  unfolding sign verify
  sign-verify serialize body signer signed e = elim (Option-cases (body_hash lib serialize body)) [
    | inl bad ↦ let nothing : none ≡ some signed = rw (bad, sign) at e in cc nothing
    | inr (hash, hashed) ↦
        let made : some (record { body = body; sig = lib.sign_bytes signer hash }) ≡ some signed =
          rw (hashed, sign) at e in
        let (sig, parsed, good) = lib.verifies-sign_bytes signer hash in
        let same : record { body = body; sig = lib.sign_bytes signer hash } ≡ signed = cc made in
        subst (λ x. (x.body ≡ body) × (verify lib serialize x (lib.verifying_key signer) ≡ true))
          same (refl, rw (parsed, verify, hashed) good)
  ]

  module _ (domain package_name : Str) (version : Version) (blob : List ℕ)
      (signer : lib.SigningKey) where
    abbrev owner : lib.VerifyingKey
    owner = lib.verifying_key signer

    -- What a publication consists of.
    pub record IsPublication (existing : List Record) (index : Option ℕ) (p : PreparedPublication)
        : Type 0 where
      pub prev : prev_hash lib existing index ≡ some p.signed_record.body.prev
      pub fits :
          Fits lib p.pointer owner domain package_name p.signed_record
            p.pointer.body.version_record_hash
      pub version_same : p.signed_record.body.version ≡ version
      pub pointer_tag : p.pointer.body.tag ≡ latest_pointer_tag
      pub pointer_domain : p.pointer.body.domain ≡ domain
      pub pointer_package : p.pointer.body.package_name ≡ package_name
      pub pointer_version : p.pointer.body.version ≡ version
      pub pointer_verified : verify lib lib.serialize_latest_body p.pointer owner ≡ true
      pub proof_same : p.proof ≡ p.signed_record ∷ continued existing index
      pub blob_same : p.blob ≡ blob
      pub blob_named : p.signed_record.body.blob_hash ≡ key_for_value lib blob

    sign_publication-IsPublication :
        (existing : List Record) (index : Option ℕ) (p : PreparedPublication)
        → sign_publication lib domain package_name version blob signer existing index ≡ success p
        → IsPublication existing index p
    unfolding sign_publication new_record new_pointer
    sign_publication-IsPublication existing index p e =
        let (prev, p1, e1) =
          or_failure-success (prev_hash lib existing index) encoding_failed _ p e in
        let (signed, p2, e2) =
          or_failure-success (new_record lib domain package_name version blob signer prev)
            encoding_failed _ p e1 in
        let (hash, p3, e3) = or_failure-success (record_key lib signed) encoding_failed _ p e2 in
        let (pointer, p4, e4) =
          or_failure-success (new_pointer lib domain package_name version blob signer hash)
            encoding_failed _ p e3 in
        let (body, verified) = sign-verify lib.serialize_record_body _ signer signed p2 in
        let (pointer_body, pointer_good) =
          sign-verify lib.serialize_latest_body _ signer pointer p4 in
        let hash_same : pointer.body.version_record_hash ≡ hash =
          ap (λ b. b.version_record_hash) pointer_body in
        let same : record {
          blob = blob;
          signed_record = signed;
          pointer = pointer;
          proof = signed ∷ continued existing index;
        }
            ≡ p =
          cc e4 in
        subst (IsPublication existing index) same (record {
          prev = p1 ∙ ap some (sym (ap (λ b. b.prev) body));
          fits = record {
            stored_under = p3 ∙ ap some (sym hash_same);
            tag = ap (λ b. b.tag) body;
            domain_same = ap (λ b. b.domain) body;
            package_same = ap (λ b. b.package_name) body;
            verified = verified;
          };
          version_same = ap (λ b. b.version) body;
          pointer_tag = ap (λ b. b.tag) pointer_body;
          pointer_domain = ap (λ b. b.domain) pointer_body;
          pointer_package = ap (λ b. b.package_name) pointer_body;
          pointer_version = ap (λ b. b.version) pointer_body;
          pointer_verified = pointer_good;
          proof_same = refl;
          blob_same = refl;
          blob_named = ap (λ b. b.blob_hash) body;
        })

    pub not_continuing-none :
        (head : Record) (rest : List Record) (index : Option ℕ)
        → not_continuing false (head ∷ rest) version index ≡ none
        → (version_lt head.body.version version ≡ true) × (index ≡ some 0)
    unfolding not_continuing
    not_continuing-none head rest index e =
        elim (Bool-cases (version_lt head.body.version version)) [
          | inr lower ↦
              let refused : some version_not_newer ≡ none = rw (lower, not_continuing) at e in
              cc refused
          | inl higher ↦ elim (Bool-cases (is_head index)) [
            | inr other ↦
                let refused : some previous_not_latest ≡ none =
                  rw (higher, not_continuing, other) at e in
                cc refused
            | inl first ↦ (higher, head_index index first)
          ]
        ]
      where
        head_index : (index : Option ℕ) → is_head index ≡ true → index ≡ some 0
        head_index none e = unfold is_head in cc
        head_index (some i) e =
            let zero_it : i ≡ 0 = unfold is_head in ground (arith, e) in ap some zero_it

    -- A publication passed every guard; without force it continues the head of the history, or is the
    -- first.
    pub prepare_publication-IsPublication :
        (existing : List Record) (previous : Option Version) (force : Bool)
        (p : PreparedPublication)
        → prepare_publication lib domain package_name version blob signer existing previous force
          ≡ success p
        → (index : Option ℕ) × IsPublication existing index p
          × (not_continuing force existing version index ≡ none)
          × (previous_index existing previous ≡ success index)
    unfolding prepare_publication
    prepare_publication-IsPublication existing previous force p e =
        elim (Bool-cases (other_package domain package_name existing)) [
          | inl other ↦
              let refused : failure wrong_package_history ≡ success p =
                rw (other, prepare_publication) at e in
              cc refused
          | inr same ↦ elim (Attempt-cases (previous_index existing previous)) [
            | inr (error, bad) ↦
                let refused : failure error ≡ success p =
                  rw (same, prepare_publication, bad) at e in
                cc refused
            | inl (index, good) ↦
                elim (Option-cases (not_continuing force existing version index)) [
                  | inr (error, bad) ↦
                      let refused : failure error ≡ success p =
                        rw (same, prepare_publication, good, bad) at e in
                      cc refused
                  | inl fine ↦
                      let made : sign_publication lib domain package_name version blob signer
                            existing index
                          ≡ success p =
                        rw (same, prepare_publication, good, fine) at e in
                      (index, sign_publication-IsPublication existing index p made, fine, good)
                ]
          ]
        ]
