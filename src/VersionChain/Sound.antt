-- ===== src/VersionChain/Sound.antt =====
-- That `walk_chain` accepts nothing but a history.
use kademlia_packet_manager.Prelude.{
  ℕ, zero, suc, ◌+◌, ◌≤◌, ◌≡◌, ◌≢◌, ◌∙◌, refl, sym, ap, subst, Option, none, some, List, [], ◌∷◌,
  ◌++◌, not, length, arith, Bool-cases, Option-cases, inl, inr, not-false, ◌||◌, or-false,
  length-append, append_assoc, ℕ_discrete,
}
use kademlia_packet_manager.CloseNodes.{Key}
use kademlia_packet_manager.Package.{
  Str, Signed, LatestPointer, Libraries, is_key, is_str, key_for_value, latest_is_valid,
}
use kademlia_packet_manager.VersionChain.{
  Record, Result, ok, err, ChainError, invalid_latest_pointer, invalid_record, hash_mismatch,
  invalid_encoding, too_many_versions, cycle, missing_record, Walk, Turn, returned, more,
  end_of_chain, max_chain_length, was_seen, record_fits, version_error, advance, check_record,
  check_bytes, check_fetched, turn, walk, walk_chain,
}
use kademlia_packet_manager.VersionChain.Spec.{
  is_str-true, is_key-true, is_key-false, Fits, VersionFits, Continues, record_fits-Fits,
  version_error-VersionFits, IsHistory,
}

module _ (lib : Libraries) (latest : Signed LatestPointer) (owner : lib.VerifyingKey)
    (domain package_name : Str) where
  -- A record that a turn takes up.
  pub record Taken (s : Walk) (r : Record) : Type 0 where
    pub room : length s.chain ≢ max_chain_length
    pub fits : Fits lib latest owner domain package_name r s.current
    pub version : VersionFits lib latest owner domain package_name s.newer_version r.body.version

  abbrev advance_of : Walk → Record → Turn
  advance_of = advance lib latest owner domain package_name

  -- A turn fails, or takes up a record.
  pub data Turned (s : Walk) (t : Turn) : Type 0 where
    failed : (e : ChainError) → t ≡ returned (err e) → Turned s t
    took : (r : Record) → Taken s r → t ≡ advance_of s r → Turned s t

  check_record-Turned :
      (s : Walk) (r : Record)
      → length s.chain ≢ max_chain_length
      → Turned s (check_record lib latest owner domain package_name s r)
  unfolding check_record
  check_record-Turned s r room =
      elim (Bool-cases (record_fits lib latest owner domain package_name r s.current)) [
        | inr no_fit ↦ failed (invalid_record s.current) (rw (no_fit, check_record) refl)
        | inl fit ↦
            elim (Option-cases
              (version_error lib latest owner domain package_name s.newer_version r.body.version)) [
                | inr (e, bad) ↦ failed e (rw (fit, check_record, bad) refl)
                | inl good ↦
                    took r
                      (record {
                        room = room;
                        fits =
                            record_fits-Fits lib latest owner domain package_name r s.current fit;
                        version =
                            version_error-VersionFits lib latest owner domain package_name
                              s.newer_version r.body.version good;
                      })
                      (rw (fit, check_record, good) refl)
              ]
      ]

  check_bytes-Turned :
      (s : Walk) (bytes : List ℕ)
      → length s.chain ≢ max_chain_length
      → Turned s (check_bytes lib latest owner domain package_name s bytes)
  unfolding check_bytes
  check_bytes-Turned s bytes room = elim (Bool-cases (is_key (key_for_value lib bytes) s.current)) [
    | inr other ↦ failed (hash_mismatch s.current) (rw (other, check_bytes) refl)
    | inl same ↦ elim (Option-cases (lib.deserialize_record bytes)) [
      | inl bad ↦ failed (invalid_encoding s.current) (rw (same, bad, check_bytes) refl)
      | inr (r, decoded) ↦ rw (same, decoded, check_bytes) (check_record-Turned s r room)
    ]
  ]

  check_fetched-Turned :
      (s : Walk) (o : Option (List ℕ))
      → length s.chain ≢ max_chain_length
      → Turned s (check_fetched lib latest owner domain package_name s o)
  unfolding check_fetched
  check_fetched-Turned s none room = failed (missing_record s.current) refl
  check_fetched-Turned s (some bytes) room = check_bytes-Turned s bytes room

  abbrev pub start : Walk
  start = record {
    current = latest.body.version_record_hash;
    seen = [];
    newer_version = none;
    chain = [];
  }

  abbrev pub next : Walk → Record → Walk
  next s r = record {
    current = r.body.prev;
    seen = s.current ∷ s.seen;
    newer_version = some r.body.version;
    chain = s.chain ++ r ∷ [];
  }

  module _ {W : Type 0} (fetch : W → Key → W × Option (List ℕ)) where
    abbrev turn_of : W → Walk → W × Turn
    turn_of = turn lib latest owner domain package_name fetch

    pub turn-Turned : (w : W) (s : Walk) → Turned s (turn_of w s).1
    unfolding turn
    turn-Turned w s = elim (ℕ_discrete (length s.chain) max_chain_length) [
      | yes full ↦ failed too_many_versions (ground (arith, full))
      | no room ↦ elim (Bool-cases (was_seen s.seen s.current)) [
        | inl again ↦ failed (cycle s.current) (ground (arith, again))
        | inr fresh ↦
            let opened : turn_of w s ≡ (
              (fetch w s.current).0,
              check_fetched lib latest owner domain package_name s (fetch w s.current).1,
            ) =
              ground (arith, fresh) in
            subst (λ t. Turned s t.1) (sym opened)
              (check_fetched-Turned s (fetch w s.current).1 room)
      ]
    ]

    abbrev walk_chain_of : W → W × Option (Result (List Record))
    walk_chain_of = walk_chain lib latest owner domain package_name fetch

    abbrev walk_of : ℕ → W → Walk → W × Option (Result (List Record))
    walk_of = walk lib latest owner domain package_name fetch

    -- A walk adds a chain to what it has.
    walk_lem :
        (fuel : ℕ) (w : W) (s : Walk) (out : List Record)
        → s.current ≢ end_of_chain
        → (walk_of fuel w s).1 ≡ some (ok out)
        → length s.chain ≤ max_chain_length
        → (rs : List Record) × (out ≡ s.chain ++ rs)
          × Continues lib latest owner domain package_name s.current s.newer_version rs
          × (length out ≤ max_chain_length)
    unfolding walk
    walk_lem zero w s out n e l = cc
    walk_lem (suc fuel) w s out n e l = elim (turn-Turned w s) [
      | failed error made ↦
          let stops : (walk_of (suc fuel) w s).1 ≡ some (err error) = rw (made, walk) refl in
          cc (stops, e)
      | took r t made ↦ elim (Bool-cases (is_key r.body.prev end_of_chain)) [
        | inl last ↦
            let ended : advance_of s r ≡ returned (ok (s.chain ++ r ∷ [])) =
              rw (last, advance) refl in
            let stops : (walk_of (suc fuel) w s).1 ≡ some (ok (s.chain ++ r ∷ [])) =
              rw (made ∙ ended, walk) refl in
            let same : out ≡ s.chain ++ r ∷ [] = cc (stops, e) in
            (
              r ∷ [],
              same,
              (n, t.fits, t.version, is_key-true r.body.prev end_of_chain last),
              omega (arith, ap length same, length-append s.chain (r ∷ []), t.room),
            )
        | inr on ↦
            let moved : advance_of s r ≡ more (next s r) = rw (on, advance) refl in
            let goes : (walk_of (suc fuel) w s).1 ≡ (walk_of fuel (turn_of w s).0 (next s r)).1 =
              rw (made ∙ moved, walk) refl in
            let (rs, same, chain, bound) =
              walk_lem fuel (turn_of w s).0 (next s r) out
                (is_key-false r.body.prev end_of_chain on) (sym goes ∙ e)
                (omega (arith, length-append s.chain (r ∷ []), t.room)) in
            (r ∷ rs, same ∙ append_assoc s.chain (r ∷ []) rs, (n, t.fits, t.version, chain), bound)
      ]
    ]

    -- Whatever the network answers, a history that `walk_chain` returns begins with the record that
    -- the valid pointer names, with the pointer's version; each record stands under the hash that the
    -- one before it names, is signed by the owner for this package, and has a lower version; the last
    -- one names no other.
    pub walk_chain-IsHistory :
        (w : W) (out : List Record)
        → (walk_chain_of w).1 ≡ some (ok out)
        → IsHistory lib latest owner domain package_name out
    unfolding walk_chain
    walk_chain-IsHistory w out e =
        let a = is_str latest.body.domain domain in
        let b = is_str latest.body.package_name package_name in
        let c = latest_is_valid lib latest owner in
        let d = is_key latest.body.version_record_hash end_of_chain in
        elim (Bool-cases (not a || not b || not c || d)) [
          | inl bad ↦
              let stops : (walk_chain_of w).1 ≡ some (err invalid_latest_pointer) =
                rw (bad, walk_chain) refl in
              cc (stops, e)
          | inr good ↦
              let (abc, named) = or-false (not a || not b || not c) d good in
              let (ab, valid) = or-false (not a || not b) (not c) abc in
              let (same_domain, same_package) = or-false (not a) (not b) ab in
              let goes : (walk_chain_of w).1 ≡ (walk_of (max_chain_length + 1) w start).1 =
                rw (good, walk_chain) refl in
              let not_end = is_key-false _ end_of_chain named in
              let (rs, same, chain, bound) =
                walk_lem (max_chain_length + 1) w start out not_end (sym goes ∙ e) (omega arith) in
              subst (IsHistory lib latest owner domain package_name) (sym same) (record {
                domain_same = is_str-true _ domain (not-false a same_domain);
                package_same = is_str-true _ package_name (not-false b same_package);
                pointer_valid = not-false c valid;
                continues = chain;
                named = not_end;
                bounded = omega (arith, bound, ap length same);
              })
        ]
