-- ===== src/VersionChain/Complete.antt =====
-- The walk always returns, and accepts every history that the network can answer for.
use kademlia_packet_manager.Prelude.{
  ℕ, zero, suc, ◌+◌, ◌≤◌, ◌≡◌, ◌≢◌, ◌∙◌, refl, ap, false, not, ◌||◌, Option, some, List, [], ◌∷◌,
  ◌++◌, length, arith, Bool-cases, inl, inr, length-append, append_assoc,
}
use kademlia_packet_manager.CloseNodes.{Key}
use kademlia_packet_manager.Package.{
  Str, Signed, LatestPointer, Libraries, is_key, is_str, latest_is_valid, key_for_value, record_key,
}
use kademlia_packet_manager.VersionChain.{
  Record, Result, ok, err, Walk, Turn, returned, more, end_of_chain, max_chain_length, advance,
  check_record, check_bytes, check_fetched, turn, walk, walk_chain, was_seen,
  invalid_latest_pointer,
}
use kademlia_packet_manager.VersionChain.Sound.{failed, took, turn-Turned, next, start}
use kademlia_packet_manager.VersionChain.Spec.{
  Continues, Fits, Fits-record_fits, VersionFits, VersionFits-version_error, IsHistory, is_key_of,
  is_key_ne, is_str_of,
}

module _ (lib : Libraries) (latest : Signed LatestPointer) (owner : lib.VerifyingKey)
    (domain package_name : Str) {W : Type 0} (fetch : W → Key → W × Option (List ℕ)) where
  abbrev turn_of : W → Walk → W × Turn
  turn_of = turn lib latest owner domain package_name fetch

  abbrev walk_of : ℕ → W → Walk → W × Option (Result (List Record))
  walk_of = walk lib latest owner domain package_name fetch

  -- With fuel for the records that the length limit leaves, and one turn more, a walk returns.
  walk-returns :
      (fuel : ℕ) (w : W) (s : Walk)
      → length s.chain ≤ max_chain_length
      → max_chain_length + 1 ≤ fuel + length s.chain
      → (r : Result (List Record)) × ((walk_of fuel w s).1 ≡ some r)
  unfolding walk
  walk-returns zero w s l enough = absurd (omega arith)
  walk-returns (suc fuel) w s l enough =
      elim (turn-Turned lib latest owner domain package_name fetch w s) [
        | failed error made ↦ (err error, rw (made, walk) refl)
        | took r t made ↦ elim (Bool-cases (is_key r.body.prev end_of_chain)) [
          | inl last ↦
              let ended : advance lib latest owner domain package_name s r
                  ≡ returned (ok (s.chain ++ r ∷ [])) =
                rw (last, advance) refl in
              (ok (s.chain ++ r ∷ []), rw (made ∙ ended, walk) refl)
          | inr on ↦
              let s' = next lib latest owner domain package_name s r in
              let moved : advance lib latest owner domain package_name s r ≡ more s' =
                rw (on, advance) refl in
              let (result, returns) =
                walk-returns fuel (turn_of w s).0 s'
                  (omega (arith, length-append s.chain (r ∷ []), t.room))
                  (omega (arith, length-append s.chain (r ∷ []))) in
              (result, rw (made ∙ moved, walk) returns)
        ]
      ]

  -- `walk_chain` always returns, also where the records name each other in a circle: the fuel is never
  -- spent.
  pub walk_chain-returns :
      (w : W)
      → (r : Result (List Record)) × ((walk_chain lib latest owner domain package_name fetch w).1
          ≡ some r)
  unfolding walk_chain
  walk_chain-returns w =
      elim (Bool-cases (
        not (is_str latest.body.domain domain)
        || not (is_str latest.body.package_name package_name)
        || not (latest_is_valid lib latest owner)
        || is_key latest.body.version_record_hash end_of_chain)) [
          | inl bad ↦ (err invalid_latest_pointer, rw (bad, walk_chain) refl)
          | inr good ↦
              let (r, e) =
                walk-returns (max_chain_length + 1) w (start lib latest owner domain package_name)
                  (omega arith) (omega arith) in
              (r, rw (good, walk_chain) e)
        ]

  -- The calls of `fetch`, made one after the other, give the encodings of the records.
  abbrev pub Served : W → Key → List Record → Type 0
  Served w key [] = Unit
  Served w key (r ∷ rs) =
      ((bytes : List ℕ) × (lib.serialize_record r ≡ some bytes) × ((fetch w key).1 ≡ some bytes))
      × Served (fetch w key).0 r.body.prev rs

  -- No key comes twice, nor is one of those that were seen.
  abbrev pub Unseen : List Key → Key → List Record → Type 0
  Unseen seen key [] = Unit
  Unseen seen key (r ∷ rs) = (was_seen seen key ≡ false) × Unseen (key ∷ seen) r.body.prev rs

  turn-advance :
      (w : W) (s : Walk) (r : Record) (bytes : List ℕ)
      → length s.chain ≢ max_chain_length
      → was_seen s.seen s.current ≡ false
      → (fetch w s.current).1 ≡ some bytes
      → lib.serialize_record r ≡ some bytes
      → Fits lib latest owner domain package_name r s.current
      → VersionFits lib latest owner domain package_name s.newer_version r.body.version
      → turn_of w s ≡ ((fetch w s.current).0, advance lib latest owner domain package_name s r)
  unfolding record_key key_for_value check_record check_bytes check_fetched
  turn-advance w s r bytes room fresh fetched encoded fits version =
      let key : record_key lib r ≡ some (key_for_value lib bytes) = rw (encoded, record_key) refl in
      let hash : key_for_value lib bytes ≡ s.current = cc (key, fits.stored_under) in
      let same = is_key_of (key_for_value lib bytes) s.current hash in
      let decoded = lib.deserialize-serialize_record r bytes encoded in
      let fit = Fits-record_fits lib latest owner domain package_name r s.current fits in
      let good =
        VersionFits-version_error lib latest owner domain package_name s.newer_version
          r.body.version version in
      let checked : check_record lib latest owner domain package_name s r
          ≡ advance lib latest owner domain package_name s r =
        rw (fit, check_record, good) refl in
      let read : check_bytes lib latest owner domain package_name s bytes
          ≡ advance lib latest owner domain package_name s r =
        rw (same, check_bytes, decoded) checked in
      let got : check_fetched lib latest owner domain package_name s (fetch w s.current).1
          ≡ advance lib latest owner domain package_name s r =
        rw fetched read in
      unfold turn in ground (arith, room, fresh, got)

  walk-accepts :
      (fuel : ℕ) (w : W) (s : Walk) (rs : List Record)
      → s.current ≢ end_of_chain
      → Continues lib latest owner domain package_name s.current s.newer_version rs
      → Served w s.current rs
      → Unseen s.seen s.current rs
      → length s.chain + length rs ≤ max_chain_length
      → length rs ≤ fuel
      → (walk_of fuel w s).1 ≡ some (ok (s.chain ++ rs))
  unfolding walk
  walk-accepts fuel w s [] n c v u l enough = absurd (n c)
  walk-accepts zero w s (r ∷ rs) n c v u l enough = absurd (omega arith)
  walk-accepts (suc fuel) w s (r ∷ []) n (_, fits, version, last) ((bytes, encoded, fetched), v) u l
        enough =
      let took = turn-advance w s r bytes (omega arith) u.0 fetched encoded fits version in
      let ended : advance lib latest owner domain package_name s r
          ≡ returned (ok (s.chain ++ r ∷ [])) =
        rw (is_key_of r.body.prev end_of_chain last, advance) refl in
      rw (took, walk, ended) refl
  walk-accepts (suc fuel) w s (r ∷ r' ∷ rs) n (_, fits, version, rest)
        ((bytes, encoded, fetched), v) u l enough =
      let took = turn-advance w s r bytes (omega arith) u.0 fetched encoded fits version in
      let s' = next lib latest owner domain package_name s r in
      let moved : advance lib latest owner domain package_name s r ≡ more s' =
        rw (is_key_ne r.body.prev end_of_chain rest.0, advance) refl in
      let longer : length s'.chain ≡ suc (length s.chain) =
        omega (arith, length-append s.chain (r ∷ [])) in
      let goes : walk_of (suc fuel) w s ≡ walk_of fuel (turn_of w s).0 s' =
        rw (ap (λ t. t.1) took ∙ moved, walk) refl in
      ap (λ r. r.1) (goes ∙ ap (λ t. walk_of fuel t.0 s') took)
      ∙ (walk-accepts fuel (fetch w s.current).0 s' (r' ∷ rs) rest.0 rest v u.1
            (omega (arith, longer)) (omega arith)
          ∙ ap (λ xs. some (ok xs)) (append_assoc s.chain (r ∷ []) (r' ∷ rs)))

  -- Every history whose records the calls of `fetch` give, in which no key comes twice, is accepted
  -- as it is.
  pub walk_chain-accepts :
      (w : W) (chain : List Record)
      → IsHistory lib latest owner domain package_name chain
      → Served w latest.body.version_record_hash chain
      → Unseen [] latest.body.version_record_hash chain
      → (walk_chain lib latest owner domain package_name fetch w).1 ≡ some (ok chain)
  unfolding walk_chain
  walk_chain-accepts w chain h v u =
      let a = is_str_of latest.body.domain domain h.domain_same in
      let b = is_str_of latest.body.package_name package_name h.package_same in
      let d = is_key_ne latest.body.version_record_hash end_of_chain h.named in
      rw (a, b, h.pointer_valid, d, walk_chain)
        (walk-accepts (max_chain_length + 1) w (start lib latest owner domain package_name) chain
          h.named h.continues v u (omega (arith, h.bounded)) (omega (arith, h.bounded)))
