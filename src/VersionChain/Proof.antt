-- ===== src/VersionChain/Proof.antt =====
-- src/version_chain.rs, `validate_chain_proof`: a history that came with a request, in any order.
use kademlia_packet_manager.Prelude.{
  ℕ, ◌⊎◌, ◌≡◌, ◌∙◌, refl, sym, ap, Option, none, some, List, [], ◌∷◌, ltb, not, ◌==◌, if◌then◌else◌,
  length, replicate, Bool-cases, ℕ_discrete, arith, inl, inr,
}
use kademlia_packet_manager.CloseNodes.{Key}
use kademlia_packet_manager.Package.{Signed, LatestPointer, Libraries, is_key, record_key}
use kademlia_packet_manager.VersionChain.{
  Record, Result, ok, err, ChainError, max_chain_length, invalid_encoding, unexpected_records,
  too_many_versions, walk_chain,
}
use kademlia_packet_manager.VersionChain.Spec.{IsHistory}
use kademlia_packet_manager.VersionChain.Sound.{walk_chain-IsHistory}
use kademlia_packet_manager.VersionChain.Complete.{walk_chain-returns}

-- `std::collections::HashMap<Key, Vec<u8>>`: the pairs inserted.
abbrev pub Records : Type 0
Records = List (Key × List ℕ)

unfoldable pub get_bytes : Records → Key → Option (List ℕ)
get_bytes [] key = none
get_bytes (p ∷ ps) key = if is_key p.0 key then some p.1 else get_bytes ps key

pub Result-cases :
    {A : Type 0} (r : Result A) → ((a : A) × (r ≡ ok a)) ⊎ ((e : ChainError) × (r ≡ err e))
Result-cases (ok a) = inl (a, refl)
Result-cases (err e) = inr (e, refl)

module _ (lib : Libraries) where
  -- The loop that fills the map.
  unfoldable pub index_records : List Record → Records → Result Records
  unfolding get_bytes record_key
  index_records [] records = ok records
  index_records (signed ∷ proof) records = elim (record_key lib signed) [
    | none ↦ err (invalid_encoding (replicate 32 0))
    | some key ↦ elim (lib.serialize_record signed) [
      | none ↦ err (invalid_encoding key)
      | some bytes ↦ elim (get_bytes records key) [
        | some earlier ↦ err unexpected_records
        | none ↦ index_records proof ((key, bytes) ∷ records)
      ]
    ]
  ]

  module _ (latest : Signed LatestPointer) (owner : lib.VerifyingKey) where
    -- The closure reads the map and changes nothing.
    abbrev pub lookup : Records → Unit {0} → Key → Unit {0} × Option (List ℕ)
    lookup records w key = (tt, get_bytes records key)

    abbrev pub walk_records : Records → Option (Result (List Record))
    walk_records records =
        (walk_chain lib latest owner latest.body.domain latest.body.package_name (lookup records)
          tt).1

    -- What becomes of the walk's result.
    unfoldable pub check_count : List Record → Result (List Record) → Result (List Record)
    check_count proof (err error) = err error
    check_count proof (ok validated) =
        if not (length validated == length proof) then err unexpected_records else ok validated

    unfoldable pub validate_chain_proof : List Record → Option (Result (List Record))
    unfolding index_records get_bytes walk_chain check_count
    validate_chain_proof proof =
        if ltb max_chain_length (length proof)
        then some (err too_many_versions)
        else elim (index_records proof []) [
          | err error ↦ some (err error)
          | ok records ↦ elim (walk_records records) [
            | none ↦ none
            | some result ↦ some (check_count proof result)
          ]
        ]

    check_count-ok :
        (proof : List Record) (r : Result (List Record)) (out : List Record)
        → check_count proof r ≡ ok out
        → (length out ≡ length proof) × (r ≡ ok out)
    unfolding check_count
    check_count-ok proof (err error) out e = cc
    check_count-ok proof (ok validated) out e =
        elim (ℕ_discrete (length validated) (length proof)) [
          | yes same ↦
              let kept : check_count proof (ok validated) ≡ ok validated = ground (arith, same) in
              let found : validated ≡ out = cc (kept, e) in
              (ap length (sym found) ∙ same, ap ok found)
          | no other ↦
              let refused : check_count proof (ok validated) ≡ err unexpected_records =
                ground (arith, other) in
              cc (refused, e)
        ]

    -- A proof is always judged, and a history that is accepted is one of the pointer's package from
    -- the record that the pointer names on, as long as the proof.
    pub validate_chain_proof-IsHistory :
        (proof : List Record)
        → (r : Result (List Record)) × (validate_chain_proof proof ≡ some r)
          × ((out : List Record)
              → r ≡ ok out
              → (length out ≡ length proof)
                × IsHistory lib latest owner latest.body.domain latest.body.package_name out)
    unfolding validate_chain_proof
    validate_chain_proof-IsHistory proof = elim (Bool-cases (ltb max_chain_length (length proof))) [
      | inl long ↦ (err too_many_versions, rw (long, validate_chain_proof) refl, λ out e. cc)
      | inr short ↦ elim (Result-cases (index_records proof [])) [
        | inr (error, bad) ↦ (err error, rw (short, validate_chain_proof, bad) refl, λ out e. cc)
        | inl (records, filled) ↦
            let (r, walked) =
              walk_chain-returns lib latest owner latest.body.domain latest.body.package_name
                (lookup records) tt in
            (
              check_count proof r,
              rw (short, validate_chain_proof, filled, walked) refl,
              λ out e.
                  let (count, same) = check_count-ok proof r out e in
                  (
                    count,
                    walk_chain-IsHistory lib latest owner latest.body.domain
                        latest.body.package_name (lookup records) tt out (walked ∙ ap some same),
                  ),
            )
      ]
    ]
