-- ===== src/VersionChain.antt =====
-- src/version_chain.rs: the history of a package, a chain of signed records that name each other by
-- hash, from the latest pointer back to the first version.
pub mod Spec
pub mod Sound
pub mod Complete
pub mod Proof
pub mod Taken
pub mod Compare
pub mod Load
use kademlia_packet_manager.Prelude.{
  ℕ, zero, suc, ◌+◌, ◌≡◌, Bool, true, false, Option, none, some, List, [], ◌∷◌, ◌++◌, ◌&&◌, ◌||◌,
  not, holds, ◌==◌, ltb, if◌then◌else◌, length, replicate,
}
use kademlia_packet_manager.CloseNodes.{Key, id_discrete}
use kademlia_packet_manager.Package.{
  Str, Version, version_lt, is_version, Signed, VersionRecord, LatestPointer, Libraries,
  version_record_tag, is_key, is_str, key_for_value, record_key, verify, latest_is_valid,
}

abbrev pub end_of_chain : Key
end_of_chain = replicate 32 0

abbrev pub max_chain_length : ℕ
max_chain_length = 10000

abbrev pub Record : Type 0
Record = Signed VersionRecord

pub data ChainError : Type 0 where
  no_dns_key : ChainError
  no_latest_pointer : ChainError
  invalid_latest_pointer : ChainError
  missing_record : Key → ChainError
  hash_mismatch : Key → ChainError
  invalid_encoding : Key → ChainError
  invalid_record : Key → ChainError
  head_version_mismatch : ChainError
  non_decreasing_version : ChainError
  cycle : Key → ChainError
  too_many_versions : ChainError
  empty_chain : ChainError
  different_package : ChainError
  unexpected_records : ChainError

-- `Result<A, ChainError>`
pub data Result (A : Type 0) : Type 0 where
  ok : A → Result A
  err : ChainError → Result A

-- The variables of the loop of `walk_chain`.
pub record Walk : Type 0 where
  pub current : Key
  pub seen : List Key
  pub newer_version : Option Version
  pub chain : List Record

-- One turn of the loop: it returns, or goes on.
pub data Turn : Type 0 where
  returned : Result (List Record) → Turn
  more : Walk → Turn

unfoldable pub was_seen : List Key → Key → Bool
was_seen [] key = false
was_seen (x ∷ xs) key = if is_key x key then true else was_seen xs key

module _ (lib : Libraries) (latest : Signed LatestPointer) (owner : lib.VerifyingKey)
    (domain package_name : Str) where
  -- The record is the one that the key names, and is the owner's, of this package.
  unfoldable pub record_fits : Record → Key → Bool
  unfolding record_key verify
  record_fits signed current = elim (record_key lib signed) [
    | none ↦ false
    | some key ↦
        is_key key current
        && is_str signed.body.tag version_record_tag
        && is_str signed.body.domain domain
        && is_str signed.body.package_name package_name
        && verify lib lib.serialize_record_body signed owner
  ]

  -- The first record has the pointer's version, and an older one a lower version than the newer.
  unfoldable pub version_error : Option Version → Version → Option ChainError
  unfolding is_version version_lt
  version_error none version =
      if is_version version latest.body.version then none else some head_version_mismatch
  version_error (some newer) version =
      if version_lt version newer then none else some non_decreasing_version

  -- The end of a turn, for a record that passed every check.
  unfoldable pub advance : Walk → Record → Turn
  advance s signed =
      let chain = s.chain ++ signed ∷ [] in
      if is_key signed.body.prev end_of_chain
      then returned (ok chain)
      else more (record {
        current = signed.body.prev;
        seen = s.current ∷ s.seen;
        newer_version = some signed.body.version;
        chain = chain;
      })

  -- The checks behind the decoding.
  unfoldable pub check_record : Walk → Record → Turn
  unfolding record_fits version_error advance
  check_record s signed = elim (record_fits signed s.current) [
    | false ↦ returned (err (invalid_record s.current))
    | true ↦ elim (version_error s.newer_version signed.body.version) [
      | some error ↦ returned (err error)
      | none ↦ advance s signed
    ]
  ]

  unfoldable pub check_bytes : Walk → List ℕ → Turn
  unfolding key_for_value check_record
  check_bytes s bytes =
      if not (is_key (key_for_value lib bytes) s.current)
      then returned (err (hash_mismatch s.current))
      else elim (lib.deserialize_record bytes) [
        | none ↦ returned (err (invalid_encoding s.current))
        | some signed ↦ check_record s signed
      ]

  -- What the closure gave for the current key.
  unfoldable pub check_fetched : Walk → Option (List ℕ) → Turn
  unfolding check_bytes
  check_fetched s none = returned (err (missing_record s.current))
  check_fetched s (some bytes) = check_bytes s bytes

  -- The turns: `fetch` is the source's closure, and `W` what its calls read and change.
  module _ {W : Type 0} (fetch : W → Key → W × Option (List ℕ)) where
    unfoldable pub turn : W → Walk → W × Turn
    unfolding was_seen check_fetched
    turn w s =
        if length s.chain == max_chain_length
        then (w, returned (err too_many_versions))
        else if was_seen s.seen s.current
        then (w, returned (err (cycle s.current)))
        else ((fetch w s.current).0, check_fetched s (fetch w s.current).1)

    -- The loop, with fuel; `none` where the fuel is spent.
    unfoldable pub walk : ℕ → W → Walk → W × Option (Result (List Record))
    unfolding turn
    walk zero w s = (w, none)
    walk (suc fuel) w s = elim (turn w s).1 [
      | returned r ↦ ((turn w s).0, some r)
      | more s' ↦ walk fuel (turn w s).0 s'
    ]

    unfoldable pub walk_chain : W → W × Option (Result (List Record))
    unfolding walk latest_is_valid
    walk_chain w =
        if not (is_str latest.body.domain domain)
          || not (is_str latest.body.package_name package_name)
          || not (latest_is_valid lib latest owner)
          || is_key latest.body.version_record_hash end_of_chain
        then (w, some (err invalid_latest_pointer))
        else walk (max_chain_length + 1) w (record {
          current = latest.body.version_record_hash;
          seen = [];
          newer_version = none;
          chain = [];
        })
