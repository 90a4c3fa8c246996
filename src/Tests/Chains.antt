-- ===== src/Tests/Chains.antt =====
-- A history of two versions, with concrete libraries.
use kademlia_packet_manager.Prelude.{
  ℕ, suc, ℕ_discrete, ◌%◌, ◌≡◌, refl, true, Option, none, some, List, [], ◌∷◌, replicate, length,
  arith, get_or, if◌then◌else◌, holds, Bool-cases, inl, inr, holds-yes, ◌==◌,
}
use kademlia_packet_manager.CloseNodes.{Key, IsId, id_discrete}
use kademlia_packet_manager.Package.{
  Version, Signed, LatestPointer, Libraries, version_record_tag, latest_pointer_tag, is_key,
}
use kademlia_packet_manager.VersionChain.{Record, Result, ok, end_of_chain, walk_chain, was_seen}
use kademlia_packet_manager.VersionChain.Spec.{IsHistory}
use kademlia_packet_manager.VersionChain.Sound.{walk_chain-IsHistory}
use kademlia_packet_manager.VersionChain.Complete.{
  Served, Unseen, walk_chain-accepts, walk_chain-returns,
}
use kademlia_packet_manager.VersionChain.Proof.{
  validate_chain_proof, validate_chain_proof-IsHistory,
}
use kademlia_packet_manager.VersionChain.Compare.{
  ChainRelation, Related, compare_chains, compare_chains-Related, signed_discrete,
}

-- A digest that keeps the first byte.
abbrev pub digest : List ℕ → Key
digest bytes = (get_or bytes 0 0 % 256) ∷ replicate 31 0

pub digest-IsId : (bytes : List ℕ) → IsId (digest bytes)
digest-IsId bytes = record { bytes = omega arith; size = refl }

-- "a.b" and "p"
abbrev pub version_of : ℕ → Version
version_of n = record { major = n; minor = 0; patch = 0 }

abbrev pub first : Record
first = record {
  body = record {
    tag = version_record_tag;
    domain = 97 ∷ [];
    package_name = 112 ∷ [];
    version = version_of 1;
    blob_hash = digest (9 ∷ []);
    prev = end_of_chain;
  };
  sig = [];
}

abbrev pub second : Record
second = record {
  body = record {
    tag = version_record_tag;
    domain = 97 ∷ [];
    package_name = 112 ∷ [];
    version = version_of 2;
    blob_hash = digest (8 ∷ []);
    prev = digest (1 ∷ []);
  };
  sig = 2 ∷ [];
}

abbrev pub third : Record
third = record {
  body = record {
    tag = version_record_tag;
    domain = 97 ∷ [];
    package_name = 112 ∷ [];
    version = version_of 3;
    blob_hash = digest (9 ∷ []);
    prev = digest (2 ∷ []);
  };
  sig = [];
}

abbrev pub pointer : Signed LatestPointer
pointer = record {
  body = record {
    tag = latest_pointer_tag;
    domain = 97 ∷ [];
    package_name = 112 ∷ [];
    version = version_of 2;
    version_record_hash = digest (2 ∷ []);
  };
  sig = 3 ∷ [];
}

-- Only these three records have an encoding: their signature.
abbrev pub encode : Record → Option (List ℕ)
encode r =
    if holds (signed_discrete r first)
    then some (1 ∷ [])
    else if holds (signed_discrete r second)
    then some (2 ∷ [])
    else if holds (signed_discrete r third)
    then some (3 ∷ [])
    else none

abbrev pub decode : List ℕ → Option Record
decode bytes =
    if get_or bytes 0 0 == 1
    then some first
    else if get_or bytes 0 0 == 2
    then some second
    else if get_or bytes 0 0 == 3
    then some third
    else none

pub decode-encode : (r : Record) (bytes : List ℕ) → encode r ≡ some bytes → decode bytes ≡ some r
decode-encode r bytes e = elim (Bool-cases (holds (signed_discrete r first))) [
  | inl p ↦
      let made : some (1 ∷ []) ≡ some bytes = rw p at e in
      let is_it : r ≡ first = holds-yes (signed_discrete r first) p in
      let same : 1 ∷ [] ≡ bytes = cc made in rw (← same, is_it) refl
  | inr n ↦ elim (Bool-cases (holds (signed_discrete r second))) [
    | inl q ↦
        let made : some (2 ∷ []) ≡ some bytes = rw (n, q) at e in
        let is_it : r ≡ second = holds-yes (signed_discrete r second) q in
        let same : 2 ∷ [] ≡ bytes = cc made in rw (← same, is_it) refl
    | inr m ↦ elim (Bool-cases (holds (signed_discrete r third))) [
      | inl o ↦
          let made : some (3 ∷ []) ≡ some bytes = rw (n, m, o) at e in
          let is_it : r ≡ third = holds-yes (signed_discrete r third) o in
          let same : 3 ∷ [] ≡ bytes = cc made in rw (← same, is_it) refl
      | inr o ↦ let made : none ≡ some bytes = rw (n, m, o) at e in cc made
    ]
  ]
]

abbrev pub libraries : Libraries
libraries = record {
  VerifyingKey = ℕ;
  SigningKey = ℕ;
  Signature = List ℕ;
  sha256 = digest;
  sha256-IsId = digest-IsId;
  as_bytes = λ s. s;
  signature_from_slice = λ bytes. some bytes;
  verifies = λ owner hash sig. true;
  sign_bytes = λ key hash. [];
  verifying_key = λ key. key;
  key_discrete = ℕ_discrete;
  verifies-sign_bytes = λ key hash. ([], refl, refl);
  serialize_record = encode;
  deserialize_record = decode;
  serialize_record_body = λ body. some [];
  serialize_latest_body = λ body. some [];
  deserialize-serialize_record = decode-encode;
}

abbrev pub history : List Record
history = second ∷ first ∷ []

-- The network answers, and counts the calls.
abbrev fetch : ℕ → Key → ℕ × Option (List ℕ)
fetch n key = (suc n, if is_key key (digest (2 ∷ [])) then some (2 ∷ []) else some (1 ∷ []))

walk_chain-returns_example :
    (r : Result (List Record)) × ((walk_chain libraries pointer 5 (97 ∷ []) (112 ∷ []) fetch 0).1
      ≡ some r)
walk_chain-returns_example = walk_chain-returns libraries pointer 5 (97 ∷ []) (112 ∷ []) fetch 0

pub walked : (walk_chain libraries pointer 5 (97 ∷ []) (112 ∷ []) fetch 0).1 ≡ some (ok history)
unfolding walk_chain signed_discrete
walked = refl

pub history-IsHistory : IsHistory libraries pointer 5 (97 ∷ []) (112 ∷ []) history
history-IsHistory =
    walk_chain-IsHistory libraries pointer 5 (97 ∷ []) (112 ∷ []) fetch 0 history walked

walk_chain-IsHistory_example : IsHistory libraries pointer 5 (97 ∷ []) (112 ∷ []) history
walk_chain-IsHistory_example =
    walk_chain-IsHistory libraries pointer 5 (97 ∷ []) (112 ∷ []) fetch 0 history walked

history-Served : Served libraries pointer 5 (97 ∷ []) (112 ∷ []) fetch 0 (digest (2 ∷ [])) history
unfolding signed_discrete
history-Served = ((2 ∷ [], refl, refl), ((1 ∷ [], refl, refl), tt))

history-Unseen : Unseen libraries pointer 5 (97 ∷ []) (112 ∷ []) fetch [] (digest (2 ∷ [])) history
unfolding was_seen id_discrete
history-Unseen = (refl, (refl, tt))

walk_chain-accepts_example :
    (walk_chain libraries pointer 5 (97 ∷ []) (112 ∷ []) fetch 0).1 ≡ some (ok history)
walk_chain-accepts_example =
    walk_chain-accepts libraries pointer 5 (97 ∷ []) (112 ∷ []) fetch 0 history history-IsHistory
      history-Served history-Unseen

validate_chain_proof-IsHistory_example :
    (r : Result (List Record)) × (validate_chain_proof libraries pointer 5 (first ∷ second ∷ [])
      ≡ some r)
    × ((out : List Record)
        → r ≡ ok out
        → (length out ≡ 2) × IsHistory libraries pointer 5 (97 ∷ []) (112 ∷ []) out)
validate_chain_proof-IsHistory_example =
    validate_chain_proof-IsHistory libraries pointer 5 (first ∷ second ∷ [])

-- The records of a proof may come in any order.
any_order : validate_chain_proof libraries pointer 5 (first ∷ second ∷ []) ≡ some (ok history)
unfolding validate_chain_proof signed_discrete
any_order = refl

compared : compare_chains (first ∷ []) history ≡ ok ChainRelation.extends
unfolding compare_chains
compared = refl

compare_chains-Related_example : Related ChainRelation.extends (first ∷ []) history
compare_chains-Related_example =
    compare_chains-Related ChainRelation.extends (first ∷ []) history compared
