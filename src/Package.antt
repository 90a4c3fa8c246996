-- ===== src/Package.antt =====
-- src/package.rs and src/hashing.rs: versions, signed records, and the keys they are stored under.
pub mod Versions
use kademlia_packet_manager.Prelude.{
  ℕ, ◌≡◌, Bool, true, false, Option, none, some, List, [], ◌∷◌, ◌++◌, ◌&&◌, not, holds, compare,
  Ordering, ◌==◌, if◌then◌else◌, list_discrete, ℕ_discrete,
}
use kademlia_packet_manager.CloseNodes.{Key, IsId, id_discrete}

-- `String` and `&str`: code points.
abbrev pub Str : Type 0
Str = List ℕ

-- The numbers are `u32`.
pub record Version : Type 0 where
  pub major : ℕ
  pub minor : ℕ
  pub patch : ℕ

-- The derived `Ord`: the fields in their order.
unfoldable pub version_cmp : Version → Version → Ordering
version_cmp a b = elim (compare a.major b.major) [
  | Ordering.eq ↦ elim (compare a.minor b.minor) [
    | Ordering.eq ↦ compare a.patch b.patch
    | Ordering.lt ↦ Ordering.lt
    | Ordering.gt ↦ Ordering.gt
  ]
  | Ordering.lt ↦ Ordering.lt
  | Ordering.gt ↦ Ordering.gt
]

-- `a < b`
unfoldable pub version_lt : Version → Version → Bool
unfolding version_cmp
version_lt a b = elim (version_cmp a b) [ Ordering.lt ↦ true | _ ↦ false ]

-- The derived `==`.
unfoldable pub is_version : Version → Version → Bool
is_version a b = (a.major == b.major) && (a.minor == b.minor) && (a.patch == b.patch)

pub record Signed (T : Type 0) : Type 0 where
  pub body : T
  pub sig : List ℕ

-- The source's field `package` is `package_name` here, and so below.
pub record VersionRecord : Type 0 where
  pub tag : Str
  pub domain : Str
  pub package_name : Str
  pub version : Version
  pub blob_hash : Key
  pub prev : Key

pub record LatestPointer : Type 0 where
  pub tag : Str
  pub domain : Str
  pub package_name : Str
  pub version : Version
  pub version_record_hash : Key

-- "version-record"
abbrev pub version_record_tag : Str
version_record_tag =
    118 ∷ 101 ∷ 114 ∷ 115 ∷ 105 ∷ 111 ∷ 110 ∷ 45 ∷ 114 ∷ 101 ∷ 99 ∷ 111 ∷ 114 ∷ 100 ∷ []

-- "latest-pointer"
abbrev pub latest_pointer_tag : Str
latest_pointer_tag =
    108 ∷ 97 ∷ 116 ∷ 101 ∷ 115 ∷ 116 ∷ 45 ∷ 112 ∷ 111 ∷ 105 ∷ 110 ∷ 116 ∷ 101 ∷ 114 ∷ []

-- ":"
abbrev pub colon : ℕ
colon = 58

-- ":latest"
abbrev pub latest_suffix : Str
latest_suffix = 58 ∷ 108 ∷ 97 ∷ 116 ∷ 101 ∷ 115 ∷ 116 ∷ []

-- What the program takes from `sha2`, `ed25519_dalek` and `bincode`, with what it relies on: a digest
-- has 32 bytes, what was encoded is decoded to itself, and a signature verifies under its key.
pub record Libraries : Type 1 where
  pub VerifyingKey : Type 0
  pub SigningKey : Type 0
  pub Signature : Type 0
  pub sha256 : List ℕ → Key
  pub sha256-IsId : (bytes : List ℕ) → IsId (sha256 bytes)
  -- `str::as_bytes`
  pub as_bytes : Str → List ℕ
  pub signature_from_slice : List ℕ → Option Signature
  pub verifies : VerifyingKey → Key → Signature → Bool
  pub sign_bytes : SigningKey → Key → List ℕ
  pub verifying_key : SigningKey → VerifyingKey
  pub key_discrete : Discrete VerifyingKey
  pub verifies-sign_bytes :
      (key : SigningKey) (hash : Key)
      → (sig : Signature) × (signature_from_slice (sign_bytes key hash) ≡ some sig)
        × (verifies (verifying_key key) hash sig ≡ true)
  pub serialize_record : Signed VersionRecord → Option (List ℕ)
  pub deserialize_record : List ℕ → Option (Signed VersionRecord)
  pub serialize_record_body : VersionRecord → Option (List ℕ)
  pub serialize_latest_body : LatestPointer → Option (List ℕ)
  pub deserialize-serialize_record :
      (r : Signed VersionRecord) (bytes : List ℕ)
      → serialize_record r ≡ some bytes
      → deserialize_record bytes ≡ some r

-- `str::contains`
unfoldable pub contains : Str → ℕ → Bool
contains [] c = false
contains (x ∷ xs) c = if x == c then true else contains xs c

abbrev pub is_key : Key → Key → Bool
is_key a b = holds (id_discrete a b)

abbrev pub is_str : Str → Str → Bool
is_str a b = holds (list_discrete ℕ_discrete a b)

module _ (lib : Libraries) where
  unfoldable pub hash_bytes : List ℕ → Key
  hash_bytes bytes = lib.sha256 bytes

  unfoldable pub key_for_value : List ℕ → Key
  unfolding hash_bytes
  key_for_value value = hash_bytes value

  unfoldable pub record_key : Signed VersionRecord → Option Key
  unfolding hash_bytes
  record_key signed = elim (lib.serialize_record signed) [
    | some bytes ↦ some (hash_bytes bytes)
    | none ↦ none
  ]

  unfoldable pub latest_key : Str → Str → Key
  unfolding hash_bytes
  latest_key domain package_name =
      hash_bytes (lib.as_bytes (domain ++ colon ∷ package_name ++ latest_suffix))

  -- `body_hash`, `sign` and `verify`, for a body with its encoder.
  module _ {T : Type 0} (serialize : T → Option (List ℕ)) where
    unfoldable pub body_hash : T → Option Key
    unfolding hash_bytes
    body_hash body = elim (serialize body) [ some bytes ↦ some (hash_bytes bytes) | none ↦ none ]

    unfoldable pub sign : T → lib.SigningKey → Option (Signed T)
    unfolding body_hash
    sign body key = elim (body_hash body) [
      | some hash ↦ some (record { body = body; sig = lib.sign_bytes key hash })
      | none ↦ none
    ]

    unfoldable pub verify : Signed T → lib.VerifyingKey → Bool
    unfolding body_hash
    verify signed owner = elim (lib.signature_from_slice signed.sig) [
      | none ↦ false
      | some sig ↦ elim (body_hash signed.body) [
        | none ↦ false
        | some hash ↦ lib.verifies owner hash sig
      ]
    ]

  unfoldable pub latest_is_valid : Signed LatestPointer → lib.VerifyingKey → Bool
  unfolding contains verify
  latest_is_valid pointer owner =
      is_str pointer.body.tag latest_pointer_tag
      && not (contains pointer.body.domain colon)
      && verify lib.serialize_latest_body pointer owner
