-- ===== src/Tests/Network.antt =====
-- A wire format, and two small networks: one that answers every question, and one that stores.
use kademlia_packet_manager.Prelude.{
  ℕ, suc, ◌≡◌, refl, Bool, true, Option, none, some, List, [], ◌∷◌, ◌&&◌, ltb, ◌==◌, if◌then◌else◌,
  holds, get_or, length, All, arith, Bool-cases, inl, inr, holds-yes, and-true, and_intro,
  list_discrete,
}
use kademlia_packet_manager.CloseNodes.{NodeId, Contact, CloseNodes, IsId, IsByte, contact_discrete}
use kademlia_packet_manager.CloseNodes.StaticBucket
use kademlia_packet_manager.CloseNodes.StaticBucket.{StaticBucket, static_bucket}
use kademlia_packet_manager.CloseNodes.StaticBucket.Answers.{Inv, static_bucket-IsRouting}
use kademlia_packet_manager.Store.{blob, latest, stored}
use kademlia_packet_manager.Rpc.{
  Wire, Rpc, Local, FindValue, done, failed, ErrorKind, ReplyIsWellFormed,
}
use kademlia_packet_manager.Rpc.Table.{IsSound}
use kademlia_packet_manager.Tests.Fixtures.{
  id_of, id_of-IsId, contact_of, heapless, empty_table, empty_table-IsValid,
}
use kademlia_packet_manager.Tests.Chains.{pointer}

abbrev are_bytes : List ℕ → Bool
are_bytes [] = true
are_bytes (b ∷ bs) = ltb b 256 && are_bytes bs

are_bytes-IsByte : (bs : List ℕ) → are_bytes bs ≡ true → All IsByte bs
are_bytes-IsByte [] e = tt
are_bytes-IsByte (b ∷ bs) e =
    let (small, rest) = and-true (ltb b 256) (are_bytes bs) e in
    (ground (arith, small), are_bytes-IsByte bs rest)

IsByte-are_bytes : (bs : List ℕ) → All IsByte bs → are_bytes bs ≡ true
IsByte-are_bytes [] h = refl
IsByte-are_bytes (b ∷ bs) h =
    let small : ltb b 256 ≡ true = ground (arith, h.0) in and_intro small (IsByte-are_bytes bs h.1)

abbrev is_id : List ℕ → Bool
is_id bytes = are_bytes bytes && (length bytes == 32)

abbrev decode_id : List ℕ → Option NodeId
decode_id bytes = if is_id bytes then some bytes else none

pub decode_id-IsId : (bytes : List ℕ) (id : NodeId) → decode_id bytes ≡ some id → IsId id
decode_id-IsId bytes id e = elim (Bool-cases (is_id bytes)) [
  | inr bad ↦ let nothing : none ≡ some id = rw bad at e in cc nothing
  | inl good ↦
      let made : some bytes ≡ some id = rw good at e in
      let same : bytes ≡ id = cc made in
      let (small, size) = and-true (are_bytes bytes) (length bytes == 32) good in
      rw (← same) (record { bytes = are_bytes-IsByte bytes small; size = ground (arith, size) })
]

pub encode-decode_id :
    (id : NodeId) (bytes : List ℕ) → IsId id → some id ≡ some bytes → decode_id bytes ≡ some id
encode-decode_id id bytes w e =
    let same : id ≡ bytes = cc e in
    let small = IsByte-are_bytes id w.bytes in
    let size : (length id == 32) ≡ true = ground (arith, w.size) in rw (← same, small, size) refl

-- Two lists of contacts have an encoding.
abbrev pub known : List Contact
known = contact_of 4 ∷ []

abbrev encode_contacts : List Contact → Option (List ℕ)
encode_contacts contacts =
    if holds (list_discrete contact_discrete contacts known)
    then some (1 ∷ [])
    else if holds (list_discrete contact_discrete contacts [])
    then some []
    else none

abbrev decode_contacts : List ℕ → Option (List Contact)
decode_contacts [] = some []
decode_contacts (b ∷ bytes) = if b == 1 then some known else none

pub decode_contacts-IsId :
    (bytes : List ℕ) (contacts : List Contact)
    → decode_contacts bytes ≡ some contacts
    → All (λ c. IsId c.id) contacts
decode_contacts-IsId [] contacts e = let same : [] ≡ contacts = cc e in rw (← same) tt
decode_contacts-IsId (b ∷ bytes) contacts e = elim (Bool-cases (b == 1)) [
  | inr bad ↦ let nothing : none ≡ some contacts = rw bad at e in cc nothing
  | inl good ↦
      let made : some known ≡ some contacts = rw good at e in
      let same : known ≡ contacts = cc made in rw (← same) (id_of-IsId 4 (omega arith), tt)
]

pub encode-decode_contacts :
    (contacts : List Contact) (bytes : List ℕ)
    → All (λ c. IsId c.id) contacts
    → encode_contacts contacts ≡ some bytes
    → decode_contacts bytes ≡ some contacts
encode-decode_contacts contacts bytes w e =
    elim (Bool-cases (holds (list_discrete contact_discrete contacts known))) [
      | inl p ↦
          let made : some (1 ∷ []) ≡ some bytes = rw p at e in
          let is_it : contacts ≡ known =
            holds-yes (list_discrete contact_discrete contacts known) p in
          let same : 1 ∷ [] ≡ bytes = cc made in rw (← same, is_it) refl
      | inr n ↦ elim (Bool-cases (holds (list_discrete contact_discrete contacts []))) [
        | inl p ↦
            let made : some [] ≡ some bytes = rw (n, p) at e in
            let is_it : contacts ≡ [] = holds-yes (list_discrete contact_discrete contacts []) p in
            let same : [] ≡ bytes = cc made in rw (← same, is_it) refl
        | inr m ↦ let nothing : none ≡ some bytes = rw (n, m) at e in cc nothing
      ]
    ]

-- A reply is a blob, or the pointer.
abbrev decode_find_value : List ℕ → Option FindValue
decode_find_value [] = none
decode_find_value (b ∷ bytes) =
    some (FindValue.value (if b == 0 then latest pointer else blob (b ∷ bytes)))

pub decode_find_value-IsId :
    (bytes : List ℕ) (reply : FindValue)
    → decode_find_value bytes ≡ some reply
    → ReplyIsWellFormed reply
decode_find_value-IsId [] reply e = cc
decode_find_value-IsId (b ∷ bytes) reply e =
    let same : FindValue.value (if b == 0 then latest pointer else blob (b ∷ bytes)) ≡ reply =
      cc e in
    rw (← same) tt

abbrev pub wire : Wire
wire = record {
  serialize_id = λ id. some id;
  deserialize_id = decode_id;
  serialize_contacts = encode_contacts;
  deserialize_contacts = decode_contacts;
  serialize_find_value = λ reply. some [];
  deserialize_find_value = decode_find_value;
  serialize_request = λ request. some [];
  deserialize_request = λ bytes. none;
  deserialize_id-IsId = decode_id-IsId;
  deserialize_contacts-IsId = decode_contacts-IsId;
  deserialize_find_value-IsId = decode_find_value-IsId;
  deserialize-serialize_id = encode-decode_id;
  deserialize-serialize_contacts = encode-decode_contacts;
}

-- Who asks for a key gets the blob of its first byte, but the pointer under 97.
abbrev answer : List ℕ → List ℕ
answer request = if get_or request 42 0 == 97 then 0 ∷ [] else get_or request 42 0 ∷ []

-- A node with one contact, whose transports always answer.
abbrev pub rpc : Rpc StaticBucket
rpc = record {
  my_contact = contact_of 0;
  close_nodes = static_bucket 10 0 256 heapless;
  World = ℕ;
  transport = λ w request peer. (suc w, done (id_of 4));
  robust_transport = λ w request peer. (suc w, done (answer request));
  now = λ w. w;
  meanwhile = λ w. [];
  first_to_end = λ w. w;
}

abbrev pub TableInv : StaticBucket → Type 0
TableInv = Inv 10 0 256 (omega arith) heapless (id_of 0)

pub rpc-IsSound : IsSound rpc TableInv
rpc-IsSound = record {
  my_id-IsId = id_of-IsId 0 (omega arith);
  routing = static_bucket-IsRouting 10 0 256 (omega arith) heapless (id_of 0);
  meanwhile-IsCall = λ w. tt;
}

abbrev pub start : Local StaticBucket ℕ
start = record { table = rpc.close_nodes.maybe_add_contact empty_table (contact_of 4); world = 0 }

pub empty_table-my_id : empty_table.my_id ≡ id_of 0
unfolding StaticBucket.new
empty_table-my_id = refl

pub start-Inv : TableInv start.table
start-Inv =
    rpc-IsSound.routing.maybe_add_contact-Inv empty_table (contact_of 4)
      (id_of-IsId 4 (omega arith)) (empty_table-IsValid, empty_table-my_id)

-- A table that never holds anyone: the node has only itself to ask.
abbrev nobody : CloseNodes (Unit {0})
nobody = record {
  close_nodes = λ now s id. (s, []);
  maybe_add_contact = λ s c. s;
  remove_contact = λ s c. s;
  contacts_iter = λ s. [];
}

abbrev pub alone : Rpc (Unit {0})
alone = record {
  my_contact = contact_of 0;
  close_nodes = nobody;
  World = ℕ;
  transport = λ w request peer. (suc w, failed ErrorKind.timed_out);
  robust_transport = λ w request peer. (suc w, done (answer request));
  now = λ w. w;
  meanwhile = λ w. [];
  first_to_end = λ w. w;
}

abbrev pub storing : Rpc (Unit {0})
storing = record {
  my_contact = contact_of 0;
  close_nodes = nobody;
  World = ℕ;
  transport = λ w request peer. (suc w, failed ErrorKind.timed_out);
  robust_transport = λ w request peer. (suc w, done stored);
  now = λ w. w;
  meanwhile = λ w. [];
  first_to_end = λ w. w;
}

abbrev pub at_rest : Local (Unit {0}) ℕ
at_rest = record { table = tt; world = 0 }
