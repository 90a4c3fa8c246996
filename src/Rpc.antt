-- ===== src/Rpc.antt =====
-- src/rpc.rs: the four calls that a node makes to another, over two transports. The state is what a
-- call may change: the routing table, and the world that the transports, the clock and the other tasks
-- of the node stand for.
pub mod Table
pub mod Forget
pub mod Worlds
use kademlia_packet_manager.Prelude.{
  ℕ, suc, ◌≡◌, Bool, true, false, Option, none, some, List, [], ◌∷◌, ◌++◌, ltb, holds, length,
  if◌then◌else◌, All,
}
use kademlia_packet_manager.CloseNodes.{
  NodeId, Key, Contact, SocketAddr, CloseNodes, IsId, k, id_discrete,
}
use kademlia_packet_manager.CloseNodes.Contract.{Call, run}
use kademlia_packet_manager.Package.{is_key, is_str}
use kademlia_packet_manager.VersionChain.{Record}
use kademlia_packet_manager.Frames.{Method, tag}
use kademlia_packet_manager.Store.{Value, StoreRequest, stored}

-- The kinds of `std::io::Error` that the program tells apart.
pub data ErrorKind : Type 0 where
  timed_out : ErrorKind
  connection_refused : ErrorKind
  connection_reset : ErrorKind
  invalid_data : ErrorKind
  broken_pipe : ErrorKind
  other : ErrorKind

pub data IoResult (A : Type 0) : Type 0 where
  done : A → IoResult A
  failed : ErrorKind → IoResult A

pub data FindValue : Type 0 where
  value : Value → FindValue
  closest : List Contact → FindValue

unfoldable pub peer_is_gone : ErrorKind → Bool
peer_is_gone ErrorKind.timed_out = true
peer_is_gone ErrorKind.connection_refused = true
peer_is_gone ErrorKind.connection_reset = true
peer_is_gone ErrorKind.invalid_data = false
peer_is_gone ErrorKind.broken_pipe = false
peer_is_gone ErrorKind.other = false

abbrev pub ReplyIsWellFormed : FindValue → Type 0
ReplyIsWellFormed (FindValue.value v) = Unit
ReplyIsWellFormed (FindValue.closest contacts) = All (λ c. IsId c.id) contacts

-- What the program takes from `bincode`: an id that was decoded has 32 bytes, and an id or a list
-- of contacts that was encoded is decoded to itself.
pub record Wire : Type 0 where
  pub serialize_id : NodeId → Option (List ℕ)
  pub deserialize_id : List ℕ → Option NodeId
  pub serialize_contacts : List Contact → Option (List ℕ)
  pub deserialize_contacts : List ℕ → Option (List Contact)
  pub serialize_find_value : FindValue → Option (List ℕ)
  pub deserialize_find_value : List ℕ → Option FindValue
  pub serialize_request : StoreRequest → Option (List ℕ)
  pub deserialize_request : List ℕ → Option StoreRequest
  pub deserialize_id-IsId :
      (bytes : List ℕ) (id : NodeId) → deserialize_id bytes ≡ some id → IsId id
  pub deserialize_contacts-IsId :
      (bytes : List ℕ) (contacts : List Contact)
      → deserialize_contacts bytes ≡ some contacts
      → All (λ c. IsId c.id) contacts
  pub deserialize_find_value-IsId :
      (bytes : List ℕ) (reply : FindValue)
      → deserialize_find_value bytes ≡ some reply
      → ReplyIsWellFormed reply
  pub deserialize-serialize_id :
      (id : NodeId) (bytes : List ℕ)
      → IsId id
      → serialize_id id ≡ some bytes
      → deserialize_id bytes ≡ some id
  pub deserialize-serialize_contacts :
      (contacts : List Contact) (bytes : List ℕ)
      → All (λ c. IsId c.id) contacts
      → serialize_contacts contacts ≡ some bytes
      → deserialize_contacts bytes ≡ some contacts

-- `RpcTransport::send_receive`
abbrev pub Transport : Type 0 → Type 0
Transport W = W → List ℕ → SocketAddr → W × IoResult (List ℕ)

-- The client, in a world that answers its transports. While a call waits, other tasks may use the
-- routing table (`meanwhile`), and of several calls in flight any one may end first (`first_to_end`).
pub record Rpc (S : Type 0) : Type 1 where
  pub my_contact : Contact
  pub close_nodes : CloseNodes S
  pub World : Type 0
  pub transport : Transport World
  pub robust_transport : Transport World
  pub now : World → ℕ
  pub meanwhile : World → List Call
  pub first_to_end : World → ℕ

-- The routing table behind its lock, and the world.
pub record Local (S W : Type 0) : Type 0 where
  pub table : S
  pub world : W

-- `HashSet::contains`
unfoldable pub has_id : NodeId → List NodeId → Bool
has_id id [] = false
has_id id (x ∷ xs) = if is_key x id then true else has_id id xs

-- `HashSet::insert`
unfoldable pub insert_id : NodeId → List NodeId → List NodeId
unfolding has_id
insert_id id ids = if has_id id ids then ids else id ∷ ids

-- The closure of `forget` over the contacts, with the ids that it has seen.
unfoldable pub more_than_k : List NodeId → List Contact → Bool
unfolding insert_id
more_than_k distinct [] = false
more_than_k distinct (known ∷ rest) =
    let distinct = insert_id known.id distinct in
    let later = more_than_k distinct rest in if ltb k (length distinct) then true else later

module _ (wire : Wire) {S : Type 0} (rpc : Rpc S) where
  abbrev pub State : Type 0
  State = Local S rpc.World

  abbrev pub with_table : State → S → State
  with_table s table = record { table = table; world = s.world }

  unfoldable pub forget : State → Contact → State
  unfolding more_than_k
  forget s contact =
      if more_than_k [] (rpc.close_nodes.contacts_iter s.table)
      then with_table s (rpc.close_nodes.remove_contact s.table contact)
      else s

  -- What a failed call to a peer of the routing table does.
  unfoldable pub on_failure : State → Option Contact → ErrorKind → State
  unfolding peer_is_gone forget
  on_failure s none e = s
  on_failure s (some contact) e = if peer_is_gone e then forget s contact else s

  unfoldable pub frame_request : Method → List ℕ → List ℕ
  frame_request method body = rpc.my_contact.id ++ (tag method ++ body)

  -- A request went out, and the world answered or failed.
  unfoldable pub send :
      Transport rpc.World → State → List ℕ → SocketAddr → State × IoResult (List ℕ)
  unfolding run
  send transport s request peer =
      let (world, result) = transport s.world request peer in
      (
        record { table = (run rpc.close_nodes (rpc.meanwhile world) s.table).0; world = world },
        result,
      )

  -- What becomes of the call.
  unfoldable pub answered : State → Option Contact → IoResult (List ℕ) → State × Option (List ℕ)
  unfolding on_failure
  answered s known (done reply) = (s, some reply)
  answered s known (failed e) = (on_failure s known e, none)

  unfoldable pub call :
      Transport rpc.World
      → State
      → Method
      → List ℕ
      → SocketAddr
      → Option Contact
      → State × Option (List ℕ)
  unfolding send frame_request answered
  call transport s method body peer known =
      let (s', result) = send transport s (frame_request method body) peer in
      answered s' known result

  unfoldable pub ping : State → SocketAddr → State × Option NodeId
  unfolding call
  ping s peer =
      let (s', reply) = call rpc.transport s Method.ping [] peer none in
      elim reply [ none ↦ (s', none) | some bytes ↦ (s', wire.deserialize_id bytes) ]

  unfoldable pub is_stored : Option (List ℕ) → Bool
  is_stored none = false
  is_stored (some bytes) = is_str bytes stored

  unfoldable pub store_with_proof : State → Contact → Key → Value → List Record → State × Bool
  unfolding call is_stored
  store_with_proof s peer key v proof =
      elim (wire.serialize_request (record { key = key; value = v; proof = proof })) [
        | none ↦ (s, false)
        | some body ↦
            let (s', reply) =
              call rpc.robust_transport s Method.store body peer.address (some peer) in
            (s', is_stored reply)
      ]

  unfoldable pub store : State → Contact → Key → Value → State × Bool
  unfolding store_with_proof
  store s peer key v = store_with_proof s peer key v []

  -- `decode_reply(&reply).unwrap_or_default()`
  unfoldable pub contacts_of : Option (List ℕ) → List Contact
  contacts_of none = []
  contacts_of (some reply) = elim (wire.deserialize_contacts reply) [
    | none ↦ []
    | some contacts ↦ contacts
  ]

  unfoldable pub find_node : State → Contact → NodeId → State × List Contact
  unfolding call contacts_of
  find_node s peer target = elim (wire.serialize_id target) [
    | none ↦ (s, [])
    | some body ↦
        let (s', reply) = call rpc.transport s Method.find_node body peer.address (some peer) in
        (s', contacts_of reply)
  ]

  unfoldable pub value_of : Option (List ℕ) → FindValue
  value_of none = FindValue.closest []
  value_of (some reply) = elim (wire.deserialize_find_value reply) [
    | none ↦ FindValue.closest []
    | some found ↦ found
  ]

  unfoldable pub find_value : State → Contact → Key → State × FindValue
  unfolding call value_of
  find_value s peer key = elim (wire.serialize_id key) [
    | none ↦ (s, FindValue.closest [])
    | some body ↦
        let (s', reply) =
          call rpc.robust_transport s Method.find_value body peer.address (some peer) in
        (s', value_of reply)
  ]
