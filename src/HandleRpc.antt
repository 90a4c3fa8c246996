-- ===== src/HandleRpc.antt =====
-- src/handle_rpc.rs and the handlers of its four methods: a request that came in is parsed, its sender
-- learned, and answered.
pub mod Answers
pub mod Learning
use kademlia_packet_manager.Prelude.{
  ℕ, ◌≡◌, Bool, true, false, Option, none, some, List, [], ◌∷◌, ◌++◌, if◌then◌else◌,
}
use kademlia_packet_manager.DashMap.{DashMap}
use kademlia_packet_manager.CloseNodes.{NodeId, Key, Contact, SocketAddr, CloseNodes}
use kademlia_packet_manager.Package.{Str, Libraries}
use kademlia_packet_manager.Store as Storing
use kademlia_packet_manager.Store.{Value}
use kademlia_packet_manager.Frames.{Method, split_at_checked, parse_framed}
use kademlia_packet_manager.RpcTransport.{id_len, reply_id, to_be_bytes, from_be_bytes}
use kademlia_packet_manager.Rpc.{Wire, FindValue}

-- One inbound request.
pub record Request : Type 0 where
  pub id : ℕ
  pub from : SocketAddr
  pub from_is_reachable : Bool
  pub payload : List ℕ

unfoldable pub from_datagram : SocketAddr → List ℕ → Option Request
unfolding split_at_checked from_be_bytes
from_datagram from datagram = elim (split_at_checked datagram id_len) [
  | none ↦ none
  | some parts ↦ some (record {
    id = from_be_bytes parts.0;
    from = from;
    from_is_reachable = true;
    payload = parts.1;
  })
]

unfoldable pub from_connection : SocketAddr → List ℕ → Option Request
unfolding from_datagram
from_connection from datagram = elim (from_datagram from datagram) [
  | none ↦ none
  | some request ↦ some (record {
    id = request.id;
    from = request.from;
    from_is_reachable = false;
    payload = request.payload;
  })
]

unfoldable pub frame_reply : ℕ → List ℕ → List ℕ
unfolding reply_id to_be_bytes
frame_reply id body = to_be_bytes (reply_id id) ++ body

module _ (wire : Wire) (lib : Libraries) {S : Type 0} (table : CloseNodes S)
    (map : DashMap Key Value) (my_id : NodeId) (get_dns_vk : Str → Option lib.VerifyingKey) where
  -- The parts of `Context` that requests change. `now` is the reading of the clock.
  pub record Context : Type 0 where
    pub close_nodes : S
    pub values : map.Map

  abbrev pub Handled : Type 0
  Handled = Context × Option (List ℕ)

  unfoldable pub handle_ping : Context → List ℕ → Handled
  handle_ping context body = (context, wire.serialize_id my_id)

  unfoldable pub handle_store : Context → List ℕ → Handled
  unfolding Storing.handle
  handle_store context body =
      let (values, reply) =
        Storing.handle lib map get_dns_vk wire.deserialize_request context.values body in
      (record { close_nodes = context.close_nodes; values = values }, reply)

  unfoldable pub handle_find_node : ℕ → Context → List ℕ → Handled
  handle_find_node now context body = elim (wire.deserialize_id body) [
    | none ↦ (context, none)
    | some target ↦
        let (s, contacts) = table.close_nodes now context.close_nodes target in
        (record { close_nodes = s; values = context.values }, wire.serialize_contacts contacts)
  ]

  -- A key that was decoded.
  unfoldable pub find_value_of : ℕ → Context → Key → Handled
  find_value_of now context key = elim (map.get context.values key) [
    | some v ↦ (context, wire.serialize_find_value (FindValue.value v))
    | none ↦
        let (s, contacts) = table.close_nodes now context.close_nodes key in
        (
          record { close_nodes = s; values = context.values },
          wire.serialize_find_value (FindValue.closest contacts),
        )
  ]

  unfoldable pub handle_find_value : ℕ → Context → List ℕ → Handled
  unfolding find_value_of
  handle_find_value now context body = elim (wire.deserialize_id body) [
    | none ↦ (context, none)
    | some key ↦ find_value_of now context key
  ]

  unfoldable pub handle_method : ℕ → Context → Method → List ℕ → Handled
  unfolding handle_ping handle_store handle_find_node handle_find_value
  handle_method now context Method.ping body = handle_ping context body
  handle_method now context Method.store body = handle_store context body
  handle_method now context Method.find_node body = handle_find_node now context body
  handle_method now context Method.find_value body = handle_find_value now context body

  -- Its sender is learned before the method is looked at, where it can be reached again.
  unfoldable pub learn : Context → Request → NodeId → Context
  learn context request sender_id =
      if request.from_is_reachable
      then record {
        close_nodes =
            table.maybe_add_contact context.close_nodes
              (record { id = sender_id; address = request.from });
        values = context.values;
      }
      else context

  unfoldable pub framed : ℕ → Option (List ℕ) → Option (List ℕ)
  unfolding frame_reply
  framed id none = none
  framed id (some reply) = some (frame_reply id reply)

  -- A request that could be parsed.
  unfoldable pub dispatch_parsed : ℕ → Context → Request → NodeId → Method → List ℕ → Handled
  unfolding learn handle_method framed
  dispatch_parsed now context request sender_id method body =
      let (context', reply) = handle_method now (learn context request sender_id) method body in
      (context', framed request.id reply)

  unfoldable pub dispatch : ℕ → Context → Request → Handled
  unfolding parse_framed dispatch_parsed
  dispatch now context request = elim (parse_framed request.payload) [
    | none ↦ (context, none)
    | some parts ↦ dispatch_parsed now context request parts.0 parts.1 parts.2
  ]
