-- ===== src/HandleRpc/Answers.antt =====
-- src/handle_rpc.rs and src/rpc.rs: what the client of a call makes of the server's answer.
use kademlia_packet_manager.Prelude.{
  ℕ, ◌+◌, ◌^◌, ◌<◌, ◌≡◌, ◌∙◌, refl, ap, subst, true, Option, some, List, ◌++◌, All, length,
  Bool-cases, inl, inr, if◌then◌else◌,
}
use kademlia_packet_manager.Prelude.Masks.{or_below}
use kademlia_packet_manager.DashMap.{DashMap}
use kademlia_packet_manager.CloseNodes.{NodeId, Key, SocketAddr, CloseNodes, IsId}
use kademlia_packet_manager.Package.{Str, Libraries}
use kademlia_packet_manager.Store.{Value}
use kademlia_packet_manager.Frames.{
  Method, tag, split_at_checked, parse_framed_exact, append-split_at_checked,
}
use kademlia_packet_manager.RpcTransport.{
  id_len, reply_id, to_be_bytes, length-be_bytes, from_be_bytes-to_be_bytes,
}
use kademlia_packet_manager.Rpc.{Wire, Rpc, frame_request, contacts_of}
use kademlia_packet_manager.HandleRpc.{
  Request, Context, from_datagram, frame_reply, learn, handle_find_node, handle_method, framed,
  dispatch_parsed, dispatch,
}

-- A datagram of an id and what follows it, parsed.
pub from_datagram-to_be_bytes :
    (from : SocketAddr) (id : ℕ) (payload : List ℕ)
    → id < 2 ^ 64
    → from_datagram from (to_be_bytes id ++ payload)
      ≡ some (record { id = id; from = from; from_is_reachable = true; payload = payload })
unfolding from_datagram
from_datagram-to_be_bytes from id payload h =
    let eight : length (to_be_bytes id) ≡ id_len =
      unfold to_be_bytes in length-be_bytes id_len id in
    let split : split_at_checked (to_be_bytes id ++ payload) id_len
        ≡ some (to_be_bytes id, payload) =
      subst (λ n. split_at_checked (to_be_bytes id ++ payload) n ≡ some (to_be_bytes id, payload))
        eight (append-split_at_checked (to_be_bytes id) payload) in
    rw (split, from_datagram, from_be_bytes-to_be_bytes id h) refl

module _ (wire : Wire) (lib : Libraries) {S : Type 0} (table : CloseNodes S)
    (map : DashMap Key Value) (my_id : NodeId) (get_dns_vk : Str → Option lib.VerifyingKey) where
  abbrev pub Server : Type 0
  Server = Context wire lib table map my_id get_dns_vk

  abbrev pub dispatched : ℕ → Server → Request → Server × Option (List ℕ)
  dispatched = dispatch wire lib table map my_id get_dns_vk

  -- A framed request reaches the handler of its method with its body.
  dispatch-framed :
      (now : ℕ) (context : Server) (request : Request) (id : NodeId) (method : Method)
      (body : List ℕ)
      → length id ≡ 32
      → request.payload ≡ id ++ (tag method ++ body)
      → dispatched now context request
        ≡ dispatch_parsed wire lib table map my_id get_dns_vk now context request id method body
  unfolding dispatch
  dispatch-framed now context request id method body size same =
      let parsed = (parse_framed_exact request.payload id method body).1 (same, size) in
      rw (parsed, dispatch) refl

  -- The server's table once the sender of a request was taken note of: one that can be reached under
  -- the address that the request came from is offered to it.
  abbrev pub heard : Server → Request → NodeId → S
  heard context request sender_id =
      if request.from_is_reachable
      then table.maybe_add_contact context.close_nodes
          (record { id = sender_id; address = request.from })
      else context.close_nodes

  learn-heard :
      (context : Server) (request : Request) (sender_id : NodeId)
      → learn wire lib table map my_id get_dns_vk context request sender_id
        ≡ record { close_nodes = heard context request sender_id; values = context.values }
  unfolding learn
  learn-heard context request sender_id = elim (Bool-cases request.from_is_reachable) [
    | inl near ↦ rw near refl
    | inr far ↦ rw far refl
  ]

  tagged :
      (id : ℕ) (body : List ℕ)
      → id < 2 ^ 63
      → frame_reply id body ≡ to_be_bytes (2 ^ 63 + id) ++ body
  unfolding frame_reply reply_id
  tagged id body h = ap (λ n. to_be_bytes n ++ body) (or_below 63 id h)

  find_node_reply :
      (now : ℕ) (context : Server) (request : Request) (id target : NodeId) (body reply : List ℕ)
      → request.id < 2 ^ 63
      → wire.deserialize_id body ≡ some target
      → wire.serialize_contacts (table.close_nodes now (heard context request id) target).1
        ≡ some reply
      → dispatch_parsed wire lib table map my_id get_dns_vk now context request id Method.find_node
          body
        ≡ (
          record {
            close_nodes = (table.close_nodes now (heard context request id) target).0;
            values = context.values;
          },
          some (to_be_bytes (2 ^ 63 + request.id) ++ reply),
        )
  unfolding dispatch_parsed handle_method handle_find_node framed
  find_node_reply now context request id target body reply small decoded answered =
      ap
        (λ (c : Server).
          let (c', r) =
            handle_method wire lib table map my_id get_dns_vk now c Method.find_node body in
          (c', framed wire lib table map my_id get_dns_vk request.id r))
        (learn-heard context request id)
      ∙ rw (decoded, handle_find_node, answered, tagged request.id reply small) refl

  -- A FIND_NODE that a client frames is answered: what goes out is the id of the request in eight bytes,
  -- with the bit 63 set, and a body that the client reads as the contacts that the server's table lists
  -- as the nearest to the target, once the client was offered to the table where it can be reached. The
  -- values stay as they are. The id of the request is below 2^63, as those of clients are.
  pub dispatch-find_node :
      {T : Type 0} (rpc : Rpc T) (now : ℕ) (context : Server) (request : Request) (target : NodeId)
      (body reply : List ℕ)
      → IsId rpc.my_contact.id
      → IsId target
      → request.id < 2 ^ 63
      → wire.serialize_id target ≡ some body
      → request.payload ≡ frame_request wire rpc Method.find_node body
      → All
          (λ c. IsId c.id)
          (table.close_nodes now (heard context request rpc.my_contact.id) target).1
      → wire.serialize_contacts
          (table.close_nodes now (heard context request rpc.my_contact.id) target).1
        ≡ some reply
      → (dispatched now context request ≡ (
        record {
          close_nodes = (table.close_nodes now (heard context request rpc.my_contact.id) target).0;
          values = context.values;
        },
        some (to_be_bytes (2 ^ 63 + request.id) ++ reply),
      ))
        × (contacts_of wire rpc (some reply)
            ≡ (table.close_nodes now (heard context request rpc.my_contact.id) target).1)
  dispatch-find_node rpc now context request target body reply mine target_id small asked framing
        ids answered =
      let sent : request.payload ≡ rpc.my_contact.id ++ (tag Method.find_node ++ body) =
        framing ∙ unfold frame_request in refl in
      let routed =
        dispatch-framed now context request rpc.my_contact.id Method.find_node body mine.size
          sent in
      let decoded = wire.deserialize-serialize_id target body target_id asked in
      let read = wire.deserialize-serialize_contacts _ reply ids answered in
      (
        routed
            ∙ find_node_reply now context request rpc.my_contact.id target body reply small decoded
                answered,
        unfold contacts_of in rw (read, contacts_of) refl,
      )
