-- ===== src/HandleRpc/Learning.antt =====
-- src/handle_rpc.rs: what a request changes in the node that answers it.
use kademlia_packet_manager.Prelude.{
  ℕ, ◌≡◌, refl, sym, subst, false, Option, none, some, List, [], ◌∷◌, All, Bool-cases, Option-cases,
  inl, inr, ◌++◌,
}
use kademlia_packet_manager.DashMap.{DashMap}
use kademlia_packet_manager.CloseNodes.{NodeId, Key, SocketAddr, CloseNodes, IsId, IsByte}
use kademlia_packet_manager.CloseNodes.Contract.{IsRouting}
use kademlia_packet_manager.Package.{Str, Libraries}
use kademlia_packet_manager.Store.{Value}
use kademlia_packet_manager.Frames.{Method, tag, parse_framed, parse_framed_exact}
use kademlia_packet_manager.Rpc.{Wire}
use kademlia_packet_manager.HandleRpc.{
  Request, Context, from_datagram, from_connection, learn, handle_ping, handle_store,
  handle_find_node, handle_find_value, find_value_of, handle_method, dispatch_parsed, dispatch,
}

All-append_left : {A : Type 0} (P : A → Type 0) (xs ys : List A) → All P (xs ++ ys) → All P xs
All-append_left P [] ys h = tt
All-append_left P (x ∷ xs) ys h = (h.0, All-append_left P xs ys h.1)

module _ (wire : Wire) (lib : Libraries) {S : Type 0} (table : CloseNodes S)
    (map : DashMap Key Value) (my_id : NodeId) (get_dns_vk : Str → Option lib.VerifyingKey)
    (Inv : S → Type 0) (routing : IsRouting table my_id Inv) where
  abbrev Server : Type 0
  Server = Context wire lib table map my_id get_dns_vk

  -- The routing table keeps its invariant.
  abbrev pub Kept : Server → Type 0
  Kept context = Inv context.close_nodes

  handle_find_node-Kept :
      (now : ℕ) (context : Server) (body : List ℕ)
      → Kept context
      → Kept (handle_find_node wire lib table map my_id get_dns_vk now context body).0
  unfolding handle_find_node
  handle_find_node-Kept now context body v = elim (Option-cases (wire.deserialize_id body)) [
    | inl bad ↦ rw (bad, handle_find_node) v
    | inr (target, good) ↦
        rw (good, handle_find_node)
          (routing.close_nodes-Inv now context.close_nodes target
            (wire.deserialize_id-IsId body target good) v)
  ]

  find_value_of-Kept :
      (now : ℕ) (context : Server) (key : Key)
      → IsId key
      → Kept context
      → Kept (find_value_of wire lib table map my_id get_dns_vk now context key).0
  unfolding find_value_of
  find_value_of-Kept now context key w v = elim (Option-cases (map.get context.values key)) [
    | inl absent ↦
        rw (absent, find_value_of) (routing.close_nodes-Inv now context.close_nodes key w v)
    | inr (held, found) ↦ rw (found, find_value_of) v
  ]

  handle_find_value-Kept :
      (now : ℕ) (context : Server) (body : List ℕ)
      → Kept context
      → Kept (handle_find_value wire lib table map my_id get_dns_vk now context body).0
  unfolding handle_find_value
  handle_find_value-Kept now context body v = elim (Option-cases (wire.deserialize_id body)) [
    | inl bad ↦ rw (bad, handle_find_value) v
    | inr (key, good) ↦
        rw (good, handle_find_value)
          (find_value_of-Kept now context key (wire.deserialize_id-IsId body key good) v)
  ]

  handle_method-Kept :
      (now : ℕ) (context : Server) (method : Method) (body : List ℕ)
      → Kept context
      → Kept (handle_method wire lib table map my_id get_dns_vk now context method body).0
  unfolding handle_method handle_ping handle_store
  handle_method-Kept now context Method.ping body v = v
  handle_method-Kept now context Method.store body v = v
  handle_method-Kept now context Method.find_node body v = handle_find_node-Kept now context body v
  handle_method-Kept now context Method.find_value body v =
      handle_find_value-Kept now context body v

  learn-Kept :
      (context : Server) (request : Request) (id : NodeId)
      → IsId id
      → Kept context
      → Kept (learn wire lib table map my_id get_dns_vk context request id)
  unfolding learn
  learn-Kept context request id w v = elim (Bool-cases request.from_is_reachable) [
    | inl reachable ↦
        rw (reachable, learn) (routing.maybe_add_contact-Inv context.close_nodes _ w v)
    | inr fleeting ↦ rw (fleeting, learn) v
  ]

  -- Whatever bytes a request carries, and whichever wire it came off, answering it keeps the invariant
  -- of the routing table.
  pub dispatch-Kept :
      (now : ℕ) (context : Server) (request : Request)
      → All IsByte request.payload
      → Kept context
      → Kept (dispatch wire lib table map my_id get_dns_vk now context request).0
  unfolding dispatch dispatch_parsed
  dispatch-Kept now context request bytes v = elim (Option-cases (parse_framed request.payload)) [
    | inl bad ↦ rw (bad, dispatch) v
    | inr ((id, method, body), parsed) ↦
        let (whole, size) = (parse_framed_exact request.payload id method body).0 parsed in
        let all : All IsByte (id ++ (tag method ++ body)) = subst (All IsByte) whole bytes in
        let w : IsId id = record { bytes = All-append_left IsByte id _ all; size = size } in
        rw (parsed, dispatch)
          (handle_method-Kept now _ method body (learn-Kept context request id w v))
  ]

  -- A request off a connection teaches the node nothing: its table changes only where it was asked
  -- for near contacts, and answers with them.
  pub connection_teaches_nothing :
      (now : ℕ) (context : Server) (from : SocketAddr) (datagram : List ℕ) (request : Request)
      (id : NodeId)
      → from_connection from datagram ≡ some request
      → learn wire lib table map my_id get_dns_vk context request id ≡ context
  unfolding from_connection learn
  connection_teaches_nothing now context from datagram request id e =
      elim (Option-cases (from_datagram from datagram)) [
        | inl short ↦
            let refused : none ≡ some request = rw (short, from_connection) at e in cc refused
        | inr (r, parsed) ↦
            let made : some (record {
              id = r.id;
              from = r.from;
              from_is_reachable = false;
              payload = r.payload;
            })
                ≡ some request =
              rw (parsed, from_connection) at e in
            let fleeting : false ≡ request.from_is_reachable = cc made in
            rw (sym fleeting, learn) refl
      ]
