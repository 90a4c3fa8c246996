-- ===== src/Rpc/Table.antt =====
-- src/rpc.rs: what the calls do to the routing table.
use kademlia_packet_manager.Prelude.{
  ◌≡◌, Option, none, some, List, [], ℕ, All, Bool-cases, Option-cases, inl, inr,
}
use kademlia_packet_manager.CloseNodes.{NodeId, Key, Contact, SocketAddr, IsId}
use kademlia_packet_manager.CloseNodes.Contract.{IsCall, IsRouting, run-IsAnswer}
use kademlia_packet_manager.VersionChain.{Record}
use kademlia_packet_manager.Frames.{Method}
use kademlia_packet_manager.Store.{Value}
use kademlia_packet_manager.Rpc.{
  Wire, Rpc, Transport, IoResult, done, failed, frame_request, answered, Local, ErrorKind,
  ReplyIsWellFormed, forget, on_failure, send, call, ping, store_with_proof, find_node, find_value,
  more_than_k, contacts_of, value_of, peer_is_gone,
}

-- The routing table keeps its promises, whoever uses it: the other tasks of the node offer it ids of
-- 32 bytes, as the node does.
pub record IsSound {S : Type 0} (rpc : Rpc S) (Inv : S → Type 0) : Type 0 where
  pub my_id-IsId : IsId rpc.my_contact.id
  pub routing : IsRouting rpc.close_nodes rpc.my_contact.id Inv
  pub meanwhile-IsCall : (w : rpc.World) → All IsCall (rpc.meanwhile w)

module _ (wire : Wire) {S : Type 0} (rpc : Rpc S) (Inv : S → Type 0) (sound : IsSound rpc Inv) where
  -- The table of a state keeps its invariant.
  abbrev pub Keeps : Local S rpc.World → Type 0
  Keeps s = Inv s.table

  pub forget-Keeps :
      (s : Local S rpc.World) (contact : Contact) → Keeps s → Keeps (forget wire rpc s contact)
  unfolding forget
  forget-Keeps s contact v =
      elim (Bool-cases (more_than_k [] (rpc.close_nodes.contacts_iter s.table))) [
        | inl plenty ↦ rw (plenty, forget) (sound.routing.remove_contact-Inv s.table contact v)
        | inr few ↦ rw (few, forget) v
      ]

  on_failure-Keeps :
      (s : Local S rpc.World) (known : Option Contact) (e : ErrorKind)
      → Keeps s
      → Keeps (on_failure wire rpc s known e)
  unfolding on_failure
  on_failure-Keeps s none e v = v
  on_failure-Keeps s (some contact) e v = elim (Bool-cases (peer_is_gone e)) [
    | inl gone ↦ rw (gone, on_failure) (forget-Keeps s contact v)
    | inr alive ↦ rw (alive, on_failure) v
  ]

  send-Keeps :
      (transport : Transport rpc.World) (s : Local S rpc.World) (request : List ℕ)
      (peer : SocketAddr)
      → Keeps s
      → Keeps (send wire rpc transport s request peer).0
  unfolding send
  send-Keeps transport s request peer v =
      (run-IsAnswer rpc.close_nodes rpc.my_contact.id Inv sound.routing
        (rpc.meanwhile (transport s.world request peer).0) s.table (sound.meanwhile-IsCall _) v).0

  answered-Keeps :
      (s : Local S rpc.World) (known : Option Contact) (result : IoResult (List ℕ))
      → Keeps s
      → Keeps (answered wire rpc s known result).0
  unfolding answered
  answered-Keeps s known (done reply) v = v
  answered-Keeps s known (failed e) v = on_failure-Keeps s known e v

  pub call-Keeps :
      (transport : Transport rpc.World) (s : Local S rpc.World) (method : Method) (body : List ℕ)
      (peer : SocketAddr) (known : Option Contact)
      → Keeps s
      → Keeps (call wire rpc transport s method body peer known).0
  unfolding call
  call-Keeps transport s method body peer known v =
      answered-Keeps (send wire rpc transport s (frame_request wire rpc method body) peer).0 known
        (send wire rpc transport s (frame_request wire rpc method body) peer).1
        (send-Keeps transport s (frame_request wire rpc method body) peer v)

  pub ping-Keeps :
      (s : Local S rpc.World) (peer : SocketAddr) → Keeps s → Keeps (ping wire rpc s peer).0
  unfolding ping
  ping-Keeps s peer v =
      elim (Option-cases (call wire rpc rpc.transport s Method.ping [] peer none).1) [
        | inl absent ↦ rw (absent, ping) (call-Keeps rpc.transport s Method.ping [] peer none v)
        | inr (reply, there) ↦
            rw (there, ping) (call-Keeps rpc.transport s Method.ping [] peer none v)
      ]

  pub store_with_proof-Keeps :
      (s : Local S rpc.World) (peer : Contact) (key : Key) (v : Value) (proof : List Record)
      → Keeps s
      → Keeps (store_with_proof wire rpc s peer key v proof).0
  unfolding store_with_proof
  store_with_proof-Keeps s peer key v proof h =
      elim (Option-cases
        (wire.serialize_request (record { key = key; value = v; proof = proof }))) [
          | inl bad ↦ rw (bad, store_with_proof) h
          | inr (body, good) ↦
              rw (good, store_with_proof)
                (call-Keeps rpc.robust_transport s Method.store body peer.address (some peer) h)
        ]

  pub find_node-Keeps :
      (s : Local S rpc.World) (peer : Contact) (target : NodeId)
      → Keeps s
      → Keeps (find_node wire rpc s peer target).0
  unfolding find_node
  find_node-Keeps s peer target h = elim (Option-cases (wire.serialize_id target)) [
    | inl bad ↦ rw (bad, find_node) h
    | inr (body, good) ↦
        rw (good, find_node)
          (call-Keeps rpc.transport s Method.find_node body peer.address (some peer) h)
  ]

  pub find_value-Keeps :
      (s : Local S rpc.World) (peer : Contact) (key : Key)
      → Keeps s
      → Keeps (find_value wire rpc s peer key).0
  unfolding find_value
  find_value-Keeps s peer key h = elim (Option-cases (wire.serialize_id key)) [
    | inl bad ↦ rw (bad, find_value) h
    | inr (body, good) ↦
        rw (good, find_value)
          (call-Keeps rpc.robust_transport s Method.find_value body peer.address (some peer) h)
  ]

  contacts_of-IsId : (reply : Option (List ℕ)) → All (λ c. IsId c.id) (contacts_of wire rpc reply)
  unfolding contacts_of
  contacts_of-IsId none = tt
  contacts_of-IsId (some reply) = elim (Option-cases (wire.deserialize_contacts reply)) [
    | inl bad ↦ rw (bad, contacts_of) tt
    | inr (contacts, good) ↦
        rw (good, contacts_of) (wire.deserialize_contacts-IsId reply contacts good)
  ]

  -- Whatever comes back, the contacts of an answer have ids of 32 bytes.
  pub find_node-IsId :
      (s : Local S rpc.World) (peer : Contact) (target : NodeId)
      → All (λ c. IsId c.id) (find_node wire rpc s peer target).1
  unfolding find_node
  find_node-IsId s peer target = elim (Option-cases (wire.serialize_id target)) [
    | inl bad ↦ rw (bad, find_node) tt
    | inr (body, good) ↦ rw (good, find_node) (contacts_of-IsId _)
  ]

  value_of-ReplyIsWellFormed :
      (reply : Option (List ℕ)) → ReplyIsWellFormed (value_of wire rpc reply)
  unfolding value_of
  value_of-ReplyIsWellFormed none = tt
  value_of-ReplyIsWellFormed (some reply) =
      elim (Option-cases (wire.deserialize_find_value reply)) [
        | inl bad ↦ rw (bad, value_of) tt
        | inr (found, good) ↦
            rw (good, value_of) (wire.deserialize_find_value-IsId reply found good)
      ]

  pub find_value-ReplyIsWellFormed :
      (s : Local S rpc.World) (peer : Contact) (key : Key)
      → ReplyIsWellFormed (find_value wire rpc s peer key).1
  unfolding find_value
  find_value-ReplyIsWellFormed s peer key = elim (Option-cases (wire.serialize_id key)) [
    | inl bad ↦ rw (bad, find_value) tt
    | inr (body, good) ↦ rw (good, find_value) (value_of-ReplyIsWellFormed _)
  ]

  pub ping-IsId :
      (s : Local S rpc.World) (peer : SocketAddr) (id : NodeId)
      → (ping wire rpc s peer).1 ≡ some id
      → IsId id
  unfolding ping
  ping-IsId s peer id e =
      elim (Option-cases (call wire rpc rpc.transport s Method.ping [] peer none).1) [
        | inl absent ↦ let nothing : none ≡ some id = rw (absent, ping) at e in cc nothing
        | inr (reply, there) ↦ wire.deserialize_id-IsId reply id (rw (there, ping) at e)
      ]
