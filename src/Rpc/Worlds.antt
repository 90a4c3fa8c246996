-- ===== src/Rpc/Worlds.antt =====
-- src/rpc.rs: what the calls do to the world. A call is one use of its transport, and nothing else.
use kademlia_packet_manager.Prelude.{
  ◌≡◌, refl, Option, none, some, List, ℕ, ◌++◌, [], Bool, false, Bool-cases, Option-cases, inl, inr,
}
use kademlia_packet_manager.CloseNodes.{NodeId, Key, Contact, SocketAddr}
use kademlia_packet_manager.VersionChain.{Record}
use kademlia_packet_manager.Frames.{Method, tag}
use kademlia_packet_manager.Package.{is_str}
use kademlia_packet_manager.Store.{Value, stored}
use kademlia_packet_manager.Rpc.{
  Wire, Rpc, Local, Transport, IoResult, done, failed, ErrorKind, forget, on_failure, more_than_k,
  peer_is_gone, answered, send, call, find_node, frame_request, store_with_proof, is_stored,
}

module _ (wire : Wire) {S : Type 0} (rpc : Rpc S) where
  forget-world :
      (s : Local S rpc.World) (contact : Contact) → (forget wire rpc s contact).world ≡ s.world
  unfolding forget
  forget-world s contact =
      elim (Bool-cases (more_than_k [] (rpc.close_nodes.contacts_iter s.table))) [
        | inl plenty ↦ rw (plenty, forget) refl
        | inr few ↦ rw (few, forget) refl
      ]

  on_failure-world :
      (s : Local S rpc.World) (known : Option Contact) (e : ErrorKind)
      → (on_failure wire rpc s known e).world ≡ s.world
  unfolding on_failure
  on_failure-world s none e = refl
  on_failure-world s (some contact) e = elim (Bool-cases (peer_is_gone e)) [
    | inl gone ↦ rw (gone, on_failure) (forget-world s contact)
    | inr alive ↦ rw (alive, on_failure) refl
  ]

  answered-world :
      (s : Local S rpc.World) (known : Option Contact) (result : IoResult (List ℕ))
      → (answered wire rpc s known result).0.world ≡ s.world
  unfolding answered
  answered-world s known (done reply) = refl
  answered-world s known (failed e) = on_failure-world s known e

  -- The framed request goes out once.
  pub call-world :
      (transport : Transport rpc.World) (s : Local S rpc.World) (method : Method) (body : List ℕ)
      (peer : SocketAddr) (known : Option Contact)
      → (call wire rpc transport s method body peer known).0.world
        ≡ (transport s.world (rpc.my_contact.id ++ (tag method ++ body)) peer).0
  unfolding call send frame_request
  call-world transport s method body peer known = answered-world _ known _

  -- A FIND_NODE in a world: one request to the peer, unless the target has no encoding.
  abbrev pub asked : NodeId → rpc.World → Contact → rpc.World
  asked target w peer = elim (wire.serialize_id target) [
    | none ↦ w
    | some body ↦
        (rpc.transport w (rpc.my_contact.id ++ (tag Method.find_node ++ body)) peer.address).0
  ]

  pub find_node-world :
      (s : Local S rpc.World) (peer : Contact) (target : NodeId)
      → (find_node wire rpc s peer target).0.world ≡ asked target s.world peer
  unfolding find_node
  find_node-world s peer target = elim (Option-cases (wire.serialize_id target)) [
    | inl bad ↦ rw (bad, find_node, asked) refl
    | inr (body, good) ↦
        rw (good, find_node, asked)
          (call-world rpc.transport s Method.find_node body peer.address (some peer))
  ]

  -- Whether the transport gave the acknowledgement of a STORE.
  abbrev pub acknowledges : IoResult (List ℕ) → Bool
  acknowledges (done reply) = is_str reply stored
  acknowledges (failed e) = false

  answered-stored :
      (s : Local S rpc.World) (known : Option Contact) (result : IoResult (List ℕ))
      → is_stored wire rpc (answered wire rpc s known result).1 ≡ acknowledges result
  unfolding answered is_stored
  answered-stored s known (done reply) = refl
  answered-stored s known (failed e) = refl

  call-stored :
      (transport : Transport rpc.World) (s : Local S rpc.World) (method : Method) (body : List ℕ)
      (peer : SocketAddr) (known : Option Contact)
      → is_stored wire rpc (call wire rpc transport s method body peer known).1
        ≡ acknowledges (transport s.world (rpc.my_contact.id ++ (tag method ++ body)) peer).1
  unfolding call send frame_request
  call-stored transport s method body peer known = answered-stored _ known _

  -- A STORE of a value that has an encoding: one request to the peer, and whether it took the value.
  pub store_with_proof_lem :
      (s : Local S rpc.World) (peer : Contact) (key : Key) (v : Value) (proof : List Record)
      (body : List ℕ)
      → wire.serialize_request (record { key = key; value = v; proof = proof }) ≡ some body
      → ((store_with_proof wire rpc s peer key v proof).0.world
          ≡ (rpc.robust_transport s.world
              (rpc.my_contact.id ++ (tag Method.store ++ body))
              peer.address).0)
        × ((store_with_proof wire rpc s peer key v proof).1
            ≡ acknowledges
                (rpc.robust_transport s.world
                  (rpc.my_contact.id ++ (tag Method.store ++ body))
                  peer.address).1)
  unfolding store_with_proof
  store_with_proof_lem s peer key v proof body encoded =
      rw (encoded, store_with_proof)
        (
          call-world rpc.robust_transport s Method.store body peer.address (some peer),
          call-stored rpc.robust_transport s Method.store body peer.address (some peer),
        )

  -- Without an encoding nothing goes out.
  pub store_with_proof-none :
      (s : Local S rpc.World) (peer : Contact) (key : Key) (v : Value) (proof : List Record)
      → wire.serialize_request (record { key = key; value = v; proof = proof }) ≡ none
      → store_with_proof wire rpc s peer key v proof ≡ (s, false)
  unfolding store_with_proof
  store_with_proof-none s peer key v proof bad = rw (bad, store_with_proof) refl
