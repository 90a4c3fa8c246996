-- ===== src/Tests/Servers.antt =====
-- Ids, datagrams and requests on concrete bytes.
use kademlia_packet_manager.Prelude.{
  ◌+◌, ◌^◌, ◌≡◌, refl, ℕ, [], ◌∷◌, ◌++◌, Option, some, true, All, arith, ℕ_discrete, Bool,
  list_discrete, sym, ap, subst, ◌∙◌,
}
use kademlia_packet_manager.DashMap.{DashMap, assoc_map}
use kademlia_packet_manager.CloseNodes.{
  Key, IsId, CloseNodes, id_discrete, contact_discrete, leading_zeros, xor_distance,
}
use kademlia_packet_manager.CloseNodes.StaticBucket
use kademlia_packet_manager.Package.{Str}
use kademlia_packet_manager.CloseNodes.StaticBucket.{StaticBucket, static_bucket}
use kademlia_packet_manager.Frames.{Method, tag}
use kademlia_packet_manager.Store.{Value}
use kademlia_packet_manager.Pending.{Pending, PendingSlot, deliver}
use kademlia_packet_manager.RpcTransport.{IsTagged, ids-IsTagged, to_be_bytes}
use kademlia_packet_manager.RpcTransport.RetryTransport.{Requests, try_send, receive, receive-apart}
use kademlia_packet_manager.Rpc.{Rpc, contacts_of, frame_request}
use kademlia_packet_manager.HandleRpc.{Request, Context, frame_reply, dispatch}
use kademlia_packet_manager.HandleRpc.Answers.{dispatch-find_node}
use kademlia_packet_manager.HandleRpc.Learning.{Kept, dispatch-Kept}
use kademlia_packet_manager.Tests.Fixtures.{
  id_of, id_of-IsId, contact_of, heapless, empty_table, empty_table-IsValid,
}
use kademlia_packet_manager.Tests.Chains.{libraries}
use kademlia_packet_manager.Tests.Network.{
  wire, alone, TableInv, rpc-IsSound, known, empty_table-my_id,
}

ids-IsTagged_example : IsTagged 9223372036854775815
ids-IsTagged_example = ids-IsTagged 9223372036854775815 (omega arith)

abbrev slots : DashMap ℕ PendingSlot
slots = assoc_map ℕ_discrete

abbrev waiting : Pending slots
waiting = record {
  slots = (7, record { expected_peer = (contact_of 4).address; tx = 0 }) ∷ [];
  channels = 1;
  sent = [];
}

abbrev listening : Requests
listening = record { capacity = 2; queue = [] }

abbrev receives : ℕ → Bool
receives n = true

receive-apart_example :
    (receive slots receives
        (record { pending = waiting; requests = some listening })
        (contact_of 4).address
        (frame_reply 7 (5 ∷ []))
      ≡ record {
        pending = (deliver slots receives waiting 7 (contact_of 4).address (5 ∷ [])).0;
        requests = some listening;
      })
    × (receive slots receives
          (record { pending = waiting; requests = some listening })
          (contact_of 4).address
          (to_be_bytes 7 ++ 5 ∷ [])
        ≡ record {
          pending = waiting;
          requests = some (
              try_send listening (record {
                id = 7;
                from = (contact_of 4).address;
                from_is_reachable = true;
                payload = 5 ∷ [];
              }));
        })
receive-apart_example =
    receive-apart slots receives waiting listening (contact_of 4).address 7 (5 ∷ []) (omega arith)

abbrev values : DashMap Key Value
values = assoc_map id_discrete

abbrev table : CloseNodes StaticBucket
table = static_bucket 10 0 256 heapless

abbrev dns : Str → Option ℕ
dns domain = some 5

-- A server that knows nobody, and the request of a client whose id is 4.
abbrev server : Context wire libraries table values (id_of 0) dns
server = record { close_nodes = empty_table; values = [] }

abbrev client : Rpc (Unit {0})
client = record {
  my_contact = contact_of 4;
  close_nodes = alone.close_nodes;
  World = ℕ;
  transport = alone.transport;
  robust_transport = alone.robust_transport;
  now = alone.now;
  meanwhile = alone.meanwhile;
  first_to_end = alone.first_to_end;
}

abbrev question : Request
question = record {
  id = 7;
  from = (contact_of 4).address;
  from_is_reachable = true;
  payload = id_of 4 ++ (tag Method.find_node ++ id_of 5);
}

abbrev learned : StaticBucket
learned = table.maybe_add_contact empty_table (contact_of 4)

framing : question.payload ≡ frame_request wire client Method.find_node (id_of 5)
unfolding frame_request
framing = refl

nearest : (table.close_nodes 0 learned (id_of 5)).1 ≡ known
unfolding static_bucket StaticBucket.new StaticBucket.maybe_add_contact StaticBucket.close_nodes
    leading_zeros xor_distance id_discrete list_discrete ℕ_discrete
nearest = refl

encoded : wire.serialize_contacts known ≡ some (1 ∷ [])
unfolding list_discrete contact_discrete
encoded = refl

-- The reply is the eight bytes of 2^63 + 7, and then the body.
dispatch-find_node_example :
    (dispatch wire libraries table values (id_of 0) dns 0 server question ≡ (
      record { close_nodes = (table.close_nodes 0 learned (id_of 5)).0; values = [] },
      some (to_be_bytes (2 ^ 63 + 7) ++ 1 ∷ []),
    ))
    × (contacts_of wire client (some (1 ∷ [])) ≡ (table.close_nodes 0 learned (id_of 5)).1)
dispatch-find_node_example =
    dispatch-find_node wire libraries table values (id_of 0) dns client 0 server question (id_of 5)
      (id_of 5) (1 ∷ []) (id_of-IsId 4 (omega arith)) (id_of-IsId 5 (omega arith)) (omega arith)
      refl framing (subst (All (λ c. IsId c.id)) (sym nearest) (id_of-IsId 4 (omega arith), tt))
      (ap wire.serialize_contacts nearest ∙ encoded)

dispatch-Kept_example :
    Kept wire libraries table values
      (id_of 0)
      dns
      TableInv
      rpc-IsSound.routing
      (dispatch wire libraries table values (id_of 0) dns 0 server question).0
dispatch-Kept_example =
    dispatch-Kept wire libraries table values (id_of 0) dns TableInv rpc-IsSound.routing 0 server
      question (omega arith) (empty_table-IsValid, empty_table-my_id)
