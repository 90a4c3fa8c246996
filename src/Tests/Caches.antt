-- ===== src/Tests/Caches.antt =====
-- The cache and the recommended table on concrete calls.
use kademlia_packet_manager.Prelude.{ℕ, ◌≤◌, ◌≡◌, refl, max, List, [], ◌∷◌, All, arith}
use kademlia_packet_manager.CloseNodes.{NodeId, Contact, CloseNodes}
use kademlia_packet_manager.CloseNodes.Contract.{Call, IsCall, IsAnswer, IsRouting, run}
use kademlia_packet_manager.CloseNodes.Contract.Call.{close_nodes, maybe_add_contact}
use kademlia_packet_manager.CloseNodes.StaticBucket
use kademlia_packet_manager.CloseNodes.StaticBucket.{StaticBucket, static_bucket}
use kademlia_packet_manager.CloseNodes.StaticBucket.Answers.{Inv, static_bucket-IsRouting}
use kademlia_packet_manager.CloseNodes.Cache
use kademlia_packet_manager.CloseNodes.Cache.{cached, new, ttl_only}
use kademlia_packet_manager.CloseNodes.Cache.Transparency.{new-transparent, ttl_only-removal}
use kademlia_packet_manager.CloseNodes.Cache.Routing
use kademlia_packet_manager.CloseNodes.Cache.Routing.{cached-IsRouting}
use kademlia_packet_manager.CloseNodes.Recommended.{layers, recommended, recommended-IsAnswer}
use kademlia_packet_manager.Tests.Fixtures.{
  id_of, id_of-IsId, contact_of, heapless, entries_map, empty_table,
}

abbrev calls : List Call
calls =
    maybe_add_contact (contact_of 4)
    ∷ close_nodes 0 (id_of 5)
    ∷ maybe_add_contact (contact_of 7)
    ∷ close_nodes 1 (id_of 5)
    ∷ []

calls-IsCall : All IsCall calls
calls-IsCall = (
  id_of-IsId 4 (omega arith),
  (id_of-IsId 5 (omega arith), (id_of-IsId 7 (omega arith), (id_of-IsId 5 (omega arith), tt))),
)

abbrev table : CloseNodes StaticBucket
table = static_bucket 10 0 256 heapless

abbrev answer : StaticBucket → NodeId → List Contact
answer = StaticBucket.close_nodes 10 0 256

table-reads :
    (now : ℕ) (s : StaticBucket) (id : NodeId) → table.close_nodes now s id ≡ (s, answer s id)
unfolding static_bucket
table-reads now s id = refl

new-transparent_example :
    (run (cached entries_map table) calls (new entries_map empty_table 500 64)).1
    ≡ (run table calls empty_table).1
new-transparent_example =
    new-transparent entries_map table answer table-reads calls empty_table 500 64 (omega arith)

ttl_only-removal_example :
    (Cache.close_nodes entries_map table 2
      (Cache.remove_contact entries_map table
        (run (cached entries_map table) calls (ttl_only entries_map empty_table 500 64)).0
        (contact_of 4))
      (id_of 5)).1
    ≡ answer
        (table.remove_contact
          (run (cached entries_map table) calls (ttl_only entries_map empty_table 500 64)).0.inner
          (contact_of 4))
        (id_of 5)
ttl_only-removal_example =
    ttl_only-removal entries_map table answer table-reads calls empty_table 500 64 (contact_of 4) 2
      (id_of 5) (omega arith)

cached-IsRouting_example : IsRouting (cached entries_map table) (id_of 0) (
    Routing.IsValid entries_map table
      (id_of 0)
      (Inv 10 0 256 (omega arith) heapless (id_of 0))
      (static_bucket-IsRouting 10 0 256 (omega arith) heapless (id_of 0)))
cached-IsRouting_example =
    cached-IsRouting entries_map table (id_of 0) (Inv 10 0 256 (omega arith) heapless (id_of 0))
      (static_bucket-IsRouting 10 0 256 (omega arith) heapless (id_of 0))

fresh-len :
    entries_map.len (ttl_only entries_map empty_table 500 64).entries
    ≤ max (ttl_only entries_map empty_table 500 64).capacity 1
unfolding ttl_only new
fresh-len = omega arith

recommended-IsAnswer_example :
    All
      (λ r. IsAnswer (id_of 0) r.0 r.1)
      (run
        (cached entries_map (layers entries_map heapless))
        calls
        (recommended entries_map heapless (id_of 0))).1
recommended-IsAnswer_example =
    recommended-IsAnswer entries_map heapless (id_of 0) calls (id_of-IsId 0 (omega arith))
      calls-IsCall
