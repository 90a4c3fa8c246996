-- ===== src/Tests/Tables.antt =====
-- The layers of the routing table on concrete contacts.
use kademlia_packet_manager.Prelude.{◌≡◌, ◌≢◌, ◌↔◌, refl, List, [], ◌∷◌, All, Has, arith}
use kademlia_packet_manager.CloseNodes.Contract.{Call, IsAnswer, IsRouting, run, run-IsAnswer}
use kademlia_packet_manager.CloseNodes.Contract.Call.{
  close_nodes, maybe_add_contact, remove_contact,
}
use kademlia_packet_manager.CloseNodes.StaticBucket
use kademlia_packet_manager.CloseNodes.StaticBucket.{static_bucket, all_contacts}
use kademlia_packet_manager.CloseNodes.StaticBucket.Buckets.{IsValid, maybe_add_contact-IsValid}
use kademlia_packet_manager.CloseNodes.StaticBucket.Removal.{remove_contact_exact}
use kademlia_packet_manager.CloseNodes.StaticBucket.Answers.{
  Answer, Inv, close_nodes_lem, static_bucket-IsRouting,
}
use kademlia_packet_manager.CloseNodes.SiblingList.{sibling_list, new}
use kademlia_packet_manager.CloseNodes.SiblingList.Layer
use kademlia_packet_manager.CloseNodes.SiblingList.Layer.{sibling_list-IsRouting}
use kademlia_packet_manager.CloseNodes.SiblingList.Offers.{Offered, offer_all, offer_all-Offered}
use kademlia_packet_manager.CloseNodes.DumbBucket
use kademlia_packet_manager.CloseNodes.DumbBucket.{AreNearest, close_nodes-nearest}
use kademlia_packet_manager.Tests.Fixtures.{
  id_of, id_of-IsId, contact_of, three, heapless, empty_table, one_table, empty_table-IsValid,
  one_table-IsValid,
}

maybe_add_contact-IsValid_example :
    IsValid 10 0 256 (StaticBucket.maybe_add_contact 10 0 256 heapless one_table (contact_of 7))
maybe_add_contact-IsValid_example =
    maybe_add_contact-IsValid 10 0 256 heapless one_table (contact_of 7)
      (id_of-IsId 7 (omega arith)) one_table-IsValid

remove_contact_exact_example :
    Has (contact_of 4) (
      all_contacts
        (StaticBucket.remove_contact 10 0 256 heapless one_table (contact_of 4)).contacts)
    ↔ (Has (contact_of 4) (all_contacts one_table.contacts) × (contact_of 4 ≢ contact_of 4))
remove_contact_exact_example =
    remove_contact_exact 10 0 256 heapless one_table (contact_of 4) one_table-IsValid (contact_of 4)

close_nodes_lem_example :
    Answer 10 0 256
      (omega arith)
      one_table
      one_table-IsValid
      (id_of 5)
      (StaticBucket.close_nodes 10 0 256 one_table (id_of 5))
close_nodes_lem_example =
    close_nodes_lem 10 0 256 (omega arith) one_table one_table-IsValid (id_of 5)
      (id_of-IsId 5 (omega arith))

static_bucket-IsRouting_example :
    IsRouting
      (static_bucket 10 0 256 heapless)
      (id_of 0)
      (Inv 10 0 256 (omega arith) heapless (id_of 0))
static_bucket-IsRouting_example = static_bucket-IsRouting 10 0 256 (omega arith) heapless (id_of 0)

abbrev calls : List Call
calls =
    maybe_add_contact (contact_of 4)
    ∷ close_nodes 0 (id_of 5)
    ∷ remove_contact (contact_of 4)
    ∷ close_nodes 1 (id_of 5)
    ∷ []

empty_table-my_id : empty_table.my_id ≡ id_of 0
unfolding StaticBucket.new
empty_table-my_id = refl

run-IsAnswer_example :
    Inv 10 0 256
      (omega arith)
      heapless
      (id_of 0)
      (run (static_bucket 10 0 256 heapless) calls empty_table).0
    × All
        (λ r. IsAnswer (id_of 0) r.0 r.1)
        (run (static_bucket 10 0 256 heapless) calls empty_table).1
run-IsAnswer_example =
    run-IsAnswer (static_bucket 10 0 256 heapless) (id_of 0)
      (Inv 10 0 256 (omega arith) heapless (id_of 0))
      (static_bucket-IsRouting 10 0 256 (omega arith) heapless (id_of 0)) calls empty_table
      (
        id_of-IsId 4 (omega arith),
        (id_of-IsId 5 (omega arith), (tt, (id_of-IsId 5 (omega arith), tt))),
      )
      (empty_table-IsValid, empty_table-my_id)

sibling_list-IsRouting_example :
    IsRouting (sibling_list 2 heapless (static_bucket 10 0 256 heapless)) (id_of 0) (
      Layer.IsValid
        (id_of 0)
        (id_of-IsId 0 (omega arith))
        2
        heapless
        (static_bucket 10 0 256 heapless)
        (Inv 10 0 256 (omega arith) heapless (id_of 0))
        (static_bucket-IsRouting 10 0 256 (omega arith) heapless (id_of 0)))
sibling_list-IsRouting_example =
    sibling_list-IsRouting (id_of 0) (id_of-IsId 0 (omega arith)) 2 heapless
      (static_bucket 10 0 256 heapless) (Inv 10 0 256 (omega arith) heapless (id_of 0))
      (static_bucket-IsRouting 10 0 256 (omega arith) heapless (id_of 0))

offer_all-Offered_example :
    Offered
      (id_of 0)
      (id_of-IsId 0 (omega arith))
      2
      heapless
      (static_bucket 10 0 256 heapless)
      three
      (offer_all
        (id_of 0)
        (id_of-IsId 0 (omega arith))
        2
        heapless
        (static_bucket 10 0 256 heapless)
        three
        (new (id_of 0) empty_table))
offer_all-Offered_example =
    offer_all-Offered (id_of 0) (id_of-IsId 0 (omega arith)) 2 heapless
      (static_bucket 10 0 256 heapless) three empty_table
      (id_of-IsId 4 (omega arith), (id_of-IsId 2 (omega arith), (id_of-IsId 7 (omega arith), tt)))

close_nodes-nearest_example :
    AreNearest (id_of 5) three (DumbBucket.close_nodes (record { contacts = three }) (id_of 5))
close_nodes-nearest_example = close_nodes-nearest (record { contacts = three }) (id_of 5)
