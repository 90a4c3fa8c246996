-- ===== src/Tests/Fixtures.antt =====
-- Ids, contacts and tables for the runs.
use kademlia_packet_manager.Prelude.{ℕ, ◌<◌, List, [], ◌∷◌, ◌++◌, replicate, arith, refl}
use kademlia_packet_manager.Heapless.{HeaplessVec, list_heapless}
use kademlia_packet_manager.DashMap.{DashMap, assoc_map}
use kademlia_packet_manager.CloseNodes.{NodeId, Contact, IsId, id_discrete}
use kademlia_packet_manager.CloseNodes.Cache.{Entry}
use kademlia_packet_manager.CloseNodes.StaticBucket.{StaticBucket, new, maybe_add_contact}
use kademlia_packet_manager.CloseNodes.StaticBucket.Buckets.{
  IsValid, new-IsValid, maybe_add_contact-IsValid,
}

-- The id whose last byte is the number, and whose other bytes are 0.
abbrev pub id_of : ℕ → NodeId
id_of n = replicate 31 0 ++ n ∷ []

pub id_of-IsId : (n : ℕ) → n < 256 → IsId (id_of n)
id_of-IsId n h = record { bytes = omega arith; size = refl }

abbrev pub contact_of : ℕ → Contact
contact_of n = record { id = id_of n; address = record { ip = 2130706433; port = 8000 } }

abbrev pub three : List Contact
three = contact_of 4 ∷ contact_of 2 ∷ contact_of 7 ∷ []

abbrev pub heapless : HeaplessVec Contact
heapless = list_heapless

abbrev pub entries_map : DashMap NodeId Entry
entries_map = assoc_map id_discrete

-- A table of 256 buckets with one contact.
abbrev pub empty_table : StaticBucket
empty_table = new 10 0 256 (id_of 0)

abbrev pub one_table : StaticBucket
one_table = maybe_add_contact 10 0 256 heapless empty_table (contact_of 4)

pub empty_table-IsValid : IsValid 10 0 256 empty_table
empty_table-IsValid = new-IsValid 10 0 256 (id_of 0) (id_of-IsId 0 (omega arith))

pub one_table-IsValid : IsValid 10 0 256 one_table
one_table-IsValid =
    maybe_add_contact-IsValid 10 0 256 heapless empty_table (contact_of 4)
      (id_of-IsId 4 (omega arith)) empty_table-IsValid
