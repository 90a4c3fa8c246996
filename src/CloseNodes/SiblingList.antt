-- ===== src/CloseNodes/SiblingList.antt =====
-- src/close_nodes/sibling_list.rs: the contacts nearest to us, over another layer that answers for
-- the rest of the key space.
pub mod Insertion
pub mod Layer
pub mod History
pub mod Offers
use kademlia_packet_manager.Prelude.{
  ℕ, ite, Option, none, some, Bool, List, [], ◌∷◌, ◌++◌, ◌==◌, if◌then◌else◌, length, take,
  Ordering, ◌≡◌, holds,
}
use kademlia_packet_manager.Prelude.{Ordering-discrete}
use kademlia_packet_manager.Prelude.Sort.{sort_by, dedup_by_key}
use kademlia_packet_manager.Prelude.Vec.{partition_point}
use kademlia_packet_manager.Heapless.{HeaplessVec}
use kademlia_packet_manager.CloseNodes.{
  NodeId, Contact, CloseNodes, k, by_distance, xor_distance_cmp, id_discrete,
}
use kademlia_packet_manager.CloseNodes.Contacts.{refresh_address, find_contact}

pub record SiblingList (C : Type 0) : Type 0 where
  pub siblings : List Contact
  pub fallback : C
  pub my_id : NodeId

unfoldable pub new : {C : Type 0} → NodeId → C → SiblingList C
new my_id fallback = record { siblings = []; fallback = fallback; my_id = my_id }

-- The closure of `partition_point`.
unfoldable pub is_less : Ordering → Bool
is_less Ordering.lt = Bool.true
is_less Ordering.eq = Bool.false
is_less Ordering.gt = Bool.false

-- How many siblings are nearer to us than the contact.
unfoldable pub insert_position : NodeId → List Contact → Contact → ℕ
unfolding is_less partition_point
insert_position my_id siblings contact =
    partition_point (λ s. is_less (xor_distance_cmp s.id contact.id my_id)) siblings

-- The `SIBLINGS` of the type, and the vector that holds them.
module _ (max_siblings : ℕ) (hv : HeaplessVec Contact) where
  -- What `maybe_add_contact` does to the siblings.
  unfoldable pub add_sibling : NodeId → List Contact → Contact → List Contact
  unfolding refresh_address insert_position
  add_sibling my_id siblings contact = elim (refresh_address siblings contact) [
    | some refreshed ↦ refreshed
    | none ↦
        let pos = insert_position my_id siblings contact in
        if length siblings == max_siblings
        then (if pos == length siblings
            then siblings
            else hv.insert max_siblings (hv.pop_last siblings) pos contact)
        else hv.insert max_siblings siblings pos contact
  ]

  unfoldable pub remove_sibling : List Contact → Contact → List Contact
  unfolding find_contact
  remove_sibling siblings contact = elim (find_contact siblings contact) [
    | some i ↦ hv.remove siblings i
    | none ↦ siblings
  ]

  module _ {C : Type 0} (fallback : CloseNodes C) where
    unfoldable pub close_nodes : ℕ → SiblingList C → NodeId → SiblingList C × List Contact
    unfolding sort_by dedup_by_key id_discrete
    close_nodes now s id =
        let (rest, out) = fallback.close_nodes now s.fallback id in
        let merged = sort_by (by_distance id) (out ++ s.siblings) in
        (record s { fallback = rest }, take k (dedup_by_key (λ c. c.id) id_discrete merged))

    unfoldable pub maybe_add_contact : SiblingList C → Contact → SiblingList C
    unfolding add_sibling id_discrete
    maybe_add_contact s contact = ite (id_discrete contact.id s.my_id) s (record s {
      fallback = fallback.maybe_add_contact s.fallback contact;
      siblings = add_sibling s.my_id s.siblings contact;
    })

    unfoldable pub remove_contact : SiblingList C → Contact → SiblingList C
    unfolding remove_sibling
    remove_contact s contact = record s {
      siblings = remove_sibling s.siblings contact;
      fallback = fallback.remove_contact s.fallback contact;
    }

    -- `impl CloseNodes for SiblingList`
    unfoldable pub sibling_list : CloseNodes (SiblingList C)
    unfolding close_nodes maybe_add_contact remove_contact
    sibling_list = record {
      close_nodes = close_nodes;
      maybe_add_contact = maybe_add_contact;
      remove_contact = remove_contact;
      contacts_iter = λ s. s.siblings ++ fallback.contacts_iter s.fallback;
    }
