-- ===== src/CloseNodes/StaticBucket.antt =====
-- src/close_nodes/static_bucket.rs: a routing table of a fixed number of buckets, one for each
-- length of the prefix that an id shares with ours. A lock around a bucket leaves no trace: a
-- method reads or writes one bucket at a time.
pub mod Buckets
pub mod Removal
pub mod Widening
pub mod Answers
use kademlia_packet_manager.Prelude.{
  ℕ, zero, suc, ◌+◌, ◌-◌, ◌/◌, ◌^◌, ite, ltb, ◌&&◌, ◌||◌, Bool, true, false, Option, none, some,
  List, [], ◌∷◌, ◌++◌, if◌then◌else◌, min, length, get_or, set, take, replicate,
}
use kademlia_packet_manager.Prelude.Sort.{sort_by}
use kademlia_packet_manager.Heapless.{HeaplessVec}
use kademlia_packet_manager.CloseNodes.{
  NodeId, Contact, CloseNodes, k, xor_distance, leading_zeros, by_distance, id_discrete,
}
use kademlia_packet_manager.CloseNodes.Contacts.{refresh_address, find_contact}

pub record StaticBucket : Type 0 where
  pub contacts : List (List Contact)
  pub my_id : NodeId

-- `contacts.flatten()`, bucket by bucket.
unfoldable pub all_contacts : List (List Contact) → List Contact
all_contacts [] = []
all_contacts (b ∷ bs) = b ++ all_contacts bs

-- `enumerate` from index `i` on, and the closure of `filter_map`.
unfoldable pub non_empty_from : ℕ → List (List Contact) → List (ℕ × List Contact)
non_empty_from i [] = []
non_empty_from i ([] ∷ bs) = non_empty_from (suc i) bs
non_empty_from i ((c ∷ cs) ∷ bs) = (i, c ∷ cs) ∷ non_empty_from (suc i) bs

unfoldable pub non_empty_buckets : StaticBucket → List (ℕ × List Contact)
unfolding non_empty_from
non_empty_buckets s = non_empty_from 0 s.contacts

unfoldable pub extend_from_bucket : StaticBucket → List Contact → ℕ → List Contact
extend_from_bucket s out index = out ++ get_or s.contacts index []

-- The const generics.
module _ (bucket_size search_shift max_buckets : ℕ) where
  unfoldable pub new : NodeId → StaticBucket
  new my_id = record { contacts = replicate max_buckets []; my_id = my_id }

  unfoldable pub bucket_index : StaticBucket → NodeId → ℕ
  bucket_index s id =
      let shared = leading_zeros (xor_distance id s.my_id) in
      min (shared / 2 ^ search_shift) (max_buckets - 1)

  -- The condition of the `while` in `close_nodes`.
  unfoldable pub wants_more : List Contact → ℕ → ℕ → Bool
  wants_more out low high = ltb (length out) k && (ltb 0 low || ltb (high + 1) max_buckets)

  -- The first `if` of its body: the next bucket above.
  unfoldable pub widen_high : StaticBucket → List Contact → ℕ → List Contact × ℕ
  unfolding extend_from_bucket
  widen_high s out high =
      if ltb (high + 1) max_buckets
      then (extend_from_bucket s out (high + 1), high + 1)
      else (out, high)

  -- The second: the next bucket below.
  unfoldable pub widen_low : StaticBucket → List Contact → ℕ → List Contact × ℕ
  unfolding extend_from_bucket
  widen_low s out low =
      if ltb 0 low then (extend_from_bucket s out (low - 1), low - 1) else (out, low)

  -- The loop, on fuel.
  unfoldable pub widen : ℕ → StaticBucket → List Contact → ℕ → ℕ → List Contact
  unfolding wants_more widen_high widen_low
  widen zero s out low high = out
  widen (suc fuel) s out low high = elim (wants_more out low high) [
    | false ↦ out
    | true ↦
        let (above, high') = widen_high s out high in
        let (below, low') = widen_low s above low in widen fuel s below low' high'
  ]

  unfoldable pub close_nodes : StaticBucket → NodeId → List Contact
  unfolding bucket_index widen extend_from_bucket sort_by
  close_nodes s id =
      let home = bucket_index s id in
      let out = widen max_buckets s (extend_from_bucket s [] home) home home in
      take k (sort_by (by_distance id) out)

  module _ (hv : HeaplessVec Contact) where
    -- What `maybe_add_contact` does to the bucket of the contact.
    unfoldable pub add_to_bucket : List Contact → Contact → List Contact
    unfolding refresh_address
    add_to_bucket bucket contact = elim (refresh_address bucket contact) [
      | some refreshed ↦ refreshed
      | none ↦ hv.push bucket_size bucket contact
    ]

    unfoldable pub maybe_add_contact : StaticBucket → Contact → StaticBucket
    unfolding bucket_index add_to_bucket
    maybe_add_contact s contact = ite (id_discrete contact.id s.my_id) s (
        let i = bucket_index s contact.id in
        record s { contacts = set s.contacts i (add_to_bucket (get_or s.contacts i []) contact) })

    unfoldable pub remove_from_bucket : List Contact → Contact → List Contact
    unfolding find_contact
    remove_from_bucket bucket contact = elim (find_contact bucket contact) [
      | some i ↦ hv.swap_remove_at bucket i
      | none ↦ bucket
    ]

    unfoldable pub remove_contact : StaticBucket → Contact → StaticBucket
    unfolding bucket_index remove_from_bucket
    remove_contact s contact =
        let i = bucket_index s contact.id in
        record s {
          contacts = set s.contacts i (remove_from_bucket (get_or s.contacts i []) contact);
        }

    -- `impl CloseNodes for StaticBucket`
    unfoldable pub static_bucket : CloseNodes StaticBucket
    unfolding close_nodes maybe_add_contact remove_contact all_contacts
    static_bucket = record {
      close_nodes = λ now s id. (s, close_nodes s id);
      maybe_add_contact = maybe_add_contact;
      remove_contact = remove_contact;
      contacts_iter = λ s. all_contacts s.contacts;
    }
