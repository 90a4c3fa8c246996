-- ===== src/CloseNodes/DumbBucket.antt =====
-- src/close_nodes/dumb_bucket.rs: a routing table that keeps every contact offered, in one vector.
use mathlib.Core.List.{Perm}
use kademlia_packet_manager.Prelude.{
  ℕ, zero, suc, ◌≡◌, ◌≢◌, refl, none, some, List, [], ◌∷◌, ◌++◌, length, take, drop, holds, All, ap,
  Ordering, sym, subst, arith, min, length-take,
}
use kademlia_packet_manager.Prelude.Sort.{
  sort_by, IsSorted, sort_by-IsSorted, IsSorted-take, sort_by-Perm, IsSorted-apart, length-sort_by,
}
use kademlia_packet_manager.Prelude.Vec.{position, swap_remove}
use kademlia_packet_manager.CloseNodes.{
  NodeId, Contact, CloseNodes, k, by_distance, contact_discrete,
}
use kademlia_packet_manager.CloseNodes.Distance.{by_distance-IsOrder}

pub record DumbBucket : Type 0 where
  pub contacts : List Contact

unfoldable pub close_nodes : DumbBucket → NodeId → List Contact
unfolding sort_by
close_nodes s id = take k (sort_by (by_distance id) s.contacts)

unfoldable pub maybe_add_contact : DumbBucket → Contact → DumbBucket
maybe_add_contact s contact = record { contacts = s.contacts ++ contact ∷ [] }

unfoldable pub remove_contact : DumbBucket → Contact → DumbBucket
unfolding position swap_remove contact_discrete
remove_contact s contact = elim (position (λ c. holds (contact_discrete c contact)) s.contacts) [
  | some i ↦ record { contacts = swap_remove s.contacts i }
  | none ↦ s
]

-- `impl CloseNodes for DumbBucket`
unfoldable pub dumb_bucket : CloseNodes DumbBucket
unfolding close_nodes maybe_add_contact remove_contact
dumb_bucket = record {
  close_nodes = λ now s id. (s, close_nodes s id);
  maybe_add_contact = maybe_add_contact;
  remove_contact = remove_contact;
  contacts_iter = λ s. s.contacts;
}

take-append-drop : (n : ℕ) (xs : List Contact) → take n xs ++ drop n xs ≡ xs
take-append-drop zero xs = refl
take-append-drop (suc n) [] = refl
take-append-drop (suc n) (x ∷ xs) = ap (λ l. x ∷ l) (take-append-drop n xs)

-- The `k` nearest of some contacts, or all of them: with the `rest` they are the contacts, each as
-- often as it is there, and none of the rest is nearer.
pub record AreNearest (id : NodeId) (contacts answer : List Contact) : Type 0 where
  pub rest : List Contact
  pub whole : Perm (answer ++ rest) contacts
  pub sorted : IsSorted (by_distance id) answer
  pub none_nearer : All (λ x. All (λ y. by_distance id x y ≢ Ordering.gt) rest) answer
  pub size : length answer ≡ min k (length contacts)

-- The answer lists the `k` nearest of all the contacts, or all where there are fewer, nearest first:
-- contacts of the table, each at most as often as it was offered, and none that is left out is nearer.
pub close_nodes-nearest :
    (s : DumbBucket) (id : NodeId) → AreNearest id s.contacts (close_nodes s id)
unfolding close_nodes
close_nodes-nearest s id =
    let cmp = by_distance id in
    let all = sort_by cmp s.contacts in
    let sorted = sort_by-IsSorted cmp (by_distance-IsOrder id) s.contacts in
    record {
      rest = drop k all;
      whole =
          subst (λ l. Perm l s.contacts) (sym (take-append-drop k all))
            (sort_by-Perm cmp s.contacts);
      sorted = IsSorted-take cmp k all sorted;
      none_nearer = IsSorted-apart cmp k all sorted;
      size = omega (arith, length-take k all, length-sort_by cmp s.contacts);
    }
