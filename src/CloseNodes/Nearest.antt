-- ===== src/CloseNodes/Nearest.antt =====
-- Lists of contacts in the order of their distance to a target.
use kademlia_packet_manager.Prelude.{
  ◌≡◌, ◌≢◌, sym, subst, List, [], ◌∷◌, ◌++◌, All, All-append, Ordering, arith,
}
use kademlia_packet_manager.Prelude.Sort.{
  insert_by, sort_by, IsSorted, IsAscending, All-sort_by, sort_by-IsSorted, dedup_by_key,
  dedup_by_key-IsAscending, All-insert_by,
}
use kademlia_packet_manager.CloseNodes.{
  NodeId, Contact, IsId, by_distance, xor_distance_cmp, id_discrete,
}
use kademlia_packet_manager.CloseNodes.Distance.{
  by_distance-IsOrder, xor_distance_cmp-eq, xor_distance_cmp_refl,
}
use kademlia_packet_manager.CloseNodes.Contacts.{IsDistinct}

-- The nearest first, and no id twice.
abbrev pub IsNearestFirst : NodeId → List Contact → Type 0
IsNearestFirst target = IsAscending (by_distance target)

pub append-IsDistinct :
    (xs ys : List Contact)
    → IsDistinct xs
    → IsDistinct ys
    → All (λ x. All (λ y. x.id ≢ y.id) ys) xs
    → IsDistinct (xs ++ ys)
append-IsDistinct [] ys h g a = g
append-IsDistinct (x ∷ xs) ys h g a =
    (All-append _ xs ys h.0 a.0, append-IsDistinct xs ys h.1 g a.1)

module _ (target : NodeId) where
  insert_by-IsDistinct :
      (x : Contact) (xs : List Contact)
      → All (λ y. x.id ≢ y.id) xs
      → IsDistinct xs
      → IsDistinct (insert_by (by_distance target) x xs)
  unfolding insert_by
  insert_by-IsDistinct x [] n h = (tt, tt)
  insert_by-IsDistinct x (y ∷ ys) n h = ground (
    arith,
    insert_by-IsDistinct x ys,
    All-insert_by (by_distance target) (λ z. y.id ≢ z.id) x ys (λ e. n.0 (sym e)) h.0,
  )

  pub sort_by-IsDistinct :
      (xs : List Contact) → IsDistinct xs → IsDistinct (sort_by (by_distance target) xs)
  unfolding sort_by
  sort_by-IsDistinct [] h = tt
  sort_by-IsDistinct (x ∷ xs) h =
      insert_by-IsDistinct x _ (All-sort_by (by_distance target) _ xs h.0)
        (sort_by-IsDistinct xs h.1)

  nearer :
      (x y : Contact)
      → IsId target
      → IsId x.id
      → IsId y.id
      → x.id ≢ y.id
      → by_distance target x y ≢ Ordering.gt
      → by_distance target x y ≡ Ordering.lt
  nearer x y t p q n g = ground (arith, xor_distance_cmp-eq x.id y.id target p q t)

  all_nearer :
      (x : Contact) (ys : List Contact)
      → IsId target
      → IsId x.id
      → All (λ y. IsId y.id) ys
      → All (λ y. x.id ≢ y.id) ys
      → All (λ y. by_distance target x y ≢ Ordering.gt) ys
      → All (λ y. by_distance target x y ≡ Ordering.lt) ys
  all_nearer x [] t p q n g = tt
  all_nearer x (y ∷ ys) t p q n g = (nearer x y t p q.0 n.0 g.0, all_nearer x ys t p q.1 n.1 g.1)

  pub distinct_sorted-IsNearestFirst :
      (xs : List Contact)
      → IsId target
      → All (λ x. IsId x.id) xs
      → IsDistinct xs
      → IsSorted (by_distance target) xs
      → IsNearestFirst target xs
  distinct_sorted-IsNearestFirst [] t p h s = tt
  distinct_sorted-IsNearestFirst (x ∷ xs) t p h s =
      (all_nearer x xs t p.0 p.1 h.0 s.0, distinct_sorted-IsNearestFirst xs t p.1 h.1 s.1)

  -- Sorting by distance and dropping repeated ids leaves the nearest first.
  pub merged-IsNearestFirst :
      (xs : List Contact)
      → IsId target
      → All (λ x. IsId x.id) xs
      → IsNearestFirst target
          (dedup_by_key (λ c. c.id) id_discrete (sort_by (by_distance target) xs))
  merged-IsNearestFirst xs t p =
      dedup_by_key-IsAscending (λ c. c.id) id_discrete (by_distance target)
        (by_distance-IsOrder target) (λ c. IsId c.id)
        (λ a b pa pb e. xor_distance_cmp-eq a.id b.id target pa pb t e)
        (sort_by (by_distance target) xs) (All-sort_by (by_distance target) (λ c. IsId c.id) xs p)
        (sort_by-IsSorted (by_distance target) (by_distance-IsOrder target) xs)

  apart_of_nearer :
      (x : Contact) (ys : List Contact)
      → All (λ y. by_distance target x y ≡ Ordering.lt) ys
      → All (λ y. x.id ≢ y.id) ys
  apart_of_nearer x [] h = tt
  apart_of_nearer x (y ∷ ys) h = (λ e. absurd_cmp y e h.0, apart_of_nearer x ys h.1)
    where
      absurd_cmp : (y : Contact) → x.id ≡ y.id → by_distance target x y ≡ Ordering.lt → ⊥
      absurd_cmp y e l =
          let same = subst (λ i. xor_distance_cmp x.id i target ≡ Ordering.lt) (sym e) l in
          cc (same, xor_distance_cmp_refl x.id target)

  -- Such a list holds no id twice.
  pub IsNearestFirst-IsDistinct : (xs : List Contact) → IsNearestFirst target xs → IsDistinct xs
  IsNearestFirst-IsDistinct [] h = tt
  IsNearestFirst-IsDistinct (x ∷ xs) h =
      (apart_of_nearer x xs h.0, IsNearestFirst-IsDistinct xs h.1)
