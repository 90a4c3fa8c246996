-- ===== src/CloseNodes/SiblingList/Insertion.antt =====
-- A contact goes into the siblings at its place in the order of distance to us.
use kademlia_packet_manager.Prelude.{
  ℕ, zero, suc, ◌≤◌, ◌<◌, ◌≡◌, ◌≢◌, refl, sym, subst, true, false, List, [], ◌∷◌, length, All,
  All-imp, arith, inl, inr, Ordering, Bool-cases,
}
use kademlia_packet_manager.Prelude.Sort.{IsOrder}
use kademlia_packet_manager.Prelude.Vec.{
  partition_point, insert_at, length-insert_at, length-pop-le, length-pop_lem, remove_at, pop,
  All-insert_at, All-pop, All-remove_at,
}
use kademlia_packet_manager.Heapless.{HeaplessVec}
use kademlia_packet_manager.CloseNodes.{NodeId, Contact, IsId, by_distance, xor_distance_cmp}
use kademlia_packet_manager.CloseNodes.Distance.{by_distance-IsOrder, xor_distance_cmp-eq}
use kademlia_packet_manager.CloseNodes.Nearest.{IsNearestFirst}
use kademlia_packet_manager.CloseNodes.Contacts.{ids, All-ids}
use kademlia_packet_manager.CloseNodes.SiblingList.{is_less, insert_position}

module _ (my_id : NodeId) (mine : IsId my_id) where
  abbrev order : IsOrder (by_distance my_id)
  order = by_distance-IsOrder my_id

  pub nearer_trans :
      (a b c : Contact)
      → by_distance my_id a b ≡ Ordering.lt
      → by_distance my_id b c ≡ Ordering.lt
      → by_distance my_id a c ≡ Ordering.lt
  nearer_trans a b c p q = ground (
    arith,
    order.le_trans a b c,
    order.le_trans b c a,
    order.gt_of_lt a b p,
    order.lt_of_gt c a,
    order.gt_of_lt b c q,
  )

  nearer_or_farther :
      (a b : Contact)
      → IsId a.id
      → IsId b.id
      → a.id ≢ b.id
      → is_less (by_distance my_id a b) ≡ false
      → by_distance my_id b a ≡ Ordering.lt
  unfolding is_less
  nearer_or_farther a b p q n f =
      ground (arith, order.lt_of_gt a b, xor_distance_cmp-eq a.id b.id my_id p q mine)

  less_lt : (r : Ordering) → is_less r ≡ true → r ≡ Ordering.lt
  unfolding is_less
  less_lt r e = ground arith

  pub insert-IsNearestFirst :
      (xs : List Contact) (c : Contact)
      → All (λ x. IsId x.id) xs
      → IsId c.id
      → All (λ x. x.id ≢ c.id) xs
      → IsNearestFirst my_id xs
      → IsNearestFirst my_id (insert_at xs (insert_position my_id xs c) c)
  unfolding insert_position insert_at
  insert-IsNearestFirst [] c p q n h = (tt, tt)
  insert-IsNearestFirst (x ∷ xs) c p q n h = elim (Bool-cases (is_less (by_distance my_id x c))) [
    | inl t ↦
        rw (t, partition_point)
          (
            All-insert_at (λ y. by_distance my_id x y ≡ Ordering.lt) xs _ c (less_lt _ t) h.0,
            insert-IsNearestFirst xs c p.1 q n.1 h.1,
          )
    | inr f ↦
        let first = nearer_or_farther x c p.0 q n.0 f in
        rw (f, partition_point) ((first, All-imp (λ y. nearer_trans c x y first) xs h.0), h)
  ]

  pub insert_position-le :
      (xs : List Contact) (c : Contact) → insert_position my_id xs c ≤ length xs
  unfolding insert_position
  insert_position-le [] c = omega arith
  insert_position-le (x ∷ xs) c = ground (arith, insert_position-le xs c)

  -- A place before the end is not moved by dropping the last contact.
  insert_position-pop :
      (xs : List Contact) (c : Contact)
      → insert_position my_id xs c < length xs
      → insert_position my_id (pop xs) c ≡ insert_position my_id xs c
  unfolding insert_position pop
  insert_position-pop [] c h = refl
  insert_position-pop (x ∷ []) c h = ground arith
  insert_position-pop (x ∷ y ∷ ys) c h = ground (arith, insert_position-pop (y ∷ ys) c)

  -- The place is the end only if every sibling is nearer.
  pub all_nearer_of_end :
      (xs : List Contact) (c : Contact)
      → insert_position my_id xs c ≡ length xs
      → All (λ x. by_distance my_id x c ≡ Ordering.lt) xs
  unfolding insert_position
  all_nearer_of_end [] c e = tt
  all_nearer_of_end (x ∷ xs) c e = elim (Bool-cases (is_less (by_distance my_id x c))) [
    | inl t ↦ (less_lt _ t, all_nearer_of_end xs c (ground arith))
    | inr f ↦ absurd (ground arith)
  ]

  pop-IsNearestFirst : (xs : List Contact) → IsNearestFirst my_id xs → IsNearestFirst my_id (pop xs)
  unfolding pop
  pop-IsNearestFirst [] h = tt
  pop-IsNearestFirst (x ∷ []) h = tt
  pop-IsNearestFirst (x ∷ y ∷ ys) h = (All-pop _ (y ∷ ys) h.0, pop-IsNearestFirst (y ∷ ys) h.1)

  pub remove_at-IsNearestFirst :
      (xs : List Contact) (i : ℕ) → IsNearestFirst my_id xs → IsNearestFirst my_id (remove_at xs i)
  unfolding remove_at
  remove_at-IsNearestFirst [] i h = tt
  remove_at-IsNearestFirst (x ∷ xs) zero h = h.1
  remove_at-IsNearestFirst (x ∷ xs) (suc i) h =
      (All-remove_at _ xs i h.0, remove_at-IsNearestFirst xs i h.1)

  pub refreshed-IsNearestFirst :
      (xs ys : List Contact) → ids ys ≡ ids xs → IsNearestFirst my_id xs → IsNearestFirst my_id ys
  refreshed-IsNearestFirst [] [] e h = tt
  refreshed-IsNearestFirst [] (y ∷ ys) e h = cc
  refreshed-IsNearestFirst (x ∷ xs) [] e h = tt
  refreshed-IsNearestFirst (x ∷ xs) (y ∷ ys) e h =
      let same : y.id ≡ x.id = cc in
      let rest : ids ys ≡ ids xs = cc in
      (
        subst (λ i. All (λ z. xor_distance_cmp i z.id my_id ≡ Ordering.lt) ys) (sym same)
            (All-ids (λ i. xor_distance_cmp x.id i my_id ≡ Ordering.lt) xs ys rest h.0),
        refreshed-IsNearestFirst xs ys rest h.1,
      )

  -- The list of siblings is well formed.
  pub record IsSiblings (max_siblings : ℕ) (xs : List Contact) : Type 0 where
    pub nearest_first : IsNearestFirst my_id xs
    pub bounded : length xs ≤ max_siblings
    pub well_formed : All (λ c. IsId c.id) xs
    pub not_self : All (λ c. c.id ≢ my_id) xs

  module _ (max_siblings : ℕ) (hv : HeaplessVec Contact) (xs : List Contact) (c : Contact)
      (v : IsSiblings max_siblings xs) (w : IsId c.id) (n : c.id ≢ my_id)
      (new : All (λ x. x.id ≢ c.id) xs) where
    abbrev pub pos : ℕ
    pos = insert_position my_id xs c

    inserted-IsSiblings :
        (ys : List Contact)
        → IsSiblings max_siblings ys
        → length ys < max_siblings
        → All (λ x. x.id ≢ c.id) ys
        → IsSiblings max_siblings (insert_at ys (insert_position my_id ys c) c)
    inserted-IsSiblings ys u room fresh = record {
      nearest_first = insert-IsNearestFirst ys c u.well_formed w fresh u.nearest_first;
      bounded =
          omega
            (arith, length-insert_at ys (insert_position my_id ys c) c (insert_position-le ys c));
      well_formed = All-insert_at _ ys _ c w u.well_formed;
      not_self = All-insert_at _ ys _ c n u.not_self;
    }

    popped-IsSiblings : IsSiblings max_siblings (pop xs)
    popped-IsSiblings = record {
      nearest_first = pop-IsNearestFirst xs v.nearest_first;
      bounded = omega (arith, length-pop-le xs);
      well_formed = All-pop _ xs v.well_formed;
      not_self = All-pop _ xs v.not_self;
    }

    -- There is room.
    pub insert_room-IsSiblings :
        length xs ≢ max_siblings
        → (hv.insert max_siblings xs pos c ≡ insert_at xs pos c)
          × IsSiblings max_siblings (insert_at xs pos c)
    insert_room-IsSiblings h = (
      hv.insert_room max_siblings xs pos c (omega (arith, v.bounded)) (insert_position-le xs c),
      inserted-IsSiblings xs v (omega (arith, v.bounded)) new,
    )

    -- The farthest sibling makes room.
    pub insert_full-IsSiblings :
        length xs ≡ max_siblings
        → pos ≢ length xs
        → (hv.insert max_siblings (hv.pop_last xs) pos c ≡ insert_at (pop xs) pos c)
          × IsSiblings max_siblings (insert_at (pop xs) pos c)
          × (length (insert_at (pop xs) pos c) ≡ max_siblings)
    insert_full-IsSiblings full inner =
        let le = insert_position-le xs c in
        let short : suc (length (pop xs)) ≡ length xs = length-pop_lem xs (omega arith) in
        let place = insert_position-pop xs c (omega arith) in
        (
          rw hv.pop_lem (hv.insert_room max_siblings (pop xs) pos c (omega arith) (omega arith)),
          subst (λ p. IsSiblings max_siblings (insert_at (pop xs) p c)) place
              (inserted-IsSiblings (pop xs) popped-IsSiblings (omega arith) (All-pop _ xs new)),
          omega (arith, length-insert_at (pop xs) pos c (omega arith)),
        )
