-- ===== src/CloseNodes/SiblingList/History.antt =====
-- How taking up one contact changes what is known of the contacts seen before.
use kademlia_packet_manager.Prelude.{
  ℕ, ◌<◌, ◌≡◌, ◌≢◌, ◌⊎◌, ◌∙◌, refl, sym, subst, ap, some, List, [], ◌∷◌, length, All, All-imp, Any,
  Any-Has, arith, inl, inr, Ordering,
}
use kademlia_packet_manager.Prelude.Vec.{
  insert_at, pop, last, All-pop, length-pop_lem, All-last, All-insert_at, Any-insert_at,
  Any-insert_at_self, pop-insert_at, last-insert_at, Any-pop_or_last,
}
use kademlia_packet_manager.Heapless.{HeaplessVec}
use kademlia_packet_manager.CloseNodes.{NodeId, Contact, IsId, by_distance, xor_distance_cmp}
use kademlia_packet_manager.CloseNodes.Contacts.{
  ids, All-ids, All-refresh_address, refresh_address, refresh_address-none, ids-refresh_address,
  Has-refresh_address, length-refresh_address,
}
use kademlia_packet_manager.CloseNodes.Nearest.{IsNearestFirst}
use kademlia_packet_manager.CloseNodes.SiblingList.{insert_position}
use kademlia_packet_manager.CloseNodes.SiblingList.Insertion.{
  insert-IsNearestFirst, insert_position-le, all_nearer_of_end, nearer_trans,
}
use kademlia_packet_manager.CloseNodes.SiblingList.Layer.{
  Added, refreshed, placed, refused, replaced, Siblings,
}

Any-ids :
    (P : NodeId → Type 0) (xs ys : List Contact)
    → ids ys ≡ ids xs
    → Any (λ x. P x.id) xs
    → Any (λ x. P x.id) ys
Any-ids P [] ys e m = absurd m
Any-ids P (x ∷ xs) [] e m = cc
Any-ids P (x ∷ xs) (y ∷ ys) e m =
    let same : y.id ≡ x.id = cc in
    let rest : ids ys ≡ ids xs = cc in
    elim m [ inl p ↦ inl (subst P (sym same) p) | inr r ↦ inr (Any-ids P xs ys rest r) ]

module _ (my_id : NodeId) (mine : IsId my_id) (max_siblings : ℕ) (hv : HeaplessVec Contact) where
  pop_nearer :
      (a : Contact) (xs : List Contact)
      → IsNearestFirst my_id xs
      → All (λ x. by_distance my_id x (last a xs) ≡ Ordering.lt) (pop xs)
  unfolding last pop
  pop_nearer a [] h = tt
  pop_nearer a (x ∷ []) h = tt
  pop_nearer a (x ∷ y ∷ ys) h = (
    All-last (λ z. by_distance my_id x z ≡ Ordering.lt) y ys h.0.0 h.0.1,
    pop_nearer x (y ∷ ys) h.1,
  )

  -- A contact that was offered is us, or is a sibling, or is farther than every sibling of a full
  -- list.
  abbrev pub Accounted : List Contact → Contact → Type 0
  Accounted xs o =
      (o.id ≡ my_id)
      ⊎ Any (λ x. x.id ≡ o.id) xs
      ⊎ ((length xs ≡ max_siblings) × All (λ x. by_distance my_id x o ≡ Ordering.lt) xs)

  module _ (xs : List Contact) (c : Contact) (v : Siblings my_id mine max_siblings hv xs)
      (w : IsId c.id) (new : All (λ x. x.id ≢ c.id) xs)
      (inner : insert_position my_id xs c ≢ length xs) where
    abbrev at : ℕ
    at = insert_position my_id xs c

    at-lt : at < length xs
    at-lt = omega (arith, insert_position-le my_id mine xs c)

    -- After a replacement every sibling is nearer than the one that left, the last one.
    replaced_nearer :
        All (λ x. by_distance my_id x (last c xs) ≡ Ordering.lt) (insert_at (pop xs) at c)
    replaced_nearer =
        rw (← pop-insert_at xs at c at-lt, ← last-insert_at c xs at c at-lt)
          (pop_nearer c (insert_at xs at c)
            (insert-IsNearestFirst my_id mine xs c v.well_formed w new v.nearest_first))

    replaced-Any :
        (P : Contact → Type 0) → Any P xs → Any P (insert_at (pop xs) at c) ⊎ P (last c xs)
    replaced-Any P m =
        rw (← pop-insert_at xs at c at-lt, ← last-insert_at c xs at c at-lt)
          (Any-pop_or_last P c (insert_at xs at c)
            (Any-insert_at P xs at c (insert_position-le my_id mine xs c) m))

  module _ (xs : List Contact) (c : Contact) (v : Siblings my_id mine max_siblings hv xs)
      (w : IsId c.id) where
    keep_refreshed :
        (out : List Contact)
        → refresh_address xs c ≡ some out
        → (o : Contact) → Accounted xs o
        → Accounted out o
    keep_refreshed out found o a = elim a [
      | inl self ↦ inl self
      | inr b ↦ elim b [
        | inl m ↦ inr (inl (Any-ids (λ i. i ≡ o.id) xs out (ids-refresh_address xs c found) m))
        | inr f ↦ inr (
            inr (
              length-refresh_address xs c found ∙ f.0,
              All-ids (λ i. xor_distance_cmp i o.id my_id ≡ Ordering.lt) xs out
                  (ids-refresh_address xs c found) f.1,
            ))
      ]
    ]

    keep_placed :
        length xs ≢ max_siblings
        → (o : Contact) → Accounted xs o
        → Accounted (insert_at xs (insert_position my_id xs c) c) o
    keep_placed room o a = elim a [
      | inl self ↦ inl self
      | inr b ↦ elim b [
        | inl m ↦ inr (inl (Any-insert_at _ xs _ c (insert_position-le my_id mine xs c) m))
        | inr f ↦ absurd (room f.0)
      ]
    ]

    module _ (out : List Contact) (new : All (λ x. x.id ≢ c.id) xs)
        (full : length out ≡ max_siblings) (inner : insert_position my_id xs c ≢ length xs)
        (made : out ≡ insert_at (pop xs) (insert_position my_id xs c) c) where
      nearer_than_last : All (λ x. by_distance my_id x (last c xs) ≡ Ordering.lt) out
      nearer_than_last = rw made (replaced_nearer xs c v w new inner)

      last_was :
          (o : Contact)
          → All (λ x. by_distance my_id x o ≡ Ordering.lt) xs
          → by_distance my_id (last c xs) o ≡ Ordering.lt
      last_was o h =
          nonempty xs h
            (λ e. inner (omega (arith, ap length e, insert_position-le my_id mine xs c)))
        where
          nonempty :
              (ys : List Contact)
              → All (λ x. by_distance my_id x o ≡ Ordering.lt) ys
              → ys ≢ []
              → by_distance my_id (last c ys) o ≡ Ordering.lt
          nonempty [] h n = absurd (n refl)
          nonempty (y ∷ ys) h n = unfold last in All-last _ y ys h.0 h.1

      keep_replaced : (o : Contact) → Accounted xs o → Accounted out o
      keep_replaced o a = elim a [
        | inl self ↦ inl self
        | inr b ↦ elim b [
          | inl m ↦ elim (replaced-Any xs c v w new inner (λ x. x.id ≡ o.id) m) [
            | inl stays ↦ inr (inl (rw made stays))
            | inr gone ↦ inr (
                inr (
                  full,
                  subst (λ i. All (λ x. xor_distance_cmp x.id i my_id ≡ Ordering.lt) out) gone
                      nearer_than_last,
                ))
          ]
          | inr f ↦ inr (
              inr (
                full,
                All-imp (λ x p. nearer_trans my_id mine x (last c xs) o p (last_was o f.1)) out
                    nearer_than_last,
              ))
        ]
      ]

    -- What was accounted for stays so.
    pub keep :
        (out : List Contact)
        → Added my_id mine max_siblings hv xs c out
        → (o : Contact) → Accounted xs o
        → Accounted out o
    keep out (refreshed found) o a = keep_refreshed out found o a
    keep out (placed absent room made) o a =
        subst (λ l. Accounted l o) (sym made) (keep_placed room o a)
    keep out (refused full end made) o a = subst (λ l. Accounted l o) (sym made) a
    keep out (replaced absent full full' inner made) o a =
        keep_replaced out (refresh_address-none xs c absent) full' inner made o a

    -- The new contact is accounted for.
    pub taken : (out : List Contact) → Added my_id mine max_siblings hv xs c out → Accounted out c
    taken out (refreshed found) = inr (inl (Any-Has _ c out (Has-refresh_address xs c found) refl))
    taken out (placed absent room made) =
        subst (λ l. Accounted l c) (sym made)
          (inr (inl (Any-insert_at_self _ xs _ c (insert_position-le my_id mine xs c) refl)))
    taken out (refused full end made) =
        subst (λ l. Accounted l c) (sym made)
          (inr (inr (full, all_nearer_of_end my_id mine xs c end)))
    taken out (replaced absent full full' inner made) =
        subst (λ l. Accounted l c) (sym made)
          (inr (
            inl (
              Any-insert_at_self _ (pop xs) _ c
                (omega (
                  arith,
                  insert_position-le my_id mine xs c,
                  length-pop_lem xs (omega (arith, insert_position-le my_id mine xs c)),
                ))
                refl)))

    -- Nothing comes from elsewhere.
    pub old :
        (out : List Contact)
        → Added my_id mine max_siblings hv xs c out
        → (P : NodeId → Type 0) → All (λ x. P x.id) xs
        → P c.id
        → All (λ x. P x.id) out
    old out (refreshed found) P h p = All-refresh_address xs c found P h
    old out (placed absent room made) P h p = rw made (All-insert_at _ xs _ c p h)
    old out (refused full end made) P h p = rw made h
    old out (replaced absent full full' inner made) P h p =
        rw made (All-insert_at _ (pop xs) _ c p (All-pop _ xs h))
