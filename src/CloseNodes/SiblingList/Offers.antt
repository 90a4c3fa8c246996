-- ===== src/CloseNodes/SiblingList/Offers.antt =====
-- The siblings after any contacts were offered: the nearest to us of all of them.
use kademlia_packet_manager.Prelude.{
  ℕ, ◌≡◌, ◌⊎◌, ◌∙◌, refl, sym, subst, List, [], ◌∷◌, All, Any, Has, inl, inr, arith,
}
use kademlia_packet_manager.Heapless.{HeaplessVec}
use kademlia_packet_manager.CloseNodes.{NodeId, Contact, CloseNodes, IsId, id_discrete}
use kademlia_packet_manager.CloseNodes.SiblingList.{
  SiblingList, add_sibling, maybe_add_contact, new,
}
use kademlia_packet_manager.CloseNodes.SiblingList.Layer.{Siblings, add_sibling_lem}
use kademlia_packet_manager.CloseNodes.SiblingList.History.{Accounted, keep, taken, old}

module _ (my_id : NodeId) (mine : IsId my_id) (max_siblings : ℕ) (hv : HeaplessVec Contact)
    {C : Type 0} (fallback : CloseNodes C) where
  -- The table after the contacts were offered in order.
  unfoldable pub offer_all : List Contact → SiblingList C → SiblingList C
  offer_all [] s = s
  offer_all (c ∷ cs) s = offer_all cs (maybe_add_contact max_siblings hv fallback s c)

  -- What one offer does: the invariant holds on, what was accounted for stays so, the contact
  -- becomes so, and every sibling has a property of the ones before and of the contact.
  record Step (xs out : List Contact) (c : Contact) : Type 1 where
    siblings : Siblings my_id mine max_siblings hv out
    kept :
        (o : Contact)
        → Accounted my_id mine max_siblings hv xs o
        → Accounted my_id mine max_siblings hv out o
    new_one : Accounted my_id mine max_siblings hv out c
    origin : (P : NodeId → Type 0) → All (λ x. P x.id) xs → P c.id → All (λ x. P x.id) out

  my_id-maybe_add_contact :
      (s : SiblingList C) (c : Contact)
      → (maybe_add_contact max_siblings hv fallback s c).my_id ≡ s.my_id
  unfolding maybe_add_contact
  my_id-maybe_add_contact s c = ground arith

  step :
      (s : SiblingList C) (c : Contact)
      → IsId c.id
      → Siblings my_id mine max_siblings hv s.siblings
      → s.my_id ≡ my_id
      → Step s.siblings (maybe_add_contact max_siblings hv fallback s c).siblings c
  unfolding maybe_add_contact
  step s c w v e = elim (id_discrete c.id s.my_id) [
    | yes p ↦
        let same : (maybe_add_contact max_siblings hv fallback s c).siblings ≡ s.siblings =
          ground arith in
        rw same
          (record { siblings = v; kept = λ o a. a; new_one = inl (p ∙ e); origin = λ P h q. h })
    | no n ↦
        let added_to : (maybe_add_contact max_siblings hv fallback s c).siblings
            ≡ add_sibling max_siblings hv s.my_id s.siblings c =
          ground arith in
        let (v', added) =
          add_sibling_lem my_id mine max_siblings hv s.siblings c v w (λ q. n (q ∙ sym e)) in
        rw (added_to, e)
          (record {
            siblings = v';
            kept = keep my_id mine max_siblings hv s.siblings c v w _ added;
            new_one = taken my_id mine max_siblings hv s.siblings c v w _ added;
            origin = old my_id mine max_siblings hv s.siblings c v w _ added;
          })
  ]

  -- What the siblings are after the contacts of a list were offered.
  pub record Offered (cs : List Contact) (s : SiblingList C) : Type 0 where
    pub siblings : Siblings my_id mine max_siblings hv s.siblings
    pub accounted : (o : Contact) → Has o cs → Accounted my_id mine max_siblings hv s.siblings o
    pub origin : All (λ x. Any (λ o. x.id ≡ o.id) cs) s.siblings

  module _ (all : List Contact) where
    offer_all_step :
        (cs : List Contact) (s : SiblingList C)
        → All (λ c. IsId c.id) cs
        → ((o : Contact) → Has o cs → Has o all)
        → Siblings my_id mine max_siblings hv s.siblings
        → s.my_id ≡ my_id
        → ((o : Contact) → Has o all → Has o cs ⊎ Accounted my_id mine max_siblings hv s.siblings o)
        → All (λ x. Any (λ o. x.id ≡ o.id) all) s.siblings
        → Offered all (offer_all cs s)
    unfolding offer_all
    offer_all_step [] s w sub v e seen from = record {
      siblings = v;
      accounted = λ o m. elim (seen o m) [ inl n ↦ absurd n | inr a ↦ a ];
      origin = from;
    }
    offer_all_step (c ∷ cs) s w sub v e seen from =
        let st = step s c w.0 v e in
        offer_all_step cs _ w.1 (λ o m. sub o (inr m)) st.siblings (my_id-maybe_add_contact s c ∙ e)
          (λ o m. elim (seen o m) [
            | inl h ↦ elim h [
              | inl q ↦ inr (
                  subst
                    (Accounted my_id mine max_siblings hv
                      (maybe_add_contact max_siblings hv fallback s c).siblings)
                    (sym q) st.new_one)
              | inr r ↦ inl r
            ]
            | inr a ↦ inr (st.kept o a)
          ])
          (st.origin (λ i. Any (λ o. i ≡ o.id) all) from (Any_id c all (sub c (inl refl))))
      where
        Any_id : (c : Contact) (xs : List Contact) → Has c xs → Any (λ o. c.id ≡ o.id) xs
        Any_id c [] m = m
        Any_id c (x ∷ xs) (inl p) = inl (cc p)
        Any_id c (x ∷ xs) (inr m) = inr (Any_id c xs m)

  -- A list of siblings that starts empty and is offered any contacts, with ids of 32 bytes, holds the
  -- nearest of them: it is ordered and bounded; each contact offered is us, is a sibling, or is
  -- farther than every sibling of a full list; and each sibling was offered.
  pub offer_all-Offered :
      (cs : List Contact) (below : C)
      → All (λ c. IsId c.id) cs
      → Offered cs (offer_all cs (new my_id below))
  unfolding new
  offer_all-Offered cs below w =
      offer_all_step cs cs (new my_id below) w (λ o m. m)
        (record { nearest_first = tt; bounded = omega arith; well_formed = tt; not_self = tt }) refl
        (λ o m. inl m) tt
