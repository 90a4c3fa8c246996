-- ===== src/CloseNodes/SiblingList/Layer.antt =====
-- The sibling list keeps its invariant, and is a routing table if the layer below is one.
use kademlia_packet_manager.Prelude.{
  ℕ, ◌≡◌, ◌≢◌, ◌∙◌, refl, sym, subst, ap, if_pos, if_neg, none, some, List, ◌++◌, length, take, All,
  All-append, All-take, arith, inl, inr, Option-cases, ℕ_discrete, length-take,
}
use kademlia_packet_manager.Prelude.Sort.{
  sort_by, dedup_by_key, All-sort_by, All-dedup_by_key, IsAscending-take,
}
use kademlia_packet_manager.Prelude.Vec.{insert_at, pop, All-remove_at, length-remove_at-le}
use kademlia_packet_manager.Heapless.{HeaplessVec}
use kademlia_packet_manager.CloseNodes.{
  NodeId, Contact, CloseNodes, IsId, k, by_distance, id_discrete,
}
use kademlia_packet_manager.CloseNodes.Contacts.{
  refresh_address, refresh_address-none, find_contact, find_contact-lt, ids-refresh_address,
  All-refresh_address, length-refresh_address,
}
use kademlia_packet_manager.CloseNodes.Nearest.{merged-IsNearestFirst}
use kademlia_packet_manager.CloseNodes.Contract.{IsAnswer, IsRouting}
use kademlia_packet_manager.CloseNodes.SiblingList.{
  SiblingList, new, insert_position, add_sibling, remove_sibling, close_nodes, maybe_add_contact,
  remove_contact, sibling_list,
}
use kademlia_packet_manager.CloseNodes.SiblingList.Insertion.{
  IsSiblings, insert_room-IsSiblings, insert_full-IsSiblings, refreshed-IsNearestFirst,
  remove_at-IsNearestFirst,
}

module _ (my_id : NodeId) (mine : IsId my_id) (max_siblings : ℕ) (hv : HeaplessVec Contact) where
  abbrev pub Siblings : List Contact → Type 0
  Siblings = IsSiblings my_id mine max_siblings

  -- The four ways in which a contact is taken up.
  pub data Added (xs : List Contact) (c : Contact) (out : List Contact) : Type 0 where
    refreshed : refresh_address xs c ≡ some out → Added xs c out
    placed :
        refresh_address xs c ≡ none
        → length xs ≢ max_siblings
        → out ≡ insert_at xs (insert_position my_id xs c) c
        → Added xs c out
    refused :
        length xs ≡ max_siblings
        → insert_position my_id xs c ≡ length xs
        → out ≡ xs
        → Added xs c out
    replaced :
        refresh_address xs c ≡ none
        → length xs ≡ max_siblings
        → length out ≡ max_siblings
        → insert_position my_id xs c ≢ length xs
        → out ≡ insert_at (pop xs) (insert_position my_id xs c) c
        → Added xs c out

  module _ (xs : List Contact) (c : Contact) (v : Siblings xs) (w : IsId c.id)
      (n : c.id ≢ my_id) where
    abbrev out : List Contact
    out = add_sibling max_siblings hv my_id xs c

    refreshed-IsSiblings : {ys : List Contact} → refresh_address xs c ≡ some ys → Siblings ys
    refreshed-IsSiblings {ys} found = record {
      nearest_first =
          refreshed-IsNearestFirst my_id mine xs ys (ids-refresh_address xs c found)
            v.nearest_first;
      bounded = rw (length-refresh_address xs c found) v.bounded;
      well_formed = All-refresh_address xs c found IsId v.well_formed;
      not_self = All-refresh_address xs c found (λ i. i ≢ my_id) v.not_self;
    }

    -- A new contact, by whether there is room and where its place is.
    add_new :
        refresh_address xs c ≡ none
        → Dec (length xs ≡ max_siblings)
        → Dec (insert_position my_id xs c ≡ length xs)
        → Siblings out × Added xs c out
    unfolding add_sibling
    add_new absent (no room) place =
        let new = refresh_address-none xs c absent in
        let (e, s) = insert_room-IsSiblings my_id mine max_siblings hv xs c v w n new room in
        let made : out ≡ insert_at xs (insert_position my_id xs c) c = ground (arith, e) in
        (subst Siblings (sym made) s, placed absent room made)
    add_new absent (yes full) (yes end) =
        let made : out ≡ xs = ground arith in (subst Siblings (sym made) v, refused full end made)
    add_new absent (yes full) (no inner) =
        let new = refresh_address-none xs c absent in
        let (e, s, l) =
          insert_full-IsSiblings my_id mine max_siblings hv xs c v w n new full inner in
        let made : out ≡ insert_at (pop xs) (insert_position my_id xs c) c = ground (arith, e) in
        (subst Siblings (sym made) s, replaced absent full (ap length made ∙ l) inner made)

    -- Taking up a contact keeps the list well formed, in one of the four ways.
    pub add_sibling_lem : Siblings out × Added xs c out
    unfolding add_sibling
    add_sibling_lem = elim (Option-cases (refresh_address xs c)) [
      | inl absent ↦
          add_new absent (ℕ_discrete (length xs) max_siblings)
            (ℕ_discrete (insert_position my_id xs c) (length xs))
      | inr (ys, found) ↦
          let made : out ≡ ys = rw (found, add_sibling) in
          (
            subst Siblings (sym made) (refreshed-IsSiblings found),
            refreshed (found ∙ ap some (sym made)),
          )
    ]

  remove_sibling-IsSiblings :
      (xs : List Contact) (c : Contact)
      → Siblings xs
      → Siblings (remove_sibling max_siblings hv xs c)
  unfolding remove_sibling
  remove_sibling-IsSiblings xs c v = elim (Option-cases (find_contact xs c)) [
    | inl absent ↦ rw (absent, remove_sibling) v
    | inr (i, found) ↦
        rw (found, remove_sibling, hv.remove_lem xs i (find_contact-lt xs c i found))
          (record {
            nearest_first = remove_at-IsNearestFirst my_id mine xs i v.nearest_first;
            bounded = omega (arith, length-remove_at-le xs i, v.bounded);
            well_formed = All-remove_at _ xs i v.well_formed;
            not_self = All-remove_at _ xs i v.not_self;
          })
  ]

  module _ {C : Type 0} (fallback : CloseNodes C) (Inv : C → Type 0)
      (routing : IsRouting fallback my_id Inv) where
    -- A well formed list of siblings over a layer that keeps its invariant.
    pub record IsValid (s : SiblingList C) : Type 0 where
      pub siblings : Siblings s.siblings
      pub fallback_Inv : Inv s.fallback
      pub same_id : s.my_id ≡ my_id

    merged_lem :
        (xs : List Contact) (id : NodeId)
        → IsId id
        → All (λ c. IsId c.id) xs
        → All (λ c. c.id ≢ my_id) xs
        → IsAnswer my_id id
            (take k (dedup_by_key (λ c. c.id) id_discrete (sort_by (by_distance id) xs)))
    merged_lem xs id w p n = record {
      nearest_first = IsAscending-take (by_distance id) k _ (merged-IsNearestFirst id xs w p);
      bounded = omega (
        arith,
        length-take k
            (dedup_by_key (λ (c : Contact). c.id) id_discrete (sort_by (by_distance id) xs)),
      );
      well_formed =
          All-take _ k _ (All-dedup_by_key _ id_discrete _ _ (All-sort_by (by_distance id) _ xs p));
      not_self =
          All-take _ k _ (All-dedup_by_key _ id_discrete _ _ (All-sort_by (by_distance id) _ xs n));
    }

    close_nodes-IsAnswer :
        (now : ℕ) (s : SiblingList C) (id : NodeId)
        → IsId id
        → IsValid s
        → IsAnswer my_id id (close_nodes max_siblings hv fallback now s id).1
    unfolding close_nodes
    close_nodes-IsAnswer now s id w v =
        let a = routing.close_nodes-IsAnswer now s.fallback id w v.fallback_Inv in
        merged_lem ((fallback.close_nodes now s.fallback id).1 ++ s.siblings) id w
          (All-append _ _ s.siblings a.well_formed v.siblings.well_formed)
          (All-append _ _ s.siblings a.not_self v.siblings.not_self)

    maybe_add_contact-IsValid :
        (s : SiblingList C) (c : Contact)
        → IsId c.id
        → IsValid s
        → IsValid (maybe_add_contact max_siblings hv fallback s c)
    unfolding maybe_add_contact
    maybe_add_contact-IsValid s c w v = elim (id_discrete c.id s.my_id) [
      | yes p ↦ rw (if_pos _ p) v
      | no n ↦ rw (if_neg _ n) (record {
        siblings =
            rw v.same_id (add_sibling_lem s.siblings c v.siblings w (λ e. n (e ∙ sym v.same_id))).0;
        fallback_Inv = routing.maybe_add_contact-Inv s.fallback c w v.fallback_Inv;
        same_id = v.same_id;
      })
    ]

    -- The sibling list over a routing table is a routing table: every method keeps the invariant, and
    -- every answer, merged from both layers, is as promised.
    pub sibling_list-IsRouting : IsRouting (sibling_list max_siblings hv fallback) my_id IsValid
    unfolding sibling_list close_nodes remove_contact
    sibling_list-IsRouting = record {
      close_nodes-Inv = λ now s id w v. record {
        siblings = v.siblings;
        fallback_Inv = routing.close_nodes-Inv now s.fallback id w v.fallback_Inv;
        same_id = v.same_id;
      };
      close_nodes-IsAnswer = close_nodes-IsAnswer;
      maybe_add_contact-Inv = maybe_add_contact-IsValid;
      remove_contact-Inv = λ s c v. record {
        siblings = remove_sibling-IsSiblings s.siblings c v.siblings;
        fallback_Inv = routing.remove_contact-Inv s.fallback c v.fallback_Inv;
        same_id = v.same_id;
      };
    }

    -- The list that `new` makes.
    pub new-IsValid : (below : C) → Inv below → IsValid (new my_id below)
    unfolding new
    new-IsValid below v = record {
      siblings = record {
        nearest_first = tt;
        bounded = omega arith;
        well_formed = tt;
        not_self = tt;
      };
      fallback_Inv = v;
      same_id = refl;
    }
