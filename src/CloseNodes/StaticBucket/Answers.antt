-- ===== src/CloseNodes/StaticBucket/Answers.antt =====
-- What `close_nodes` answers on a valid table.
use kademlia_packet_manager.Prelude.{
  ℕ, ◌+◌, ◌≤◌, ◌<◌, ◌≡◌, ◌≢◌, ◌⊎◌, ◌∙◌, refl, subst, List, [], length, take, All, All-imp, All-take,
  Has, arith, inl, inr, length-take, take_all, dec_lt, get_or-beyond,
}
use kademlia_packet_manager.Prelude.Sort.{
  sort_by, All-sort_by, Any-sort_by, length-sort_by, sort_by-IsSorted, IsAscending-take,
}
use kademlia_packet_manager.Heapless.{HeaplessVec}
use kademlia_packet_manager.CloseNodes.{NodeId, Contact, IsId, k, by_distance}
use kademlia_packet_manager.CloseNodes.Distance.{by_distance-IsOrder}
use kademlia_packet_manager.CloseNodes.Nearest.{distinct_sorted-IsNearestFirst, sort_by-IsDistinct}
use kademlia_packet_manager.CloseNodes.Contract.{IsAnswer, IsRouting}
use kademlia_packet_manager.CloseNodes.StaticBucket.{
  StaticBucket, all_contacts, extend_from_bucket, wants_more, widen, close_nodes, static_bucket,
  maybe_add_contact, remove_contact,
}
use kademlia_packet_manager.CloseNodes.StaticBucket.Buckets.{
  IsValid, home_of, home_of-lt, maybe_add_contact-IsValid, remove_contact-IsValid,
}
use kademlia_packet_manager.CloseNodes.StaticBucket.Removal.{Has-all_contacts}
use kademlia_packet_manager.CloseNodes.StaticBucket.Widening.{Widened, collect_home, widen-Widened}

module _ (bucket_size search_shift max_buckets : ℕ) (some_bucket : 0 < max_buckets)
    (s : StaticBucket) (v : IsValid bucket_size search_shift max_buckets s) (id : NodeId) where
  abbrev home : ℕ
  home = home_of bucket_size search_shift max_buckets s.my_id id

  collected : List Contact
  collected =
      widen bucket_size search_shift max_buckets max_buckets s (extend_from_bucket s [] home) home
        home

  collected-Widened : Widened bucket_size search_shift max_buckets s v collected
  unfolding collected
  collected-Widened =
      let h : home < max_buckets =
        home_of-lt bucket_size search_shift max_buckets s.my_id id some_bucket in
      widen-Widened bucket_size search_shift max_buckets s v max_buckets _ home home
        (collect_home bucket_size search_shift max_buckets s v home h) (omega arith)

  close_nodes-collected :
      close_nodes bucket_size search_shift max_buckets s id
      ≡ take k (sort_by (by_distance id) collected)
  unfolding close_nodes collected home_of
  close_nodes-collected = refl

  -- On a valid table the answer is in order and bounded, of contacts that the table holds; and it
  -- has `k` contacts unless it has every contact of the table.
  pub record Answer (out : List Contact) : Type 0 where
    pub answer : IsAnswer s.my_id id out
    pub held : All (λ c. Has c (all_contacts s.contacts)) out
    pub full_or_all :
        (length out ≡ k) ⊎ ((c : Contact) → Has c (all_contacts s.contacts) → Has c out)

  abbrev sorted : List Contact
  sorted = sort_by (by_distance id) collected

  all_between : All (λ c. IsId c.id × (c.id ≢ s.my_id) × Has c (all_contacts s.contacts)) sorted
  all_between = All-sort_by (by_distance id) _ collected (
      All-imp (λ c b. (b.well_formed, b.not_self, b.held)) collected
        collected-Widened.collected.between)

  whole_table :
      length collected < k → (c : Contact) → Has c (all_contacts s.contacts) → Has c collected
  unfolding wants_more
  whole_table p c m =
      let (i, found) = Has-all_contacts c s.contacts m in
      let w = collected-Widened in
      let all : (w.low ≡ 0) × (max_buckets ≤ w.high + 1) = ground (arith, w.ended) in
      elim (dec_lt i max_buckets) [
        | yes h ↦ w.collected.complete i c (omega (arith, all)) (omega (arith, all)) found
        | no n ↦ absurd (rw (get_or-beyond s.contacts i [] (omega (arith, v.count))) at found)
      ]

  full_or_all :
      (length (take k sorted) ≡ k)
      ⊎ ((c : Contact) → Has c (all_contacts s.contacts) → Has c (take k sorted))
  full_or_all = elim (dec_lt (length collected) k) [
    | no n ↦ inl (omega (arith, length-take k sorted, length-sort_by (by_distance id) collected))
    | yes p ↦ inr (λ c m.
        rw (take_all sorted k (omega (arith, length-sort_by (by_distance id) collected)))
          (Any-sort_by (by_distance id) _ collected (whole_table p c m)))
  ]

  -- On a valid table of at least one bucket, the answer for a target of 32 bytes is in order and
  -- bounded, of contacts that the table holds, and has `k` contacts unless it has every contact of the
  -- table.
  pub close_nodes_lem : IsId id → Answer (close_nodes bucket_size search_shift max_buckets s id)
  close_nodes_lem w = rw close_nodes-collected (record {
    answer = record {
      nearest_first = IsAscending-take (by_distance id) k sorted (
          distinct_sorted-IsNearestFirst id sorted w (All-imp (λ c h. h.0) sorted all_between)
            (sort_by-IsDistinct id collected collected-Widened.collected.distinct)
            (sort_by-IsSorted (by_distance id) (by_distance-IsOrder id) collected));
      bounded = omega (arith, length-take k sorted);
      well_formed = All-take _ k sorted (All-imp (λ c h. h.0) sorted all_between);
      not_self = All-take _ k sorted (All-imp (λ c h. h.1) sorted all_between);
    };
    held = All-take _ k sorted (All-imp (λ c h. h.2) sorted all_between);
    full_or_all = full_or_all;
  })

module _ (bucket_size search_shift max_buckets : ℕ) (some_bucket : 0 < max_buckets)
    (hv : HeaplessVec Contact) (my_id : NodeId) where
  abbrev pub Inv : StaticBucket → Type 0
  Inv s = IsValid bucket_size search_shift max_buckets s × (s.my_id ≡ my_id)

  my_id-maybe_add_contact :
      (s : StaticBucket) (c : Contact)
      → (maybe_add_contact bucket_size search_shift max_buckets hv s c).my_id ≡ s.my_id
  unfolding maybe_add_contact
  my_id-maybe_add_contact s c = ground arith

  -- A table of at least one bucket is a routing table: every method keeps the invariant, and every
  -- answer is as promised.
  pub static_bucket-IsRouting :
      IsRouting (static_bucket bucket_size search_shift max_buckets hv) my_id Inv
  unfolding static_bucket
  static_bucket-IsRouting = record {
    close_nodes-Inv = λ now s id w v. v;
    close_nodes-IsAnswer = λ now s id w v.
        subst (λ m. IsAnswer m id (close_nodes bucket_size search_shift max_buckets s id)) v.1
          (close_nodes_lem bucket_size search_shift max_buckets some_bucket s v.0 id w).answer;
    maybe_add_contact-Inv = λ s c w v. (
      maybe_add_contact-IsValid bucket_size search_shift max_buckets hv s c w v.0,
      my_id-maybe_add_contact s c ∙ v.1,
    );
    remove_contact-Inv = λ s c v. (
      remove_contact-IsValid bucket_size search_shift max_buckets hv s c v.0,
      unfold remove_contact in v.1,
    );
  }
