-- ===== src/CloseNodes/StaticBucket/Widening.antt =====
-- The loop of `close_nodes` that collects buckets around the home bucket: it ends by its own test,
-- and has then collected `k` contacts or the whole table.
use kademlia_packet_manager.Prelude.{
  ℕ, zero, suc, ◌+◌, ◌-◌, ◌≤◌, ◌<◌, ◌≡◌, ◌≢◌, ◌⊎◌, subst, ap, true, false, List, [], ◌∷◌, get_or,
  All, All-imp, All-append, All_of_Has, Has, Any-append_left, Any-append_right, Bool-cases, arith,
  inl, inr, ltb, ℕ_discrete, le_refl, All-Has,
}
use native.Mathlib.Nat.{le_antisymm}
use kademlia_packet_manager.CloseNodes.{Contact, IsId}
use kademlia_packet_manager.CloseNodes.Contacts.{IsDistinct}
use kademlia_packet_manager.CloseNodes.Nearest.{append-IsDistinct}
use kademlia_packet_manager.CloseNodes.StaticBucket.{
  StaticBucket, all_contacts, extend_from_bucket, wants_more, widen_high, widen_low, widen,
}
use kademlia_packet_manager.CloseNodes.StaticBucket.Buckets.{IsValid, Fits, home_of}
use kademlia_packet_manager.CloseNodes.StaticBucket.Removal.{all_contacts-Has}

module _ (bucket_size search_shift max_buckets : ℕ) (s : StaticBucket)
    (v : IsValid bucket_size search_shift max_buckets s) where
  abbrev home : Contact → ℕ
  home c = home_of bucket_size search_shift max_buckets s.my_id c.id

  -- A contact of one of the buckets from `low` to `high`.
  pub record Between (low high : ℕ) (c : Contact) : Type 0 where
    pub above : low ≤ home c
    pub below : home c ≤ high
    pub well_formed : IsId c.id
    pub not_self : c.id ≢ s.my_id
    pub held : Has c (all_contacts s.contacts)

  -- `out` holds the contacts of the buckets from `low` to `high`, each once.
  pub record Collected (out : List Contact) (low high : ℕ) : Type 0 where
    pub ordered : low ≤ high
    pub in_range : high < max_buckets
    pub between : All (Between low high) out
    pub distinct : IsDistinct out
    pub complete :
        (i : ℕ) (c : Contact) → low ≤ i → i ≤ high → Has c (get_or s.contacts i []) → Has c out

  bucket-Between : (i : ℕ) → All (Between i i) (get_or s.contacts i [])
  bucket-Between i = All_of_Has (Between i i) (get_or s.contacts i []) (λ c m.
      let f =
        All-Has (λ x. Fits bucket_size search_shift max_buckets s.my_id i x.id) c
          (get_or s.contacts i []) (v.buckets i).fits m in
      record {
        above = omega arith;
        below = omega arith;
        well_formed = f.well_formed;
        not_self = f.not_self;
        held = all_contacts-Has c s.contacts i m;
      })

  wider :
      (low high low' high' : ℕ)
      → low' ≤ low
      → high ≤ high'
      → (c : Contact) → Between low high c
      → Between low' high' c
  wider low high low' high' p q c b = record {
    above = omega arith;
    below = omega arith;
    well_formed = b.well_formed;
    not_self = b.not_self;
    held = b.held;
  }

  beside_apart :
      (low high i : ℕ) (x : Contact)
      → Between low high x
      → (i < low) ⊎ (high < i)
      → (ys : List Contact) → All (Between i i) ys
      → All (λ y. x.id ≢ y.id) ys
  beside_apart low high i x b o [] h = tt
  beside_apart low high i x b o (y ∷ ys) h =
      (λ e. absurd (omega (arith, homes e, h.0)), beside_apart low high i x b o ys h.1)
    where
      homes : x.id ≡ y.id → home x ≡ home y
      homes = ap (home_of bucket_size search_shift max_buckets s.my_id)

  -- One more bucket on either side.
  module _ (out : List Contact) (low high low' high' i : ℕ) (c : Collected out low high)
      (li : low' ≤ i) (ih : i ≤ high') (ll : low' ≤ low) (hh : high ≤ high')
      (beside : (i < low) ⊎ (high < i))
      (others : (j : ℕ) → low' ≤ j → j ≤ high' → j ≢ i → (low ≤ j) × (j ≤ high)) where
    collect_complete :
        (j : ℕ) (d : Contact)
        → low' ≤ j
        → j ≤ high'
        → Has d (get_or s.contacts j [])
        → Has d (extend_from_bucket s out i)
    unfolding extend_from_bucket
    collect_complete j d lj jh m = elim (ℕ_discrete j i) [
      | yes e ↦
          Any-append_right _ out (get_or s.contacts i [])
            (subst (λ n. Has d (get_or s.contacts n [])) e m)
      | no n ↦
          let (p, q) = others j lj jh n in
          Any-append_left _ out (get_or s.contacts i []) (c.complete j d p q m)
    ]

    collect : high' < max_buckets → Collected (extend_from_bucket s out i) low' high'
    unfolding extend_from_bucket
    collect r = record {
      ordered = omega arith;
      in_range = r;
      between =
          All-append _ out (get_or s.contacts i [])
            (All-imp (wider low high low' high' ll hh) out c.between)
            (All-imp (wider i i low' high' li ih) _ (bucket-Between i));
      distinct =
          append-IsDistinct out (get_or s.contacts i []) c.distinct (v.buckets i).distinct (
            All-imp (λ x b. beside_apart low high i x b beside _ (bucket-Between i)) out c.between);
      complete = collect_complete;
    }

  -- The home bucket alone.
  pub collect_home : (i : ℕ) → i < max_buckets → Collected (extend_from_bucket s [] i) i i
  unfolding extend_from_bucket
  collect_home i h = record {
    ordered = le_refl i;
    in_range = h;
    between = bucket-Between i;
    distinct = (v.buckets i).distinct;
    complete = λ j c p q m. subst (λ n. Has c (get_or s.contacts n [])) (le_antisymm q p) m;
  }

  abbrev above : List Contact → ℕ → List Contact × ℕ
  above = widen_high bucket_size search_shift max_buckets s

  abbrev below : List Contact → ℕ → List Contact × ℕ
  below = widen_low bucket_size search_shift max_buckets s

  collect_high :
      (out : List Contact) (low high : ℕ)
      → Collected out low high
      → Collected (above out high).0 low (above out high).1
  unfolding widen_high
  collect_high out low high c = elim (Bool-cases (ltb (high + 1) max_buckets)) [
    | inl t ↦ rw t (
        collect out low high low (high + 1) (high + 1) c (omega (arith, c.ordered)) (le_refl _)
          (le_refl _) (omega arith) (inr (omega arith)) (λ j p q n. (p, omega arith))
          (ground arith))
    | inr f ↦ rw f c
  ]

  collect_low :
      (out : List Contact) (low high : ℕ)
      → Collected out low high
      → Collected (below out low).0 (below out low).1 high
  unfolding widen_low
  collect_low out low high c = elim (Bool-cases (ltb 0 low)) [
    | inl t ↦
        let pos : 0 < low = ground arith in
        rw t (
          collect out low high (low - 1) high (low - 1) c (le_refl _) (omega (arith, c.ordered))
            (omega arith) (le_refl _) (inl (omega arith)) (λ j p q n. (omega arith, q)) c.in_range)
    | inr f ↦ rw f c
  ]

  -- How many buckets are left.
  abbrev pub left : ℕ → ℕ → ℕ
  left low high = low + (max_buckets - 1 - high)

  left_falls :
      (out : List Contact) (low high : ℕ)
      → wants_more bucket_size search_shift max_buckets out low high ≡ true
      → high < max_buckets
      → left (below (above out high).0 low).1 (above out high).1 < left low high
  unfolding widen_high widen_low wants_more
  left_falls out low high t r = ground arith

  -- The loop ends by its own test, with the buckets of some range collected.
  pub record Widened (out : List Contact) : Type 0 where
    pub low : ℕ
    pub high : ℕ
    pub collected : Collected out low high
    pub ended : wants_more bucket_size search_shift max_buckets out low high ≡ false

  pub widen-Widened :
      (fuel : ℕ) (out : List Contact) (low high : ℕ)
      → Collected out low high
      → left low high < fuel
      → Widened (widen bucket_size search_shift max_buckets fuel s out low high)
  unfolding widen
  widen-Widened zero out low high c h = absurd (omega arith)
  widen-Widened (suc fuel) out low high c h =
      elim (Bool-cases (wants_more bucket_size search_shift max_buckets out low high)) [
        | inr f ↦ rw (f, widen) (record { low = low; high = high; collected = c; ended = f })
        | inl t ↦
            rw (t, widen)
              (widen-Widened fuel _ _ _ (collect_low _ low _ (collect_high out low high c))
                (omega (arith, left_falls out low high t c.in_range)))
      ]
