-- ===== src/CloseNodes/StaticBucket/Buckets.antt =====
-- The invariant of the routing table, and that every method keeps it.
use kademlia_packet_manager.Prelude.{
  ℕ, ◌≤◌, ◌<◌, ◌≡◌, ◌≢◌, refl, subst, ◌∙◌, if_pos, if_neg, List, [], ◌∷◌, length, get_or, set, All,
  All-append, arith, Option-cases, inl, inr, ℕ_discrete, length-set, get_or-set_self, get_or-set_ne,
  get_or-beyond, get_or-replicate, length-replicate, dec_lt, length-append,
}
use kademlia_packet_manager.Prelude.Vec.{All-swap_remove, length-swap_remove-le}
use kademlia_packet_manager.Heapless.{HeaplessVec}
use kademlia_packet_manager.CloseNodes.{NodeId, Contact, IsId, id_discrete}
use kademlia_packet_manager.CloseNodes.Contacts.{
  refresh_address, find_contact, find_contact-lt, IsDistinct, All-refresh_address,
  refresh_address-IsDistinct, length-refresh_address, refresh_address-none, push-IsDistinct,
  swap_remove-IsDistinct,
}
use kademlia_packet_manager.CloseNodes.StaticBucket.{
  StaticBucket, new, bucket_index, add_to_bucket, maybe_add_contact, remove_from_bucket,
  remove_contact,
}

module _ (bucket_size search_shift max_buckets : ℕ) where
  -- `bucket_index` reads only the id of the table.
  unfoldable pub home_of : NodeId → NodeId → ℕ
  unfolding bucket_index
  home_of my_id id =
      bucket_index bucket_size search_shift max_buckets (record { contacts = []; my_id = my_id }) id

  pub bucket_index-eq-home_of :
      (s : StaticBucket) (id : NodeId)
      → bucket_index bucket_size search_shift max_buckets s id ≡ home_of s.my_id id
  unfolding bucket_index home_of
  bucket_index-eq-home_of s id = refl

  -- An id that may stand in bucket `i`.
  pub record Fits (my_id : NodeId) (i : ℕ) (id : NodeId) : Type 0 where
    pub well_formed : IsId id
    pub home : home_of my_id id ≡ i
    pub not_self : id ≢ my_id

  pub record IsBucket (my_id : NodeId) (i : ℕ) (bucket : List Contact) : Type 0 where
    pub bounded : length bucket ≤ bucket_size
    pub fits : All (λ c. Fits my_id i c.id) bucket
    pub distinct : IsDistinct bucket

  pub record IsValid (s : StaticBucket) : Type 0 where
    pub my_id : IsId s.my_id
    pub count : length s.contacts ≡ max_buckets
    pub buckets : (i : ℕ) → IsBucket s.my_id i (get_or s.contacts i [])

  empty-IsBucket : (my_id : NodeId) (i : ℕ) → IsBucket my_id i []
  empty-IsBucket my_id i = record { bounded = omega arith; fits = tt; distinct = tt }

  -- A new table is valid.
  pub new-IsValid :
      (my_id : NodeId) → IsId my_id → IsValid (new bucket_size search_shift max_buckets my_id)
  unfolding new
  new-IsValid my_id h = record {
    my_id = h;
    count = length-replicate max_buckets [];
    buckets = λ i. rw get_or-replicate (empty-IsBucket my_id i);
  }

  -- The index of a bucket is in range.
  pub home_of-lt : (my_id id : NodeId) → 0 < max_buckets → home_of my_id id < max_buckets
  unfolding home_of bucket_index
  home_of-lt my_id id h = omega arith

  module _ (s : StaticBucket) (i : ℕ) (bucket : List Contact) (v : IsValid s)
      (b : IsBucket s.my_id i bucket) where
    written_at_index :
        Dec (i < length s.contacts) → IsBucket s.my_id i (get_or (set s.contacts i bucket) i [])
    written_at_index (yes p) = rw (get_or-set_self s.contacts i bucket [] p) b
    written_at_index (no n) =
        rw
          (get_or-beyond (set s.contacts i bucket) i []
            (omega (arith, length-set s.contacts i bucket)))
          (empty-IsBucket s.my_id i)

    written : (j : ℕ) → Dec (i ≡ j) → IsBucket s.my_id j (get_or (set s.contacts i bucket) j [])
    written j (no n) = rw (get_or-set_ne s.contacts i j bucket [] n) (v.buckets j)
    written j (yes e) =
        subst (λ n. IsBucket s.my_id n (get_or (set s.contacts i bucket) n [])) e
          (written_at_index (dec_lt i (length s.contacts)))

    -- A bucket is written back.
    set-IsValid : IsValid (record s { contacts = set s.contacts i bucket })
    set-IsValid = record {
      my_id = v.my_id;
      count = length-set s.contacts i bucket ∙ v.count;
      buckets = λ j. written j (ℕ_discrete i j);
    }

  module _ (hv : HeaplessVec Contact) (my_id : NodeId) where
    length-push-le :
        (xs : List Contact) (c : Contact)
        → length xs ≤ bucket_size
        → length (hv.push bucket_size xs c) ≤ bucket_size
    length-push-le xs c h = elim (dec_lt (length xs) bucket_size) [
      | yes p ↦ rw (hv.push_room bucket_size xs c p) (omega (arith, length-append xs (c ∷ [])))
      | no n ↦ rw (hv.push_full bucket_size xs c (omega arith)) h
    ]

    push-IsBucket :
        (i : ℕ) (xs : List Contact) (c : Contact)
        → IsBucket my_id i xs
        → Fits my_id i c.id
        → All (λ x. x.id ≢ c.id) xs
        → IsBucket my_id i (hv.push bucket_size xs c)
    push-IsBucket i xs c b f n = elim (dec_lt (length xs) bucket_size) [
      | yes p ↦ rw (hv.push_room bucket_size xs c p) (record {
        bounded = omega (arith, length-append xs (c ∷ []));
        fits = All-append (λ x. Fits my_id i x.id) xs (c ∷ []) b.fits (f, tt);
        distinct = push-IsDistinct xs c n b.distinct;
      })
      | no full ↦ rw (hv.push_full bucket_size xs c (omega arith)) b
    ]

    add_to_bucket-IsBucket :
        (i : ℕ) (xs : List Contact) (c : Contact)
        → IsBucket my_id i xs
        → Fits my_id i c.id
        → IsBucket my_id i (add_to_bucket bucket_size search_shift max_buckets hv xs c)
    unfolding add_to_bucket
    add_to_bucket-IsBucket i xs c b f = elim (Option-cases (refresh_address xs c)) [
      | inl absent ↦
          rw (absent, add_to_bucket) (push-IsBucket i xs c b f (refresh_address-none xs c absent))
      | inr (ys, found) ↦
          rw (found, add_to_bucket)
            (record {
              bounded = rw (length-refresh_address xs c found) b.bounded;
              fits = All-refresh_address xs c found (λ x. Fits my_id i x) b.fits;
              distinct = refresh_address-IsDistinct xs c found b.distinct;
            })
    ]

    remove_from_bucket-IsBucket :
        (i : ℕ) (xs : List Contact) (c : Contact)
        → IsBucket my_id i xs
        → IsBucket my_id i (remove_from_bucket bucket_size search_shift max_buckets hv xs c)
    unfolding remove_from_bucket
    remove_from_bucket-IsBucket i xs c b = elim (Option-cases (find_contact xs c)) [
      | inl absent ↦ rw (absent, remove_from_bucket) b
      | inr (j, found) ↦
          rw (found, remove_from_bucket, hv.swap_remove_lem xs j (find_contact-lt xs c j found))
            (record {
              bounded = omega (arith, length-swap_remove-le xs j);
              fits = All-swap_remove (λ x. Fits my_id i x.id) xs j b.fits;
              distinct = swap_remove-IsDistinct xs j b.distinct;
            })
    ]

  module _ (hv : HeaplessVec Contact) where
    -- Offering a contact keeps the table valid: a bucket holds at most `bucket_size` contacts, each
    -- in the bucket of its prefix, no id twice, and never our own.
    pub maybe_add_contact-IsValid :
        (s : StaticBucket) (c : Contact)
        → IsId c.id
        → IsValid s
        → IsValid (maybe_add_contact bucket_size search_shift max_buckets hv s c)
    unfolding maybe_add_contact home_of
    maybe_add_contact-IsValid s c w v = elim (id_discrete c.id s.my_id) [
      | yes p ↦ rw (if_pos _ p) v
      | no n ↦ rw (if_neg _ n) (
          let i = home_of s.my_id c.id in
          set-IsValid s i _ v (
            add_to_bucket-IsBucket hv s.my_id i (get_or s.contacts i []) c (v.buckets i)
              (record { well_formed = w; home = refl; not_self = n })))
    ]

    pub remove_contact-IsValid :
        (s : StaticBucket) (c : Contact)
        → IsValid s
        → IsValid (remove_contact bucket_size search_shift max_buckets hv s c)
    unfolding remove_contact home_of
    remove_contact-IsValid s c v =
        let i = home_of s.my_id c.id in
        set-IsValid s i _ v
          (remove_from_bucket-IsBucket hv s.my_id i (get_or s.contacts i []) c (v.buckets i))
