-- ===== src/CloseNodes/StaticBucket/Removal.antt =====
-- What is held after a contact is removed or offered.
use kademlia_packet_manager.Prelude.{
  ℕ, zero, suc, ◌≡◌, ◌≢◌, ◌⊎◌, ◌↔◌, sym, subst, List, [], ◌∷◌, length, get_or, set, Has, All-Has,
  All_of_Has, Any-append, Any-append_left, Any-append_right, arith, Option-cases, inl, inr,
  ℕ_discrete, length-set, get_or-set_self, get_or-set_ne, get_or-beyond, dec_lt,
}
use kademlia_packet_manager.Prelude.Vec.{swap_remove, All-swap_remove}
use kademlia_packet_manager.Heapless.{HeaplessVec}
use kademlia_packet_manager.CloseNodes.{Contact}
use kademlia_packet_manager.CloseNodes.Contacts.{
  find_contact, find_contact-lt, find_contact-none, Has-swap_remove, swap_remove-gone, IsDistinct,
}
use kademlia_packet_manager.CloseNodes.StaticBucket.{
  StaticBucket, all_contacts, remove_from_bucket, remove_contact,
}
use kademlia_packet_manager.CloseNodes.StaticBucket.Buckets.{
  IsValid, home_of, remove_contact-IsValid,
}

-- A contact of the table stands in one of the buckets.
pub Has-all_contacts :
    (c : Contact) (bs : List (List Contact))
    → Has c (all_contacts bs)
    → (i : ℕ) × Has c (get_or bs i [])
unfolding all_contacts
Has-all_contacts c [] m = absurd m
Has-all_contacts c (b ∷ bs) m = elim (Any-append (λ y. c ≡ y) b (all_contacts bs) m) [
  | inl here ↦ (0, here)
  | inr there ↦ let (i, found) = Has-all_contacts c bs there in (suc i, found)
]

pub all_contacts-Has :
    (c : Contact) (bs : List (List Contact)) (i : ℕ)
    → Has c (get_or bs i [])
    → Has c (all_contacts bs)
unfolding all_contacts
all_contacts-Has c [] i m = m
all_contacts-Has c (b ∷ bs) zero m = Any-append_left _ b (all_contacts bs) m
all_contacts-Has c (b ∷ bs) (suc i) m =
    Any-append_right _ b (all_contacts bs) (all_contacts-Has c bs i m)

Has-set :
    (d : Contact) (bs : List (List Contact)) (i j : ℕ) (b : List Contact)
    → Has d (get_or bs j [])
    → (i ≡ j → Has d (get_or bs i []) → Has d b)
    → Has d (get_or (set bs i b) j [])
Has-set d bs i j b m keep = elim (ℕ_discrete i j) [
  | no n ↦ rw (get_or-set_ne bs i j b [] n) m
  | yes e ↦ elim (dec_lt i (length bs)) [
    | yes p ↦
        subst (λ n. Has d (get_or (set bs i b) n [])) e
          (rw (get_or-set_self bs i b [] p)
            (keep e (subst (λ n. Has d (get_or bs n [])) (sym e) m)))
    | no n ↦ absurd (rw (get_or-beyond bs j [] (omega arith)) at m)
  ]
]

set-Has :
    (d : Contact) (bs : List (List Contact)) (i j : ℕ) (b : List Contact)
    → Has d (get_or (set bs i b) j [])
    → ((i ≡ j) × Has d b) ⊎ ((i ≢ j) × Has d (get_or bs j []))
set-Has d bs i j b m = elim (ℕ_discrete i j) [
  | no n ↦ inr (n, rw (get_or-set_ne bs i j b [] n) at m)
  | yes e ↦ elim (dec_lt i (length bs)) [
    | yes p ↦ inl (
      e,
      rw (get_or-set_self bs i b [] p) at (subst (λ n. Has d (get_or (set bs i b) n [])) (sym e) m),
    )
    | no n ↦ absurd (rw (get_or-beyond (set bs i b) j [] (omega (arith, length-set bs i b))) at m)
  ]
]

module _ (bucket_size search_shift max_buckets : ℕ) (hv : HeaplessVec Contact) where
  remove_bucket-Has :
      (xs : List Contact) (c d : Contact)
      → Has d xs
      → d ≢ c
      → Has d (remove_from_bucket bucket_size search_shift max_buckets hv xs c)
  unfolding remove_from_bucket
  remove_bucket-Has xs c d m n = elim (Option-cases (find_contact xs c)) [
    | inl absent ↦ rw (absent, remove_from_bucket) m
    | inr (i, found) ↦
        rw (found, remove_from_bucket, hv.swap_remove_lem xs i (find_contact-lt xs c i found))
          (Has-swap_remove c xs i d found n m)
  ]

  Has-remove_bucket :
      (xs : List Contact) (c d : Contact)
      → Has d (remove_from_bucket bucket_size search_shift max_buckets hv xs c)
      → Has d xs
  unfolding remove_from_bucket
  Has-remove_bucket xs c d m = elim (Option-cases (find_contact xs c)) [
    | inl absent ↦ rw (absent, remove_from_bucket) at m
    | inr (i, found) ↦
        All-Has (λ x. Has x xs) d (swap_remove xs i)
          (All-swap_remove _ xs i (All_of_Has _ xs (λ x h. h)))
          (rw (found, remove_from_bucket, hv.swap_remove_lem xs i (find_contact-lt xs c i found)) at
            m)
  ]

  remove_bucket-gone :
      (xs : List Contact) (c : Contact)
      → IsDistinct xs
      → ¬ Has c (remove_from_bucket bucket_size search_shift max_buckets hv xs c)
  unfolding remove_from_bucket
  remove_bucket-gone xs c h m = elim (Option-cases (find_contact xs c)) [
    | inl absent ↦ find_contact-none c xs absent (rw (absent, remove_from_bucket) at m)
    | inr (i, found) ↦ swap_remove-gone c xs i h found (
        rw (found, remove_from_bucket, hv.swap_remove_lem xs i (find_contact-lt xs c i found)) at m)
  ]

  abbrev removed : StaticBucket → Contact → StaticBucket
  removed = remove_contact bucket_size search_shift max_buckets hv

  module _ (s : StaticBucket) (c : Contact)
      (v : IsValid bucket_size search_shift max_buckets s) where
    remove_contact-gone : ¬ Has c (all_contacts (removed s c).contacts)
    unfolding remove_contact home_of
    remove_contact-gone m =
        let (j, found) = Has-all_contacts c (removed s c).contacts m in
        let i = home_of bucket_size search_shift max_buckets s.my_id c.id in
        let w = remove_contact-IsValid bucket_size search_shift max_buckets hv s c v in
        let home = (All-Has _ c _ (w.buckets j).fits found).home in
        elim (set-Has c s.contacts i j _ found) [
          | inl (e, h) ↦ remove_bucket-gone (get_or s.contacts i []) c (v.buckets i).distinct h
          | inr (n, h) ↦ n home
        ]

    remove_contact-keeps :
        (d : Contact)
        → Has d (all_contacts s.contacts)
        → d ≢ c
        → Has d (all_contacts (removed s c).contacts)
    unfolding remove_contact home_of
    remove_contact-keeps d m n =
        let (j, found) = Has-all_contacts d s.contacts m in
        let i = home_of bucket_size search_shift max_buckets s.my_id c.id in
        all_contacts-Has d (removed s c).contacts j (
          Has-set d s.contacts i j _ found
            (λ e h. remove_bucket-Has (get_or s.contacts i []) c d h n))

    remove_contact-old :
        (d : Contact)
        → Has d (all_contacts (removed s c).contacts)
        → Has d (all_contacts s.contacts)
    unfolding remove_contact home_of
    remove_contact-old d m =
        let (j, found) = Has-all_contacts d (removed s c).contacts m in
        let i = home_of bucket_size search_shift max_buckets s.my_id c.id in
        elim (set-Has d s.contacts i j _ found) [
          | inl (e, h) ↦
              all_contacts-Has d s.contacts i (Has-remove_bucket (get_or s.contacts i []) c d h)
          | inr (n, h) ↦ all_contacts-Has d s.contacts j h
        ]

    -- After a contact is removed from a valid table, the table holds exactly the contacts that it
    -- held before, without that one.
    pub remove_contact_exact :
        (d : Contact)
        → Has d (all_contacts (removed s c).contacts) ↔ (Has d (all_contacts s.contacts) × (d ≢ c))
    remove_contact_exact d = (
      λ m. (
        remove_contact-old d m,
        λ e. remove_contact-gone (subst (λ x. Has x (all_contacts (removed s c).contacts)) e m),
      ),
      λ h. remove_contact-keeps d h.0 h.1,
    )
