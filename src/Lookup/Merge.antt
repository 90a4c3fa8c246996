-- ===== src/Lookup/Merge.antt =====
-- src/lookup.rs: what becomes of the contacts that a lookup hears of.
use kademlia_packet_manager.Prelude.{
  ℕ, zero, suc, ◌≡◌, ◌⊎◌, refl, ap, List, [], ◌∷◌, ◌++◌, length, take, All, Any, inl, inr, Ordering,
  All-append, All-imp, Any-imp, subst,
}
use kademlia_packet_manager.Prelude.Sort.{sort_by, Any-sort_by, Any-dedup_by_key, IsAscending}
use kademlia_packet_manager.CloseNodes.{
  NodeId, Contact, IsId, k, id_discrete, by_distance, xor_distance_cmp,
}
use kademlia_packet_manager.CloseNodes.Nearest.{merged-IsNearestFirst}
use kademlia_packet_manager.Lookup.{merge}

-- A contact is listed, or `k` contacts are that are strictly nearer.
abbrev pub Covers : NodeId → Contact → List Contact → Type 0
Covers target c cs =
    Any (λ y. y.id ≡ c.id) cs
    ⊎ ((length cs ≡ k) × All (λ y. by_distance target y c ≡ Ordering.lt) cs)

All-Any :
    {A : Type 0} (P Q : A → Type 0) (xs : List A) → All P xs → Any Q xs → Any (λ x. P x × Q x) xs
All-Any P Q [] h m = m
All-Any P Q (x ∷ xs) h (inl q) = inl (h.0, q)
All-Any P Q (x ∷ xs) h (inr m) = inr (All-Any P Q xs h.1 m)

-- Cutting a strictly sorted list keeps an element, or keeps `n` elements below it.
take_covers :
    {A : Type 0} (cmp : A → A → Ordering) (P : A → Type 0) (n : ℕ) (xs : List A)
    → IsAscending cmp xs
    → Any P xs
    → Any P (take n xs)
      ⊎ ((length (take n xs) ≡ n)
          × Any (λ x. P x × All (λ y. cmp y x ≡ Ordering.lt) (take n xs)) xs)
take_covers cmp P n [] a m = absurd m
take_covers cmp P zero (x ∷ xs) a m = inr (refl, Any-imp (λ y p. (p, tt)) (x ∷ xs) m)
take_covers cmp P (suc n) (x ∷ xs) a (inl p) = inl (inl p)
take_covers cmp P (suc n) (x ∷ xs) a (inr m) = elim (take_covers cmp P n xs a.1 m) [
  | inl h ↦ inl (inr h)
  | inr (l, found) ↦
      inr (
        ap suc l,
        inr (Any-imp (λ y (below, (p, h)). (p, (below, h))) xs (All-Any _ _ xs a.0 found)),
      )
]

-- From an element of a list to what follows from it alone.
from_Any : {A B : Type 0} (P : A → Type 0) (xs : List A) → ((x : A) → P x → B) → Any P xs → B
from_Any P [] f m = absurd m
from_Any P (x ∷ xs) f (inl p) = f x p
from_Any P (x ∷ xs) f (inr m) = from_Any P xs f m

-- A contact among the old candidates or the new contacts is among the merged ones under its id, or
-- they are `k` contacts that are strictly nearer than it: the lookup never prefers a farther contact.
pub merge-Covers :
    (target : NodeId) (cs new : List Contact) (c : Contact)
    → IsId target
    → All (λ x. IsId x.id) cs
    → All (λ x. IsId x.id) new
    → Any (λ x. x.id ≡ c.id) (cs ++ new)
    → Covers target c (merge target cs new)
unfolding merge
merge-Covers target cs new c t h g m =
    let cmp = by_distance target in
    let sorted = sort_by cmp (cs ++ new) in
    let kept =
      Any-dedup_by_key (λ x. x.id) id_discrete c.id sorted (Any-sort_by cmp _ (cs ++ new) m) in
    let ascending = merged-IsNearestFirst target (cs ++ new) t (All-append _ cs new h g) in
    elim (take_covers cmp (λ x. x.id ≡ c.id) k _ ascending kept) [
      | inl there ↦ inl there
      | inr (full, farther) ↦ inr (
        full,
        from_Any _ _
            (λ x (same, nearer).
              All-imp (λ y. subst (λ i. xor_distance_cmp y.id i target ≡ Ordering.lt) same) _
                nearer)
            farther,
      )
    ]
