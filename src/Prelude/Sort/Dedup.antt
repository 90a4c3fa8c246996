-- ===== src/Prelude/Sort/Dedup.antt =====
-- Removing repeated neighbours from a sorted list: the rest is strictly sorted, and each key stays.
use Prim.Native.Nat.{◌≤◌, Ordering}
use Prim.Native.Nat.Ordering.{lt, eq, gt}
use mathlib.Core.Path.{◌≡◌}
use mathlib.Core.Logic.{◌≢◌, ◌⊎◌, if_pos, if_neg}
use mathlib.Core.List.{List, [], ◌∷◌}
use native.Mathlib.Omega.{arith}
use kademlia_packet_manager.Prelude.Lists.{length}
use kademlia_packet_manager.Prelude.Members.{All, Any, All-imp}
use kademlia_packet_manager.Prelude.Sort.Defs.{
  dedup_after, dedup_by, IsOrder, IsSorted, IsAscending,
}

module _ {A K : Type 0} (key : A → K) (d : Discrete K) where
  -- `dedup_by_key`, and `dedup_by` on the equality of a key.
  unfoldable pub dedup_by_key : List A → List A
  unfolding dedup_by
  dedup_by_key = dedup_by (λ a b. key a ≡ key b) (λ a b. d (key a) (key b))

  abbrev after : A → List A → List A
  after = dedup_after (λ a b. key a ≡ key b) (λ a b. d (key a) (key b))

  All-dedup_after {κ} : (P : A → Type κ) (x : A) (ys : List A) → All P ys → All P (after x ys)
  unfolding dedup_after
  All-dedup_after P x [] h = tt
  All-dedup_after P x (y ∷ ys) h = elim (d (key y) (key x)) [
    | yes p ↦ rw (if_pos _ p) (All-dedup_after P x ys h.1)
    | no p ↦ rw (if_neg _ p) (h.0, All-dedup_after P y ys h.1)
  ]

  pub All-dedup_by_key {κ} : (P : A → Type κ) (xs : List A) → All P xs → All P (dedup_by_key xs)
  unfolding dedup_by_key
  All-dedup_by_key P [] h = tt
  All-dedup_by_key P (x ∷ xs) h = (h.0, All-dedup_after P x xs h.1)

  Any-dedup_after :
      (k : K) (x : A) (ys : List A)
      → (key x ≡ k) ⊎ Any (λ y. key y ≡ k) ys
      → (key x ≡ k) ⊎ Any (λ y. key y ≡ k) (after x ys)
  unfolding dedup_after
  Any-dedup_after k x [] m = m
  Any-dedup_after k x (y ∷ ys) m = ground (arith, Any-dedup_after k x ys, Any-dedup_after k y ys)

  -- No key is lost.
  pub Any-dedup_by_key :
      (k : K) (xs : List A) → Any (λ y. key y ≡ k) xs → Any (λ y. key y ≡ k) (dedup_by_key xs)
  unfolding dedup_by_key
  Any-dedup_by_key k [] m = m
  Any-dedup_by_key k (x ∷ xs) m = Any-dedup_after k x xs m

  length-dedup_after : (x : A) (ys : List A) → length (after x ys) ≤ length ys
  unfolding dedup_after
  length-dedup_after x [] = omega arith
  length-dedup_after x (y ∷ ys) = ground (arith, length-dedup_after x ys, length-dedup_after y ys)

  pub length-dedup_by_key : (xs : List A) → length (dedup_by_key xs) ≤ length xs
  unfolding dedup_by_key
  length-dedup_by_key [] = omega arith
  length-dedup_by_key (x ∷ xs) = omega (arith, length-dedup_after x xs)

module _ {A K : Type 0} (key : A → K) (d : Discrete K) (cmp : A → A → Ordering) (o : IsOrder cmp)
    (P : A → Type 0) (key_of_eq : (a b : A) → P a → P b → cmp a b ≡ eq → key a ≡ key b) where
  lt-le_trans : (a b c : A) → cmp a b ≡ lt → cmp b c ≢ gt → cmp a c ≡ lt
  lt-le_trans a b c p q =
      ground (arith, o.le_trans a b c, o.le_trans b c a, o.gt_of_lt a b p, o.lt_of_gt c a)

  dedup_after-IsAscending :
      (x : A) (ys : List A)
      → P x
      → All P ys
      → IsSorted cmp (x ∷ ys)
      → IsAscending cmp (x ∷ dedup_after (λ a b. key a ≡ key b) (λ a b. d (key a) (key b)) x ys)
  unfolding dedup_after
  dedup_after-IsAscending x [] px p h = (tt, tt)
  dedup_after-IsAscending x (y ∷ ys) px p h = elim (d (key y) (key x)) [
    | yes e ↦ rw (if_pos _ e) (dedup_after-IsAscending x ys px p.1 (h.0.1, h.1.1))
    | no n ↦ rw (if_neg _ n) (
        let below : cmp x y ≡ lt = ground (arith, key_of_eq x y px p.0) in
        let rest = dedup_after-IsAscending y ys p.0 p.1 h.1 in
        (
          (
            below,
            All-dedup_after key d (λ z. cmp x z ≡ lt) y ys
                (All-imp (λ z. lt-le_trans x y z below) ys h.1.0),
          ),
          rest,
        ))
  ]

  -- A sorted list is strictly sorted once its repeated neighbours are gone.
  pub dedup_by_key-IsAscending :
      (xs : List A) → All P xs → IsSorted cmp xs → IsAscending cmp (dedup_by_key key d xs)
  unfolding dedup_by_key
  dedup_by_key-IsAscending [] p h = tt
  dedup_by_key-IsAscending (x ∷ xs) p h = dedup_after-IsAscending x xs p.0 p.1 h
