-- ===== src/Prelude/Sort/Order.antt =====
-- Sorting: the result is sorted, and has the same elements.
use Prim.Native.Nat.{ℕ, zero, suc, Ordering}
use Prim.Native.Nat.Ordering.{lt, eq, gt}
use mathlib.Core.Path.{◌≡◌, refl}
use mathlib.Core.Logic.{◌≢◌, ◌⊎◌, inl, inr}
use mathlib.Core.List.{List, [], ◌∷◌, Perm}
use mathlib.Core.List.Perm
use native.Mathlib.Omega.{arith}
use kademlia_packet_manager.Prelude.Lists.{length, take, drop}
use kademlia_packet_manager.Prelude.Members.{All, Any, All-imp, All-take}
use kademlia_packet_manager.Prelude.Sort.Defs.{insert_by, sort_by, IsOrder, IsSorted, IsAscending}

gt_or_not : (r : Ordering) → (r ≡ gt) ⊎ (r ≢ gt)
gt_or_not gt = inl refl
gt_or_not lt = inr (λ e. cc)
gt_or_not eq = inr (λ e. cc)

All-drop : {A : Type 0} (P : A → Type 0) (n : ℕ) (xs : List A) → All P xs → All P (drop n xs)
All-drop P zero xs h = h
All-drop P (suc n) [] h = tt
All-drop P (suc n) (x ∷ xs) h = All-drop P n xs h.1

module _ {A : Type 0} (cmp : A → A → Ordering) where
  pub All-insert_by {κ} :
      (P : A → Type κ) (x : A) (xs : List A) → P x → All P xs → All P (insert_by cmp x xs)
  unfolding insert_by
  All-insert_by P x [] p h = (p, tt)
  All-insert_by P x (y ∷ ys) p h = ground (arith, All-insert_by P x ys p)

  -- A sorted list has the elements that it was given.
  pub All-sort_by {κ} : (P : A → Type κ) (xs : List A) → All P xs → All P (sort_by cmp xs)
  unfolding sort_by
  All-sort_by P [] h = tt
  All-sort_by P (x ∷ xs) h = All-insert_by P x (sort_by cmp xs) h.0 (All-sort_by P xs h.1)

  Any-insert_by :
      (P : A → Type 0) (x : A) (xs : List A) → P x ⊎ Any P xs → Any P (insert_by cmp x xs)
  unfolding insert_by
  Any-insert_by P x [] m = m
  Any-insert_by P x (y ∷ ys) m = ground (arith, Any-insert_by P x ys)

  pub Any-sort_by : (P : A → Type 0) (xs : List A) → Any P xs → Any P (sort_by cmp xs)
  unfolding sort_by
  Any-sort_by P [] m = m
  Any-sort_by P (x ∷ xs) (inl p) = Any-insert_by P x (sort_by cmp xs) (inl p)
  Any-sort_by P (x ∷ xs) (inr m) = Any-insert_by P x (sort_by cmp xs) (inr (Any-sort_by P xs m))

  length-insert_by : (x : A) (xs : List A) → length (insert_by cmp x xs) ≡ suc (length xs)
  unfolding insert_by
  length-insert_by x [] = refl
  length-insert_by x (y ∷ ys) = ground (arith, length-insert_by x ys)

  pub length-sort_by : (xs : List A) → length (sort_by cmp xs) ≡ length xs
  unfolding sort_by
  length-sort_by [] = refl
  length-sort_by (x ∷ xs) = omega (arith, length-insert_by x (sort_by cmp xs), length-sort_by xs)

  insert_by-Perm : (x : A) (xs : List A) → Perm (insert_by cmp x xs) (x ∷ xs)
  unfolding insert_by
  insert_by-Perm x [] = Perm.rfl
  insert_by-Perm x (y ∷ ys) = elim (gt_or_not (cmp x y)) [
    | inl later ↦
        rw (later, insert_by) (Perm.trans (Perm.cons y (insert_by-Perm x ys)) (Perm.swap x y ys))
    | inr first ↦
        let front : insert_by cmp x (y ∷ ys) ≡ x ∷ y ∷ ys = ground (arith, first) in
        rw front Perm.rfl
  ]

  -- Each of them as often as it was given.
  pub sort_by-Perm : (xs : List A) → Perm (sort_by cmp xs) xs
  unfolding sort_by
  sort_by-Perm [] = Perm.rfl
  sort_by-Perm (x ∷ xs) =
      Perm.trans (insert_by-Perm x (sort_by cmp xs)) (Perm.cons x (sort_by-Perm xs))

  -- The front of a sorted list does not exceed what stands behind it.
  pub IsSorted-apart :
      (n : ℕ) (xs : List A)
      → IsSorted cmp xs
      → All (λ x. All (λ y. cmp x y ≢ gt) (drop n xs)) (take n xs)
  IsSorted-apart zero xs h = tt
  IsSorted-apart (suc n) [] h = tt
  IsSorted-apart (suc n) (x ∷ xs) h = (All-drop _ n xs h.0, IsSorted-apart n xs h.1)

  pub IsSorted-take : (n : ℕ) (xs : List A) → IsSorted cmp xs → IsSorted cmp (take n xs)
  IsSorted-take zero xs h = tt
  IsSorted-take (suc n) [] h = tt
  IsSorted-take (suc n) (x ∷ xs) h = (All-take _ n xs h.0, IsSorted-take n xs h.1)

  pub IsAscending-take : (n : ℕ) (xs : List A) → IsAscending cmp xs → IsAscending cmp (take n xs)
  IsAscending-take zero xs h = tt
  IsAscending-take (suc n) [] h = tt
  IsAscending-take (suc n) (x ∷ xs) h = (All-take _ n xs h.0, IsAscending-take n xs h.1)

  module _ (o : IsOrder cmp) where
    insert_front :
        (x y : A) (ys : List A)
        → cmp x y ≢ gt
        → IsSorted cmp (x ∷ y ∷ ys)
        → IsSorted cmp (insert_by cmp x (y ∷ ys))
    unfolding insert_by
    insert_front x y ys n h = ground arith

    insert_by-IsSorted : (x : A) (xs : List A) → IsSorted cmp xs → IsSorted cmp (insert_by cmp x xs)
    unfolding insert_by
    insert_by-IsSorted x [] h = (tt, tt)
    insert_by-IsSorted x (y ∷ ys) h = elim (gt_or_not (cmp x y)) [
      | inl e ↦
          rw (e, insert_by)
            (
              All-insert_by (λ z. cmp y z ≢ gt) x ys (λ g. ground (arith, o.lt_of_gt x y e)) h.0,
              insert_by-IsSorted x ys h.1,
            )
      | inr n ↦ insert_front x y ys n ((n, All-imp (λ z. o.le_trans x y z n) ys h.0), h)
    ]

    -- Sorting sorts.
    pub sort_by-IsSorted : (xs : List A) → IsSorted cmp (sort_by cmp xs)
    unfolding sort_by
    sort_by-IsSorted [] = tt
    sort_by-IsSorted (x ∷ xs) = insert_by-IsSorted x (sort_by cmp xs) (sort_by-IsSorted xs)
