-- ===== src/Prelude/Vec.antt =====
-- Methods of the standard library's slices and `Vec` that the program calls: `position`,
-- `partition_point`, `insert`, `remove` and `swap_remove`. An index out of range panics there; the
-- program calls them only with indices in range, and here such a call changes nothing.
use Prim.Native.Nat.{ℕ, zero, suc, ◌≤◌, ◌<◌}
use mathlib.Core.Path.{◌≡◌, refl, ap}
use mathlib.Core.Bool.{Bool, true, false}
use mathlib.Core.Logic.{◌⊎◌, inl, inr}
use mathlib.Core.List.{List, [], ◌∷◌}
use mathlib.Core.Option.{Option, none, some}
use mathlib.Core.Option
use native.Mathlib.Omega.{arith}
use kademlia_packet_manager.Prelude.Tests.{Bool-cases, if◌then◌else◌}
use kademlia_packet_manager.Prelude.Lists.{length}
use kademlia_packet_manager.Prelude.Members.{All, Any}

module _ {A : Type 0} where
  -- The index of the first element that passes the test.
  unfoldable pub position : (A → Bool) → List A → Option ℕ
  position p [] = none
  position p (x ∷ xs) = if p x then some 0 else Option.map suc (position p xs)

  -- The length of the longest prefix that passes the test.
  unfoldable pub partition_point : (A → Bool) → List A → ℕ
  partition_point p [] = 0
  partition_point p (x ∷ xs) = if p x then suc (partition_point p xs) else 0

  unfoldable pub insert_at : List A → ℕ → A → List A
  insert_at xs zero v = v ∷ xs
  insert_at [] (suc i) v = []
  insert_at (x ∷ xs) (suc i) v = x ∷ insert_at xs i v

  unfoldable pub remove_at : List A → ℕ → List A
  remove_at [] i = []
  remove_at (x ∷ xs) zero = xs
  remove_at (x ∷ xs) (suc i) = x ∷ remove_at xs i

  -- `pop`, with its result dropped.
  unfoldable pub pop : List A → List A
  pop [] = []
  pop (x ∷ []) = []
  pop (x ∷ y ∷ ys) = x ∷ pop (y ∷ ys)

  unfoldable pub last : A → List A → A
  last x [] = x
  last x (y ∷ ys) = last y ys

  -- What stands behind a removed element: the last element takes its place.
  unfoldable pub last_first : List A → List A
  unfolding last pop
  last_first [] = []
  last_first (x ∷ xs) = last x xs ∷ pop (x ∷ xs)

  unfoldable pub swap_remove : List A → ℕ → List A
  unfolding last_first
  swap_remove [] i = []
  swap_remove (x ∷ xs) zero = last_first xs
  swap_remove (x ∷ xs) (suc i) = x ∷ swap_remove xs i

  pub All-last {κ} : (P : A → Type κ) (x : A) (xs : List A) → P x → All P xs → P (last x xs)
  unfolding last
  All-last P x [] p h = p
  All-last P x (y ∷ ys) p h = All-last P y ys h.0 h.1

  pub All-pop {κ} : (P : A → Type κ) (xs : List A) → All P xs → All P (pop xs)
  unfolding pop
  All-pop P [] h = tt
  All-pop P (x ∷ []) h = tt
  All-pop P (x ∷ y ∷ ys) h = (h.0, All-pop P (y ∷ ys) h.1)

  pub All-last_first {κ} : (P : A → Type κ) (xs : List A) → All P xs → All P (last_first xs)
  unfolding last_first
  All-last_first P [] h = tt
  All-last_first P (x ∷ xs) h = (All-last P x xs h.0 h.1, All-pop P (x ∷ xs) h)

  pub All-swap_remove {κ} :
      (P : A → Type κ) (xs : List A) (i : ℕ) → All P xs → All P (swap_remove xs i)
  unfolding swap_remove
  All-swap_remove P [] i h = tt
  All-swap_remove P (x ∷ xs) zero h = All-last_first P xs h.1
  All-swap_remove P (x ∷ xs) (suc i) h = (h.0, All-swap_remove P xs i h.1)

  pub All-remove_at {κ} : (P : A → Type κ) (xs : List A) (i : ℕ) → All P xs → All P (remove_at xs i)
  unfolding remove_at
  All-remove_at P [] i h = tt
  All-remove_at P (x ∷ xs) zero h = h.1
  All-remove_at P (x ∷ xs) (suc i) h = (h.0, All-remove_at P xs i h.1)

  pub All-insert_at {κ} :
      (P : A → Type κ) (xs : List A) (i : ℕ) (v : A) → P v → All P xs → All P (insert_at xs i v)
  unfolding insert_at
  All-insert_at P xs zero v p h = (p, h)
  All-insert_at P [] (suc i) v p h = tt
  All-insert_at P (x ∷ xs) (suc i) v p h = (h.0, All-insert_at P xs i v p h.1)

  length-pop : (x : A) (xs : List A) → length (pop (x ∷ xs)) ≡ length xs
  unfolding pop
  length-pop x [] = refl
  length-pop x (y ∷ ys) = ap suc (length-pop y ys)

  pub length-last_first : (xs : List A) → length (last_first xs) ≡ length xs
  unfolding last_first
  length-last_first [] = refl
  length-last_first (x ∷ xs) = ap suc (length-pop x xs)

  pub length-swap_remove-le : (xs : List A) (i : ℕ) → length (swap_remove xs i) ≤ length xs
  unfolding swap_remove
  length-swap_remove-le [] i = omega arith
  length-swap_remove-le (x ∷ xs) zero = omega (arith, length-last_first xs)
  length-swap_remove-le (x ∷ xs) (suc i) = omega (arith, length-swap_remove-le xs i)

  Any-last-pop :
      (P : A → Type 0) (x : A) (xs : List A) → Any P (x ∷ xs) → P (last x xs) ⊎ Any P (pop (x ∷ xs))
  unfolding last pop
  Any-last-pop P x [] m = m
  Any-last-pop P x (y ∷ ys) m = ground (arith, Any-last-pop P y ys)

  pub Any-last_first : (P : A → Type 0) (xs : List A) → Any P xs → Any P (last_first xs)
  unfolding last_first
  Any-last_first P [] m = m
  Any-last_first P (x ∷ xs) m = Any-last-pop P x xs m

  -- An element that the removed one does not account for is still there.
  pub Any-swap_remove :
      (P : A → Type 0) (p : A → Bool) (xs : List A) (i : ℕ)
      → position p xs ≡ some i
      → ((x : A) → p x ≡ true → ¬ P x)
      → Any P xs
      → Any P (swap_remove xs i)
  unfolding swap_remove position
  Any-swap_remove P p [] i e n m = m
  Any-swap_remove P p (x ∷ xs) zero e n m = elim (Bool-cases (p x)) [
    | inl t ↦ elim m [ inl h ↦ absurd (n x t h) | inr h ↦ Any-last_first P xs h ]
    | inr f ↦ ground arith
  ]
  Any-swap_remove P p (x ∷ xs) (suc i) e n m = elim m [
    | inl h ↦ inl h
    | inr h ↦ inr (Any-swap_remove P p xs i (ground arith) n h)
  ]

  pub Any-remove_at :
      (P : A → Type 0) (p : A → Bool) (xs : List A) (i : ℕ)
      → position p xs ≡ some i
      → ((x : A) → p x ≡ true → ¬ P x)
      → Any P xs
      → Any P (remove_at xs i)
  unfolding remove_at position
  Any-remove_at P p [] i e n m = m
  Any-remove_at P p (x ∷ xs) zero e n m = elim (Bool-cases (p x)) [
    | inl t ↦ elim m [ inl h ↦ absurd (n x t h) | inr h ↦ h ]
    | inr f ↦ ground arith
  ]
  Any-remove_at P p (x ∷ xs) (suc i) e n m = elim m [
    | inl h ↦ inl h
    | inr h ↦ inr (Any-remove_at P p xs i (ground arith) n h)
  ]

  pub position-lt : (p : A → Bool) (xs : List A) (i : ℕ) → position p xs ≡ some i → i < length xs
  unfolding position
  position-lt p [] i e = cc
  position-lt p (x ∷ xs) zero e = omega arith
  position-lt p (x ∷ xs) (suc i) e = ground (arith, position-lt p xs i)

  pub position-none :
      (p : A → Bool) (xs : List A) → position p xs ≡ none → All (λ x. p x ≡ false) xs
  unfolding position
  position-none p [] e = tt
  position-none p (x ∷ xs) e = ground (arith, position-none p xs)

  pub position-zero :
      (p : A → Bool) (x : A) (xs : List A) → position p (x ∷ xs) ≡ some 0 → p x ≡ true
  unfolding position
  position-zero p x xs e = ground arith

  pub position-suc :
      (p : A → Bool) (x : A) (xs : List A) (i : ℕ)
      → position p (x ∷ xs) ≡ some (suc i)
      → (p x ≡ false) × (position p xs ≡ some i)
  unfolding position
  position-suc p x xs i e = ground arith

  pub length-insert_at :
      (xs : List A) (i : ℕ) (v : A) → i ≤ length xs → length (insert_at xs i v) ≡ suc (length xs)
  unfolding insert_at
  length-insert_at xs zero v h = refl
  length-insert_at [] (suc i) v h = elim h [ ]
  length-insert_at (x ∷ xs) (suc i) v h = ap suc (length-insert_at xs i v (omega arith))

  pub length-pop_lem : (xs : List A) → 0 < length xs → suc (length (pop xs)) ≡ length xs
  length-pop_lem [] h = elim h [ ]
  length-pop_lem (x ∷ xs) h = ap suc (length-pop x xs)

  pub length-pop-le : (xs : List A) → length (pop xs) ≤ length xs
  unfolding pop
  length-pop-le [] = omega arith
  length-pop-le (x ∷ xs) = omega (arith, length-pop x xs)

  pub length-remove_at-le : (xs : List A) (i : ℕ) → length (remove_at xs i) ≤ length xs
  unfolding remove_at
  length-remove_at-le [] i = omega arith
  length-remove_at-le (x ∷ xs) zero = omega arith
  length-remove_at-le (x ∷ xs) (suc i) = omega (arith, length-remove_at-le xs i)

  pub Any-insert_at :
      (P : A → Type 0) (xs : List A) (i : ℕ) (v : A)
      → i ≤ length xs
      → Any P xs
      → Any P (insert_at xs i v)
  unfolding insert_at
  Any-insert_at P xs zero v h m = inr m
  Any-insert_at P [] (suc i) v h m = m
  Any-insert_at P (x ∷ xs) (suc i) v h m = elim m [
    | inl p ↦ inl p
    | inr r ↦ inr (Any-insert_at P xs i v (omega arith) r)
  ]

  pub Any-insert_at_self :
      (P : A → Type 0) (xs : List A) (i : ℕ) (v : A)
      → i ≤ length xs
      → P v
      → Any P (insert_at xs i v)
  unfolding insert_at
  Any-insert_at_self P xs zero v h p = inl p
  Any-insert_at_self P [] (suc i) v h p = absurd (omega arith)
  Any-insert_at_self P (x ∷ xs) (suc i) v h p = inr (Any-insert_at_self P xs i v (omega arith) p)

  -- An insertion before the end leaves the last element where it was.
  pub pop-insert_at :
      (xs : List A) (i : ℕ) (v : A)
      → i < length xs
      → pop (insert_at xs i v) ≡ insert_at (pop xs) i v
  unfolding pop insert_at
  pop-insert_at [] i v h = elim h [ ]
  pop-insert_at (x ∷ xs) zero v h = refl
  pop-insert_at (x ∷ []) (suc i) v h = absurd (omega arith)
  pop-insert_at (x ∷ y ∷ ys) (suc zero) v h = refl
  pop-insert_at (x ∷ y ∷ ys) (suc (suc i)) v h =
      ap (◌∷◌ x) (pop-insert_at (y ∷ ys) (suc i) v (omega arith))

  pub last-insert_at :
      (a : A) (xs : List A) (i : ℕ) (v : A) → i < length xs → last a (insert_at xs i v) ≡ last a xs
  unfolding last insert_at
  last-insert_at a [] i v h = elim h [ ]
  last-insert_at a (x ∷ xs) zero v h = refl
  last-insert_at a (x ∷ xs) (suc i) v h = last-insert_at x xs i v (omega arith)

  pub Any-pop_or_last :
      (P : A → Type 0) (a : A) (xs : List A) → Any P xs → Any P (pop xs) ⊎ P (last a xs)
  unfolding last pop
  Any-pop_or_last P a [] m = absurd m
  Any-pop_or_last P a (x ∷ []) m = elim m [ inl p ↦ inr p | inr r ↦ inl r ]
  Any-pop_or_last P a (x ∷ y ∷ ys) m = ground (arith, Any-pop_or_last P x (y ∷ ys))
