-- ===== src/Prelude/Sort/Defs.antt =====
-- The stable sort and the removal of repeated neighbours, and what a comparison must satisfy.
use Prim.Native.Nat.{Ordering}
use Prim.Native.Nat.Ordering.{lt, gt}
use mathlib.Core.Path.{◌≡◌}
use mathlib.Core.Logic.{◌≢◌, ite}
use mathlib.Core.List.{List, [], ◌∷◌}
use kademlia_packet_manager.Prelude.Members.{All}

module _ {A : Type 0} (cmp : A → A → Ordering) where
  -- The new element goes in front of the first one that it does not exceed: equal elements keep
  -- their order.
  unfoldable pub insert_by : A → List A → List A
  insert_by x [] = x ∷ []
  insert_by x (y ∷ ys) = elim (cmp x y) [ gt ↦ y ∷ insert_by x ys | _ ↦ x ∷ y ∷ ys ]

  unfoldable pub sort_by : List A → List A
  unfolding insert_by
  sort_by [] = []
  sort_by (x ∷ xs) = insert_by x (sort_by xs)

  -- What `sort_by` asks of its comparison: a total preorder.
  pub record IsOrder : Type 0 where
    pub lt_of_gt : (a b : A) → cmp a b ≡ gt → cmp b a ≡ lt
    pub gt_of_lt : (a b : A) → cmp a b ≡ lt → cmp b a ≡ gt
    pub le_trans : (a b c : A) → cmp a b ≢ gt → cmp b c ≢ gt → cmp a c ≢ gt

  abbrev pub IsSorted : List A → Type 0
  IsSorted [] = Unit
  IsSorted (x ∷ xs) = All (λ y. cmp x y ≢ gt) xs × IsSorted xs

  -- Strictly sorted.
  abbrev pub IsAscending : List A → Type 0
  IsAscending [] = Unit
  IsAscending (x ∷ xs) = All (λ y. cmp x y ≡ lt) xs × IsAscending xs

module _ {A : Type 0} (same : (a b : A) → Type 0) (dec : (a b : A) → Dec (same a b)) where
  -- The rest of the list after `last` was kept: an element of the same key is dropped.
  unfoldable pub dedup_after : A → List A → List A
  dedup_after last [] = []
  dedup_after last (y ∷ ys) = ite (dec y last) (dedup_after last ys) (y ∷ dedup_after y ys)

  unfoldable pub dedup_by : List A → List A
  unfolding dedup_after
  dedup_by [] = []
  dedup_by (x ∷ xs) = x ∷ dedup_after x xs
