-- ===== src/Prelude/Pigeonhole.antt =====
-- A list of numbers below a bound in which none comes twice is no longer than the bound.
use Prim.Native.Nat.{ℕ, zero, suc, ◌≤◌, ◌<◌}
use mathlib.Core.Path.{◌≡◌, refl}
use mathlib.Core.Logic.{◌≢◌}
use mathlib.Core.List.{List, [], ◌∷◌, map}
use native.Mathlib.Omega.{arith}
use native.Mathlib.Decide.{ℕ_discrete}
use kademlia_packet_manager.Prelude.Lists.{length}
use kademlia_packet_manager.Prelude.Members.{All}

-- No element comes twice.
abbrev pub Apart : {A : Type 0} → List A → Type 0
Apart [] = Unit
Apart (x ∷ xs) = All (λ y. x ≢ y) xs × Apart xs

unfoldable remove_number : ℕ → List ℕ → List ℕ
remove_number n [] = []
remove_number n (x ∷ xs) = elim (ℕ_discrete x n) [
  | yes e ↦ remove_number n xs
  | no d ↦ x ∷ remove_number n xs
]

All-remove_number : (P : ℕ → Type 0) (n : ℕ) (xs : List ℕ) → All P xs → All P (remove_number n xs)
unfolding remove_number
All-remove_number P n [] h = tt
All-remove_number P n (x ∷ xs) h = ground (arith, All-remove_number P n xs)

remove_number-Apart : (n : ℕ) (xs : List ℕ) → Apart xs → Apart (remove_number n xs)
unfolding remove_number
remove_number-Apart n [] h = tt
remove_number-Apart n (x ∷ xs) h =
    ground (arith, remove_number-Apart n xs, All-remove_number (λ y. x ≢ y) n xs)

remove_number-lt :
    (n : ℕ) (xs : List ℕ) → All (λ x. x < suc n) xs → All (λ x. x < n) (remove_number n xs)
unfolding remove_number
remove_number-lt n [] h = tt
remove_number-lt n (x ∷ xs) h = elim (ℕ_discrete x n) [
  | yes e ↦ ground (arith, e, remove_number-lt n xs h.1)
  | no d ↦
      let less : x < n = omega (arith, h.0, d) in ground (arith, d, less, remove_number-lt n xs h.1)
]

remove_number-absent : (n : ℕ) (xs : List ℕ) → All (λ y. n ≢ y) xs → remove_number n xs ≡ xs
unfolding remove_number
remove_number-absent n [] h = refl
remove_number-absent n (x ∷ xs) h = ground (arith, remove_number-absent n xs h.1, h.0)

length-remove_number :
    (n : ℕ) (xs : List ℕ) → Apart xs → length xs ≤ suc (length (remove_number n xs))
unfolding remove_number
length-remove_number n [] h = omega arith
length-remove_number n (x ∷ xs) h = elim (ℕ_discrete x n) [
  | yes e ↦
      let rest : remove_number n xs ≡ xs = rw (← e) (remove_number-absent x xs h.0) in
      ground (arith, e, rest)
  | no d ↦ ground (arith, d, length-remove_number n xs h.1)
]

pub Apart-length : (n : ℕ) (xs : List ℕ) → All (λ x. x < n) xs → Apart xs → length xs ≤ n
Apart-length zero [] b h = omega arith
Apart-length zero (x ∷ xs) b h = absurd (omega (arith, b.0))
Apart-length (suc n) xs b h =
    let rest =
      Apart-length n (remove_number n xs) (remove_number-lt n xs b) (remove_number-Apart n xs h) in
    omega (arith, rest, length-remove_number n xs h)

-- The same through a numbering that tells the elements apart.
module _ {A : Type 0} (P : A → Type 0) (number : A → ℕ)
    (number_inj : (a b : A) → P a → P b → number a ≡ number b → a ≡ b) where
  All_apart :
      (a : A) (xs : List A)
      → P a
      → All P xs
      → All (λ y. a ≢ y) xs
      → All (λ y. number a ≢ y) (map number xs)
  All_apart a [] p h n = tt
  All_apart a (x ∷ xs) p h n = (λ e. n.0 (number_inj a x p h.0 e), All_apart a xs p h.1 n.1)

  map-Apart : (xs : List A) → All P xs → Apart xs → Apart (map number xs)
  map-Apart [] h n = tt
  map-Apart (x ∷ xs) h n = (All_apart x xs h.0 h.1 n.0, map-Apart xs h.1 n.1)

  map-lt : (n : ℕ) (xs : List A) → All (λ x. number x < n) xs → All (λ y. y < n) (map number xs)
  map-lt n [] h = tt
  map-lt n (x ∷ xs) h = (h.0, map-lt n xs h.1)

  length-numbers : (xs : List A) → length (map number xs) ≡ length xs
  length-numbers [] = refl
  length-numbers (x ∷ xs) = omega (arith, length-numbers xs)

  pub numbered-Apart-length :
      (n : ℕ) (xs : List A) → All P xs → All (λ x. number x < n) xs → Apart xs → length xs ≤ n
  numbered-Apart-length n xs h b a =
      omega (
        arith,
        length-numbers xs,
        Apart-length n (map number xs) (map-lt n xs b) (map-Apart xs h a),
      )
