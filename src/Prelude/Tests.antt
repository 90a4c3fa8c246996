-- ===== src/Prelude/Tests.antt =====
-- Boolean tests on the native numbers, the conditional, and case splits that keep the equation.
use Prim.Native.Nat.{ℕ, compare, Ordering}
use mathlib.Core.Path.{◌≡◌, refl, ap₂}
use mathlib.Core.Logic.{◌⊎◌, inl, inr}
use mathlib.Core.Bool.{Bool, true, false, not, ◌&&◌, ◌||◌}
use mathlib.Core.List.{List, [], ◌∷◌}
use mathlib.Core.Option.{Option, none, some}

abbrev pub ltb : ℕ → ℕ → Bool
ltb a b = elim (compare a b) [ Ordering.lt ↦ true | _ ↦ false ]

abbrev pub leb : ℕ → ℕ → Bool
leb a b = elim (compare a b) [ Ordering.gt ↦ false | _ ↦ true ]

infix 50 ◌==◌
abbrev pub ◌==◌ : ℕ → ℕ → Bool
a == b = elim (compare a b) [ Ordering.eq ↦ true | _ ↦ false ]

infix 1 if◌then◌else◌
abbrev pub if◌then◌else◌ {ℓ} : {A : Type ℓ} → Bool → A → A → A
if true then x else y = x
if false then x else y = y

-- A decision as a Boolean.
abbrev pub holds {ℓ} : {P : Type ℓ} → Dec P → Bool
holds (yes _) = true
holds (no _) = false

pub Bool-cases : (b : Bool) → (b ≡ true) ⊎ (b ≡ false)
Bool-cases true = inl refl
Bool-cases false = inr refl

pub Option-cases {ℓ} : {A : Type ℓ} (o : Option A) → (o ≡ none) ⊎ ((a : A) × (o ≡ some a))
Option-cases none = inl refl
Option-cases (some a) = inr (a, refl)

pub Ordering-discrete : Discrete Ordering
Ordering-discrete = hlevel

-- Equality of sequences, element by element.
unfoldable pub list_discrete {ℓ} : {A : Type ℓ} → Discrete A → Discrete (List A)
list_discrete d [] [] = yes refl
list_discrete d [] (y ∷ ys) = no (λ e. cc)
list_discrete d (x ∷ xs) [] = no (λ e. cc)
list_discrete d (x ∷ xs) (y ∷ ys) = elim (d x y) [
  | no n ↦ no (λ e. n (cc))
  | yes p ↦ elim (list_discrete d xs ys) [ no n ↦ no (λ e. n (cc)) | yes q ↦ yes (ap₂ ◌∷◌ p q) ]
]

-- A property of both branches holds of the result.
pub if_ind {ℓ κ} :
    {A : Type ℓ} (P : A → Type κ) (b : Bool) {x y : A} → P x → P y → P (if b then x else y)
if_ind P true p q = p
if_ind P false p q = q

pub holds-yes {ℓ} : {P : Type ℓ} (d : Dec P) → holds d ≡ true → P
holds-yes (yes p) e = p
holds-yes (no n) e = cc

pub holds-no {ℓ} : {P : Type ℓ} (d : Dec P) → holds d ≡ false → ¬ P
holds-no (yes p) e = cc
holds-no (no n) e = n

pub holds-true {ℓ} : {P : Type ℓ} (d : Dec P) → P → holds d ≡ true
holds-true (yes p) q = refl
holds-true (no n) q = absurd (n q)

pub holds-false {ℓ} : {P : Type ℓ} (d : Dec P) → ¬ P → holds d ≡ false
holds-false (yes p) n = absurd (n p)
holds-false (no n) m = refl

-- A conjunction of Booleans, taken apart and put together.
pub and-true : (a b : Bool) → (a && b) ≡ true → (a ≡ true) × (b ≡ true)
and-true true b e = (refl, e)
and-true false b e = cc

pub and_intro : {a b : Bool} → a ≡ true → b ≡ true → (a && b) ≡ true
and_intro p q = cc

pub or-false : (a b : Bool) → (a || b) ≡ false → (a ≡ false) × (b ≡ false)
or-false true b e = cc
or-false false b e = (refl, e)

pub not-false : (b : Bool) → not b ≡ false → b ≡ true
not-false true e = refl
not-false false e = cc
