-- ===== src/Prelude/Members.antt =====
-- Predicates on the elements of a list, by recursion, so that they compute to tuples and sums.
use Prim.Native.Nat.{ℕ, zero, suc}
use mathlib.Core.Path.{◌≡◌, refl, sym, subst}
use mathlib.Core.Logic.{◌⊎◌, inl, inr}
use mathlib.Core.List.{List, [], ◌∷◌, ◌++◌}
use native.Mathlib.Omega.{arith}
use kademlia_packet_manager.Prelude.Lists.{take, get_or}

abbrev pub All {ℓ κ} : {A : Type ℓ} → (A → Type κ) → List A → Type κ
All P [] = Unit
All P (x ∷ xs) = P x × All P xs

-- One element satisfies `P`.
abbrev pub Any : {A : Type 0} → (A → Type 0) → List A → Type 0
Any P [] = ⊥
Any P (x ∷ xs) = P x ⊎ Any P xs

abbrev pub Has : {A : Type 0} → A → List A → Type 0
Has x xs = Any (λ y. x ≡ y) xs

pub All-imp {ℓ κ μ} :
    {A : Type ℓ} {P : A → Type κ} {Q : A → Type μ}
    → ((a : A) → P a → Q a)
    → (xs : List A) → All P xs
    → All Q xs
All-imp f [] h = tt
All-imp f (x ∷ xs) h = (f x h.0, All-imp f xs h.1)

pub All-append {ℓ κ} :
    {A : Type ℓ} (P : A → Type κ) (xs ys : List A) → All P xs → All P ys → All P (xs ++ ys)
All-append P [] ys h k = k
All-append P (x ∷ xs) ys h k = (h.0, All-append P xs ys h.1 k)

pub All-take {ℓ κ} :
    {A : Type ℓ} (P : A → Type κ) (n : ℕ) (xs : List A) → All P xs → All P (take n xs)
All-take P zero xs h = tt
All-take P (suc n) [] h = tt
All-take P (suc n) (x ∷ xs) h = (h.0, All-take P n xs h.1)

pub All-get_or {ℓ κ} :
    {A : Type ℓ} (P : A → Type κ) (xs : List A) (i : ℕ) (d : A) → All P xs → P d → P (get_or xs i d)
All-get_or P [] i d h p = p
All-get_or P (x ∷ xs) zero d h p = h.0
All-get_or P (x ∷ xs) (suc i) d h p = All-get_or P xs i d h.1 p

module _ {A : Type 0} where
  pub All-Has {κ} : (P : A → Type κ) (x : A) (xs : List A) → All P xs → Has x xs → P x
  All-Has P x [] h m = absurd m
  All-Has P x (y ∷ ys) h (inl e) = subst P (sym e) h.0
  All-Has P x (y ∷ ys) h (inr m) = All-Has P x ys h.1 m

  pub Any-append_left : (P : A → Type 0) (xs ys : List A) → Any P xs → Any P (xs ++ ys)
  Any-append_left P (x ∷ xs) ys (inl p) = inl p
  Any-append_left P (x ∷ xs) ys (inr m) = inr (Any-append_left P xs ys m)
  Any-append_left P [] ys m = absurd m

  pub Any-append_right : (P : A → Type 0) (xs ys : List A) → Any P ys → Any P (xs ++ ys)
  Any-append_right P [] ys m = m
  Any-append_right P (x ∷ xs) ys m = inr (Any-append_right P xs ys m)

  pub Any-append : (P : A → Type 0) (xs ys : List A) → Any P (xs ++ ys) → Any P xs ⊎ Any P ys
  Any-append P [] ys m = inr m
  Any-append P (x ∷ xs) ys m = ground (arith, Any-append P xs ys)

  pub Any-take : (P : A → Type 0) (n : ℕ) (xs : List A) → Any P (take n xs) → Any P xs
  Any-take P zero xs m = absurd m
  Any-take P (suc n) [] m = m
  Any-take P (suc n) (x ∷ xs) m = ground (arith, Any-take P n xs)

  pub Any-imp : {P Q : A → Type 0} → ((a : A) → P a → Q a) → (xs : List A) → Any P xs → Any Q xs
  Any-imp f [] m = m
  Any-imp f (x ∷ xs) (inl p) = inl (f x p)
  Any-imp f (x ∷ xs) (inr m) = inr (Any-imp f xs m)

  pub Any-Has : (P : A → Type 0) (x : A) (xs : List A) → Has x xs → P x → Any P xs
  Any-Has P x [] m p = m
  Any-Has P x (y ∷ ys) (inl e) p = inl (subst P e p)
  Any-Has P x (y ∷ ys) (inr m) p = inr (Any-Has P x ys m p)

  pub All_of_Has : (P : A → Type 0) (xs : List A) → ((x : A) → Has x xs → P x) → All P xs
  All_of_Has P [] h = tt
  All_of_Has P (x ∷ xs) h = (h x (inl refl), All_of_Has P xs (λ y m. h y (inr m)))
