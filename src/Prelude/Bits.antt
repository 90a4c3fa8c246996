-- ===== src/Prelude/Bits.antt =====
-- `^`, `&` and `|` on the binary digits of native numbers: what the native operations satisfy.
use Prim.Native.Nat.{
  ℕ, zero, suc, ◌+◌, ◌*◌, ◌/◌, ◌%◌, ◌^◌, ◌≤◌, ◌<◌, digits, bit_xor, differ, bit_xor-bitwise,
}
use mathlib.Core.Path.{◌≡◌, refl, ap, ◌∙◌}
use native.Mathlib.Nat.{pow-suc}
use native.Mathlib.Omega.{arith}

-- `bit_xor` runs on fuel, of which more than enough changes nothing.
xor_fuel :
    (n m a b : ℕ) → a ≤ n → a ≤ m → digits (λ y. y) differ n a b ≡ digits (λ y. y) differ m a b
xor_fuel zero zero zero b p q = refl
xor_fuel (suc n) (suc m) zero b p q = refl
xor_fuel zero (suc m) zero b p q = refl
xor_fuel (suc n) zero zero b p q = refl
xor_fuel (suc n) (suc m) (suc a) b p q =
    rw (xor_fuel n m (suc a / 2) (b / 2) (omega arith) (omega arith))
xor_fuel zero m (suc a) b p q = absurd (omega arith)
xor_fuel (suc n) zero (suc a) b p q = absurd (omega arith)

-- Of `a ^ b`, the lowest digit and the others.
pub bit_xor_step : (a b : ℕ) → bit_xor a b ≡ bit_xor (a / 2) (b / 2) * 2 + differ (a % 2) (b % 2)
bit_xor_step zero b = simp bit_xor-bitwise (omega arith)
bit_xor_step (suc a) b =
    simp bit_xor-bitwise
      (rw (xor_fuel a (suc a / 2) (suc a / 2) (b / 2) (omega arith) (omega arith)))

differ_mod : (a b : ℕ) → differ (a % 2) (b % 2) ≡ (a + b) % 2
differ_mod a b = go (a % 2) (b % 2) (omega arith) (omega arith) ∙ omega arith
  where
    go : (x y : ℕ) → x < 2 → y < 2 → differ x y ≡ (x + y) % 2
    go zero zero p q = refl
    go zero (suc zero) p q = refl
    go (suc zero) zero p q = refl
    go (suc zero) (suc zero) p q = refl
    go x y p q = absurd (omega arith)

bit_xor_fuel_inj : (n a b t : ℕ) → a ≤ n → b ≤ n → bit_xor a t ≡ bit_xor b t → a ≡ b
bit_xor_fuel_inj zero a b t p q e = omega arith
bit_xor_fuel_inj (suc n) a b t p q e =
    let halves : bit_xor (a / 2) (t / 2) ≡ bit_xor (b / 2) (t / 2) =
      omega (arith, bit_xor_step a t, bit_xor_step b t, differ_mod a t, differ_mod b t) in
    omega (
      arith,
      bit_xor_step a t,
      bit_xor_step b t,
      differ_mod a t,
      differ_mod b t,
      bit_xor_fuel_inj n (a / 2) (b / 2) (t / 2) (omega arith) (omega arith) halves,
    )

-- `^` by a fixed number loses nothing.
pub bit_xor_inj : (a b t : ℕ) → bit_xor a t ≡ bit_xor b t → a ≡ b
bit_xor_inj a b t = bit_xor_fuel_inj (a + b) a b t (omega arith) (omega arith)

-- `^` stays within the width of its arguments.
pub bit_xor-lt : (w a b : ℕ) → a < 2 ^ w → b < 2 ^ w → bit_xor a b < 2 ^ w
bit_xor-lt zero zero zero p q = omega arith
bit_xor-lt zero zero (suc b) p q = absurd (omega arith)
bit_xor-lt zero (suc a) b p q = absurd (omega arith)
bit_xor-lt (suc w) a b p q = omega (
  arith,
  bit_xor_step a b,
  differ_mod a b,
  pow-suc 2 w,
  bit_xor-lt w (a / 2) (b / 2) (omega (arith, pow-suc 2 w)) (omega (arith, pow-suc 2 w)),
)

bit_xor_comm_fuel : (n a b : ℕ) → a ≤ n → b ≤ n → bit_xor a b ≡ bit_xor b a
bit_xor_comm_fuel zero zero zero p q = refl
bit_xor_comm_fuel zero zero (suc b) p q = elim q [ ]
bit_xor_comm_fuel zero (suc a) b p q = elim p [ ]
bit_xor_comm_fuel (suc n) a b p q = omega (
  arith,
  bit_xor_step a b,
  bit_xor_step b a,
  differ_mod a b,
  differ_mod b a,
  bit_xor_comm_fuel n (a / 2) (b / 2) (omega arith) (omega arith),
)

pub bit_xor_comm : (a b : ℕ) → bit_xor a b ≡ bit_xor b a
bit_xor_comm a b = bit_xor_comm_fuel (a + b) a b (omega arith) (omega arith)

differ_back : (a b : ℕ) → differ (differ (a % 2) (b % 2)) (a % 2) ≡ b % 2
differ_back a b = ap (λ h. differ h (a % 2)) (differ_mod a b) ∙ differ_mod (a + b) a ∙ omega arith

bit_xor_back_fuel : (n a b : ℕ) → a ≤ n → b ≤ n → bit_xor (bit_xor a b) a ≡ b
bit_xor_back_fuel zero zero zero p q = refl
bit_xor_back_fuel zero zero (suc b) p q = elim q [ ]
bit_xor_back_fuel zero (suc a) b p q = elim p [ ]
bit_xor_back_fuel (suc n) a b p q =
    let half : bit_xor a b / 2 ≡ bit_xor (a / 2) (b / 2) =
      omega (arith, bit_xor_step a b, differ_mod a b) in
    let parity : bit_xor a b % 2 ≡ differ (a % 2) (b % 2) =
      omega (arith, bit_xor_step a b, differ_mod a b) in
    let rest =
      ap (λ h. bit_xor h (a / 2)) half
      ∙ bit_xor_back_fuel n (a / 2) (b / 2) (omega arith) (omega arith) in
    let last = ap (λ h. differ h (a % 2)) parity ∙ differ_back a b in
    omega (arith, bit_xor_step (bit_xor a b) a, rest, last)

-- `^` twice with one number changes nothing.
pub bit_xor_back : (a b : ℕ) → bit_xor (bit_xor a b) a ≡ b
bit_xor_back a b = bit_xor_back_fuel (a + b) a b (omega arith) (omega arith)
