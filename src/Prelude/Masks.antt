-- ===== src/Prelude/Masks.antt =====
-- `&` and `|` with a mask of the low bits, or with the bit above them.
use Prim.Native.Nat.{
  ℕ, zero, suc, ◌+◌, ◌-◌, ◌*◌, ◌/◌, ◌%◌, ◌^◌, ◌≤◌, ◌<◌, min, max, digits, bit_and, bit_or,
  bit_and-bitwise, bit_or-bitwise,
}
use mathlib.Core.Path.{◌≡◌, refl, sym, ap₂, ◌∙◌}
use native.Mathlib.Nat.{pow-suc, one-le-pow}
use native.Mathlib.Omega.{arith}

-- More fuel than the first argument changes no digit.
module _ (rest : ℕ → ℕ) (digit : ℕ → ℕ → ℕ) where
  no_digits : (fuel y : ℕ) → digits rest digit fuel zero y ≡ rest y
  no_digits zero y = refl
  no_digits (suc fuel) y = refl

  settled :
      (x y more fuel : ℕ)
      → x ≤ fuel
      → fuel ≤ more
      → digits rest digit more x y ≡ digits rest digit fuel x y
  settled zero y more fuel small big = no_digits more y ∙ sym (no_digits fuel y)
  settled (suc x) y (suc more) (suc fuel) small big =
      rw (settled (suc x / 2) (y / 2) more fuel (omega arith) (omega arith)) refl
  settled (suc x) y more zero small big = absurd (omega arith)
  settled (suc x) y zero (suc fuel) small big = absurd (omega arith)

  halved :
      (x y : ℕ) → digits rest digit x (suc x / 2) y ≡ digits rest digit (suc x / 2) (suc x / 2) y
  halved x y = settled (suc x / 2) y x (suc x / 2) (omega arith) (omega arith)

bit_and_step : (a b : ℕ) → bit_and a b ≡ bit_and (a / 2) (b / 2) * 2 + min (a % 2) (b % 2)
bit_and_step (suc a) b = simp bit_and-bitwise (rw (halved (λ y. zero) min a (b / 2)) refl)
bit_and_step zero b = simp bit_and-bitwise (omega arith)

bit_or_step : (a b : ℕ) → bit_or a b ≡ bit_or (a / 2) (b / 2) * 2 + max (a % 2) (b % 2)
bit_or_step (suc a) b = simp bit_or-bitwise (rw (halved (λ y. y) max a (b / 2)) refl)
bit_or_step zero b = simp bit_or-bitwise (omega arith)

-- The mask of the low bits keeps them, and drops the bit above.
pub and_below : (w a : ℕ) → a < 2 ^ w → bit_and (a) (2 ^ w - 1) ≡ a
and_below zero zero h = refl
and_below zero (suc a) h = absurd (omega arith)
and_below (suc w) a h =
    let top = pow-suc 2 w in
    let some_top = one-le-pow w 2 in
    let left : (a) / 2 ≡ a / 2 = omega (arith, top, some_top) in
    let right : (2 ^ suc w - 1) / 2 ≡ 2 ^ w - 1 = omega (arith, top, some_top) in
    let rest = ap₂ bit_and left right ∙ and_below w (a / 2) (omega (arith, top)) in
    omega (arith, bit_and_step (a) (2 ^ suc w - 1), rest, top, some_top)

pub and_above : (w a : ℕ) → a < 2 ^ w → bit_and (2 ^ w + a) (2 ^ w - 1) ≡ a
and_above zero zero h = refl
and_above zero (suc a) h = absurd (omega arith)
and_above (suc w) a h =
    let top = pow-suc 2 w in
    let some_top = one-le-pow w 2 in
    let left : (2 ^ suc w + a) / 2 ≡ 2 ^ w + a / 2 = omega (arith, top, some_top) in
    let right : (2 ^ suc w - 1) / 2 ≡ 2 ^ w - 1 = omega (arith, top, some_top) in
    let rest = ap₂ bit_and left right ∙ and_above w (a / 2) (omega (arith, top)) in
    omega (arith, bit_and_step (2 ^ suc w + a) (2 ^ suc w - 1), rest, top, some_top)

-- `|` sets the bit above, once.
pub or_below : (w a : ℕ) → a < 2 ^ w → bit_or (a) (2 ^ w) ≡ 2 ^ w + a
or_below zero zero h = refl
or_below zero (suc a) h = absurd (omega arith)
or_below (suc w) a h =
    let top = pow-suc 2 w in
    let some_top = one-le-pow w 2 in
    let left : (a) / 2 ≡ a / 2 = omega (arith, top, some_top) in
    let right : (2 ^ suc w) / 2 ≡ 2 ^ w = omega (arith, top, some_top) in
    let rest = ap₂ bit_or left right ∙ or_below w (a / 2) (omega (arith, top)) in
    omega (arith, bit_or_step (a) (2 ^ suc w), rest, top, some_top)

pub or_above : (w a : ℕ) → a < 2 ^ w → bit_or (2 ^ w + a) (2 ^ w) ≡ 2 ^ w + a
or_above zero zero h = refl
or_above zero (suc a) h = absurd (omega arith)
or_above (suc w) a h =
    let top = pow-suc 2 w in
    let some_top = one-le-pow w 2 in
    let left : (2 ^ suc w + a) / 2 ≡ 2 ^ w + a / 2 = omega (arith, top, some_top) in
    let right : (2 ^ suc w) / 2 ≡ 2 ^ w = omega (arith, top, some_top) in
    let rest = ap₂ bit_or left right ∙ or_above w (a / 2) (omega (arith, top)) in
    omega (arith, bit_or_step (2 ^ suc w + a) (2 ^ suc w), rest, top, some_top)

-- `&` finds it.
pub bit_below : (w a : ℕ) → a < 2 ^ w → bit_and (a) (2 ^ w) ≡ 0
bit_below zero zero h = refl
bit_below zero (suc a) h = absurd (omega arith)
bit_below (suc w) a h =
    let top = pow-suc 2 w in
    let some_top = one-le-pow w 2 in
    let left : (a) / 2 ≡ a / 2 = omega (arith, top, some_top) in
    let right : (2 ^ suc w) / 2 ≡ 2 ^ w = omega (arith, top, some_top) in
    let rest = ap₂ bit_and left right ∙ bit_below w (a / 2) (omega (arith, top)) in
    omega (arith, bit_and_step (a) (2 ^ suc w), rest, top, some_top)

pub bit_above : (w a : ℕ) → a < 2 ^ w → bit_and (2 ^ w + a) (2 ^ w) ≡ 2 ^ w
bit_above zero zero h = refl
bit_above zero (suc a) h = absurd (omega arith)
bit_above (suc w) a h =
    let top = pow-suc 2 w in
    let some_top = one-le-pow w 2 in
    let left : (2 ^ suc w + a) / 2 ≡ 2 ^ w + a / 2 = omega (arith, top, some_top) in
    let right : (2 ^ suc w) / 2 ≡ 2 ^ w = omega (arith, top, some_top) in
    let rest = ap₂ bit_and left right ∙ bit_above w (a / 2) (omega (arith, top)) in
    omega (arith, bit_and_step (2 ^ suc w + a) (2 ^ suc w), rest, top, some_top)
