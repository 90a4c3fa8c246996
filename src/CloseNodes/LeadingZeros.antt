-- ===== src/CloseNodes/LeadingZeros.antt =====
-- What `leading_zeros` counts, in terms of the number that an id stands for.
use kademlia_packet_manager.Prelude.{
  ℕ, zero, suc, ◌+◌, ◌*◌, ◌^◌, ◌≤◌, ◌<◌, ◌≡◌, refl, ap, ◌∙◌, [], ◌∷◌, ◌⊎◌, arith, length, All,
  dec_lt, inl, inr,
}
use native.Mathlib.Nat.{pow-suc, one-le-pow, mul-le-mul_left, mul-le-mul_right, add_comm, add_assoc}
use native.Mathlib.Numerals.{towards_suc}
use kademlia_packet_manager.CloseNodes.{
  NodeId, IsId, IsByte, byte_leading_zeros, leading_zeros_from, leading_zeros, b_bits,
}
use kademlia_packet_manager.CloseNodes.Numeric.{value, value-lt}

byte_leading_zeros_table :
    (b : ℕ)
    → 0 < b
    → b < 256
    → ((b + 1) * 2 ^ byte_leading_zeros b ≤ 256)
      × (256 ≤ b * 2 ^ (byte_leading_zeros b + 1))
      × (byte_leading_zeros b < 8)
unfolding byte_leading_zeros
byte_leading_zeros_table b p q = ground arith

leading_zeros_from_add : (z : ℕ) (bs : NodeId) → leading_zeros_from z bs ≡ z + leading_zeros bs
unfolding leading_zeros_from leading_zeros
leading_zeros_from_add z [] = omega arith
leading_zeros_from_add z (b ∷ bs) =
    ground (arith, leading_zeros_from_add (z + 8) bs, leading_zeros_from_add 8 bs)

leading_zeros_zero : (bs : NodeId) → leading_zeros (0 ∷ bs) ≡ 8 + leading_zeros bs
unfolding leading_zeros_from leading_zeros
leading_zeros_zero bs = leading_zeros_from_add 8 bs

leading_zeros-suc : (b : ℕ) (bs : NodeId) → leading_zeros (suc b ∷ bs) ≡ byte_leading_zeros (suc b)
unfolding leading_zeros_from leading_zeros
leading_zeros-suc b bs = ground arith

-- No more zeros than bits.
pub leading_zeros-le : (bs : NodeId) → All IsByte bs → leading_zeros bs ≤ 8 * length bs
leading_zeros-le [] h = unfold leading_zeros leading_zeros_from in omega arith
leading_zeros-le (zero ∷ bs) h = rw leading_zeros_zero (omega (arith, leading_zeros-le bs h.1))
leading_zeros-le (suc b ∷ bs) h =
    rw leading_zeros-suc (omega (arith, byte_leading_zeros_table (suc b) (omega arith) h.0))

digit-lt : (b v w : ℕ) → v < w → suc (b * w + v) ≤ (b + 1) * w
digit-lt b v w h = omega arith

scaled_lt : (b v w p : ℕ) → (b + 1) * p ≤ 256 → v < w → 0 < p → (b * w + v) * p < w * 256
scaled_lt b v w p h below q =
    omega (arith, mul-le-mul_right p (digit-lt b v w below), mul-le-mul_left w h)

scaled_le : (b v w p : ℕ) → 256 ≤ b * p → w * 256 ≤ (b * w + v) * p
scaled_le b v w p h = omega (arith, mul-le-mul_left w h)

two_pow_add_eight : (n : ℕ) → 2 ^ (8 + n) ≡ 256 * 2 ^ n
two_pow_add_eight n = simp (add_comm 8 n, towards_suc, pow-suc) (omega arith)

scaled_eight : (v n : ℕ) → v * 2 ^ (8 + n) ≡ 256 * (v * 2 ^ n)
scaled_eight v n = omega (arith, ap (λ (t : ℕ). v * t) (two_pow_add_eight n))

value-zero : (bs : NodeId) → value (0 ∷ bs) ≡ value bs
unfolding value
value-zero bs = omega arith

-- Shifting the zeros out leaves the number below the modulus.
value-leading_zeros-lt :
    (bs : NodeId) → All IsByte bs → value bs * 2 ^ leading_zeros bs < 256 ^ length bs
unfolding value
value-leading_zeros-lt [] h = unfold leading_zeros leading_zeros_from in omega arith
value-leading_zeros-lt (zero ∷ bs) h =
    rw (leading_zeros_zero, value-zero, pow-suc)
      (omega (arith, scaled_eight (value bs) (leading_zeros bs), value-leading_zeros-lt bs h.1))
value-leading_zeros-lt (suc b ∷ bs) h =
    rw (leading_zeros-suc, pow-suc)
      (scaled_lt (suc b) (value bs) (256 ^ length bs) (2 ^ byte_leading_zeros (suc b))
        (byte_leading_zeros_table (suc b) (omega arith) h.0).0 (value-lt bs h.1)
        (one-le-pow (byte_leading_zeros (suc b)) 2 (omega arith)))

-- One more place and it is not, unless the number is zero.
value-leading_zeros-le :
    (bs : NodeId)
    → All IsByte bs
    → (value bs ≡ 0) ⊎ (256 ^ length bs ≤ value bs * 2 ^ (leading_zeros bs + 1))
unfolding value
value-leading_zeros-le [] h = inl refl
value-leading_zeros-le (zero ∷ bs) h = elim (value-leading_zeros-le bs h.1) [
  | inl e ↦ inl (omega arith)
  | inr le ↦ inr (
      rw (leading_zeros_zero, value-zero, pow-suc, add_assoc 8 (leading_zeros bs) 1)
        (omega (arith, scaled_eight (value bs) (leading_zeros bs + 1))))
]
value-leading_zeros-le (suc b ∷ bs) h = inr (
    rw (leading_zeros-suc, pow-suc)
      (scaled_le (suc b) (value bs) (256 ^ length bs) (2 ^ (byte_leading_zeros (suc b) + 1))
        (byte_leading_zeros_table (suc b) (omega arith) h.0).1))

-- All bits of the number zero are zeros.
leading_zeros_of_zero : (bs : NodeId) → value bs ≡ 0 → leading_zeros bs ≡ 8 * length bs
unfolding value
leading_zeros_of_zero [] e = unfold leading_zeros leading_zeros_from in omega arith
leading_zeros_of_zero (zero ∷ bs) e =
    rw leading_zeros_zero (omega (arith, leading_zeros_of_zero bs (omega arith)))
leading_zeros_of_zero (suc b ∷ bs) e = absurd (omega (arith, one-le-pow (length bs) 256))

leading_zeros-lt :
    (id : NodeId)
    → IsId id
    → 256 ^ length id ≤ value id * 2 ^ (leading_zeros id + 1)
    → leading_zeros id < b_bits
leading_zeros-lt id h le = elim (dec_lt (leading_zeros id) b_bits) [
  | yes p ↦ p
  | no n ↦
      let all : leading_zeros id ≡ b_bits = omega (arith, leading_zeros-le id h.bytes, h.size) in
      absurd (
        omega
          (arith, rw (all, h.size) at (value-leading_zeros-lt id h.bytes), rw (all, h.size) at le))
]

-- `leading_zeros` places an id in the range of its distance: with `z` zeros the number is below
-- 2^(256 - z) and, unless it is zero (and all 256 bits are zeros), at least 2^(255 - z).
pub leading_zeros_bounds :
    (id : NodeId)
    → IsId id
    → (value id * 2 ^ leading_zeros id < 2 ^ b_bits)
      × ((value id ≡ 0) × (leading_zeros id ≡ b_bits)
          ⊎ (2 ^ b_bits ≤ value id * 2 ^ (leading_zeros id + 1)) × (leading_zeros id < b_bits))
leading_zeros_bounds id h = (
  rw h.size at (value-leading_zeros-lt id h.bytes),
  elim (value-leading_zeros-le id h.bytes) [
    | inl e ↦ inl (e, leading_zeros_of_zero id e ∙ ap (λ (n : ℕ). 8 * n) h.size)
    | inr le ↦ inr (rw h.size at le, leading_zeros-lt id h le)
  ],
)
