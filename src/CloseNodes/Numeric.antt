-- ===== src/CloseNodes/Numeric.antt =====
-- Ids as big-endian numbers: the comparison by distance is the order of the distances as numbers.
use kademlia_packet_manager.Prelude.{
  ℕ, suc, ◌+◌, ◌*◌, ◌^◌, ◌<◌, ◌≡◌, refl, sym, ap, ◌∙◌, List, [], ◌∷◌, compare, Ordering, arith,
  length, All,
}
use native.Mathlib.Nat.{pow-suc, one-le-pow}
use kademlia_packet_manager.Prelude.Bits.{bit_xor-lt}
use kademlia_packet_manager.CloseNodes.{
  NodeId, IsId, IsByte, xor_distance, zip_xor, lex_cmp, xor_distance_cmp,
}
use kademlia_packet_manager.CloseNodes.Distance.{xor_distance-zip_xor}

-- The number that a string of bytes stands for, the first byte the most significant.
unfoldable pub value : List ℕ → ℕ
value [] = 0
value (b ∷ bs) = b * 256 ^ length bs + value bs

pub value-lt : (bs : List ℕ) → All IsByte bs → value bs < 256 ^ length bs
unfolding value
value-lt [] h = omega arith
value-lt (b ∷ bs) h =
    grind (arith, pow-suc 256 (length bs), value-lt bs h.1, one-le-pow (length bs) 256)

digit_lt : (x y p a b : ℕ) → x < y → a < p → x * p + a < y * p + b
digit_lt x y p a b h k = grind arith

compare_digits :
    (x y p a b : ℕ) (rest : Ordering)
    → a < p
    → b < p
    → rest ≡ compare a b
    → (elim (compare x y) [
      | Ordering.lt ↦ Ordering.lt
      | Ordering.eq ↦ rest
      | Ordering.gt ↦ Ordering.gt
    ])
      ≡ compare (x * p + a) (y * p + b)
compare_digits x y p a b rest h k e =
    ground (arith, digit_lt x y p a b, digit_lt y x p b a, λ (m : x ≡ y). ap (λ (t : ℕ). t * p) m)

-- On strings of one length, the lexicographic order is the order of the numbers.
pub lex_cmp-value :
    (xs ys : List ℕ)
    → All IsByte xs
    → All IsByte ys
    → length xs ≡ length ys
    → lex_cmp xs ys ≡ compare (value xs) (value ys)
unfolding lex_cmp value
lex_cmp-value [] [] p q e = refl
lex_cmp-value [] (y ∷ ys) p q e = absurd (omega arith)
lex_cmp-value (x ∷ xs) [] p q e = absurd (omega arith)
lex_cmp-value (x ∷ xs) (y ∷ ys) p q e =
    let same : length xs ≡ length ys = omega arith in
    rw same (
      compare_digits x y (256 ^ length ys) (value xs) (value ys) (lex_cmp xs ys)
        (rw same at (value-lt xs p.1)) (value-lt ys q.1) (lex_cmp-value xs ys p.1 q.1 same))

zip_xor-IsByte : (a t : List ℕ) → All IsByte a → All IsByte t → All IsByte (zip_xor a t)
unfolding zip_xor
zip_xor-IsByte [] t p q = tt
zip_xor-IsByte (x ∷ xs) [] p q = tt
zip_xor-IsByte (x ∷ xs) (y ∷ ys) p q = (bit_xor-lt 8 x y p.0 q.0, zip_xor-IsByte xs ys p.1 q.1)

length-zip_xor : (a t : List ℕ) → length a ≡ length t → length (zip_xor a t) ≡ length t
unfolding zip_xor
length-zip_xor [] [] e = refl
length-zip_xor [] (y ∷ ys) e = e
length-zip_xor (x ∷ xs) [] e = refl
length-zip_xor (x ∷ xs) (y ∷ ys) e = ap suc (length-zip_xor xs ys (omega arith))

-- A distance is an id again.
pub xor_distance-IsId : (a t : NodeId) → IsId a → IsId t → IsId (xor_distance a t)
xor_distance-IsId a t p q = rw (xor_distance-zip_xor a t p q) (record {
  bytes = zip_xor-IsByte a t p.bytes q.bytes;
  size = length-zip_xor a t (p.size ∙ sym q.size) ∙ q.size;
})

-- Comparing two ids by their distance to a target, byte by byte and without computing the
-- distances, is comparing the two distances as big-endian numbers.
pub xor_distance_cmp-value :
    (a b target : NodeId)
    → IsId a
    → IsId b
    → IsId target
    → xor_distance_cmp a b target
      ≡ compare (value (xor_distance a target)) (value (xor_distance b target))
unfolding xor_distance_cmp
xor_distance_cmp-value a b target p q r =
    rw (xor_distance-zip_xor a target p r, xor_distance-zip_xor b target q r)
      (lex_cmp-value (zip_xor a target) (zip_xor b target) (zip_xor-IsByte a target p.bytes r.bytes)
        (zip_xor-IsByte b target q.bytes r.bytes)
        (length-zip_xor a target (p.size ∙ sym r.size)
          ∙ sym (length-zip_xor b target (q.size ∙ sym r.size))))
