-- ===== src/CloseNodes/Distance.antt =====
-- The order by distance: a total preorder on contacts, in which only equal ids are level.
use kademlia_packet_manager.Prelude.{
  ℕ, zero, suc, ◌+◌, ◌≡◌, ◌≢◌, refl, sym, ap, ap₂, ◌∙◌, List, [], ◌∷◌, bit_xor, Ordering, arith,
  length, get_or,
}
use kademlia_packet_manager.Prelude.Bits.{bit_xor_inj}
use kademlia_packet_manager.Prelude.Sort.{IsOrder}
use kademlia_packet_manager.CloseNodes.{
  NodeId, IsId, id_bytes, from_fn, xor_distance, zip_xor, lex_cmp, xor_distance_cmp, by_distance,
}

lex_cmp-lt_of_gt : (xs ys : List ℕ) → lex_cmp xs ys ≡ Ordering.gt → lex_cmp ys xs ≡ Ordering.lt
unfolding lex_cmp
lex_cmp-lt_of_gt [] [] e = cc
lex_cmp-lt_of_gt [] (y ∷ ys) e = cc
lex_cmp-lt_of_gt (x ∷ xs) [] e = refl
lex_cmp-lt_of_gt (x ∷ xs) (y ∷ ys) e = ground (arith, lex_cmp-lt_of_gt xs ys)

lex_cmp-gt_of_lt : (xs ys : List ℕ) → lex_cmp xs ys ≡ Ordering.lt → lex_cmp ys xs ≡ Ordering.gt
unfolding lex_cmp
lex_cmp-gt_of_lt [] [] e = cc
lex_cmp-gt_of_lt [] (y ∷ ys) e = refl
lex_cmp-gt_of_lt (x ∷ xs) [] e = cc
lex_cmp-gt_of_lt (x ∷ xs) (y ∷ ys) e = ground (arith, lex_cmp-gt_of_lt xs ys)

lex_cmp-le_trans :
    (xs ys zs : List ℕ)
    → lex_cmp xs ys ≢ Ordering.gt
    → lex_cmp ys zs ≢ Ordering.gt
    → lex_cmp xs zs ≢ Ordering.gt
unfolding lex_cmp
lex_cmp-le_trans [] ys [] p q = λ e. cc
lex_cmp-le_trans [] ys (z ∷ zs) p q = λ e. cc
lex_cmp-le_trans (x ∷ xs) [] zs p q = absurd (p refl)
lex_cmp-le_trans (x ∷ xs) (y ∷ ys) [] p q = absurd (q refl)
lex_cmp-le_trans (x ∷ xs) (y ∷ ys) (z ∷ zs) p q = ground (arith, lex_cmp-le_trans xs ys zs)

pub lex_cmp-eq : (xs ys : List ℕ) → lex_cmp xs ys ≡ Ordering.eq → xs ≡ ys
unfolding lex_cmp
lex_cmp-eq [] [] e = refl
lex_cmp-eq [] (y ∷ ys) e = cc
lex_cmp-eq (x ∷ xs) [] e = cc
lex_cmp-eq (x ∷ xs) (y ∷ ys) e = ground (arith, lex_cmp-eq xs ys)

pub lex_cmp_refl : (xs : List ℕ) → lex_cmp xs xs ≡ Ordering.eq
unfolding lex_cmp
lex_cmp_refl [] = refl
lex_cmp_refl (x ∷ xs) = ground (arith, lex_cmp_refl xs)

pub by_distance-IsOrder : (target : NodeId) → IsOrder (by_distance target)
unfolding xor_distance_cmp
by_distance-IsOrder target = record {
  lt_of_gt = λ a b. lex_cmp-lt_of_gt (zip_xor a.id target) (zip_xor b.id target);
  gt_of_lt = λ a b. lex_cmp-gt_of_lt (zip_xor a.id target) (zip_xor b.id target);
  le_trans =
      λ a b c. lex_cmp-le_trans (zip_xor a.id target) (zip_xor b.id target) (zip_xor c.id target);
}

zip_xor_inj :
    (a b t : List ℕ) → length a ≡ length t → length b ≡ length t → zip_xor a t ≡ zip_xor b t → a ≡ b
unfolding zip_xor
zip_xor_inj [] [] [] p q e = refl
zip_xor_inj (x ∷ xs) (y ∷ ys) (t ∷ ts) p q e =
    ground (arith, bit_xor_inj x y t, zip_xor_inj xs ys ts)
zip_xor_inj a b t p q e = absurd (omega arith)

-- Two ids are at one distance from a target only if they are equal: XOR by the target is
-- injective.
pub xor_distance_cmp-eq :
    (a b target : NodeId)
    → IsId a
    → IsId b
    → IsId target
    → xor_distance_cmp a b target ≡ Ordering.eq
    → a ≡ b
unfolding xor_distance_cmp
xor_distance_cmp-eq a b target p q r e =
    zip_xor_inj a b target (p.size ∙ sym r.size) (q.size ∙ sym r.size)
      (lex_cmp-eq (zip_xor a target) (zip_xor b target) e)

from_fn-zip_xor :
    (i n : ℕ) (a t : List ℕ) (f : ℕ → ℕ)
    → length a ≡ n
    → length t ≡ n
    → ((j : ℕ) → f (i + j) ≡ bit_xor (get_or a j 0) (get_or t j 0))
    → from_fn i n f ≡ zip_xor a t
unfolding from_fn zip_xor
from_fn-zip_xor i zero [] t f p q h = refl
from_fn-zip_xor i (suc n) (x ∷ xs) (t ∷ ts) f p q h = ap₂ ◌∷◌ (ap f (omega arith) ∙ h 0) (
    from_fn-zip_xor (suc i) n xs ts f (omega arith) (omega arith)
      (λ j. ap f (omega arith) ∙ h (suc j)))
from_fn-zip_xor i n a t f p q h = absurd (omega arith)

pub xor_distance-zip_xor_sized :
    (a target : NodeId)
    → length a ≡ id_bytes
    → length target ≡ id_bytes
    → xor_distance a target ≡ zip_xor a target
unfolding xor_distance
xor_distance-zip_xor_sized a target p q =
    from_fn-zip_xor 0 id_bytes a target (λ i. bit_xor (get_or a i 0) (get_or target i 0)) p q
      (λ j. ap (λ i. bit_xor (get_or a i 0) (get_or target i 0)) (omega arith))

-- `xor_distance` reads both ids byte by byte.
pub xor_distance-zip_xor :
    (a target : NodeId) → IsId a → IsId target → xor_distance a target ≡ zip_xor a target
xor_distance-zip_xor a target p q = xor_distance-zip_xor_sized a target p.size q.size

pub xor_distance_cmp_refl : (a target : NodeId) → xor_distance_cmp a a target ≡ Ordering.eq
unfolding xor_distance_cmp
xor_distance_cmp_refl a target = lex_cmp_refl (zip_xor a target)
