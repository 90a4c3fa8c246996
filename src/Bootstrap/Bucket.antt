-- ===== src/Bootstrap/Bucket.antt =====
-- src/bootstrap.rs: the ids that `random_id_in_bucket` draws for a bucket.
use kademlia_packet_manager.Prelude.{
  ℕ, zero, suc, ◌+◌, ◌*◌, ◌/◌, ◌%◌, ◌^◌, ◌<◌, ◌≡◌, ◌≢◌, ◌∙◌, refl, ap, ap₂, sym, List, [], ◌∷◌,
  ◌++◌, Bool, true, ◌==◌, ◌&&◌, All, arith, length, drop, replicate, set, get_or, bit_and, bit_or,
  ℕ_discrete,
}
use kademlia_packet_manager.CloseNodes.{
  NodeId, IsId, IsByte, id_bytes, xor_distance, zip_xor, byte_leading_zeros, leading_zeros_from,
  leading_zeros,
}
use kademlia_packet_manager.Prelude.Bits.{bit_xor_back}
use kademlia_packet_manager.CloseNodes.Distance.{xor_distance-zip_xor_sized}
use kademlia_packet_manager.Bootstrap.{distance_in_bucket, random_id_in_bucket}

-- The byte that `bucket % 8` and the drawn byte give.
marked : ℕ → ℕ → ℕ
marked r byte = bit_or (bit_and byte (255 / 2 ^ r)) (128 / 2 ^ r)

has_zeros : ℕ → ℕ → Bool
unfolding marked byte_leading_zeros
has_zeros r byte = byte_leading_zeros (marked r byte) == r

-- A test of every number below a bound.
all_below : (ℕ → Bool) → ℕ → Bool
all_below test zero = true
all_below test (suc n) = test n && all_below test n

all_below-holds : (test : ℕ → Bool) (n i : ℕ) → all_below test n ≡ true → i < n → test i ≡ true
unfolding all_below
all_below-holds test zero i h p = absurd (omega arith)
all_below-holds test (suc n) i h p = elim (ℕ_discrete i n) [
  | yes same ↦ rw same (ground (arith, h))
  | no other ↦ all_below-holds test n i (ground (arith, h)) (omega (arith, other))
]

every_byte : all_below (λ r. all_below (has_zeros r) 256) 8 ≡ true
unfolding all_below has_zeros
every_byte = refl

marked_lem : (r byte : ℕ) → r < 8 → byte < 256 → byte_leading_zeros (marked r byte) ≡ r
unfolding has_zeros
marked_lem r byte p q =
    let row = all_below-holds (λ r. all_below (has_zeros r) 256) 8 r every_byte p in
    let cell : has_zeros r byte ≡ true = all_below-holds (has_zeros r) 256 byte row q in
    ground (arith, cell)

marked-nonzero : (r byte : ℕ) → r < 8 → byte_leading_zeros (marked r byte) ≡ r → marked r byte ≢ 0
unfolding byte_leading_zeros
marked-nonzero r byte p e = λ zero_byte. absurd (ground (arith, ap byte_leading_zeros zero_byte, e))

leading_zeros_from-set :
    (q z v : ℕ) (d : List ℕ)
    → q < length d
    → v ≢ 0
    → leading_zeros_from z (set (replicate q 0 ++ drop q d) q v) ≡ z + 8 * q + byte_leading_zeros v
unfolding leading_zeros_from
leading_zeros_from-set q z v [] p n = absurd (omega arith)
leading_zeros_from-set zero z v (x ∷ xs) p n = ground (arith, n)
leading_zeros_from-set (suc q) z v (x ∷ xs) p n =
    omega (arith, leading_zeros_from-set q (z + 8) v xs (omega arith) n)

get_or-cleared :
    (q : ℕ) (d : List ℕ)
    → q < length d
    → All IsByte d
    → get_or (replicate q 0 ++ drop q d) q 0 < 256
get_or-cleared q [] p h = absurd (omega arith)
get_or-cleared zero (x ∷ xs) p h = h.0
get_or-cleared (suc q) (x ∷ xs) p h = get_or-cleared q xs (omega arith) h.1

length-cleared :
    (q v : ℕ) (d : List ℕ) → q < length d → length (set (replicate q 0 ++ drop q d) q v) ≡ length d
length-cleared q v [] p = absurd (omega arith)
length-cleared zero v (x ∷ xs) p = refl
length-cleared (suc q) v (x ∷ xs) p = ap suc (length-cleared q v xs (omega arith))

zip_xor_back : (m d : List ℕ) → length m ≡ length d → zip_xor (zip_xor m d) m ≡ d
unfolding zip_xor
zip_xor_back [] [] p = refl
zip_xor_back (x ∷ xs) (y ∷ ys) p = ap₂ ◌∷◌ (bit_xor_back x y) (zip_xor_back xs ys (omega arith))
zip_xor_back [] (y ∷ ys) p = absurd (omega arith)
zip_xor_back (x ∷ xs) [] p = absurd (omega arith)

length-zip_xor : (m d : List ℕ) → length m ≡ length d → length (zip_xor m d) ≡ length m
unfolding zip_xor
length-zip_xor [] [] p = refl
length-zip_xor (x ∷ xs) (y ∷ ys) p = ap suc (length-zip_xor xs ys (omega arith))
length-zip_xor [] (y ∷ ys) p = absurd (omega arith)
length-zip_xor (x ∷ xs) [] p = absurd (omega arith)

-- The distance of an id by a distance is that distance.
xor_distance_back :
    (m d : NodeId)
    → length m ≡ id_bytes
    → length d ≡ id_bytes
    → xor_distance (xor_distance m d) m ≡ d
xor_distance_back m d p q =
    let same = p ∙ sym q in
    let once = xor_distance-zip_xor_sized m d p q in
    rw once (
      xor_distance-zip_xor_sized (zip_xor m d) m (length-zip_xor m d same ∙ p) p
      ∙ zip_xor_back m d same)

module _ (distance : NodeId) (bucket : ℕ) (drawn : IsId distance) (below : bucket < 256) where
  byte_there : bucket / 8 < length distance
  byte_there = omega (arith, drawn.size, below)

  length-distance_in_bucket : length (distance_in_bucket distance bucket) ≡ id_bytes
  unfolding distance_in_bucket
  length-distance_in_bucket = length-cleared (bucket / 8) _ distance byte_there ∙ drawn.size

  leading_zeros-distance_in_bucket : leading_zeros (distance_in_bucket distance bucket) ≡ bucket
  unfolding distance_in_bucket marked leading_zeros
  leading_zeros-distance_in_bucket =
      let byte = get_or (replicate (bucket / 8) 0 ++ drop (bucket / 8) distance) (bucket / 8) 0 in
      let zeros : byte_leading_zeros (marked (bucket % 8) byte) ≡ bucket % 8 =
        marked_lem (bucket % 8) byte (omega arith)
          (get_or-cleared (bucket / 8) distance byte_there drawn.bytes) in
      let counted =
        leading_zeros_from-set (bucket / 8) 0 (marked (bucket % 8) byte) distance byte_there
          (marked-nonzero (bucket % 8) byte (omega arith) zeros) in
      counted ∙ ap (λ n. 0 + 8 * (bucket / 8) + n) zeros ∙ omega arith

-- Between ids of 32 bytes, whatever the node draws: the id for a bucket below 256 shares with its
-- own exactly so many leading bits.
pub leading_zeros-random_id_in_bucket :
    (my_id distance : NodeId) (bucket : ℕ)
    → IsId my_id
    → IsId distance
    → bucket < 256
    → leading_zeros (xor_distance (random_id_in_bucket my_id bucket distance) my_id) ≡ bucket
unfolding random_id_in_bucket
leading_zeros-random_id_in_bucket my_id distance bucket mine drawn below =
    ap leading_zeros (
      xor_distance_back my_id (distance_in_bucket distance bucket) mine.size
        (length-distance_in_bucket distance bucket drawn below))
    ∙ leading_zeros-distance_in_bucket distance bucket drawn below
