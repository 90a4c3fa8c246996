-- ===== src/CloseNodes.antt =====
-- src/close_nodes.rs: node ids, contacts, the XOR metric, and the trait that the layers of the
-- routing table implement.
pub mod Distance
pub mod Numeric
pub mod Contacts
pub mod Nearest
pub mod Contract
pub mod StaticBucket
pub mod SiblingList
pub mod LeadingZeros
pub mod DumbBucket
pub mod Cache
pub mod Recommended
use kademlia_packet_manager.Prelude.{
  ℕ, zero, suc, ◌+◌, ◌-◌, ◌*◌, ◌/◌, ◌<◌, ◌≡◌, ◌≢◌, refl, ite, Bool, true, false, List, [], ◌∷◌, ltb,
  ◌==◌, if◌then◌else◌, bit_xor, compare, Ordering, length, get_or, All, ℕ_discrete, list_discrete,
}

-- The number of bits of the key space.
abbrev pub b_bits : ℕ
b_bits = 256

abbrev pub id_bytes : ℕ
id_bytes = b_bits / 8

-- `[u8; ID_BYTES]`. The length and the range of the bytes are stated by `IsId`.
abbrev pub NodeId : Type 0
NodeId = List ℕ

abbrev pub Key : Type 0
Key = NodeId

abbrev pub IsByte : ℕ → Type 0
IsByte b = b < 256

pub record IsId (id : NodeId) : Type 0 where
  pub bytes : All IsByte id
  pub size : length id ≡ id_bytes

-- `std::net::SocketAddr`: a number for the address, and a port.
pub record SocketAddr : Type 0 where
  pub ip : ℕ
  pub port : ℕ

pub record Contact : Type 0 where
  pub id : NodeId
  pub address : SocketAddr

unfoldable pub id_discrete : Discrete NodeId
unfolding list_discrete ℕ_discrete
id_discrete = list_discrete ℕ_discrete

unfoldable pub addr_discrete : Discrete SocketAddr
unfolding ℕ_discrete
addr_discrete a b = elim (ℕ_discrete a.ip b.ip) [
  | no n ↦ no (λ e. n (cc e))
  | yes p ↦ elim (ℕ_discrete a.port b.port) [
    | no n ↦ no (λ e. n (cc e))
    | yes q ↦ yes (λ i. record { ip = p i; port = q i })
  ]
]

-- The derived `PartialEq`.
unfoldable pub contact_discrete : Discrete Contact
unfolding id_discrete addr_discrete
contact_discrete a b = elim (id_discrete a.id b.id) [
  | no n ↦ no (λ e. n (cc e))
  | yes p ↦ elim (addr_discrete a.address b.address) [
    | no n ↦ no (λ e. n (cc e))
    | yes q ↦ yes (λ i. record { id = p i; address = q i })
  ]
]

-- How many contacts a lookup returns.
abbrev pub k : ℕ
k = 10

-- `std::array::from_fn`: `n` elements from index `i` on.
unfoldable pub from_fn : ℕ → ℕ → (ℕ → ℕ) → List ℕ
from_fn i zero f = []
from_fn i (suc n) f = f i ∷ from_fn (suc i) n f

unfoldable pub xor_distance : NodeId → NodeId → NodeId
unfolding from_fn
xor_distance id target = from_fn 0 id_bytes (λ i. bit_xor (get_or id i 0) (get_or target i 0))

-- `a.iter().zip(&target).map(|(x, t)| x ^ t)`
unfoldable pub zip_xor : List ℕ → List ℕ → List ℕ
zip_xor [] ts = []
zip_xor (x ∷ xs) [] = []
zip_xor (x ∷ xs) (t ∷ ts) = bit_xor x t ∷ zip_xor xs ts

-- `Iterator::cmp`: the first pair that differs decides, and then the length.
unfoldable pub lex_cmp : List ℕ → List ℕ → Ordering
lex_cmp [] [] = Ordering.eq
lex_cmp [] (y ∷ ys) = Ordering.lt
lex_cmp (x ∷ xs) [] = Ordering.gt
lex_cmp (x ∷ xs) (y ∷ ys) = elim (compare x y) [
  | Ordering.eq ↦ lex_cmp xs ys
  | Ordering.lt ↦ Ordering.lt
  | Ordering.gt ↦ Ordering.gt
]

unfoldable pub xor_distance_cmp : NodeId → NodeId → NodeId → Ordering
unfolding zip_xor lex_cmp
xor_distance_cmp a b target = lex_cmp (zip_xor a target) (zip_xor b target)

-- `u8::leading_zeros`
unfoldable pub byte_leading_zeros : ℕ → ℕ
byte_leading_zeros b =
    if ltb b 1
    then 8
    else if ltb b 2
    then 7
    else if ltb b 4
    then 6
    else if ltb b 8
    then 5
    else if ltb b 16
    then 4
    else if ltb b 32
    then 3
    else if ltb b 64
    then 2
    else if ltb b 128
    then 1
    else 0

-- The loop over the bytes, with the zeros counted so far.
unfoldable pub leading_zeros_from : ℕ → NodeId → ℕ
unfolding byte_leading_zeros
leading_zeros_from zeros [] = zeros
leading_zeros_from zeros (byte ∷ rest) =
    if byte == 0 then leading_zeros_from (zeros + 8) rest else zeros + byte_leading_zeros byte

unfoldable pub leading_zeros : NodeId → ℕ
unfolding leading_zeros_from
leading_zeros id = leading_zeros_from 0 id

-- The comparison that every `sort_by` of a routing table uses.
abbrev pub by_distance : NodeId → Contact → Contact → Ordering
by_distance target a b = xor_distance_cmp a.id b.id target

-- The trait. A method on `&self` that changes what is behind a lock returns the new state, also
-- `close_nodes`, which a cache answers; its first argument is the reading of the clock.
pub record CloseNodes (S : Type 0) : Type 0 where
  pub close_nodes : ℕ → S → NodeId → S × List Contact
  pub maybe_add_contact : S → Contact → S
  pub remove_contact : S → Contact → S
  pub contacts_iter : S → List Contact
