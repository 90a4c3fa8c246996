-- ===== src/RpcTransport.antt =====
-- src/rpc_transport.rs: the ids of requests and replies, and how they stand on the wire.
pub mod RetryTransport
use kademlia_packet_manager.Prelude.{
  ℕ, zero, suc, ◌+◌, ◌-◌, ◌*◌, ◌/◌, ◌%◌, ◌^◌, ◌≤◌, ◌<◌, ◌≡◌, ◌≢◌, ◌∙◌, refl, sym, ap, Bool, true,
  false, not, List, [], ◌∷◌, ◌++◌, ◌==◌, bit_and, bit_or, length, arith, length-append, dec_lt,
  subst, min,
}
use native.Mathlib.Nat.{pow-suc}
use kademlia_packet_manager.Prelude.Masks.{
  and_below, and_above, or_below, or_above, bit_below, bit_above,
}
use kademlia_packet_manager.CloseNodes.Numeric.{value}

-- `1 << 63`
abbrev pub reply_tag : ℕ
reply_tag = 2 ^ 63

-- `size_of::<u64>()`
abbrev pub id_len : ℕ
id_len = 8

-- `!REPLY_TAG` is the mask of the low 63 bits.
unfoldable pub request_id : ℕ → ℕ
request_id id = bit_and id (2 ^ 63 - 1)

unfoldable pub reply_id : ℕ → ℕ
reply_id id = bit_or id reply_tag

unfoldable pub is_reply : ℕ → Bool
is_reply id = not (bit_and id reply_tag == 0)

-- `to_be_bytes`, for a number of so many bytes.
unfoldable pub be_bytes : ℕ → ℕ → List ℕ
be_bytes zero n = []
be_bytes (suc width) n = be_bytes width (n / 256) ++ n % 256 ∷ []

-- `u64::to_be_bytes` and `u64::from_be_bytes`
unfoldable pub to_be_bytes : ℕ → List ℕ
unfolding be_bytes
to_be_bytes id = be_bytes id_len id

unfoldable pub from_be_bytes : List ℕ → ℕ
unfolding value
from_be_bytes bytes = value bytes

value-append : (xs : List ℕ) (b : ℕ) → value (xs ++ b ∷ []) ≡ value xs * 256 + b
unfolding value
value-append [] b = omega arith
value-append (x ∷ xs) b =
    let longer : length (xs ++ b ∷ []) ≡ suc (length xs) =
      omega (arith, length-append xs (b ∷ [])) in
    rw (value-append xs b, longer, pow-suc 256 (length xs)) (grind arith)

pub length-be_bytes : (width n : ℕ) → length (be_bytes width n) ≡ width
unfolding be_bytes
length-be_bytes zero n = refl
length-be_bytes (suc width) n = omega (
  arith,
  length-be_bytes width (n / 256),
  length-append (be_bytes width (n / 256)) (n % 256 ∷ []),
)

value-be_bytes : (width n : ℕ) → n < 256 ^ width → value (be_bytes width n) ≡ n
unfolding be_bytes value
value-be_bytes zero n h = omega (arith, h)
value-be_bytes (suc width) n h = omega (
  arith,
  value-append (be_bytes width (n / 256)) (n % 256),
  value-be_bytes width (n / 256) (omega (arith, pow-suc 256 width)),
)

-- A `u64` is read from its bytes as it was written.
pub from_be_bytes-to_be_bytes : (id : ℕ) → id < 2 ^ 64 → from_be_bytes (to_be_bytes id) ≡ id
unfolding from_be_bytes to_be_bytes
from_be_bytes-to_be_bytes id h = value-be_bytes id_len id (omega (arith, h))

-- What the tag of an id tells.
pub record IsTagged (id : ℕ) : Type 0 where
  pub reply : is_reply (reply_id id) ≡ true
  pub request : is_reply (request_id id) ≡ false
  pub back : request_id (reply_id id) ≡ request_id id
  pub kept : request_id id ≡ id % reply_tag
  pub request_small : request_id id < reply_tag
  pub reply_small : reply_id id < 2 ^ 64

low_IsTagged : (id : ℕ) → id < reply_tag → IsTagged id
unfolding request_id reply_id is_reply
low_IsTagged id h =
    let low = and_below 63 id h in
    let high = or_below 63 id h in
    record {
      reply = rw (high, bit_above 63 id h) refl;
      request = rw (low, bit_below 63 id h) refl;
      back = rw (high, and_above 63 id h, low) refl;
      kept = omega (arith, low, h);
      request_small = rw low h;
      reply_small = rw high (omega (arith, h));
    }

high_IsTagged : (id : ℕ) → id < reply_tag → IsTagged (2 ^ 63 + id)
unfolding request_id reply_id is_reply
high_IsTagged id h =
    let low = and_above 63 id h in
    let high = or_above 63 id h in
    record {
      reply = rw (high, bit_above 63 id h) refl;
      request = rw (low, bit_below 63 id h) refl;
      back = rw high refl;
      kept = omega (arith, low, h);
      request_small = rw low h;
      reply_small = rw high (omega (arith, h));
    }

-- For every `u64`: the id of a reply is told from that of a request by its tag, whatever the id it was
-- made of; the number of the request is found again in the id of its reply, and is the lower 63 bits. So no reply is taken for a request, nor a request for a reply.
pub ids-IsTagged : (id : ℕ) → id < 2 ^ 64 → IsTagged id
ids-IsTagged id h = elim (dec_lt id reply_tag) [
  | yes low ↦ low_IsTagged id low
  | no high ↦
      let split : 2 ^ 63 + (id - 2 ^ 63) ≡ id = omega (arith, high) in
      subst IsTagged split (high_IsTagged (id - 2 ^ 63) (omega (arith, h, high)))
]
