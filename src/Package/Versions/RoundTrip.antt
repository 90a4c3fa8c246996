-- ===== src/Package/Versions/RoundTrip.antt =====
-- src/package.rs: a version is read back from what is printed for it.
use kademlia_packet_manager.Prelude.{
  ℕ, zero, suc, ◌+◌, ◌-◌, ◌*◌, ◌/◌, ◌%◌, ◌^◌, ◌<◌, ◌≡◌, ◌∙◌, refl, ap, Bool, true, false, ◌&&◌,
  some, [], ◌∷◌, ◌++◌, not, ◌==◌, arith, dec_lt, Option-cases, inl, inr, subst, ◌↔◌,
}
use native.Mathlib.Nat.{pow-suc}
use kademlia_packet_manager.Package.{Str, Version}
use kademlia_packet_manager.Package.Versions.{
  dot, is_digit, split, parse_digits, parse_unsigned, parse_u32, from_parts, from_str, digits,
  show_u32, fmt, digit_zero,
}

starts_digit : Str → Bool
starts_digit [] = false
starts_digit (c ∷ s) = is_digit c

no_dots : Str → Bool
no_dots [] = true
no_dots (c ∷ s) = not (c == dot) && no_dots s

split-part : (p s : Str) → no_dots p ≡ true → split dot (p ++ (dot ∷ s)) ≡ p ∷ split dot s
unfolding split no_dots
split-part [] s h = refl
split-part (c ∷ p) s h = ground (arith, split-part p s)

split-last : (p : Str) → no_dots p ≡ true → split dot p ≡ p ∷ []
unfolding split no_dots
split-last [] h = refl
split-last (c ∷ p) h = ground (arith, split-last p)

digits-starts :
    (fuel n : ℕ) (s : Str) → starts_digit s ≡ true → starts_digit (digits fuel n s) ≡ true
unfolding digits starts_digit is_digit
digits-starts zero n s h = h
digits-starts (suc fuel) n s h = ground (arith, digits-starts fuel (n / 10) ((48 + n % 10) ∷ s))

digits-no_dots : (fuel n : ℕ) (s : Str) → no_dots s ≡ true → no_dots (digits fuel n s) ≡ true
unfolding digits no_dots
digits-no_dots zero n s h = h
digits-no_dots (suc fuel) n s h = ground (arith, digits-no_dots fuel (n / 10) ((48 + n % 10) ∷ s))

parse_digits-digit :
    (n d : ℕ) (s : Str)
    → d < 10
    → n * 10 + d < 2 ^ 32
    → parse_digits n ((48 + d) ∷ s) ≡ parse_digits (n * 10 + d) s
unfolding parse_digits is_digit
parse_digits-digit n d s p q =
    let same : n * 10 + (48 + d - 48) ≡ n * 10 + d = omega arith in
    let is_one : is_digit (48 + d) ≡ true = ground arith in rw (same, is_one) (ground (arith, q))

parse_digits-digits :
    (fuel n : ℕ) (s : Str)
    → n < 10 ^ fuel
    → n < 2 ^ 32
    → parse_digits 0 (digits fuel n s) ≡ parse_digits n s
unfolding digits
parse_digits-digits zero n s p q = ap (λ z. parse_digits z s) (omega (arith, p))
parse_digits-digits (suc fuel) n s p q = elim (dec_lt n 10) [
  | yes small ↦
      let here : digits (suc fuel) n s ≡ (48 + n) ∷ s = ground (arith, small) in
      let same : 0 * 10 + n ≡ n = omega arith in
      rw here (parse_digits-digit 0 n s small (omega (arith, q)) ∙ ap (λ z. parse_digits z s) same)
  | no large ↦
      let there : digits (suc fuel) n s ≡ digits fuel (n / 10) ((48 + n % 10) ∷ s) =
        ground (arith, large) in
      let whole : n / 10 * 10 + n % 10 ≡ n = omega arith in
      let fits : n / 10 * 10 + n % 10 < 2 ^ 32 = omega (arith, whole, q) in
      rw there (
        parse_digits-digits fuel (n / 10) ((48 + n % 10) ∷ s) (omega (arith, p, pow-suc 10 fuel))
          (omega (arith, q))
        ∙ parse_digits-digit (n / 10) (n % 10) s (omega arith) fits
        ∙ ap (λ z. parse_digits z s) whole)
]

parse_u32-starts : (s : Str) → starts_digit s ≡ true → parse_u32 s ≡ parse_digits 0 s
unfolding parse_u32 parse_unsigned starts_digit is_digit
parse_u32-starts [] h = cc
parse_u32-starts (c ∷ s) h = ground arith

digits-suc-starts : (fuel n : ℕ) → starts_digit (digits (suc fuel) n []) ≡ true
unfolding digits starts_digit is_digit
digits-suc-starts fuel n = elim (dec_lt n 10) [
  | yes small ↦ ground (arith, small)
  | no large ↦
      let rest = digits-starts fuel (n / 10) ((48 + n % 10) ∷ []) (ground arith) in
      ground (arith, large, rest)
]

show_u32-starts : (n : ℕ) → starts_digit (show_u32 n) ≡ true
unfolding show_u32
show_u32-starts n = digits-suc-starts 9 n

parse_u32-show_u32 : (n : ℕ) → n < 2 ^ 32 → parse_u32 (show_u32 n) ≡ some n
parse_u32-show_u32 n h =
    parse_u32-starts (show_u32 n) (show_u32-starts n)
    ∙ unfold show_u32 parse_digits in parse_digits-digits 10 n [] (omega (arith, h)) h

show_u32-no_dots : (n : ℕ) → no_dots (show_u32 n) ≡ true
unfolding show_u32 no_dots
show_u32-no_dots n = digits-no_dots 10 n [] refl

-- The numbers of a version fit in 32 bits.
pub record IsU32s (v : Version) : Type 0 where
  pub major_fits : v.major < 2 ^ 32
  pub minor_fits : v.minor < 2 ^ 32
  pub patch_fits : v.patch < 2 ^ 32

split-fmt :
    (v : Version) → split dot (fmt v) ≡ show_u32 v.major ∷ show_u32 v.minor ∷ show_u32 v.patch ∷ []
unfolding fmt
split-fmt v =
    split-part (show_u32 v.major) (show_u32 v.minor ++ (dot ∷ show_u32 v.patch))
      (show_u32-no_dots v.major)
    ∙ ap (λ ps. show_u32 v.major ∷ ps)
        (split-part (show_u32 v.minor) (show_u32 v.patch) (show_u32-no_dots v.minor)
          ∙ ap (λ ps. show_u32 v.minor ∷ ps)
              (split-last (show_u32 v.patch) (show_u32-no_dots v.patch)))

-- What is read fits in 32 bits.
parse_digits-lt : (n m : ℕ) (s : Str) → n < 2 ^ 32 → parse_digits n s ≡ some m → m < 2 ^ 32
unfolding parse_digits
parse_digits-lt n m [] h e = let same : n ≡ m = cc e in omega (arith, same, h)
parse_digits-lt n m (c ∷ s) h e = ground (arith, e, parse_digits-lt (n * 10 + (c - digit_zero)) m s)

parse_unsigned-lt : (m : ℕ) (s : Str) → parse_unsigned s ≡ some m → m < 2 ^ 32
unfolding parse_unsigned
parse_unsigned-lt m [] e = cc
parse_unsigned-lt m (c ∷ s) e = parse_digits-lt 0 m (c ∷ s) (omega arith) e

parse_u32-lt : (m : ℕ) (s : Str) → parse_u32 s ≡ some m → m < 2 ^ 32
unfolding parse_u32
parse_u32-lt m [] e = cc
parse_u32-lt m (c ∷ s) e = ground (arith, e, parse_unsigned-lt m s, parse_unsigned-lt m (c ∷ s))

from_parts-IsU32s : (a b c : Str) (v : Version) → from_parts (a ∷ b ∷ c ∷ []) ≡ some v → IsU32s v
unfolding from_parts
from_parts-IsU32s a b c v e = elim (Option-cases (parse_u32 a)) [
  | inl x ↦ cc (rw x at e)
  | inr (i, x) ↦ elim (Option-cases (parse_u32 b)) [
    | inl y ↦ cc (rw (x, y) at e)
    | inr (j, y) ↦ elim (Option-cases (parse_u32 c)) [
      | inl z ↦ cc (rw (x, y, z) at e)
      | inr (k, z) ↦
          let made : some (record { major = i; minor = j; patch = k }) ≡ some v =
            rw (x, y, z) at e in
          let same : record { major = i; minor = j; patch = k } ≡ v = cc made in
          subst IsU32s same (record {
            major_fits = parse_u32-lt i a x;
            minor_fits = parse_u32-lt j b y;
            patch_fits = parse_u32-lt k c z;
          })
    ]
  ]
]

printed : (v : Version) → IsU32s v → from_str (fmt v) ≡ some v
unfolding from_str from_parts
printed v h =
    rw
      (
        split-fmt,
        parse_u32-show_u32 v.major h.major_fits,
        parse_u32-show_u32 v.minor h.minor_fits,
        parse_u32-show_u32 v.patch h.patch_fits,
      )
      refl

-- A version is read back from what is printed for it exactly if its numbers fit in 32 bits.
pub from_str-fmt : (v : Version) → (from_str (fmt v) ≡ some v) ↔ IsU32s v
unfolding from_str
from_str-fmt v = (
  λ e.
      from_parts-IsU32s (show_u32 v.major) (show_u32 v.minor) (show_u32 v.patch) v
        (rw split-fmt at e),
  printed v,
)
