-- ===== src/Package/Versions.antt =====
-- src/package.rs: how a version is read (`FromStr`) and printed (`Display`). What `str::split` and
-- `u32::from_str` do is written out as Rust documents it: an optional `+`, then at least one digit,
-- and an error past 32 bits. A text is its code points.
pub mod RoundTrip
use kademlia_packet_manager.Prelude.{
  ℕ, zero, suc, ◌+◌, ◌-◌, ◌*◌, ◌/◌, ◌%◌, ◌^◌, Bool, true, false, ◌&&◌, Option, none, some, List, [],
  ◌∷◌, ◌++◌, leb, ltb, ◌==◌, if◌then◌else◌,
}
use kademlia_packet_manager.Package.{Str, Version}

-- "."
abbrev pub dot : ℕ
dot = 46

-- "+"
abbrev plus : ℕ
plus = 43

-- "0"
abbrev pub digit_zero : ℕ
digit_zero = 48

unfoldable pub is_digit : ℕ → Bool
is_digit c = leb digit_zero c && leb c 57

-- `char` in front of the first part.
unfoldable pub in_first : ℕ → List Str → List Str
in_first c [] = (c ∷ []) ∷ []
in_first c (part ∷ parts) = (c ∷ part) ∷ parts

-- `str::split`
unfoldable pub split : ℕ → Str → List Str
unfolding in_first
split sep [] = [] ∷ []
split sep (c ∷ s) = let parts = split sep s in if c == sep then [] ∷ parts else in_first c parts

-- The digits of a `u32`, behind those that were read.
unfoldable pub parse_digits : ℕ → Str → Option ℕ
unfolding is_digit
parse_digits n [] = some n
parse_digits n (c ∷ s) =
    let m = n * 10 + (c - digit_zero) in
    if is_digit c && ltb m (2 ^ 32) then parse_digits m s else none

-- At least one digit.
unfoldable pub parse_unsigned : Str → Option ℕ
unfolding parse_digits
parse_unsigned [] = none
parse_unsigned (c ∷ s) = parse_digits 0 (c ∷ s)

-- `str::parse::<u32>`
unfoldable pub parse_u32 : Str → Option ℕ
unfolding parse_unsigned
parse_u32 [] = none
parse_u32 (c ∷ s) = if c == plus then parse_unsigned s else parse_unsigned (c ∷ s)

-- `?` on what may have failed.
infixl 10 ◌>>=◌
abbrev pub ◌>>=◌ : {A B : Type 0} → Option A → (A → Option B) → Option B
none >>= f = none
some a >>= f = f a

-- Three parts and no more.
unfoldable pub from_parts : List Str → Option Version
unfolding parse_u32
from_parts (major ∷ minor ∷ patch ∷ []) = do
  a ← parse_u32 major
  b ← parse_u32 minor
  c ← parse_u32 patch
  some (record { major = a; minor = b; patch = c })
from_parts _ = none

-- `Version::from_str`
unfoldable pub from_str : Str → Option Version
unfolding split from_parts
from_str s = from_parts (split dot s)

-- The decimal digits of a number, in front of a text. A `u32` has ten at most: the fuel.
unfoldable pub digits : ℕ → ℕ → Str → Str
digits zero n s = s
digits (suc fuel) n s =
    let more = digits fuel (n / 10) ((digit_zero + n % 10) ∷ s) in
    if ltb n 10 then (digit_zero + n) ∷ s else more

unfoldable pub show_u32 : ℕ → Str
unfolding digits
show_u32 n = digits 10 n []

-- `Version::fmt`
unfoldable pub fmt : Version → Str
unfolding show_u32
fmt v = show_u32 v.major ++ (dot ∷ (show_u32 v.minor ++ (dot ∷ show_u32 v.patch)))
