-- ===== src/Frames.antt =====
-- src/handle_rpc.rs: the method tags of requests, and the sender's id in front of them.
use kademlia_packet_manager.Prelude.{
  ℕ, ◌≡◌, ◌∙◌, ◌↔◌, refl, sym, ap, subst, true, Option, none, some, List, [], ◌∷◌, ◌++◌, leb, ◌==◌,
  if◌then◌else◌, length, take, drop, length-append, length-take, dec_le, take-length-append,
  drop-length-append, arith, Option-cases, ℕ_discrete, inl, inr, zero, suc,
}
use kademlia_packet_manager.CloseNodes.{NodeId, id_bytes}

abbrev pub node_id_len : ℕ
node_id_len = id_bytes

pub data Method : Type 0 where
  ping : Method
  store : Method
  find_node : Method
  find_value : Method

-- "PING", "STORE", "FIND_NODE", "FIND_VALUE"
abbrev pub tag : Method → List ℕ
tag ping = 80 ∷ 73 ∷ 78 ∷ 71 ∷ []
tag store = 83 ∷ 84 ∷ 79 ∷ 82 ∷ 69 ∷ []
tag find_node = 70 ∷ 73 ∷ 78 ∷ 68 ∷ 95 ∷ 78 ∷ 79 ∷ 68 ∷ 69 ∷ []
tag find_value = 70 ∷ 73 ∷ 78 ∷ 68 ∷ 95 ∷ 86 ∷ 65 ∷ 76 ∷ 85 ∷ 69 ∷ []

-- `Method::ALL`
abbrev pub all_methods : List Method
all_methods = ping ∷ store ∷ find_node ∷ find_value ∷ []

-- `slice::strip_prefix`
unfoldable pub strip_prefix : List ℕ → List ℕ → Option (List ℕ)
strip_prefix xs [] = some xs
strip_prefix [] (p ∷ ps) = none
strip_prefix (x ∷ xs) (p ∷ ps) = if x == p then strip_prefix xs ps else none

-- The first of the methods whose tag the payload starts with, and what follows it.
unfoldable pub find_method : List Method → List ℕ → Option (Method × List ℕ)
unfolding strip_prefix
find_method [] payload = none
find_method (method ∷ methods) payload = elim (strip_prefix payload (tag method)) [
  | some body ↦ some (method, body)
  | none ↦ find_method methods payload
]

unfoldable pub split_tag : List ℕ → Option (Method × List ℕ)
unfolding find_method
split_tag payload = find_method all_methods payload

-- `slice::split_at_checked`
unfoldable pub split_at_checked : List ℕ → ℕ → Option (List ℕ × List ℕ)
split_at_checked payload n =
    if leb n (length payload) then some (take n payload, drop n payload) else none

unfoldable pub parse_framed : List ℕ → Option (NodeId × Method × List ℕ)
unfolding split_at_checked split_tag
parse_framed payload = elim (split_at_checked payload node_id_len) [
  | none ↦ none
  | some parts ↦ elim (split_tag parts.1) [
    | none ↦ none
    | some found ↦ some (parts.0, found.0, found.1)
  ]
]

strip_prefix-append : (xs ps body : List ℕ) → strip_prefix xs ps ≡ some body → xs ≡ ps ++ body
unfolding strip_prefix
strip_prefix-append xs [] body e = cc
strip_prefix-append [] (p ∷ ps) body e = cc
strip_prefix-append (x ∷ xs) (p ∷ ps) body e = elim (ℕ_discrete x p) [
  | yes q ↦ cc (q, strip_prefix-append xs ps body (ground arith))
  | no n ↦ let stops : strip_prefix (x ∷ xs) (p ∷ ps) ≡ none = ground arith in cc (stops, e)
]

find_method-append :
    (methods : List Method) (payload body : List ℕ) (method : Method)
    → find_method methods payload ≡ some (method, body)
    → payload ≡ tag method ++ body
unfolding find_method
find_method-append [] payload body method e = cc
find_method-append (m ∷ ms) payload body method e =
    elim (Option-cases (strip_prefix payload (tag m))) [
      | inl absent ↦ find_method-append ms payload body method (rw (absent, find_method) at e)
      | inr (b, found) ↦
          let here : some (m, b) ≡ some (method, body) = rw (found, find_method) at e in
          let same_method : m ≡ method = cc here in
          let same_body : b ≡ body = cc here in
          subst (λ z. payload ≡ tag z ++ body) same_method
            (strip_prefix-append payload (tag m) b found ∙ ap (λ z. tag m ++ z) same_body)
    ]

-- No tag is a prefix of another one: each is found on what it stands before.
split_tag-tag :
    (method : Method) (body : List ℕ) → split_tag (tag method ++ body) ≡ some (method, body)
unfolding split_tag
split_tag-tag ping body = refl
split_tag-tag store body = refl
split_tag-tag find_node body = refl
split_tag-tag find_value body = refl

take_and_drop : (n : ℕ) (xs : List ℕ) → xs ≡ take n xs ++ drop n xs
take_and_drop zero xs = refl
take_and_drop (suc n) [] = refl
take_and_drop (suc n) (x ∷ xs) = ap (λ l. x ∷ l) (take_and_drop n xs)

split_at_checked-append :
    (n : ℕ) (payload : List ℕ) (parts : List ℕ × List ℕ)
    → split_at_checked payload n ≡ some parts
    → (payload ≡ parts.0 ++ parts.1) × (length parts.0 ≡ n)
unfolding split_at_checked
split_at_checked-append n payload parts e = elim (dec_le n (length payload)) [
  | no short ↦
      let none_there : split_at_checked payload n ≡ none = ground (arith, short) in
      cc (none_there, e)
  | yes long ↦
      let there : split_at_checked payload n ≡ some (take n payload, drop n payload) =
        ground (arith, long) in
      let same : (take n payload, drop n payload) ≡ parts = cc (there, e) in
      subst (λ z. (payload ≡ z.0 ++ z.1) × (length z.0 ≡ n)) same
        (take_and_drop n payload, omega (arith, length-take n payload))
]

pub append-split_at_checked : (a b : List ℕ) → split_at_checked (a ++ b) (length a) ≡ some (a, b)
unfolding split_at_checked
append-split_at_checked a b =
    let long : leb (length a) (length (a ++ b)) ≡ true = ground (arith, length-append a b) in
    rw (long, take-length-append a b, drop-length-append a b) refl

-- A payload is parsed into an id, a method and a body exactly if it is those three in a row, the id of
-- 32 bytes and the method by its tag.
pub parse_framed_exact :
    (payload : List ℕ) (id : NodeId) (method : Method) (body : List ℕ)
    → (parse_framed payload ≡ some (id, method, body))
      ↔ ((payload ≡ id ++ (tag method ++ body)) × (length id ≡ node_id_len))
unfolding parse_framed split_tag
parse_framed_exact payload id method body = (forth, back)
  where
    forth :
        parse_framed payload ≡ some (id, method, body)
        → (payload ≡ id ++ (tag method ++ body)) × (length id ≡ node_id_len)
    forth e = elim (Option-cases (split_at_checked payload node_id_len)) [
      | inl short ↦
          let refused : parse_framed payload ≡ none = rw (short, parse_framed) refl in
          cc (refused, e)
      | inr (parts, split) ↦ elim (Option-cases (split_tag parts.1)) [
        | inl unknown ↦
            let refused : parse_framed payload ≡ none = rw (split, parse_framed, unknown) refl in
            cc (refused, e)
        | inr (found, tagged) ↦
            let made : parse_framed payload ≡ some (parts.0, found.0, found.1) =
              rw (split, parse_framed, tagged) refl in
            let same_id : parts.0 ≡ id = cc (made, e) in
            let same_method : found.0 ≡ method = cc (made, e) in
            let same_body : found.1 ≡ body = cc (made, e) in
            let (whole, size) = split_at_checked-append node_id_len payload parts split in
            let rest : parts.1 ≡ tag found.0 ++ found.1 =
              find_method-append all_methods parts.1 found.1 found.0 (unfold split_tag in tagged) in
            (
              rw (← same_id, ← same_method, ← same_body, ← rest) whole,
              ap length (sym same_id) ∙ size,
            )
      ]
    ]

    back :
        (payload ≡ id ++ (tag method ++ body)) × (length id ≡ node_id_len)
        → parse_framed payload ≡ some (id, method, body)
    back h =
        let split : split_at_checked payload node_id_len ≡ some (id, tag method ++ body) =
          subst (λ z. split_at_checked z node_id_len ≡ some (id, tag method ++ body)) (sym h.0)
            (subst
              (λ n. split_at_checked (id ++ (tag method ++ body)) n ≡ some (id, tag method ++ body))
              h.1 (append-split_at_checked id (tag method ++ body))) in
        rw (split, parse_framed, split_tag-tag method body) refl
