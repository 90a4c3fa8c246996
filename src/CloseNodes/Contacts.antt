-- ===== src/CloseNodes/Contacts.antt =====
-- Lists of contacts, as the layers of the routing table hold them: the refresh of an address, the
-- search for a contact, and lists that hold no id twice.
use kademlia_packet_manager.Prelude.{
  ℕ, zero, suc, ◌<◌, ◌≡◌, ◌≢◌, refl, sym, ap, subst, ◌∙◌, Has, ite, if_pos, if_neg, Bool, true,
  false, Option, none, some, List, [], ◌∷◌, ◌++◌, length, All, All-append, holds, holds-yes,
  holds-no, inl, inr,
}
use mathlib.Core.Option
use kademlia_packet_manager.Prelude.Vec.{
  position, swap_remove, remove_at, last, pop, last_first, All-swap_remove, All-last_first,
  All-last, All-pop, Any-swap_remove, Any-remove_at, position-zero, position-suc, position-none,
  position-lt,
}
use kademlia_packet_manager.CloseNodes.{NodeId, Contact, id_discrete, contact_discrete}

-- `if let Some(known) = xs.iter_mut().find(|known| known.id == contact.id)`, and the assignment of
-- the address in its body; `none` if nothing was found.
unfoldable pub refresh_address : List Contact → Contact → Option (List Contact)
refresh_address [] contact = none
refresh_address (known ∷ rest) contact =
    ite (id_discrete known.id contact.id) (some (record known { address = contact.address } ∷ rest))
      (Option.map (λ xs. known ∷ xs) (refresh_address rest contact))

-- `xs.iter().position(|c| c == contact)`
unfoldable pub find_contact : List Contact → Contact → Option ℕ
unfolding position
find_contact xs contact = position (λ c. holds (contact_discrete c contact)) xs

pub find_contact-lt :
    (xs : List Contact) (c : Contact) (i : ℕ) → find_contact xs c ≡ some i → i < length xs
unfolding find_contact
find_contact-lt xs c i e = position-lt _ xs i e

-- No id stands twice.
abbrev pub IsDistinct : List Contact → Type 0
IsDistinct [] = Unit
IsDistinct (x ∷ xs) = All (λ y. x.id ≢ y.id) xs × IsDistinct xs

abbrev pub ids : List Contact → List NodeId
ids [] = []
ids (x ∷ xs) = x.id ∷ ids xs

some_inj : {A : Type 0} {a b : A} → some a ≡ some b → a ≡ b
some_inj e = cc

some≢none : {A : Type 0} {a : A} → some a ≢ none
some≢none e = cc

map-eq-none : {A B : Type 0} (f : A → B) (o : Option A) → Option.map f o ≡ none → o ≡ none
map-eq-none f none e = refl
map-eq-none f (some a) e = cc

map-eq-some :
    {A B : Type 0} (f : A → B) (o : Option A) {b : B}
    → Option.map f o ≡ some b
    → (a : A) × (o ≡ some a) × (f a ≡ b)
map-eq-some f none e = cc
map-eq-some f (some a) e = (a, refl, cc)

-- A refresh changes addresses only.
pub ids-refresh_address :
    (xs : List Contact) (c : Contact) {ys : List Contact}
    → refresh_address xs c ≡ some ys
    → ids ys ≡ ids xs
unfolding refresh_address
ids-refresh_address [] c e = cc
ids-refresh_address (x ∷ xs) c {ys} e = elim (id_discrete x.id c.id) [
  | yes p ↦ ap ids (sym (some_inj (rw (if_pos _ p) at e)))
  | no n ↦
      let (zs, found, made) =
        map-eq-some (λ l. x ∷ l) (refresh_address xs c) (rw (if_neg _ n) at e) in
      ap ids (sym made) ∙ ap (◌∷◌ x.id) (ids-refresh_address xs c found)
]

pub All-ids :
    (P : NodeId → Type 0) (xs ys : List Contact)
    → ids ys ≡ ids xs
    → All (λ x. P x.id) xs
    → All (λ x. P x.id) ys
All-ids P [] [] e h = tt
All-ids P [] (y ∷ ys) e h = cc
All-ids P (x ∷ xs) [] e h = tt
All-ids P (x ∷ xs) (y ∷ ys) e h =
    let same : y.id ≡ x.id = cc in
    let rest : ids ys ≡ ids xs = cc in (subst P (sym same) h.0, All-ids P xs ys rest h.1)

IsDistinct-ids : (xs ys : List Contact) → ids ys ≡ ids xs → IsDistinct xs → IsDistinct ys
IsDistinct-ids [] [] e h = tt
IsDistinct-ids [] (y ∷ ys) e h = cc
IsDistinct-ids (x ∷ xs) [] e h = tt
IsDistinct-ids (x ∷ xs) (y ∷ ys) e h =
    let same : y.id ≡ x.id = cc in
    let rest : ids ys ≡ ids xs = cc in
    (rw same (All-ids (λ i. x.id ≢ i) xs ys rest h.0), IsDistinct-ids xs ys rest h.1)

length-ids : (xs ys : List Contact) → ids ys ≡ ids xs → length ys ≡ length xs
length-ids [] [] e = refl
length-ids [] (y ∷ ys) e = cc
length-ids (x ∷ xs) [] e = cc
length-ids (x ∷ xs) (y ∷ ys) e = ap suc (length-ids xs ys (cc))

module _ (xs : List Contact) (c : Contact) {ys : List Contact}
    (found : refresh_address xs c ≡ some ys) where
  pub All-refresh_address : (P : NodeId → Type 0) → All (λ x. P x.id) xs → All (λ x. P x.id) ys
  All-refresh_address P = All-ids P xs ys (ids-refresh_address xs c found)

  pub refresh_address-IsDistinct : IsDistinct xs → IsDistinct ys
  refresh_address-IsDistinct = IsDistinct-ids xs ys (ids-refresh_address xs c found)

  pub length-refresh_address : length ys ≡ length xs
  length-refresh_address = length-ids xs ys (ids-refresh_address xs c found)

-- A refreshed contact is held with its new address, and the other contacts are as they were.
pub Has-refresh_address :
    (xs : List Contact) (c : Contact) {ys : List Contact}
    → refresh_address xs c ≡ some ys
    → Has c ys
unfolding refresh_address
Has-refresh_address [] c e = cc
Has-refresh_address (x ∷ xs) c {ys} e = elim (id_discrete x.id c.id) [
  | yes p ↦
      subst (Has c) (some_inj (rw (if_pos _ p) at e))
        (inl (λ i. record { id = sym p i; address = c.address }))
  | no n ↦
      let (zs, found, made) =
        map-eq-some (λ l. x ∷ l) (refresh_address xs c) (rw (if_neg _ n) at e) in
      subst (Has c) made (inr (Has-refresh_address xs c found))
]

pub refresh_address-none :
    (xs : List Contact) (c : Contact) → refresh_address xs c ≡ none → All (λ x. x.id ≢ c.id) xs
unfolding refresh_address
refresh_address-none [] c e = tt
refresh_address-none (x ∷ xs) c e = elim (id_discrete x.id c.id) [
  | yes p ↦ absurd (some≢none (rw (if_pos _ p) at e))
  | no n ↦ (
    n,
    refresh_address-none xs c
        (map-eq-none (λ l. x ∷ l) (refresh_address xs c) (rw (if_neg _ n) at e)),
  )
]

pub push-IsDistinct :
    (xs : List Contact) (c : Contact)
    → All (λ x. x.id ≢ c.id) xs
    → IsDistinct xs
    → IsDistinct (xs ++ c ∷ [])
push-IsDistinct [] c n h = (tt, tt)
push-IsDistinct (x ∷ xs) c n h =
    (All-append _ xs (c ∷ []) h.0 (n.0, tt), push-IsDistinct xs c n.1 h.1)

pub pop-IsDistinct : (xs : List Contact) → IsDistinct xs → IsDistinct (pop xs)
unfolding pop
pop-IsDistinct [] h = tt
pop-IsDistinct (x ∷ []) h = tt
pop-IsDistinct (x ∷ y ∷ ys) h = (All-pop _ (y ∷ ys) h.0, pop-IsDistinct (y ∷ ys) h.1)

last_apart :
    (x : Contact) (xs : List Contact)
    → IsDistinct (x ∷ xs)
    → All (λ y. (last x xs).id ≢ y.id) (pop (x ∷ xs))
unfolding last pop
last_apart x [] h = tt
last_apart x (y ∷ ys) h =
    (λ e. All-last (λ z. x.id ≢ z.id) y ys h.0.0 h.0.1 (sym e), last_apart y ys h.1)

pub swap_remove-IsDistinct :
    (xs : List Contact) (i : ℕ) → IsDistinct xs → IsDistinct (swap_remove xs i)
unfolding swap_remove
swap_remove-IsDistinct [] i h = tt
swap_remove-IsDistinct (x ∷ []) zero h = unfold last_first in tt
swap_remove-IsDistinct (x ∷ y ∷ ys) zero h =
    unfold last_first in (last_apart y ys h.1, pop-IsDistinct (y ∷ ys) h.1)
swap_remove-IsDistinct (x ∷ xs) (suc i) h =
    (All-swap_remove _ xs i h.0, swap_remove-IsDistinct xs i h.1)

-- Once a contact is removed from a list with distinct ids, it is gone.
gone_of_apart : (c : Contact) (xs : List Contact) → All (λ x. c.id ≢ x.id) xs → ¬ Has c xs
gone_of_apart c [] h = λ m. m
gone_of_apart c (x ∷ xs) h =
    λ m. elim m [ inl e ↦ h.0 (ap (λ (y : Contact). y.id) e) | inr r ↦ gone_of_apart c xs h.1 r ]

module _ (c : Contact) where
  abbrev is_it : Contact → Bool
  is_it x = holds (contact_discrete x c)

  found_apart :
      (x : Contact) (xs : List Contact)
      → is_it x ≡ true
      → All (λ y. x.id ≢ y.id) xs
      → All (λ y. c.id ≢ y.id) xs
  found_apart x xs e = subst (λ z. All (λ y. z.id ≢ y.id) xs) (holds-yes (contact_discrete x c) e)

  pub swap_remove-gone :
      (xs : List Contact) (i : ℕ)
      → IsDistinct xs
      → find_contact xs c ≡ some i
      → ¬ Has c (swap_remove xs i)
  unfolding find_contact swap_remove
  swap_remove-gone [] i h e = cc
  swap_remove-gone (x ∷ xs) zero h e =
      gone_of_apart c (last_first xs)
        (All-last_first _ xs (found_apart x xs (position-zero is_it x xs e) h.0))
  swap_remove-gone (x ∷ xs) (suc i) h e =
      let (other, found) = position-suc is_it x xs i e in
      λ m. elim m [
        | inl p ↦ holds-no (contact_discrete x c) other (sym p)
        | inr r ↦ swap_remove-gone xs i h.1 found r
      ]

  pub remove_at-gone :
      (xs : List Contact) (i : ℕ)
      → IsDistinct xs
      → find_contact xs c ≡ some i
      → ¬ Has c (remove_at xs i)
  unfolding find_contact remove_at
  remove_at-gone [] i h e = cc
  remove_at-gone (x ∷ xs) zero h e =
      gone_of_apart c xs (found_apart x xs (position-zero is_it x xs e) h.0)
  remove_at-gone (x ∷ xs) (suc i) h e =
      let (other, found) = position-suc is_it x xs i e in
      λ m. elim m [
        | inl p ↦ holds-no (contact_discrete x c) other (sym p)
        | inr r ↦ remove_at-gone xs i h.1 found r
      ]

  pub find_contact-none : (xs : List Contact) → find_contact xs c ≡ none → ¬ Has c xs
  unfolding find_contact
  find_contact-none xs e = absent xs (position-none is_it xs e)
    where
      absent : (ys : List Contact) → All (λ x. is_it x ≡ false) ys → ¬ Has c ys
      absent [] h = λ m. m
      absent (y ∷ ys) h = λ m. elim m [
        | inl p ↦ holds-no (contact_discrete y c) h.0 (sym p)
        | inr r ↦ absent ys h.1 r
      ]

  -- Another contact stays.
  pub Has-swap_remove :
      (xs : List Contact) (i : ℕ) (d : Contact)
      → find_contact xs c ≡ some i
      → d ≢ c
      → Has d xs
      → Has d (swap_remove xs i)
  unfolding find_contact
  Has-swap_remove xs i d e n =
      Any-swap_remove (λ y. d ≡ y) is_it xs i e
        (λ x t p. n (p ∙ holds-yes (contact_discrete x c) t))

  pub Has-remove_at :
      (xs : List Contact) (i : ℕ) (d : Contact)
      → find_contact xs c ≡ some i
      → d ≢ c
      → Has d xs
      → Has d (remove_at xs i)
  unfolding find_contact
  Has-remove_at xs i d e n =
      Any-remove_at (λ y. d ≡ y) is_it xs i e (λ x t p. n (p ∙ holds-yes (contact_discrete x c) t))
