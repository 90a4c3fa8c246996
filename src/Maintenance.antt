-- ===== src/Maintenance.antt =====
-- src/maintenance.rs: one round of the upkeep of the routing table, and of the republishing of values.
use kademlia_packet_manager.Prelude.{
  ◌≡◌, refl, ap, Bool, true, false, Option, none, some, List, [], ◌∷◌, ◌++◌, holds, if◌then◌else◌,
  Ordering, Bool-cases, inl, inr, All, ◌⊎◌,
}
use kademlia_packet_manager.Prelude.Sort.{sort_by, insert_by}
use kademlia_packet_manager.CloseNodes.{NodeId, Key, Contact, contact_discrete}
use kademlia_packet_manager.Package.{Str, Libraries, is_key}
use kademlia_packet_manager.VersionChain.{Record, ok, err}
use kademlia_packet_manager.VersionChain.Load.{load_chain_from_pointer}
use kademlia_packet_manager.Store.{Value, blob, latest}
use kademlia_packet_manager.Rpc.{Wire, Rpc, Local, ping, forget}
use kademlia_packet_manager.Rpc.Table.{IsSound, Keeps, ping-Keeps, forget-Keeps}
use kademlia_packet_manager.Lookup.Values.{holders, store_at}

unfoldable pub is_latest : Value → Bool
is_latest (blob bytes) = false
is_latest (latest pointer) = true

-- The order of `sort_by_key(|(_, value)| matches!(value, Value::Latest(_)))`: `false` before `true`.
unfoldable pub by_kind : Key × Value → Key × Value → Ordering
unfolding is_latest
by_kind a b = elim (is_latest a.1) [
  | true ↦ elim (is_latest b.1) [ true ↦ Ordering.eq | false ↦ Ordering.gt ]
  | false ↦ elim (is_latest b.1) [ true ↦ Ordering.lt | false ↦ Ordering.eq ]
]

unfoldable pub blobs_first : List (Key × Value) → List (Key × Value)
unfolding sort_by by_kind
blobs_first values = sort_by by_kind values

-- `HashSet::insert`
unfoldable pub insert_contact : Contact → List Contact → List Contact
unfolding contact_discrete
insert_contact c [] = c ∷ []
insert_contact c (x ∷ xs) = if holds (contact_discrete x c) then x ∷ xs else x ∷ insert_contact c xs

module _ (wire : Wire) {S : Type 0} (rpc : Rpc S) where
  -- A contact is dead unless it answers with its own id.
  unfoldable pub is_alive : Option NodeId → Contact → Bool
  is_alive none contact = false
  is_alive (some id) contact = is_key id contact.id

  unfoldable pub ping_all :
      Local S rpc.World → List Contact → List Contact → Local S rpc.World × List Contact
  unfolding ping is_alive insert_contact
  ping_all s [] dead = (s, dead)
  ping_all s (contact ∷ contacts) dead =
      let (s', answer) = ping wire rpc s contact.address in
      ping_all s' contacts (if is_alive answer contact then dead else insert_contact contact dead)

  unfoldable pub forget_all : Local S rpc.World → List Contact → Local S rpc.World
  unfolding forget
  forget_all s [] = s
  forget_all s (contact ∷ contacts) = forget_all (forget wire rpc s contact) contacts

  -- `contacts` are those that the lazy iterator over the table yields in the course of the round.
  unfoldable pub check_liveness : Local S rpc.World → List Contact → Local S rpc.World
  unfolding ping_all forget_all
  check_liveness s contacts = let (s', dead) = ping_all s contacts [] in forget_all s' dead

  module _ (lib : Libraries) (get_dns_vk : Str → Option lib.VerifyingKey) where
    -- The proof that a value is stored with; `none` where its history cannot be loaded.
    unfoldable pub republish_proof :
        Local S rpc.World → Value → Local S rpc.World × Option (List Record)
    unfolding load_chain_from_pointer
    republish_proof s (blob bytes) = (s, some [])
    republish_proof s (latest pointer) =
        let (s', loaded) = load_chain_from_pointer wire rpc lib get_dns_vk s pointer in
        elim loaded [ ok chain ↦ (s', some chain) | err error ↦ (s', none) ]

    unfoldable pub republish_at : Local S rpc.World → Key → Value → List Record → Local S rpc.World
    unfolding holders store_at
    republish_at s key v proof =
        let (s', targets) = holders wire rpc s key in (store_at wire rpc s' targets key v proof 0).0

    unfoldable pub republish_one : Local S rpc.World → Key × Value → Local S rpc.World
    unfolding republish_proof republish_at
    republish_one s (key, v) =
        let (s', proof) = republish_proof s v in
        elim proof [ none ↦ s' | some chain ↦ republish_at s' key v chain ]

    unfoldable pub republish_each : Local S rpc.World → List (Key × Value) → Local S rpc.World
    unfolding republish_one
    republish_each s [] = s
    republish_each s (entry ∷ values) = republish_each (republish_one s entry) values

    unfoldable pub republish_values : Local S rpc.World → List (Key × Value) → Local S rpc.World
    unfolding blobs_first republish_each
    republish_values s values = republish_each s (blobs_first values)

-- The values of one kind, in the order in which they came.
unfoldable pub of_kind : Bool → List (Key × Value) → List (Key × Value)
unfolding is_latest
of_kind true [] = []
of_kind false [] = []
of_kind true (v ∷ vs) = if is_latest v.1 then v ∷ of_kind true vs else of_kind true vs
of_kind false (v ∷ vs) = if is_latest v.1 then of_kind false vs else v ∷ of_kind false vs

by_kind-eq :
    (a b : Key × Value) → is_latest a.1 ≡ true → is_latest b.1 ≡ true → by_kind a b ≡ Ordering.eq
unfolding by_kind
by_kind-eq a b e f = rw (e, by_kind, f) refl

by_kind-gt :
    (a b : Key × Value) → is_latest a.1 ≡ true → is_latest b.1 ≡ false → by_kind a b ≡ Ordering.gt
unfolding by_kind
by_kind-gt a b e f = rw (e, by_kind, f) refl

by_kind-le :
    (a b : Key × Value)
    → is_latest a.1 ≡ false
    → (by_kind a b ≡ Ordering.lt) ⊎ (by_kind a b ≡ Ordering.eq)
unfolding by_kind
by_kind-le a b e = elim (Bool-cases (is_latest b.1)) [
  | inl pointer ↦ inl (rw (e, by_kind, pointer) refl)
  | inr plain ↦ inr (rw (e, by_kind, plain) refl)
]

insert_pointer :
    (v : Key × Value) (xs ys : List (Key × Value))
    → is_latest v.1 ≡ true
    → All (λ x. is_latest x.1 ≡ false) xs
    → All (λ y. is_latest y.1 ≡ true) ys
    → insert_by by_kind v (xs ++ ys) ≡ xs ++ v ∷ ys
unfolding insert_by
insert_pointer v [] [] e h g = refl
insert_pointer v [] (y ∷ ys) e h g = rw (by_kind-eq v y e g.0, insert_by) refl
insert_pointer v (x ∷ xs) ys e h g =
    rw (by_kind-gt v x e h.0, insert_by) (ap (λ l. x ∷ l) (insert_pointer v xs ys e h.1 g))

insert_blob :
    (v : Key × Value) (xs : List (Key × Value))
    → is_latest v.1 ≡ false
    → insert_by by_kind v xs ≡ v ∷ xs
unfolding insert_by
insert_blob v [] e = refl
insert_blob v (x ∷ xs) e = elim (by_kind-le v x e) [
  | inl less ↦ rw (less, insert_by) refl
  | inr same ↦ rw (same, insert_by) refl
]

kinds :
    (vs : List (Key × Value))
    → All (λ x. is_latest x.1 ≡ false) (of_kind false vs)
      × All (λ y. is_latest y.1 ≡ true) (of_kind true vs)
unfolding of_kind
kinds [] = (tt, tt)
kinds (v ∷ vs) = elim (Bool-cases (is_latest v.1)) [
  | inl pointer ↦ let (f, t) = kinds vs in rw pointer (f, (pointer, t))
  | inr plain ↦ let (f, t) = kinds vs in rw plain ((plain, f), t)
]

-- Values are republished the blobs first and then the pointers, each kind in the order in which it
-- came: none is left out, and none comes twice.
pub blobs_first-of_kind :
    (vs : List (Key × Value)) → blobs_first vs ≡ of_kind false vs ++ of_kind true vs
unfolding blobs_first of_kind
blobs_first-of_kind [] = refl
blobs_first-of_kind (v ∷ vs) =
    let rest = blobs_first-of_kind vs in
    let (f, t) = kinds vs in
    elim (Bool-cases (is_latest v.1)) [
      | inl pointer ↦
          rw (pointer, rest) (insert_pointer v (of_kind false vs) (of_kind true vs) pointer f t)
      | inr plain ↦ rw (plain, rest) (insert_blob v (of_kind false vs ++ of_kind true vs) plain)
    ]

module _ (wire : Wire) {S : Type 0} (rpc : Rpc S) (Inv : S → Type 0) (sound : IsSound rpc Inv) where
  ping_all-Keeps :
      (s : Local S rpc.World) (contacts dead : List Contact)
      → Keeps wire rpc Inv sound s
      → Keeps wire rpc Inv sound (ping_all wire rpc s contacts dead).0
  unfolding ping_all
  ping_all-Keeps s [] dead v = v
  ping_all-Keeps s (c ∷ cs) dead v =
      ping_all-Keeps (ping wire rpc s c.address).0 cs _
        (ping-Keeps wire rpc Inv sound s c.address v)

  forget_all-Keeps :
      (s : Local S rpc.World) (contacts : List Contact)
      → Keeps wire rpc Inv sound s
      → Keeps wire rpc Inv sound (forget_all wire rpc s contacts)
  unfolding forget_all
  forget_all-Keeps s [] v = v
  forget_all-Keeps s (c ∷ cs) v =
      forget_all-Keeps (forget wire rpc s c) cs (forget-Keeps wire rpc Inv sound s c v)

  -- A liveness round keeps the invariant of the routing table, whatever answers.
  pub check_liveness-Keeps :
      (s : Local S rpc.World) (contacts : List Contact)
      → Keeps wire rpc Inv sound s
      → Keeps wire rpc Inv sound (check_liveness wire rpc s contacts)
  unfolding check_liveness
  check_liveness-Keeps s contacts v =
      forget_all-Keeps (ping_all wire rpc s contacts []).0 (ping_all wire rpc s contacts []).1
        (ping_all-Keeps s contacts [] v)
