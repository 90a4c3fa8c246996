-- ===== src/Rpc/Forget.antt =====
-- src/rpc.rs, `forget`: the floor below which the routing table is kept.
use kademlia_packet_manager.Prelude.{
  ◌<◌, ◌≡◌, ◌≢◌, ◌⊎◌, refl, sym, true, false, List, [], ◌∷◌, ltb, length, All, All-imp, Any, arith,
  Bool-cases, inl, inr, dec_lt,
}
use kademlia_packet_manager.Prelude.Pigeonhole.{Apart}
use kademlia_packet_manager.CloseNodes.{NodeId, Contact, k}
use kademlia_packet_manager.Package.{is_key}
use kademlia_packet_manager.VersionChain.Spec.{is_key-false}
use kademlia_packet_manager.Rpc.{
  Wire, Rpc, Local, has_id, insert_id, more_than_k, forget, with_table,
}

pub has_id-false : (id : NodeId) (ids : List NodeId) → has_id id ids ≡ false → All (λ x. id ≢ x) ids
unfolding has_id
has_id-false id [] e = tt
has_id-false id (x ∷ xs) e = elim (Bool-cases (is_key x id)) [
  | inl same ↦ let found : has_id id (x ∷ xs) ≡ true = rw (same, has_id) refl in cc (found, e)
  | inr other ↦ (λ s. is_key-false x id other (sym s), has_id-false id xs (rw (other, has_id) at e))
]

insert_id-Apart : (id : NodeId) (ids : List NodeId) → Apart ids → Apart (insert_id id ids)
unfolding insert_id
insert_id-Apart id ids h = elim (Bool-cases (has_id id ids)) [
  | inl there ↦ rw (there, insert_id) h
  | inr fresh ↦ rw (fresh, insert_id) (has_id-false id ids fresh, h)
]

All-insert_id :
    (P : NodeId → Type 0) (id : NodeId) (ids : List NodeId)
    → P id
    → All P ids
    → All P (insert_id id ids)
unfolding insert_id
All-insert_id P id ids p h = elim (Bool-cases (has_id id ids)) [
  | inl there ↦ rw (there, insert_id) h
  | inr fresh ↦ rw (fresh, insert_id) (p, h)
]

-- More than `k` different ids that all satisfy `P`.
pub record AreMany (P : NodeId → Type 0) (ids : List NodeId) : Type 0 where
  pub different : Apart ids
  pub many : k < length ids
  pub all : All P ids

more_than_k-AreMany :
    (P : NodeId → Type 0) (distinct : List NodeId) (cs : List Contact)
    → more_than_k distinct cs ≡ true
    → Apart distinct
    → All P distinct
    → All (λ c. P c.id) cs
    → (ids : List NodeId) × AreMany P ids
unfolding more_than_k
more_than_k-AreMany P distinct [] e a h g = cc
more_than_k-AreMany P distinct (c ∷ cs) e a h g =
    let more = insert_id c.id distinct in
    let a' = insert_id-Apart c.id distinct a in
    let h' = All-insert_id P c.id distinct g.0 h in
    elim (dec_lt k (length more)) [
      | yes many ↦ (more, record { different = a'; many = many; all = h' })
      | no few ↦
          let not_now : ltb k (length more) ≡ false = ground (arith, few) in
          more_than_k-AreMany P more cs (rw (not_now, more_than_k) at e) a' h' g.1
    ]

has_own_id : (cs : List Contact) → All (λ c. Any (λ d. d.id ≡ c.id) cs) cs
has_own_id [] = tt
has_own_id (c ∷ cs) = (inl refl, All-imp (λ x m. inr m) cs (has_own_id cs))

-- A failed call never empties the routing table: either nothing changes, or the contact is removed and
-- the table listed more than `k` different ids.
pub forget-AreMany :
    (wire : Wire) {S : Type 0} (rpc : Rpc S) (s : Local S rpc.World) (contact : Contact)
    → (forget wire rpc s contact ≡ s)
      ⊎ ((forget wire rpc s contact
            ≡ with_table wire rpc s (rpc.close_nodes.remove_contact s.table contact))
          × (ids : List NodeId) × AreMany
              (λ id. Any (λ c. c.id ≡ id) (rpc.close_nodes.contacts_iter s.table))
              ids)
unfolding forget
forget-AreMany wire rpc s contact =
    let known = rpc.close_nodes.contacts_iter s.table in
    elim (Bool-cases (more_than_k [] known)) [
      | inr few ↦ inl (rw (few, forget) refl)
      | inl plenty ↦
          let (ids, many) =
            more_than_k-AreMany (λ id. Any (λ c. c.id ≡ id) known) [] known plenty tt tt
              (has_own_id known) in
          inr (rw (plenty, forget) refl, ids, many)
    ]
