-- ===== src/Pending.antt =====
-- src/pending.rs: the requests in flight, each with the peer that may answer it.
use kademlia_packet_manager.Prelude.{
  ℕ, suc, ◌≡◌, ◌≢◌, refl, sym, ap, subst, Bool, false, Option, none, some, List, ◌∷◌, ite, if_pos,
  if_neg,
}
use kademlia_packet_manager.DashMap.{DashMap}
use kademlia_packet_manager.CloseNodes.{SocketAddr, addr_discrete}

-- The sender of a oneshot channel is the number of the channel.
pub record PendingSlot : Type 0 where
  pub expected_peer : SocketAddr
  pub tx : ℕ

pub record PendingResponse : Type 0 where
  pub id : ℕ
  pub rx : ℕ

module _ (map : DashMap ℕ PendingSlot) where
  -- The slots, how many channels were made, and with what `send` was called on them.
  pub record Pending : Type 0 where
    pub slots : map.Map
    pub channels : ℕ
    pub sent : List (ℕ × List ℕ)

  unfoldable pub register : Pending → ℕ → SocketAddr → Pending × Option PendingResponse
  register s id expected_peer = elim (map.get s.slots id) [
    | some slot ↦ (s, none)
    | none ↦ (
      record s {
        slots = map.insert s.slots id (record { expected_peer = expected_peer; tx = s.channels });
        channels = suc s.channels;
      },
      some (record { id = id; rx = s.channels }),
    )
  ]

  -- `receives` says whether the receiver of a channel is still there.
  unfoldable pub deliver : (ℕ → Bool) → Pending → ℕ → SocketAddr → List ℕ → Pending × Bool
  deliver receives s id from payload = elim (map.get s.slots id) [
    | none ↦ (s, false)
    | some slot ↦
        ite (addr_discrete slot.expected_peer from)
          (
            record s { slots = map.remove s.slots id; sent = (slot.tx, payload) ∷ s.sent },
            receives slot.tx,
          )
          (s, false)
  ]

  -- `Drop for PendingResponse`
  unfoldable pub drop_response : Pending → PendingResponse → Pending
  drop_response s response = record s { slots = map.remove s.slots response.id }

  abbrev registered : Pending → ℕ → SocketAddr → Pending
  registered s id peer = record s {
    slots = map.insert s.slots id (record { expected_peer = peer; tx = s.channels });
    channels = suc s.channels;
  }

  abbrev answered : Pending → ℕ → PendingSlot → List ℕ → Pending
  answered s id slot payload = record s {
    slots = map.remove s.slots id;
    sent = (slot.tx, payload) ∷ s.sent;
  }

  register-free :
      (s : Pending) (id : ℕ) (peer : SocketAddr)
      → map.get s.slots id ≡ none
      → register s id peer ≡ (registered s id peer, some (record { id = id; rx = s.channels }))
  unfolding register
  register-free s id peer free = rw (free, register) refl

  deliver-unknown :
      (receives : ℕ → Bool) (s : Pending) (id : ℕ) (from : SocketAddr) (payload : List ℕ)
      → map.get s.slots id ≡ none
      → deliver receives s id from payload ≡ (s, false)
  unfolding deliver
  deliver-unknown receives s id from payload free = rw (free, deliver) refl

  deliver-expected :
      (receives : ℕ → Bool) (s : Pending) (id : ℕ) (slot : PendingSlot) (payload : List ℕ)
      → map.get s.slots id ≡ some slot
      → deliver receives s id slot.expected_peer payload
        ≡ (answered s id slot payload, receives slot.tx)
  unfolding deliver
  deliver-expected receives s id slot payload found = rw (found, deliver, if_pos _ refl) refl

  deliver-other :
      (receives : ℕ → Bool) (s : Pending) (id : ℕ) (slot : PendingSlot) (from : SocketAddr)
      (payload : List ℕ)
      → map.get s.slots id ≡ some slot
      → slot.expected_peer ≢ from
      → deliver receives s id from payload ≡ (s, false)
  unfolding deliver
  deliver-other receives s id slot from payload found n = rw (found, deliver, if_neg _ n) refl

  -- A request in flight takes a payload from the expected peer and from no other: such a payload is
  -- sent on its channel and ends it, so that a second one is refused; another peer's changes nothing.
  pub deliver_once :
      (receives : ℕ → Bool) (s : Pending) (id : ℕ) (slot : PendingSlot) (payload : List ℕ)
      → map.get s.slots id ≡ some slot
      → ((deliver receives s id slot.expected_peer payload).0.sent ≡ (slot.tx, payload) ∷ s.sent)
        × ((again : List ℕ) (from : SocketAddr)
            → (deliver receives
                (deliver receives s id slot.expected_peer payload).0
                id
                from
                again).1
              ≡ false)
        × ((from : SocketAddr)
            → slot.expected_peer ≢ from
            → deliver receives s id from payload ≡ (s, false))
  deliver_once receives s id slot payload found =
      let taken = deliver-expected receives s id slot payload found in
      (
        ap (λ r. r.0.sent) taken,
        λ again from.
            subst (λ r. (deliver receives r.0 id from again).1 ≡ false) (sym taken)
              (ap (λ r. r.1)
                (deliver-unknown receives (answered s id slot payload) id from again
                  (map.get-remove s.slots id))),
        λ from n. deliver-other receives s id slot from payload found n,
      )

  -- The state after an id was registered, answered by its peer, and registered for another peer.
  unfoldable pub reused :
      (ℕ → Bool) → Pending → ℕ → SocketAddr → List ℕ → SocketAddr → Pending × Option PendingResponse
  unfolding register deliver
  reused receives s id first payload second =
      register (deliver receives (register s id first).0 id first payload).0 id second

  -- A response that is dropped late takes the slot of another request along: where a free id was
  -- registered, answered, and registered again, the second registration succeeds, but dropping the
  -- first response leaves the second one without a slot, and what its peer answers is refused.
  pub drop_response-stale :
      (receives : ℕ → Bool) (s : Pending) (id : ℕ) (first second : SocketAddr)
      (payload answer : List ℕ)
      → map.get s.slots id ≡ none
      → ((reused receives s id first payload second).1
          ≡ some (record { id = id; rx = suc s.channels }))
        × ((deliver receives
              (drop_response
                (reused receives s id first payload second).0
                (record { id = id; rx = s.channels }))
              id
              second
              answer).1
            ≡ false)
  unfolding reused drop_response
  drop_response-stale receives s id first second payload answer free =
      let slot : PendingSlot = record { expected_peer = first; tx = s.channels } in
      let one = register-free s id first free in
      let held = map.get-insert s.slots id slot in
      let two = deliver-expected receives (registered s id first) id slot payload held in
      let mid = answered (registered s id first) id slot payload in
      let three = register-free mid id second (map.get-remove (registered s id first).slots id) in
      let same : (deliver receives (register s id first).0 id first payload).0 ≡ mid =
        subst (λ r. (deliver receives r.0 id first payload).0 ≡ mid) (sym one)
          (ap (λ r. r.0) two) in
      (
        subst (λ m. (register m id second).1 ≡ some (record { id = id; rx = suc s.channels }))
            (sym same) (ap (λ r. r.1) three),
        ap (λ r. r.1)
            (deliver-unknown receives _ id second answer (
              map.get-remove
                (register (deliver receives (register s id first).0 id first payload).0 id
                  second).0.slots
                id)),
      )
