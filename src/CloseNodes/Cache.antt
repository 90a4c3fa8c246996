-- ===== src/CloseNodes/Cache.antt =====
-- src/close_nodes/cache.rs: a layer that keeps the answers of the layer below.
pub mod Generations
pub mod Transparency
pub mod Routing
use kademlia_packet_manager.Prelude.{
  ℕ, ◌+◌, ◌-◌, ◌%◌, Bool, true, false, Option, none, some, List, ltb, ◌==◌, ◌&&◌, not,
  if◌then◌else◌,
}
use kademlia_packet_manager.DashMap.{DashMap}
use kademlia_packet_manager.CloseNodes.{NodeId, Contact, CloseNodes}

pub record Entry : Type 0 where
  pub contacts : List Contact
  pub generation : ℕ
  pub stored : ℕ

-- `AtomicU64::fetch_add(1)`, which wraps around.
abbrev pub u64_values : ℕ
u64_values = 18446744073709551616

unfoldable pub fetch_add : ℕ → ℕ
fetch_add generation = (generation + 1) % u64_values

-- The map, and the layer below.
module _ (map : DashMap NodeId Entry) where
  pub record CachedCloseNodes (C : Type 0) : Type 0 where
    pub inner : C
    pub entries : map.Map
    pub generation : ℕ
    pub ttl : ℕ
    pub capacity : ℕ
    pub invalidate_on_write : Bool

  unfoldable pub new : {C : Type 0} → C → ℕ → ℕ → CachedCloseNodes C
  new inner ttl capacity = record {
    inner = inner;
    entries = map.empty;
    generation = 0;
    ttl = ttl;
    capacity = capacity;
    invalidate_on_write = true;
  }

  unfoldable pub ttl_only : {C : Type 0} → C → ℕ → ℕ → CachedCloseNodes C
  unfolding new
  ttl_only inner ttl capacity = record (new inner ttl capacity) { invalidate_on_write = false }

  module _ {C : Type 0} where
    unfoldable pub clear : CachedCloseNodes C → CachedCloseNodes C
    clear s = record s { entries = map.empty }

    -- `elapsed()` is 0 where the clock did not advance.
    unfoldable pub is_fresh : ℕ → CachedCloseNodes C → Entry → ℕ → Bool
    is_fresh now s entry generation =
        (entry.generation == generation) && ltb (now - entry.stored) s.ttl

    unfoldable pub make_room : ℕ → CachedCloseNodes C → ℕ → map.Map
    unfolding is_fresh
    make_room now s generation =
        if ltb (map.len s.entries) s.capacity
        then s.entries
        else let kept = map.retain s.entries (λ id entry. is_fresh now s entry generation) in
          if not (ltb (map.len kept) s.capacity) then map.empty else kept

    module _ (layer : CloseNodes C) where
      -- The part of `close_nodes` behind the lookup in the map: the layer below answers.
      unfoldable pub compute : ℕ → CachedCloseNodes C → NodeId → CachedCloseNodes C × List Contact
      unfolding make_room
      compute now s id =
          let (inner, contacts) = layer.close_nodes now s.inner id in
          let room = make_room now s s.generation in
          let entry : Entry = record {
            contacts = contacts;
            generation = s.generation;
            stored = now;
          } in
          (record s { inner = inner; entries = map.insert room id entry }, contacts)

      unfoldable pub close_nodes :
          ℕ → CachedCloseNodes C → NodeId → CachedCloseNodes C × List Contact
      unfolding is_fresh compute
      close_nodes now s id = elim (map.get s.entries id) [
        | some entry ↦
            if is_fresh now s entry s.generation then (s, entry.contacts) else compute now s id
        | none ↦ compute now s id
      ]

      unfoldable pub remove_contact : CachedCloseNodes C → Contact → CachedCloseNodes C
      unfolding fetch_add
      remove_contact s contact = record s {
        inner = layer.remove_contact s.inner contact;
        generation = fetch_add s.generation;
      }

      unfoldable pub maybe_add_contact : CachedCloseNodes C → Contact → CachedCloseNodes C
      unfolding fetch_add
      maybe_add_contact s contact = record s {
        inner = layer.maybe_add_contact s.inner contact;
        generation = if s.invalidate_on_write then fetch_add s.generation else s.generation;
      }

      -- `impl CloseNodes for CachedCloseNodes<C>`
      unfoldable pub cached : CloseNodes (CachedCloseNodes C)
      unfolding close_nodes maybe_add_contact remove_contact
      cached = record {
        close_nodes = close_nodes;
        maybe_add_contact = maybe_add_contact;
        remove_contact = remove_contact;
        contacts_iter = λ s. layer.contacts_iter s.inner;
      }
