-- ===== src/Bootstrap.antt =====
-- src/bootstrap.rs: joining a network through a node that is in it.
pub mod Bucket
use kademlia_packet_manager.Prelude.{
  ℕ, zero, suc, ◌/◌, ◌%◌, ◌^◌, ◌≡◌, ◌≢◌, ◌∙◌, ap, none, some, List, [], ◌∷◌, ◌++◌, if◌then◌else◌,
  bit_and, bit_or, drop, replicate, set, get_or, Bool-cases, Option-cases, inl, inr,
}
use kademlia_packet_manager.CloseNodes.{NodeId, Contact, SocketAddr, xor_distance, leading_zeros}
use kademlia_packet_manager.Package.{is_key}
use kademlia_packet_manager.VersionChain.Spec.{is_key-true, is_key-false}
use kademlia_packet_manager.CloseNodes.Contract.{IsAnswer}
use kademlia_packet_manager.Rpc.{Wire, Rpc, Local, ping}
use kademlia_packet_manager.Rpc.Table.{IsSound, Keeps, ping-Keeps, ping-IsId}
use kademlia_packet_manager.Lookup.Answer.{lookup_node-IsAnswer}
use kademlia_packet_manager.Lookup.{lookup_node}

pub data BootstrapError : Type 0 where
  unreachable : BootstrapError
  self_seed : BootstrapError

pub data Joined : Type 0 where
  joined : List Contact → Joined
  refused : BootstrapError → Joined

-- The XOR distance: `bucket` zero bits, then a one, then the bits of `distance`.
unfoldable pub distance_in_bucket : NodeId → ℕ → NodeId
distance_in_bucket distance bucket =
    let cleared = replicate (bucket / 8) 0 ++ drop (bucket / 8) distance in
    let byte = bit_and (get_or cleared (bucket / 8) 0) (255 / 2 ^ (bucket % 8)) in
    set cleared (bucket / 8) (bit_or byte (128 / 2 ^ (bucket % 8)))

-- `distance` is what `rand::random` drew.
unfoldable pub random_id_in_bucket : NodeId → ℕ → NodeId → NodeId
unfolding distance_in_bucket xor_distance
random_id_in_bucket my_id bucket distance = xor_distance my_id (distance_in_bucket distance bucket)

-- `random` draws an id.
module _ (wire : Wire) {S : Type 0} (rpc : Rpc S) (random : rpc.World → rpc.World × NodeId) where
  abbrev pub State : Type 0
  State = Local S rpc.World

  -- The buckets from `bucket` on, so many of them.
  unfoldable pub refresh : ℕ → ℕ → State → State
  unfolding random_id_in_bucket lookup_node
  refresh zero bucket s = s
  refresh (suc count) bucket s =
      let (world, distance) = random s.world in
      let drawn : State = record { table = s.table; world = world } in
      let target = random_id_in_bucket rpc.my_contact.id bucket distance in
      refresh count (suc bucket) (lookup_node wire rpc drawn target).0

  unfoldable pub refresh_far : State → List Contact → State
  unfolding refresh xor_distance leading_zeros
  refresh_far s [] = s
  refresh_far s (closest_neighbour ∷ contacts) =
      refresh (leading_zeros (xor_distance closest_neighbour.id rpc.my_contact.id)) 0 s

  -- With the seed in the routing table.
  unfoldable pub join : State → State × List Contact
  unfolding lookup_node refresh_far
  join s =
      let (s', contacts) = lookup_node wire rpc s rpc.my_contact.id in
      (refresh_far s' contacts, contacts)

  unfoldable pub bootstrap : State → SocketAddr → State × Joined
  unfolding ping join
  bootstrap s seed =
      let (s', answer) = ping wire rpc s seed in
      elim answer [
        | none ↦ (s', refused unreachable)
        | some seed_id ↦
            let taught : State = record {
              table =
                  rpc.close_nodes.maybe_add_contact s'.table
                    (record { id = seed_id; address = seed });
              world = s'.world;
            } in
            let (s'', contacts) = join taught in
            if is_key seed_id rpc.my_contact.id
            then (s', refused self_seed)
            else (s'', joined contacts)
      ]

  -- What joining comes to, for what the seed answers to the PING.
  pub data Outcome (s : State) (seed : SocketAddr) : State × Joined → Type 0 where
    silent :
        (ping wire rpc s seed).1 ≡ none
        → Outcome s seed ((ping wire rpc s seed).0, refused unreachable)
    ourselves :
        (ping wire rpc s seed).1 ≡ some rpc.my_contact.id
        → Outcome s seed ((ping wire rpc s seed).0, refused self_seed)
    through :
        (seed_id : NodeId) (s' : State) (contacts : List Contact)
        → (ping wire rpc s seed).1 ≡ some seed_id
        → seed_id ≢ rpc.my_contact.id
        → IsAnswer rpc.my_contact.id rpc.my_contact.id contacts
        → Outcome s seed (s', joined contacts)

  module _ (Inv : S → Type 0) (sound : IsSound rpc Inv) where
    -- A seed that does not answer, or that is the node itself, is an error, and nothing happens after
    -- its PING; through any other, the node finds at most `k` contacts, the nearest to itself first, and
    -- never itself.
    pub bootstrap-Outcome :
        (s : State) (seed : SocketAddr)
        → Keeps wire rpc Inv sound s
        → Outcome s seed (bootstrap s seed)
    unfolding bootstrap join
    bootstrap-Outcome s seed v = elim (Option-cases (ping wire rpc s seed).1) [
      | inl absent ↦ rw (absent, bootstrap) (silent absent)
      | inr (seed_id, answer) ↦ elim (Bool-cases (is_key seed_id rpc.my_contact.id)) [
        | inl same ↦
            rw (answer, bootstrap, same)
              (ourselves (answer ∙ ap some (is_key-true seed_id rpc.my_contact.id same)))
        | inr other ↦
            let s' = (ping wire rpc s seed).0 in
            let taught : State = record {
              table =
                  rpc.close_nodes.maybe_add_contact s'.table
                    (record { id = seed_id; address = seed });
              world = s'.world;
            } in
            let kept =
              sound.routing.maybe_add_contact-Inv s'.table (record { id = seed_id; address = seed })
                (ping-IsId wire rpc Inv sound s seed seed_id answer)
                (ping-Keeps wire rpc Inv sound s seed v) in
            rw (answer, bootstrap, other)
              (through seed_id _ (lookup_node wire rpc taught rpc.my_contact.id).1 answer
                (is_key-false seed_id rpc.my_contact.id other)
                (lookup_node-IsAnswer wire rpc Inv sound rpc.my_contact.id sound.my_id-IsId taught
                  kept).1)
      ]
    ]
