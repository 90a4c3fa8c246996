-- ===== src/Tests/Slots.antt =====
-- Requests in flight.
use kademlia_packet_manager.Prelude.{
  ℕ, ◌≡◌, ◌≢◌, refl, Bool, true, false, some, List, [], ◌∷◌, ℕ_discrete,
}
use kademlia_packet_manager.DashMap.{DashMap, assoc_map}
use kademlia_packet_manager.CloseNodes.{SocketAddr}
use kademlia_packet_manager.Pending.{
  Pending, PendingSlot, deliver, drop_response, reused, deliver_once, drop_response-stale,
}

abbrev slots_map : DashMap ℕ PendingSlot
slots_map = assoc_map ℕ_discrete

abbrev peer : SocketAddr
peer = record { ip = 1; port = 8000 }

abbrev other : SocketAddr
other = record { ip = 2; port = 8000 }

abbrev receives : ℕ → Bool
receives n = true

abbrev idle : Pending slots_map
idle = record { slots = []; channels = 0; sent = [] }

abbrev waiting : Pending slots_map
waiting = record {
  slots = (7, record { expected_peer = peer; tx = 0 }) ∷ [];
  channels = 1;
  sent = [];
}

deliver_once_example :
    ((deliver slots_map receives waiting 7 peer (5 ∷ [])).0.sent ≡ (0, 5 ∷ []) ∷ [])
    × ((again : List ℕ) (from : SocketAddr)
        → (deliver slots_map receives
            (deliver slots_map receives waiting 7 peer (5 ∷ [])).0
            7
            from
            again).1
          ≡ false)
    × ((from : SocketAddr)
        → peer ≢ from
        → deliver slots_map receives waiting 7 from (5 ∷ []) ≡ (waiting, false))
unfolding ℕ_discrete
deliver_once_example =
    deliver_once slots_map receives waiting 7 (record { expected_peer = peer; tx = 0 }) (5 ∷ [])
      refl

drop_response-stale_example :
    ((reused slots_map receives idle 7 peer (5 ∷ []) other).1 ≡ some (record { id = 7; rx = 1 }))
    × ((deliver slots_map receives
          (drop_response slots_map
            (reused slots_map receives idle 7 peer (5 ∷ []) other).0
            (record { id = 7; rx = 0 }))
          7
          other
          (6 ∷ [])).1
        ≡ false)
drop_response-stale_example =
    drop_response-stale slots_map receives idle 7 peer other (5 ∷ []) (6 ∷ []) refl
