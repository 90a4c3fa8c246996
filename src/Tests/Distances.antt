-- ===== src/Tests/Distances.antt =====
-- The distance on concrete ids.
use kademlia_packet_manager.Prelude.{◌+◌, ◌*◌, ◌^◌, ◌≤◌, ◌<◌, ◌≡◌, ◌⊎◌, compare, arith}
use kademlia_packet_manager.CloseNodes.{xor_distance, xor_distance_cmp, leading_zeros, b_bits}
use kademlia_packet_manager.CloseNodes.Numeric.{value, xor_distance_cmp-value}
use kademlia_packet_manager.CloseNodes.LeadingZeros.{leading_zeros_bounds}
use kademlia_packet_manager.Tests.Fixtures.{id_of, id_of-IsId}

xor_distance_cmp-value_example :
    xor_distance_cmp (id_of 4) (id_of 7) (id_of 5)
    ≡ compare (value (xor_distance (id_of 4) (id_of 5))) (value (xor_distance (id_of 7) (id_of 5)))
xor_distance_cmp-value_example =
    xor_distance_cmp-value (id_of 4) (id_of 7) (id_of 5) (id_of-IsId 4 (omega arith))
      (id_of-IsId 7 (omega arith)) (id_of-IsId 5 (omega arith))

leading_zeros_bounds_example :
    (value (id_of 4) * 2 ^ leading_zeros (id_of 4) < 2 ^ b_bits)
    × ((value (id_of 4) ≡ 0) × (leading_zeros (id_of 4) ≡ b_bits)
        ⊎ (2 ^ b_bits ≤ value (id_of 4) * 2 ^ (leading_zeros (id_of 4) + 1))
          × (leading_zeros (id_of 4) < b_bits))
leading_zeros_bounds_example = leading_zeros_bounds (id_of 4) (id_of-IsId 4 (omega arith))
