-- ===== src/Tests/Frames.antt =====
-- A framed request.
use kademlia_packet_manager.Prelude.{ℕ, ◌≡◌, ◌↔◌, some, List, [], ◌∷◌, ◌++◌, length}
use kademlia_packet_manager.Frames.{Method, tag, parse_framed, parse_framed_exact, node_id_len}
use kademlia_packet_manager.Tests.Fixtures.{id_of}

abbrev framed : List ℕ
framed = id_of 4 ++ (tag Method.store ++ (1 ∷ 2 ∷ []))

parse_framed_exact_example :
    (parse_framed framed ≡ some (id_of 4, Method.store, 1 ∷ 2 ∷ []))
    ↔ ((framed ≡ id_of 4 ++ (tag Method.store ++ (1 ∷ 2 ∷ []))) × (length (id_of 4) ≡ node_id_len))
parse_framed_exact_example = parse_framed_exact framed (id_of 4) Method.store (1 ∷ 2 ∷ [])
