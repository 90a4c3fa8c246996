-- ===== src/Tests/Lookups.antt =====
-- Lookups in small networks.
use kademlia_packet_manager.Prelude.{
  ◌≡◌, ◌⊎◌, refl, ℕ, suc, List, replicate, [], ◌∷◌, some, Any, Has, arith, inl, inr, ℕ_discrete,
  list_discrete,
}
use kademlia_packet_manager.CloseNodes.{NodeId, Contact, id_discrete, xor_distance, leading_zeros}
use kademlia_packet_manager.CloseNodes.Contract.{IsAnswer}
use kademlia_packet_manager.Package.{key_for_value}
use kademlia_packet_manager.Store.{blob}
use kademlia_packet_manager.Rpc.{Local, FindValue, forget, find_value, with_table}
use kademlia_packet_manager.Rpc.Table.{Keeps}
use kademlia_packet_manager.Rpc.Forget.{AreMany, forget-AreMany}
use kademlia_packet_manager.Lookup.{lookup_node, final_search, merge, lookup_fuel}
use kademlia_packet_manager.Lookup.Answer.{lookup_node-IsAnswer}
use kademlia_packet_manager.Lookup.Calls.{IsComplete, final_search-IsComplete}
use kademlia_packet_manager.Lookup.Merge.{Covers, merge-Covers}
use kademlia_packet_manager.Lookup.Values.{holders, lookup_value, get_latest}
use kademlia_packet_manager.Lookup.Verified.{IsChosen, get_latest-IsChosen}
use kademlia_packet_manager.Lookup.Reaches.{lookup_value-returns}
use kademlia_packet_manager.Bootstrap.{
  Outcome, bootstrap, bootstrap-Outcome, random_id_in_bucket, distance_in_bucket,
}
use kademlia_packet_manager.Bootstrap.Bucket.{leading_zeros-random_id_in_bucket}
use kademlia_packet_manager.Tests.Fixtures.{id_of, id_of-IsId, contact_of, three}
use kademlia_packet_manager.Tests.Chains.{libraries, pointer}
use kademlia_packet_manager.Tests.Network.{
  wire, rpc, TableInv, rpc-IsSound, start, start-Inv, alone, at_rest,
}

lookup_node-IsAnswer_example :
    Keeps wire rpc TableInv rpc-IsSound (lookup_node wire rpc start (id_of 5)).0
    × IsAnswer (id_of 0) (id_of 5) (lookup_node wire rpc start (id_of 5)).1
lookup_node-IsAnswer_example =
    lookup_node-IsAnswer wire rpc TableInv rpc-IsSound (id_of 5) (id_of-IsId 5 (omega arith)) start
      start-Inv

final_search-IsComplete_example :
    IsComplete wire rpc (id_of 5) start.world (final_search wire rpc (id_of 5) start)
final_search-IsComplete_example =
    final_search-IsComplete wire rpc (id_of 5) TableInv rpc-IsSound (id_of-IsId 5 (omega arith))
      start start-Inv

merge-Covers_example : Covers (id_of 5) (contact_of 7) (merge (id_of 5) [] three)
merge-Covers_example =
    merge-Covers (id_of 5) [] three (contact_of 7) (id_of-IsId 5 (omega arith)) tt
      (id_of-IsId 4 (omega arith), (id_of-IsId 2 (omega arith), (id_of-IsId 7 (omega arith), tt)))
      (inr (inr (inl refl)))

forget-AreMany_example :
    (forget wire rpc start (contact_of 4) ≡ start)
    ⊎ ((forget wire rpc start (contact_of 4)
          ≡ with_table wire rpc start (rpc.close_nodes.remove_contact start.table (contact_of 4)))
        × (ids : List NodeId) × AreMany
            (λ id. Any (λ c. c.id ≡ id) (rpc.close_nodes.contacts_iter start.table))
            ids)
forget-AreMany_example = forget-AreMany wire rpc start (contact_of 4)

bootstrap-Outcome_example :
    Outcome wire rpc
      (λ w. (suc w, id_of 9))
      start
      (contact_of 4).address
      (bootstrap wire rpc (λ w. (suc w, id_of 9)) start (contact_of 4).address)
bootstrap-Outcome_example =
    bootstrap-Outcome wire rpc (λ w. (suc w, id_of 9)) TableInv rpc-IsSound start
      (contact_of 4).address start-Inv

-- The node that is alone has the blob itself.
blob_answered :
    (s : Local (Unit {0}) ℕ)
    → (find_value wire alone s (contact_of 0) (key_for_value libraries (7 ∷ []))).1
      ≡ FindValue.value (blob (7 ∷ []))
unfolding find_value key_for_value
blob_answered s = refl

alone_holds : Has (contact_of 0) (holders wire alone at_rest (key_for_value libraries (7 ∷ []))).1
unfolding holders lookup_fuel key_for_value
alone_holds = inl refl

lookup_value-returns_example :
    (source : Contact) × (out : List ℕ) × ((lookup_value wire alone libraries at_rest
        (key_for_value libraries (7 ∷ []))).1
      ≡ some (source, out))
lookup_value-returns_example =
    lookup_value-returns wire alone libraries at_rest (contact_of 0) (7 ∷ []) blob_answered
      alone_holds

latest_found :
    (get_latest wire alone libraries (λ domain. some 5) at_rest (97 ∷ []) (112 ∷ [])).1
    ≡ some pointer
unfolding get_latest lookup_fuel id_discrete list_discrete ℕ_discrete
latest_found = refl

get_latest-IsChosen_example :
    (owner : ℕ) × (some 5 ≡ some owner)
    × IsChosen wire alone libraries owner at_rest (97 ∷ []) (112 ∷ []) pointer
get_latest-IsChosen_example =
    get_latest-IsChosen wire alone libraries (λ domain. some 5) at_rest (97 ∷ []) (112 ∷ []) pointer
      latest_found

leading_zeros-random_id_in_bucket_example :
    leading_zeros (xor_distance (random_id_in_bucket (id_of 4) 13 (replicate 32 255)) (id_of 4))
    ≡ 13
leading_zeros-random_id_in_bucket_example =
    leading_zeros-random_id_in_bucket (id_of 4) (replicate 32 255) 13 (id_of-IsId 4 (omega arith))
      (record { bytes = omega arith; size = refl }) (omega arith)

-- Thirteen zeros, a one, and what was drawn.
in_bucket : distance_in_bucket (replicate 32 255) 13 ≡ 0 ∷ 7 ∷ replicate 30 255
unfolding distance_in_bucket
in_bucket = refl
