-- ===== src/Tests/Values.antt =====
-- STORE requests on concrete values.
use kademlia_packet_manager.Prelude.{ℕ, zero, suc, ◌≡◌, refl, Option, none, some, List, [], ◌∷◌}
use kademlia_packet_manager.DashMap.{DashMap, assoc_map}
use kademlia_packet_manager.CloseNodes.{Key, id_discrete}
use kademlia_packet_manager.Package.{Str, Signed, LatestPointer}
use kademlia_packet_manager.VersionChain.Compare.{signed_discrete}
use kademlia_packet_manager.Store.{Value, blob, latest, StoreRequest, value_key, handle, stored}
use kademlia_packet_manager.Store.Accepted.{Outcome, handle-Outcome}
use kademlia_packet_manager.Store.History.{handle_all, handle_all-monotonic, IsNoOlder}
use kademlia_packet_manager.Tests.Chains.{libraries, pointer, first, second, digest}

abbrev values_map : DashMap Key Value
values_map = assoc_map id_discrete

-- A request with the pointer and its history, and one with a blob under the pointer's key.
abbrev publish : StoreRequest
publish = record {
  key = value_key libraries (latest pointer);
  value = latest pointer;
  proof = first ∷ second ∷ [];
}

abbrev squat : StoreRequest
squat = record { key = digest (97 ∷ []); value = blob (97 ∷ []); proof = [] }

abbrev decode_request : List ℕ → Option StoreRequest
decode_request [] = none
decode_request (zero ∷ bytes) = some publish
decode_request (suc n ∷ bytes) = some squat

abbrev dns : Str → Option ℕ
dns domain = some 5

abbrev holding : List (Key × Value)
holding = (digest (97 ∷ []), latest pointer) ∷ []

handle-Outcome_example :
    Outcome libraries values_map dns decode_request []
      (handle libraries values_map dns decode_request [] (0 ∷ []))
handle-Outcome_example = handle-Outcome libraries values_map dns decode_request [] (0 ∷ [])

-- The pointer is taken, and the blob under its key is not.
taken : handle libraries values_map dns decode_request [] (0 ∷ []) ≡ (holding, some stored)
unfolding handle id_discrete signed_discrete
taken = refl

squatted : handle libraries values_map dns decode_request holding (1 ∷ []) ≡ (holding, none)
unfolding handle id_discrete signed_discrete
squatted = refl

holding-pointer : values_map.get holding (digest (97 ∷ [])) ≡ some (latest pointer)
unfolding id_discrete
holding-pointer = refl

handle_all-monotonic_example :
    (new : Signed LatestPointer) × (values_map.get
        (handle_all libraries values_map decode_request
          ((dns, 1 ∷ []) ∷ (dns, 0 ∷ []) ∷ [])
          holding)
        (digest (97 ∷ []))
      ≡ some (latest new))
    × IsNoOlder new pointer
handle_all-monotonic_example =
    handle_all-monotonic libraries values_map decode_request ((dns, 1 ∷ []) ∷ (dns, 0 ∷ []) ∷ [])
      holding (digest (97 ∷ [])) pointer holding-pointer
