-- ===== src/CloseNodes/Contract.antt =====
-- What the users of the routing table rely on, whatever its layers: every answer lists at most `k`
-- contacts, the nearest first, no id twice, and never the node itself.
use kademlia_packet_manager.Prelude.{ℕ, ◌≤◌, ◌≢◌, List, [], ◌∷◌, length, All}
use kademlia_packet_manager.CloseNodes.{NodeId, Contact, CloseNodes, IsId, k}
use kademlia_packet_manager.CloseNodes.Nearest.{IsNearestFirst}

pub record IsAnswer (my_id target : NodeId) (out : List Contact) : Type 0 where
  pub nearest_first : IsNearestFirst target out
  pub bounded : length out ≤ k
  pub well_formed : All (λ c. IsId c.id) out
  pub not_self : All (λ c. c.id ≢ my_id) out

-- A layer with an invariant `Inv` keeps it through every method, and answers as above. The contacts
-- offered and the targets are ids of 32 bytes.
pub record IsRouting {S : Type 0} (table : CloseNodes S) (my_id : NodeId) (Inv : S → Type 0)
    : Type 0 where
  pub close_nodes-Inv :
      (now : ℕ) (s : S) (id : NodeId) → IsId id → Inv s → Inv (table.close_nodes now s id).0
  pub close_nodes-IsAnswer :
      (now : ℕ) (s : S) (id : NodeId)
      → IsId id
      → Inv s
      → IsAnswer my_id id (table.close_nodes now s id).1
  pub maybe_add_contact-Inv :
      (s : S) (c : Contact) → IsId c.id → Inv s → Inv (table.maybe_add_contact s c)
  pub remove_contact-Inv : (s : S) (c : Contact) → Inv s → Inv (table.remove_contact s c)

-- The calls that a node makes on its routing table, and what they answer.
pub data Call : Type 0 where
  close_nodes : ℕ → NodeId → Call
  maybe_add_contact : Contact → Call
  remove_contact : Contact → Call

abbrev pub IsCall : Call → Type 0
IsCall (close_nodes now id) = IsId id
IsCall (maybe_add_contact c) = IsId c.id
IsCall (remove_contact c) = Unit

module _ {S : Type 0} (table : CloseNodes S) where
  -- The final state, and each answer with its target.
  unfoldable pub run : List Call → S → S × List (NodeId × List Contact)
  run [] s = (s, [])
  run (close_nodes now id ∷ calls) s =
      let (s', out) = table.close_nodes now s id in
      let (final, outs) = run calls s' in (final, (id, out) ∷ outs)
  run (maybe_add_contact c ∷ calls) s = run calls (table.maybe_add_contact s c)
  run (remove_contact c ∷ calls) s = run calls (table.remove_contact s c)

  module _ (my_id : NodeId) (Inv : S → Type 0) (routing : IsRouting table my_id Inv) where
    -- Through any calls the invariant holds, and every answer is as promised.
    pub run-IsAnswer :
        (calls : List Call) (s : S)
        → All IsCall calls
        → Inv s
        → Inv (run calls s).0 × All (λ r. IsAnswer my_id r.0 r.1) (run calls s).1
    unfolding run
    run-IsAnswer [] s w v = (v, tt)
    run-IsAnswer (close_nodes now id ∷ calls) s w v =
        let (inv, answers) =
          run-IsAnswer calls (table.close_nodes now s id).0 w.1
            (routing.close_nodes-Inv now s id w.0 v) in
        (inv, (routing.close_nodes-IsAnswer now s id w.0 v, answers))
    run-IsAnswer (maybe_add_contact c ∷ calls) s w v =
        run-IsAnswer calls _ w.1 (routing.maybe_add_contact-Inv s c w.0 v)
    run-IsAnswer (remove_contact c ∷ calls) s w v =
        run-IsAnswer calls _ w.1 (routing.remove_contact-Inv s c v)
