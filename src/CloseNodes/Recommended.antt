-- ===== src/CloseNodes/Recommended.antt =====
-- src/close_nodes.rs, `recommended`: the cache over the sibling list over the buckets.
use kademlia_packet_manager.Prelude.{ℕ, refl, List, All, arith}
use kademlia_packet_manager.DashMap.{DashMap}
use kademlia_packet_manager.Heapless.{HeaplessVec}
use kademlia_packet_manager.CloseNodes.{NodeId, Contact, CloseNodes, IsId, k, b_bits}
use kademlia_packet_manager.CloseNodes.Contract.{Call, IsCall, IsAnswer, run, run-IsAnswer}
use kademlia_packet_manager.CloseNodes.StaticBucket
use kademlia_packet_manager.CloseNodes.StaticBucket.{StaticBucket, static_bucket}
use kademlia_packet_manager.CloseNodes.StaticBucket.Buckets.{new-IsValid}
use kademlia_packet_manager.CloseNodes.StaticBucket.Answers.{Inv, static_bucket-IsRouting}
use kademlia_packet_manager.CloseNodes.SiblingList
use kademlia_packet_manager.CloseNodes.SiblingList.{SiblingList, sibling_list}
use kademlia_packet_manager.CloseNodes.SiblingList.Layer.{
  sibling_list-IsRouting, new-IsValid as siblings_new-IsValid,
}
use kademlia_packet_manager.CloseNodes.Cache.{Entry, CachedCloseNodes, cached, ttl_only}
use kademlia_packet_manager.CloseNodes.Cache.Routing.{cached-IsRouting, ttl_only-IsValid}

abbrev pub routing_buckets : ℕ
routing_buckets = b_bits

abbrev pub siblings : ℕ
siblings = k

-- `CACHE_TTL`, in milliseconds.
abbrev pub cache_ttl : ℕ
cache_ttl = 500

abbrev pub cache_capacity : ℕ
cache_capacity = 64

module _ (map : DashMap NodeId Entry) (hv : HeaplessVec Contact) where
  abbrev pub RecommendedCloseNodes : Type 0
  RecommendedCloseNodes = CachedCloseNodes map (SiblingList StaticBucket)

  unfoldable pub recommended : NodeId → RecommendedCloseNodes
  unfolding ttl_only SiblingList.new StaticBucket.new
  recommended my_id =
      ttl_only map (SiblingList.new my_id (StaticBucket.new k 0 routing_buckets my_id)) cache_ttl
        cache_capacity

  abbrev pub layers : CloseNodes (SiblingList StaticBucket)
  layers = sibling_list siblings hv (static_bucket k 0 routing_buckets hv)

  -- Whatever contacts are offered and removed, and whatever the cache holds, every answer of the
  -- recommended table lists at most `k` contacts, strictly nearest first (so none twice), all with
  -- ids of 32 bytes, and never the node itself.
  pub recommended-IsAnswer :
      (my_id : NodeId) (calls : List Call)
      → IsId my_id
      → All IsCall calls
      → All (λ r. IsAnswer my_id r.0 r.1) (run (cached map layers) calls (recommended my_id)).1
  unfolding recommended
  recommended-IsAnswer my_id calls mine w =
      let buckets = static_bucket-IsRouting k 0 routing_buckets (omega arith) hv my_id in
      let over =
        sibling_list-IsRouting my_id mine siblings hv (static_bucket k 0 routing_buckets hv)
          (Inv k 0 routing_buckets (omega arith) hv my_id) buckets in
      (run-IsAnswer _ my_id _ (cached-IsRouting map layers my_id _ over) calls _ w (
        ttl_only-IsValid map layers my_id _ over _ cache_ttl cache_capacity (
          siblings_new-IsValid my_id mine siblings hv (static_bucket k 0 routing_buckets hv)
            (Inv k 0 routing_buckets (omega arith) hv my_id) buckets _
            (new-IsValid k 0 routing_buckets my_id mine, refl)))).1
