-- ===== src/Store/History.antt =====
-- The values through any requests: pointers move only forward.
use kademlia_packet_manager.Prelude.{
  ℕ, ◌≡◌, ◌⊎◌, ◌∙◌, refl, sym, ap, subst, true, Option, some, List, [], ◌∷◌, inl, inr, arith,
}
use kademlia_packet_manager.DashMap.{DashMap}
use kademlia_packet_manager.CloseNodes.{Key, id_discrete}
use kademlia_packet_manager.Package.{
  Str, Version, version_cmp, version_lt, Signed, LatestPointer, Libraries,
}
use kademlia_packet_manager.Store.{Value, blob, latest, StoreRequest, value_key, handle}
use kademlia_packet_manager.Store.Accepted.{
  Outcome, declined, stored_value, Replaces, handle-Outcome,
}

pub version_lt_trans :
    (a b c : Version) → version_lt a b ≡ true → version_lt b c ≡ true → version_lt a c ≡ true
unfolding version_lt version_cmp
version_lt_trans a b c p q = grind arith

-- The pointer is the same, or one of a higher version.
abbrev pub IsNoOlder : Signed LatestPointer → Signed LatestPointer → Type 0
IsNoOlder new old = (old ≡ new) ⊎ (version_lt old.body.version new.body.version ≡ true)

IsNoOlder-trans : (a b c : Signed LatestPointer) → IsNoOlder b a → IsNoOlder c b → IsNoOlder c a
IsNoOlder-trans a b c (inl p) (inl q) = inl (p ∙ q)
IsNoOlder-trans a b c (inl p) (inr q) =
    inr (subst (λ z. version_lt z.body.version c.body.version ≡ true) (sym p) q)
IsNoOlder-trans a b c (inr p) (inl q) =
    inr (subst (λ z. version_lt a.body.version z.body.version ≡ true) q p)
IsNoOlder-trans a b c (inr p) (inr q) =
    inr (version_lt_trans a.body.version b.body.version c.body.version p q)

module _ (lib : Libraries) (map : DashMap Key Value)
    (deserialize_request : List ℕ → Option StoreRequest) where
  -- The requests in the order in which they are served, each with what the DNS says at that time.
  unfoldable pub handle_all : List ((Str → Option lib.VerifyingKey) × List ℕ) → map.Map → map.Map
  handle_all [] values = values
  handle_all (r ∷ rs) values = handle_all rs (handle lib map r.0 deserialize_request values r.1).0

  abbrev Slot : map.Map → Key → Signed LatestPointer → Type 0
  Slot values key old =
      (new : Signed LatestPointer) × (map.get values key ≡ some (latest new)) × IsNoOlder new old

  handle-Slot :
      (dns : Str → Option lib.VerifyingKey) (values : map.Map) (body : List ℕ) (key : Key)
      (old : Signed LatestPointer)
      → map.get values key ≡ some (latest old)
      → Slot (handle lib map dns deserialize_request values body).0 key old
  handle-Slot dns values body key old found =
      by_outcome (handle lib map dns deserialize_request values body)
        (handle-Outcome lib map dns deserialize_request values body)
    where
      replaced :
          (v : Value) (at : Key) (reply : List ℕ)
          → Replaces lib map dns deserialize_request (map.get values at) v
          → Dec (Path Key key at)
          → Slot (map.insert values at v) key old
      replaced v at reply r (no n) = (old, map.get-insert_ne values at key v n ∙ found, inl refl)
      replaced (blob bytes) at reply r (yes p) =
          let here : map.get values at ≡ some (latest old) = rw (← p) found in absurd (rw here at r)
      replaced (latest new) at reply r (yes p) =
          let here : map.get values at ≡ some (latest old) = rw (← p) found in
          let held : map.get (map.insert values at (latest new)) key ≡ some (latest new) =
            rw p (map.get-insert values at (latest new)) in
          (new, held, no_older (rw here at r))
        where
          no_older :
              Replaces lib map dns deserialize_request (some (latest old)) (latest new)
              → IsNoOlder new old
          no_older (inl e) = inl e
          no_older (inr h) = inr h.0

      by_outcome :
          (o : map.Map × Option (List ℕ))
          → Outcome lib map dns deserialize_request values o
          → Slot o.0 key old
      by_outcome o declined = (old, found, inl refl)
      by_outcome o (stored_value v reply owned r) =
          replaced v (value_key lib v) reply r (id_discrete key (value_key lib v))

  -- Once a latest pointer stands under a key, a latest pointer stands there after any further requests,
  -- whatever they hold and whatever the DNS answers: the same one or one of a higher version.
  pub handle_all-monotonic :
      (requests : List ((Str → Option lib.VerifyingKey) × List ℕ)) (values : map.Map) (key : Key)
      (old : Signed LatestPointer)
      → map.get values key ≡ some (latest old)
      → (new : Signed LatestPointer) × (map.get (handle_all requests values) key
          ≡ some (latest new))
        × IsNoOlder new old
  unfolding handle_all
  handle_all-monotonic [] values key old found = (old, found, inl refl)
  handle_all-monotonic (r ∷ rs) values key old found =
      let (mid, held, newer) = handle-Slot r.0 values r.1 key old found in
      let (new, held', newer') = handle_all-monotonic rs _ key mid held in
      (new, held', IsNoOlder-trans old mid new newer newer')

  -- Every value stands under its own key: a blob under its hash, a pointer under its package's.
  pub record IsKeyed (values : map.Map) : Type 0 where
    pub keyed : (key : Key) (v : Value) → map.get values key ≡ some v → key ≡ value_key lib v

  handle-IsKeyed :
      (dns : Str → Option lib.VerifyingKey) (values : map.Map) (body : List ℕ)
      → IsKeyed values
      → IsKeyed (handle lib map dns deserialize_request values body).0
  handle-IsKeyed dns values body h =
      by_outcome (handle lib map dns deserialize_request values body)
        (handle-Outcome lib map dns deserialize_request values body)
    where
      by_outcome :
          (o : map.Map × Option (List ℕ))
          → Outcome lib map dns deserialize_request values o
          → IsKeyed o.0
      by_outcome o declined = h
      by_outcome o (stored_value v reply owned r) = record {
        keyed = λ key v' found. elim (id_discrete key (value_key lib v)) [
          | yes p ↦
              let here : map.get (map.insert values (value_key lib v) v) (value_key lib v)
                  ≡ some v' =
                subst (λ z. map.get (map.insert values (value_key lib v) v) z ≡ some v') p found in
              let there : map.get (map.insert values (value_key lib v) v) (value_key lib v)
                  ≡ some v =
                map.get-insert values (value_key lib v) v in
              let same : v ≡ v' = cc (here, there) in p ∙ ap (value_key lib) same
          | no n ↦ h.keyed key v' (sym (map.get-insert_ne values (value_key lib v) key v n) ∙ found)
        ];
      }

  -- If every value stands under its own key, then so it does after any requests.
  pub handle_all-IsKeyed :
      (requests : List ((Str → Option lib.VerifyingKey) × List ℕ)) (values : map.Map)
      → IsKeyed values
      → IsKeyed (handle_all requests values)
  unfolding handle_all
  handle_all-IsKeyed [] values h = h
  handle_all-IsKeyed (r ∷ rs) values h = handle_all-IsKeyed rs _ (handle-IsKeyed r.0 values r.1 h)
