-- ===== src/DashMap.antt =====
-- `dashmap::DashMap<K, V>`, which is not part of the repository: a concurrent hash map. Its type and
-- the methods that the program calls are parameters, with what its documentation states of them.
use kademlia_packet_manager.Prelude.{
  ℕ, suc, ◌≤◌, ◌≡◌, ◌≢◌, refl, sym, ◌∙◌, ite, if_pos, if_neg, Bool, Option, none, some, List, [],
  ◌∷◌, length, arith, if◌then◌else◌, Bool-cases, inl, inr,
}

pub record DashMap (K V : Type 0) : Type 1 where
  pub Map : Type 0
  -- `new`, and what `clear` leaves.
  pub empty : Map
  pub get : Map → K → Option V
  pub insert : Map → K → V → Map
  pub remove : Map → K → Map
  pub retain : Map → (K → V → Bool) → Map
  pub len : Map → ℕ
  pub get-empty : (k : K) → get empty k ≡ none
  pub get-insert : (m : Map) (k : K) (v : V) → get (insert m k v) k ≡ some v
  pub get-insert_ne : (m : Map) (k k' : K) (v : V) → k' ≢ k → get (insert m k v) k' ≡ get m k'
  pub get-remove : (m : Map) (k : K) → get (remove m k) k ≡ none
  pub get-remove_ne : (m : Map) (k k' : K) → k' ≢ k → get (remove m k) k' ≡ get m k'
  pub get-retain :
      (m : Map) (p : K → V → Bool) (k : K) (v : V) → get (retain m p) k ≡ some v → get m k ≡ some v
  pub len-empty : len empty ≡ 0
  pub len-insert : (m : Map) (k : K) (v : V) → len (insert m k v) ≤ suc (len m)

-- An association list has this behaviour: the runs on concrete inputs use it.
module _ {K V : Type 0} (key_discrete : Discrete K) where
  abbrev pub assoc_get : List (K × V) → K → Option V
  assoc_get [] k = none
  assoc_get (p ∷ ps) k = ite (key_discrete p.0 k) (some p.1) (assoc_get ps k)

  abbrev pub assoc_remove : List (K × V) → K → List (K × V)
  assoc_remove [] k = []
  assoc_remove (p ∷ ps) k = ite (key_discrete p.0 k) (assoc_remove ps k) (p ∷ assoc_remove ps k)

  abbrev pub assoc_retain : List (K × V) → (K → V → Bool) → List (K × V)
  assoc_retain [] q = []
  assoc_retain (p ∷ ps) q =
      let rest = assoc_retain ps q in if q p.0 p.1 then p ∷ rest else assoc_remove rest p.0

  pub assoc_get-remove : (m : List (K × V)) (k : K) → assoc_get (assoc_remove m k) k ≡ none
  assoc_get-remove [] k = refl
  assoc_get-remove (p ∷ ps) k = elim (key_discrete p.0 k) [
    | yes e ↦ rw (if_pos _ e) (assoc_get-remove ps k)
    | no n ↦ rw (if_neg _ n, if_neg _ n) (assoc_get-remove ps k)
  ]

  pub assoc_get-remove_ne :
      (m : List (K × V)) (k k' : K) → k' ≢ k → assoc_get (assoc_remove m k) k' ≡ assoc_get m k'
  assoc_get-remove_ne [] k k' d = refl
  assoc_get-remove_ne (p ∷ ps) k k' d = elim (key_discrete p.0 k) [
    | yes e ↦
        rw (if_pos _ e, if_neg (key_discrete p.0 k') (λ q. d (sym q ∙ e)))
          (assoc_get-remove_ne ps k k' d)
    | no n ↦ rw (if_neg _ n, assoc_get-remove_ne ps k k' d) refl
  ]

  pub length-assoc_remove-le : (m : List (K × V)) (k : K) → length (assoc_remove m k) ≤ length m
  length-assoc_remove-le [] k = omega arith
  length-assoc_remove-le (p ∷ ps) k = elim (key_discrete p.0 k) [
    | yes e ↦ rw (if_pos _ e) (omega (arith, length-assoc_remove-le ps k))
    | no n ↦ rw (if_neg _ n) (omega (arith, length-assoc_remove-le ps k))
  ]

  abbrev pub assoc_insert : List (K × V) → K → V → List (K × V)
  assoc_insert m k v = (k, v) ∷ assoc_remove m k

  pub assoc_get-insert :
      (m : List (K × V)) (k : K) (v : V) → assoc_get (assoc_insert m k v) k ≡ some v
  assoc_get-insert m k v = elim (key_discrete k k) [
    | yes e ↦ rw (if_pos _ e) refl
    | no n ↦ absurd (n refl)
  ]

  pub assoc_get-insert_ne :
      (m : List (K × V)) (k k' : K) (v : V)
      → k' ≢ k
      → assoc_get (assoc_insert m k v) k' ≡ assoc_get m k'
  assoc_get-insert_ne m k k' v d = elim (key_discrete k k') [
    | yes e ↦ absurd (d (sym e))
    | no n ↦ rw (if_neg _ n) (assoc_get-remove_ne m k k' d)
  ]

  pub assoc_get-retain :
      (m : List (K × V)) (q : K → V → Bool) (k : K) (v : V)
      → assoc_get (assoc_retain m q) k ≡ some v
      → assoc_get m k ≡ some v
  assoc_get-retain [] q k v e = e
  assoc_get-retain (p ∷ ps) q k v e = elim (Bool-cases (q p.0 p.1)) [
    | inl t ↦
        let kept : assoc_get (p ∷ assoc_retain ps q) k ≡ some v = rw t at e in
        elim (key_discrete p.0 k) [
          | yes same ↦ rw (if_pos _ same) (rw (if_pos _ same) at kept)
          | no n ↦ rw (if_neg _ n) (assoc_get-retain ps q k v (rw (if_neg _ n) at kept))
        ]
    | inr f ↦
        let kept : assoc_get (assoc_remove (assoc_retain ps q) p.0) k ≡ some v = rw f at e in
        elim (key_discrete p.0 k) [
          | yes same ↦ absurd (removed (assoc_retain ps q) p.0 k v same kept)
          | no n ↦ rw (if_neg _ n) (
              assoc_get-retain ps q k v
                (sym (assoc_get-remove_ne (assoc_retain ps q) p.0 k (λ z. n (sym z))) ∙ kept))
        ]
  ]
    where
      removed :
          (m : List (K × V)) (k k' : K) (v : V)
          → k ≡ k'
          → assoc_get (assoc_remove m k) k' ≡ some v
          → ⊥
      removed m k k' v same e =
          let gone : assoc_get (assoc_remove m k) k ≡ none = assoc_get-remove m k in
          cc (same, gone, e)

  abbrev pub assoc_map : DashMap K V
  assoc_map = record {
    Map = List (K × V);
    empty = [];
    get = assoc_get;
    insert = assoc_insert;
    remove = assoc_remove;
    retain = assoc_retain;
    len = length;
    get-empty = λ k. refl;
    get-insert = assoc_get-insert;
    get-insert_ne = assoc_get-insert_ne;
    get-remove = assoc_get-remove;
    get-remove_ne = assoc_get-remove_ne;
    get-retain = assoc_get-retain;
    len-empty = refl;
    len-insert = λ m k v. omega (arith, length-assoc_remove-le m k);
  }
