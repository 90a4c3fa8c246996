-- ===== src/Heapless.antt =====
-- `heapless::Vec<A, N>`, which is not part of the repository: a vector in place, of a capacity
-- fixed by its type. It stands here for its contents, and its methods are parameters with the
-- behaviour that its documentation states.
use kademlia_packet_manager.Prelude.{
  ℕ, ◌<◌, ◌≤◌, ◌≡◌, refl, List, [], ◌∷◌, ◌++◌, length, ltb, if◌then◌else◌, arith,
}
use kademlia_packet_manager.Prelude.Vec.{insert_at, remove_at, swap_remove, pop}

pub record HeaplessVec (A : Type 0) : Type 0 where
  -- `push` and `insert` with their results dropped: the capacity, the contents, the arguments.
  pub push : ℕ → List A → A → List A
  pub insert : ℕ → List A → ℕ → A → List A
  pub pop_last : List A → List A
  pub remove : List A → ℕ → List A
  pub swap_remove_at : List A → ℕ → List A
  pub push_room : (n : ℕ) (xs : List A) (x : A) → length xs < n → push n xs x ≡ xs ++ x ∷ []
  pub push_full : (n : ℕ) (xs : List A) (x : A) → n ≤ length xs → push n xs x ≡ xs
  pub insert_room :
      (n : ℕ) (xs : List A) (i : ℕ) (x : A)
      → length xs < n
      → i ≤ length xs
      → insert n xs i x ≡ insert_at xs i x
  pub pop_lem : (xs : List A) → pop_last xs ≡ pop xs
  pub remove_lem : (xs : List A) (i : ℕ) → i < length xs → remove xs i ≡ remove_at xs i
  pub swap_remove_lem :
      (xs : List A) (i : ℕ) → i < length xs → swap_remove_at xs i ≡ swap_remove xs i

module _ {A : Type 0} where
  abbrev pub list_push : ℕ → List A → A → List A
  list_push n xs x = if ltb (length xs) n then xs ++ x ∷ [] else xs

  pub push_room_lem :
      (n : ℕ) (xs : List A) (x : A) → length xs < n → list_push n xs x ≡ xs ++ x ∷ []
  push_room_lem n xs x h = ground arith

  pub push_full_lem : (n : ℕ) (xs : List A) (x : A) → n ≤ length xs → list_push n xs x ≡ xs
  push_full_lem n xs x h = ground arith

  abbrev pub list_insert : ℕ → List A → ℕ → A → List A
  list_insert n xs i x = if ltb (length xs) n then insert_at xs i x else xs

  pub insert_room_lem :
      (n : ℕ) (xs : List A) (i : ℕ) (x : A)
      → length xs < n
      → i ≤ length xs
      → list_insert n xs i x ≡ insert_at xs i x
  insert_room_lem n xs i x h p = ground arith

  -- Lists with a check of the capacity behave as documented.
  abbrev pub list_heapless : HeaplessVec A
  list_heapless = record {
    push = list_push;
    insert = list_insert;
    pop_last = pop;
    remove = remove_at;
    swap_remove_at = swap_remove;
    push_room = push_room_lem;
    push_full = push_full_lem;
    insert_room = insert_room_lem;
    pop_lem = λ xs. refl;
    remove_lem = λ xs i p. refl;
    swap_remove_lem = λ xs i p. refl;
  }
