-- ===== src/BlockingQueue/Ring.antt =====
-- The ring of the queue between threads: one round of each function.
use network_c_http.Base.{
  ℕ, suc, ◌+◌, ◌-◌, ◌%◌, ◌≤◌, ◌<◌, ◌≡◌, refl, true, false, ◌&&◌, List, [], ◌∷◌, ◌++◌, arith, ok,
  lt→ltb, ◌≢◌, ltb, ◌==◌,
}
use native.Mathlib.Decide.{dec_lt}
use network_c_http.Base.Modulo.{mod_cases}
use network_c_http.Base.Cells.{update}
use network_c_http.Base.Window.{window, window_of_pos, window-update}
use network_c_http.BlockingQueue.{
  Queue, u32, waits, returns, queue_new_with_capacity, queue_remove, queue_add, is_empty, is_full,
  round_on, advance_first_pointer, advance_next_pointer,
}

module _ {A : Type 0} where
  pub record IsValid (q : Queue A) : Type 0 where
    pub room : q.q.size ≡ q.max_size
    pub small : q.max_size < u32
    pub bounded : q.size ≤ q.max_size
    pub first_in : 0 < q.max_size → q.first < q.max_size
    pub next_in : 0 < q.max_size → q.next ≡ (q.first + q.size) % q.max_size
    pub degenerate : q.max_size ≡ 0 → q.first ≡ q.next

  -- The entries, oldest first.
  abbrev pub contents : Queue A → List A
  contents q = window q.max_size q.q.cell q.first q.size

  pub new-IsValid :
      (uninitialised : ℕ → A) (capacity : ℕ)
      → IsValid (queue_new_with_capacity uninitialised capacity)
  unfolding queue_new_with_capacity
  new-IsValid uninitialised capacity = record {
    room = refl;
    small = omega arith;
    bounded = omega arith;
    first_in = λ p. p;
    next_in = λ p. omega (arith, mod_cases 0 (capacity % u32) (omega arith));
    degenerate = λ e. refl;
  }

  -- The queue after an entry is added.
  abbrev pub added : Queue A → A → Queue A
  added q x =
      let next = (q.next + 1) % u32 % q.max_size in
      record q {
        q = record q.q { cell = update q.q.cell q.next x };
        next = next;
        full = q.first == next && ltb 0 q.size;
        size = (q.size + 1) % u32;
      }

  pub add-waits : (q : Queue A) (x : A) → q.size ≡ q.max_size → queue_add q x ≡ ok waits
  unfolding queue_add
  add-waits q x e = ground arith

  -- The indices of a queue that holds fewer entries than it can.
  next-lt : (q : Queue A) → IsValid q → q.size < q.max_size → q.next < q.max_size
  next-lt q v h = omega (arith, v.next_in (omega arith))

  next-ne : (q : Queue A) → IsValid q → q.size < q.max_size → 0 < q.size → q.first ≢ q.next
  next-ne q v h p = λ e. omega (
    arith,
    v.next_in (omega arith),
    v.first_in (omega arith),
    mod_cases (q.first + q.size) q.max_size (omega (arith, v.first_in (omega arith))),
  )

  pub add-returns :
      (q : Queue A) (x : A)
      → IsValid q
      → q.size < q.max_size
      → queue_add q x ≡ ok (returns (added q x) (q.size == 0))
  unfolding queue_add advance_next_pointer is_full round_on
  add-returns q x v h =
      let room : ltb q.next q.q.size ≡ true =
        lt→ltb q.next q.q.size (omega (arith, v.room, next-lt q v h)) in
      let not_max : (q.size == q.max_size) ≡ false = ground arith in
      let not_full : (q.first == q.next && ltb 0 q.size) ≡ false = ground (arith, next-ne q v h) in
      let some_room : (q.max_size == 0) ≡ false = ground arith in
      let wakes : ((q.size + 1) % u32 == 1) ≡ (q.size == 0) = ground (arith, v.small) in
      rw (not_max, room, not_full, some_room, wakes) refl

  -- The index behind the entries goes on with them.
  next_round :
      (q : Queue A)
      → IsValid q
      → q.size < q.max_size
      → (q.next + 1) % u32 % q.max_size ≡ (q.first + (q.size + 1) % u32) % q.max_size
  next_round q v h =
      let first = v.first_in (omega arith) in
      let below = next-lt q v h in
      let a : (q.next + 1) % u32 ≡ q.next + 1 = omega (arith, v.small) in
      let b : (q.size + 1) % u32 ≡ q.size + 1 = omega (arith, v.small) in
      rw (a, b)
        (omega (
          arith,
          v.next_in (omega arith),
          mod_cases (q.first + q.size) q.max_size (omega arith),
          mod_cases (q.next + 1) q.max_size (omega arith),
          mod_cases (q.first + (q.size + 1)) q.max_size (omega arith),
        ))

  pub added-IsValid : (q : Queue A) (x : A) → IsValid q → q.size < q.max_size → IsValid (added q x)
  added-IsValid q x v h = record {
    room = v.room;
    small = v.small;
    bounded = omega (arith, v.small);
    first_in = v.first_in;
    next_in = λ p. next_round q v h;
    degenerate = λ e. absurd (omega arith);
  }

  pub contents-added :
      (q : Queue A) (x : A)
      → IsValid q
      → q.size < q.max_size
      → contents (added q x) ≡ contents q ++ (x ∷ [])
  contents-added q x v h =
      let size : (q.size + 1) % u32 ≡ suc q.size = omega (arith, v.small) in
      rw size (
        window-update q.max_size q.q.cell q.first x q.size q.next (v.first_in (omega arith)) h
          (v.next_in (omega arith)))

  -- The queue after its oldest entry is removed.
  abbrev pub removed : Queue A → Queue A
  removed q =
      let first = (q.first + 1) % u32 % q.max_size in
      record q {
        first = first;
        full = first == q.next && ltb 0 q.size;
        size = (q.size + u32 - 1) % u32;
      }

  first_is_next : (q : Queue A) → IsValid q → q.size ≡ 0 → q.first ≡ q.next
  first_is_next q v e = elim (dec_lt 0 q.max_size) [
    | yes p ↦ omega (
      arith,
      v.next_in p,
      v.first_in p,
      mod_cases (q.first + q.size) q.max_size (omega (arith, v.first_in p)),
    )
    | no p ↦ v.degenerate (omega arith)
  ]

  pub remove-waits : (q : Queue A) → IsValid q → q.size ≡ 0 → queue_remove q ≡ ok waits
  unfolding queue_remove is_empty
  remove-waits q v e =
      let empty : (q.first == q.next && q.size == 0) ≡ true = ground (arith, first_is_next q v e) in
      rw empty refl

  pub remove-returns :
      (q : Queue A)
      → IsValid q
      → 0 < q.size
      → queue_remove q ≡ ok (returns (removed q, q.q.cell q.first) true)
  unfolding queue_remove is_empty advance_first_pointer round_on is_full
  remove-returns q v h =
      let first = v.first_in (omega (arith, v.bounded)) in
      let room : ltb q.first q.q.size ≡ true = lt→ltb q.first q.q.size (omega (arith, v.room)) in
      let not_empty : (q.first == q.next && q.size == 0) ≡ false = ground arith in
      let some_room : (q.max_size == 0) ≡ false = ground arith in
      let wakes : ltb ((q.size + u32 - 1) % u32) q.max_size ≡ true =
        ground (arith, v.small, v.bounded) in
      rw (not_empty, room, some_room, wakes) refl

  -- The index behind the entries stays when the oldest goes.
  first_round :
      (q : Queue A)
      → IsValid q
      → 0 < q.size
      → q.next ≡ ((q.first + 1) % u32 % q.max_size + (q.size + u32 - 1) % u32) % q.max_size
  first_round q v h =
      let first = v.first_in (omega (arith, v.bounded)) in
      let a : (q.first + 1) % u32 ≡ q.first + 1 = omega (arith, v.small) in
      let b : (q.size + u32 - 1) % u32 ≡ q.size - 1 = omega (arith, v.small, v.bounded) in
      rw (a, b)
        (omega (
          arith,
          v.bounded,
          v.next_in (omega arith),
          mod_cases (q.first + q.size) q.max_size (omega (arith, v.bounded)),
          mod_cases (q.first + 1) q.max_size (omega arith),
          mod_cases ((q.first + 1) % q.max_size + (q.size - 1)) q.max_size
              (omega (arith, v.bounded)),
        ))

  pub removed-IsValid : (q : Queue A) → IsValid q → 0 < q.size → IsValid (removed q)
  removed-IsValid q v h =
      let first = v.first_in (omega (arith, v.bounded)) in
      record {
        room = v.room;
        small = v.small;
        bounded = omega (arith, v.small, v.bounded);
        first_in = λ p. omega arith;
        next_in = λ p. first_round q v h;
        degenerate = λ e. absurd (omega (arith, v.bounded));
      }

  pub contents_of_pos :
      (q : Queue A) → IsValid q → 0 < q.size → contents q ≡ q.q.cell q.first ∷ contents (removed q)
  contents_of_pos q v h =
      let first = v.first_in (omega (arith, v.bounded)) in
      let size : (q.size + u32 - 1) % u32 ≡ q.size - 1 = omega (arith, v.small, v.bounded) in
      let step : (q.first + 1) % u32 ≡ q.first + 1 = omega (arith, v.small) in
      rw (size, step) (window_of_pos q.max_size q.q.cell q.first q.size first h)
