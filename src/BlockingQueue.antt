-- ===== src/BlockingQueue.antt =====
-- The queue between threads: src/common/queue.c, compiled with QUEUE_CIRCULAR and
-- QUEUE_DYN_CAPACITY.
-- A critical section runs alone, since the mutex is held; it ends when the mutex is unlocked or when
-- `pthread_cond_wait` gives it up, and a woken thread tests its condition again. So each function is
-- modelled by one round of its `while`, which either goes to wait or does the rest of the function.
-- The counters are `uint32_t`. A remainder by 0 is undefined.
pub mod Ring
pub mod Monitor
pub mod Fairness
mod Tests
use network_c_http.Base.{
  ℕ, ◌+◌, ◌-◌, ◌%◌, ◌^◌, Bool, true, false, not, ◌&&◌, Outcome, ok, fault, ◌>>=◌, ◌>>◌, assert,
  if◌then◌else◌, ltb, ◌==◌,
}
use network_c_http.Base.Cells.{Block, load, store}

abbrev pub u32 : ℕ
u32 = 2 ^ 32

pub record Queue (A : Type 0) : Type 0 where
  pub q : Block A
  pub size : ℕ
  pub max_size : ℕ
  pub next : ℕ
  pub first : ℕ
  pub full : Bool

-- How a round ends: in `pthread_cond_wait`, or with the function's result and whether the other
-- condition variable was broadcast.
pub data Round (R : Type 0) : Type 0 where
  waits : Round R
  returns : R → Bool → Round R

module _ {A : Type 0} where
  unfoldable pub is_full : Queue A → Bool
  is_full q = q.first == q.next && ltb 0 q.size

  unfoldable pub is_empty : Queue A → Bool
  is_empty q = q.first == q.next && q.size == 0

  unfoldable pub q_size : Queue A → ℕ
  q_size q = if ltb q.next q.first then (q.next + q.max_size) % u32 - q.first else q.next - q.first

  -- The new value of an index.
  unfoldable pub round_on : Queue A → ℕ → Outcome ℕ
  round_on q i = if q.max_size == 0 then fault else ok ((i + 1) % u32 % q.max_size)

  unfoldable pub advance_next_pointer : Queue A → Outcome (Queue A)
  unfolding is_full round_on
  advance_next_pointer q = do
    assert (not (is_full q))
    next ← round_on q q.next
    let q' : Queue A = record q { next = next }
    ok (record q' { full = is_full q' })

  unfoldable pub advance_first_pointer : Queue A → Outcome (Queue A)
  unfolding is_full is_empty round_on
  advance_first_pointer q = do
    assert (not (is_empty q))
    first ← round_on q q.first
    let q' : Queue A = record q { first = first }
    ok (record q' { full = is_full q' })

  -- `capacity` is a `size_t`; `uninitialised` is what `malloc` leaves in the block.
  unfoldable pub queue_new_with_capacity : (uninitialised : ℕ → A) → ℕ → Queue A
  queue_new_with_capacity uninitialised capacity = record {
    q = record { size = capacity % u32; cell = uninitialised };
    size = 0;
    max_size = capacity % u32;
    next = 0;
    first = 0;
    full = false;
  }

  unfoldable pub queue_new : (uninitialised : ℕ → A) → Queue A
  unfolding queue_new_with_capacity
  queue_new uninitialised = queue_new_with_capacity uninitialised 10000

  -- Waits on `not_empty_cv`; the flag tells of the broadcast of `not_full_cv`.
  unfoldable pub queue_remove : Queue A → Outcome (Round (Queue A × A))
  unfolding is_empty advance_first_pointer
  queue_remove q = if is_empty q then ok waits else do
    r ← load q.q q.first
    q1 ← advance_first_pointer q
    let q2 : Queue A = record q1 { size = (q1.size + u32 - 1) % u32 }
    ok (returns (q2, r) (ltb q2.size q2.max_size))

  -- Waits on `not_full_cv`; the flag tells of the broadcast of `not_empty_cv`.
  unfoldable pub queue_add : Queue A → A → Outcome (Round (Queue A))
  unfolding advance_next_pointer
  queue_add q sock = if q.size == q.max_size then ok waits else do
    block ← store q.q q.next sock
    q1 ← advance_next_pointer (record q { q = block })
    let q2 : Queue A = record q1 { size = (q1.size + 1) % u32 }
    ok (returns q2 (q2.size == 1))

  unfoldable pub queue_size : Queue A → ℕ
  queue_size q = q.size

  unfoldable pub queue_capacity : Queue A → ℕ
  queue_capacity q = q.max_size
