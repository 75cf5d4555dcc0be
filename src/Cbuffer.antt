-- ===== src/Cbuffer.antt =====
-- The growing character buffer: src/common/cbuffer.c.
-- `m_memPtr` and `m_cPtr` are always the same pointer, so one block stands for both. No object has
-- 2 ^ 63 bytes or more, so the sums of `size_t` do not wrap. `uninitialised` is what an allocation
-- leaves in the bytes that it adds.
pub mod Growth
pub mod Texts
mod Tests
use network_c_http.Base.{
  ℕ, ◌+◌, ◌*◌, ◌^◌, Bool, true, false, List, length, Outcome, ok, abort, fault, ◌>>=◌, ◌>>◌, assert,
  if◌then◌else◌, ltb, leb, ◌==◌,
}
use network_c_http.Base.Cells.{Block, load, store, copy_in, copy_out}

unfoldable pub max_of_two : ℕ → ℕ → ℕ
max_of_two a b = if leb b a then a else b

unfoldable pub min_of_two : ℕ → ℕ → ℕ
min_of_two a b = if leb a b then a else b

pub record BufferStrategy : Type 0 where
  pub min_size : ℕ
  pub max_size : ℕ

pub record Cbuffer : Type 0 where
  pub mem : Block ℕ
  pub length : ℕ
  pub capacity : ℕ
  pub size : ℕ
  pub strategy : BufferStrategy

unfoldable pub buffer_strategy_allocate :
    (uninitialised : ℕ → ℕ) → BufferStrategy → ℕ → Outcome (Block ℕ)
unfolding max_of_two
buffer_strategy_allocate uninitialised bs required_size = do
  assert (leb required_size bs.max_size)
  ok (record { size = max_of_two required_size bs.min_size; cell = uninitialised })

unfoldable pub buffer_strategy_reallocate_size : BufferStrategy → ℕ → ℕ → Outcome ℕ
unfolding max_of_two min_of_two
buffer_strategy_reallocate_size bs current_capacity requested_new_size = do
  assert (leb requested_new_size bs.max_size)
  ok (max_of_two requested_new_size (min_of_two bs.max_size (2 * current_capacity)))

-- `realloc` keeps the bytes that both blocks have.
unfoldable pub buffer_strategy_reallocate :
    (uninitialised : ℕ → ℕ) → BufferStrategy → Block ℕ → ℕ → Outcome (Block ℕ)
buffer_strategy_reallocate uninitialised bs current new_size = do
  assert (leb new_size bs.max_size)
  ok (record {
    size = new_size;
    cell = λ i. if ltb i current.size then current.cell i else uninitialised i;
  })

abbrev pub common_strategy : BufferStrategy
common_strategy = record { min_size = 256; max_size = 1024 * 1024 }

unfoldable pub cbuffer_new : (uninitialised : ℕ → ℕ) → Outcome Cbuffer
unfolding buffer_strategy_allocate
cbuffer_new uninitialised = do
  let tmp_cap = common_strategy.min_size
  mem ← buffer_strategy_allocate uninitialised common_strategy tmp_cap
  ok (record { mem = mem; length = 0; capacity = tmp_cap; size = 0; strategy = common_strategy })

-- The bytes that `Cbuffer_data` points at, `Cbuffer_size` of them.
unfoldable pub cbuffer_data : Cbuffer → Outcome (List ℕ)
cbuffer_data b = copy_out b.mem 0 b.length

unfoldable pub cbuffer_size : Cbuffer → ℕ
cbuffer_size b = b.length

unfoldable pub cbuffer_capacity : Cbuffer → ℕ
cbuffer_capacity b = b.capacity

-- The offset of the next byte.
unfoldable pub cbuffer_next_available : Cbuffer → ℕ
cbuffer_next_available b = b.length

-- What `Cbuffer_cstr` checks before it returns the memory as a string.
unfoldable pub cbuffer_cstr : Cbuffer → Outcome (Block ℕ)
cbuffer_cstr b = do ch ← load b.mem b.size; assert (ch == 0); ok b.mem

unfoldable pub cbuffer_clear : Cbuffer → Outcome Cbuffer
cbuffer_clear b = do mem ← store b.mem 0 0; ok (record b { length = 0; mem = mem })

-- The growth at the start of `Cbuffer_append`.
unfoldable pub make_room : (uninitialised : ℕ → ℕ) → Cbuffer → ℕ → Outcome Cbuffer
unfolding buffer_strategy_reallocate_size buffer_strategy_reallocate
make_room uninitialised b len = if ltb (b.length + len) b.capacity then ok b else do
  new_capacity ← buffer_strategy_reallocate_size b.strategy b.capacity (b.length + len)
  tmp ← buffer_strategy_reallocate uninitialised b.strategy b.mem new_capacity
  ok (record b { mem = tmp; capacity = new_capacity })

unfoldable pub cbuffer_append : (uninitialised : ℕ → ℕ) → Cbuffer → List ℕ → Outcome Cbuffer
unfolding cbuffer_next_available
cbuffer_append uninitialised b bytes =
    let len = length bytes in
    if len == 0 then ok b else do
      b1 ← make_room uninitialised b len
      filled ← copy_in b1.mem (cbuffer_next_available b1) bytes
      let n = b1.length + len
      mem ← store filled n 0
      ok (record b1 { mem = mem; length = n; size = n })

-- `text` is the string without its terminator.
unfoldable pub cbuffer_append_cstr : (uninitialised : ℕ → ℕ) → Cbuffer → List ℕ → Outcome Cbuffer
cbuffer_append_cstr uninitialised b text = cbuffer_append uninitialised b text

unfoldable pub cbuffer_from_cstring : (uninitialised : ℕ → ℕ) → List ℕ → Outcome Cbuffer
cbuffer_from_cstring uninitialised text = do
  b ← cbuffer_new uninitialised
  cbuffer_append uninitialised b text

unfoldable pub cbuffer_set_size : Cbuffer → ℕ → Cbuffer
cbuffer_set_size b n = record b { length = n; size = n }

-- The two structures after the call, `dest` first.
unfoldable pub cbuffer_move : Cbuffer → Cbuffer → Outcome (Cbuffer × Cbuffer)
unfolding cbuffer_clear
cbuffer_move dest src = do tmp ← cbuffer_clear dest; src' ← cbuffer_clear tmp; ok (src, src')
