-- ===== src/IoBuffer.antt =====
-- The IO buffer: src/common/iobuffer.c.
-- A pointer into the buffer's memory is its offset from `mem_p`; `char_p` is a copy of another
-- pointer for the debugger and is left out. Lengths and offsets are not negative, and
-- so far below 2 ^ 31 that no sum wraps. A function that
-- updates `*this` returns the new buffer. `uninitialised` is what `malloc` leaves in a block.
pub mod Contents
pub mod Updates
pub mod Bytes
pub mod Copies
mod Tests
use network_c_http.Base.{
  ℕ, zero, suc, ◌+◌, ◌-◌, ◌*◌, Bool, true, false, not, List, [], ◌∷◌, Outcome, ok, abort, fault,
  ◌>>=◌, ◌>>◌, assert, if◌then◌else◌, ltb, leb, ◌==◌, length,
}
use network_c_http.Base.Cells.{Block, load, store, copy_in, copy_out}

pub record IoBuffer : Type 0 where
  pub mem : Block ℕ
  pub allocated_capacity : ℕ
  pub buffer_capacity : ℕ
  pub buffer_ptr : ℕ
  pub buffer_length : ℕ
  pub buffer_remaining : ℕ

unfoldable pub iobuffer_init : (uninitialised : ℕ → ℕ) → ℕ → IoBuffer
iobuffer_init uninitialised capacity = record {
  mem = record { size = capacity + 1; cell = uninitialised };
  allocated_capacity = capacity + 1;
  buffer_capacity = capacity;
  buffer_ptr = 0;
  buffer_length = capacity;
  buffer_remaining = 0;
}

unfoldable pub iobuffer_expand_and_reset : (uninitialised : ℕ → ℕ) → IoBuffer → ℕ → IoBuffer
iobuffer_expand_and_reset uninitialised iob new_capacity =
    if ltb iob.buffer_capacity new_capacity then iobuffer_init uninitialised new_capacity else iob

unfoldable pub iobuffer_new_with_capacity : (uninitialised : ℕ → ℕ) → ℕ → IoBuffer
unfolding iobuffer_init
iobuffer_new_with_capacity uninitialised capacity = iobuffer_init uninitialised capacity

-- `IOBUFFER_DEFAULT_CAPACITY`
unfoldable pub iobuffer_new : (uninitialised : ℕ → ℕ) → IoBuffer
unfolding iobuffer_new_with_capacity
iobuffer_new uninitialised = iobuffer_new_with_capacity uninitialised (4 * 1024)

unfoldable pub iobuffer_data_len : IoBuffer → ℕ
iobuffer_data_len b = b.buffer_remaining

-- The bytes that `IOBuffer_data` points at, `IOBuffer_data_len` of them.
unfoldable pub iobuffer_data : IoBuffer → Outcome (List ℕ)
iobuffer_data b = copy_out b.mem b.buffer_ptr b.buffer_remaining

unfoldable pub iobuffer_space : IoBuffer → ℕ
iobuffer_space b = b.buffer_ptr + b.buffer_remaining

unfoldable pub iobuffer_space_len : IoBuffer → ℕ
iobuffer_space_len b = b.buffer_capacity - (b.buffer_ptr + b.buffer_remaining)

-- The terminator goes to `mem_p + buffer_remaining`.
unfoldable pub iobuffer_commit : IoBuffer → ℕ → Outcome IoBuffer
iobuffer_commit b bytes_used = do
  assert (ltb 0 bytes_used)
  let remaining = b.buffer_remaining + bytes_used
  mem ← store b.mem remaining 0
  ok (record b { buffer_remaining = remaining; mem = mem })

-- The assertion `mem_len >= len` compares with a length that may be negative, so it is written as
-- the sum that it stands for.
unfoldable pub iobuffer_data_add : IoBuffer → List ℕ → Outcome IoBuffer
unfolding iobuffer_space
iobuffer_data_add b p = do
  assert (leb (b.buffer_ptr + b.buffer_remaining + length p) b.buffer_capacity)
  mem ← copy_in b.mem (iobuffer_space b) p
  iobuffer_commit (record b { mem = mem }) (length p)

unfoldable pub iobuffer_from_buf : (uninitialised : ℕ → ℕ) → List ℕ → Outcome IoBuffer
unfolding iobuffer_new_with_capacity iobuffer_space
iobuffer_from_buf uninitialised buf = do
  let b = iobuffer_new_with_capacity uninitialised (length buf * 2)
  mem ← copy_in b.mem (iobuffer_space b) buf
  iobuffer_commit (record b { mem = mem }) (length buf)

-- All that the source's buffer has allocated is copied.
unfoldable pub iobuffer_dup : (uninitialised : ℕ → ℕ) → IoBuffer → Outcome IoBuffer
unfolding iobuffer_new_with_capacity
iobuffer_dup uninitialised b = do
  let fresh = iobuffer_new_with_capacity uninitialised b.buffer_capacity
  bytes ← copy_out b.mem 0 b.allocated_capacity
  mem ← copy_in fresh.mem 0 bytes
  ok (record fresh {
    buffer_capacity = b.buffer_capacity;
    allocated_capacity = b.allocated_capacity;
    buffer_remaining = b.buffer_remaining;
    mem = mem;
    buffer_ptr = b.buffer_ptr;
  })

unfoldable pub iobuffer_consolidate_space : (uninitialised : ℕ → ℕ) → IoBuffer → Outcome IoBuffer
unfolding iobuffer_new_with_capacity
iobuffer_consolidate_space uninitialised b = do
  bytes ← iobuffer_data b
  tmp ← iobuffer_data_add (iobuffer_new_with_capacity uninitialised b.buffer_capacity) bytes
  ok (record b {
    mem = tmp.mem;
    buffer_ptr = tmp.buffer_ptr;
    buffer_remaining = tmp.buffer_remaining;
    buffer_capacity = tmp.buffer_capacity;
    allocated_capacity = tmp.allocated_capacity;
  })

unfoldable pub iobuffer_consume : IoBuffer → ℕ → Outcome IoBuffer
iobuffer_consume b byte_count = do
  let ptr = b.buffer_ptr + byte_count
  assert (leb ptr b.buffer_capacity)
  assert (leb byte_count b.buffer_remaining)
  let remaining = b.buffer_remaining - byte_count
  ok (record b { buffer_ptr = if remaining == 0 then 0 else ptr; buffer_remaining = remaining })

unfoldable pub iobuffer_reset : IoBuffer → IoBuffer
iobuffer_reset b = record b { buffer_ptr = 0; buffer_remaining = 0 }

unfoldable pub iobuffer_empty : IoBuffer → Bool
iobuffer_empty b = b.buffer_remaining == 0

-- `strncmp(a, b, n) == 0`: the comparison ends at a byte 0.
unfoldable pub strncmp_equal : ℕ → List ℕ → List ℕ → Bool
strncmp_equal zero a b = true
strncmp_equal (suc n) [] b = true
strncmp_equal (suc n) (x ∷ a) [] = true
strncmp_equal (suc n) (x ∷ a) (y ∷ b) =
    let rest = strncmp_equal n a b in if x == y then (if x == 0 then true else rest) else false

unfoldable pub iobuffer_equal : IoBuffer → IoBuffer → Outcome Bool
unfolding strncmp_equal iobuffer_data_len
iobuffer_equal a b = do
  let len_a = iobuffer_data_len a
  if not (len_a == iobuffer_data_len b)
      then ok false
      else do a_p ← iobuffer_data a; b_p ← iobuffer_data b; ok (strncmp_equal len_a a_p b_p)

unfoldable pub iobuffer_consume_pop_front : IoBuffer → Outcome (IoBuffer × ℕ)
iobuffer_consume_pop_front b = do
  ch ← load b.mem b.buffer_ptr
  b' ← iobuffer_consume b 1
  ok (b', ch)

unfoldable pub iobuffer_commit_push_back : IoBuffer → ℕ → Outcome IoBuffer
iobuffer_commit_push_back b ch = iobuffer_data_add b (ch ∷ [])
