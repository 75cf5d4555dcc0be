-- ===== src/BufferChain.antt =====
-- The chain of buffers: src/common/buffer_chain.c, which is list.c with IO buffers as items.
-- The buffers stand in a heap of their own, and an item of the list is the address of one. The size
-- is an `int`: a sum of lengths that is too large for one is a fault.
pub mod Chunks
pub mod Appends
pub mod Compact
mod Tests
use network_c_http.Base.{
  ℕ, zero, suc, ◌+◌, ◌-◌, ◌*◌, Bool, true, false, List, [], ◌∷◌, Outcome, ok, abort, fault, ◌>>=◌,
  Option, none, some, is_some, if◌then◌else◌, ◌==◌, ltb, leb, length, int_sum,
}
use network_c_http.Base.Heap.{Heap, null, deref, write, assign, free, Allocator}
use network_c_http.LinkedList.{
  ListNode, LinkedList, list_new, list_add_front, list_add_back, list_first, list_last,
  list_iterator, list_itr_next, list_itr_unpack, list_remove_first, list_itr_remove, list_free,
}
use network_c_http.IoBuffer.{
  IoBuffer, iobuffer_new_with_capacity, iobuffer_space_len, iobuffer_data, iobuffer_data_len,
  iobuffer_data_add,
}

pub record BufferChain : Type 0 where
  pub chain : LinkedList
  pub buffers : Heap IoBuffer
  pub size : ℕ

-- What `malloc` gives for a node, for a buffer, and in a new block.
pub record Memory : Type 0 where
  pub nodes : Allocator ListNode
  pub iobuffers : Allocator IoBuffer
  pub uninitialised : ℕ → ℕ

unfoldable pub buffer_chain_new : BufferChain
buffer_chain_new = record { chain = list_new; buffers = []; size = 0 }

unfoldable pub buffer_chain_size : BufferChain → ℕ
buffer_chain_size bc = bc.size

-- `BufferChain_append` when the last buffer has no room for the bytes, or there is none.
unfoldable pub append_new : Memory → BufferChain → List ℕ → Outcome BufferChain
append_new m bc buf = do
  let len = length buf
  required_len ← if ltb (256 * 4 * 8) len then int_sum len 100 else ok (256 * 4 * 8)
  new_iob ← iobuffer_data_add (iobuffer_new_with_capacity m.uninitialised required_len) buf
  let p = m.iobuffers.malloc bc.buffers
  l ← list_add_back m.nodes bc.chain p
  size ← int_sum bc.size len
  ok (record { chain = l; buffers = write bc.buffers p new_iob; size = size })

unfoldable pub buffer_chain_append : Memory → BufferChain → List ℕ → Outcome BufferChain
unfolding append_new
buffer_chain_append m bc buf =
    if ltb 0 bc.size
    then (do
      last ← list_last bc.chain
      last_iob ← deref bc.buffers last
      if leb (length buf) (iobuffer_space_len last_iob)
          then (do
            b ← iobuffer_data_add last_iob buf
            h ← assign bc.buffers last b
            size ← int_sum bc.size (length buf)
            ok (record bc { buffers = h; size = size }))
          else append_new m bc buf)
    else append_new m bc buf

-- `text` is the string without its terminator.
unfoldable pub buffer_chain_append_cstr : Memory → BufferChain → List ℕ → Outcome BufferChain
buffer_chain_append_cstr m bc text = buffer_chain_append m bc text

unfoldable pub buffer_chain_append_iobuffer : Memory → BufferChain → IoBuffer → Outcome BufferChain
unfolding buffer_chain_append
buffer_chain_append_iobuffer m bc iobuf = do
  bytes ← iobuffer_data iobuf
  buffer_chain_append m bc bytes

-- The loop of `BufferChain_compact`; a list of `count` nodes takes as many rounds.
unfoldable pub compact_loop : BufferChain → ℕ → ℕ → IoBuffer → Outcome IoBuffer
compact_loop bc zero iter iob_final = ok iob_final
compact_loop bc (suc fuel) iter iob_final = if iter == null then ok iob_final else do
  tmp ← list_itr_unpack bc.chain iter
  b ← deref bc.buffers tmp
  bytes ← iobuffer_data b
  iob ← iobuffer_data_add iob_final bytes
  next ← list_itr_next bc.chain iter
  compact_loop bc fuel next iob

unfoldable pub buffer_chain_compact : Memory → BufferChain → Outcome IoBuffer
unfolding compact_loop buffer_chain_size
buffer_chain_compact m bc =
    compact_loop bc bc.chain.count (list_iterator bc.chain)
      (iobuffer_new_with_capacity m.uninitialised (buffer_chain_size bc))

unfoldable pub buffer_chain_remove_iter : BufferChain → ℕ → Outcome BufferChain
buffer_chain_remove_iter bc iter = do
  l ← list_itr_remove bc.chain iter
  ok (record bc { chain = l })

-- The buffer is at the address `iobuf`. The size is set to its length.
unfoldable pub buffer_chain_add_front : Memory → BufferChain → ℕ → Outcome BufferChain
buffer_chain_add_front m bc iobuf = do
  l ← list_add_front m.nodes bc.chain iobuf
  b ← deref bc.buffers iobuf
  ok (record bc { chain = l; size = iobuffer_data_len b })

unfoldable pub buffer_chain_add_back : Memory → BufferChain → ℕ → Outcome BufferChain
buffer_chain_add_back m bc iobuf = do
  l ← list_add_back m.nodes bc.chain iobuf
  b ← deref bc.buffers iobuf
  size ← int_sum bc.size (iobuffer_data_len b)
  ok (record bc { chain = l; size = size })

-- The buffer's address, or NULL.
unfoldable pub buffer_chain_pop_front : BufferChain → Outcome (BufferChain × ℕ)
buffer_chain_pop_front bc = do
  front ← list_first bc.chain
  if front == null then ok (bc, null) else do
    (l, _) ← list_remove_first bc.chain
    b ← deref bc.buffers front
    ok (record bc { chain = l; size = bc.size - iobuffer_data_len b }, front)

unfoldable pub buffer_chain_front : BufferChain → Outcome ℕ
buffer_chain_front bc = list_first bc.chain

-- The loop of `BufferChain_free`; a list of `count` nodes takes as many rounds.
unfoldable pub buffer_chain_free_loop : BufferChain → ℕ → ℕ → Outcome BufferChain
buffer_chain_free_loop bc zero iter = ok bc
buffer_chain_free_loop bc (suc fuel) iter = if iter == null then ok bc else do
  next ← list_itr_next bc.chain iter
  iob ← list_itr_unpack bc.chain iter
  buffers ← free bc.buffers iob
  l ← list_itr_remove bc.chain iter
  buffer_chain_free_loop (record bc { chain = l; buffers = buffers }) fuel next

unfoldable pub buffer_chain_free : BufferChain → Outcome (Unit {0})
unfolding buffer_chain_free_loop
buffer_chain_free bc = do
  bc' ← buffer_chain_free_loop bc bc.chain.count (list_iterator bc.chain)
  list_free bc'.chain

-- The inner loop of `BufferChain_eq_cstr`: what is left of the string behind the data of a buffer,
-- or `none` where a byte differs. Reading on behind the string's NUL is a fault.
unfoldable pub eq_data : (cstr data_bytes : List ℕ) → Outcome (Option (List ℕ))
eq_data cstr [] = ok (some cstr)
eq_data [] (d ∷ data_bytes) = fault
eq_data (c ∷ cstr) (d ∷ data_bytes) = if c == d then eq_data cstr data_bytes else ok none

-- The loop of `BufferChain_eq_cstr`; a list of `count` nodes takes as many rounds.
unfoldable pub eq_loop : BufferChain → ℕ → ℕ → List ℕ → Outcome Bool
unfolding eq_data
eq_loop bc zero iter cstr = ok true
eq_loop bc (suc fuel) iter cstr = if iter == null then ok true else do
  tmp ← list_itr_unpack bc.chain iter
  b ← deref bc.buffers tmp
  bytes ← iobuffer_data b
  rest ← eq_data cstr bytes
  next ← list_itr_next bc.chain iter
  let found = is_some rest
  if found then eq_loop bc fuel next (behind rest) else ok false
  where
    behind : Option (List ℕ) → List ℕ
    behind none = []
    behind (some r) = r

-- `cstr` is the string with its NUL.
unfoldable pub buffer_chain_eq_cstr : BufferChain → (cstr : List ℕ) → Outcome Bool
unfolding eq_loop
buffer_chain_eq_cstr bc cstr = eq_loop bc bc.chain.count (list_iterator bc.chain) cstr
