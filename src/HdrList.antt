-- ===== src/HdrList.antt =====
-- The list of headers: src/http/header_list.c, which is list.c with pairs as items.
-- The pairs stand in a heap of their own, and an item of the list is the address of one.
pub mod Lookup
pub mod Run
pub mod Refinement
pub mod Serialized
mod Tests
use network_c_http.Base.{
  ℕ, zero, suc, ◌+◌, Bool, true, false, List, [], ◌∷◌, ◌++◌, Outcome, ok, ◌>>=◌, if◌then◌else◌,
  ◌==◌, to_int,
}
use network_c_http.Base.Heap.{Heap, null, deref, write, free, Allocator}
use network_c_http.LinkedList.{
  ListNode, LinkedList, list_new, list_size, list_add_front, list_add_back, list_iterator,
  list_itr_next, list_itr_unpack, list_itr_remove, list_safe_deinit, list_free,
}
use network_c_http.KvPair.{
  KvPair, kvpair_new, kvpair_label, kvpair_value, read_bytes, strlen, strcmp_eq, make_upper,
}
use network_c_http.Cbuffer.{Cbuffer, cbuffer_new, cbuffer_data, cbuffer_size, cbuffer_append_cstr}

pub record HdrList : Type 0 where
  pub list : LinkedList
  pub pairs : Heap KvPair

unfoldable pub hdr_list_new : HdrList
hdr_list_new = record { list = list_new; pairs = [] }

-- What `malloc` gives for a node and for a pair.
pub record Memory : Type 0 where
  pub nodes : Allocator ListNode
  pub pairs : Allocator KvPair

-- A new pair and its address.
unfoldable pub pair_new :
    Memory → HdrList → (label : List ℕ) → ℕ → (value : List ℕ) → ℕ → Outcome (HdrList × ℕ)
pair_new m hl label lablen value vallen = do
  kv ← kvpair_new label lablen value vallen
  let p = m.pairs.malloc hl.pairs
  ok (record hl { pairs = write hl.pairs p kv }, p)

unfoldable pub hdr_list_add_back : Memory → HdrList → ℕ → Outcome HdrList
hdr_list_add_back m hl item = do l ← list_add_back m.nodes hl.list item; ok (record hl { list = l })

unfoldable pub hdr_list_add_front : Memory → HdrList → ℕ → Outcome HdrList
hdr_list_add_front m hl item = do
  l ← list_add_front m.nodes hl.list item
  ok (record hl { list = l })

unfoldable pub hdr_list_add_line :
    Memory → HdrList → (label : List ℕ) → ℕ → (value : List ℕ) → ℕ → Outcome HdrList
unfolding hdr_list_add_front pair_new
hdr_list_add_line m hl label lablen value vallen = do
  (hl', p) ← pair_new m hl label lablen value vallen
  hdr_list_add_front m hl' p

unfoldable pub hdr_list_add_cstr : Memory → HdrList → (label value : List ℕ) → Outcome HdrList
unfolding hdr_list_add_back pair_new
hdr_list_add_cstr m hl label value = do
  n ← strlen label
  lablen ← to_int n
  n' ← strlen value
  vallen ← to_int n'
  (hl', p) ← pair_new m hl label lablen value vallen
  hdr_list_add_back m hl' p

unfoldable pub hdr_list_add_cbuf : Memory → HdrList → (key value : Cbuffer) → Outcome HdrList
unfolding hdr_list_add_back pair_new
hdr_list_add_cbuf m hl key value = do
  label ← cbuffer_data key
  val ← cbuffer_data value
  (hl', p) ← pair_new m hl label (cbuffer_size key) val (cbuffer_size value)
  hdr_list_add_back m hl' p

-- The array ends where its row is NULL.
unfoldable pub hdr_list_add_arr : Memory → HdrList → List (List ℕ × List ℕ) → Outcome HdrList
unfolding hdr_list_add_cstr
hdr_list_add_arr m hl [] = ok hl
hdr_list_add_arr m hl ((k, v) ∷ rows) = do
  hl' ← hdr_list_add_cstr m hl k v
  hdr_list_add_arr m hl' rows

unfoldable pub hdr_list_from_array : Memory → List (List ℕ × List ℕ) → Outcome HdrList
unfolding hdr_list_add_arr hdr_list_new
hdr_list_from_array m rows = hdr_list_add_arr m hdr_list_new rows

-- The loop of `HdrList_find_iter`; a list of `count` nodes takes as many rounds.
unfoldable pub find_iter_loop : HdrList → (fixed_key : List ℕ) → ℕ → ℕ → Outcome ℕ
find_iter_loop hl fixed_key zero iter = ok null
find_iter_loop hl fixed_key (suc fuel) iter = if iter == null then ok null else do
  hlr ← list_itr_unpack hl.list iter
  kv ← deref hl.pairs hlr
  same ← strcmp_eq (kvpair_label kv) fixed_key
  if same
      then ok iter
      else do next ← list_itr_next hl.list iter; find_iter_loop hl fixed_key fuel next

unfoldable pub hdr_list_find_iter : HdrList → (key : List ℕ) → Outcome ℕ
unfolding find_iter_loop
hdr_list_find_iter hl key = do
  fixed_key ← make_upper key
  find_iter_loop hl fixed_key hl.list.count (list_iterator hl.list)

-- The address of a pair, or NULL.
unfoldable pub hdr_list_find : HdrList → (key : List ℕ) → Outcome ℕ
unfolding hdr_list_find_iter
hdr_list_find hl key = do
  iter ← hdr_list_find_iter hl key
  if iter == null then ok null else list_itr_unpack hl.list iter

-- The pair of the node stays in use.
unfoldable pub hdr_list_remove : HdrList → (key : List ℕ) → Outcome HdrList
unfolding hdr_list_find_iter
hdr_list_remove hl key = do
  iter ← hdr_list_find_iter hl key
  if iter == null then ok hl else do l ← list_itr_remove hl.list iter; ok (record hl { list = l })

-- A call of `Cbuffer_append_cstr` with a string.
unfoldable pub append_string : (uninitialised : ℕ → ℕ) → Cbuffer → List ℕ → Outcome Cbuffer
append_string uninitialised cb s = do
  n ← strlen s
  text ← read_bytes s n
  cbuffer_append_cstr uninitialised cb text

-- The loop of `HdrList_serialize`.
unfoldable pub serialize_loop :
    (uninitialised : ℕ → ℕ) → HdrList → ℕ → ℕ → Cbuffer → Outcome Cbuffer
serialize_loop uninitialised hl zero iter cb = ok cb
serialize_loop uninitialised hl (suc fuel) iter cb = if iter == null then ok cb else do
  line ← list_itr_unpack hl.list iter
  kv ← deref hl.pairs line
  cb1 ← append_string uninitialised cb (kvpair_label kv)
  cb2 ← cbuffer_append_cstr uninitialised cb1 (58 ∷ 32 ∷ [])
  cb3 ← append_string uninitialised cb2 (kvpair_value kv)
  cb4 ← cbuffer_append_cstr uninitialised cb3 (13 ∷ 10 ∷ [])
  next ← list_itr_next hl.list iter
  serialize_loop uninitialised hl fuel next cb4

unfoldable pub hdr_list_serialize : (uninitialised : ℕ → ℕ) → HdrList → Outcome Cbuffer
unfolding serialize_loop
hdr_list_serialize uninitialised hl = do
  cb ← cbuffer_new uninitialised
  serialize_loop uninitialised hl hl.list.count (list_iterator hl.list) cb

-- `KVPair_free` of one pair after the other.
unfoldable pub free_pairs : Heap KvPair → List ℕ → Outcome (Heap KvPair)
free_pairs h [] = ok h
free_pairs h (p ∷ ps) = do h' ← free h p; free_pairs h' ps

unfoldable pub hdr_list_safe_free : HdrList → Outcome (Heap KvPair)
unfolding free_pairs
hdr_list_safe_free hl = do
  (l, items) ← list_safe_deinit hl.list
  h ← free_pairs hl.pairs items
  _ ← list_free l
  ok h
