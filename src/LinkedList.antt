-- ===== src/LinkedList.antt =====
-- The doubly linked list of untyped items: src/common/list.c.
-- A pointer is an address, and an item, a `void*`, is a number. No node ever moves between lists, so
-- a list carries the part of the heap that holds its nodes. The pointer to the list itself is never
-- NULL here. A count is an `int`, too small a number of nodes to wrap.
pub mod Chain
pub mod Links
pub mod Ends
pub mod Removal
pub mod Unlink
pub mod Walk
pub mod Run
pub mod Refinement
mod Tests
use network_c_http.Base.{
  ℕ, zero, suc, ◌+◌, ◌-◌, Bool, true, false, List, [], ◌∷◌, Outcome, ok, abort, fault, ◌>>=◌, ◌>>◌,
  assert, not, if◌then◌else◌, ◌==◌,
}
use network_c_http.Base.Heap.{Heap, null, deref, assign, free, write, Allocator}

pub record ListNode : Type 0 where
  pub forward : ℕ
  pub backward : ℕ
  pub item : ℕ

pub record LinkedList : Type 0 where
  pub heap : Heap ListNode
  pub count : ℕ
  pub head : ℕ
  pub tail : ℕ

-- `List_new` and `List_init`
unfoldable pub list_new : LinkedList
list_new = record { heap = []; count = 0; head = null; tail = null }

-- The heap with the new node, and its address.
unfoldable pub list_node_new : Allocator ListNode → Heap ListNode → ℕ → ℕ → ℕ → Heap ListNode × ℕ
list_node_new al h content prev next =
    let p = al.malloc h in
    (write h p (record { forward = next; backward = prev; item = content }), p)

-- `p->forward = q` and `p->backward = q`
unfoldable pub set_forward : Heap ListNode → ℕ → ℕ → Outcome (Heap ListNode)
set_forward h p q = do n ← deref h p; assign h p (record n { forward = q })

unfoldable pub set_backward : Heap ListNode → ℕ → ℕ → Outcome (Heap ListNode)
set_backward h p q = do n ← deref h p; assign h p (record n { backward = q })

unfoldable pub list_size : LinkedList → ℕ
list_size l = l.count

unfoldable pub list_add_front : Allocator ListNode → LinkedList → ℕ → Outcome LinkedList
unfolding list_node_new
list_add_front al l content = do
  let (h, lnref) = list_node_new al l.heap content null null
  if l.count == 0
      then ok (record l { heap = h; head = lnref; tail = lnref; count = l.count + 1 })
      else do
        h1 ← set_forward h lnref l.head
        h2 ← set_backward h1 lnref null
        h3 ← set_backward h2 l.head lnref
        ok (record l { heap = h3; head = lnref; count = l.count + 1 })

unfoldable pub list_add_back : Allocator ListNode → LinkedList → ℕ → Outcome LinkedList
unfolding list_node_new
list_add_back al l content = do
  let (h, lnref) = list_node_new al l.heap content null l.head
  if l.count == 0
      then ok (record l { heap = h; tail = lnref; head = lnref; count = l.count + 1 })
      else do
        h1 ← set_backward h lnref l.tail
        h2 ← set_forward h1 lnref null
        h3 ← set_forward h2 l.tail lnref
        ok (record l { heap = h3; tail = lnref; count = l.count + 1 })

-- NULL of an empty list.
unfoldable pub list_first : LinkedList → Outcome ℕ
list_first l = if l.head == null then ok null else do n ← deref l.heap l.head; ok n.item

unfoldable pub list_last : LinkedList → Outcome ℕ
list_last l = if l.tail == null then ok null else do n ← deref l.heap l.tail; ok n.item

-- The only node: its item, and the list without it.
unfoldable pub remove_only : LinkedList → Outcome (LinkedList × ℕ)
remove_only l = do
  n ← deref l.heap l.head
  h ← assign l.heap l.head (record n { item = null })
  h' ← free h l.head
  ok (record { heap = h'; count = l.count - 1; head = null; tail = null }, n.item)

unfoldable pub list_remove_first : LinkedList → Outcome (LinkedList × ℕ)
list_remove_first l =
    if l.count == 0 then ok (l, null) else if l.count == 1 then remove_only l else do
      first ← deref l.heap l.head
      h1 ← set_backward l.heap first.forward null
      h2 ← assign h1 l.head (record { forward = null; backward = null; item = null })
      h3 ← free h2 l.head
      ok (record l { heap = h3; head = first.forward; count = l.count - 1 }, first.item)

unfoldable pub list_remove_last : LinkedList → Outcome (LinkedList × ℕ)
list_remove_last l =
    if l.count == 0 then ok (l, null) else if l.count == 1 then remove_only l else do
      last ← deref l.heap l.tail
      h1 ← set_forward l.heap last.backward null
      h2 ← assign h1 l.tail (record { forward = null; backward = null; item = null })
      h3 ← free h2 l.tail
      ok (record l { heap = h3; tail = last.backward; count = l.count - 1 }, last.item)

unfoldable pub list_iterator : LinkedList → ℕ
list_iterator l = l.head

unfoldable pub list_itr_next : LinkedList → ℕ → Outcome ℕ
list_itr_next l itr = do assert (not (itr == null)); n ← deref l.heap itr; ok n.forward

unfoldable pub list_itr_unpack : LinkedList → ℕ → Outcome ℕ
list_itr_unpack l itr = do assert (not (itr == null)); n ← deref l.heap itr; ok n.item

-- The links round a node that is not the only one.
unfoldable pub unlink : LinkedList → ℕ → Outcome LinkedList
unlink l itr = do
  n ← deref l.heap itr
  if l.head == itr
      then (do
        h ← set_backward l.heap n.forward n.backward
        ok (record l { heap = h; head = n.forward }))
      else if l.tail == itr
      then (do
        h ← set_forward l.heap n.backward n.forward
        ok (record l { heap = h; tail = n.backward }))
      else do
        h ← set_backward l.heap n.forward n.backward
        n' ← deref h itr
        h' ← set_forward h n'.backward n'.forward
        ok (record l { heap = h' })

unfoldable pub list_itr_remove : LinkedList → ℕ → Outcome LinkedList
unfolding unlink
list_itr_remove l itr = do
  assert (not (itr == null))
  if l.count == 0
      then ok l
      else if l.count == 1
      then (do
        assert (itr == l.head)
        h ← free l.heap itr
        ok (record { heap = h; count = 0; head = null; tail = null }))
      else do
        l' ← unlink l itr
        h ← free l'.heap itr
        ok (record l' { heap = h; count = l.count - 1 })

-- The loop of `List_find`; a list of `count` nodes takes as many rounds.
unfoldable pub find_loop : Heap ListNode → ℕ → ℕ → ℕ → Outcome ℕ
find_loop h needle zero iter = ok null
find_loop h needle (suc fuel) iter = if iter == null then ok null else do
  n ← deref h iter
  if n.item == needle then ok iter else find_loop h needle fuel n.forward

unfoldable pub list_find : LinkedList → ℕ → Outcome ℕ
unfolding find_loop
list_find l needle = find_loop l.heap needle l.count l.head

-- The loop of `List_safe_deinit`: the items in the order in which `item_free` gets them.
unfoldable pub deinit_loop : ℕ → Heap ListNode → ℕ → Outcome (Heap ListNode × List ℕ)
deinit_loop zero h t = ok (h, [])
deinit_loop (suc fuel) h t = if t == null then ok (h, []) else do
  n ← deref h t
  h1 ← free h t
  (h2, items) ← deinit_loop fuel h1 n.forward
  ok (h2, n.item ∷ items)

unfoldable pub list_safe_deinit : LinkedList → Outcome (LinkedList × List ℕ)
unfolding deinit_loop
list_safe_deinit l = if l.count == 0 then ok (l, []) else do
  (h, items) ← deinit_loop l.count l.heap l.head
  ok (record { heap = h; count = 0; head = null; tail = null }, items)

unfoldable pub list_free : LinkedList → Outcome (Unit {0})
list_free l = do assert (l.count == 0); ok tt
