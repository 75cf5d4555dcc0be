-- ===== src/LinkedList/Walk.antt =====
-- Walks over the nodes: the search for an item, and the release of all nodes.
use network_c_http.Base.{
  ℕ, ◌≡◌, refl, Bool, true, false, none, [], ◌∷◌, arith, length, ok, if◌then◌else◌, ◌==◌, inl, inr,
  Bool-cases,
}
use network_c_http.Base.Heap.{Heap, null, at, erase, at-erase, deref-ok, free-ok}
use network_c_http.LinkedList.{
  ListNode, LinkedList, find_loop, list_find, deinit_loop, list_safe_deinit,
}
use network_c_http.LinkedList.Chain.{
  Cells, has, items, first_or, node, Linked, Distinct, IsValid, frame-erase,
}

-- The first cell whose item passes the test, or NULL.
abbrev pub find_cell : (ℕ → Bool) → Cells → ℕ
find_cell test [] = null
find_cell test ((p, x) ∷ cs) = if test x then p else find_cell test cs

find_loop_lem :
    (h : Heap ListNode) (needle b : ℕ) (cs : Cells)
    → Linked h b cs null
    → find_loop h needle (length cs) (first_or null cs) ≡ ok (find_cell (λ x. x == needle) cs)
unfolding find_loop
find_loop_lem h needle b [] l = refl
find_loop_lem h needle b ((p, x) ∷ cs) l =
    let some_node : (p == null) ≡ false = ground (arith, l.1) in
    let ih = find_loop_lem h needle p cs l.2 in
    rw (some_node, deref-ok h p (node (first_or null cs) b x) l.1 l.0)
      (elim (Bool-cases (x == needle)) [ inl e ↦ rw e refl | inr e ↦ rw e ih ])

-- A search ends within as many rounds as the list has nodes.
pub list_find_lem :
    (l : LinkedList) (cs : Cells) (needle : ℕ)
    → IsValid l cs
    → list_find l needle ≡ ok (find_cell (λ x. x == needle) cs)
unfolding list_find
list_find_lem l cs needle v =
    rw (v.counted, v.at_head) (find_loop_lem l.heap needle null cs v.linked)

pub deinit_loop_lem :
    (h : Heap ListNode) (b : ℕ) (cs : Cells)
    → Linked h b cs null
    → Distinct cs
    → (h' : Heap ListNode) × (deinit_loop (length cs) h (first_or null cs) ≡ ok (h', items cs))
      × ((a : ℕ) → at h' a ≡ (if has a cs then none else at h a))
unfolding deinit_loop
deinit_loop_lem h b [] l d = (h, refl, λ a. refl)
deinit_loop_lem h b ((p, x) ∷ cs) l d =
    let some_node : (p == null) ≡ false = ground (arith, l.1) in
    let (h', runs, gone) =
      deinit_loop_lem (erase h p) p cs (frame-erase h p cs null p d.0 l.2) d.1 in
    let c = node (first_or null cs) b x in
    (
      h',
      rw (some_node, deref-ok h p c l.1 l.0, free-ok h p c l.1 l.0, runs) refl,
      λ a. ground (arith, gone a, at-erase h p a),
    )

-- On a valid list, List_safe_deinit gives every item to item_free once, in order, leaves a valid
-- empty list, and takes out of use the nodes of the list and nothing else.
pub list_safe_deinit-IsValid :
    (l : LinkedList) (cs : Cells)
    → IsValid l cs
    → (l' : LinkedList) × (list_safe_deinit l ≡ ok (l', items cs))
      × IsValid l' []
      × ((a : ℕ) → at l'.heap a ≡ (if has a cs then none else at l.heap a))
unfolding list_safe_deinit
list_safe_deinit-IsValid l [] v =
    let none_left : (l.count == 0) ≡ true = ground (arith, v.counted) in
    (l, rw none_left refl, v, λ a. refl)
list_safe_deinit-IsValid l (c ∷ cs) v =
    let some_left : (l.count == 0) ≡ false = ground (arith, v.counted) in
    let (h', runs, gone) = deinit_loop_lem l.heap null (c ∷ cs) v.linked v.distinct in
    (
      record { heap = h'; count = 0; head = null; tail = null },
      rw (some_left, v.counted, v.at_head, runs) refl,
      record { counted = refl; at_head = refl; at_tail = refl; linked = tt; distinct = tt },
      gone,
    )
