-- ===== src/LinkedList/Refinement.antt =====
-- The calls of list.c do what they do on plain lists.
use network_c_http.Base.{
  ℕ, ◌≡◌, refl, sym, ap, ◌∙◌, true, false, List, [], ◌∷◌, ◌++◌, arith, ok, ◌==◌, inl, inr,
}
use network_c_http.Base.Heap.{null, deref-ok, Allocator}
use network_c_http.LinkedList.{
  ListNode, LinkedList, list_new, list_size, list_first, list_last, list_remove_first,
  list_remove_last,
}
use network_c_http.LinkedList.Chain.{
  Cells, items, first_or, last_or, node, IsValid, Linked-split, last_or-append, items-append,
  length-items,
}
use network_c_http.LinkedList.Links.{snoc_cases}
use network_c_http.LinkedList.Ends.{add_front-IsValid, add_back-IsValid}
use network_c_http.LinkedList.Removal.{remove_first-IsValid, remove_last-IsValid}
use network_c_http.LinkedList.Unlink.{itr_remove-IsValid}
use network_c_http.LinkedList.Walk.{list_find_lem, list_safe_deinit-IsValid}
use network_c_http.LinkedList.Run.{
  ListOp, list_op, list_ops, first_item, last_item, plain_op, plain_ops, StandsFor, Refines,
  search_cases, remove_last_snoc, last_item_snoc,
}

list_remove_first-Refines :
    (al : Allocator ListNode) (l : LinkedList) (cs : Cells)
    → IsValid l cs
    → Refines (list_op al l ListOp.remove_first) (plain_op (items cs) ListOp.remove_first)
unfolding list_op list_remove_first
list_remove_first-Refines al l [] v =
    let none_left : (l.count == 0) ≡ true = ground (arith, v.counted) in
    record {
      after = l;
      runs = rw none_left refl;
      stands = record { cells = []; valid = v; holds = refl };
    }
list_remove_first-Refines al l ((p, x) ∷ cs) v =
    let (l', runs, v') = remove_first-IsValid l p x cs v in
    record {
      after = l';
      runs = rw runs refl;
      stands = record { cells = cs; valid = v'; holds = refl };
    }

list_remove_last-Refines :
    (al : Allocator ListNode) (l : LinkedList) (cs : Cells)
    → IsValid l cs
    → Refines (list_op al l ListOp.remove_last) (plain_op (items cs) ListOp.remove_last)
unfolding list_op list_remove_last
list_remove_last-Refines al l cs v = elim (snoc_cases cs) [
  | inl e ↦
      let w : IsValid l [] = rw e at v in
      let none_left : (l.count == 0) ≡ true = ground (arith, w.counted) in
      rw e (record {
        after = l;
        runs = rw none_left refl;
        stands = record { cells = []; valid = w; holds = refl };
      })
  | inr (xs, (t, (y, e))) ↦
      let (l', runs, v') = remove_last-IsValid l xs t y (rw e at v) in
      let plain : plain_op (items cs) ListOp.remove_last ≡ (items xs, y ∷ []) =
        rw (e, items-append xs ((t, y) ∷ []), remove_last_snoc (items xs) y) refl in
      rw plain (record {
        after = l';
        runs = rw runs refl;
        stands = record { cells = xs; valid = v'; holds = refl };
      })
]

take_out-Refines :
    (al : Allocator ListNode) (l : LinkedList) (x : ℕ) (cs : Cells)
    → IsValid l cs
    → Refines (list_op al l (ListOp.take_out x)) (plain_op (items cs) (ListOp.take_out x))
unfolding list_op
take_out-Refines al l x cs v = elim (search_cases x cs) [
  | inl (f, w) ↦ record {
    after = l;
    runs = rw (list_find_lem l cs x v, f) refl;
    stands = record { cells = cs; valid = v; holds = sym w };
  }
  | inr f ↦
      let w : IsValid l (f.left ++ ((f.place, x) ∷ f.right)) = rw f.split at v in
      let (l', runs, v') = itr_remove-IsValid l f.left f.place x f.right w in
      let ne = (Linked-split l.heap null f.left ((f.place, x) ∷ f.right) null w.linked).1.1 in
      let node_found : (f.place == null) ≡ false = ground (arith, ne) in
      record {
        after = l';
        runs = rw (list_find_lem l cs x v, f.found, node_found, runs) refl;
        stands = record { cells = f.left ++ f.right; valid = v'; holds = sym f.rest };
      }
]

list_first_lem :
    (l : LinkedList) (cs : Cells) → IsValid l cs → list_first l ≡ ok (first_item (items cs))
unfolding list_first
list_first_lem l [] v = rw v.at_head refl
list_first_lem l ((p, x) ∷ cs) v =
    let some_node : (p == null) ≡ false = ground (arith, v.linked.1) in
    rw
      (
        v.at_head,
        some_node,
        deref-ok l.heap p (node (first_or null cs) null x) v.linked.1 v.linked.0,
      )
      refl

list_last_lem :
    (l : LinkedList) (cs : Cells) → IsValid l cs → list_last l ≡ ok (last_item null (items cs))
unfolding list_last
list_last_lem l cs v = elim (snoc_cases cs) [
  | inl e ↦ let tail : l.tail ≡ null = v.at_tail ∙ ap (last_or null) e in rw (tail, e) refl
  | inr (xs, (t, (y, e))) ↦
      let w : IsValid l (xs ++ ((t, y) ∷ [])) = rw e at v in
      let tail : l.tail ≡ t = w.at_tail ∙ last_or-append null t y xs [] in
      let (here, ne, _) = (Linked-split l.heap null xs ((t, y) ∷ []) null w.linked).1 in
      let some_node : (t == null) ≡ false = ground (arith, ne) in
      rw
        (
          tail,
          some_node,
          deref-ok l.heap t (node null (last_or null xs) y) ne here,
          e,
          items-append xs ((t, y) ∷ []),
          last_item_snoc null (items xs) y,
        )
        refl
]

pub list_last_snoc :
    (l : LinkedList) (xs : Cells) (t y : ℕ) → IsValid l (xs ++ ((t, y) ∷ [])) → list_last l ≡ ok y
list_last_snoc l xs t y v =
    list_last_lem l (xs ++ ((t, y) ∷ [])) v
    ∙ ap (λ l. ok (last_item null l)) (items-append xs ((t, y) ∷ []))
    ∙ ap ok (last_item_snoc null (items xs) y)

op-Refines :
    (al : Allocator ListNode) (l : LinkedList) (cs : Cells) (o : ListOp)
    → IsValid l cs
    → Refines (list_op al l o) (plain_op (items cs) o)
unfolding list_op list_size
op-Refines al l cs (ListOp.add_front x) v =
    let (l', runs, v') = add_front-IsValid al l cs x v in
    record {
      after = l';
      runs = rw runs refl;
      stands = record { cells = (al.malloc l.heap, x) ∷ cs; valid = v'; holds = refl };
    }
op-Refines al l cs (ListOp.add_back x) v =
    let (l', runs, v') = add_back-IsValid al l cs x v in
    record {
      after = l';
      runs = rw runs refl;
      stands = record {
        cells = cs ++ ((al.malloc l.heap, x) ∷ []);
        valid = v';
        holds = items-append cs ((al.malloc l.heap, x) ∷ []);
      };
    }
op-Refines al l cs ListOp.remove_first v = list_remove_first-Refines al l cs v
op-Refines al l cs ListOp.remove_last v = list_remove_last-Refines al l cs v
op-Refines al l cs (ListOp.take_out x) v = take_out-Refines al l x cs v
op-Refines al l cs ListOp.first v = record {
  after = l;
  runs = rw (list_first_lem l cs v) refl;
  stands = record { cells = cs; valid = v; holds = refl };
}
op-Refines al l cs ListOp.last v = record {
  after = l;
  runs = rw (list_last_lem l cs v) refl;
  stands = record { cells = cs; valid = v; holds = refl };
}
op-Refines al l cs ListOp.size v = record {
  after = l;
  runs = ap (λ n. ok (l, n ∷ [])) (v.counted ∙ sym (length-items cs));
  stands = record { cells = cs; valid = v; holds = refl };
}
op-Refines al l cs ListOp.deinit v =
    let (l', runs, v', gone) = list_safe_deinit-IsValid l cs v in
    record { after = l'; runs = runs; stands = record { cells = []; valid = v'; holds = refl } }

ops-Refines :
    (al : Allocator ListNode) (l : LinkedList) (xs : List ℕ) (os : List ListOp)
    → StandsFor l xs
    → Refines (list_ops al l os) (plain_ops xs os)
unfolding list_ops
ops-Refines al l xs [] s = record { after = l; runs = refl; stands = s }
ops-Refines al l xs (o ∷ os) s =
    let r : Refines (list_op al l o) (plain_op xs o) =
      rw s.holds at (op-Refines al l s.cells o s.valid) in
    let rest = ops-Refines al r.after (plain_op xs o).0 os r.stands in
    record { after = rest.after; runs = rw (r.runs, rest.runs) refl; stands = rest.stands }

new-StandsFor : StandsFor list_new []
unfolding list_new
new-StandsFor = record {
  cells = [];
  valid = record { counted = refl; at_head = refl; at_tail = refl; linked = tt; distinct = tt };
  holds = refl;
}

-- Whatever the allocator, any sequence of additions, removals, searches and reads on a new list
-- runs with no failed assertion and no access to a node that is not in use, gives the caller the
-- items that a plain list of items gives for the same calls, and leaves a list whose count and
-- links, forward and backward, are those of that plain list.
pub list_ops-Refines :
    (al : Allocator ListNode) (os : List ListOp)
    → Refines (list_ops al list_new os) (plain_ops [] os)
list_ops-Refines al os = ops-Refines al list_new [] os new-StandsFor
