-- ===== src/LinkedList/Tests.antt =====
-- Runs of list.c on concrete lists.
use network_c_http.Base.{ℕ, ◌≡◌, refl, List, [], ◌∷◌, Outcome, ok, if◌then◌else◌, none}
use network_c_http.Base.Heap.{at, write, erase, free, deref, assign, Allocator, bump_allocator}
use network_c_http.LinkedList.{
  ListNode, list_new, LinkedList, list_add_back, set_backward, set_forward, list_add_front,
  list_find, list_itr_remove, list_last, list_remove_last, list_remove_first, list_first,
  list_safe_deinit, deinit_loop, list_node_new, list_size, remove_only, unlink,
}
use network_c_http.LinkedList.Run.{ListOp, list_ops, plain_ops, Refines}
use network_c_http.LinkedList.Chain.{Cells, IsValid, has}
use network_c_http.LinkedList.Walk.{list_safe_deinit-IsValid}
use network_c_http.LinkedList.Refinement.{list_ops-Refines}
use network_c_http.LinkedList.Run.ListOp.{
  add_front, add_back, remove_first, remove_last, take_out, first, last, size, deinit,
}

abbrev bump : Allocator ListNode
bump = bump_allocator

abbrev calls : List ListOp
calls =
    add_back 5
    ∷ add_back 6
    ∷ add_front 7
    ∷ add_back 8
    ∷ take_out 6
    ∷ take_out 99
    ∷ last
    ∷ remove_last
    ∷ remove_first
    ∷ size
    ∷ first
    ∷ take_out 5
    ∷ remove_first
    ∷ add_front 1
    ∷ deinit
    ∷ []

list_ops-Refines_example : Refines (list_ops bump list_new calls) (plain_ops [] calls)
list_ops-Refines_example = list_ops-Refines bump calls

got : Outcome (LinkedList × List ℕ) → List ℕ
got (ok (l, xs)) = xs
got _ = []

calls-run : got (list_ops bump list_new calls) ≡ 8 ∷ 8 ∷ 7 ∷ 1 ∷ 5 ∷ 0 ∷ 1 ∷ []
unfolding got list_ops list_new list_add_back set_backward deref write at assign set_forward
    list_add_front list_find list_itr_remove free erase list_last list_remove_last list_remove_first
    list_first list_safe_deinit deinit_loop list_node_new list_size remove_only unlink
calls-run = refl

abbrev two_nodes : LinkedList
two_nodes = record {
  heap =
      (20, record { forward = 0; backward = 10; item = 8 })
      ∷ (10, record { forward = 20; backward = 0; item = 7 })
      ∷ [];
  count = 2;
  head = 10;
  tail = 20;
}

abbrev two_cells : Cells
two_cells = (10, 7) ∷ (20, 8) ∷ []

two_nodes-IsValid : IsValid two_nodes two_cells
unfolding at
two_nodes-IsValid = record {
  counted = refl;
  at_head = refl;
  at_tail = refl;
  linked = (refl, (λ e. cc), (refl, (λ e. cc), tt));
  distinct = (refl, (refl, tt));
}

list_safe_deinit-IsValid_example :
    (l' : LinkedList) × (list_safe_deinit two_nodes ≡ ok (l', 7 ∷ 8 ∷ []))
    × IsValid l' []
    × ((a : ℕ) → at l'.heap a ≡ (if has a two_cells then none else at two_nodes.heap a))
list_safe_deinit-IsValid_example = list_safe_deinit-IsValid two_nodes two_cells two_nodes-IsValid
