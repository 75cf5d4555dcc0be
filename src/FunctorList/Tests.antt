-- ===== src/FunctorList/Tests.antt =====
-- Tests of the ready list, and its theorems at concrete inputs.
use network_c_http.Base.{ℕ, ◌+◌, ◌≡◌, refl, List, [], ◌∷◌, ok, abort, ◌>>=◌, arith}
use network_c_http.Base.Cells.{update}
use network_c_http.FunctorList.{
  FunctorList, functor_list_size, functor_list_new, functor_list_add, functor_list_remove,
}
use network_c_http.FunctorList.Queue.{Op, add, remove, serve}
use network_c_http.FunctorList.Run.{run, run-serve, functor_list_new-run}

-- A list of capacity 4 that has gone round its end: it holds 12 and 9.
abbrev wrapped : FunctorList ℕ
wrapped = record {
  capacity = 4;
  head = 0;
  tail_plus = 2;
  list = record { size = 5; cell = λ i. 9 + i };
}

abbrev script : List (Op ℕ)
script = add 1 ∷ remove ∷ remove ∷ add 2 ∷ remove ∷ remove ∷ []

run-wrapped : run wrapped script ≡ ok (12 ∷ 9 ∷ 1 ∷ 2 ∷ [])
unfolding run functor_list_add functor_list_remove update
run-wrapped = refl

run-overflow : run wrapped (add 1 ∷ add 2 ∷ []) ≡ abort
unfolding run functor_list_add
run-overflow = refl

run-serve_example : run wrapped script ≡ serve 4 (12 ∷ 9 ∷ []) script
unfolding functor_list_size
run-serve_example = run-serve script wrapped (omega arith)

functor_list_new-run_example :
    (functor_list_new (λ i. i) 4 >>= λ l. run l script) ≡ serve 4 [] script
functor_list_new-run_example = functor_list_new-run (λ i. i) 4 script (omega arith)
