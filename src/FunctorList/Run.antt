-- ===== src/FunctorList/Run.antt =====
-- Sequences of calls on a ready list: no client tells it from the queue of its contents.
use network_c_http.Base.{
  ℕ, ◌-◌, ◌≤◌, ◌<◌, ◌≡◌, refl, ap, ◌∙◌, List, [], ◌∷◌, Outcome, abort, ok, fault, ◌>>=◌, arith, leb,
  leb→le, if◌then◌else◌, Bool-cases, inl, inr, ◌+◌,
}
use network_c_http.Base.Modulo.{mod_cases}
use network_c_http.Base.Window.{window}
use network_c_http.FunctorList.{
  FunctorList, functor_list_new, functor_list_add, functor_list_remove, functor_list_size,
  ready_list_max,
}
use network_c_http.FunctorList.Queue.{Op, add, remove, serve}
use network_c_http.FunctorList.Refine.{
  IsValid, contents, Refines, Yields, add-Refines, remove-Yields,
}

module _ {F : Type 0} where
  -- The calls in order, with what the removals hand back.
  unfoldable pub run : FunctorList F → List (Op F) → Outcome (List F)
  run l [] = ok []
  run l (add x ∷ ops) = do l' ← functor_list_add l x; run l' ops
  run l (remove ∷ ops) = do (l', x) ← functor_list_remove l; out ← run l' ops; ok (x ∷ out)

  abbrev Agrees : List (Op F) → Type 0
  Agrees ops = (l : FunctorList F) → IsValid l → run l ops ≡ serve l.capacity (contents l) ops

  after_add :
      (l : FunctorList F) (ops : List (Op F)) (r : Outcome (FunctorList F)) (q : Outcome (List F))
      → Refines l r q
      → Agrees ops
      → (r >>= λ l'. run l' ops) ≡ (q >>= λ q'. serve l.capacity q' ops)
  after_add l ops (ok l') q h ih = rw (h.2, ih l' h.0) (ap (λ c. serve c (contents l') ops) h.1)
  after_add l ops abort q h ih = rw h
  after_add l ops fault q h ih = absurd h

  after_remove :
      (l : FunctorList F) (ops : List (Op F)) (r : Outcome (FunctorList F × F))
      (q : Outcome (List F × F))
      → Yields l r q
      → Agrees ops
      → (r >>= λ (l', x). run l' ops >>= λ out. ok (x ∷ out))
        ≡ (q >>= λ (q', x). serve l.capacity q' ops >>= λ out. ok (x ∷ out))
  after_remove l ops (ok (l', x)) q h ih =
      rw (h.2, ih l' h.0) (ap (λ c. serve c (contents l') ops >>= λ out. ok (x ∷ out)) h.1)
  after_remove l ops abort q h ih = rw h
  after_remove l ops fault q h ih = absurd h

  -- From a valid list, every sequence of additions and removals hands back what the bounded queue
  -- of its contents hands back, and fails an assertion exactly where the queue does. No call reads
  -- or writes outside the list's block.
  pub run-serve :
      (ops : List (Op F)) (l : FunctorList F)
      → IsValid l
      → run l ops ≡ serve l.capacity (contents l) ops
  unfolding run serve
  run-serve [] l v = refl
  run-serve (add x ∷ ops) l v = after_add l ops _ _ (add-Refines l x v) (run-serve ops)
  run-serve (remove ∷ ops) l v = after_remove l ops _ _ (remove-Yields l v) (run-serve ops)

  abbrev fresh : (ℕ → F) → ℕ → FunctorList F
  fresh uninitialised capacity = record {
    capacity = capacity;
    head = 0;
    tail_plus = 0;
    list = record { size = capacity + 1; cell = uninitialised };
  }

  contents-fresh :
      (uninitialised : ℕ → F) (capacity : ℕ)
      → 0 < capacity
      → contents (fresh uninitialised capacity) ≡ []
  unfolding functor_list_size
  contents-fresh uninitialised capacity p =
      let e : functor_list_size (fresh uninitialised capacity) ≡ 0 =
        omega (arith, mod_cases (0 + capacity - 0) capacity (omega arith)) in
      ap (window capacity uninitialised _) e

  -- For any sequence of calls, a list that `functor_list_new` makes with a capacity above 0 and up to
  -- the limit behaves as an empty first-in first-out queue that holds at most capacity - 1 entries, on
  -- which a further addition and a removal from the empty queue fail their assertions; with a capacity
  -- above the limit `functor_list_new` fails its assertion.
  pub functor_list_new-run :
      (uninitialised : ℕ → F) (capacity : ℕ) (ops : List (Op F))
      → 0 < capacity
      → (functor_list_new uninitialised capacity >>= λ l. run l ops)
        ≡ (if leb capacity ready_list_max then serve capacity [] ops else abort)
  unfolding functor_list_new
  functor_list_new-run uninitialised capacity ops p =
      elim (Bool-cases (leb capacity ready_list_max)) [
        | inl e ↦
            let small : capacity ≤ ready_list_max = leb→le _ _ e in
            rw e (
              run-serve ops (fresh uninitialised capacity) (omega arith)
              ∙ ap (λ q. serve capacity q ops) (contents-fresh uninitialised capacity p))
        | inr e ↦ rw e
      ]
