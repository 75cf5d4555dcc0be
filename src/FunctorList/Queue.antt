-- ===== src/FunctorList/Queue.antt =====
-- What the ready list promises: a queue that holds fewer than `capacity` entries, oldest first, and
-- that ends the program when it is asked for more than it can do.
use network_c_http.Base.{
  ℕ, ◌+◌, List, [], ◌∷◌, ◌++◌, Outcome, abort, ok, ◌>>=◌, ltb, if◌then◌else◌, length,
}

-- The calls that a client makes, in order.
pub data Op (F : Type 0) : Type 0 where
  add : F → Op F
  remove : Op F

module _ {F : Type 0} where
  unfoldable pub enqueue : ℕ → List F → F → Outcome (List F)
  enqueue capacity q x = if ltb (length q + 1) capacity then ok (q ++ (x ∷ [])) else abort

  unfoldable pub dequeue : List F → Outcome (List F × F)
  dequeue [] = abort
  dequeue (x ∷ q) = ok (q, x)

  -- What a sequence of calls hands back.
  unfoldable pub serve : ℕ → List F → List (Op F) → Outcome (List F)
  serve capacity q [] = ok []
  serve capacity q (add x ∷ ops) = do q' ← enqueue capacity q x; serve capacity q' ops
  serve capacity q (remove ∷ ops) = do
    (q', x) ← dequeue q
    out ← serve capacity q' ops
    ok (x ∷ out)
