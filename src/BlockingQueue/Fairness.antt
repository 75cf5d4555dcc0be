-- ===== src/BlockingQueue/Fairness.antt =====
-- What holds in every state that the threads at the queue can reach.
use network_c_http.Base.{
  ◌+◌, ◌≤◌, ◌<◌, ◌≡◌, refl, ap, List, [], ◌∷◌, ◌++◌, arith, true, length, ok, ◌⊎◌, inl, inr, ◌==◌,
}
use native.Mathlib.Decide.{dec_lt}
use network_c_http.Base.Window.{length-window}
use network_c_http.BlockingQueue.{returns}
use network_c_http.BlockingQueue.Ring.{contents, added, removed, add-returns, remove-returns}
use network_c_http.BlockingQueue.Monitor.{
  System, Reached, add_round, remove_round, add_ends, remove_ends, Reached-Sound, add_round-Sound,
  remove_round-Sound,
}

module _ {A : Type 0} where
  -- The entries come out in the order in which they went in, and those that are still inside are
  -- at most as many as the capacity.
  pub Reached-fifo :
      {s : System A}
      → Reached s
      → (s.sent ≡ s.received ++ contents s.queue) × (length (contents s.queue) ≤ s.queue.max_size)
  Reached-fifo {s} u =
      let v = Reached-Sound u in
      (
        v.fifo,
        omega (
          arith,
          length-window s.queue.max_size s.queue.q.cell s.queue.first s.queue.size,
          v.valid.bounded,
        ),
      )

  -- No wake-up is lost: a call of `Queue_remove` waits only while the queue is empty, a call of
  -- `Queue_add` only while it is full.
  pub Reached-waiting :
      {s : System A}
      → Reached s
      → ((s.not_empty ≡ 0) ⊎ (length (contents s.queue) ≡ 0))
        × ((length s.not_full ≡ 0) ⊎ (length (contents s.queue) ≡ s.queue.max_size))
  Reached-waiting {s} u =
      let v = Reached-Sound u in
      let len = length-window s.queue.max_size s.queue.q.cell s.queue.first s.queue.size in
      (omega (arith, len, v.consumers), omega (arith, len, v.producers))

  -- Every round ends: no assertion fails and no access is out of range.
  pub Reached-rounds :
      {s : System A} (x : A) (rest : List A)
      → Reached s
      → ((s' : System A) × (add_round s x rest ≡ ok s'))
        × ((s' : System A) × (remove_round s ≡ ok s'))
  Reached-rounds {s} x rest u =
      let v = Reached-Sound u in
      let (s1, e1, v1) = add_round-Sound s x rest v in
      let (s2, e2, v2) = remove_round-Sound s v in ((s1, e1), (s2, e2))

  -- A call of `Queue_add` is able to run, and if it runs next it returns.
  pub record AddReturns (s : System A) : Type 0 where
    pub entry : A
    pub rest : List A
    pub after : System A
    pub able : s.sending ≡ entry ∷ rest
    pub runs : add_round s entry rest ≡ ok after
    pub adds : after.sent ≡ s.sent ++ (entry ∷ [])

  -- A call of `Queue_remove` is able to run, and if it runs next it returns.
  pub record RemoveReturns (s : System A) : Type 0 where
    pub entry : A
    pub after : System A
    pub able : 0 < s.receiving
    pub runs : remove_round s ≡ ok after
    pub removes : after.received ≡ s.received ++ (entry ∷ [])

  add_next :
      {s : System A} (x : A) (rest : List A)
      → Reached s
      → s.queue.size < s.queue.max_size
      → s.sending ≡ x ∷ rest
      → AddReturns s
  unfolding add_round
  add_next {s} x rest u h e = record {
    entry = x;
    rest = rest;
    after = add_ends s x rest (returns (added s.queue x) (s.queue.size == 0));
    able = e;
    runs = rw (add-returns s.queue x (Reached-Sound u).valid h) refl;
    adds = refl;
  }

  List-cases : (l : List A) → (l ≡ []) ⊎ ((x : A) × ((rest : List A) × (l ≡ x ∷ rest)))
  List-cases [] = inl refl
  List-cases (x ∷ rest) = inr (x, (rest, refl))

  remove_next : {s : System A} → Reached s → 0 < s.queue.size → 0 < s.receiving → RemoveReturns s
  unfolding remove_round
  remove_next {s} u h p = record {
    entry = s.queue.q.cell s.queue.first;
    after = remove_ends s (returns (removed s.queue, s.queue.q.cell s.queue.first) true);
    able = p;
    runs = rw (remove-returns s.queue (Reached-Sound u).valid h) refl;
    removes = refl;
  }

  -- While a call of each function is pending, running or waiting, one of them is able to run and
  -- returns: the threads are never all stuck.
  pub Reached-progress :
      {s : System A}
      → Reached s
      → 0 < s.queue.max_size
      → 0 < length s.sending + length s.not_full
      → 0 < s.receiving + s.not_empty
      → AddReturns s ⊎ RemoveReturns s
  Reached-progress {s} u room adds removes =
      let v = Reached-Sound u in
      elim (dec_lt 0 s.queue.size) [
        | yes h ↦ inr (remove_next u h (omega (arith, v.consumers)))
        | no h ↦ elim (List-cases s.sending) [
          | inl e ↦ absurd (omega (arith, v.producers, ap length e))
          | inr (x, (rest, e)) ↦ inl (add_next x rest u (omega arith) e)
        ]
      ]
