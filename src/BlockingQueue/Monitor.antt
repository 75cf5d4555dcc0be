-- ===== src/BlockingQueue/Monitor.antt =====
-- The threads at the queue. A thread is either able to run or it waits on one of the two condition
-- variables; a broadcast makes all that wait on the variable able to run, and a thread may also wake
-- with no broadcast, as POSIX allows. Which thread runs next is left open.
use network_c_http.Base.{
  ℕ, suc, ◌+◌, ◌-◌, ◌<◌, ◌≡◌, refl, sym, ap, ◌∙◌, true, List, [], ◌∷◌, ◌++◌, append_assoc, arith,
  length, Outcome, ok, ◌>>=◌, if◌then◌else◌, ◌⊎◌, inl, inr, ◌==◌, same_ok,
}
use mathlib.Core.Path.{subst}
use native.Mathlib.Decide.{dec_lt}
use network_c_http.BlockingQueue.{
  Queue, Round, waits, returns, queue_new_with_capacity, queue_remove, queue_add,
}
use network_c_http.BlockingQueue.Ring.{
  IsValid, contents, new-IsValid, added, add-waits, add-returns, added-IsValid, contents-added,
  removed, remove-waits, remove-returns, removed-IsValid, contents_of_pos,
}

-- `sending` and `receiving` are the calls of `Queue_add` and `Queue_remove` that are able to run,
-- the first with their argument; `not_full` and `not_empty` those that wait on a condition variable.
-- `sent` and `received` record what the calls that returned have added and removed.
pub record System (A : Type 0) : Type 0 where
  pub queue : Queue A
  pub sending : List A
  pub receiving : ℕ
  pub not_full : List A
  pub not_empty : ℕ
  pub sent : List A
  pub received : List A

module _ {A : Type 0} where
  abbrev pub start_system : (uninitialised : ℕ → A) → ℕ → System A
  start_system uninitialised capacity = record {
    queue = queue_new_with_capacity uninitialised capacity;
    sending = [];
    receiving = 0;
    not_full = [];
    not_empty = 0;
    sent = [];
    received = [];
  }

  -- What a round of `Queue_add x` makes of the threads, `rest` being the other calls of `Queue_add`
  -- that are able to run.
  abbrev pub add_ends : System A → A → List A → Round (Queue A) → System A
  add_ends s x rest waits = record s { sending = rest; not_full = x ∷ s.not_full }
  add_ends s x rest (returns q woken) = record s {
    queue = q;
    sending = rest;
    sent = s.sent ++ (x ∷ []);
    receiving = if woken then s.receiving + s.not_empty else s.receiving;
    not_empty = if woken then 0 else s.not_empty;
  }

  unfoldable pub add_round : System A → A → List A → Outcome (System A)
  add_round s x rest = do r ← queue_add s.queue x; ok (add_ends s x rest r)

  abbrev pub remove_ends : System A → Round (Queue A × A) → System A
  remove_ends s waits = record s { receiving = s.receiving - 1; not_empty = s.not_empty + 1 }
  remove_ends s (returns (q, x) woken) = record s {
    queue = q;
    receiving = s.receiving - 1;
    received = s.received ++ (x ∷ []);
    sending = if woken then s.not_full ++ s.sending else s.sending;
    not_full = if woken then [] else s.not_full;
  }

  unfoldable pub remove_round : System A → Outcome (System A)
  remove_round s = do r ← queue_remove s.queue; ok (remove_ends s r)

  -- The states that the threads can reach from a new queue.
  pub data Reached : System A → Type 0 where
    start : (uninitialised : ℕ → A) (capacity : ℕ) → Reached (start_system uninitialised capacity)
    call_add : {s : System A} (x : A) → Reached s → Reached (record s { sending = x ∷ s.sending })
    call_remove : {s : System A} → Reached s → Reached (record s { receiving = s.receiving + 1 })
    run_add :
        {s s' : System A} (before after : List A) (x : A)
        → Reached s
        → s.sending ≡ before ++ (x ∷ after)
        → add_round s x (before ++ after) ≡ ok s'
        → Reached s'
    run_remove :
        {s s' : System A} → Reached s → 0 < s.receiving → remove_round s ≡ ok s' → Reached s'
    wake_add :
        {s : System A} (before after : List A) (x : A)
        → Reached s
        → s.not_full ≡ before ++ (x ∷ after)
        → Reached (record s { sending = x ∷ s.sending; not_full = before ++ after })
    wake_remove :
        {s : System A}
        → Reached s
        → 0 < s.not_empty
        → Reached (record s { receiving = s.receiving + 1; not_empty = s.not_empty - 1 })

  pub record Sound (s : System A) : Type 0 where
    pub valid : IsValid s.queue
    pub fifo : s.sent ≡ s.received ++ contents s.queue
    pub consumers : (s.not_empty ≡ 0) ⊎ (s.queue.size ≡ 0)
    pub producers : (length s.not_full ≡ 0) ⊎ (s.queue.size ≡ s.queue.max_size)

  pub add_round-Sound :
      (s : System A) (x : A) (rest : List A)
      → Sound s
      → (s' : System A) × (add_round s x rest ≡ ok s') × Sound s'
  unfolding add_round
  add_round-Sound s x rest v = elim (dec_lt s.queue.size s.queue.max_size) [
    | yes h ↦ (
      add_ends s x rest (returns (added s.queue x) (s.queue.size == 0)),
      rw (add-returns s.queue x v.valid h) refl,
      record {
        valid = added-IsValid s.queue x v.valid h;
        fifo =
            ap (λ l. l ++ (x ∷ [])) v.fifo
            ∙ append_assoc s.received (contents s.queue) (x ∷ [])
            ∙ ap (λ l. s.received ++ l) (sym (contents-added s.queue x v.valid h));
        consumers = ground (arith, v.consumers);
        producers = ground (arith, v.producers);
      },
    )
    | no h ↦
        let full : s.queue.size ≡ s.queue.max_size = omega (arith, v.valid.bounded) in
        (
          add_ends s x rest waits,
          rw (add-waits s.queue x full) refl,
          record { valid = v.valid; fifo = v.fifo; consumers = v.consumers; producers = inr full },
        )
  ]

  pub remove_round-Sound :
      (s : System A) → Sound s → (s' : System A) × (remove_round s ≡ ok s') × Sound s'
  unfolding remove_round
  remove_round-Sound s v = elim (dec_lt 0 s.queue.size) [
    | yes h ↦ (
      remove_ends s (returns (removed s.queue, s.queue.q.cell s.queue.first) true),
      rw (remove-returns s.queue v.valid h) refl,
      record {
        valid = removed-IsValid s.queue v.valid h;
        fifo =
            v.fifo
            ∙ ap (λ l. s.received ++ l) (contents_of_pos s.queue v.valid h)
            ∙ sym (
                append_assoc s.received (s.queue.q.cell s.queue.first ∷ [])
                  (contents (removed s.queue)));
        consumers = inl (omega (arith, v.consumers));
        producers = inl refl;
      },
    )
    | no h ↦
        let empty : s.queue.size ≡ 0 = omega arith in
        (
          remove_ends s waits,
          rw (remove-waits s.queue v.valid empty) refl,
          record { valid = v.valid; fifo = v.fifo; consumers = inr empty; producers = v.producers },
        )
  ]

  length-split :
      (before after : List A) (x : A)
      → length (before ++ (x ∷ after)) ≡ suc (length (before ++ after))
  length-split [] after x = refl
  length-split (y ∷ before) after x = ap suc (length-split before after x)

  pub Reached-Sound : {s : System A} → Reached s → Sound s
  unfolding queue_new_with_capacity
  Reached-Sound (start uninitialised capacity) = record {
    valid = new-IsValid uninitialised capacity;
    fifo = refl;
    consumers = inl refl;
    producers = inl refl;
  }
  Reached-Sound (call_add x u) =
      let v = Reached-Sound u in
      record { valid = v.valid; fifo = v.fifo; consumers = v.consumers; producers = v.producers }
  Reached-Sound (call_remove u) =
      let v = Reached-Sound u in
      record { valid = v.valid; fifo = v.fifo; consumers = v.consumers; producers = v.producers }
  Reached-Sound (run_add {s} before after x u e r) =
      let (s1, r1, v) = add_round-Sound s x (before ++ after) (Reached-Sound u) in
      subst Sound (same_ok r1 r) v
  Reached-Sound (run_remove {s} u h r) =
      let (s1, r1, v) = remove_round-Sound s (Reached-Sound u) in subst Sound (same_ok r1 r) v
  Reached-Sound (wake_add {s} before after x u e) =
      let v = Reached-Sound u in
      record {
        valid = v.valid;
        fifo = v.fifo;
        consumers = v.consumers;
        producers = omega (arith, v.producers, ap length e, length-split before after x);
      }
  Reached-Sound (wake_remove {s} u h) =
      let v = Reached-Sound u in
      record {
        valid = v.valid;
        fifo = v.fifo;
        consumers = omega (arith, v.consumers);
        producers = v.producers;
      }
