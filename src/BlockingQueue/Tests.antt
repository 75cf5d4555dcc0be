-- ===== src/BlockingQueue/Tests.antt =====
-- Tests of the queue between threads.
use network_c_http.Base.{ℕ, ◌≤◌, ◌≡◌, refl, [], ◌∷◌, ◌++◌, arith, length, ok, ◌⊎◌}
use network_c_http.Base.Cells.{update}
use network_c_http.BlockingQueue.{
  queue_new_with_capacity, queue_add, queue_remove, advance_next_pointer, is_full, is_empty,
  round_on,
}
use network_c_http.BlockingQueue.Ring.{contents}
use network_c_http.BlockingQueue.Monitor.{
  System, start_system, Reached, start, call_add, call_remove, run_remove, run_add, add_round,
  remove_round,
}
use network_c_http.BlockingQueue.Fairness.{
  Reached-fifo, Reached-waiting, Reached-rounds, Reached-progress, AddReturns, RemoveReturns,
}

-- A queue of capacity 1 where a call of `Queue_remove` found nothing and waits.
abbrev starved : System ℕ
starved = record (start_system (λ i. 0) 1) { not_empty = 1 }

starved-Reached : Reached starved
unfolding remove_round queue_remove queue_new_with_capacity is_empty
starved-Reached = run_remove (call_remove (start (λ i. 0) 1)) (omega arith) refl

-- Then a call of `Queue_add 7` comes, returns and wakes it.
abbrev woken : System ℕ
woken = record starved {
  queue = record (queue_new_with_capacity (λ i. 0) 1) {
    q = record { size = 1; cell = update (λ i. 0) 0 7 };
    size = 1;
  };
  sent = 7 ∷ [];
  receiving = 1;
  not_empty = 0;
}

woken-Reached : Reached woken
unfolding add_round queue_add queue_new_with_capacity advance_next_pointer is_full round_on
woken-Reached = run_add [] [] 7 (call_add 7 starved-Reached) refl refl

-- Two calls of `Queue_add` more, the first of which finds the queue full.
abbrev crowded : System ℕ
crowded = record woken { not_full = 8 ∷ []; sending = 9 ∷ [] }

crowded-Reached : Reached crowded
unfolding add_round queue_add queue_new_with_capacity
crowded-Reached = call_add 9 (run_add [] [] 8 (call_add 8 woken-Reached) refl refl)

Reached-fifo_example :
    (crowded.sent ≡ crowded.received ++ contents crowded.queue)
    × (length (contents crowded.queue) ≤ crowded.queue.max_size)
Reached-fifo_example = Reached-fifo crowded-Reached

Reached-waiting_example :
    ((crowded.not_empty ≡ 0) ⊎ (length (contents crowded.queue) ≡ 0))
    × ((length crowded.not_full ≡ 0) ⊎ (length (contents crowded.queue) ≡ crowded.queue.max_size))
Reached-waiting_example = Reached-waiting crowded-Reached

Reached-rounds_example :
    ((s' : System ℕ) × (add_round crowded 9 [] ≡ ok s'))
    × ((s' : System ℕ) × (remove_round crowded ≡ ok s'))
Reached-rounds_example = Reached-rounds 9 [] crowded-Reached

Reached-progress_example : AddReturns crowded ⊎ RemoveReturns crowded
unfolding queue_new_with_capacity
Reached-progress_example =
    Reached-progress crowded-Reached (omega arith) (omega arith) (omega arith)
