-- ===== src/EventTable/Tests.antt =====
-- The theorems of the event table at a table with two entries handed out.
use network_c_http.Base.{
  ℕ, ◌≡◌, ◌≤◌, ◌<◌, ◌⊎◌, refl, true, ◌>>=◌, [], ◌∷◌, Outcome, ok, abort, arith, length,
}
use network_c_http.Base.Cells.{update}
use network_c_http.EventTable.{
  EventTable, FreeList, evt_max, event_table_new, event_table_get_entry, event_table_release_entry,
  event_table_number_in_use, event_table_has_outstanding_events, freelist_add, freelist_get,
}
use network_c_http.EventTable.Slots
use network_c_http.EventTable.Entries.{occurs, erase, Owns, event_table_new-Owns, get_entry-Owns}
use network_c_http.EventTable.Lifetime.{
  Reached, new, get, get_entry-fresh, get_entry-total, release_entry-total, number_in_use-length,
}

abbrev zeros : ℕ → ℕ
zeros i = 0

-- A new table, and the two that follow when two entries are handed out.
abbrev made : (t : EventTable) × (event_table_new zeros zeros ≡ ok t) × Owns t []
made = event_table_new-Owns zeros zeros

abbrev first :
    (t : EventTable) × (p : ℕ) × (event_table_get_entry made.0 ≡ ok (t, p)) × Owns t (p ∷ [])
first = get_entry-Owns made.0 [] made.2 (omega arith)

abbrev second :
    (t : EventTable) × (p : ℕ) × (event_table_get_entry first.0 ≡ ok (t, p))
    × Owns t (p ∷ first.1 ∷ [])
second = get_entry-Owns first.0 (first.1 ∷ []) first.3 (omega arith)

one_held : Reached first.0 (first.1 ∷ [])
one_held = get (new zeros zeros made.1) first.2

held : Reached second.0 (second.1 ∷ first.1 ∷ [])
held = get one_held second.2

get_entry-fresh_example :
    (second.1 < evt_max)
    × (occurs second.1 (first.1 ∷ []) ≡ 0)
    × (second.0.my_index.cell second.1 ≡ second.1)
get_entry-fresh_example = get_entry-fresh second.0 second.1 one_held second.2

get_entry-total_example :
    ((length (second.1 ∷ first.1 ∷ []) ≡ evt_max) × (event_table_get_entry second.0 ≡ abort))
    ⊎ ((length (second.1 ∷ first.1 ∷ []) < evt_max)
        × ((t' : EventTable) × (p : ℕ) × (event_table_get_entry second.0 ≡ ok (t', p))))
get_entry-total_example = get_entry-total held

second_counts : 0 < occurs second.1 (second.1 ∷ first.1 ∷ [])
unfolding occurs
second_counts = ground arith

release_entry-total_example :
    (t' : EventTable) × (event_table_release_entry second.0 second.1 ≡ ok t')
    × Reached t' (erase second.1 (second.1 ∷ first.1 ∷ []))
    × (occurs second.1 (Slots.contents t'.free_list) ≡ 1)
release_entry-total_example = release_entry-total second.1 held second_counts

number_in_use-length_example :
    (event_table_number_in_use second.0 ≡ 2)
    × (2 ≤ evt_max)
    × (event_table_has_outstanding_events second.0 ≡ true)
number_in_use-length_example = number_in_use-length held

-- A free list of three entries, of which two are taken and one is given back, by evaluation.
abbrev three : FreeList
three = record {
  count = 3;
  max_entries = 3;
  modulo_max = 4;
  rdix = 0;
  wrix = 3;
  buffer = record { size = 4; cell = λ i. i };
}

abbrev taken_twice : Outcome (FreeList × ℕ)
taken_twice =
    freelist_get three >>= λ (a, x). freelist_get a >>= λ (b, y). freelist_add b x >>= freelist_get

three-taken : (taken_twice >>= λ r. ok r.1) ≡ ok 2
unfolding freelist_get freelist_add update
three-taken = refl

three-full : freelist_add three 7 ≡ abort
unfolding freelist_add
three-full = refl
