-- ===== src/FdTable/Tests.antt =====
-- The theorems of the descriptor table at small tables.
use network_c_http.Base.{
  ℕ, ◌+◌, ◌≡◌, refl, true, none, some, [], ◌∷◌, ok, abort, arith, if◌then◌else◌, is_some, ◌⊎◌, ◌==◌,
}
use network_c_http.FdTable.{
  FdTable, fdtable_insert, fdtable_remove, fdtable_lookup, fdtable_free, runloop_close_watchers,
}
use network_c_http.FdTable.Registered.{registered}
use network_c_http.FdTable.Updates.{
  IsValid, Replaces, descriptors, insert_lem, remove_lem, lookup_lem, free_lem,
}
use network_c_http.FdTable.Walk.{close_watchers_lem}

-- Descriptors 3 and 7 are registered, with watchers 30 and 70.
abbrev two : FdTable ℕ
two = record {
  count = 2;
  entries = record {
    size = 1024;
    cell = λ i. if i == 3 then some 30 else if i == 7 then some 70 else none;
  };
}

-- Descriptor 1023 is registered.
abbrev highest : FdTable ℕ
highest = record {
  count = 1;
  entries = record { size = 1024; cell = λ i. if i == 1023 then some 5 else none };
}

two-IsValid : IsValid two
unfolding registered
two-IsValid = record { room = refl; counted = refl }

highest-IsValid : IsValid highest
unfolding registered
highest-IsValid = record { room = refl; counted = refl }

insert_lem_example :
    ((is_some (two.entries.cell 5) ≡ true) × (fdtable_insert two 50 5 ≡ abort))
    ⊎ ((two.entries.cell 5 ≡ none)
        × ((t' : FdTable ℕ) × (fdtable_insert two 50 5 ≡ ok t')
            × Replaces two 5 (some 50) t'
            × (t'.count ≡ 3)))
insert_lem_example = insert_lem two 50 5 two-IsValid (omega arith)

remove_lem_example :
    ((two.entries.cell 7 ≡ none) × (fdtable_remove two 7 ≡ abort))
    ⊎ ((is_some (two.entries.cell 7) ≡ true)
        × ((t' : FdTable ℕ) × (fdtable_remove two 7 ≡ ok t')
            × Replaces two 7 none t'
            × (t'.count + 1 ≡ 2)))
remove_lem_example = remove_lem two 7 two-IsValid (omega arith)

lookup_lem_example : fdtable_lookup two 7 ≡ ok (some 70)
lookup_lem_example = lookup_lem two 7 two-IsValid (omega arith)

all_entries_freed :
    (t' : FdTable ℕ) × (fdtable_free two ≡ ok t') × (descriptors t' ≡ []) × (t'.count ≡ 0)
all_entries_freed = free_lem two two-IsValid

close_watchers_lem_example : runloop_close_watchers two ≡ ok (descriptors two)
close_watchers_lem_example = close_watchers_lem two two-IsValid

descriptors-two : descriptors two ≡ 3 ∷ 7 ∷ []
unfolding registered
descriptors-two = refl

close-highest : runloop_close_watchers highest ≡ abort
close-highest = close_watchers_lem highest highest-IsValid
