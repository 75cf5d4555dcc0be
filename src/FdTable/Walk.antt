-- ===== src/FdTable/Walk.antt =====
-- The walk of `runloop_close` over the table.
use network_c_http.Base.{
  ℕ, zero, suc, ◌+◌, ◌-◌, ◌<◌, ◌≡◌, refl, Bool, true, false, none, some, [], ◌∷◌, ok, abort, arith,
  lt→ltb, if◌then◌else◌, is_some, inl, inr,
}
use network_c_http.FdTable.{
  FdTable, fdtable_max, fdtable_iterator, fdtable_next_iterator, close_walk, runloop_close_watchers,
  fdtable_scan,
}
use network_c_http.FdTable.Registered.{registered, Nothing, scan_cases}
use network_c_http.FdTable.Updates.{IsValid, descriptors}

module _ {W : Type 0} (t : FdTable W) (v : IsValid t) where
  -- Whether the highest descriptor that the table can hold is in use.
  abbrev last_used : Bool
  last_used = is_some (t.entries.cell (fdtable_max - 1))

  next_iterator_lem :
      (c n : ℕ)
      → c + 1 + suc n ≡ fdtable_max
      → fdtable_next_iterator t c ≡ fdtable_scan (suc n) (c + 1) t.entries
  unfolding fdtable_next_iterator
  next_iterator_lem c n e =
      let rounds : fdtable_max - (c + 1) ≡ suc n = omega arith in
      rw (rounds, lt→ltb (c + 1) fdtable_max (omega arith))

  next_iterator_last : (c : ℕ) → c + 1 + zero ≡ fdtable_max → fdtable_next_iterator t c ≡ abort
  unfolding fdtable_next_iterator
  next_iterator_last c e = ground arith

  -- The last place of a table with nothing used behind `c` is free.
  last_free :
      (c n : ℕ)
      → c + 1 + suc n ≡ fdtable_max
      → Nothing t.entries (c + 1) (suc n)
      → last_used ≡ false
  last_free c n e nothing = nothing.free (fdtable_max - 1) (omega arith) (omega arith)

  close_walk-none : (fuel : ℕ) → close_walk fuel t none ≡ ok []
  unfolding close_walk
  close_walk-none zero = refl
  close_walk-none (suc fuel) = refl

  close_walk_lem :
      (fuel c n : ℕ)
      → c + 1 + n ≡ fdtable_max
      → n < fuel
      → is_some (t.entries.cell c) ≡ true
      → close_walk fuel t (some c)
        ≡ (if last_used then abort else ok (c ∷ registered t.entries.cell (c + 1) n))
  unfolding close_walk
  close_walk_lem zero c n e f u = absurd (omega arith)
  close_walk_lem (suc fuel) c zero e f u =
      let last : c ≡ fdtable_max - 1 = omega arith in
      let used : last_used ≡ true = rw last at u in
      let stop : fdtable_next_iterator t c ≡ abort = next_iterator_last c e in rw (stop, used)
  close_walk_lem (suc fuel) c (suc n) e f u =
      elim (scan_cases t.entries (c + 1) (suc n) (omega (arith, v.room))) [
        | inl nothing ↦
            rw (next_iterator_lem c n e, nothing.scan, last_free c n e nothing, nothing.list)
              (ground (arith, close_walk-none fuel))
        | inr (d, m, found) ↦
            rw
              (
                next_iterator_lem c n e,
                found.scan,
                found.list,
                close_walk_lem fuel d m (omega (arith, found.end))
                    (omega (arith, found.end, found.start)) found.used,
              )
              (ground arith)
      ]

  -- `runloop_close` closes each registered descriptor once, in ascending order, if descriptor 1023,
  -- the highest that the table can hold, is not registered. If it is registered, the walk fails the
  -- assertion of `FdTable_next_iterator`. The walk ends in either case.
  pub close_watchers_lem :
      runloop_close_watchers t ≡ (if last_used then abort else ok (descriptors t))
  unfolding runloop_close_watchers fdtable_iterator
  close_watchers_lem = elim (scan_cases t.entries 0 fdtable_max (omega (arith, v.room))) [
    | inl nothing ↦
        let free : last_used ≡ false = nothing.free (fdtable_max - 1) (omega arith) (omega arith) in
        rw (nothing.scan, free, nothing.list) (close_walk-none fdtable_max)
    | inr (d, m, found) ↦
        rw (found.scan, found.list)
          (close_walk_lem fdtable_max d m (omega (arith, found.end)) (omega (arith, found.end))
            found.used)
  ]
