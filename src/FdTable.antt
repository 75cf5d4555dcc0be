-- ===== src/FdTable.antt =====
-- The epoll runloop's table of watchers by file descriptor:
-- src/runloop/epoll_runloop/fdtable.c, and the walk over it in `runloop_close` of runloop.c.
-- A watcher is only stored and handed back: it is any type. `NULL` is `none`, and so is the -1 that
-- an iterator returns at the end. A descriptor is not negative.
pub mod Registered
pub mod Updates
pub mod Walk
mod Tests
use network_c_http.Base.{
  ℕ, zero, suc, ◌+◌, ◌-◌, ◌^◌, ◌%◌, Bool, true, false, not, Option, none, some, List, [], ◌∷◌,
  Outcome, ok, abort, fault, ◌>>=◌, ◌>>◌, assert, ltb, if◌then◌else◌, is_some,
}
use network_c_http.Base.Cells.{Block, load, store}

-- `runloop_FDTABLE_MAX`
abbrev pub fdtable_max : ℕ
fdtable_max = 1024

pub record FdTable (W : Type 0) : Type 0 where
  pub count : ℕ
  pub entries : Block (Option W)

module _ {W : Type 0} where
  -- The loop of `FdTable_init`, with `rounds` rounds left at index `i`.
  unfoldable pub fdtable_clear : ℕ → ℕ → Block (Option W) → Outcome (Block (Option W))
  fdtable_clear zero i entries = ok entries
  fdtable_clear (suc rounds) i entries = do
    entries' ← store entries i none
    fdtable_clear rounds (i + 1) entries'

  unfoldable pub fdtable_init : FdTable W → Outcome (FdTable W)
  fdtable_init t = do
    entries ← fdtable_clear fdtable_max 0 t.entries
    ok (record { count = 0; entries = entries })

  -- `uninitialised` is what `malloc` leaves in the table.
  unfoldable pub fdtable_new : (uninitialised : ℕ → Option W) → Outcome (FdTable W)
  fdtable_new uninitialised =
      fdtable_init
        (record { count = 0; entries = record { size = fdtable_max; cell = uninitialised } })

  unfoldable pub fdtable_insert : FdTable W → W → ℕ → Outcome (FdTable W)
  fdtable_insert t watcher fd = do
    old ← load t.entries fd
    assert (not (is_some old))
    entries ← store t.entries fd (some watcher)
    ok (record { count = (t.count + 1) % 2 ^ 64; entries = entries })

  unfoldable pub fdtable_remove : FdTable W → ℕ → Outcome (FdTable W)
  fdtable_remove t fd = do
    old ← load t.entries fd
    assert (is_some old)
    entries ← store t.entries fd none
    ok (record { count = (t.count + 2 ^ 64 - 1) % 2 ^ 64; entries = entries })

  unfoldable pub fdtable_lookup : FdTable W → ℕ → Outcome (Option W)
  fdtable_lookup t fd = do found ← load t.entries fd; assert (is_some found); ok found

  -- The loop of both iterators: the first used entry of the `n` from index `i` on.
  unfoldable pub fdtable_scan : ℕ → ℕ → Block (Option W) → Outcome (Option ℕ)
  fdtable_scan zero i entries = ok none
  fdtable_scan (suc n) i entries = do
    e ← load entries i
    let rest = fdtable_scan n (i + 1) entries
    if is_some e then ok (some i) else rest

  unfoldable pub fdtable_iterator : FdTable W → Outcome (Option ℕ)
  fdtable_iterator t = fdtable_scan fdtable_max 0 t.entries

  unfoldable pub fdtable_next_iterator : FdTable W → ℕ → Outcome (Option ℕ)
  fdtable_next_iterator t iter = do
    assert (ltb (iter + 1) fdtable_max)
    fdtable_scan (fdtable_max - (iter + 1)) (iter + 1) t.entries

  unfoldable pub fdtable_size : FdTable W → ℕ
  fdtable_size t = t.count

  -- The loop of `FdTable_free`, with `rounds` rounds left at index `i`.
  unfoldable pub fdtable_free_loop : ℕ → ℕ → FdTable W → Outcome (FdTable W)
  fdtable_free_loop zero i t = ok t
  fdtable_free_loop (suc rounds) i t = do
    e ← load t.entries i
    t' ← (if is_some e then fdtable_remove t i else ok t)
    fdtable_free_loop rounds (i + 1) t'

  unfoldable pub fdtable_free : FdTable W → Outcome (FdTable W)
  fdtable_free t = fdtable_free_loop fdtable_max 0 t

  -- The `while` loop of `runloop_close`: the descriptors that it closes from `next_fd` on. The fuel
  -- bounds the rounds, and a walk that uses it up would be a fault.
  unfoldable pub close_walk : ℕ → FdTable W → Option ℕ → Outcome (List ℕ)
  close_walk fuel t none = ok []
  close_walk zero t (some next_fd) = fault
  close_walk (suc fuel) t (some next_fd) = do
    next ← fdtable_next_iterator t next_fd
    rest ← close_walk fuel t next
    ok (next_fd ∷ rest)

  -- Each round goes to a higher descriptor, so one round for each place is enough.
  unfoldable pub runloop_close_watchers : FdTable W → Outcome (List ℕ)
  runloop_close_watchers t = do first ← fdtable_iterator t; close_walk fdtable_max t first
