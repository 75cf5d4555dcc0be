-- ===== src/EventTable.antt =====
-- The table of runloop events and its list of free entries:
-- src/runloop/kqueue_runloop/event_table.c with event_table.c.h.
-- A pointer to an entry is its index in `memory`; of an entry the model keeps the field `my_index`
-- alone, since the code of this file touches no other. Every field of a free list is a `uint16_t`.
pub mod Slots
pub mod Entries
pub mod Lifetime
mod Tests
use network_c_http.Base.{
  ℕ, zero, suc, ◌+◌, ◌-◌, ◌*◌, ◌%◌, ◌^◌, Bool, not, Outcome, ok, abort, fault, ◌>>=◌, ◌>>◌, assert,
  ◌==◌, if◌then◌else◌,
}
use network_c_http.Base.Cells.{Block, load, store}

-- `EVT_MAX`, which is `runloop_MAX_EVENTS`
abbrev pub evt_max : ℕ
evt_max = 1024 * 2

abbrev pub u16 : ℕ
u16 = 2 ^ 16

pub record FreeList : Type 0 where
  pub count : ℕ
  pub max_entries : ℕ
  pub modulo_max : ℕ
  pub rdix : ℕ
  pub wrix : ℕ
  pub buffer : Block ℕ

unfoldable pub freelist_is_full : FreeList → Bool
freelist_is_full fl = fl.count == fl.max_entries

unfoldable pub freelist_is_empty : FreeList → Bool
freelist_is_empty fl = fl.count == 0

-- A remainder by a `modulo_max` of 0 is undefined.
unfoldable pub freelist_add : FreeList → ℕ → Outcome FreeList
unfolding freelist_is_full
freelist_add fl element = do
  assert (not (freelist_is_full fl))
  buffer ← store fl.buffer fl.wrix element
  if fl.modulo_max == 0
      then fault
      else ok (record fl {
        count = (fl.count + 1) % u16;
        buffer = buffer;
        wrix = (fl.wrix + 1) % fl.modulo_max;
      })

unfoldable pub freelist_get : FreeList → Outcome (FreeList × ℕ)
unfolding freelist_is_empty
freelist_get fl = do
  assert (not (freelist_is_empty fl))
  v ← load fl.buffer fl.rdix
  if fl.modulo_max == 0
      then fault
      else ok (
        record fl { count = (fl.count + u16 - 1) % u16; rdix = (fl.rdix + 1) % fl.modulo_max },
        v,
      )

unfoldable pub freelist_size : FreeList → ℕ
freelist_size fl = fl.count

-- The loop of `freelist_init`, with `rounds` rounds left at index `i`.
unfoldable pub freelist_fill : ℕ → ℕ → FreeList → Outcome FreeList
freelist_fill zero i fl = ok fl
freelist_fill (suc rounds) i fl = do fl' ← freelist_add fl i; freelist_fill rounds (i + 1) fl'

unfoldable pub freelist_init : FreeList → Outcome FreeList
freelist_init fl =
    freelist_fill evt_max 0
      (record fl { count = 0; rdix = 0; wrix = 0; max_entries = evt_max; modulo_max = evt_max + 1 })

pub record EventTable : Type 0 where
  pub free_list : FreeList
  pub my_index : Block ℕ

unfoldable pub event_table_init : EventTable → Outcome EventTable
event_table_init ot = do fl ← freelist_init ot.free_list; ok (record ot { free_list = fl })

-- `buffer` and `my_index` are what `malloc` leaves in the two arrays, whose sizes are `EVT_MAX + 1`.
unfoldable pub event_table_new : (buffer my_index : ℕ → ℕ) → Outcome EventTable
event_table_new buffer my_index = event_table_init (record {
  free_list = record {
    count = 0;
    max_entries = 0;
    modulo_max = 0;
    rdix = 0;
    wrix = 0;
    buffer = record { size = evt_max + 1; cell = buffer };
  };
  my_index = record { size = evt_max + 1; cell = my_index };
})

unfoldable pub event_table_get_entry : EventTable → Outcome (EventTable × ℕ)
event_table_get_entry ot = do
  (fl, ix) ← freelist_get ot.free_list
  my_index ← store ot.my_index ix ix
  ok (record { free_list = fl; my_index = my_index }, ix)

unfoldable pub event_table_release_entry : EventTable → ℕ → Outcome EventTable
event_table_release_entry ot p = do
  ix ← load ot.my_index p
  fl ← freelist_add ot.free_list ix
  ok (record ot { free_list = fl })

unfoldable pub event_table_number_in_use : EventTable → ℕ
event_table_number_in_use ot = ot.free_list.max_entries - freelist_size ot.free_list

unfoldable pub event_table_has_outstanding_events : EventTable → Bool
event_table_has_outstanding_events ot = not (freelist_is_full ot.free_list)
