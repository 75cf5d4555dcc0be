-- ===== src/EventTable/Entries.antt =====
-- Which entries of the table are in use, and which are free.
use network_c_http.Base.{
  ℕ, zero, suc, ◌+◌, ◌<◌, ◌≡◌, refl, ap, List, [], ◌∷◌, ◌++◌, ok, arith, length, ◌==◌, ltb, leb,
  if◌then◌else◌, ◌&&◌,
}
use network_c_http.Base.Cells.{load, update}
use network_c_http.EventTable.{
  EventTable, FreeList, evt_max, event_table_new, event_table_init, event_table_get_entry,
  event_table_release_entry,
}
use network_c_http.EventTable.Slots

-- How often `i` stands in a list.
unfoldable pub occurs : ℕ → List ℕ → ℕ
occurs i [] = 0
occurs i (x ∷ xs) = (if x == i then 1 else 0) + occurs i xs

-- Drops the first `p`.
unfoldable pub erase : ℕ → List ℕ → List ℕ
erase p [] = []
erase p (x ∷ xs) = if x == p then xs else x ∷ erase p xs

pub occurs-append : (i : ℕ) (xs ys : List ℕ) → occurs i (xs ++ ys) ≡ occurs i xs + occurs i ys
unfolding occurs
occurs-append i [] ys = omega arith
occurs-append i (x ∷ xs) ys = omega (arith, occurs-append i xs ys)

pub occurs-erase :
    (i p : ℕ) (xs : List ℕ)
    → 0 < occurs p xs
    → occurs i (erase p xs) + (if p == i then 1 else 0) ≡ occurs i xs
unfolding occurs erase
occurs-erase i p [] h = absurd (omega arith)
occurs-erase i p (x ∷ xs) h = ground (arith, occurs-erase i p xs)

pub length-erase : (p : ℕ) (xs : List ℕ) → 0 < occurs p xs → length (erase p xs) + 1 ≡ length xs
unfolding occurs erase
length-erase p [] h = absurd (omega arith)
length-erase p (x ∷ xs) h = ground (arith, length-erase p xs)

pub occurs-upto :
    (j i n : ℕ) → occurs j (Slots.upto i n) ≡ (if leb i j && ltb j (i + n) then 1 else 0)
unfolding occurs Slots.upto
occurs-upto j i zero = ground arith
occurs-upto j i (suc n) = ground (arith, occurs-upto j (i + 1) n)

length-upto : (i n : ℕ) → length (Slots.upto i n) ≡ n
unfolding Slots.upto
length-upto i zero = refl
length-upto i (suc n) = ap suc (length-upto (i + 1) n)

occurs_one : (i p : ℕ) → occurs i (p ∷ []) ≡ (if p == i then 1 else 0)
unfolding occurs
occurs_one i p = omega arith

-- `live` are the entries in use: each index below `EVT_MAX` is either free, once, or in use, once,
-- and no other index is either.
pub record Owns (t : EventTable) (live : List ℕ) : Type 0 where
  pub free : Slots.IsValid t.free_list
  pub room : t.my_index.size ≡ evt_max + 1
  pub once :
      (i : ℕ)
      → occurs i (Slots.contents t.free_list) + occurs i live ≡ (if ltb i evt_max then 1 else 0)
  pub counted : t.free_list.count + length live ≡ evt_max
  pub own_index : (p : ℕ) → 0 < occurs p live → t.my_index.cell p ≡ p

-- The free list as `malloc` leaves it.
abbrev blank : (ℕ → ℕ) → FreeList
blank buffer = record {
  count = 0;
  max_entries = 0;
  modulo_max = 0;
  rdix = 0;
  wrix = 0;
  buffer = record { size = evt_max + 1; cell = buffer };
}

pub event_table_new-Owns :
    (buffer my_index : ℕ → ℕ)
    → (t : EventTable) × (event_table_new buffer my_index ≡ ok t) × Owns t []
unfolding event_table_new event_table_init occurs
event_table_new-Owns buffer my_index =
    let (fl, e, v, c) = Slots.freelist_init-ok (blank buffer) refl in
    let n : length (Slots.contents fl) ≡ evt_max = rw c (length-upto 0 evt_max) in
    (
      record { free_list = fl; my_index = record { size = evt_max + 1; cell = my_index } },
      rw e,
      record {
        free = v;
        room = refl;
        once = λ i. rw c (ground (arith, occurs-upto i 0 evt_max));
        counted = omega (arith, Slots.length-contents fl);
        own_index = λ p h. absurd (omega arith);
      },
    )

pub get_entry-Owns :
    (t : EventTable) (live : List ℕ)
    → Owns t live
    → length live < evt_max
    → (t' : EventTable) × (p : ℕ) × (event_table_get_entry t ≡ ok (t', p)) × Owns t' (p ∷ live)
unfolding event_table_get_entry occurs update
get_entry-Owns t live o h =
    let (fl, x, e, v, c) = Slots.freelist_get-ok t.free_list o.free (omega arith) in
    let held : 0 < occurs x (Slots.contents t.free_list) = rw c (ground arith) in
    let small : x < evt_max = ground (arith, o.once x) in
    let count : fl.count + 1 ≡ t.free_list.count =
      omega (arith, ap length c, Slots.length-contents fl, Slots.length-contents t.free_list) in
    (
      record { free_list = fl; my_index = record t.my_index { cell = update t.my_index.cell x x } },
      x,
      rw e (ground arith),
      record {
        free = v;
        room = o.room;
        once = λ i. omega (arith, rw c at (o.once i));
        counted = omega arith;
        own_index = λ p hp. ground (arith, o.own_index p);
      },
    )

pub release_entry-Owns :
    (t : EventTable) (live : List ℕ) (p : ℕ)
    → Owns t live
    → 0 < occurs p live
    → (t' : EventTable) × (event_table_release_entry t p ≡ ok t') × Owns t' (erase p live)
unfolding event_table_release_entry
release_entry-Owns t live p o h =
    let small : p < evt_max = ground (arith, o.once p) in
    let n = length-erase p live h in
    let (fl, e, v, k, c) = Slots.freelist_add-ok t.free_list p o.free (omega arith) in
    let found : load t.my_index p ≡ ok p = ground (arith, o.own_index p h) in
    (
      record t { free_list = fl },
      rw (found, e),
      record {
        free = v;
        room = o.room;
        once = λ i.
            rw (c, occurs-append)
              (omega (arith, o.once i, occurs-erase i p live h, occurs_one i p));
        counted = omega arith;
        own_index = λ q hq. o.own_index q (omega (arith, occurs-erase q p live h));
      },
    )
