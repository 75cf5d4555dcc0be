-- ===== src/FunctorList.antt =====
-- The runloop's ready list: src/runloop/kqueue_runloop/functor_list.c, of which the epoll runloop
-- has the same text but for its include lines.
-- `head` is the index of the newest entry and `tail_plus` that of the entry removed last. Both are
-- below the capacity, so no `int` of the code overflows or is negative.
-- A functor (a function and its argument) is only stored and handed back: it is any type.
pub mod Queue
pub mod Refine
pub mod Run
mod Tests
use network_c_http.Base.{
  ℕ, ◌+◌, ◌-◌, ◌*◌, ◌%◌, ◌<◌, Outcome, abort, fault, ok, ◌>>=◌, ◌>>◌, assert, leb, ◌==◌,
  if◌then◌else◌, not,
}
use network_c_http.Base.Cells.{Block, load, store}

-- `runloop_READY_LIST_MAX`
abbrev pub ready_list_max : ℕ
ready_list_max = 2 * 1024

pub record FunctorList (F : Type 0) : Type 0 where
  pub capacity : ℕ
  pub head : ℕ
  pub tail_plus : ℕ
  pub list : Block F

module _ {F : Type 0} where
  -- `uninitialised` is what `malloc` leaves in the block.
  unfoldable pub functor_list_new : (uninitialised : ℕ → F) → ℕ → Outcome (FunctorList F)
  functor_list_new uninitialised capacity = do
    assert (leb capacity ready_list_max)
    ok (record {
      capacity = capacity;
      head = 0;
      tail_plus = 0;
      list = record { size = capacity + 1; cell = uninitialised };
    })

  -- A remainder by a capacity of 0 is undefined.
  unfoldable pub functor_list_add : FunctorList F → F → Outcome (FunctorList F)
  functor_list_add l func =
      if l.capacity == 0
      then fault
      else let tmp = (l.head + 1) % l.capacity in
        if tmp == l.tail_plus
        then abort
        else do list ← store l.list tmp func; ok (record l { head = tmp; list = list })

  unfoldable pub functor_list_size : FunctorList F → ℕ
  functor_list_size l = (l.head + l.capacity - l.tail_plus) % l.capacity

  unfoldable pub functor_list_remove : FunctorList F → Outcome (FunctorList F × F)
  unfolding functor_list_size
  functor_list_remove l =
      if l.capacity == 0 then fault else if functor_list_size l == 0 then abort else do
        let tmpix = (l.tail_plus + 1) % l.capacity
        func ← load l.list tmpix
        ok (record l { tail_plus = tmpix }, func)
