-- ===== src/RunloopStream.antt =====
-- The watcher of a socket: src/runloop/epoll_runloop/w_stream.c, with runloop_register,
-- runloop_reregister and runloop_deregister of runloop.c for the descriptor of the watcher.
-- `event_mask` has a field for each bit. `registered` is the entry of the descriptor table together
-- with the interest that epoll has: `some` when the descriptor's entry is this watcher, and `none` when
-- the entry is empty, for no other watcher is registered for the same descriptor. The calls of
-- `epoll_ctl` are taken to succeed. A function that can be armed is an `F`, and its argument an
-- address, 0 for NULL. `fd` is `none` for -1.
use network_c_http.Base.{
  ℕ, zero, suc, Bool, true, false, Option, none, some, Outcome, ok, ◌>>=◌, ◌>>◌, assert, is_some,
  not,
}

pub record Mask : Type 0 where
  pub epollin : Bool
  pub epollout : Bool
  pub epollerr : Bool
  pub epollhup : Bool
  pub epollrdhup : Bool
  pub epollet : Bool

pub record RunloopStream (F : Type 0) : Type 0 where
  pub fd : Option ℕ
  pub event_mask : Mask
  pub read_postable_cb : Option F
  pub read_postable_arg : ℕ
  pub write_postable_cb : Option F
  pub write_postable_arg : ℕ
  pub registered : Option Mask

abbrev pub empty_mask : Mask
empty_mask = record {
  epollin = false;
  epollout = false;
  epollerr = false;
  epollhup = false;
  epollrdhup = false;
  epollet = false;
}

-- `EPOLLERR | EPOLLHUP | EPOLLRDHUP | mask`
abbrev pub with_errors : Mask → Mask
with_errors mask = record mask { epollerr = true; epollhup = true; epollrdhup = true }

-- A callback or an argument that is NULL leaves the old one.
abbrev pub or_old : {F : Type 0} → Option F → Option F → Option F
or_old none old = old
or_old (some f) old = some f

abbrev pub arg_or_old : ℕ → ℕ → ℕ
arg_or_old zero old = old
arg_or_old (suc a) old = suc a

module _ {F : Type 0} where
  unfoldable pub runloop_stream_init : ℕ → RunloopStream F
  runloop_stream_init fd = record {
    fd = some fd;
    event_mask = empty_mask;
    read_postable_cb = none;
    read_postable_arg = 0;
    write_postable_cb = none;
    write_postable_arg = 0;
    registered = none;
  }

  unfoldable pub runloop_stream_new : ℕ → RunloopStream F
  unfolding runloop_stream_init
  runloop_stream_new fd = runloop_stream_init fd

  unfoldable pub runloop_register : RunloopStream F → Mask → Outcome (RunloopStream F)
  runloop_register athis interest = do
    assert (not (is_some athis.registered))
    ok (record athis { registered = some interest })

  unfoldable pub runloop_reregister : RunloopStream F → Mask → Outcome (RunloopStream F)
  runloop_reregister athis interest = do
    assert (is_some athis.registered)
    ok (record athis { registered = some interest })

  unfoldable pub runloop_deregister : RunloopStream F → Outcome (RunloopStream F)
  runloop_deregister athis = do
    assert (is_some athis.registered)
    ok (record athis { registered = none })

  unfoldable pub runloop_stream_register : RunloopStream F → Outcome (RunloopStream F)
  unfolding runloop_register
  runloop_stream_register athis = runloop_register athis empty_mask

  unfoldable pub runloop_stream_deregister : RunloopStream F → Outcome (RunloopStream F)
  unfolding runloop_deregister
  runloop_stream_deregister athis = runloop_deregister athis

  unfoldable pub runloop_stream_arm_both :
      RunloopStream F
      → (read_postable_cb : Option F) → (read_arg : ℕ) → (write_postable_cb : Option F)
      → (write_arg : ℕ) → Outcome (RunloopStream F)
  unfolding runloop_reregister
  runloop_stream_arm_both athis read_postable_cb read_arg write_postable_cb write_arg =
      let interest : Mask = record (with_errors athis.event_mask) {
        epollet = true;
        epollout = true;
        epollin = true;
      } in
      runloop_reregister
        (record athis {
          event_mask = interest;
          read_postable_cb = or_old read_postable_cb athis.read_postable_cb;
          read_postable_arg = arg_or_old read_arg athis.read_postable_arg;
          write_postable_cb = or_old write_postable_cb athis.write_postable_cb;
          write_postable_arg = arg_or_old write_arg athis.write_postable_arg;
        })
        interest

  unfoldable pub runloop_stream_arm_read :
      RunloopStream F → (postable_cb : Option F) → (arg : ℕ) → Outcome (RunloopStream F)
  unfolding runloop_reregister
  runloop_stream_arm_read athis postable_cb arg =
      let interest : Mask = record (with_errors athis.event_mask) { epollin = true } in
      runloop_reregister
        (record athis {
          event_mask = interest;
          read_postable_cb = or_old postable_cb athis.read_postable_cb;
          read_postable_arg = arg_or_old arg athis.read_postable_arg;
        })
        interest

  unfoldable pub runloop_stream_arm_write :
      RunloopStream F → (postable_cb : Option F) → (arg : ℕ) → Outcome (RunloopStream F)
  unfolding runloop_reregister
  runloop_stream_arm_write athis postable_cb arg =
      let interest : Mask = record (with_errors athis.event_mask) { epollout = true } in
      runloop_reregister
        (record athis {
          event_mask = interest;
          write_postable_cb = or_old postable_cb athis.write_postable_cb;
          write_postable_arg = arg_or_old arg athis.write_postable_arg;
        })
        interest

  unfoldable pub runloop_stream_disarm_read : RunloopStream F → Outcome (RunloopStream F)
  unfolding runloop_reregister
  runloop_stream_disarm_read athis =
      let mask : Mask = record athis.event_mask { epollin = false } in
      runloop_reregister
        (record athis { event_mask = mask; read_postable_cb = none; read_postable_arg = 0 }) mask

  unfoldable pub runloop_stream_disarm_write : RunloopStream F → Outcome (RunloopStream F)
  unfolding runloop_reregister
  runloop_stream_disarm_write athis =
      let mask : Mask = record athis.event_mask { epollout = false } in
      runloop_reregister
        (record athis { event_mask = mask; write_postable_cb = none; write_postable_arg = 0 }) mask

  -- The call of a function that is armed; `S` is the state that it changes.
  unfoldable pub call_armed :
      {S : Type 0} → (F → ℕ → S → Outcome S) → Bool → Option F → ℕ → S → Outcome S
  call_armed call true (some f) arg s = call f arg s
  call_armed call true none arg s = ok s
  call_armed call false f arg s = ok s

  -- Neither test looks at the event that came.
  unfoldable pub handler :
      {S : Type 0} → (S → RunloopStream F) → (F → ℕ → S → Outcome S) → S → Outcome S
  unfolding call_armed
  handler rl_stream call s = do
    let r = rl_stream s
    s1 ← call_armed call r.event_mask.epollin r.read_postable_cb r.read_postable_arg s
    let r1 = rl_stream s1
    call_armed call r1.event_mask.epollout r1.write_postable_cb r1.write_postable_arg s1
