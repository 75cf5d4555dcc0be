-- ===== src/AsioStream/Reading.antt =====
-- A read on an asynchronous stream over any number of events before its data comes.
use network_c_http.Base.{
  ℕ, zero, suc, ◌<◌, ◌≡◌, ◌≢◌, refl, ◌∙◌, true, false, List, [], ◌∷◌, ◌++◌, none, some, Outcome, ok,
  ◌>>=◌, if◌then◌else◌, ltb, lt→ltb, ◌==◌, arith, Bool, Option,
}
use network_c_http.RunloopStream.{
  Mask, RunloopStream, with_errors, arg_or_old, runloop_stream_arm_read, runloop_stream_disarm_read,
  runloop_reregister, call_armed, handler,
}
use network_c_http.AsioStream.{
  AsioStream, World, Call, IoResult, Postable, read_state_idle, read_state_active,
  read_state_eagain, eagain, moved, failed, epollin_postable, call_back, clear_read, read_eagain,
  after_read, read_from, try_read, asio_stream_read, epollin_postable_cb, postable, on_io_event,
}

-- The stream with no read under way and no write event armed, and `i` as the interest of epoll.
abbrev pub idle : AsioStream → Mask → AsioStream
idle s i = record s {
  read_state = read_state_idle;
  runloop_stream = record s.runloop_stream {
    event_mask = record s.runloop_stream.event_mask { epollout = false };
    registered = some i;
  };
}

-- The result is not that there is nothing to read yet.
abbrev pub Settles : IoResult → Type 0
Settles (moved n) = Unit
Settles (failed e) = (e == eagain) ≡ false

-- The call that a result leads to.
abbrev pub call_for : (cb arg : ℕ) → IoResult → Call
call_for cb arg (moved n) = record { cb = cb; arg = arg; count = n; errno = 0 }
call_for cb arg (failed e) = record { cb = cb; arg = arg; count = 0; errno = e }

-- The state after a result, when it was `old` before.
abbrev pub state_after : ℕ → IoResult → ℕ
state_after old (moved n) = if ltb 0 n then read_state_idle else old
state_after old (failed e) = old

-- `k` times that there is nothing to read yet, and then `r`.
abbrev pub late : ℕ → IoResult → List IoResult → List IoResult
late zero r rs = r ∷ rs
late (suc k) r rs = failed eagain ∷ late k r rs

-- Whether `epoll_ctl` was last told to watch for reading.
abbrev pub watched : Option Mask → Bool
watched none = false
watched (some i) = i.epollin

-- Whether a read event is armed after `k` events, when it was or not before the read.
abbrev pub armed_after : ℕ → Bool → Bool
armed_after zero b = b
armed_after (suc k) b = false

-- What is left when the read is done: one call of the callback, the results after that of the read,
-- the state, and whether a read event is armed, in the stream's mask and in that of epoll.
pub record Done (before : World) (cb arg : ℕ) (r : IoResult) (rs : List IoResult) (old : ℕ)
    (in_mask in_epoll : Bool) (run : Outcome World) : Type 0 where
  pub after : World
  pub runs : run ≡ ok after
  pub calls : after.calls ≡ before.calls ++ (call_for cb arg r ∷ [])
  pub reads : after.reads ≡ rs
  pub state : after.stream.read_state ≡ state_after old r
  pub cleared : after.stream.read_callback ≡ 0
  pub armed : after.stream.runloop_stream.event_mask.epollin ≡ in_mask
  pub interest : watched after.stream.runloop_stream.registered ≡ in_epoll

module _ (callback : Call → World → Outcome World) where
  -- Events, one after the other.
  unfoldable pub io_events : ℕ → World → Outcome World
  io_events zero w = ok w
  io_events (suc k) w = do v ← on_io_event callback w; io_events k v

module _ (callback : Call → World → Outcome World)
    (quiet : (c : Call) (w : World) → callback c w ≡ ok w) where
  -- The world after a result that settles the read.
  abbrev settled : World → IoResult → World
  settled w r =
      let s = w.stream in
      record w {
        stream = record s { read_state = state_after s.read_state r; read_callback = 0 };
        calls = w.calls ++ (call_for s.read_callback s.read_callback_arg r ∷ []);
      }

  after_read_lem :
      (s : AsioStream) (w : World) (r : IoResult)
      → (s.read_callback == 0) ≡ false
      → Settles r
      → after_read callback r (record w { stream = s }) ≡ ok (settled (record w { stream = s }) r)
  unfolding after_read call_back clear_read
  after_read_lem s w (moved zero) set settles = rw (set, quiet) refl
  after_read_lem s w (moved (suc n)) set settles =
      let some_bytes : ltb 0 (suc n) ≡ true = lt→ltb 0 (suc n) (omega arith) in
      rw (some_bytes, set, quiet) refl
  after_read_lem s w (failed e) set settles = rw (settles, set, quiet) refl

  -- A stream that waits for an event, with `i` as the interest of epoll.
  abbrev waiting : AsioStream → RunloopStream Postable → Mask → (cb arg : ℕ) → AsioStream
  waiting s q i cb arg = record s {
    read_state = read_state_eagain;
    read_callback = cb;
    read_callback_arg = arg;
    runloop_stream = record q {
      event_mask = record (with_errors q.event_mask) { epollin = true; epollout = false };
      read_postable_cb = some epollin_postable;
      registered = some i;
    };
  }

  -- The interest after a read was disarmed.
  abbrev disarmed : RunloopStream Postable → RunloopStream Postable
  disarmed q =
      let mask : Mask = record (with_errors q.event_mask) { epollin = false; epollout = false } in
      record q {
        event_mask = mask;
        read_postable_cb = none;
        read_postable_arg = 0;
        registered = some mask;
      }

  -- An event, when the stream waits.
  event_lem :
      (s : AsioStream) (q : RunloopStream Postable) (i : Mask) (cb arg : ℕ) (w : World)
      → (cb == 0) ≡ false
      → on_io_event callback (record w { stream = waiting s q i cb arg }) ≡ (
          try_read callback
            (record w { stream = record (waiting s q i cb arg) { runloop_stream = disarmed q } })
          >>= λ v.
              call_armed
                (postable callback)
                v.stream.runloop_stream.event_mask.epollout
                v.stream.runloop_stream.write_postable_cb
                v.stream.runloop_stream.write_postable_arg
                v)
  unfolding on_io_event handler call_armed postable epollin_postable_cb runloop_stream_disarm_read
      runloop_reregister
  event_lem s q i cb arg w set = rw set refl

  -- The watcher after a read was armed again.
  abbrev rearmed : AsioStream → RunloopStream Postable → RunloopStream Postable
  rearmed s q = record (disarmed q) { read_postable_arg = arg_or_old s.address 0 }

  abbrev armed_mask : RunloopStream Postable → Mask
  armed_mask q = record (with_errors q.event_mask) { epollin = true; epollout = false }

  event_eagain :
      (s : AsioStream) (q : RunloopStream Postable) (i : Mask) (cb arg : ℕ) (w : World)
      (rs : List IoResult)
      → (cb == 0) ≡ false
      → on_io_event callback
          (record w { stream = waiting s q i cb arg; reads = failed eagain ∷ rs })
        ≡ ok (record w { stream = waiting s (rearmed s q) (armed_mask q) cb arg; reads = rs })
  unfolding try_read read_from after_read read_eagain runloop_stream_arm_read runloop_reregister
      call_armed
  event_eagain s q i cb arg w rs set =
      event_lem s q i cb arg (record w { reads = failed eagain ∷ rs }) set

  event_last :
      (s : AsioStream) (q : RunloopStream Postable) (i : Mask) (cb arg : ℕ) (w : World)
      (r : IoResult) (rs : List IoResult)
      → (cb == 0) ≡ false
      → Settles r
      → on_io_event callback (record w { stream = waiting s q i cb arg; reads = r ∷ rs })
        ≡ ok (
            settled
              (record w {
                stream = record (waiting s q i cb arg) { runloop_stream = disarmed q };
                reads = rs;
              })
              r)
  unfolding try_read read_from call_armed
  event_last s q i cb arg w r rs set settles =
      event_lem s q i cb arg (record w { reads = r ∷ rs }) set
      ∙ rw
          (after_read_lem (record (waiting s q i cb arg) { runloop_stream = disarmed q })
            (record w { reads = rs }) r set settles)
          refl

  waits_lem :
      (k : ℕ) (s : AsioStream) (q : RunloopStream Postable) (i : Mask) (cb arg : ℕ) (w : World)
      (r : IoResult) (rs : List IoResult)
      → (cb == 0) ≡ false
      → Settles r
      → Done w cb arg r rs read_state_eagain false false (
          io_events callback
            (suc k)
            (record w { stream = waiting s q i cb arg; reads = late k r rs }))
  unfolding io_events
  waits_lem zero s q i cb arg w r rs set settles = record {
    after =
        settled
          (record w {
            stream = record (waiting s q i cb arg) { runloop_stream = disarmed q };
            reads = rs;
          })
          r;
    runs = rw (event_last s q i cb arg w r rs set settles) refl;
    calls = refl;
    reads = refl;
    state = refl;
    cleared = refl;
    armed = refl;
    interest = refl;
  }
  waits_lem (suc k) s q i cb arg w r rs set settles =
      let rest = waits_lem k s (rearmed s q) (armed_mask q) cb arg w r rs set settles in
      record {
        after = rest.after;
        runs = rw (event_eagain s q i cb arg w (late k r rs) set) rest.runs;
        calls = rest.calls;
        reads = rest.reads;
        state = rest.state;
        cleared = rest.cleared;
        armed = rest.armed;
        interest = rest.interest;
      }

  -- The state that a result finds: the read was just started, or an event came.
  abbrev pub state_at : ℕ → ℕ
  state_at zero = read_state_active
  state_at (suc k) = read_state_eagain

  -- For an owner whose callback does not use the stream, a read that is started on an idle stream
  -- with no write event armed, and whose data comes after any number of events with none, makes
  -- exactly one call of its callback, with the count or the error of the result that settles it,
  -- when that result comes. The callback is then cleared and the stream idle again if bytes were
  -- read; and if there was an event, no read event is armed any more, neither in the stream's mask
  -- nor in what epoll was last told to watch, and if there was none, both are as they were.
  pub asio_stream_read-Done :
      (k : ℕ) (s : AsioStream) (i : Mask) (w : World) (buffer max_length cb arg : ℕ) (r : IoResult)
      (rs : List IoResult)
      → buffer ≢ 0
      → 0 < max_length
      → cb ≢ 0
      → Settles r
      → Done w cb arg r rs
          (state_at k)
          (armed_after k s.runloop_stream.event_mask.epollin)
          (armed_after k i.epollin)
          (asio_stream_read callback
              (record w { stream = idle s i; reads = late k r rs })
              buffer
              max_length
              cb
              arg
            >>= io_events callback k)
  unfolding asio_stream_read try_read read_from after_read read_eagain runloop_stream_arm_read
      runloop_reregister io_events
  asio_stream_read-Done k s i w buffer max_length cb arg r rs b l c settles =
      let buffer_set : (buffer == 0) ≡ false = ground (arith, b) in
      let some_length : ltb 0 max_length ≡ true = lt→ltb 0 max_length l in
      let set : (cb == 0) ≡ false = ground (arith, c) in
      rw (buffer_set, some_length) (at_round k set)
    where
      asked : AsioStream
      asked = record (idle s i) {
        read_buffer = buffer;
        read_buffer_size = max_length;
        read_callback = cb;
        read_callback_arg = arg;
        read_state = read_state_active;
      }

      at_round :
          (n : ℕ)
          → (cb == 0) ≡ false
          → Done w cb arg r rs
              (state_at n)
              (armed_after n s.runloop_stream.event_mask.epollin)
              (armed_after n i.epollin)
              (try_read callback (record w { stream = asked; reads = late n r rs })
                >>= io_events callback n)
      at_round zero set = record {
        after = settled (record w { stream = asked; reads = rs }) r;
        runs = rw (after_read_lem asked (record w { reads = rs }) r set settles) refl;
        calls = refl;
        reads = refl;
        state = refl;
        cleared = refl;
        armed = refl;
        interest = refl;
      }
      at_round (suc n) set =
          let a = arg_or_old s.address s.runloop_stream.read_postable_arg in
          waits_lem n (record s { read_buffer = buffer; read_buffer_size = max_length })
            (record s.runloop_stream { read_postable_arg = a }) (armed_mask s.runloop_stream) cb arg
            w r rs set settles
