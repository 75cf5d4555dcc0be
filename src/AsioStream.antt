-- ===== src/AsioStream.antt =====
-- The asynchronous stream over epoll: src/runloop/epoll_runloop/asio_stream.c, as it is compiled,
-- with STREAM_LEVEL_TRIGGERED.
-- What `read` and `write` return is taken from two lists, and beyond them they fail with EAGAIN. What
-- an owner's callback does is an argument, so that it may call the stream again before the function
-- that called it goes on. A callback, its argument and a buffer are addresses, 0 for NULL; `address`
-- is that of the stream.
pub mod Reading
mod Tests
use network_c_http.Base.{
  ℕ, zero, suc, ◌+◌, Bool, true, false, List, [], ◌∷◌, ◌++◌, Option, none, some, Outcome, ok, abort,
  fault, ◌>>=◌, ◌>>◌, assert, if◌then◌else◌, ltb, ◌==◌, ◌||◌, not, is_some,
}
use network_c_http.RunloopStream.{
  Mask, RunloopStream, runloop_stream_new, runloop_stream_register, runloop_stream_arm_read,
  runloop_stream_arm_write, runloop_stream_disarm_read, handler,
}

abbrev pub read_state_idle : ℕ
read_state_idle = 11

abbrev pub read_state_active : ℕ
read_state_active = 12

abbrev pub read_state_eagain : ℕ
read_state_eagain = 13

abbrev pub write_state_idle : ℕ
write_state_idle = 21

abbrev pub write_state_active : ℕ
write_state_active = 22

-- the same number as `write_state_active`
abbrev pub write_state_eagain : ℕ
write_state_eagain = 22

abbrev pub eagain : ℕ
eagain = 11

pub data Postable : Type 0 where
  epollin_postable : Postable
  epollout_postable : Postable

-- `fd` is `none` for -1.
pub record AsioStream : Type 0 where
  pub address : ℕ
  pub fd : Option ℕ
  pub runloop_stream : RunloopStream Postable
  pub read_state : ℕ
  pub read_buffer : ℕ
  pub read_buffer_size : ℕ
  pub read_callback : ℕ
  pub read_callback_arg : ℕ
  pub write_state : ℕ
  pub write_buffer : ℕ
  pub write_buffer_size : ℕ
  pub write_callback : ℕ
  pub write_callback_arg : ℕ

-- What `read` or `write` returns: a number of bytes, 0 included, or -1 with an error number.
pub data IoResult : Type 0 where
  moved : ℕ → IoResult
  failed : ℕ → IoResult

-- A call of a callback, with its argument, the number of bytes and the error number.
pub record Call : Type 0 where
  pub cb : ℕ
  pub arg : ℕ
  pub count : ℕ
  pub errno : ℕ

-- The stream, the results to come, and the calls of callbacks so far.
pub record World : Type 0 where
  pub stream : AsioStream
  pub reads : List IoResult
  pub writes : List IoResult
  pub calls : List Call

-- The fields that are not set stay as the block has them, `write_callback` among them.
unfoldable pub asio_stream_init : AsioStream → ℕ → Outcome AsioStream
asio_stream_init this socket = do
  r ← runloop_stream_register (runloop_stream_new socket)
  ok (record this {
    fd = some socket;
    runloop_stream = r;
    read_state = read_state_idle;
    read_callback = 0;
    read_callback_arg = 0;
    write_state = write_state_idle;
    read_buffer_size = 1000000;
  })

unfoldable pub positive : Option ℕ → Bool
positive none = false
positive (some fd) = ltb 0 fd

-- The entry of the descriptor table goes; epoll forgets a descriptor that is closed.
unfoldable pub asio_stream_close : AsioStream → Outcome AsioStream
unfolding positive
asio_stream_close cref = do
  assert (positive cref.fd)
  assert (is_some cref.runloop_stream.registered)
  ok (record cref {
    fd = none;
    runloop_stream = record cref.runloop_stream { registered = none; fd = none };
  })

abbrev pub same_fd : Option ℕ → Option ℕ → Bool
same_fd none none = true
same_fd none (some b) = false
same_fd (some a) none = false
same_fd (some a) (some b) = a == b

-- The watcher is freed, and the stream is not used again.
unfoldable pub asio_stream_destroy : AsioStream → Outcome AsioStream
unfolding asio_stream_close positive
asio_stream_destroy this = do
  assert (same_fd this.runloop_stream.fd this.fd)
  if positive this.fd then asio_stream_close this else ok this

unfoldable pub clear_read : World → World
clear_read w = record w { stream = record w.stream { read_callback = 0 } }

unfoldable pub clear_write : World → World
clear_write w = record w { stream = record w.stream { write_callback = 0 } }

unfoldable pub read_eagain : World → Outcome World
read_eagain w = do
  let cref = w.stream
  r ← runloop_stream_arm_read cref.runloop_stream (some epollin_postable) cref.address
  ok (record w { stream = record cref { read_state = read_state_eagain; runloop_stream = r } })

-- It is the read state that is set.
unfoldable pub write_eagain : World → Outcome World
write_eagain w = do
  let cref = w.stream
  r ← runloop_stream_arm_write cref.runloop_stream (some epollout_postable) cref.address
  ok (record w { stream = record cref { read_state = read_state_eagain; runloop_stream = r } })

module _ (callback : Call → World → Outcome World) where
  -- The call of a callback that is not NULL.
  unfoldable pub call_back : (cb arg count errno : ℕ) → World → Outcome World
  call_back cb arg count errno w =
      if cb == 0
      then fault
      else let c : Call = record { cb = cb; arg = arg; count = count; errno = errno } in
        callback c (record w { calls = w.calls ++ (c ∷ []) })

  -- `try_read` when `read` has returned; the callback is set to NULL after it was called.
  unfoldable pub after_read : IoResult → World → Outcome World
  unfolding call_back clear_read read_eagain
  after_read (moved n) w =
      let cref = w.stream in
      if ltb 0 n
      then (do
        let w1 : World = record w { stream = record cref { read_state = read_state_idle } }
        w2 ← call_back cref.read_callback cref.read_callback_arg n 0 w1
        ok (clear_read w2))
      else do w1 ← call_back cref.read_callback cref.read_callback_arg 0 0 w; ok (clear_read w1)
  after_read (failed e) w =
      let cref = w.stream in
      if e == eagain
      then read_eagain w
      else do w1 ← call_back cref.read_callback cref.read_callback_arg 0 e w; ok (clear_read w1)

  unfoldable pub read_from : List IoResult → World → Outcome World
  unfolding after_read
  read_from [] w = after_read (failed eagain) w
  read_from (r ∷ rs) w = after_read r (record w { reads = rs })

  unfoldable pub try_read : World → Outcome World
  unfolding read_from
  try_read w = read_from w.reads w

  -- At the end of the file and after an error the callback gets the reader's argument.
  unfoldable pub after_write : IoResult → World → Outcome World
  unfolding call_back clear_write write_eagain
  after_write (moved n) w =
      let cref = w.stream in
      if ltb 0 n
      then (do
        let w1 : World = record w { stream = record cref { write_state = write_state_idle } }
        w2 ← call_back cref.write_callback cref.write_callback_arg n 0 w1
        ok (clear_write w2))
      else do w1 ← call_back cref.write_callback cref.read_callback_arg 0 0 w; ok (clear_write w1)
  after_write (failed e) w =
      let cref = w.stream in
      if e == eagain
      then write_eagain w
      else do w1 ← call_back cref.write_callback cref.read_callback_arg 0 e w; ok (clear_write w1)

  unfoldable pub write_from : List IoResult → World → Outcome World
  unfolding after_write
  write_from [] w = after_write (failed eagain) w
  write_from (r ∷ rs) w = after_write r (record w { writes = rs })

  unfoldable pub try_write : World → Outcome World
  unfolding write_from
  try_write w = write_from w.writes w

  unfoldable pub asio_stream_read : World → (buffer max_length cb arg : ℕ) → Outcome World
  unfolding try_read
  asio_stream_read w buffer max_length cb arg = do
    assert (w.stream.read_state == read_state_idle)
    assert (not (buffer == 0))
    assert (ltb 0 max_length)
    let s : AsioStream = record w.stream {
      read_buffer = buffer;
      read_buffer_size = max_length;
      read_callback = cb;
      read_callback_arg = arg;
      read_state = read_state_active;
    }
    try_read (record w { stream = s })

  unfoldable pub asio_stream_write : World → (buffer length cb arg : ℕ) → Outcome World
  unfolding try_write
  asio_stream_write w buffer length cb arg = do
    assert (w.stream.write_state == write_state_idle)
    assert (not (buffer == 0))
    assert (ltb 0 length)
    let s : AsioStream = record w.stream {
      write_buffer = buffer;
      write_buffer_size = length;
      write_callback = cb;
      write_callback_arg = arg;
      write_state = write_state_active;
    }
    try_write (record w { stream = s })

  unfoldable pub epollin_postable_cb : World → Outcome World
  unfolding try_read
  epollin_postable_cb w =
      let cref = w.stream in
      if cref.read_state == read_state_eagain
      then (if cref.read_callback == 0
          then ok (record w { stream = record cref { read_state = read_state_idle } })
          else do
            r ← runloop_stream_disarm_read cref.runloop_stream
            try_read (record w { stream = record cref { runloop_stream = r } }))
      else ok w

  -- It is `try_read` that is called.
  unfoldable pub epollout_postable_cb : World → Outcome World
  unfolding try_read
  epollout_postable_cb w =
      let cref = w.stream in
      if cref.write_state == write_state_eagain
      then (if cref.write_callback == 0
          then ok (record w { stream = record cref { write_state = write_state_idle } })
          else try_read w)
      else ok w

  -- The function that is armed; its argument is the stream.
  unfoldable pub postable : Postable → ℕ → World → Outcome World
  unfolding epollin_postable_cb epollout_postable_cb
  postable epollin_postable arg w = epollin_postable_cb w
  postable epollout_postable arg w = epollout_postable_cb w

  -- An event for the descriptor.
  unfoldable pub on_io_event : World → Outcome World
  unfolding postable
  on_io_event w = handler (λ v. v.stream.runloop_stream) postable w
