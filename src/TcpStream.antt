-- ===== src/TcpStream.antt =====
-- Reads and writes on a socket: apps/tcp/tcp_reader.c and tcp_writer.c, with the state of
-- tcp_stream_internal.h and tcp_stream_init of tcp_stream.c.
-- What a call of `read` or `write` returns is an argument. A callback is called last, after the
-- stream is as the function leaves it, so the calls are a result; what a callback then calls is the
-- next step. A callback and its argument are addresses, 0 for NULL. The event loop's part is
-- `read_armed`, whether `runloop_stream_arm_read` waits for the socket, which stays so since none of
-- these functions disarms it and the event is not a one-shot one, and `posted`, how many calls of
-- `postable_try_write` are in the ready list; a write event is armed by none of these functions.
-- `socket` is all that `write` has taken of the memory that it was given.
-- `stream_fd` is that of the runloop's stream from `tcp_stream_init` on.
pub mod Reads
pub mod Writes
pub mod WriteCalls
pub mod Monitor
pub mod Soundness
pub mod Progress
mod Tests
use network_c_http.Base.{
  ℕ, zero, suc, ◌+◌, ◌-◌, Bool, true, false, not, List, [], ◌∷◌, Option, none, some, Outcome, ok,
  abort, fault, ◌>>=◌, ◌>>◌, assert, if◌then◌else◌, ltb, ◌==◌, ◌&&◌, ◌||◌, length, is_some, ◌++◌,
  take,
}
use network_c_http.Base.Cells.{copy_in, copy_out}
use network_c_http.IoBuffer.{
  IoBuffer, iobuffer_space, iobuffer_space_len, iobuffer_commit, iobuffer_data, iobuffer_data_len,
  iobuffer_consume,
}

-- `RD_STATE_INITIAL` and so on
pub data ReadState : Type 0 where
  initial : ReadState
  eagain : ReadState
  stopped : ReadState
  ready : ReadState
  error : ReadState

pub data WriteState : Type 0 where
  eagain : WriteState
  ready : WriteState
  error : WriteState
  stopped : WriteState
  initial : WriteState

pub record TcpReader : Type 0 where
  pub read_state : ReadState
  pub input_buffer : Option IoBuffer
  pub read_cb : ℕ
  pub read_cb_arg : ℕ

pub record TcpWriter : Type 0 where
  pub write_state : WriteState
  pub write_cb : ℕ
  pub write_cb_arg : ℕ
  pub output_buffer : Option IoBuffer

pub record TcpStream : Type 0 where
  pub reader : TcpReader
  pub writer : TcpWriter
  pub read_armed : Bool
  pub posted : ℕ
  pub socket : List ℕ

-- A callback with its argument and error number, and the buffer that goes back to its owner.
pub data Call : Type 0 where
  read_done : (cb arg errno : ℕ) → Option IoBuffer → Call
  write_done : (cb arg errno : ℕ) → Option IoBuffer → Call

-- What `read` returns: the bytes, none at the end of the file, or -1; and `errno` after it.
pub data ReadResult : Type 0 where
  got : List ℕ → (errno : ℕ) → ReadResult
  failed : (errno : ℕ) → ReadResult

-- What `write` returns: how many bytes it took, or -1; and `errno` after it.
pub data WriteResult : Type 0 where
  took : ℕ → (errno : ℕ) → WriteResult
  failed : (errno : ℕ) → WriteResult

-- `EAGAIN`, of the BSDs
abbrev pub again : ℕ
again = 35

-- The function sets the two states and leaves the other fields as the block has them.
unfoldable pub tcp_stream_init : TcpStream → TcpStream
tcp_stream_init block = record block {
  reader = record block.reader { read_state = ReadState.initial };
  writer = record block.writer { write_state = WriteState.initial };
}

unfoldable pub is_read_pending : TcpStream → Outcome Bool
is_read_pending s = do
  let buffer = is_some s.reader.input_buffer
  let cb = not (s.reader.read_cb == 0)
  assert ((buffer && cb) || (not buffer && not cb))
  ok (buffer && cb)

unfoldable pub is_write_pending : TcpStream → Outcome Bool
is_write_pending s = do
  let buffer = is_some s.writer.output_buffer
  let cb = not (s.writer.write_cb == 0)
  assert ((buffer && cb) || (not buffer && not cb))
  ok buffer

unfoldable pub invoke_read_cb : TcpStream → ℕ → Outcome (TcpStream × List Call)
invoke_read_cb s errno = do
  let r = s.reader
  assert (not (r.read_cb == 0))
  ok (
    record s { reader = record r { input_buffer = none; read_cb = 0; read_cb_arg = 0 } },
    Call.read_done r.read_cb r.read_cb_arg errno r.input_buffer ∷ [],
  )

unfoldable pub invoke_write_callback : TcpStream → ℕ → TcpStream × List Call
invoke_write_callback s errno =
    let w = s.writer in
    (
      record s { writer = record w { output_buffer = none; write_cb = 0; write_cb_arg = 0 } },
      Call.write_done w.write_cb w.write_cb_arg errno w.output_buffer ∷ [],
    )

-- The switch of `try_read`: whether to go on.
unfoldable pub may_read : ReadState → Bool
may_read ReadState.error = false
may_read ReadState.stopped = false
may_read _ = true

-- The bytes that `read` puts into the buffer's space, committed.
unfoldable pub receive : IoBuffer → List ℕ → Outcome IoBuffer
receive iob bytes = do
  mem ← copy_in iob.mem (iobuffer_space iob) bytes
  iobuffer_commit (record iob { mem = mem }) (length bytes)

-- What `try_read` does with what `read` returns.
unfoldable pub after_read : TcpStream → IoBuffer → ReadResult → Outcome (TcpStream × List Call)
unfolding invoke_read_cb receive
after_read s iob (ReadResult.got [] errno) = invoke_read_cb s errno
after_read s iob (ReadResult.got (c ∷ cs) errno) = do
  b ← receive iob (c ∷ cs)
  invoke_read_cb
      (record s {
        reader = record s.reader { read_state = ReadState.ready; input_buffer = some b };
      })
      0
after_read s iob (ReadResult.failed errno) =
    if errno == again
    then ok (
      record s { reader = record s.reader { read_state = ReadState.eagain }; read_armed = true },
      [],
    )
    else invoke_read_cb s errno

-- `try_read` with the input buffer that it finds.
unfoldable pub read_into :
    TcpStream → ReadResult → Option IoBuffer → Outcome (TcpStream × List Call)
unfolding after_read may_read
read_into s r none = abort
read_into s r (some iob) = if may_read s.reader.read_state then after_read s iob r else ok (s, [])

unfoldable pub try_read : TcpStream → ReadResult → Outcome (TcpStream × List Call)
unfolding read_into
try_read s r = read_into s r s.reader.input_buffer

unfoldable pub tcp_read :
    TcpStream → IoBuffer → (cb arg : ℕ) → ReadResult → Outcome (TcpStream × List Call)
unfolding is_read_pending try_read
tcp_read s input_buffer cb arg r = do
  pending ← is_read_pending s
  assert (not pending)
  assert (not (iobuffer_space_len input_buffer == 0))
  try_read
      (record s {
        reader = record s.reader {
          input_buffer = some input_buffer;
          read_cb = cb;
          read_cb_arg = arg;
        };
      })
      r

unfoldable pub read_ready_callback : TcpStream → ReadResult → Outcome (TcpStream × List Call)
unfolding try_read may_read
read_ready_callback s r =
    if may_read s.reader.read_state
    then try_read (record s { reader = record s.reader { read_state = ReadState.ready } }) r
    else ok (s, [])

-- What `try_write` does when `write` took bytes and `b` is what the buffer is then.
unfoldable pub after_taken : TcpStream → IoBuffer → TcpStream × List Call
unfolding invoke_write_callback
after_taken s b =
    let t = record s {
      writer = record s.writer { write_state = WriteState.ready; output_buffer = some b };
    } in
    if iobuffer_data_len b == 0
    then invoke_write_callback t 0
    else (record t { posted = t.posted + 1 }, [])

-- What `try_write` does with what `write` returns, to which it has given `bytes`.
unfoldable pub after_write :
    TcpStream → (bytes : List ℕ) → IoBuffer → WriteResult → Outcome (TcpStream × List Call)
unfolding invoke_write_callback after_taken
after_write s bytes iob (WriteResult.took zero errno) = ok (invoke_write_callback s errno)
after_write s bytes iob (WriteResult.took (suc n) errno) = do
  b ← iobuffer_consume iob (suc n)
  ok (after_taken (record s { socket = s.socket ++ take (suc n) bytes }) b)
after_write s bytes iob (WriteResult.failed errno) =
    if errno == again
    then ok (record s { writer = record s.writer { write_state = WriteState.eagain } }, [])
    else ok (
        invoke_write_callback
          (record s { writer = record s.writer { write_state = WriteState.error } }) errno)

-- `try_write` with the output buffer that it finds.
unfoldable pub write_from :
    TcpStream → WriteResult → Option IoBuffer → Outcome (TcpStream × List Call)
unfolding after_write
write_from s r none = fault
write_from s r (some iob) = do bytes ← iobuffer_data iob; after_write s bytes iob r

unfoldable pub try_write : TcpStream → WriteResult → Outcome (TcpStream × List Call)
unfolding write_from
try_write s r = write_from s r s.writer.output_buffer

unfoldable pub tcp_write :
    TcpStream → IoBuffer → (cb arg : ℕ) → WriteResult → Outcome (TcpStream × List Call)
unfolding is_write_pending try_write
tcp_write s outbuf cb arg r = do
  pending ← is_write_pending s
  assert (not pending)
  assert (not (cb == 0))
  try_write
      (record s {
        writer = record s.writer { output_buffer = some outbuf; write_cb = cb; write_cb_arg = arg };
      })
      r

-- A posted call is taken out of the ready list and run.
unfoldable pub postable_try_write : TcpStream → WriteResult → Outcome (TcpStream × List Call)
unfolding try_write
postable_try_write s r = try_write (record s { posted = s.posted - 1 }) r

unfoldable pub wrtr_cb : TcpStream → WriteResult → Outcome (TcpStream × List Call)
unfolding try_write
wrtr_cb s r = write_event s.writer.write_state
  where
    write_event : WriteState → Outcome (TcpStream × List Call)
    write_event WriteState.eagain =
        try_write (record s { writer = record s.writer { write_state = WriteState.ready } }) r
    write_event _ = ok (s, [])
