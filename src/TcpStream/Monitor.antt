-- ===== src/TcpStream/Monitor.antt =====
-- The states that a stream and its owner can reach. The owner asks for a read or a write only when
-- none is pending, with a callback and a valid buffer; the kernel gives and takes no more bytes than
-- it is asked for; the event loop runs the armed event and the posted function at any time.
use network_c_http.Base.{
  ℕ, zero, suc, ◌+◌, ◌<◌, ◌≡◌, ◌≢◌, refl, ap, true, false, List, [], ◌∷◌, ◌++◌, none, some, ok,
  if◌then◌else◌, ltb, ◌==◌, ◌&&◌, length, ◌⊎◌, All, take, drop,
}
use network_c_http.IoBuffer.{IoBuffer, iobuffer_space_len}
use network_c_http.IoBuffer.Contents.{IsValid, contents}
use network_c_http.TcpStream.{
  TcpStream, Call, ReadResult, WriteResult, tcp_stream_init, may_read, tcp_read,
  read_ready_callback, tcp_write, postable_try_write,
}
use network_c_http.TcpStream.Reads
use network_c_http.TcpStream.Reads.{FitsSpace, tcp_read-Reads, read_ready-Reads}
use network_c_http.TcpStream.Writes
use network_c_http.TcpStream.Writes.{FitsData, taken}

-- `asked` and `answered` count the reads and their callbacks, `asked_writes` and `answered_writes`
-- the writes and theirs. `goal` is what the socket had been given when the last write was asked for,
-- with the bytes of that write's buffer behind it; `complete` has, for each write that called back
-- on bytes taken, its goal and what the socket had been given when it called back.
pub record World : Type 0 where
  pub stream : TcpStream
  pub asked : ℕ
  pub answered : ℕ
  pub asked_writes : ℕ
  pub answered_writes : ℕ
  pub goal : List ℕ
  pub complete : List (List ℕ × List ℕ)

-- A block of zeros
abbrev pub zeros : TcpStream
zeros = record {
  reader = record {
    read_state = network_c_http.TcpStream.ReadState.initial;
    input_buffer = none;
    read_cb = 0;
    read_cb_arg = 0;
  };
  writer = record {
    write_state = network_c_http.TcpStream.WriteState.initial;
    write_cb = 0;
    write_cb_arg = 0;
    output_buffer = none;
  };
  read_armed = false;
  posted = 0;
  socket = [];
}

abbrev pub start_world : World
start_world = record {
  stream = tcp_stream_init zeros;
  asked = 0;
  answered = 0;
  asked_writes = 0;
  answered_writes = 0;
  goal = [];
  complete = [];
}

abbrev pub after_reading : World → ℕ → TcpStream → List Call → World
after_reading w asked s calls = record w {
  stream = s;
  asked = w.asked + asked;
  answered = w.answered + length calls;
}

-- A step of the writer, in which the kernel took `n` bytes.
abbrev pub after_writing : World → ℕ → (goal : List ℕ) → ℕ → TcpStream → List Call → World
after_writing w asked goal n s calls = record w {
  stream = s;
  asked_writes = w.asked_writes + asked;
  answered_writes = w.answered_writes + length calls;
  goal = goal;
  complete = if ltb 0 n && (length calls == 1) then (goal, s.socket) ∷ w.complete else w.complete;
}

pub data Reached : World → Type 0 where
  start : Reached start_world
  read :
      {w : World} {s : TcpStream} {calls : List Call} (b : IoBuffer) (cb arg : ℕ) (r : ReadResult)
      → Reached w
      → w.stream.reader.input_buffer ≡ none
      → IsValid b
      → 0 < iobuffer_space_len b
      → cb ≢ 0
      → FitsSpace r b
      → tcp_read w.stream b cb arg r ≡ ok (s, calls)
      → Reached (after_reading w 1 s calls)
  read_event :
      {w : World} {s : TcpStream} {calls : List Call} (b : IoBuffer) (r : ReadResult)
      → Reached w
      → w.stream.read_armed ≡ true
      → w.stream.reader.input_buffer ≡ some b
      → FitsSpace r b
      → read_ready_callback w.stream r ≡ ok (s, calls)
      → Reached (after_reading w 0 s calls)
  write :
      {w : World} {s : TcpStream} {calls : List Call} (b : IoBuffer) (cb arg : ℕ) (r : WriteResult)
      → Reached w
      → w.stream.writer.output_buffer ≡ none
      → IsValid b
      → cb ≢ 0
      → FitsData r b
      → tcp_write w.stream b cb arg r ≡ ok (s, calls)
      → Reached (after_writing w 1 (w.stream.socket ++ contents b) (taken r) s calls)
  write_posted :
      {w : World} {s : TcpStream} {calls : List Call} (b : IoBuffer) (r : WriteResult)
      → Reached w
      → 0 < w.stream.posted
      → w.stream.writer.output_buffer ≡ some b
      → FitsData r b
      → postable_try_write w.stream r ≡ ok (s, calls)
      → Reached (after_writing w 0 w.goal (taken r) s calls)

-- What holds in every state.
pub record Sound (w : World) : Type 0 where
  pub able : may_read w.stream.reader.read_state ≡ true
  pub reading :
      (Reads.Idle w.stream × (w.asked ≡ w.answered))
      ⊎ (Reads.Waiting w.stream × (w.asked ≡ w.answered + 1))
  pub writing :
      (Writes.Idle w.stream × (w.asked_writes ≡ w.answered_writes))
      ⊎ ((rest : List ℕ) × (Writes.Waiting w.stream rest
            × (w.goal ≡ w.stream.socket ++ rest)
            × (w.asked_writes ≡ w.answered_writes + 1)))
  pub whole : All (λ p. p.0 ≡ p.1) w.complete

pub take-drop : (n : ℕ) (xs : List ℕ) → take n xs ++ drop n xs ≡ xs
take-drop zero xs = refl
take-drop (suc n) [] = refl
take-drop (suc n) (x ∷ xs) = ap (λ l. x ∷ l) (take-drop n xs)
