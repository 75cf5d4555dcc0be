-- ===== src/TcpStream/Reads.antt =====
-- What a read leaves: it has called back, or it waits for the socket.
use network_c_http.Base.{
  abort, ℕ, ◌≤◌, ◌<◌, ◌≡◌, ◌≢◌, refl, sym, ap, ◌∙◌, true, false, List, [], ◌∷◌, none, some, Outcome,
  ok, if◌then◌else◌, ◌==◌, length, ◌⊎◌, inl, inr, arith, Bool-cases,
}
use network_c_http.IoBuffer.{IoBuffer, iobuffer_space, iobuffer_space_len, iobuffer_commit}
use network_c_http.IoBuffer.Contents.{IsValid, added}
use network_c_http.TcpStream.{
  TcpStream, ReadState, Call, ReadResult, again, receive, invoke_read_cb, after_read, may_read,
  read_into, try_read, tcp_read, read_ready_callback, is_read_pending,
}

pub record Idle (s : TcpStream) : Type 0 where
  pub no_buffer : s.reader.input_buffer ≡ none
  pub no_cb : s.reader.read_cb ≡ 0

pub record Waiting (s : TcpStream) : Type 0 where
  pub buffer : IoBuffer
  pub pending : s.reader.input_buffer ≡ some buffer
  pub valid : IsValid buffer
  pub some_cb : s.reader.read_cb ≢ 0
  pub armed : s.read_armed ≡ true

-- `read` gives no more bytes than the buffer has space for.
abbrev pub FitsSpace : ReadResult → IoBuffer → Type 0
FitsSpace (ReadResult.got bytes errno) b = length bytes ≤ iobuffer_space_len b
FitsSpace (ReadResult.failed errno) b = Unit

-- The call has run: either its callback was called, or the stream waits.
pub record Reads (s : TcpStream) (r : Outcome (TcpStream × List Call)) : Type 0 where
  pub after : TcpStream
  pub calls : List Call
  pub runs : r ≡ ok (after, calls)
  pub same_writer : after.writer ≡ s.writer
  pub same_posted : after.posted ≡ s.posted
  pub same_socket : after.socket ≡ s.socket
  pub able : may_read after.reader.read_state ≡ true
  pub ends : (Idle after × (length calls ≡ 1)) ⊎ (Waiting after × (length calls ≡ 0))

receive-fits :
    (b : IoBuffer) (c : ℕ) (cs : List ℕ)
    → IsValid b
    → length (c ∷ cs) ≤ iobuffer_space_len b
    → receive b (c ∷ cs) ≡ ok (added b (c ∷ cs))
unfolding receive iobuffer_commit iobuffer_space iobuffer_space_len
receive-fits b c cs v fits = ground (arith, v.room, v.spare, v.fits)

-- A read in progress: the buffer that it fills is valid.
pub record InProgress (s : TcpStream) (b : IoBuffer) : Type 0 where
  pub pending : s.reader.input_buffer ≡ some b
  pub valid : IsValid b
  pub some_cb : s.reader.read_cb ≢ 0
  pub able : may_read s.reader.read_state ≡ true

invoke_read_cb-Reads :
    (s : TcpStream) (errno : ℕ)
    → s.reader.read_cb ≢ 0
    → may_read s.reader.read_state ≡ true
    → Reads s (invoke_read_cb s errno)
unfolding invoke_read_cb
invoke_read_cb-Reads s errno cb able =
    let r = s.reader in
    let some_cb : (r.read_cb == 0) ≡ false = ground (arith, cb) in
    record {
      after = record s { reader = record r { input_buffer = none; read_cb = 0; read_cb_arg = 0 } };
      calls = Call.read_done r.read_cb r.read_cb_arg errno r.input_buffer ∷ [];
      runs = rw some_cb refl;
      same_writer = refl;
      same_posted = refl;
      same_socket = refl;
      able = able;
      ends = inl (record { no_buffer = refl; no_cb = refl }, refl);
    }

after_read-Reads :
    (s : TcpStream) (b : IoBuffer) (r : ReadResult)
    → InProgress s b
    → FitsSpace r b
    → Reads s (after_read s b r)
unfolding after_read may_read
after_read-Reads s b (ReadResult.got [] errno) p fits =
    invoke_read_cb-Reads s errno p.some_cb p.able
after_read-Reads s b (ReadResult.got (c ∷ cs) errno) p fits =
    let s' = record s {
      reader = record s.reader {
        read_state = ReadState.ready;
        input_buffer = some (added b (c ∷ cs));
      };
    } in
    let i = invoke_read_cb-Reads s' 0 p.some_cb refl in
    record {
      after = i.after;
      calls = i.calls;
      runs = rw (receive-fits b c cs p.valid fits) i.runs;
      same_writer = i.same_writer;
      same_posted = i.same_posted;
      same_socket = i.same_socket;
      able = i.able;
      ends = i.ends;
    }
after_read-Reads s b (ReadResult.failed errno) p fits = elim (Bool-cases (errno == again)) [
  | inl e ↦ record {
    after = record s {
      reader = record s.reader { read_state = ReadState.eagain };
      read_armed = true;
    };
    calls = [];
    runs = rw e refl;
    same_writer = refl;
    same_posted = refl;
    same_socket = refl;
    able = refl;
    ends = inr (
      record {
        buffer = b;
        pending = p.pending;
        valid = p.valid;
        some_cb = p.some_cb;
        armed = refl;
      },
      refl,
    );
  }
  | inr e ↦ rw e (invoke_read_cb-Reads s errno p.some_cb p.able)
]

pub try_read-Reads :
    (s : TcpStream) (b : IoBuffer) (r : ReadResult)
    → InProgress s b
    → FitsSpace r b
    → Reads s (try_read s r)
unfolding try_read read_into
try_read-Reads s b r p fits =
    let a = after_read-Reads s b r p fits in
    record {
      after = a.after;
      calls = a.calls;
      runs =
          ap (read_into s r) p.pending
          ∙ ap (λ go. if go then after_read s b r else ok (s, [])) p.able
          ∙ a.runs;
      same_writer = a.same_writer;
      same_posted = a.same_posted;
      same_socket = a.same_socket;
      able = a.able;
      ends = a.ends;
    }

-- A read that is asked for when none is pending, of a valid buffer that has space.
pub tcp_read-Reads :
    (s : TcpStream) (b : IoBuffer) (cb arg : ℕ) (r : ReadResult)
    → Idle s
    → may_read s.reader.read_state ≡ true
    → IsValid b
    → 0 < iobuffer_space_len b
    → cb ≢ 0
    → FitsSpace r b
    → Reads s (tcp_read s b cb arg r)
unfolding tcp_read is_read_pending
tcp_read-Reads s b cb arg r i able v space some_cb fits =
    let s' = record s {
      reader = record s.reader { input_buffer = some b; read_cb = cb; read_cb_arg = arg };
    } in
    let t =
      try_read-Reads s' b r (record { pending = refl; valid = v; some_cb = some_cb; able = able })
        fits in
    let space_left : (iobuffer_space_len b == 0) ≡ false = ground (arith, space) in
    record {
      after = t.after;
      calls = t.calls;
      runs = rw (i.no_buffer, i.no_cb, space_left) t.runs;
      same_writer = t.same_writer;
      same_posted = t.same_posted;
      same_socket = t.same_socket;
      able = t.able;
      ends = t.ends;
    }

-- The event for which a waiting read is armed.
pub read_ready-Reads :
    (s : TcpStream) (r : ReadResult) (w : Waiting s)
    → may_read s.reader.read_state ≡ true
    → FitsSpace r w.buffer
    → Reads s (read_ready_callback s r)
unfolding read_ready_callback may_read
read_ready-Reads s r w able fits =
    let s' = record s { reader = record s.reader { read_state = ReadState.ready } } in
    let t =
      try_read-Reads s' w.buffer r
        (record { pending = w.pending; valid = w.valid; some_cb = w.some_cb; able = refl }) fits in
    record {
      after = t.after;
      calls = t.calls;
      runs = rw able t.runs;
      same_writer = t.same_writer;
      same_posted = t.same_posted;
      same_socket = t.same_socket;
      able = t.able;
      ends = t.ends;
    }

-- The event when no read is pending.
pub read_ready_refused :
    (s : TcpStream) (r : ReadResult)
    → may_read s.reader.read_state ≡ true
    → s.reader.input_buffer ≡ none
    → read_ready_callback s r ≡ abort
unfolding read_ready_callback try_read read_into may_read
read_ready_refused s r able e = rw (able, e) refl

-- The reader's part of a stream that shares it.
pub Idle-same : (s t : TcpStream) → t.reader ≡ s.reader → Idle s → Idle t
Idle-same s t e i = record {
  no_buffer = ap (λ x. x.input_buffer) e ∙ i.no_buffer;
  no_cb = ap (λ x. x.read_cb) e ∙ i.no_cb;
}

pub Waiting-same :
    (s t : TcpStream) → t.reader ≡ s.reader → t.read_armed ≡ s.read_armed → Waiting s → Waiting t
Waiting-same s t e f i = record {
  buffer = i.buffer;
  pending = ap (λ x. x.input_buffer) e ∙ i.pending;
  valid = i.valid;
  some_cb = λ c. i.some_cb (sym (ap (λ x. x.read_cb) e) ∙ c);
  armed = f ∙ i.armed;
}
