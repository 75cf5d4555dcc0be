-- ===== src/TcpStream/Writes.antt =====
-- What a write leaves: it has called back, or its rest waits for its turn.
use network_c_http.Base.{
  ℕ, zero, suc, ◌+◌, ◌≤◌, ◌≡◌, ◌≢◌, refl, sym, ap, ◌∙◌, List, [], ◌∷◌, Option, none, some, Outcome,
  ok, ◌>>=◌, ◌==◌, ◌⊎◌, inl, inr, arith, Bool-cases, drop, ◌++◌, take, append-nil,
}
use network_c_http.Base.Cells.{segment}
use network_c_http.IoBuffer.{IoBuffer, iobuffer_data_len}
use network_c_http.IoBuffer.Contents.{IsValid, contents}
use network_c_http.IoBuffer.Updates.{
  data-contents, consumed, consume-fits, consumed-IsValid, contents-consumed,
}
use network_c_http.TcpStream.{
  TcpStream, WriteState, Call, WriteResult, again, invoke_write_callback, after_write, after_taken,
  write_from, try_write,
}

pub record Idle (s : TcpStream) : Type 0 where
  pub no_buffer : s.writer.output_buffer ≡ none
  pub no_cb : s.writer.write_cb ≡ 0
  pub none_posted : s.posted ≡ 0

-- The bytes `rest` are still to be written, by the function that is posted or, after EAGAIN, by none.
pub record Waiting (s : TcpStream) (rest : List ℕ) : Type 0 where
  pub buffer : IoBuffer
  pub pending : s.writer.output_buffer ≡ some buffer
  pub valid : IsValid buffer
  pub holds : contents buffer ≡ rest
  pub some_cb : s.writer.write_cb ≢ 0
  pub turn : (s.posted ≡ 1) ⊎ ((s.posted ≡ 0) × (s.writer.write_state ≡ WriteState.eagain))

-- The stream with a buffer and a callback to be written.
abbrev pub asked_write : TcpStream → IoBuffer → (cb arg : ℕ) → TcpStream
asked_write s b cb arg = record s {
  writer = record s.writer { output_buffer = some b; write_cb = cb; write_cb_arg = arg };
}

-- `write` takes no more bytes than the buffer has.
abbrev pub FitsData : WriteResult → IoBuffer → Type 0
FitsData (WriteResult.took n errno) b = n ≤ iobuffer_data_len b
FitsData (WriteResult.failed errno) b = Unit

abbrev pub taken : WriteResult → ℕ
taken (WriteResult.took n errno) = n
taken (WriteResult.failed errno) = 0

-- A write in progress, of a valid buffer that holds `bytes`.
pub record InProgress (s : TcpStream) (b : IoBuffer) (bytes : List ℕ) : Type 0 where
  pub pending : s.writer.output_buffer ≡ some b
  pub valid : IsValid b
  pub holds : contents b ≡ bytes
  pub some_cb : s.writer.write_cb ≢ 0
  pub none_posted : s.posted ≡ 0

-- The write has called back: `write` took nothing, or it took all and the callback got no error.
pub record Ended (s after : TcpStream) (calls : List Call) (n : ℕ) (rest : List ℕ) : Type 0 where
  pub idle : Idle after
  pub errno : ℕ
  pub given : Option IoBuffer
  pub once : calls ≡ Call.write_done s.writer.write_cb s.writer.write_cb_arg errno given ∷ []
  pub cause : (n ≡ 0) ⊎ ((errno ≡ 0) × (rest ≡ []))

pub record Writes (s : TcpStream) (bytes : List ℕ) (n : ℕ) (r : Outcome (TcpStream × List Call))
    : Type 0 where
  pub after : TcpStream
  pub calls : List Call
  pub runs : r ≡ ok (after, calls)
  pub same_reader : after.reader ≡ s.reader
  pub same_armed : after.read_armed ≡ s.read_armed
  pub sends : after.socket ≡ s.socket ++ take n bytes
  pub ends : Ended s after calls n (drop n bytes) ⊎ (Waiting after (drop n bytes) × (calls ≡ []))

-- The write calls back with the error number that it got; only the state and the buffer may have
-- changed.
ended-Writes :
    (s : TcpStream) (state : WriteState) (b : Option IoBuffer) (socket bytes : List ℕ) (n errno : ℕ)
    → s.posted ≡ 0
    → socket ≡ s.socket ++ take n bytes
    → (n ≡ 0) ⊎ ((errno ≡ 0) × (drop n bytes ≡ []))
    → Writes s bytes n (
        ok (
          invoke_write_callback
            (record s {
              writer = record s.writer { write_state = state; output_buffer = b };
              socket = socket;
            })
            errno))
unfolding invoke_write_callback
ended-Writes s state b socket bytes n errno none_posted sends cause =
    let t = record s {
      writer = record s.writer { write_state = state; output_buffer = b };
      socket = socket;
    } in
    record {
      after = (invoke_write_callback t errno).0;
      calls = (invoke_write_callback t errno).1;
      runs = refl;
      same_reader = refl;
      same_armed = refl;
      sends = sends;
      ends = inl record {
        idle = record { no_buffer = refl; no_cb = refl; none_posted = none_posted };
        errno = errno;
        given = b;
        once = refl;
        cause = cause;
      };
    }

segment_empty : (f : ℕ → ℕ) (i n : ℕ) → n ≡ 0 → segment f i n ≡ []
unfolding segment
segment_empty f i zero e = refl
segment_empty f i (suc n) e = absurd (omega (arith, e))

after_taken-Writes :
    (s : TcpStream) (b : IoBuffer) (bytes : List ℕ) (n : ℕ)
    → IsValid b
    → contents b ≡ drop n bytes
    → s.writer.write_cb ≢ 0
    → s.posted ≡ 0
    → Writes s bytes n (ok (after_taken (record s { socket = s.socket ++ take n bytes }) b))
unfolding after_taken iobuffer_data_len
after_taken-Writes s b bytes n v left some_cb none_posted =
    elim (Bool-cases (b.buffer_remaining == 0)) [
      | inl e ↦
          let all : drop n bytes ≡ [] =
            sym left
            ∙ segment_empty b.mem.cell b.buffer_ptr b.buffer_remaining (ground (arith, e)) in
          rw e (
            ended-Writes s WriteState.ready (some b) (s.socket ++ take n bytes) bytes n 0
              none_posted refl (inr (refl, all)))
      | inr e ↦ rw e (record {
        after = record s {
          writer = record s.writer { write_state = WriteState.ready; output_buffer = some b };
          posted = s.posted + 1;
          socket = s.socket ++ take n bytes;
        };
        calls = [];
        runs = refl;
        same_reader = refl;
        same_armed = refl;
        sends = refl;
        ends = inr (
          record {
            buffer = b;
            pending = refl;
            valid = v;
            holds = left;
            some_cb = some_cb;
            turn = inl (omega (arith, none_posted));
          },
          refl,
        );
      })
    ]

after_write-Writes :
    (s : TcpStream) (b : IoBuffer) (bytes : List ℕ) (r : WriteResult)
    → InProgress s b bytes
    → FitsData r b
    → Writes s bytes (taken r) (after_write s bytes b r)
unfolding after_write iobuffer_data_len
after_write-Writes s b bytes (WriteResult.took zero errno) p fits =
    ended-Writes s s.writer.write_state s.writer.output_buffer s.socket bytes 0 errno p.none_posted
      (sym (append-nil s.socket)) (inl refl)
after_write-Writes s b bytes (WriteResult.took (suc n) errno) p fits =
    rw (consume-fits b (suc n) p.valid fits) (
      after_taken-Writes s (consumed b (suc n)) bytes (suc n)
        (consumed-IsValid b (suc n) p.valid fits)
        (contents-consumed b (suc n) fits ∙ ap (drop (suc n)) p.holds) p.some_cb p.none_posted)
after_write-Writes s b bytes (WriteResult.failed errno) p fits =
    elim (Bool-cases (errno == again)) [
      | inl e ↦ rw e (record {
        after = record s { writer = record s.writer { write_state = WriteState.eagain } };
        calls = [];
        runs = refl;
        same_reader = refl;
        same_armed = refl;
        sends = sym (append-nil s.socket);
        ends = inr (
          record {
            buffer = b;
            pending = p.pending;
            valid = p.valid;
            holds = p.holds;
            some_cb = p.some_cb;
            turn = inr (p.none_posted, refl);
          },
          refl,
        );
      })
      | inr e ↦ rw e (
          ended-Writes s WriteState.error s.writer.output_buffer s.socket bytes 0 errno
            p.none_posted (sym (append-nil s.socket)) (inl refl))
    ]

pub try_write-Writes :
    (s : TcpStream) (b : IoBuffer) (bytes : List ℕ) (r : WriteResult)
    → InProgress s b bytes
    → FitsData r b
    → Writes s bytes (taken r) (try_write s r)
unfolding try_write write_from
try_write-Writes s b bytes r p fits =
    let a = after_write-Writes s b bytes r p fits in
    record {
      after = a.after;
      calls = a.calls;
      runs =
          ap (write_from s r) p.pending
          ∙ ap (λ d. d >>= λ given. after_write s given b r)
              (data-contents b p.valid ∙ ap ok p.holds)
          ∙ a.runs;
      same_reader = a.same_reader;
      same_armed = a.same_armed;
      sends = a.sends;
      ends = a.ends;
    }

-- The writer's part of a stream that shares it.
pub Idle-same : (s t : TcpStream) → t.writer ≡ s.writer → t.posted ≡ s.posted → Idle s → Idle t
Idle-same s t e f i = record {
  no_buffer = ap (λ x. x.output_buffer) e ∙ i.no_buffer;
  no_cb = ap (λ x. x.write_cb) e ∙ i.no_cb;
  none_posted = f ∙ i.none_posted;
}

pub Waiting-same :
    (s t : TcpStream) (rest : List ℕ)
    → t.writer ≡ s.writer
    → t.posted ≡ s.posted
    → Waiting s rest
    → Waiting t rest
Waiting-same s t rest e f i = record {
  buffer = i.buffer;
  pending = ap (λ x. x.output_buffer) e ∙ i.pending;
  valid = i.valid;
  holds = i.holds;
  some_cb = λ c. i.some_cb (sym (ap (λ x. x.write_cb) e) ∙ c);
  turn = elim i.turn [
    | inl p ↦ inl (f ∙ p)
    | inr (p, q) ↦ inr (f ∙ p, ap (λ x. x.write_state) e ∙ q)
  ];
}
