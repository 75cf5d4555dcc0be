-- ===== src/TcpStream/Soundness.antt =====
-- What holds in every state that a stream and its owner can reach.
use network_c_http.Base.{
  ℕ, ◌+◌, ◌<◌, ◌≡◌, refl, sym, ap, ◌∙◌, true, List, [], ◌++◌, append_assoc, append-nil, none, some,
  Outcome, ltb, ◌==◌, ◌&&◌, length, inl, inr, arith, take, drop, same_ok, Bool-cases,
}
use mathlib.Core.Path.{subst}
use network_c_http.IoBuffer.{IoBuffer}
use network_c_http.IoBuffer.Contents.{IsValid, contents}
use network_c_http.TcpStream.{TcpStream, Call, ReadResult, WriteResult, tcp_stream_init, may_read}
use network_c_http.TcpStream.Reads
use network_c_http.TcpStream.Reads.{FitsSpace, tcp_read-Reads, read_ready-Reads}
use network_c_http.TcpStream.Writes
use network_c_http.TcpStream.Writes.{FitsData, taken, asked_write}
use network_c_http.TcpStream.WriteCalls.{tcp_write-Writes, postable_try_write-Writes}
use network_c_http.TcpStream.Monitor.{
  World, after_reading, after_writing, Reached, Sound, take-drop,
}

-- A step of the reader, which ends one read more or leaves it waiting.
reading-Sound :
    (w : World) (k : ℕ) (r : Outcome (TcpStream × List Call))
    → Sound w
    → w.asked + k ≡ w.answered + 1
    → (x : Reads.Reads w.stream r) → Sound (after_reading w k x.after x.calls)
reading-Sound w k r h count x = record {
  able = x.able;
  reading = elim x.ends [
    | inl (i, one) ↦ inl (i, omega (arith, count, one))
    | inr (i, no_call) ↦ inr (i, omega (arith, count, no_call))
  ];
  writing = elim h.writing [
    | inl (i, e) ↦ inl (Writes.Idle-same w.stream x.after x.same_writer x.same_posted i, e)
    | inr (rest, (i, e, f)) ↦ inr (
      rest,
      (
        Writes.Waiting-same w.stream x.after rest x.same_writer x.same_posted i,
        e ∙ ap (λ l. l ++ rest) (sym x.same_socket),
        f,
      ),
    )
  ];
  whole = h.whole;
}

-- A write that called back on bytes taken has nothing left.
nothing_left :
    (s : TcpStream) (bytes : List ℕ) (n : ℕ) (r : Outcome (TcpStream × List Call))
    → (x : Writes.Writes s bytes n r) → (ltb 0 n && (length x.calls == 1)) ≡ true
    → drop n bytes ≡ []
nothing_left s bytes n r x e = elim x.ends [
  | inl d ↦ elim d.cause [ inl z ↦ absurd (ground (arith, e, z)) | inr (_, f) ↦ f ]
  | inr (_, f) ↦ absurd (ground (arith, e, ap length f))
]

-- A step of the writer, on a stream with the reader's part as it was.
writing-Sound :
    (w : World) (k : ℕ) (t : TcpStream) (goal bytes : List ℕ) (n : ℕ)
    (r : Outcome (TcpStream × List Call))
    → Sound w
    → t.reader ≡ w.stream.reader
    → t.read_armed ≡ w.stream.read_armed
    → goal ≡ t.socket ++ bytes
    → w.asked_writes + k ≡ w.answered_writes + 1
    → (x : Writes.Writes t bytes n r) → Sound (after_writing w k goal n x.after x.calls)
writing-Sound w k t goal bytes n r h er ea eq count x =
    let reader = x.same_reader ∙ er in
    let armed = x.same_armed ∙ ea in
    let split : goal ≡ x.after.socket ++ drop n bytes =
      eq
      ∙ ap (λ l. t.socket ++ l) (sym (take-drop n bytes))
      ∙ sym (append_assoc t.socket (take n bytes) (drop n bytes))
      ∙ ap (λ l. l ++ drop n bytes) (sym x.sends) in
    record {
      able = ap (λ y. may_read y.read_state) reader ∙ h.able;
      reading = elim h.reading [
        | inl (i, e) ↦ inl (Reads.Idle-same w.stream x.after reader i, e)
        | inr (i, e) ↦ inr (Reads.Waiting-same w.stream x.after reader armed i, e)
      ];
      writing = elim x.ends [
        | inl d ↦ inl (d.idle, omega (arith, count, ap length d.once))
        | inr (i, none_called) ↦
            inr (drop n bytes, (i, split, omega (arith, count, ap length none_called)))
      ];
      whole = elim (Bool-cases (ltb 0 n && (length x.calls == 1))) [
        | inl e ↦ rw e (
          split
              ∙ ap (λ l. x.after.socket ++ l) (nothing_left t bytes n r x e)
              ∙ append-nil x.after.socket,
          h.whole,
        )
        | inr e ↦ rw e h.whole
      ];
    }

pub reader-Idle :
    {w : World}
    → Sound w
    → w.stream.reader.input_buffer ≡ none
    → Reads.Idle w.stream × (w.asked ≡ w.answered)
reader-Idle h e = elim h.reading [ inl x ↦ x | inr (x, _) ↦ absurd (ground (arith, x.pending, e)) ]

pub writer-Idle :
    {w : World}
    → Sound w
    → w.stream.writer.output_buffer ≡ none
    → Writes.Idle w.stream × (w.asked_writes ≡ w.answered_writes)
writer-Idle h e = elim h.writing [
  | inl x ↦ x
  | inr (_, (x, _, _)) ↦ absurd (ground (arith, x.pending, e))
]

some_eq : {A : Type 0} {a b : A} → some a ≡ some b → a ≡ b
some_eq e = cc

pub posted_once :
    {s : TcpStream} {rest : List ℕ} → Writes.Waiting s rest → 0 < s.posted → s.posted ≡ 1
posted_once x h = elim x.turn [ inl e ↦ e | inr (e, _) ↦ absurd (omega (arith, h, e)) ]

-- The waiting read, with the buffer that it fills.
pub reader-Waiting :
    {w : World} (b : IoBuffer) (r : ReadResult)
    → Sound w
    → w.stream.reader.input_buffer ≡ some b
    → FitsSpace r b
    → (x : Reads.Waiting w.stream) × FitsSpace r x.buffer × (w.asked ≡ w.answered + 1)
reader-Waiting b r h e fits = elim h.reading [
  | inl (x, _) ↦ absurd (ground (arith, x.no_buffer, e))
  | inr (x, count) ↦
      let same : b ≡ x.buffer = some_eq (sym e ∙ x.pending) in
      (x, subst (FitsSpace r) same fits, count)
]

-- The waiting write, with the bytes that are left of it.
pub writer-Waiting :
    {w : World} (b : IoBuffer) (r : WriteResult)
    → Sound w
    → w.stream.writer.output_buffer ≡ some b
    → FitsData r b
    → (x : Writes.Waiting w.stream (contents b)) × FitsData r x.buffer
      × (w.goal ≡ w.stream.socket ++ contents b)
      × (w.asked_writes ≡ w.answered_writes + 1)
writer-Waiting {w} b r h e fits = elim h.writing [
  | inl (x, _) ↦ absurd (ground (arith, x.no_buffer, e))
  | inr (rest, (x, split, count)) ↦
      let same : x.buffer ≡ b = some_eq (sym x.pending ∙ e) in
      let left : rest ≡ contents b = sym x.holds ∙ ap contents same in
      (
        record {
          buffer = b;
          pending = e;
          valid = subst IsValid same x.valid;
          holds = refl;
          some_cb = x.some_cb;
          turn = x.turn;
        },
        fits,
        split ∙ ap (λ l. w.stream.socket ++ l) left,
        count,
      )
]

pub Reached-Sound : {w : World} → Reached w → Sound w
unfolding tcp_stream_init may_read
Reached-Sound Reached.start = record {
  able = refl;
  reading = inl (record { no_buffer = refl; no_cb = refl }, refl);
  writing = inl (record { no_buffer = refl; no_cb = refl; none_posted = refl }, refl);
  whole = tt;
}
Reached-Sound (Reached.read {w} {s} {calls} b cb arg r u e v space some_cb fits runs) =
    let h = Reached-Sound u in
    let (i, count) = reader-Idle h e in
    let x = tcp_read-Reads w.stream b cb arg r i h.able v space some_cb fits in
    subst (λ p. Sound (after_reading w 1 p.0 p.1)) (same_ok x.runs runs)
      (reading-Sound w 1 _ h (omega (arith, count)) x)
Reached-Sound (Reached.read_event {w} {s} {calls} b r u armed e fits runs) =
    let h = Reached-Sound u in
    let (i, room, count) = reader-Waiting b r h e fits in
    let x = read_ready-Reads w.stream r i h.able room in
    subst (λ p. Sound (after_reading w 0 p.0 p.1)) (same_ok x.runs runs)
      (reading-Sound w 0 _ h (omega (arith, count)) x)
Reached-Sound (Reached.write {w} {s} {calls} b cb arg r u e v some_cb fits runs) =
    let h = Reached-Sound u in
    let (i, count) = writer-Idle h e in
    let x = tcp_write-Writes w.stream b cb arg r i v some_cb fits in
    subst (λ p. Sound (after_writing w 1 (w.stream.socket ++ contents b) (taken r) p.0 p.1))
      (same_ok x.runs runs)
      (writing-Sound w 1 (asked_write w.stream b cb arg) (w.stream.socket ++ contents b)
        (contents b) (taken r) _ h refl refl refl (omega (arith, count)) x)
Reached-Sound (Reached.write_posted {w} {s} {calls} b r u posted e fits runs) =
    let h = Reached-Sound u in
    let (i, room, split, count) = writer-Waiting b r h e fits in
    let one : w.stream.posted ≡ 1 = posted_once i posted in
    let x = postable_try_write-Writes w.stream (contents b) r i one room in
    subst (λ p. Sound (after_writing w 0 w.goal (taken r) p.0 p.1)) (same_ok x.runs runs)
      (writing-Sound w 0 w.stream w.goal (contents b) (taken r) _ h refl refl split
        (omega (arith, count)) x)
