-- ===== src/DemoMsg/Refine.antt =====
-- The parser on its buffers does what `parse` does on lists of bytes.
use network_c_http.Base.{
  ℕ, zero, suc, ◌+◌, ◌≤◌, ◌<◌, ◌≡◌, ◌≢◌, refl, ap, ◌∙◌, true, false, List, [], ◌∷◌, ◌++◌, length,
  All, arith, none, some, Outcome, ok, abort, fault, ◌>>=◌, ◌==◌, ◌⊎◌, inl, inr,
}
use network_c_http.Base.Cells.{load, segment, length-segment}
use network_c_http.IoBuffer.{IoBuffer, iobuffer_data_len}
use network_c_http.IoBuffer.Contents.{IsValid, contents}
use network_c_http.IoBuffer.Updates.{consumed, consume-fits, consumed-IsValid}
use network_c_http.IoBuffer.Bytes.{load-first, consumed-rest}
use network_c_http.DemoMsg.{
  in_body, is_print, ch_etx, State, idle, DemoMsg, DemoMsgParser, demo_msg_new, step, consume_loop,
  demo_msg_parser_consume,
}
use network_c_http.DemoMsg.Frames.{Parsed, parse_byte, parse, is_empty}
use network_c_http.DemoMsg.Frames.{frame, frames, Sendable, parse-frames, parse-resync}
use network_c_http.DemoMsg.Steps.{Holds, Carry, StepMatches, new-IsMessage, step-StepMatches}

-- A call that took all of its buffer.
abbrev pub Matches : Outcome (DemoMsgParser × IoBuffer × List DemoMsg) → Parsed → Type 0
Matches (ok (p, iob, ms)) (ok (s, body, bs)) = Holds p s body × (contents iob ≡ []) × Carry ms bs
Matches abort abort = Unit
Matches fault fault = Unit
Matches r r' = ⊥

-- A parser between two calls: with a current message, or with none before the first.
abbrev pub Ready : DemoMsgParser → State → List ℕ → Type 0
Ready p s body = Holds p s body ⊎ ((p.state ≡ s) × (p.current_message ≡ none) × (body ≡ []))

module _ (uninitialised : ℕ → ℕ) where
  Carry-append :
      (ms ns : List DemoMsg) (bs cs : List (List ℕ))
      → Carry ms bs
      → Carry ns cs
      → Carry (ms ++ ns) (bs ++ cs)
  Carry-append [] ns [] cs c d = d
  Carry-append (m ∷ ms) ns (b ∷ bs) cs c d = (c.0, Carry-append ms ns bs cs c.1 d)
  Carry-append [] ns (b ∷ bs) cs c d = absurd c
  Carry-append (m ∷ ms) ns [] cs c d = absurd c

  sent_before :
      (ms : List DemoMsg) (bs : List (List ℕ))
      (r : Outcome (DemoMsgParser × IoBuffer × List DemoMsg)) (r' : Parsed)
      → Carry ms bs
      → Matches r r'
      → Matches
          (r >>= λ (p2, iob2, rest). ok (p2, iob2, ms ++ rest))
          (r' >>= λ (s2, body2, rest). ok (s2, body2, bs ++ rest))
  sent_before ms bs (ok (p, iob, ns)) (ok (s, body, cs)) c m =
      (m.0, m.1, Carry-append ms ns bs cs c m.2)
  sent_before ms bs abort abort c m = tt
  sent_before ms bs (ok x) abort c m = absurd m
  sent_before ms bs (ok x) fault c m = absurd m
  sent_before ms bs abort (ok y) c m = absurd m
  sent_before ms bs abort fault c m = absurd m
  sent_before ms bs fault fault c m = tt
  sent_before ms bs fault (ok y) c m = absurd m
  sent_before ms bs fault abort c m = absurd m

  -- The rest of the loop behind one byte.
  after_step :
      (r : Outcome (DemoMsgParser × List DemoMsg)) (r' : Parsed)
      (next : DemoMsgParser → Outcome (DemoMsgParser × IoBuffer × List DemoMsg))
      (next' : State → List ℕ → Parsed)
      → StepMatches r r'
      → ((p : DemoMsgParser) (s : State) (body : List ℕ)
          → Holds p s body
          → Matches (next p) (next' s body))
      → Matches (r >>= λ (p', sent). next p' >>= λ (p2, iob2, rest). ok (p2, iob2, sent ++ rest)) (
          r' >>= λ (s', body', sent).
          next' s' body' >>= λ (s2, body2, rest). ok (s2, body2, sent ++ rest))
  after_step (ok (p, ms)) (ok (s, body, bs)) next next' m k =
      sent_before ms bs (next p) (next' s body) m.1 (k p s body m.0)
  after_step abort abort next next' m k = tt
  after_step (ok x) abort next next' m k = absurd m
  after_step (ok x) fault next next' m k = absurd m
  after_step abort (ok y) next next' m k = absurd m
  after_step abort fault next next' m k = absurd m
  after_step fault fault next next' m k = tt
  after_step fault (ok y) next next' m k = absurd m
  after_step fault abort next next' m k = absurd m

  empty_rest : (iob : IoBuffer) → iob.buffer_remaining ≡ 0 → contents iob ≡ []
  unfolding segment
  empty_rest iob e = rw e refl

  is_empty-length : (cs : List ℕ) → is_empty cs ≡ (length cs == 0)
  is_empty-length [] = refl
  is_empty-length (x ∷ cs) = ground arith

  last_byte :
      (iob : IoBuffer) (n i len ch : ℕ) (cs : List ℕ)
      → iob.buffer_remaining ≡ suc n
      → contents iob ≡ ch ∷ cs
      → i + suc n ≡ len
      → (i + 1 == len) ≡ is_empty cs
  last_byte iob n i len ch cs e c total =
      let size = length-segment iob.mem.cell iob.buffer_ptr iob.buffer_remaining in
      let left : length cs ≡ n = omega (arith, size, ap length c) in
      ground (arith, is_empty-length cs)

  next_at :
      (iob : IoBuffer) (start i n : ℕ)
      → iob.buffer_remaining ≡ suc n
      → start + i ≡ iob.buffer_ptr
      → 0 < n
      → start + (i + 1) ≡ (consumed iob 1).buffer_ptr
  next_at iob start i n e at q = ground arith

  consume_loop-Matches :
      (start length n i : ℕ) (iob : IoBuffer) (cs : List ℕ) (p : DemoMsgParser) (s : State)
      (body : List ℕ)
      → IsValid iob
      → iob.buffer_remaining ≡ n
      → contents iob ≡ cs
      → (0 < n → start + i ≡ iob.buffer_ptr)
      → i + n ≡ length
      → Holds p s body
      → Matches (consume_loop uninitialised start length n i p iob) (parse s body cs)
  unfolding consume_loop parse
  consume_loop-Matches start len zero i iob [] p s body v e c at total h = (h, c, tt)
  consume_loop-Matches start len zero i iob (ch ∷ cs) p s body v e c at total h =
      absurd (omega (arith, ap length c, ap length (empty_rest iob e)))
  consume_loop-Matches start len (suc n) i iob [] p s body v e c at total h =
      absurd (
        omega (arith, ap length c, length-segment iob.mem.cell iob.buffer_ptr iob.buffer_remaining))
  consume_loop-Matches start len (suc n) i iob (ch ∷ cs) p s body v e c at total h =
      let read = load-first iob n ch cs v e c in
      let again : load iob.mem (start + i) ≡ ok ch = ap (load iob.mem) (at (omega arith)) ∙ read in
      let some_left : 1 ≤ iob.buffer_remaining = omega arith in
      let took = consume-fits iob 1 v some_left in
      let same : (ch == ch) ≡ true = ground arith in
      let left = consumed-rest iob n ch cs e c in
      let is_last : (i + 1 == len) ≡ is_empty cs = last_byte iob n i len ch cs e c total in
      rw (read, took, again, same, is_last)
        (after_step (step uninitialised (is_empty cs) p ch) (parse_byte (is_empty cs) s body ch)
          (λ p'. consume_loop uninitialised start len n (i + 1) p' (consumed iob 1))
          (λ s' body'. parse s' body' cs)
          (step-StepMatches uninitialised (is_empty cs) p s body ch h)
          λ p' s' body' h'.
            consume_loop-Matches start len n (i + 1) (consumed iob 1) cs p' s' body'
              (consumed-IsValid iob 1 v some_left) (omega arith) left
              (λ q. next_at iob start i n e (at (omega arith)) q) (omega arith) h')

  opened : DemoMsgParser → DemoMsgParser
  opened p = record p {
    current_message =
        some (elim p.current_message [ none ↦ demo_msg_new uninitialised | some m ↦ m ]);
  }

  opened-Holds :
      (p : DemoMsgParser) (s : State) (body : List ℕ) → Ready p s body → Holds (opened p) s body
  unfolding opened
  opened-Holds p s body (inl h) = record {
    state = h.state;
    message = h.message;
    current_is = rw h.current_is refl;
    is_message = h.is_message;
  }
  opened-Holds p s body (inr (e, n, b)) = record {
    state = e;
    message = demo_msg_new uninitialised;
    current_is = rw n refl;
    is_message = rw b (new-IsMessage uninitialised);
  }

  pub consume-Matches :
      (p : DemoMsgParser) (iob : IoBuffer) (s : State) (body : List ℕ)
      → IsValid iob
      → 0 < iob.buffer_remaining
      → Ready p s body
      → Matches (demo_msg_parser_consume uninitialised p iob) (parse s body (contents iob))
  unfolding demo_msg_parser_consume iobuffer_data_len opened
  consume-Matches p iob s body v some_bytes r =
      let n = iob.buffer_remaining in
      let non_empty : (n == 0) ≡ false = ground arith in
      rw non_empty (
        consume_loop-Matches iob.buffer_ptr n n 0 iob (contents iob) _ s body v refl refl
          (λ q. omega arith) (omega arith) (opened-Holds p s body r))

  -- From a buffer that holds the frames of some bodies, each of at most 1024 printable characters,
  -- a parser that is idle with no body calls back with messages of just these bodies in order, and is
  -- idle with no body again.
  pub consume-frames :
      (p : DemoMsgParser) (iob : IoBuffer) (bs : List (List ℕ))
      → IsValid iob
      → 0 < iob.buffer_remaining
      → Ready p idle []
      → contents iob ≡ frames bs
      → All Sendable bs
      → Matches (demo_msg_parser_consume uninitialised p iob) (ok (idle, [], bs))
  consume-frames p iob bs v some_bytes r e bodies =
      rw⁻¹ (parse-frames bs bodies) (rw⁻¹ e (consume-Matches p iob idle [] v some_bytes r))

  -- If a body is broken off by a byte below 128 that is neither printable nor ETX, and the same buffer
  -- goes on with a frame of a printable body, and the bytes before the break and this body are at most
  -- 1024 together, then the parser calls back with one message, whose body is the bytes before the
  -- break and then the body of the frame.
  pub consume-resync :
      (p : DemoMsgParser) (iob : IoBuffer) (acc body : List ℕ) (ch : ℕ)
      → IsValid iob
      → 0 < iob.buffer_remaining
      → Ready p in_body acc
      → contents iob ≡ ch ∷ frame body
      → ch < 128
      → is_print ch ≡ false
      → ch ≢ ch_etx
      → All (λ c. is_print c ≡ true) body
      → length acc + length body ≤ 1024
      → Matches (demo_msg_parser_consume uninitialised p iob) (ok (idle, [], (acc ++ body) ∷ []))
  consume-resync p iob acc body ch v some_bytes r e below bad other good short =
      let resync : parse in_body acc (ch ∷ frame body) ≡ ok (idle, [], (acc ++ body) ∷ []) =
        parse-resync acc body [] ch below bad other good short ∙ (unfold parse in refl) in
      rw⁻¹ resync (rw⁻¹ e (consume-Matches p iob in_body acc v some_bytes r))
