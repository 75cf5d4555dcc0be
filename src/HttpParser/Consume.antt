-- ===== src/HttpParser/Consume.antt =====
-- The functions of src/http_protocol/http_message_parser.c that give bytes to llhttp.
-- llhttp is a parameter: a state of its own, and for each call the callbacks that it makes before it
-- returns its error number. 0 is `HPE_OK`.
use network_c_http.Base.{
  ℕ, ◌<◌, ◌≡◌, refl, sym, ap, ◌∙◌, Bool, false, ◌&&◌, List, [], ◌∷◌, ◌++◌, append_assoc, append-nil,
  map, bind_ok, same_ok, Option, All, Outcome, ok, ◌>>=◌, if◌then◌else◌, ◌==◌, length, arith,
}
use network_c_http.IoBuffer.{IoBuffer, iobuffer_data, iobuffer_data_len, iobuffer_consume}
use network_c_http.IoBuffer.Contents.{contents}
use network_c_http.IoBuffer.Contents
use network_c_http.IoBuffer.Updates.{consume-fits, consumed, data-contents}
use network_c_http.HttpMessage.{HttpMessage, Memory}
use network_c_http.HttpParser.{HttpMessageParser, Event, on_event, run}

pub record Llhttp : Type 1 where
  pub Handle : Type 0
  pub execute : Handle → List ℕ → Handle × List Event × ℕ
  pub finish : Handle → Handle × List Event × ℕ
  pub message_needs_eof : Handle → Bool

-- A buffer whose bytes were all consumed.
abbrev pub spent : IoBuffer → IoBuffer
spent b = consumed b b.buffer_remaining

module _ (llhttp : Llhttp) (m : Memory) where
  -- llhttp with the parser that its callbacks write to, and the messages that were handed over.
  pub record Session : Type 0 where
    pub handle : llhttp.Handle
    pub parser : HttpMessageParser
    pub delivered : List (Option HttpMessage)

  -- A call of llhttp with its callbacks.
  unfoldable pub with_callbacks : Session → llhttp.Handle × List Event × ℕ → Outcome (Session × ℕ)
  with_callbacks s (handle, events, errno) = do
    (parser, messages) ← run m s.parser events
    ok (record { handle = handle; parser = parser; delivered = s.delivered ++ messages }, errno)

  unfoldable pub http_message_parser_consume : Session → List ℕ → Outcome (Session × ℕ)
  unfolding with_callbacks
  http_message_parser_consume s buffer =
      if length buffer == 0 && llhttp.message_needs_eof s.handle
      then with_callbacks s (llhttp.finish s.handle)
      else with_callbacks s (llhttp.execute s.handle buffer)

  -- The buffer is consumed when there is no error.
  unfoldable pub http_message_parser_consume_buffer :
      Session → IoBuffer → Outcome (Session × IoBuffer × ℕ)
  unfolding http_message_parser_consume
  http_message_parser_consume_buffer s iobuffer = do
    bytes ← iobuffer_data iobuffer
    (s', errno) ← http_message_parser_consume s bytes
    if errno == 0
        then (do b ← iobuffer_consume iobuffer (iobuffer_data_len iobuffer); ok (s', b, errno))
        else ok (s', iobuffer, errno)

  unfoldable pub http_message_parser_consume_eof : Session → Outcome (Session × ℕ)
  unfolding with_callbacks
  http_message_parser_consume_eof s =
      if llhttp.message_needs_eof s.handle
      then with_callbacks s (llhttp.finish s.handle)
      else ok (s, 0)

  -- One buffer after the other, as long as there is no error.
  unfoldable pub consume_buffers : Session → List IoBuffer → Outcome (Session × List IoBuffer × ℕ)
  unfolding http_message_parser_consume_buffer
  consume_buffers s [] = ok (s, [], 0)
  consume_buffers s (b ∷ bs) = do
    (s1, b1, errno) ← http_message_parser_consume_buffer s b
    if errno == 0
        then (do (s2, bs2, e) ← consume_buffers s1 bs; ok (s2, b1 ∷ bs2, e))
        else ok (s1, b1 ∷ bs, errno)

  -- llhttp reads the chunks, none of them empty, without an error, and makes these calls.
  unfoldable pub Reads : llhttp.Handle → List (List ℕ) → List Event → Type 0
  Reads h [] es = es ≡ []
  Reads h (c ∷ cs) es =
      (h' : llhttp.Handle) × (here : List Event) × (later : List Event) × (llhttp.execute h c
        ≡ (h', here, 0))
      × (0 < length c)
      × (es ≡ here ++ later)
      × Reads h' cs later

  -- A run in two parts.
  record Parts (es fs : List Event) (p r : HttpMessageParser) (all : List (Option HttpMessage))
      : Type 0 where
    pub between : HttpMessageParser
    pub here : List (Option HttpMessage)
    pub later : List (Option HttpMessage)
    pub first : run m p es ≡ ok (between, here)
    pub second : run m between fs ≡ ok (r, later)
    pub whole : all ≡ here ++ later

  run-cons :
      (x : Event) (es : List Event) (p p1 q : HttpMessageParser)
      (now here : List (Option HttpMessage))
      → on_event m p x ≡ ok (p1, now)
      → run m p1 es ≡ ok (q, here)
      → run m p (x ∷ es) ≡ ok (q, now ++ here)
  unfolding run
  run-cons x es p p1 q now here e f = rw (e, f) refl

  run-append :
      (es fs : List Event) (p r : HttpMessageParser) (all : List (Option HttpMessage))
      → run m p (es ++ fs) ≡ ok (r, all)
      → Parts es fs p r all
  unfolding run
  run-append [] fs p r all e = record {
    between = p;
    here = [];
    later = all;
    first = refl;
    second = e;
    whole = refl;
  }
  run-append (x ∷ es) fs p r all e =
      let ((p1, now), on, rest) =
        bind_ok (on_event m p x)
          (λ (p1, now). run m p1 (es ++ fs) >>= λ (p2, later). ok (p2, now ++ later)) (r, all) e in
      let ((p2, later), runs, last) =
        bind_ok (run m p1 (es ++ fs)) (λ (p2, later). ok (p2, now ++ later)) (r, all) rest in
      let ends : (p2, now ++ later) ≡ (r, all) = same_ok refl last in
      let s = run-append es fs p1 r later (runs ∙ ap (λ q. ok (q, later)) (ap (λ x. x.0) ends)) in
      record {
        between = s.between;
        here = now ++ s.here;
        later = s.later;
        first = run-cons x es p p1 s.between now s.here on s.first;
        second = s.second;
        whole =
            sym (ap (λ x. x.1) ends)
            ∙ ap (λ l. now ++ l) s.whole
            ∙ sym (append_assoc now s.here s.later);
      }

  consume_buffer_lem :
      (s : Session) (b : IoBuffer) (h' : llhttp.Handle) (here : List Event) (q : HttpMessageParser)
      (ms : List (Option HttpMessage))
      → Contents.IsValid b
      → llhttp.execute s.handle (contents b) ≡ (h', here, 0)
      → 0 < length (contents b)
      → run m s.parser here ≡ ok (q, ms)
      → http_message_parser_consume_buffer s b
        ≡ ok (record { handle = h'; parser = q; delivered = s.delivered ++ ms }, spent b, 0)
  unfolding http_message_parser_consume_buffer http_message_parser_consume with_callbacks
      iobuffer_data_len
  consume_buffer_lem s b h' here q ms v e some_bytes runs =
      let test : (length (contents b) == 0) ≡ false = ground (arith, some_bytes) in
      rw (data-contents b v, test, e, runs, consume-fits b b.buffer_remaining v (omega arith)) refl

  -- What the buffers end with.
  pub record Consumed (s : Session) (bs : List IoBuffer) (ms : List (Option HttpMessage))
      : Type 0 where
    pub after : Session
    pub runs : consume_buffers s bs ≡ ok (after, map spent bs, 0)
    pub messages : after.delivered ≡ s.delivered ++ ms

  pub buffers_lem :
      (bs : List IoBuffer) (s : Session) (es : List Event) (q : HttpMessageParser)
      (ms : List (Option HttpMessage))
      → All Contents.IsValid bs
      → Reads s.handle (map contents bs) es
      → run m s.parser es ≡ ok (q, ms)
      → Consumed s bs ms
  unfolding consume_buffers Reads run
  buffers_lem [] s es q ms valid reads runs =
      let ends : (s.parser, []) ≡ (q, ms) = same_ok refl (ap (run m s.parser) (sym reads) ∙ runs) in
      record {
        after = s;
        runs = refl;
        messages = sym (append-nil s.delivered) ∙ ap (λ x. s.delivered ++ x.1) ends;
      }
  buffers_lem (b ∷ bs) s es q ms valid (h', here, later, e, some_bytes, split, reads) runs =
      let w = run-append here later s.parser q ms (ap (run m s.parser) (sym split) ∙ runs) in
      let s1 : Session = record {
        handle = h';
        parser = w.between;
        delivered = s.delivered ++ w.here;
      } in
      let rest = buffers_lem bs s1 later q w.later valid.1 reads w.second in
      record {
        after = rest.after;
        runs =
            rw
              (
                consume_buffer_lem s b h' here w.between w.here valid.0 e some_bytes w.first,
                rest.runs,
              )
              refl;
        messages =
            rest.messages
            ∙ append_assoc s.delivered w.here w.later
            ∙ ap (λ l. s.delivered ++ l) (sym w.whole);
      }
