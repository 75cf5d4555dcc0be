-- ===== src/HttpParser/Refinement.antt =====
-- A message parser hands over what the parser on plain texts does.
use network_c_http.Base.{
  ℕ, ◌≡◌, refl, List, [], ◌∷◌, ◌++◌, Option, none, some, Outcome, ok, ◌>>=◌, inl, inr,
}
use network_c_http.Cbuffer.Texts.{new-fresh}
use network_c_http.HttpMessage.{HttpMessage, Memory}
use network_c_http.HttpMessage.Strings.{clear_fresh_lem}
use network_c_http.HttpParser.{
  HttpMessageParser, Event, header_state_nothing, initialize, http_message_parser_new,
  message_complete_cb, method_data_cb, version_data_cb, chunk_extension_name_cb,
  chunk_extension_value_cb, on_element_complete_cb, chunk_header_cb, chunk_complete_cb, on_reset_cb,
  silent, on_event, run,
}
use network_c_http.HttpParser.Event.{
  message_begin, url_data, status_data, header_field_data, header_value_data, headers_complete,
  body_data, message_complete, method_data, version_data, chunk_extension_name,
  chunk_extension_value, element_complete, chunk_header, chunk_complete, reset,
}
use network_c_http.HttpParser.Plain.{
  PlainMessage, PlainParser, plain_initial, plain_silent, plain_finish, plain_event, and_then,
  plain_run,
}
use network_c_http.HttpParser.Views.{
  MessageIs, ParserIs, CurrentIs, current_cases, block_of, new-MessageIs,
}
use network_c_http.HttpParser.Callbacks.{Follows, url-Follows, status-Follows}
use network_c_http.HttpParser.Fields.{field-Follows, value-Follows}
use network_c_http.HttpParser.Whole.{begin-Follows, complete-Follows, body-Follows}

-- The messages that were handed over, none of them NULL.
unfoldable pub MessagesAre : (ℕ → ℕ) → List (Option HttpMessage) → List PlainMessage → Type 0
MessagesAre uninitialised [] [] = Unit
MessagesAre uninitialised [] (_ ∷ vs) = ⊥
MessagesAre uninitialised (_ ∷ ms) [] = ⊥
MessagesAre uninitialised (none ∷ ms) (v ∷ vs) = ⊥
MessagesAre uninitialised (some msg ∷ ms) (v ∷ vs) =
    MessageIs uninitialised msg v × MessagesAre uninitialised ms vs

MessagesAre-append :
    (u : ℕ → ℕ) (ms ns : List (Option HttpMessage)) (vs ws : List PlainMessage)
    → MessagesAre u ms vs
    → MessagesAre u ns ws
    → MessagesAre u (ms ++ ns) (vs ++ ws)
unfolding MessagesAre
MessagesAre-append u [] ns [] ws s t = t
MessagesAre-append u [] ns (_ ∷ vs) ws s t = elim s [ ]
MessagesAre-append u (_ ∷ ms) ns [] ws s t = elim s [ ]
MessagesAre-append u (none ∷ ms) ns (v ∷ vs) ws s t = elim s [ ]
MessagesAre-append u (some msg ∷ ms) ns (v ∷ vs) ws s t =
    (s.0, MessagesAre-append u ms ns vs ws s.1 t)

module _ (m : Memory) where
  -- A run succeeds where the plain one does, and hands over the same messages.
  unfoldable pub Delivers :
      Outcome (HttpMessageParser × List (Option HttpMessage))
      → Option (PlainParser × List PlainMessage)
      → Type 0
  Delivers r none = Unit
  Delivers r (some (v, vs)) =
      (p : HttpMessageParser) × (ms : List (Option HttpMessage)) × (r ≡ ok (p, ms))
      × ParserIs m.uninitialised p v
      × MessagesAre m.uninitialised ms vs

  silent-Delivers :
      (r : Outcome HttpMessageParser) (o : Option PlainParser)
      → Follows m r o
      → Delivers (silent r) (plain_silent o)
  unfolding Delivers Follows MessagesAre
  silent-Delivers r none f = tt
  silent-Delivers r (some v) (p, runs, s) = (p, [], rw runs refl, s, tt)

  quiet-Delivers :
      (p : HttpMessageParser) (v : PlainParser)
      → ParserIs m.uninitialised p v
      → Delivers (ok (p, [])) (some (v, []))
  unfolding Delivers MessagesAre
  quiet-Delivers p v s = (p, [], refl, s, tt)

  finish-Delivers :
      (p : HttpMessageParser) (v : PlainParser)
      → ParserIs m.uninitialised p v
      → Delivers (message_complete_cb m p) (plain_finish (block_of m) v v.msg)
  unfolding Delivers MessagesAre message_complete_cb plain_finish CurrentIs
  finish-Delivers p v s = elim (current_cases m.uninitialised p.current_message v.msg s.msg) [
    | inl e ↦ rw e.1 tt
    | inr c ↦
        let (msg, makes, fields) = new-MessageIs m in
        rw c.there (
          record p { current_message = some msg },
          some c.message ∷ [],
          rw (c.here, makes) refl,
          record {
            state = s.state;
            status = s.status;
            url = s.url;
            name = s.name;
            value = s.value;
            msg = fields;
          },
          (c.same, tt),
        )
  ]

  event-Delivers :
      (p : HttpMessageParser) (v : PlainParser) (e : Event)
      → ParserIs m.uninitialised p v
      → Delivers (on_event m p e) (plain_event (block_of m) v e)
  unfolding on_event plain_event method_data_cb version_data_cb chunk_extension_name_cb
      chunk_extension_value_cb on_element_complete_cb chunk_header_cb chunk_complete_cb on_reset_cb
  event-Delivers p v message_begin s = silent-Delivers _ _ (begin-Follows m p v s)
  event-Delivers p v (url_data bytes) s = silent-Delivers _ _ (url-Follows m p v bytes s)
  event-Delivers p v (status_data code bytes) s =
      silent-Delivers _ _ (status-Follows m p v code bytes s)
  event-Delivers p v (header_field_data bytes) s = silent-Delivers _ _ (field-Follows m p v bytes s)
  event-Delivers p v (header_value_data bytes) s = silent-Delivers _ _ (value-Follows m p v bytes s)
  event-Delivers p v (headers_complete maj minor meth) s =
      silent-Delivers _ _ (complete-Follows m p v maj minor meth s)
  event-Delivers p v (body_data bytes) s = silent-Delivers _ _ (body-Follows m p v bytes s)
  event-Delivers p v message_complete s = finish-Delivers p v s
  event-Delivers p v (method_data bytes) s = quiet-Delivers p v s
  event-Delivers p v (version_data bytes) s = quiet-Delivers p v s
  event-Delivers p v (chunk_extension_name bytes) s = quiet-Delivers p v s
  event-Delivers p v (chunk_extension_value bytes) s = quiet-Delivers p v s
  event-Delivers p v element_complete s = quiet-Delivers p v s
  event-Delivers p v chunk_header s = quiet-Delivers p v s
  event-Delivers p v chunk_complete s = quiet-Delivers p v s
  event-Delivers p v reset s = quiet-Delivers p v s

  rest-Delivers :
      (r : Outcome (HttpMessageParser × List (Option HttpMessage)))
      (o : Option (PlainParser × List PlainMessage))
      (f : HttpMessageParser → Outcome (HttpMessageParser × List (Option HttpMessage)))
      (g : PlainParser → Option (PlainParser × List PlainMessage))
      → Delivers r o
      → ((p : HttpMessageParser) (v : PlainParser)
          → ParserIs m.uninitialised p v
          → Delivers (f p) (g v))
      → Delivers (r >>= λ (p1, here). f p1 >>= λ (p2, later). ok (p2, here ++ later)) (and_then o g)
  unfolding Delivers and_then
  rest-Delivers r none f g d k = tt
  rest-Delivers r (some (v, vs)) f g (p, ms, runs, s, same) k = rw runs (join (f p) (g v) (k p v s))
    where
      join :
          (r2 : Outcome (HttpMessageParser × List (Option HttpMessage)))
          (o2 : Option (PlainParser × List PlainMessage))
          → Delivers r2 o2
          → Delivers (r2 >>= λ (p2, later). ok (p2, ms ++ later)) (and_then (some (v, vs)) λ w. o2)
      join r2 none d = tt
      join r2 (some (v2, vs2)) (p2, ms2, runs2, s2, same2) = (
        p2,
        ms ++ ms2,
        rw runs2 refl,
        s2,
        MessagesAre-append m.uninitialised ms ms2 vs vs2 same same2,
      )

  -- A parser that agrees with a plain one delivers what that one does.
  pub run-Delivers :
      (es : List Event) (p : HttpMessageParser) (v : PlainParser)
      → ParserIs m.uninitialised p v
      → Delivers (run m p es) (plain_run (block_of m) v es)
  unfolding run plain_run
  run-Delivers [] p v s = quiet-Delivers p v s
  run-Delivers (e ∷ es) p v s =
      rest-Delivers (on_event m p e) (plain_event (block_of m) v e) (λ q. run m q es)
        (λ w. plain_run (block_of m) w es) (event-Delivers p v e s) λ q w t. run-Delivers es q w t

  pub new-ParserIs :
      (p : HttpMessageParser) × (http_message_parser_new m ≡ ok p)
      × ParserIs m.uninitialised p plain_initial
  unfolding http_message_parser_new initialize CurrentIs
  new-ParserIs =
      let (b, clears, empty) = clear_fresh_lem m.uninitialised in
      let (msg, makes, fields) = new-MessageIs m in
      (
        record {
          header_state = header_state_nothing;
          status_buf = b;
          url_buf = b;
          name_buf = b;
          value_buf = b;
          current_message = none;
        },
        rw (new-fresh m.uninitialised, makes, clears) refl,
        record { state = refl; status = empty; url = empty; name = empty; value = empty; msg = tt },
      )
