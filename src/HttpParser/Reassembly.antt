-- ===== src/HttpParser/Reassembly.antt =====
-- The messages of a connection do not depend on the pieces in which llhttp hands over their parts.
use network_c_http.Base.{◌≡◌, refl, ap, ◌∙◌, List, map, Option, some, All, Outcome, ok, ◌>>=◌, inl}
use network_c_http.HttpMessage.{HttpMessage, Memory}
use network_c_http.HttpParser.{HttpMessageParser, Event, http_message_parser_new, run}
use network_c_http.HttpParser.Plain.{PlainMessage, PlainParser, plain_initial, plain_run}
use network_c_http.HttpParser.Views.{block_of}
use network_c_http.HttpParser.Refinement.{MessagesAre, Delivers, run-Delivers, new-ParserIs}
use network_c_http.HttpParser.Transmission.{Transmission, IsValid, all_events, essential, received}
use network_c_http.HttpParser.Messages.{messages_lem, essential_lem}

-- A new parser that is called with `es`.
unfoldable pub parse : Memory → List Event → Outcome (HttpMessageParser × List (Option HttpMessage))
parse m es = do p ← http_message_parser_new m; run m p es

-- The parser and the messages that it hands over.
pub record Parses (m : Memory) (es : List Event) (vs : List PlainMessage) : Type 0 where
  pub parser : HttpMessageParser
  pub messages : List (Option HttpMessage)
  pub runs : parse m es ≡ ok (parser, messages)
  pub same : MessagesAre m.uninitialised messages vs

pub parse-Parses :
    (m : Memory) (es : List Event) (w : PlainParser) (vs : List PlainMessage)
    → plain_run (block_of m) plain_initial es ≡ some (w, vs)
    → Parses m es vs
unfolding parse Delivers
parse-Parses m es w vs e =
    let (p, makes, s) = new-ParserIs m in
    let d : Delivers m (run m p es) (some (w, vs)) =
      rw e at (run-Delivers m es p plain_initial s) in
    let (q, ms, runs, _, same) = d in
    record { parser = q; messages = ms; runs = rw makes runs; same = same }

pub messages-Parses :
    (m : Memory) (ts : List Transmission) (es : List Event)
    → All IsValid ts
    → essential es ≡ all_events ts
    → Parses m es (map (received (block_of m)) ts)
messages-Parses m ts es valid e =
    let block = block_of m in
    let (w, runs) = messages_lem block ts plain_initial valid (inl refl, refl) in
    parse-Parses m es w (map (received block) ts)
      (essential_lem block es plain_initial ∙ ap (plain_run block plain_initial) e ∙ runs)
