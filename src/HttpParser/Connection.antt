-- ===== src/HttpParser/Connection.antt =====
-- The buffers that a connection reads become the messages that were sent.
use network_c_http.Base.{ℕ, ◌≡◌, sym, List, [], map, All, Outcome, ok, ◌>>=◌, bind_ok}
use mathlib.Core.Path.{subst}
use network_c_http.IoBuffer.{IoBuffer}
use network_c_http.IoBuffer.Contents.{contents}
use network_c_http.IoBuffer.Contents
use network_c_http.HttpMessage.{Memory}
use network_c_http.HttpParser.{Event, http_message_parser_new, run}
use network_c_http.HttpParser.Views.{block_of}
use network_c_http.HttpParser.Refinement.{MessagesAre}
use network_c_http.HttpParser.Transmission.{Transmission, IsValid, all_events, essential, received}
use network_c_http.HttpParser.Reassembly.{messages-Parses, parse}
use network_c_http.HttpParser.Consume.{Llhttp, Session, Reads, consume_buffers, spent, buffers_lem}

-- A new parser, with llhttp as it is initialised.
unfoldable pub connection :
    (llhttp : Llhttp) (m : Memory)
    → llhttp.Handle
    → List IoBuffer
    → Outcome (Session llhttp m × List IoBuffer × ℕ)
connection llhttp m handle bs = do
  p ← http_message_parser_new m
  consume_buffers llhttp m (record { handle = handle; parser = p; delivered = [] }) bs

pub record Serves (llhttp : Llhttp) (m : Memory) (handle : llhttp.Handle) (bs : List IoBuffer)
    (ts : List Transmission) : Type 0 where
  pub after : Session llhttp m
  pub runs : connection llhttp m handle bs ≡ ok (after, map spent bs, 0)
  pub messages : MessagesAre m.uninitialised after.delivered (map (received (block_of m)) ts)

-- For messages of HTTP 1.x whose parts are cut in pieces of at most 256 bytes (a reason in one piece,
-- a URL below 512 bytes, names and values below 1048576, no NUL in any of them, no name, URL or piece
-- of a body empty, and a body of fewer than 2147483520 bytes): when llhttp reads the buffers given to a new parser, none of them empty,
-- without an error, and makes the calls for these messages and any calls without effect in between,
-- every call of http_message_parser_consume_buffer succeeds and leaves its buffer empty, and the
-- handler is given exactly these messages in order, each with its start line (the version, and the
-- method and the target or the status and the reason), its headers and its body put together.
pub connection-Serves :
    (llhttp : Llhttp) (m : Memory) (handle : llhttp.Handle) (bs : List IoBuffer)
    (ts : List Transmission) (es : List Event)
    → All Contents.IsValid bs
    → All IsValid ts
    → Reads llhttp m handle (map contents bs) es
    → essential es ≡ all_events ts
    → Serves llhttp m handle bs ts
unfolding connection parse
connection-Serves llhttp m handle bs ts es valid sent reads e =
    let r = messages-Parses m ts es sent e in
    let (p, makes, runs) =
      bind_ok (http_message_parser_new m) (λ p. run m p es) (r.parser, r.messages) r.runs in
    let c =
      buffers_lem llhttp m bs (record { handle = handle; parser = p; delivered = [] }) es r.parser
        r.messages valid reads runs in
    record {
      after = c.after;
      runs = rw makes c.runs;
      messages =
          subst (λ ms. MessagesAre m.uninitialised ms (map (received (block_of m)) ts))
            (sym c.messages) r.same;
    }
