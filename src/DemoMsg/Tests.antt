-- ===== src/DemoMsg/Tests.antt =====
-- Tests of the demo message parser, and its theorems at concrete inputs.
use network_c_http.Base.{ℕ, zero, suc, ◌≡◌, refl, List, [], ◌∷◌, All, ok, arith, inl, inr, some}
use network_c_http.Base.Cells.{segment}
use network_c_http.IoBuffer.{IoBuffer}
use network_c_http.IoBuffer.Contents.{IsValid, contents}
use network_c_http.DemoMsg.{
  DemoMsgParser, idle, in_body, demo_msg_parser_new, demo_msg_parser_consume,
}
use network_c_http.DemoMsg.Frames.{frame, frames, Sendable}
use network_c_http.DemoMsg.Steps.{IsMessage}
use network_c_http.DemoMsg.Requests.{request_of, get_is_request_lem}
use network_c_http.DemoMsg.{DemoMsg, demo_msg_get_is_request}
use network_c_http.DemoMsg.Refine.{Matches, Ready, consume-frames, consume-resync}

abbrev byte : List ℕ → ℕ → ℕ
byte [] i = 0
byte (x ∷ xs) zero = x
byte (x ∷ xs) (suc i) = byte xs i

-- Two frames, `Hi` and one with no body, from offset 1 on.
abbrev received : IoBuffer
received = record {
  mem = record { size = 9; cell = byte (9 ∷ 2 ∷ 72 ∷ 105 ∷ 3 ∷ 2 ∷ 3 ∷ []) };
  allocated_capacity = 9;
  buffer_capacity = 8;
  buffer_ptr = 1;
  buffer_length = 8;
  buffer_remaining = 6;
}

received-IsValid : IsValid received
received-IsValid = record { room = refl; spare = refl; fits = omega arith }

new-Ready : Ready demo_msg_parser_new idle []
unfolding demo_msg_parser_new
new-Ready = inr (refl, refl, refl)

abbrev bodies : List (List ℕ)
bodies = (72 ∷ 105 ∷ []) ∷ [] ∷ []

bodies-Sendable : All Sendable bodies
bodies-Sendable = (
  record { printable = (refl, (refl, tt)); short = omega arith },
  (record { printable = tt; short = omega arith }, tt),
)

received-frames : contents received ≡ frames bodies
unfolding segment
received-frames = refl

consume-frames_example :
    Matches (demo_msg_parser_consume (λ i. 0) demo_msg_parser_new received) (ok (idle, [], bodies))
consume-frames_example =
    consume-frames (λ i. 0) demo_msg_parser_new received bodies received-IsValid (omega arith)
      new-Ready received-frames bodies-Sendable

-- A parser with `a` in the body, and a buffer with a line feed and the frame of `b`.
abbrev broken : DemoMsgParser
broken = record {
  state = in_body;
  current_message = some (record {
    body = record {
      mem = record { size = 1025; cell = byte (97 ∷ []) };
      allocated_capacity = 1025;
      buffer_capacity = 1024;
      buffer_ptr = 0;
      buffer_length = 1024;
      buffer_remaining = 1;
    };
  });
}

broken-Ready : Ready broken in_body (97 ∷ [])
unfolding segment
broken-Ready = inl (record {
  state = refl;
  message = _;
  current_is = refl;
  is_message = record {
    valid = record { room = refl; spare = refl; fits = omega arith };
    start = refl;
    limit = refl;
    bytes = refl;
  };
})

abbrev line_feed : IoBuffer
line_feed = record received {
  mem = record { size = 9; cell = byte (0 ∷ 10 ∷ 2 ∷ 98 ∷ 3 ∷ []) };
  buffer_remaining = 4;
}

line_feed-IsValid : IsValid line_feed
line_feed-IsValid = record { room = refl; spare = refl; fits = omega arith }

line_feed-frame : contents line_feed ≡ 10 ∷ frame (98 ∷ [])
unfolding segment
line_feed-frame = refl

consume-resync_example :
    Matches (demo_msg_parser_consume (λ i. 0) broken line_feed) (ok (idle, [], (97 ∷ 98 ∷ []) ∷ []))
consume-resync_example =
    consume-resync (λ i. 0) broken line_feed (97 ∷ []) (98 ∷ []) 10 line_feed-IsValid (omega arith)
      broken-Ready line_feed-frame (omega arith) refl (omega arith) (refl, tt) (omega arith)

-- A message with the body `R1`.
abbrev request : DemoMsg
request = record {
  body = record received {
    mem = record { size = 1025; cell = byte (82 ∷ 49 ∷ []) };
    allocated_capacity = 1025;
    buffer_capacity = 1024;
    buffer_ptr = 0;
    buffer_remaining = 2;
  };
}

request-IsMessage : IsMessage request (82 ∷ 49 ∷ [])
unfolding segment
request-IsMessage = record {
  valid = record { room = refl; spare = refl; fits = omega arith };
  start = refl;
  limit = refl;
  bytes = refl;
}

kind_of_request : demo_msg_get_is_request request ≡ request_of (82 ∷ 49 ∷ [])
kind_of_request = get_is_request_lem request (82 ∷ 49 ∷ []) request-IsMessage
