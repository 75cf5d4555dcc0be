-- ===== src/DemoMsg/Requests.antt =====
-- Whether a demo message is a request.
use network_c_http.Base.{
  ℕ, suc, ◌≤◌, ◌≡◌, refl, ap, Bool, true, List, [], ◌∷◌, length, arith, Outcome, ok, abort, ltb,
  ◌==◌, lt→ltb,
}
use network_c_http.Base.Cells.{length-segment}
use network_c_http.IoBuffer.Bytes.{load-first}
use network_c_http.DemoMsg.{DemoMsg, demo_msg_get_is_request}
use network_c_http.DemoMsg.Steps.{IsMessage}

-- A body of two characters or more is a request if it begins with `R`.
pub request_of : List ℕ → Outcome Bool
request_of [] = abort
request_of (ch ∷ []) = abort
request_of (ch ∷ next ∷ rest) = ok (ch == 82)

short_body : (m : DemoMsg) → m.body.buffer_remaining ≤ 1 → demo_msg_get_is_request m ≡ abort
unfolding demo_msg_get_is_request
short_body m h = ground arith

-- Of a message with a body, `demo_msg_get_is_request` tells whether the body begins with `R`; of a
-- body of less than two characters it fails an assertion.
pub get_is_request_lem :
    (m : DemoMsg) (body : List ℕ) → IsMessage m body → demo_msg_get_is_request m ≡ request_of body
unfolding demo_msg_get_is_request request_of
get_is_request_lem m [] h =
    let len = length-segment m.body.mem.cell m.body.buffer_ptr m.body.buffer_remaining in
    short_body m (omega (arith, len, ap length h.bytes))
get_is_request_lem m (ch ∷ []) h =
    let len = length-segment m.body.mem.cell m.body.buffer_ptr m.body.buffer_remaining in
    short_body m (omega (arith, len, ap length h.bytes))
get_is_request_lem m (ch ∷ next ∷ rest) h =
    let len = length-segment m.body.mem.cell m.body.buffer_ptr m.body.buffer_remaining in
    let n = suc (length rest) in
    let e : m.body.buffer_remaining ≡ suc n = omega (arith, len, ap length h.bytes) in
    let long : ltb 1 m.body.buffer_remaining ≡ true =
      lt→ltb 1 m.body.buffer_remaining (omega arith) in
    rw (long, load-first m.body n ch (next ∷ rest) h.valid e h.bytes) refl
