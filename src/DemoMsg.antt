-- ===== src/DemoMsg.antt =====
-- The demo message and its parser: apps/msg/demo_msg.c and apps/msg/demo_msg_parser.c.
-- The calls of the callback, all with error 0, are the list of messages that a function returns
-- beside its result; `is_request` of the message is never used and left out.
pub mod Frames
pub mod Steps
pub mod Refine
pub mod Requests
mod Tests
use network_c_http.Base.{
  ℕ, zero, suc, ◌+◌, Bool, true, false, not, ◌&&◌, List, [], ◌∷◌, ◌++◌, Option, none, some, Outcome,
  ok, abort, fault, ◌>>=◌, ◌>>◌, assert, if◌then◌else◌, leb, ltb, ◌==◌,
}
use network_c_http.Base.Cells.{load, store}
use network_c_http.IoBuffer.{
  IoBuffer, iobuffer_new_with_capacity, iobuffer_data_len, iobuffer_consume,
  iobuffer_commit_push_back,
}

pub data State : Type 0 where
  idle : State
  soh_wait : State
  opcode : State
  stx_wait : State
  in_body : State
  ext_wait : State
  lrc : State
  eot_wait : State
  error_recovery : State

abbrev pub ch_stx : ℕ
ch_stx = 2

abbrev pub ch_etx : ℕ
ch_etx = 3

-- `isprint` of a byte in the "C" locale
abbrev pub is_print : ℕ → Bool
is_print ch = leb 32 ch && leb ch 126

pub record DemoMsg : Type 0 where
  pub body : IoBuffer

pub record DemoMsgParser : Type 0 where
  pub state : State
  pub current_message : Option DemoMsg

unfoldable pub demo_msg_new : (uninitialised : ℕ → ℕ) → DemoMsg
demo_msg_new uninitialised = record { body = iobuffer_new_with_capacity uninitialised 1024 }

unfoldable pub get_body_first_char : DemoMsg → Outcome ℕ
unfolding iobuffer_data_len
get_body_first_char m = do
  assert (ltb 1 (iobuffer_data_len m.body))
  load m.body.mem m.body.buffer_ptr

unfoldable pub set_body_first_char : DemoMsg → ℕ → Outcome DemoMsg
set_body_first_char m first_byte = do
  mem ← store m.body.mem m.body.buffer_ptr first_byte
  ok (record { body = record m.body { mem = mem } })

-- The request begins with `R`.
unfoldable pub demo_msg_get_is_request : DemoMsg → Outcome Bool
unfolding get_body_first_char
demo_msg_get_is_request m = do ch ← get_body_first_char m; ok (ch == 82)

unfoldable pub demo_msg_get_body : DemoMsg → IoBuffer
demo_msg_get_body m = m.body

unfoldable pub demo_msg_get_content : DemoMsg → IoBuffer
demo_msg_get_content m = m.body

-- The old body is freed.
unfoldable pub demo_msg_set_content : DemoMsg → IoBuffer → DemoMsg
demo_msg_set_content m content = record { body = content }

unfoldable pub demo_msg_set_body : DemoMsg → IoBuffer → DemoMsg
unfolding demo_msg_set_content
demo_msg_set_body m iob = demo_msg_set_content m iob

unfoldable pub demo_msg_parser_new : DemoMsgParser
demo_msg_parser_new = record { state = idle; current_message = none }

-- `*this->m_current_message_ptr`
unfoldable pub current : DemoMsgParser → Outcome DemoMsg
current p = elim p.current_message [ none ↦ fault | some m ↦ ok m ]

module _ (uninitialised : ℕ → ℕ) where
  -- The case STATE_BODY of the switch. `demo_msg_parser_consume` has seen to it that there is a
  -- current message. `ch` is a `char`, which is signed: a byte of 128 or more is a negative argument of
  -- `isprint`, which is undefined behaviour.
  unfoldable pub body_case : DemoMsgParser → ℕ → Outcome (DemoMsgParser × List DemoMsg)
  unfolding current demo_msg_new
  body_case p ch = do
    m ← current p
    if leb 128 ch
        then fault
        else if is_print ch
        then (do
          body ← iobuffer_commit_push_back m.body ch
          ok (record p { current_message = some (record { body = body }) }, []))
        else if ch == ch_etx
        then ok
            (record { state = idle; current_message = some (demo_msg_new uninitialised) }, m ∷ [])
        else ok (record p { state = error_recovery }, [])

  -- The switch, for a byte that is the last one of its buffer or not.
  unfoldable pub step : Bool → DemoMsgParser → ℕ → Outcome (DemoMsgParser × List DemoMsg)
  unfolding body_case demo_msg_new
  step last p ch = elim p.state [
    | idle ↦ ok (if ch == ch_stx then record p { state = in_body } else p, [])
    | in_body ↦ body_case p ch
    | error_recovery ↦ ok (
      if ch == ch_stx && not last
          then record p { state = in_body }
          else if last
          then record p { current_message = some (demo_msg_new uninitialised) }
          else p,
      [],
    )
    | _ ↦ abort
  ]

  -- The loop, with `n` rounds left at index `i`; `start` is the data of the buffer at the beginning,
  -- and `length` its length.
  unfoldable pub consume_loop :
      (start length n i : ℕ)
      → DemoMsgParser
      → IoBuffer
      → Outcome (DemoMsgParser × IoBuffer × List DemoMsg)
  unfolding step
  consume_loop start length zero i p iob = ok (p, iob, [])
  consume_loop start length (suc n) i p iob = do
    ch2 ← load iob.mem iob.buffer_ptr
    iob' ← iobuffer_consume iob 1
    ch ← load iob'.mem (start + i)
    assert (ch == ch2)
    (p', sent) ← step (i + 1 == length) p ch
    (p2, iob2, rest) ← consume_loop start length n (i + 1) p' iob'
    ok (p2, iob2, sent ++ rest)

  unfoldable pub demo_msg_parser_consume :
      DemoMsgParser → IoBuffer → Outcome (DemoMsgParser × IoBuffer × List DemoMsg)
  unfolding demo_msg_new iobuffer_data_len
  demo_msg_parser_consume p iob = do
    let length = iobuffer_data_len iob
    let m : DemoMsg = elim p.current_message [ none ↦ demo_msg_new uninitialised | some m ↦ m ]
    assert (not (length == 0))
    consume_loop iob.buffer_ptr length length 0 (record p { current_message = some m }) iob
