-- ===== src/NewlineMsg.antt =====
-- The newline message and its parser: apps/msg/newline_msg.c and apps/msg/newline_msg_parser.c.
-- The calls of the callback, all with error 0, are the list of messages that the function returns
-- beside its result. Of the parser only the message is ever used.
pub mod Lines
mod Tests
use network_c_http.Base.{
  ℕ, zero, suc, ◌*◌, Bool, true, false, ◌||◌, List, [], ◌∷◌, ◌++◌, Outcome, ok, ◌>>=◌,
  if◌then◌else◌, ◌==◌,
}
use network_c_http.IoBuffer.{
  IoBuffer, iobuffer_new, iobuffer_data_len, iobuffer_empty, iobuffer_consume_pop_front,
  iobuffer_commit_push_back,
}

pub record NewlineMsg : Type 0 where
  pub iob : IoBuffer

pub record NewlineMsgParser : Type 0 where
  pub msg : NewlineMsg

module _ (uninitialised : ℕ → ℕ) where
  unfoldable pub newline_msg_new : NewlineMsg
  newline_msg_new = record { iob = iobuffer_new uninitialised }

  unfoldable pub newline_msg_parser_new : NewlineMsgParser
  unfolding newline_msg_new
  newline_msg_parser_new = record { msg = newline_msg_new }

  -- One round of the loop, for a byte that was taken.
  unfoldable pub take_byte : NewlineMsgParser → ℕ → Outcome (NewlineMsgParser × List NewlineMsg)
  unfolding newline_msg_new
  take_byte p ch =
      if ch == 10 || ch == 0 then ok (record { msg = newline_msg_new }, p.msg ∷ []) else do
        iob ← iobuffer_commit_push_back p.msg.iob ch
        ok (record { msg = record { iob = iob } }, [])

  -- The loop, for `fuel` rounds at most.
  unfoldable pub newline_loop :
      ℕ → NewlineMsgParser → IoBuffer → Outcome (NewlineMsgParser × IoBuffer × List NewlineMsg)
  unfolding take_byte
  newline_loop zero p iob = ok (p, iob, [])
  newline_loop (suc fuel) p iob = if iobuffer_empty iob then ok (p, iob, []) else do
    (iob', ch) ← iobuffer_consume_pop_front iob
    (p', sent) ← take_byte p ch
    (p2, iob2, rest) ← newline_loop fuel p' iob'
    ok (p2, iob2, sent ++ rest)

  -- Each round takes a byte, so a round for each byte is enough.
  unfoldable pub newline_msg_parser_consume :
      NewlineMsgParser → IoBuffer → Outcome (NewlineMsgParser × IoBuffer × List NewlineMsg)
  unfolding newline_loop
  newline_msg_parser_consume p iob = newline_loop (iobuffer_data_len iob) p iob
