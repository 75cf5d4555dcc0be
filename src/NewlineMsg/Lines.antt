-- ===== src/NewlineMsg/Lines.antt =====
-- What the newline parser makes of a text: its lines.
use network_c_http.Base.{
  ℕ, zero, suc, ◌≡◌, refl, ap, Bool, false, ◌||◌, List, [], ◌∷◌, ◌++◌, length, arith, Outcome, ok,
  abort, fault, ◌>>=◌, if◌then◌else◌, ltb, ◌==◌, lt→ltb, inl, inr, Bool-cases,
}
use native.Mathlib.Decide.{dec_lt}
use network_c_http.Base.Cells.{length-segment}
use network_c_http.IoBuffer.{IoBuffer, iobuffer_new, iobuffer_empty, iobuffer_data_len}
use network_c_http.IoBuffer.Contents.{IsValid, contents}
use network_c_http.IoBuffer.Updates.{consumed, consumed-IsValid}
use network_c_http.IoBuffer.Bytes.{
  Carries, new-Carries, push_back-room, push_back-full, pop_front-first, consumed-rest,
}
use network_c_http.NewlineMsg.{
  NewlineMsg, NewlineMsgParser, newline_msg_new, take_byte, newline_loop,
  newline_msg_parser_consume,
}

abbrev pub is_end : ℕ → Bool
is_end ch = ch == 10 || ch == 0

-- The lines of a text, and the line that is left unfinished, behind the bytes `line` of a line;
-- a line of more than 4096 bytes is refused.
unfoldable pub lines : List ℕ → List ℕ → Outcome (List ℕ × List (List ℕ))
lines line [] = ok (line, [])
lines line (ch ∷ chs) =
    if is_end ch
    then (lines [] chs >>= λ (last, rest). ok (last, line ∷ rest))
    else if ltb (length line) 4096
    then lines (line ++ (ch ∷ [])) chs
    else abort

-- A message with these bytes.
abbrev pub IsLine : NewlineMsg → List ℕ → Type 0
IsLine m line = Carries m.iob 4096 line

abbrev pub AreLines : List NewlineMsg → List (List ℕ) → Type 0
AreLines [] [] = Unit
AreLines (m ∷ ms) (l ∷ ls) = IsLine m l × AreLines ms ls
AreLines [] (l ∷ ls) = ⊥
AreLines (m ∷ ms) [] = ⊥

-- A call that took all of its buffer.
abbrev pub Splits :
    Outcome (NewlineMsgParser × IoBuffer × List NewlineMsg)
    → Outcome (List ℕ × List (List ℕ))
    → Type 0
Splits (ok (p, iob, ms)) (ok (line, ls)) = IsLine p.msg line × (contents iob ≡ []) × AreLines ms ls
Splits abort abort = Unit
Splits r r' = ⊥

module _ (uninitialised : ℕ → ℕ) where
  sent_before :
      (m : NewlineMsg) (line : List ℕ) (r : Outcome (NewlineMsgParser × IoBuffer × List NewlineMsg))
      (r' : Outcome (List ℕ × List (List ℕ)))
      → IsLine m line
      → Splits r r'
      → Splits
          (r >>= λ (p, iob, ms). ok (p, iob, (m ∷ []) ++ ms))
          (r' >>= λ (last, rest). ok (last, line ∷ rest))
  sent_before m line (ok (p, iob, ms)) (ok (last, ls)) h s = (s.0, s.1, (h, s.2))
  sent_before m line abort abort h s = tt
  sent_before m line (ok x) abort h s = absurd s
  sent_before m line (ok x) fault h s = absurd s
  sent_before m line abort (ok y) h s = absurd s
  sent_before m line abort fault h s = absurd s
  sent_before m line fault r' h s = absurd s

  bind-same :
      (r : Outcome (NewlineMsgParser × IoBuffer × List NewlineMsg))
      → (r >>= λ (p, iob, ms). ok (p, iob, [] ++ ms)) ≡ r
  bind-same (ok x) = refl
  bind-same abort = refl
  bind-same fault = refl

  loop-Splits :
      (n : ℕ) (iob : IoBuffer) (cs : List ℕ) (p : NewlineMsgParser) (line : List ℕ)
      → IsValid iob
      → iob.buffer_remaining ≡ n
      → contents iob ≡ cs
      → IsLine p.msg line
      → Splits (newline_loop uninitialised n p iob) (lines line cs)
  unfolding newline_loop lines take_byte newline_msg_new iobuffer_new iobuffer_empty
  loop-Splits zero iob [] p line v e c h = (h, c, tt)
  loop-Splits zero iob (ch ∷ cs) p line v e c h =
      absurd (
        omega (arith, ap length c, length-segment iob.mem.cell iob.buffer_ptr iob.buffer_remaining))
  loop-Splits (suc n) iob [] p line v e c h =
      absurd (
        omega (arith, ap length c, length-segment iob.mem.cell iob.buffer_ptr iob.buffer_remaining))
  loop-Splits (suc n) iob (ch ∷ cs) p line v e c h =
      let non_empty : (iob.buffer_remaining == 0) ≡ false = ground arith in
      let iob' = consumed iob 1 in
      let v' = consumed-IsValid iob 1 v (omega arith) in
      let left = consumed-rest iob n ch cs e c in
      rw (non_empty, pop_front-first iob n ch cs v e c)
        (elim (Bool-cases (is_end ch)) [
          | inl f ↦
              let fresh : NewlineMsgParser = record { msg = newline_msg_new uninitialised } in
              let next =
                loop-Splits n iob' cs fresh [] v' (omega arith) left
                  (new-Carries uninitialised 4096) in
              rw f (
                sent_before p.msg line (newline_loop uninitialised n fresh iob') (lines [] cs) h
                  next)
          | inr f ↦ elim (dec_lt (length line) 4096) [
            | yes q ↦
                let (b, r, k) = push_back-room p.msg.iob 4096 line ch h q in
                let grown : NewlineMsgParser = record { msg = record { iob = b } } in
                let next =
                  loop-Splits n iob' cs grown (line ++ (ch ∷ [])) v' (omega arith) left k in
                rw
                  (
                    f,
                    r,
                    lt→ltb (length line) 4096 q,
                    bind-same (newline_loop uninitialised n grown iob'),
                  )
                  next
            | no q ↦
                let full : ltb (length line) 4096 ≡ false = ground arith in
                rw (f, push_back-full p.msg.iob 4096 line ch h (omega arith), full) tt
          ]
        ])

  -- On a valid buffer, `newline_msg_parser_consume` takes all bytes and calls back with one message
  -- for each line of the text, the first one behind the bytes that the parser already has, and keeps
  -- the bytes of the unfinished line; a line of more than 4096 bytes fails an assertion.
  pub consume-Splits :
      (p : NewlineMsgParser) (iob : IoBuffer) (line : List ℕ)
      → IsValid iob
      → IsLine p.msg line
      → Splits (newline_msg_parser_consume uninitialised p iob) (lines line (contents iob))
  unfolding newline_msg_parser_consume iobuffer_data_len
  consume-Splits p iob line v h =
      loop-Splits iob.buffer_remaining iob (contents iob) p line v refl refl h
