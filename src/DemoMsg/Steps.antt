-- ===== src/DemoMsg/Steps.antt =====
-- One byte: a step of the parser does what `parse_byte` does.
use network_c_http.Base.{
  ℕ, ◌≡◌, refl, Bool, true, false, List, [], ◌∷◌, length, arith, some, Outcome, ok, abort, fault,
  ltb, leb, ◌==◌, lt→ltb, inl, inr, Bool-cases,
}
use native.Mathlib.Decide.{dec_lt}
use network_c_http.IoBuffer.Bytes.{Carries, new-Carries, push_back-room, push_back-full}
use network_c_http.DemoMsg.{
  State, idle, in_body, error_recovery, soh_wait, opcode, stx_wait, ext_wait, lrc, eot_wait, ch_stx,
  ch_etx, is_print, DemoMsg, DemoMsgParser, demo_msg_new, current, body_case, step,
}
use network_c_http.DemoMsg.Frames.{Parsed, parse_byte}

-- A message whose body is a valid buffer that begins at the start of its memory.
abbrev pub IsMessage : DemoMsg → List ℕ → Type 0
IsMessage m body = Carries m.body 1024 body

-- A parser in a state, with a current message that has this body.
pub record Holds (p : DemoMsgParser) (s : State) (body : List ℕ) : Type 0 where
  pub state : p.state ≡ s
  pub message : DemoMsg
  pub current_is : p.current_message ≡ some message
  pub is_message : IsMessage message body

-- Messages with these bodies.
abbrev pub Carry : List DemoMsg → List (List ℕ) → Type 0
Carry [] [] = Unit
Carry (m ∷ ms) (b ∷ bs) = IsMessage m b × Carry ms bs
Carry [] (b ∷ bs) = ⊥
Carry (m ∷ ms) [] = ⊥

abbrev pub StepMatches : Outcome (DemoMsgParser × List DemoMsg) → Parsed → Type 0
StepMatches (ok (p, ms)) (ok (s, body, bs)) = Holds p s body × Carry ms bs
StepMatches abort abort = Unit
StepMatches fault fault = Unit
StepMatches r r' = ⊥

module _ (uninitialised : ℕ → ℕ) where
  pub new-IsMessage : IsMessage (demo_msg_new uninitialised) []
  unfolding demo_msg_new
  new-IsMessage = new-Carries uninitialised 1024

  ascii-StepMatches :
      (last : Bool) (p : DemoMsgParser) (body : List ℕ) (ch : ℕ)
      → Holds p in_body body
      → leb 128 ch ≡ false
      → StepMatches (body_case uninitialised p ch) (parse_byte last in_body body ch)
  unfolding body_case parse_byte current
  ascii-StepMatches last p body ch h ascii = elim (Bool-cases (is_print ch)) [
    | inl e ↦ elim (dec_lt (length body) 1024) [
      | yes q ↦
          let (b, r, m) = push_back-room h.message.body 1024 body ch h.is_message q in
          rw (h.current_is, ascii, e, r, lt→ltb (length body) 1024 q)
            (
              record {
                state = h.state;
                message = record { body = b };
                current_is = refl;
                is_message = m;
              },
              tt,
            )
      | no q ↦
          let full : ltb (length body) 1024 ≡ false = ground arith in
          rw
            (
              h.current_is,
              ascii,
              e,
              push_back-full h.message.body 1024 body ch h.is_message (omega arith),
              full,
            )
            tt
    ]
    | inr e ↦ elim (Bool-cases (ch == ch_etx)) [
      | inl f ↦
          rw (h.current_is, ascii, e, f)
            (
              record {
                state = refl;
                message = demo_msg_new uninitialised;
                current_is = refl;
                is_message = new-IsMessage;
              },
              (h.is_message, tt),
            )
      | inr f ↦
          rw (h.current_is, ascii, e, f)
            (
              record {
                state = refl;
                message = h.message;
                current_is = refl;
                is_message = h.is_message;
              },
              tt,
            )
    ]
  ]

  body_case-StepMatches :
      (last : Bool) (p : DemoMsgParser) (body : List ℕ) (ch : ℕ)
      → Holds p in_body body
      → StepMatches (body_case uninitialised p ch) (parse_byte last in_body body ch)
  unfolding body_case parse_byte current
  body_case-StepMatches last p body ch h = elim (Bool-cases (leb 128 ch)) [
    | inl e ↦ rw (h.current_is, e) tt
    | inr e ↦ ascii-StepMatches last p body ch h e
  ]

  -- The parser in another state, with the same message.
  Holds-in :
      (p : DemoMsgParser) (s s' : State) (body : List ℕ)
      → Holds p s body
      → Holds (record p { state = s' }) s' body
  Holds-in p s s' body h = record {
    state = refl;
    message = h.message;
    current_is = h.current_is;
    is_message = h.is_message;
  }

  -- The parser with a new message.
  new_current :
      (p : DemoMsgParser) (s : State)
      → Holds (record p { state = s; current_message = some (demo_msg_new uninitialised) }) s []
  new_current p s = record {
    state = refl;
    message = demo_msg_new uninitialised;
    current_is = refl;
    is_message = new-IsMessage;
  }

  pub step-StepMatches :
      (last : Bool) (p : DemoMsgParser) (s : State) (body : List ℕ) (ch : ℕ)
      → Holds p s body
      → StepMatches (step uninitialised last p ch) (parse_byte last s body ch)
  unfolding step parse_byte
  step-StepMatches last p idle body ch h = rw h.state (elim (Bool-cases (ch == ch_stx)) [
    | inl e ↦ rw e (Holds-in p idle in_body body h, tt)
    | inr e ↦ rw e (Holds-in p idle idle body h, tt)
  ])
  step-StepMatches last p in_body body ch h = rw h.state (
      body_case-StepMatches last (record p { state = in_body }) body ch
        (Holds-in p in_body in_body body h))
  step-StepMatches true p error_recovery body ch h = rw h.state (elim (Bool-cases (ch == ch_stx)) [
    | inl e ↦ rw e (new_current p error_recovery, tt)
    | inr e ↦ rw e (new_current p error_recovery, tt)
  ])
  step-StepMatches false p error_recovery body ch h = rw h.state (elim (Bool-cases (ch == ch_stx)) [
    | inl e ↦ rw e (Holds-in p error_recovery in_body body h, tt)
    | inr e ↦ rw e (Holds-in p error_recovery error_recovery body h, tt)
  ])
  step-StepMatches last p soh_wait body ch h = rw h.state tt
  step-StepMatches last p opcode body ch h = rw h.state tt
  step-StepMatches last p stx_wait body ch h = rw h.state tt
  step-StepMatches last p ext_wait body ch h = rw h.state tt
  step-StepMatches last p lrc body ch h = rw h.state tt
  step-StepMatches last p eot_wait body ch h = rw h.state tt
