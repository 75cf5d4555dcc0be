-- ===== src/DemoMsg/Frames.antt =====
-- What the parser makes of a text, on lists of bytes.
use network_c_http.Base.{
  ℕ, ◌+◌, ◌≤◌, ◌≡◌, ◌≢◌, refl, ap, ◌∙◌, Bool, true, false, not, ◌&&◌, List, [], ◌∷◌, ◌++◌,
  append_assoc, append-nil, length, length-append, All, arith, Outcome, ok, abort, fault, lt→ltb,
  ◌>>=◌, if◌then◌else◌, ltb, ◌==◌, leb, ◌<◌,
}
use network_c_http.DemoMsg.{State, idle, in_body, error_recovery, ch_stx, ch_etx, is_print}

-- A state of the parser, the body so far, and the bodies of the messages that are complete.
abbrev pub Parsed : Type 0
Parsed = Outcome (State × List ℕ × List (List ℕ))

-- One byte, the last one of its buffer or not, in a state with a body so far.
unfoldable pub parse_byte : Bool → State → List ℕ → ℕ → Parsed
parse_byte last idle body ch = ok (if ch == ch_stx then in_body else idle, body, [])
parse_byte last in_body body ch =
    if leb 128 ch
    then fault
    else if is_print ch
    then if ltb (length body) 1024 then ok (in_body, body ++ (ch ∷ []), []) else abort
    else if ch == ch_etx
    then ok (idle, [], body ∷ [])
    else ok (error_recovery, body, [])
parse_byte last error_recovery body ch =
    if ch == ch_stx && not last
    then ok (in_body, body, [])
    else ok (error_recovery, if last then [] else body, [])
parse_byte last s body ch = abort

abbrev pub is_empty : List ℕ → Bool
is_empty [] = true
is_empty (x ∷ xs) = false

unfoldable pub parse : State → List ℕ → List ℕ → Parsed
parse s body [] = ok (s, body, [])
parse s body (ch ∷ chs) = do
  (s', body', sent) ← parse_byte (is_empty chs) s body ch
  (s2, body2, rest) ← parse s' body' chs
  ok (s2, body2, sent ++ rest)

-- The text of a message.
abbrev pub frame : List ℕ → List ℕ
frame body = ch_stx ∷ (body ++ (ch_etx ∷ []))

abbrev pub frames : List (List ℕ) → List ℕ
frames [] = []
frames (b ∷ bs) = frame b ++ frames bs

-- A body that a message can carry.
pub record Sendable (body : List ℕ) : Type 0 where
  pub printable : All (λ ch. is_print ch ≡ true) body
  pub short : length body ≤ 1024

abbrev pub with_body : List ℕ → Parsed → Parsed
with_body b r = r >>= λ (s, body, sent). ok (s, body, b ∷ sent)

bind-same : (r : Parsed) → (r >>= λ (s, body, sent). ok (s, body, [] ++ sent)) ≡ r
bind-same (ok x) = refl
bind-same abort = refl
bind-same fault = refl

parse-body :
    (acc body rest : List ℕ)
    → All (λ ch. is_print ch ≡ true) body
    → length acc + length body ≤ 1024
    → parse in_body acc (body ++ (ch_etx ∷ rest)) ≡ with_body (acc ++ body) (parse idle [] rest)
unfolding parse parse_byte
parse-body acc [] rest p h = rw (append-nil acc) refl
parse-body acc (ch ∷ body) rest p h =
    let room : ltb (length acc) 1024 ≡ true = lt→ltb (length acc) 1024 (omega arith) in
    let ascii : leb 128 ch ≡ false = ground (arith, p.0) in
    let more = length-append acc (ch ∷ []) in
    let step = parse-body (acc ++ (ch ∷ [])) body rest p.1 (omega (arith, more)) in
    rw (ascii, p.0, room)
      (bind-same (parse in_body (acc ++ (ch ∷ [])) (body ++ (ch_etx ∷ rest)))
        ∙ step
        ∙ ap (λ b. with_body b (parse idle [] rest)) (append_assoc acc (ch ∷ []) body))

not_empty : (xs : List ℕ) (y : ℕ) (ys : List ℕ) → is_empty (xs ++ (y ∷ ys)) ≡ false
not_empty [] y ys = refl
not_empty (x ∷ xs) y ys = refl

-- A text of frames, each with a body of at most 1024 printable characters, is parsed into those
-- bodies, and the parser is then idle with no body.
pub parse-frames :
    (bs : List (List ℕ)) → All Sendable bs → parse idle [] (frames bs) ≡ ok (idle, [], bs)
unfolding parse parse_byte
parse-frames [] p = refl
parse-frames (b ∷ bs) p =
    let split = append_assoc b (ch_etx ∷ []) (frames bs) in
    let first = parse-body [] b (frames bs) p.0.printable (omega (arith, p.0.short)) in
    rw split (
      bind-same (parse in_body [] (b ++ (ch_etx ∷ frames bs)))
      ∙ first
      ∙ ap (with_body b) (parse-frames bs p.1))

-- A byte below 128 that a body cannot hold does not end the message: if a new frame begins behind it, in the
-- same buffer, then the bytes before it stand before the body of the new frame.
pub parse-resync :
    (acc body rest : List ℕ) (ch : ℕ)
    → ch < 128
    → is_print ch ≡ false
    → ch ≢ ch_etx
    → All (λ c. is_print c ≡ true) body
    → length acc + length body ≤ 1024
    → parse in_body acc (ch ∷ ch_stx ∷ (body ++ (ch_etx ∷ rest)))
      ≡ with_body (acc ++ body) (parse idle [] rest)
unfolding parse parse_byte
parse-resync acc body rest ch below bad other p h =
    let not_etx : (ch == ch_etx) ≡ false = ground (arith, other) in
    let more : is_empty (body ++ (ch_etx ∷ rest)) ≡ false = not_empty body ch_etx rest in
    let tail = parse in_body acc (body ++ (ch_etx ∷ rest)) in
    let ascii : leb 128 ch ≡ false = ground (arith, below) in
    rw (ascii, bad, not_etx, more)
      (bind-same (tail >>= λ (s, b, sent). ok (s, b, [] ++ sent))
        ∙ bind-same tail
        ∙ parse-body acc body rest p h)
