-- ===== src/NewlineMsg/Tests.antt =====
-- Tests of the newline message parser, and its theorem at a concrete input.
use network_c_http.Base.{ℕ, zero, suc, ◌≡◌, refl, List, [], ◌∷◌, ok, arith}
use network_c_http.IoBuffer.{IoBuffer}
use network_c_http.IoBuffer.Contents.{IsValid, contents}
use network_c_http.IoBuffer.Bytes.{new-Carries}
use network_c_http.IoBuffer.{iobuffer_new}
use network_c_http.NewlineMsg.{newline_msg_new, newline_msg_parser_new, newline_msg_parser_consume}
use network_c_http.NewlineMsg.Lines.{lines, IsLine, Splits, consume-Splits}

abbrev byte : List ℕ → ℕ → ℕ
byte [] i = 0
byte (x ∷ xs) zero = x
byte (x ∷ xs) (suc i) = byte xs i

-- `ab`, a line feed, a line feed, `c`
abbrev text : IoBuffer
text = record {
  mem = record { size = 7; cell = byte (97 ∷ 98 ∷ 10 ∷ 10 ∷ 99 ∷ []) };
  allocated_capacity = 7;
  buffer_capacity = 6;
  buffer_ptr = 0;
  buffer_length = 6;
  buffer_remaining = 5;
}

text-IsValid : IsValid text
text-IsValid = record { room = refl; spare = refl; fits = omega arith }

text-lines : lines [] (97 ∷ 98 ∷ 10 ∷ 10 ∷ 99 ∷ []) ≡ ok (99 ∷ [], (97 ∷ 98 ∷ []) ∷ [] ∷ [])
unfolding lines
text-lines = refl

new-IsLine : IsLine (newline_msg_parser_new (λ i. 0)).msg []
unfolding newline_msg_parser_new newline_msg_new iobuffer_new
new-IsLine = new-Carries (λ i. 0) 4096

consume-Splits_example :
    Splits
      (newline_msg_parser_consume (λ i. 0) (newline_msg_parser_new (λ i. 0)) text)
      (lines [] (contents text))
consume-Splits_example =
    consume-Splits (λ i. 0) (newline_msg_parser_new (λ i. 0)) text [] text-IsValid new-IsLine
