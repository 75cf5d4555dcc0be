-- ===== src/Cbuffer/Tests.antt =====
-- Tests of the character buffer, and its theorems at concrete inputs.
use network_c_http.Base.{ℕ, ◌+◌, ◌≡◌, refl, List, [], ◌∷◌, ◌++◌, ok, fault, ◌>>=◌, arith}
use network_c_http.Base.Cells.{update, blit, segment}
use network_c_http.Cbuffer.{
  Cbuffer, common_strategy, make_room, cbuffer_data, cbuffer_append, cbuffer_from_cstring,
  cbuffer_move,
}
use network_c_http.Cbuffer.Growth.{IsValid, contents, Appends, append_lem}
use network_c_http.Cbuffer.Texts.{
  Holds, from_cstring_lem, append_all, concat, pieces_lem, Moves, move_lem,
}

-- It holds 5 6 7, and has room for one byte more and the terminator.
abbrev sample : Cbuffer
sample = record {
  mem = record { size = 5; cell = λ i. 5 + i };
  length = 3;
  capacity = 5;
  size = 3;
  strategy = common_strategy;
}

sample-IsValid : IsValid sample
sample-IsValid = record { room = refl; below = omega arith; limit = omega arith }

-- Seven bytes more make ten, twice the capacity: the terminator goes past the end.
overrun : cbuffer_append (λ i. 0) sample (1 ∷ 2 ∷ 3 ∷ 4 ∷ 5 ∷ 6 ∷ 7 ∷ []) ≡ fault
unfolding cbuffer_append make_room
overrun = refl

grown_once :
    (cbuffer_append (λ i. 0) sample (1 ∷ 2 ∷ []) >>= λ b. cbuffer_data b)
    ≡ ok (5 ∷ 6 ∷ 7 ∷ 1 ∷ 2 ∷ [])
unfolding cbuffer_append make_room cbuffer_data update blit segment
grown_once = refl

append_lem_example : Appends sample (1 ∷ 2 ∷ []) (cbuffer_append (λ i. 0) sample (1 ∷ 2 ∷ []))
append_lem_example = append_lem (λ i. 0) sample (1 ∷ 2 ∷ []) sample-IsValid

from_cstring_lem_example : Holds (72 ∷ 105 ∷ []) (cbuffer_from_cstring (λ i. 0) (72 ∷ 105 ∷ []))
from_cstring_lem_example = from_cstring_lem (λ i. 0) (72 ∷ 105 ∷ [])

abbrev wide : Cbuffer
wide = record sample { mem = record { size = 256; cell = λ i. 5 + i }; capacity = 256 }

wide-IsValid : IsValid wide
wide-IsValid = record { room = refl; below = omega arith; limit = omega arith }

abbrev pieces : List (List ℕ)
pieces = (1 ∷ 2 ∷ []) ∷ [] ∷ (3 ∷ []) ∷ []

pieces_lem_example :
    (b' : Cbuffer) × (append_all (λ i. 0) wide pieces ≡ ok b')
    × IsValid b'
    × (contents b' ≡ contents wide ++ concat pieces)
pieces_lem_example =
    pieces_lem (λ i. 0) pieces wide wide-IsValid (omega arith)
      (omega arith, (omega arith, (omega arith, tt))) (omega arith)

move_lem_example : Moves sample (cbuffer_move wide sample)
move_lem_example = move_lem wide sample wide-IsValid sample-IsValid
