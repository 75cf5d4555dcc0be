-- ===== src/HdrList/Tests.antt =====
-- Headers that are added, looked up, removed and written out.
use network_c_http.Base.{ℕ, ◌≡◌, refl, List, [], ◌∷◌, ok, none, some, arith}
use network_c_http.Base.Heap.{bump_allocator, at}
use network_c_http.KvPair.{toupper}
use network_c_http.KvPair.Texts.{NoNul, IsText, pair_of}
use network_c_http.Cbuffer.{Cbuffer, cbuffer_data}
use network_c_http.LinkedList.Chain.{node}
use network_c_http.HdrList.{HdrList, Memory, hdr_list_new, hdr_list_serialize}
use network_c_http.HdrList.Lookup.{StandsFor}
use network_c_http.HdrList.Run.{HdrOp, hdr_ops, plain_ops, Refines}
use network_c_http.HdrList.Run.HdrOp.{add_line, add_cstr, remove_key, get}
use network_c_http.HdrList.Refinement.{hdr_ops-Refines}
use network_c_http.HdrList.Serialized.{lines, serialize_lem}

abbrev memory : Memory
memory = record { nodes = bump_allocator; pairs = bump_allocator }

-- "host", "HOST", "Date"
abbrev host : List ℕ
host = 104 ∷ 111 ∷ 115 ∷ 116 ∷ []

abbrev host_upper : List ℕ
host_upper = 72 ∷ 79 ∷ 83 ∷ 84 ∷ []

abbrev date : List ℕ
date = 68 ∷ 97 ∷ 116 ∷ 101 ∷ []

host-NoNul : NoNul host
host-NoNul = ((λ e. cc), ((λ e. cc), ((λ e. cc), ((λ e. cc), tt))))

host_upper-NoNul : NoNul host_upper
host_upper-NoNul = ((λ e. cc), ((λ e. cc), ((λ e. cc), ((λ e. cc), tt))))

date-NoNul : NoNul date
date-NoNul = ((λ e. cc), ((λ e. cc), ((λ e. cc), ((λ e. cc), tt))))

host-IsText : IsText host
host-IsText = (host-NoNul, omega arith)

date-IsText : IsText date
date-IsText = (date-NoNul, omega arith)

abbrev calls : List HdrOp
calls =
    add_cstr host (97 ∷ [])
    ∷ add_line date (98 ∷ [])
    ∷ get host_upper
    ∷ remove_key date
    ∷ get date
    ∷ []

hdr_ops-Refines_example : Refines (hdr_ops memory hdr_list_new calls) (plain_ops [] calls)
hdr_ops-Refines_example = hdr_ops-Refines memory calls (
  (host-IsText, (((λ e. cc), tt), omega arith)),
  (
    (date-IsText, (((λ e. cc), tt), omega arith)),
    ((host_upper-NoNul, omega arith), (date-IsText, (date-IsText, tt))),
  ),
)

-- The value of the first answer, for a name that differs in case, and the miss of the second.
plain_calls : (plain_ops [] calls).1 ≡ some (97 ∷ 0 ∷ []) ∷ none ∷ []
unfolding toupper
plain_calls = refl

abbrev one_header : HdrList
one_header = record {
  list = record { heap = (5, node 0 0 9) ∷ []; count = 1; head = 5; tail = 5 };
  pairs = (9, pair_of host (97 ∷ [])) ∷ [];
}

one_header-StandsFor : StandsFor one_header ((host, 97 ∷ []) ∷ [])
unfolding at toupper
one_header-StandsFor = record {
  cells = (5, 9) ∷ [];
  valid = record {
    counted = refl;
    at_head = refl;
    at_tail = refl;
    linked = (refl, (λ e. cc), tt);
    distinct = (refl, tt);
  };
  held = (refl, (λ e. cc), host-NoNul, ((λ e. cc), tt), tt);
}

serialize_lem_example :
    (b : Cbuffer) × (hdr_list_serialize (λ i. 0) one_header ≡ ok b)
    × (cbuffer_data b ≡ ok (lines ((host, 97 ∷ []) ∷ [])))
serialize_lem_example =
    serialize_lem (λ i. 0) one_header ((host, 97 ∷ []) ∷ []) one_header-StandsFor
      ((omega arith, omega arith), tt) (omega arith)
