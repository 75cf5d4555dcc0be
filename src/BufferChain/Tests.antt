-- ===== src/BufferChain/Tests.antt =====
-- Two pieces in a chain, and in one buffer.
use network_c_http.Base.{◌≡◌, refl, true, false, [], ◌∷◌, ok, if◌then◌else◌, ◌==◌, arith}
use network_c_http.Base.Heap.{bump_allocator, at, deref}
use network_c_http.Base.Cells.{segment}
use network_c_http.LinkedList.{list_iterator, list_itr_next, list_itr_unpack}
use network_c_http.LinkedList.Chain.{node}
use network_c_http.IoBuffer.{iobuffer_data}
use network_c_http.BufferChain.{BufferChain, Memory, eq_data, eq_loop, buffer_chain_eq_cstr}
use network_c_http.BufferChain.Compact.{Compacts, append-compact}

abbrev memory : Memory
memory = record { nodes = bump_allocator; iobuffers = bump_allocator; uninitialised = λ i. 0 }

append-compact_example : Compacts memory ((72 ∷ 84 ∷ []) ∷ (84 ∷ 80 ∷ []) ∷ [])
append-compact_example =
    append-compact memory ((72 ∷ 84 ∷ []) ∷ (84 ∷ 80 ∷ []) ∷ []) (omega arith, (omega arith, tt))
      (omega arith)

-- A chain of one buffer, "HT".
abbrev one_buffer : BufferChain
one_buffer = record {
  chain = record { heap = (5, node 0 0 9) ∷ []; count = 1; head = 5; tail = 5 };
  buffers =
      (
        9,
        record {
          mem = record { size = 5; cell = λ i. if i == 0 then 72 else 84 };
          allocated_capacity = 5;
          buffer_ptr = 0;
          buffer_length = 5;
          buffer_remaining = 2;
          buffer_capacity = 4;
        },
      )
      ∷ [];
  size = 2;
}

-- It is equal to "HT", to "HTTP" as well, and not to "HX".
eq_two : buffer_chain_eq_cstr one_buffer (72 ∷ 84 ∷ 0 ∷ []) ≡ ok true
unfolding buffer_chain_eq_cstr eq_loop eq_data list_iterator list_itr_unpack list_itr_next
    iobuffer_data at segment deref
eq_two = refl

eq_longer : buffer_chain_eq_cstr one_buffer (72 ∷ 84 ∷ 84 ∷ 80 ∷ 0 ∷ []) ≡ ok true
unfolding buffer_chain_eq_cstr eq_loop eq_data list_iterator list_itr_unpack list_itr_next
    iobuffer_data at segment deref
eq_longer = refl

eq_other : buffer_chain_eq_cstr one_buffer (72 ∷ 88 ∷ 0 ∷ []) ≡ ok false
unfolding buffer_chain_eq_cstr eq_loop eq_data list_iterator list_itr_unpack list_itr_next
    iobuffer_data at segment deref
eq_other = refl
