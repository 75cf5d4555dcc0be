-- ===== src/TcpStream/Tests.antt =====
-- A read that waits for the socket, and a write of two bytes in two turns.
use network_c_http.Base.{◌+◌, ◌≡◌, refl, true, [], ◌∷◌, none, some, ◌⊎◌, arith, All}
use network_c_http.Base.Cells.{segment}
use network_c_http.IoBuffer.{
  IoBuffer, iobuffer_space_len, iobuffer_consume, iobuffer_data_len, iobuffer_data,
}
use network_c_http.IoBuffer.Contents.{IsValid, contents}
use network_c_http.TcpStream.{
  TcpStream, Call, ReadState, WriteState, ReadResult, WriteResult, tcp_stream_init, tcp_read,
  tcp_write, postable_try_write,
}
use network_c_http.TcpStream.Monitor.{World, Reached, start_world, after_reading, after_writing}
use network_c_http.TcpStream.Progress.{Reached-reads, Reached-complete, Reached-turn}

-- Two bytes, 10 and 11, and space for two more.
abbrev buffer : IoBuffer
buffer = record {
  mem = record { size = 5; cell = λ i. i + 10 };
  allocated_capacity = 5;
  buffer_capacity = 4;
  buffer_ptr = 0;
  buffer_length = 4;
  buffer_remaining = 2;
}

buffer-IsValid : IsValid buffer
buffer-IsValid = record { room = refl; spare = refl; fits = omega arith }

abbrev rest_buffer : IoBuffer
rest_buffer = record buffer { buffer_ptr = 1; buffer_remaining = 1 }

-- After a read that got EAGAIN.
abbrev stream1 : TcpStream
stream1 = record {
  reader = record {
    read_state = ReadState.eagain;
    input_buffer = some buffer;
    read_cb = 7;
    read_cb_arg = 8;
  };
  writer = record {
    write_state = WriteState.initial;
    write_cb = 0;
    write_cb_arg = 0;
    output_buffer = none;
  };
  read_armed = true;
  posted = 0;
  socket = [];
}

abbrev world1 : World
world1 = after_reading start_world 1 stream1 []

reached1 : Reached world1
unfolding tcp_stream_init tcp_read iobuffer_space_len
reached1 =
    Reached.read buffer 7 8 (ReadResult.failed 35) Reached.start refl buffer-IsValid (omega arith)
      (λ e. cc) tt refl

-- After a write of which one byte was taken.
abbrev stream2 : TcpStream
stream2 = record stream1 {
  writer = record {
    write_state = WriteState.ready;
    write_cb = 5;
    write_cb_arg = 6;
    output_buffer = some rest_buffer;
  };
  posted = 1;
  socket = 10 ∷ [];
}

abbrev world2 : World
world2 = after_writing world1 1 (contents buffer) 1 stream2 []

reached2 : Reached world2
unfolding tcp_write iobuffer_consume iobuffer_data_len iobuffer_data segment
reached2 =
    Reached.write buffer 5 6 (WriteResult.took 1 0) reached1 refl buffer-IsValid (λ e. cc)
      (omega arith) refl

Reached-reads_example :
    (world2.asked ≡ world2.answered)
    ⊎ ((world2.asked ≡ world2.answered + 1) × (stream2.read_armed ≡ true))
Reached-reads_example = Reached-reads reached2

Reached-turn_example :
    (world2.asked_writes ≡ world2.answered_writes)
    ⊎ ((world2.asked_writes ≡ world2.answered_writes + 1) × (stream2.posted ≡ 1))
    ⊎ ((stream2.posted ≡ 0) × (stream2.writer.write_state ≡ WriteState.eagain))
Reached-turn_example = Reached-turn reached2

-- After the second byte was taken.
abbrev stream3 : TcpStream
stream3 = record stream1 {
  writer = record {
    write_state = WriteState.ready;
    write_cb = 0;
    write_cb_arg = 0;
    output_buffer = none;
  };
  socket = 10 ∷ 11 ∷ [];
}

abbrev last_call : Call
last_call = Call.write_done 5 6 0 (some (record buffer { buffer_ptr = 0; buffer_remaining = 0 }))

abbrev world3 : World
world3 = after_writing world2 0 (contents buffer) 1 stream3 (last_call ∷ [])

reached3 : Reached world3
unfolding postable_try_write iobuffer_consume iobuffer_data_len iobuffer_data segment
reached3 =
    Reached.write_posted rest_buffer (WriteResult.took 1 0) reached2 (omega arith) refl
      (omega arith) refl

Reached-complete_example : All (λ p. p.0 ≡ p.1) world3.complete
Reached-complete_example = Reached-complete reached3
