-- ===== src/AsioStream/Tests.antt =====
-- Reads on a stream: one whose data comes with the third event, and one that is started again in the
-- callback.
use network_c_http.Base.{ℕ, ◌≡◌, refl, List, [], ◌∷◌, none, some, Outcome, ok, ◌>>=◌, arith, false}
use network_c_http.RunloopStream.{
  empty_mask, runloop_stream_arm_read, runloop_stream_disarm_read, runloop_reregister, call_armed,
  handler,
}
use network_c_http.AsioStream.{
  AsioStream, World, Call, IoResult, moved, failed, eagain, call_back, clear_read, read_eagain,
  after_read, read_from, try_read, asio_stream_read, epollin_postable_cb, postable, on_io_event,
}
use network_c_http.AsioStream.Reading.{idle, late, io_events, Done, asio_stream_read-Done}

abbrev stream : AsioStream
stream = record {
  address = 500;
  fd = some 7;
  runloop_stream = record {
    fd = some 7;
    event_mask = empty_mask;
    read_postable_cb = none;
    read_postable_arg = 0;
    write_postable_cb = none;
    write_postable_arg = 0;
    registered = none;
  };
  read_state = 0;
  read_buffer = 0;
  read_buffer_size = 0;
  read_callback = 0;
  read_callback_arg = 0;
  write_state = 21;
  write_buffer = 0;
  write_buffer_size = 0;
  write_callback = 0;
  write_callback_arg = 0;
}

abbrev world : World
world = record { stream = stream; reads = []; writes = []; calls = [] }

abbrev quiet : Call → World → Outcome World
quiet c w = ok w

asio_stream_read-Done_example : Done world 9 4 (moved 5) [] 13 false false (
    asio_stream_read quiet
      (record world { stream = idle stream empty_mask; reads = late 3 (moved 5) [] })
      100
      64
      9
      4
    >>= io_events quiet 3)
asio_stream_read-Done_example =
    asio_stream_read-Done quiet (λ c w. refl) 3 stream empty_mask world 100 64 9 4 (moved 5) []
      (λ e. cc) (omega arith) (λ e. cc) tt

-- An owner that reads again in its callback.
abbrev reads_again : Call → World → Outcome World
reads_again c w = asio_stream_read quiet w 100 64 c.cb c.arg

abbrev left : World → Outcome (List Call × List IoResult × ℕ)
left w = ok (w.calls, w.reads, w.stream.read_state)

-- The second read's callback is set to NULL when the first one's call is over, so the event for its
-- data makes no call, and the stream is idle with the data unread.
lost_read :
    (asio_stream_read reads_again
        (record world {
          stream = idle stream empty_mask;
          reads = moved 5 ∷ failed eagain ∷ moved 3 ∷ [];
        })
        100
        64
        9
        4
      >>= io_events reads_again 1
      >>= left)
    ≡ ok (record { cb = 9; arg = 4; count = 5; errno = 0 } ∷ [], moved 3 ∷ [], 11)
unfolding asio_stream_read try_read read_from after_read call_back clear_read read_eagain
    runloop_stream_arm_read runloop_stream_disarm_read runloop_reregister on_io_event handler
    call_armed io_events postable epollin_postable_cb
lost_read = refl
