-- ===== src/TcpStream/Progress.antt =====
-- What the owner of a stream can rely on.
use network_c_http.Base.{
  ℕ, ◌+◌, ◌<◌, ◌≡◌, ◌≢◌, true, List, none, some, Outcome, ok, ◌⊎◌, inl, inr, All, Option, abort,
  is_some,
}
use network_c_http.IoBuffer.{IoBuffer, iobuffer_space_len}
use network_c_http.IoBuffer.Contents.{IsValid}
use network_c_http.TcpStream.{
  TcpStream, Call, ReadResult, WriteResult, WriteState, tcp_read, read_ready_callback, tcp_write,
  postable_try_write,
}
use network_c_http.TcpStream.Reads.{FitsSpace}
use network_c_http.TcpStream.Writes.{FitsData}
use network_c_http.TcpStream.Monitor.{World, Reached}
use network_c_http.TcpStream.Soundness.{Reached-Sound}

-- What the owner or the event loop may do next.
pub data Input : Type 0 where
  read : IoBuffer → (cb arg : ℕ) → ReadResult → Input
  read_event : ReadResult → Input
  write : IoBuffer → (cb arg : ℕ) → WriteResult → Input
  write_posted : IoBuffer → WriteResult → Input

-- What `read` gives to the buffer that is pending, if one is.
abbrev pub FitsPending : ReadResult → Option IoBuffer → Type 0
FitsPending r none = Unit
FitsPending r (some b) = FitsSpace r b

-- Nothing is pending where it is asked for, and the kernel keeps to the length that it is given.
abbrev pub IsAllowed : TcpStream → Input → Type 0
IsAllowed s (read b cb arg r) =
    (s.reader.input_buffer ≡ none)
    × IsValid b
    × (0 < iobuffer_space_len b)
    × (cb ≢ 0)
    × FitsSpace r b
IsAllowed s (read_event r) = (s.read_armed ≡ true) × FitsPending r s.reader.input_buffer
IsAllowed s (write b cb arg r) =
    (s.writer.output_buffer ≡ none) × IsValid b × (cb ≢ 0) × FitsData r b
IsAllowed s (write_posted b r) = (0 < s.posted) × (s.writer.output_buffer ≡ some b) × FitsData r b

-- The call gives the stream and the calls of callbacks; it fails no assertion and has no access out
-- of range.
abbrev pub Returns : Outcome (TcpStream × List Call) → Type 0
Returns r = (s : TcpStream) × ((calls : List Call) × (r ≡ ok (s, calls)))

-- Every call returns, but the read event's when no read is pending: that fails its assertion.
abbrev pub Performs : TcpStream → Input → Type 0
Performs s (read b cb arg r) = Returns (tcp_read s b cb arg r)
Performs s (read_event r) =
    (is_some s.reader.input_buffer ≡ true × Returns (read_ready_callback s r))
    ⊎ ((s.reader.input_buffer ≡ none) × (read_ready_callback s r ≡ abort))
Performs s (write b cb arg r) = Returns (tcp_write s b cb arg r)
Performs s (write_posted b r) = Returns (postable_try_write s r)

-- In every state that a stream reaches from a zeroed block while its owner asks for one read and
-- one write at a time, with a callback and a valid buffer, and the kernel gives and takes no more
-- bytes than it is asked for, every read has been called back exactly once, but for at most one,
-- and then the stream is armed for the read event that goes on with it.
pub Reached-reads :
    {w : World}
    → Reached w
    → (w.asked ≡ w.answered) ⊎ ((w.asked ≡ w.answered + 1) × (w.stream.read_armed ≡ true))
Reached-reads u = elim (Reached-Sound u).reading [
  | inl (_, e) ↦ inl e
  | inr (x, e) ↦ inr (e, x.armed)
]

-- In every state that a stream reaches from a zeroed block while its owner asks for one read and
-- one write at a time, with a callback and a valid buffer, and the kernel gives and takes no more
-- bytes than it is asked for, whenever a write has called back on bytes taken, what the socket has
-- been given is what it had been given when the write was asked for, followed by the bytes of the
-- write's buffer: all of them, in order, from the buffer's memory, and no others.
pub Reached-complete : {w : World} → Reached w → All (λ p. p.0 ≡ p.1) w.complete
Reached-complete u = (Reached-Sound u).whole

-- In every state that a stream reaches from a zeroed block while its owner asks for one read and
-- one write at a time, with a callback and a valid buffer, and the kernel gives and takes no more
-- bytes than it is asked for, every write has been called back, or all but one and one call of
-- try_write is posted, or none is posted and the write state is EAGAIN.
pub Reached-turn :
    {w : World}
    → Reached w
    → (w.asked_writes ≡ w.answered_writes)
      ⊎ ((w.asked_writes ≡ w.answered_writes + 1) × (w.stream.posted ≡ 1))
      ⊎ ((w.stream.posted ≡ 0) × (w.stream.writer.write_state ≡ WriteState.eagain))
Reached-turn u = elim (Reached-Sound u).writing [
  | inl (_, e) ↦ inl e
  | inr (_, (x, _, e)) ↦ elim x.turn [ inl p ↦ inr (inl (e, p)) | inr p ↦ inr (inr p) ]
]
