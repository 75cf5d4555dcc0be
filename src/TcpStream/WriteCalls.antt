-- ===== src/TcpStream/WriteCalls.antt =====
-- The two calls of try_write: from `tcp_write`, and from the ready list.
use network_c_http.Base.{ℕ, ◌-◌, ◌≡◌, ◌≢◌, refl, false, List, ◌==◌, inl, inr, arith}
use network_c_http.IoBuffer.{IoBuffer}
use network_c_http.IoBuffer.Contents.{IsValid, contents}
use network_c_http.TcpStream.{
  TcpStream, WriteResult, tcp_write, postable_try_write, is_write_pending,
}
use network_c_http.TcpStream.Writes.{
  Idle, Waiting, asked_write, FitsData, taken, Writes, try_write-Writes,
}

-- A write that is asked for when none is pending, of a valid buffer.
pub tcp_write-Writes :
    (s : TcpStream) (b : IoBuffer) (cb arg : ℕ) (r : WriteResult)
    → Idle s
    → IsValid b
    → cb ≢ 0
    → FitsData r b
    → Writes (asked_write s b cb arg) (contents b) (taken r) (tcp_write s b cb arg r)
unfolding tcp_write is_write_pending
tcp_write-Writes s b cb arg r i v some_cb fits =
    let w =
      try_write-Writes (asked_write s b cb arg) b (contents b) r
        (record {
          pending = refl;
          valid = v;
          holds = refl;
          some_cb = some_cb;
          none_posted = i.none_posted;
        })
        fits in
    let cb_given : (cb == 0) ≡ false = ground (arith, some_cb) in
    record {
      after = w.after;
      calls = w.calls;
      runs = rw (i.no_buffer, i.no_cb, cb_given) w.runs;
      same_reader = w.same_reader;
      same_armed = w.same_armed;
      sends = w.sends;
      ends = w.ends;
    }

-- The posted function of a waiting write.
pub postable_try_write-Writes :
    (s : TcpStream) (bytes : List ℕ) (r : WriteResult) (w : Waiting s bytes)
    → s.posted ≡ 1
    → FitsData r w.buffer
    → Writes s bytes (taken r) (postable_try_write s r)
unfolding postable_try_write
postable_try_write-Writes s bytes r w e fits =
    let t = record s { posted = s.posted - 1 } in
    let a =
      try_write-Writes t w.buffer bytes r
        (record {
          pending = w.pending;
          valid = w.valid;
          holds = w.holds;
          some_cb = w.some_cb;
          none_posted = omega (arith, e);
        })
        fits in
    record {
      after = a.after;
      calls = a.calls;
      runs = a.runs;
      same_reader = a.same_reader;
      same_armed = a.same_armed;
      sends = a.sends;
      ends = elim a.ends [
        | inl x ↦ inl record {
          idle = x.idle;
          errno = x.errno;
          given = x.given;
          once = x.once;
          cause = x.cause;
        }
        | inr x ↦ inr x
      ];
    }
