-- ===== src/HttpMessage.antt =====
-- The http message: src/http_protocol/http_message.c.
-- Each message has its own list of headers and its own chain of buffers, with their heaps. A method
-- and a status are their numbers; `llhttp_method_name` is an argument of the functions that call it.
pub mod Strings
pub mod Headers
pub mod Target
pub mod Serialized
use network_c_http.Base.{
  ℕ, zero, suc, ◌+◌, ◌*◌, ◌/◌, ◌%◌, Bool, true, false, List, [], ◌∷◌, ◌++◌, Option, none, some,
  Outcome, ok, abort, fault, ◌>>=◌, ◌>>◌, assert, if◌then◌else◌, ltb, ◌==◌, length,
}
use network_c_http.Base.Cells.{Block, load}
use network_c_http.Base.Heap.{null, deref, assign}
use network_c_http.Cbuffer.{
  Cbuffer, cbuffer_new, cbuffer_size, cbuffer_cstr, cbuffer_append_cstr, cbuffer_from_cstring,
}
use network_c_http.LinkedList.{list_iterator, list_itr_next, list_itr_unpack}
use network_c_http.KvPair.{
  toupper, read_bytes, strlen, kvpair_label, kvpair_value, kvpair_set_value,
}
use network_c_http.HdrList
use network_c_http.HdrList.{
  HdrList, hdr_list_new, hdr_list_add_cstr, hdr_list_add_cbuf, hdr_list_add_arr, hdr_list_find,
  hdr_list_safe_free,
}
use network_c_http.BufferChain
use network_c_http.BufferChain.{
  BufferChain, buffer_chain_new, buffer_chain_append, buffer_chain_compact, buffer_chain_size,
}
use network_c_http.IoBuffer.{IoBuffer, iobuffer_data}

pub record HttpMessage : Type 0 where
  pub body : Option BufferChain
  pub headers : HdrList
  pub major_vers : ℕ
  pub minor_vers : ℕ
  pub is_request : Bool
  pub status_code : ℕ
  pub reason : Cbuffer
  pub method : ℕ
  pub target : Cbuffer

-- What `malloc` gives, and what it leaves in a new block of bytes and in a new message.
pub record Memory : Type 0 where
  pub headers : HdrList.Memory
  pub chains : BufferChain.Memory
  pub uninitialised : ℕ → ℕ
  pub block : HttpMessage

-- The fields `is_request`, `status_code` and `method` stay as the block has them.
unfoldable pub http_message_new : Memory → Outcome HttpMessage
http_message_new m = do
  target ← cbuffer_new m.uninitialised
  reason ← cbuffer_new m.uninitialised
  ok (record m.block {
    body = none;
    headers = hdr_list_new;
    minor_vers = 1;
    major_vers = 1;
    target = target;
    reason = reason;
  })

unfoldable pub http_message_new_request : Memory → Outcome HttpMessage
unfolding http_message_new
http_message_new_request m = do msg ← http_message_new m; ok (record msg { is_request = true })

unfoldable pub http_message_new_response : Memory → Outcome HttpMessage
unfolding http_message_new
http_message_new_response m = do msg ← http_message_new m; ok (record msg { is_request = false })

-- The headers; the body is not freed.
unfoldable pub http_message_free : HttpMessage → Outcome (Unit {0})
http_message_free msg = do _ ← hdr_list_safe_free msg.headers; ok tt

unfoldable pub http_message_get_status : HttpMessage → ℕ
http_message_get_status msg = msg.status_code

unfoldable pub http_message_get_is_request : HttpMessage → Bool
http_message_get_is_request msg = msg.is_request

unfoldable pub http_message_get_minor_version : HttpMessage → ℕ
http_message_get_minor_version msg = msg.minor_vers

unfoldable pub http_message_get_method : HttpMessage → ℕ
http_message_get_method msg = msg.method

unfoldable pub http_message_get_body : HttpMessage → Option BufferChain
http_message_get_body msg = msg.body

unfoldable pub http_message_get_headerlist : HttpMessage → HdrList
http_message_get_headerlist msg = msg.headers

unfoldable pub http_message_set_status : HttpMessage → ℕ → HttpMessage
http_message_set_status msg status = record msg { status_code = status }

unfoldable pub http_message_set_is_request : HttpMessage → Bool → HttpMessage
http_message_set_is_request msg yn = record msg { is_request = yn }

unfoldable pub http_message_set_minor_version : HttpMessage → ℕ → HttpMessage
http_message_set_minor_version msg mv = record msg { minor_vers = mv }

-- The major version is not stored.
unfoldable pub http_message_set_version : HttpMessage → (maj minor : ℕ) → HttpMessage
http_message_set_version msg maj minor = record msg { minor_vers = minor }

unfoldable pub http_message_set_method : HttpMessage → ℕ → HttpMessage
http_message_set_method msg method = record msg { method = method }

unfoldable pub http_message_set_body : HttpMessage → BufferChain → HttpMessage
http_message_set_body msg body = record msg { body = some body }

unfoldable pub http_message_add_header_cstring :
    Memory → HttpMessage → (label value : List ℕ) → Outcome HttpMessage
http_message_add_header_cstring m msg label value = do
  headers ← hdr_list_add_cstr m.headers msg.headers label value
  ok (record msg { headers = headers })

unfoldable pub http_message_add_header_cbuf :
    Memory → HttpMessage → (key value : Cbuffer) → Outcome HttpMessage
http_message_add_header_cbuf m msg key value = do
  headers ← hdr_list_add_cbuf m.headers msg.headers key value
  ok (record msg { headers = headers })

unfoldable pub http_message_set_headers_arr :
    Memory → HttpMessage → List (List ℕ × List ℕ) → Outcome HttpMessage
http_message_set_headers_arr m msg ar = do
  headers ← hdr_list_add_arr m.headers msg.headers ar
  ok (record msg { headers = headers })

-- The bytes from `i` on up to a NUL, which must stand inside the block.
unfoldable pub string_from : Block ℕ → ℕ → ℕ → Outcome (List ℕ)
string_from b zero i = fault
string_from b (suc fuel) i = do
  c ← load b i
  if c == 0 then ok [] else do rest ← string_from b fuel (i + 1); ok (c ∷ rest)

-- The string that `Cbuffer_cstr` returns, as far as its NUL.
unfoldable pub cstr_text : Cbuffer → Outcome (List ℕ)
unfolding string_from
cstr_text b = do mem ← cbuffer_cstr b; string_from mem mem.size 0

unfoldable pub http_message_get_target : HttpMessage → Outcome (List ℕ)
unfolding cstr_text
http_message_get_target msg = cstr_text msg.target

unfoldable pub http_message_get_target_cbuffer : Memory → HttpMessage → Outcome Cbuffer
unfolding cstr_text
http_message_get_target_cbuffer m msg = do
  text ← cstr_text msg.target
  cbuffer_from_cstring m.uninitialised text

unfoldable pub http_message_set_target :
    Memory → HttpMessage → (text : List ℕ) → Outcome HttpMessage
http_message_set_target m msg text = do
  assert (cbuffer_size msg.target == 0)
  target ← cbuffer_append_cstr m.uninitialised msg.target text
  ok (record msg { target = target })

unfoldable pub http_message_set_target_cbuffer :
    Memory → HttpMessage → Cbuffer → Outcome HttpMessage
unfolding cstr_text
http_message_set_target_cbuffer m msg target = do
  assert (cbuffer_size msg.target == 0)
  text ← cstr_text target
  t ← cbuffer_append_cstr m.uninitialised msg.target text
  ok (record msg { target = t })

unfoldable pub http_message_get_reason : HttpMessage → Outcome (List ℕ)
unfolding cstr_text
http_message_get_reason msg = cstr_text msg.reason

unfoldable pub http_message_get_reason_cbuffer : Memory → HttpMessage → Outcome Cbuffer
unfolding cstr_text
http_message_get_reason_cbuffer m msg = do
  text ← cstr_text msg.reason
  cbuffer_from_cstring m.uninitialised text

unfoldable pub http_message_set_reason :
    Memory → HttpMessage → (text : List ℕ) → Outcome HttpMessage
http_message_set_reason m msg text = do
  assert (cbuffer_size msg.reason == 0)
  reason ← cbuffer_append_cstr m.uninitialised msg.reason text
  ok (record msg { reason = reason })

unfoldable pub http_message_set_reason_cbuffer :
    Memory → HttpMessage → Cbuffer → Outcome HttpMessage
unfolding cstr_text
http_message_set_reason_cbuffer m msg reason = do
  assert (cbuffer_size msg.reason == 0)
  text ← cstr_text reason
  r ← cbuffer_append_cstr m.uninitialised msg.reason text
  ok (record msg { reason = r })

-- The value's string, NULL for no header with the name.
unfoldable pub http_message_get_header_value :
    HttpMessage → (label : List ℕ) → Outcome (Option (List ℕ))
http_message_get_header_value msg label = do
  kvp ← hdr_list_find msg.headers label
  if kvp == null then ok none else do kv ← deref msg.headers.pairs kvp; ok (some (kvpair_value kv))

-- `%d` of a number that is not negative; a number has no more digits than its value.
unfoldable pub decimal_loop : ℕ → ℕ → List ℕ → List ℕ
decimal_loop zero n digits = digits
decimal_loop (suc fuel) n digits =
    let digits' = (48 + n % 10) ∷ digits in
    let rest = decimal_loop fuel (n / 10) digits' in if ltb n 10 then digits' else rest

unfoldable pub decimal : ℕ → List ℕ
unfolding decimal_loop
decimal n = decimal_loop (n + 1) n []

-- "Content-length", with its NUL
abbrev pub content_length_label : List ℕ
content_length_label =
    67 ∷ 111 ∷ 110 ∷ 116 ∷ 101 ∷ 110 ∷ 116 ∷ 45 ∷ 108 ∷ 101 ∷ 110 ∷ 103 ∷ 116 ∷ 104 ∷ 0 ∷ []

unfoldable pub http_message_set_content_length : Memory → HttpMessage → ℕ → Outcome HttpMessage
unfolding decimal
http_message_set_content_length m msg len = do
  let buf = decimal len ++ (0 ∷ [])
  kvp ← hdr_list_find msg.headers content_length_label
  if kvp == null
      then (do
        headers ← hdr_list_add_cstr m.headers msg.headers content_length_label buf
        ok (record msg { headers = headers }))
      else do
        kv ← deref msg.headers.pairs kvp
        n ← strlen buf
        kv' ← kvpair_set_value kv buf n
        pairs ← assign msg.headers.pairs kvp kv'
        ok (record msg { headers = record msg.headers { pairs = pairs } })

-- The loop of `HttpMessage_cmp_header` over two strings of the same length.
unfoldable pub same_upper : List ℕ → List ℕ → Bool
same_upper [] t = true
same_upper (c ∷ s) [] = true
same_upper (c ∷ s) (d ∷ t) = if toupper c == toupper d then same_upper s t else false

-- 0 and 1, and `none` for the result -1.
unfoldable pub http_message_cmp_header :
    HttpMessage → (key test_value : List ℕ) → Outcome (Option Bool)
unfolding same_upper
http_message_cmp_header msg key test_value = do
  kvp ← hdr_list_find msg.headers key
  if kvp == null then ok none else do
    kv ← deref msg.headers.pairs kvp
    let v = kvpair_value kv
    n ← strlen v
    n' ← strlen test_value
    if n == n'
        then (do s ← read_bytes v n; t ← read_bytes test_value n; ok (some (same_upper s t)))
        else ok (some false)
