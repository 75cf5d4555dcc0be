-- ===== src/HttpParser.antt =====
-- The message parser: src/http_protocol/http_message_parser.c, the callbacks that llhttp calls.
-- llhttp stands here for the calls it makes, one `Event` each, with the values of its fields
-- `status_code`, `http_major`, `http_minor` and `method` that the callback reads. A message goes to
-- `on_message_handler` by being a result of the callback.
pub mod Plain
pub mod Views
pub mod Callbacks
pub mod Fields
pub mod Whole
pub mod Refinement
pub mod Transmission
pub mod Steps
pub mod Parts
pub mod Messages
pub mod Reassembly
pub mod Consume
pub mod Connection
pub mod Printed
mod Tests
use network_c_http.Base.{
  ℕ, Bool, true, false, List, [], ◌∷◌, ◌++◌, Option, none, some, Outcome, ok, abort, fault, ◌>>=◌,
  if◌then◌else◌, ◌==◌, ◌||◌,
}
use network_c_http.Cbuffer.{Cbuffer, cbuffer_new, cbuffer_size, cbuffer_append, cbuffer_clear}
use network_c_http.BufferChain.{BufferChain, buffer_chain_new, buffer_chain_append}
use network_c_http.HttpMessage.{
  HttpMessage, Memory, http_message_new, http_message_free, http_message_set_is_request,
  http_message_set_status, http_message_set_reason_cbuffer, http_message_add_header_cbuf,
  http_message_set_version, http_message_set_method, http_message_set_target_cbuffer,
  http_message_get_body, http_message_set_body,
}

abbrev pub header_state_nothing : ℕ
header_state_nothing = 10

abbrev pub header_state_field : ℕ
header_state_field = 11

abbrev pub header_state_value : ℕ
header_state_value = 12

-- `m_started` is never read; the state of llhttp is apart, in Consume.
pub record HttpMessageParser : Type 0 where
  pub header_state : ℕ
  pub status_buf : Cbuffer
  pub url_buf : Cbuffer
  pub name_buf : Cbuffer
  pub value_buf : Cbuffer
  pub current_message : Option HttpMessage

-- The calls of llhttp; `element_complete` is any of the eight that end an element of the message.
pub data Event : Type 0 where
  message_begin : Event
  url_data : List ℕ → Event
  status_data : (status_code : ℕ) → List ℕ → Event
  header_field_data : List ℕ → Event
  header_value_data : List ℕ → Event
  headers_complete : (http_major http_minor method : ℕ) → Event
  body_data : List ℕ → Event
  message_complete : Event
  method_data : List ℕ → Event
  version_data : List ℕ → Event
  chunk_extension_name : List ℕ → Event
  chunk_extension_value : List ℕ → Event
  element_complete : Event
  chunk_header : Event
  chunk_complete : Event
  reset : Event

-- The message that a callback writes to; writing through NULL is a fault.
unfoldable pub current_of : Option HttpMessage → Outcome HttpMessage
current_of none = fault
current_of (some msg) = ok msg

-- The message that is made first stays in use.
unfoldable pub initialize : Memory → HttpMessageParser → Outcome HttpMessageParser
initialize m p = do
  _ ← http_message_new m
  status_buf ← cbuffer_clear p.status_buf
  url_buf ← cbuffer_clear p.url_buf
  name_buf ← cbuffer_clear p.name_buf
  value_buf ← cbuffer_clear p.value_buf
  ok (record {
    header_state = header_state_nothing;
    status_buf = status_buf;
    url_buf = url_buf;
    name_buf = name_buf;
    value_buf = value_buf;
    current_message = none;
  })

unfoldable pub http_message_parser_new : Memory → Outcome HttpMessageParser
unfolding initialize
http_message_parser_new m = do
  status_buf ← cbuffer_new m.uninitialised
  url_buf ← cbuffer_new m.uninitialised
  name_buf ← cbuffer_new m.uninitialised
  value_buf ← cbuffer_new m.uninitialised
  initialize m (record {
    header_state = header_state_nothing;
    status_buf = status_buf;
    url_buf = url_buf;
    name_buf = name_buf;
    value_buf = value_buf;
    current_message = none;
  })

-- The message that is still there is freed.
unfoldable pub free_current : Option HttpMessage → Outcome (Unit {0})
free_current none = ok tt
free_current (some msg) = http_message_free msg

unfoldable pub message_begin_cb : Memory → HttpMessageParser → Outcome HttpMessageParser
unfolding free_current
message_begin_cb m p = do
  _ ← free_current p.current_message
  msg ← http_message_new m
  status_buf ← cbuffer_clear p.status_buf
  url_buf ← cbuffer_clear p.url_buf
  name_buf ← cbuffer_clear p.name_buf
  value_buf ← cbuffer_clear p.value_buf
  ok (record p {
    status_buf = status_buf;
    url_buf = url_buf;
    name_buf = name_buf;
    value_buf = value_buf;
    current_message = some msg;
  })

unfoldable pub url_data_cb : Memory → HttpMessageParser → List ℕ → Outcome HttpMessageParser
unfolding current_of
url_data_cb m p at_bytes = do
  msg ← current_of p.current_message
  url_buf ← cbuffer_append m.uninitialised p.url_buf at_bytes
  ok (record p { url_buf = url_buf; current_message = some (http_message_set_is_request msg true) })

unfoldable pub status_data_cb :
    Memory → HttpMessageParser → (status_code : ℕ) → List ℕ → Outcome HttpMessageParser
unfolding current_of
status_data_cb m p status_code at_bytes = do
  msg ← current_of p.current_message
  let msg1 = http_message_set_is_request msg false
  let msg2 = http_message_set_status msg1 status_code
  status_buf ← cbuffer_append m.uninitialised p.status_buf at_bytes
  msg3 ← http_message_set_reason_cbuffer m msg2 status_buf
  ok (record p { status_buf = status_buf; current_message = some msg3 })

-- The header that is in the two buffers, if there is one, goes to the message.
unfoldable pub flush_header : Memory → HttpMessageParser → Outcome HttpMessageParser
unfolding current_of
flush_header m p = if cbuffer_size p.name_buf == 0 then ok p else do
  msg ← current_of p.current_message
  msg1 ← http_message_add_header_cbuf m msg p.name_buf p.value_buf
  name_buf ← cbuffer_clear p.name_buf
  value_buf ← cbuffer_clear p.value_buf
  ok (record p { name_buf = name_buf; value_buf = value_buf; current_message = some msg1 })

unfoldable pub append_name : Memory → HttpMessageParser → List ℕ → Outcome HttpMessageParser
append_name m p at_bytes = do
  name_buf ← cbuffer_append m.uninitialised p.name_buf at_bytes
  ok (record p { name_buf = name_buf; header_state = header_state_field })

unfoldable pub header_field_data_cb :
    Memory → HttpMessageParser → List ℕ → Outcome HttpMessageParser
unfolding flush_header append_name
header_field_data_cb m p at_bytes =
    let state = p.header_state in
    if (state == 0) || (state == header_state_nothing) || (state == header_state_value)
    then (do p1 ← flush_header m p; append_name m p1 at_bytes)
    else (if state == header_state_field then append_name m p at_bytes else abort)

unfoldable pub append_value :
    Memory → HttpMessageParser → Cbuffer → List ℕ → Outcome HttpMessageParser
append_value m p value at_bytes = do
  value_buf ← cbuffer_append m.uninitialised value at_bytes
  ok (record p { value_buf = value_buf; header_state = header_state_value })

unfoldable pub header_value_data_cb :
    Memory → HttpMessageParser → List ℕ → Outcome HttpMessageParser
unfolding append_value
header_value_data_cb m p at_bytes =
    let state = p.header_state in
    if state == header_state_field
    then (do value ← cbuffer_clear p.value_buf; append_value m p value at_bytes)
    else (if state == header_state_value then append_value m p p.value_buf at_bytes else abort)

-- The method and the target of a message that has a URL.
unfoldable pub set_request_line : Memory → HttpMessageParser → HttpMessage → ℕ → Outcome HttpMessage
set_request_line m p msg method =
    if cbuffer_size p.url_buf == 0
    then ok msg
    else http_message_set_target_cbuffer m (http_message_set_method msg method) p.url_buf

unfoldable pub headers_complete_cb :
    Memory → HttpMessageParser → (http_major http_minor method : ℕ) → Outcome HttpMessageParser
unfolding flush_header current_of set_request_line
headers_complete_cb m p http_major http_minor method = do
  p1 ← flush_header m p
  msg ← current_of p1.current_message
  msg1 ← set_request_line m p1 (http_message_set_version msg http_major http_minor) method
  ok (record p1 { current_message = some msg1 })

-- The chain that the bytes go to.
unfoldable pub body_of : Option BufferChain → BufferChain
body_of none = buffer_chain_new
body_of (some chain) = chain

unfoldable pub body_data_cb : Memory → HttpMessageParser → List ℕ → Outcome HttpMessageParser
unfolding current_of body_of
body_data_cb m p at_bytes = do
  msg ← current_of p.current_message
  chain ← buffer_chain_append m.chains (body_of (http_message_get_body msg)) at_bytes
  ok (record p { current_message = some (http_message_set_body msg chain) })

-- The pointer that is handed over may be NULL.
unfoldable pub message_complete_cb :
    Memory → HttpMessageParser → Outcome (HttpMessageParser × List (Option HttpMessage))
message_complete_cb m p = do
  let tmp = p.current_message
  msg ← http_message_new m
  ok (record p { current_message = some msg }, tmp ∷ [])

unfoldable pub method_data_cb : HttpMessageParser → List ℕ → Outcome HttpMessageParser
method_data_cb p at_bytes = ok p

unfoldable pub version_data_cb : HttpMessageParser → List ℕ → Outcome HttpMessageParser
version_data_cb p at_bytes = ok p

unfoldable pub chunk_extension_name_cb : HttpMessageParser → List ℕ → Outcome HttpMessageParser
chunk_extension_name_cb p at_bytes = ok p

unfoldable pub chunk_extension_value_cb : HttpMessageParser → List ℕ → Outcome HttpMessageParser
chunk_extension_value_cb p at_bytes = ok p

-- `on_url_complete_cb` to `on_chunk_extension_value_complete_cb`.
unfoldable pub on_element_complete_cb : HttpMessageParser → Outcome HttpMessageParser
on_element_complete_cb p = ok p

unfoldable pub chunk_header_cb : HttpMessageParser → Outcome HttpMessageParser
chunk_header_cb p = ok p

unfoldable pub chunk_complete_cb : HttpMessageParser → Outcome HttpMessageParser
chunk_complete_cb p = ok p

unfoldable pub on_reset_cb : HttpMessageParser → Outcome HttpMessageParser
on_reset_cb p = ok p

-- A callback that hands over no message.
abbrev pub silent :
    Outcome HttpMessageParser → Outcome (HttpMessageParser × List (Option HttpMessage))
silent r = r >>= λ p. ok (p, [])

-- The callbacks as `HttpParser_initialize` registers them.
unfoldable pub on_event :
    Memory → HttpMessageParser → Event → Outcome (HttpMessageParser × List (Option HttpMessage))
unfolding message_begin_cb url_data_cb status_data_cb header_field_data_cb header_value_data_cb
    headers_complete_cb body_data_cb message_complete_cb method_data_cb version_data_cb
    chunk_extension_name_cb chunk_extension_value_cb on_element_complete_cb chunk_header_cb
    chunk_complete_cb on_reset_cb
on_event m p message_begin = silent (message_begin_cb m p)
on_event m p (url_data bytes) = silent (url_data_cb m p bytes)
on_event m p (status_data code bytes) = silent (status_data_cb m p code bytes)
on_event m p (header_field_data bytes) = silent (header_field_data_cb m p bytes)
on_event m p (header_value_data bytes) = silent (header_value_data_cb m p bytes)
on_event m p (headers_complete maj minor method) = silent (headers_complete_cb m p maj minor method)
on_event m p (body_data bytes) = silent (body_data_cb m p bytes)
on_event m p message_complete = message_complete_cb m p
on_event m p (method_data bytes) = silent (method_data_cb p bytes)
on_event m p (version_data bytes) = silent (version_data_cb p bytes)
on_event m p (chunk_extension_name bytes) = silent (chunk_extension_name_cb p bytes)
on_event m p (chunk_extension_value bytes) = silent (chunk_extension_value_cb p bytes)
on_event m p element_complete = silent (on_element_complete_cb p)
on_event m p chunk_header = silent (chunk_header_cb p)
on_event m p chunk_complete = silent (chunk_complete_cb p)
on_event m p reset = silent (on_reset_cb p)

-- The calls in their order, and the messages that they hand over.
unfoldable pub run :
    Memory
    → HttpMessageParser
    → List Event
    → Outcome (HttpMessageParser × List (Option HttpMessage))
unfolding on_event
run m p [] = ok (p, [])
run m p (e ∷ es) = do (p1, here) ← on_event m p e; (p2, later) ← run m p1 es; ok (p2, here ++ later)
