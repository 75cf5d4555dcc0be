-- ===== src/HttpMessage/Serialized.antt =====
-- The text of a message: http_message_serialize of src/http_protocol/http_message.c.
-- What `asprintf` makes is written out, without its terminator; `%s` reads a string as far as its
-- NUL, and for the target and the reason from the start of the buffer's memory.
use network_c_http.Base.{
  ℕ, zero, suc, List, [], ◌∷◌, ◌++◌, Option, none, some, Outcome, ok, ◌>>=◌, if◌then◌else◌, ◌==◌,
}
use network_c_http.Base.Heap.{null, deref, write}
use network_c_http.LinkedList.{list_iterator, list_itr_next, list_itr_unpack}
use network_c_http.KvPair.{read_bytes, strlen, kvpair_label, kvpair_value}
use network_c_http.HdrList.{HdrList}
use network_c_http.BufferChain.{
  BufferChain, buffer_chain_new, buffer_chain_append_cstr, buffer_chain_compact, buffer_chain_size,
  buffer_chain_add_back,
}
use network_c_http.IoBuffer.{IoBuffer}
use network_c_http.HttpMessage.{HttpMessage, Memory, string_from, decimal}

-- "HTTP/1.1"
unfoldable pub version_text : (major minor : ℕ) → List ℕ
version_text major minor = 72 ∷ 84 ∷ 84 ∷ 80 ∷ 47 ∷ (decimal major ++ (46 ∷ decimal minor))

-- "GET /a HTTP/1.1"
unfoldable pub request_text : (name target : List ℕ) → (major minor : ℕ) → List ℕ
unfolding version_text
request_text name target major minor =
    name ++ (32 ∷ (target ++ (32 ∷ (version_text major minor ++ (13 ∷ 10 ∷ [])))))

-- "HTTP/1.1  200 OK"
unfoldable pub response_text : (major minor status : ℕ) → (reason : List ℕ) → List ℕ
unfolding version_text
response_text major minor status reason =
    version_text major minor ++ (32 ∷ 32 ∷ (decimal status ++ (32 ∷ (reason ++ (13 ∷ 10 ∷ [])))))

unfoldable pub first_line : (llhttp_method_name : ℕ → List ℕ) → HttpMessage → Outcome (List ℕ)
unfolding request_text response_text
first_line llhttp_method_name msg =
    if msg.is_request
    then (do
      target ← string_from msg.target.mem msg.target.mem.size 0
      ok (request_text (llhttp_method_name msg.method) target msg.major_vers msg.minor_vers))
    else do
      reason ← string_from msg.reason.mem msg.reason.mem.size 0
      ok (response_text msg.major_vers msg.minor_vers msg.status_code reason)

-- A string as far as its NUL.
unfoldable pub string_of : List ℕ → Outcome (List ℕ)
string_of s = do n ← strlen s; read_bytes s n

-- The loop over the headers; a list of `count` nodes takes as many rounds.
unfoldable pub header_loop : Memory → HdrList → ℕ → ℕ → BufferChain → Outcome BufferChain
unfolding string_of
header_loop m hdrs zero iter bc_result = ok bc_result
header_loop m hdrs (suc fuel) iter bc_result = if iter == null then ok bc_result else do
  item ← list_itr_unpack hdrs.list iter
  kv ← deref hdrs.pairs item
  label ← string_of (kvpair_label kv)
  value ← string_of (kvpair_value kv)
  bc ← buffer_chain_append_cstr m.chains bc_result (label ++ (58 ∷ 32 ∷ (value ++ (13 ∷ 10 ∷ []))))
  next ← list_itr_next hdrs.list iter
  header_loop m hdrs fuel next bc

-- The body as one buffer, if it is not empty.
unfoldable pub add_body : Memory → Option BufferChain → BufferChain → Outcome BufferChain
add_body m none bc_result = ok bc_result
add_body m (some body) bc_result = if buffer_chain_size body == 0 then ok bc_result else do
  iob_body ← buffer_chain_compact m.chains body
  let p = m.chains.iobuffers.malloc bc_result.buffers
  let bc = record bc_result { buffers = write bc_result.buffers p iob_body }
  buffer_chain_add_back m.chains bc p

unfoldable pub http_message_serialize :
    (llhttp_method_name : ℕ → List ℕ) → Memory → HttpMessage → Outcome IoBuffer
unfolding first_line header_loop add_body
http_message_serialize llhttp_method_name m msg = do
  line ← first_line llhttp_method_name msg
  bc1 ← buffer_chain_append_cstr m.chains buffer_chain_new line
  let hdrs = msg.headers
  bc2 ← header_loop m hdrs hdrs.list.count (list_iterator hdrs.list) bc1
  bc3 ← buffer_chain_append_cstr m.chains bc2 (13 ∷ 10 ∷ [])
  bc4 ← add_body m msg.body bc3
  buffer_chain_compact m.chains bc4
