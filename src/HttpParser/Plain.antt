-- ===== src/HttpParser/Plain.antt =====
-- What the message parser's callbacks do, on plain texts.
-- The pieces are at most 256 bytes each, and together below the limit of a character buffer. A
-- target or a reason, which is copied as one, is below 512 bytes.
use network_c_http.Base.{
  ℕ, ◌*◌, ◌+◌, ◌^◌, Bool, true, false, not, ◌&&◌, ◌||◌, List, [], ◌∷◌, ◌++◌, Option, none, some,
  if◌then◌else◌, ◌==◌, leb, ltb, length,
}
use network_c_http.HdrList.Lookup.{Header}
use network_c_http.HttpParser.{header_state_nothing, header_state_field, header_state_value, Event}
use network_c_http.HttpParser.Event.{
  message_begin, url_data, status_data, header_field_data, header_value_data, headers_complete,
  body_data, message_complete, method_data, version_data, chunk_extension_name,
  chunk_extension_value, element_complete, chunk_header, chunk_complete, reset,
}

-- A message, with an empty target or reason when it was not set.
pub record PlainMessage : Type 0 where
  pub headers : List Header
  pub body : Option (List ℕ)
  pub target : List ℕ
  pub reason : List ℕ
  pub is_request : Bool
  pub status_code : ℕ
  pub method : ℕ
  pub major : ℕ
  pub minor : ℕ

-- The parser; the texts of its buffers and the current message.
pub record PlainParser : Type 0 where
  pub state : ℕ
  pub status : List ℕ
  pub url : List ℕ
  pub name : List ℕ
  pub value : List ℕ
  pub msg : Option PlainMessage

-- A message as it is made; the flag, the status and the method are those of `m`.
abbrev pub plain_new : PlainMessage → PlainMessage
plain_new m = record m { headers = []; body = none; target = []; reason = []; major = 1; minor = 1 }

abbrev pub plain_initial : PlainParser
plain_initial = record {
  state = header_state_nothing;
  status = [];
  url = [];
  name = [];
  value = [];
  msg = none;
}

abbrev pub has_room : List ℕ → List ℕ → Bool
has_room text piece = leb (length piece) 256 && ltb (length text + length piece) (1024 * 1024)

abbrev pub no_nul : List ℕ → Bool
no_nul [] = true
no_nul (c ∷ t) = not (c == 0) && no_nul t

abbrev pub cond_some {ℓ} : {A : Type ℓ} → Bool → A → Option A
cond_some b a = if b then some a else none

-- The message can be freed.
abbrev pub can_free : Option PlainMessage → Bool
can_free none = true
can_free (some m) = length m.headers == 0

unfoldable pub plain_url : PlainParser → List ℕ → Option PlainMessage → Option PlainParser
plain_url v bytes none = none
plain_url v bytes (some m) =
    cond_some (has_room v.url bytes)
      (record v { url = v.url ++ bytes; msg = some (record m { is_request = true }) })

-- The text may become a target or a reason that is not set.
abbrev pub can_set : List ℕ → List ℕ → Bool
can_set old text = length old == 0 && (ltb (length text) 512 && no_nul text)

unfoldable pub plain_status : PlainParser → ℕ → List ℕ → Option PlainMessage → Option PlainParser
plain_status v code bytes none = none
plain_status v code bytes (some m) =
    let text = v.status ++ bytes in
    cond_some (has_room v.status bytes && can_set m.reason text) (record v {
      status = text;
      msg = some (record m { is_request = false; status_code = code; reason = text });
    })

unfoldable pub plain_flush : PlainParser → Option PlainMessage → Option PlainParser
plain_flush v none = cond_some (length v.name == 0) v
plain_flush v (some m) =
    if length v.name == 0
    then some v
    else cond_some (no_nul v.name && no_nul v.value) (record v {
      name = [];
      value = [];
      msg = some (record m { headers = m.headers ++ ((v.name, v.value) ∷ []) });
    })

unfoldable pub plain_name : List ℕ → Option PlainParser → Option PlainParser
plain_name bytes none = none
plain_name bytes (some v) =
    cond_some (has_room v.name bytes)
      (record v { name = v.name ++ bytes; state = header_state_field })

unfoldable pub plain_field : PlainParser → List ℕ → Option PlainParser
unfolding plain_flush plain_name
plain_field v bytes =
    if (v.state == 0) || (v.state == header_state_nothing) || (v.state == header_state_value)
    then plain_name bytes (plain_flush v v.msg)
    else (if v.state == header_state_field then plain_name bytes (some v) else none)

unfoldable pub plain_value : PlainParser → List ℕ → Option PlainParser
plain_value v bytes =
    if v.state == header_state_field
    then cond_some (has_room [] bytes) (record v { value = bytes; state = header_state_value })
    else (if v.state == header_state_value
        then cond_some (has_room v.value bytes)
            (record v { value = v.value ++ bytes; state = header_state_value })
        else none)

unfoldable pub plain_line : PlainParser → ℕ → ℕ → Option PlainMessage → Option PlainParser
plain_line v minor meth none = none
plain_line v minor meth (some m) =
    if length v.url == 0
    then some (record v { msg = some (record m { minor = minor }) })
    else cond_some (can_set m.target v.url)
        (record v { msg = some (record m { minor = minor; method = meth; target = v.url }) })

unfoldable pub plain_complete : ℕ → ℕ → Option PlainParser → Option PlainParser
unfolding plain_line
plain_complete minor meth none = none
plain_complete minor meth (some v) = plain_line v minor meth v.msg

abbrev pub joined : Option (List ℕ) → List ℕ → List ℕ
joined none bytes = bytes
joined (some text) bytes = text ++ bytes

abbrev pub text_of : Option (List ℕ) → List ℕ
text_of none = []
text_of (some text) = text

-- The size of the chain with the bytes, and the capacity of a new buffer for them, are `int`s.
abbrev pub has_size : Option (List ℕ) → List ℕ → Bool
has_size old bytes = ltb (length (text_of old) + length bytes + 128) (2 ^ 31)

unfoldable pub plain_body : PlainParser → List ℕ → Option PlainMessage → Option PlainParser
plain_body v bytes none = none
plain_body v bytes (some m) =
    cond_some (ltb 0 (length bytes) && has_size m.body bytes)
      (record v { msg = some (record m { body = some (joined m.body bytes) }) })

abbrev pub plain_silent : Option PlainParser → Option (PlainParser × List PlainMessage)
plain_silent none = none
plain_silent (some v) = some (v, [])

unfoldable pub plain_finish :
    PlainMessage → PlainParser → Option PlainMessage → Option (PlainParser × List PlainMessage)
plain_finish block v none = none
plain_finish block v (some m) = some (record v { msg = some (plain_new block) }, m ∷ [])

-- `none` where the pieces or the texts are too large, a text has a NUL, a status is in two pieces, or
-- the calls come in another order than that of a message's parts.
unfoldable pub plain_event :
    PlainMessage → PlainParser → Event → Option (PlainParser × List PlainMessage)
unfolding plain_url plain_status plain_flush plain_field plain_value plain_complete plain_body
    plain_finish
plain_event block v message_begin = plain_silent (
    cond_some (can_free v.msg) (record {
      state = v.state;
      status = [];
      url = [];
      name = [];
      value = [];
      msg = some (plain_new block);
    }))
plain_event block v (url_data bytes) = plain_silent (plain_url v bytes v.msg)
plain_event block v (status_data code bytes) = plain_silent (plain_status v code bytes v.msg)
plain_event block v (header_field_data bytes) = plain_silent (plain_field v bytes)
plain_event block v (header_value_data bytes) = plain_silent (plain_value v bytes)
plain_event block v (headers_complete maj minor meth) =
    plain_silent (plain_complete minor meth (plain_flush v v.msg))
plain_event block v (body_data bytes) = plain_silent (plain_body v bytes v.msg)
plain_event block v message_complete = plain_finish block v v.msg
plain_event block v (method_data bytes) = some (v, [])
plain_event block v (version_data bytes) = some (v, [])
plain_event block v (chunk_extension_name bytes) = some (v, [])
plain_event block v (chunk_extension_value bytes) = some (v, [])
plain_event block v element_complete = some (v, [])
plain_event block v chunk_header = some (v, [])
plain_event block v chunk_complete = some (v, [])
plain_event block v reset = some (v, [])

-- The rest of a run, behind the messages of its start.
unfoldable pub and_then :
    Option (PlainParser × List PlainMessage)
    → (PlainParser → Option (PlainParser × List PlainMessage))
    → Option (PlainParser × List PlainMessage)
and_then none rest = none
and_then (some (v, here)) rest = after (rest v)
  where
    after : Option (PlainParser × List PlainMessage) → Option (PlainParser × List PlainMessage)
    after none = none
    after (some (v', later)) = some (v', here ++ later)

unfoldable pub plain_run :
    PlainMessage → PlainParser → List Event → Option (PlainParser × List PlainMessage)
unfolding plain_event and_then
plain_run block v [] = some (v, [])
plain_run block v (e ∷ es) = and_then (plain_event block v e) λ v'. plain_run block v' es
