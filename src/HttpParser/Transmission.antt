-- ===== src/HttpParser/Transmission.antt =====
-- A message that llhttp reads, with the pieces in which it hands over its parts, and the calls that
-- it makes for it.
use network_c_http.Base.{
  ℕ, ◌≤◌, ◌<◌, ◌*◌, ◌+◌, ◌^◌, ◌≡◌, Bool, true, false, List, [], ◌∷◌, ◌++◌, map, Option, none, some,
  All, length, if◌then◌else◌,
}
use network_c_http.Cbuffer.Texts.{concat}
use network_c_http.KvPair.Texts.{NoNul}
use network_c_http.HdrList.Lookup.{Header}
use network_c_http.HttpParser.{Event}
use network_c_http.HttpParser.Event.{
  message_begin, url_data, status_data, header_field_data, header_value_data, headers_complete,
  body_data, message_complete, method_data, version_data, chunk_extension_name,
  chunk_extension_value, element_complete, chunk_header, chunk_complete, reset,
}
use network_c_http.HttpParser.Plain.{PlainMessage, plain_new}

-- The pieces of a URL, or a status with its reason in one piece.
pub data StartLine : Type 0 where
  request : List (List ℕ) → StartLine
  response : ℕ → List ℕ → StartLine

-- The pieces of a header's name and of its value, both at least one.
pub record Field : Type 0 where
  pub name : List ℕ
  pub names : List (List ℕ)
  pub value : List ℕ
  pub values : List (List ℕ)

pub record Transmission : Type 0 where
  pub start : StartLine
  pub major : ℕ
  pub minor : ℕ
  pub method : ℕ
  pub fields : List Field
  pub body : List (List ℕ)

abbrev pub start_events : StartLine → List Event
start_events (request pieces) = map url_data pieces
start_events (response code reason) = status_data code reason ∷ []

abbrev pub field_events : Field → List Event
field_events f =
    (header_field_data f.name ∷ map header_field_data f.names)
    ++ (header_value_data f.value ∷ map header_value_data f.values)

abbrev pub fields_events : List Field → List Event
fields_events [] = []
fields_events (f ∷ fs) = field_events f ++ fields_events fs

abbrev pub end_events : Transmission → List Event
end_events t = map body_data t.body ++ (message_complete ∷ [])

abbrev pub events : Transmission → List Event
events t =
    message_begin
    ∷ (start_events t.start
        ++ (fields_events t.fields ++ (headers_complete t.major t.minor t.method ∷ end_events t)))

abbrev pub all_events : List Transmission → List Event
all_events [] = []
all_events (t ∷ ts) = events t ++ all_events ts

-- A call whose callback does nothing.
abbrev pub is_quiet : Event → Bool
is_quiet (method_data _) = true
is_quiet (version_data _) = true
is_quiet (chunk_extension_name _) = true
is_quiet (chunk_extension_value _) = true
is_quiet element_complete = true
is_quiet chunk_header = true
is_quiet chunk_complete = true
is_quiet reset = true
is_quiet message_begin = false
is_quiet (url_data _) = false
is_quiet (status_data _ _) = false
is_quiet (header_field_data _) = false
is_quiet (header_value_data _) = false
is_quiet (headers_complete _ _ _) = false
is_quiet (body_data _) = false
is_quiet message_complete = false

-- The calls without those.
abbrev pub essential : List Event → List Event
essential [] = []
essential (e ∷ es) = if is_quiet e then essential es else e ∷ essential es

-- The header that the pieces make.
abbrev pub whole : Field → Header
whole f = (concat (f.name ∷ f.names), concat (f.value ∷ f.values))

abbrev pub body_text : List (List ℕ) → Option (List ℕ)
body_text [] = none
body_text (p ∷ ps) = some (concat (p ∷ ps))

-- What is to become of the start line.
abbrev pub started : PlainMessage → ℕ → StartLine → PlainMessage
started msg meth (request pieces) = record msg {
  is_request = true;
  method = meth;
  target = concat pieces;
}
started msg meth (response code reason) = record msg {
  is_request = false;
  status_code = code;
  reason = reason;
}

-- The message of a transmission, whatever its pieces.
abbrev pub received : PlainMessage → Transmission → PlainMessage
received block t = record (started (plain_new block) t.method t.start) {
  headers = map whole t.fields;
  body = body_text t.body;
  major = t.major;
  minor = t.minor;
}

abbrev pub Small : List ℕ → Type 0
Small p = length p ≤ 256

abbrev pub Pieces : List (List ℕ) → ℕ → Type 0
Pieces ps limit = All Small ps × (length (concat ps) < limit) × NoNul (concat ps)

abbrev pub StartIsValid : StartLine → Type 0
StartIsValid (request pieces) = Pieces pieces 512 × (0 < length (concat pieces))
StartIsValid (response code reason) = Small reason × NoNul reason

abbrev pub FieldIsValid : Field → Type 0
FieldIsValid f =
    Pieces (f.name ∷ f.names) (1024 * 1024)
    × (0 < length (concat (f.name ∷ f.names)))
    × Pieces (f.value ∷ f.values) (1024 * 1024)

-- Pieces of at most 256 bytes, texts without NUL, a URL below 512 bytes, names and values below
-- 1048576 bytes; a name, a URL and a piece of the body are not empty; the major version is 1, and the
-- body has fewer than 2147483520 bytes.
pub record IsValid (t : Transmission) : Type 0 where
  pub start : StartIsValid t.start
  pub fields : All FieldIsValid t.fields
  pub body : All (λ p. 0 < length p) t.body
  pub version : t.major ≡ 1
  pub small : length (concat t.body) + 128 < 2 ^ 31
