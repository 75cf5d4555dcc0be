-- ===== src/HttpParser/Printed.antt =====
-- A message that a parser hands over is written out as text again.
use network_c_http.Base.{ℕ, ◌<◌, Bool, true, false, List, [], ◌∷◌, ◌++◌, Option, none, some, length}
use network_c_http.KvPair.Texts.{NoNul, upper}
use network_c_http.Cbuffer.{Cbuffer}
use network_c_http.HdrList.{HdrList}
use network_c_http.HdrList.Lookup
use network_c_http.HdrList.Serialized.{lines}
use network_c_http.IoBuffer.{IoBuffer}
use network_c_http.BufferChain.{BufferChain}
use network_c_http.HttpMessage.{HttpMessage}
use network_c_http.HttpMessage.Serialized.{request_text, response_text}
use network_c_http.HttpParser.Plain.{PlainMessage}

-- The part of the start line that is read as a string is there, without NUL.
abbrev pub LineIsSet : Bool → PlainMessage → Type 0
LineIsSet true v = (0 < length v.target) × NoNul v.target
LineIsSet false v = (0 < length v.reason) × NoNul v.reason

abbrev pub plain_line : (ℕ → List ℕ) → Bool → PlainMessage → List ℕ
plain_line llhttp_method_name true v =
    request_text (llhttp_method_name v.method) v.target v.major v.minor
plain_line llhttp_method_name false v = response_text v.major v.minor v.status_code v.reason

abbrev pub body_bytes : Option (List ℕ) → List ℕ
body_bytes none = []
body_bytes (some t) = t

-- The start line, the headers, an empty line and the body.
abbrev pub plain_text : (ℕ → List ℕ) → PlainMessage → List ℕ
plain_text llhttp_method_name v =
    plain_line llhttp_method_name v.is_request v
    ++ (lines v.headers ++ (13 ∷ 10 ∷ body_bytes v.body))

-- The line of a header.
abbrev line_of : (k v : List ℕ) → List ℕ
line_of k v = upper k ++ (58 ∷ 32 ∷ (v ++ (13 ∷ 10 ∷ [])))
