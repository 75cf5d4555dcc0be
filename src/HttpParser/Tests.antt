-- ===== src/HttpParser/Tests.antt =====
-- Two messages of a connection, a request in pieces and a response.
use network_c_http.Base.{
  ℕ, ◌<◌, ◌^◌, length, ◌+◌, ◌==◌, if◌then◌else◌, refl, true, false, List, [], ◌∷◌, ◌++◌, map, none,
  arith,
}
use network_c_http.Base.Heap.{bump_allocator}
use network_c_http.HttpMessage.{decimal, HttpMessage, Memory}
use network_c_http.HdrList.{hdr_list_new}
use network_c_http.Cbuffer.Texts.{fresh}
use network_c_http.HttpParser.{Event}
use network_c_http.HttpParser.Event.{
  message_begin, url_data, status_data, header_field_data, header_value_data, headers_complete,
  body_data, message_complete, method_data, version_data, element_complete,
}
use network_c_http.HttpParser.Views.{block_of, no_nul-NoNul}
use network_c_http.HttpParser.Transmission.{
  request, response, Field, FieldIsValid, Transmission, IsValid,
}
use network_c_http.IoBuffer.{IoBuffer}
use network_c_http.IoBuffer.Contents
use network_c_http.IoBuffer.Contents.{contents}
use network_c_http.Base.Cells.{segment}
use network_c_http.HttpParser.Consume.{Llhttp, Reads}
use network_c_http.Cbuffer.{Cbuffer, common_strategy}
use network_c_http.KvPair.Texts.{pair_of}
use network_c_http.LinkedList.Chain.{node}
use network_c_http.HttpMessage.Serialized.{request_text}
use network_c_http.HttpParser.Plain.{PlainMessage}
use network_c_http.HttpParser.Printed.{plain_text}
use network_c_http.HttpParser.Connection.{Serves, connection-Serves}

abbrev memory : Memory
memory = record {
  headers = record { nodes = bump_allocator; pairs = bump_allocator };
  chains = record { nodes = bump_allocator; iobuffers = bump_allocator; uninitialised = λ i. 7 };
  uninitialised = λ i. 7;
  block = record {
    body = none;
    headers = hdr_list_new;
    major_vers = 0;
    minor_vers = 0;
    is_request = false;
    status_code = 0;
    reason = fresh λ i. 7;
    method = 0;
    target = fresh λ i. 7;
  };
}

-- "Ho", "st" and "a", "b", ""
abbrev host : Field
host = record {
  name = 72 ∷ 111 ∷ [];
  names = (115 ∷ 116 ∷ []) ∷ [];
  value = 97 ∷ [];
  values = (98 ∷ []) ∷ [] ∷ [];
}

host-IsValid : FieldIsValid host
host-IsValid = (
  ((omega arith, (omega arith, tt)), omega arith, no_nul-NoNul (72 ∷ 111 ∷ 115 ∷ 116 ∷ []) refl),
  omega arith,
  ((omega arith, (omega arith, (omega arith, tt))), omega arith, no_nul-NoNul (97 ∷ 98 ∷ []) refl),
)

-- "POST /a" with a body, its method being number 3
abbrev post : Transmission
post = record {
  start = request ((47 ∷ []) ∷ (97 ∷ []) ∷ []);
  major = 1;
  minor = 0;
  method = 3;
  fields = host ∷ host ∷ [];
  body = (1 ∷ 2 ∷ []) ∷ (3 ∷ []) ∷ [];
}

post-IsValid : IsValid post
post-IsValid = record {
  start = (
    ((omega arith, (omega arith, tt)), omega arith, no_nul-NoNul (47 ∷ 97 ∷ []) refl),
    omega arith,
  );
  fields = (host-IsValid, (host-IsValid, tt));
  body = (omega arith, (omega arith, tt));
  version = refl;
  small = omega arith;
}

-- "200 OK"
abbrev answer : Transmission
answer = record {
  start = response 200 (79 ∷ 75 ∷ []);
  major = 1;
  minor = 1;
  method = 0;
  fields = [];
  body = [];
}

answer-IsValid : IsValid answer
answer-IsValid = record {
  start = (omega arith, no_nul-NoNul (79 ∷ 75 ∷ []) refl);
  fields = tt;
  body = tt;
  version = refl;
  small = omega arith;
}

-- The calls for the first buffer, and those for the second.
abbrev early_calls : List Event
early_calls =
    message_begin
    ∷ method_data (80 ∷ [])
    ∷ url_data (47 ∷ [])
    ∷ url_data (97 ∷ [])
    ∷ element_complete
    ∷ version_data (49 ∷ [])
    ∷ header_field_data (72 ∷ 111 ∷ [])
    ∷ header_field_data (115 ∷ 116 ∷ [])
    ∷ header_value_data (97 ∷ [])
    ∷ header_value_data (98 ∷ [])
    ∷ header_value_data []
    ∷ element_complete
    ∷ header_field_data (72 ∷ 111 ∷ [])
    ∷ []

abbrev late_calls : List Event
late_calls =
    header_field_data (115 ∷ 116 ∷ [])
    ∷ header_value_data (97 ∷ [])
    ∷ header_value_data (98 ∷ [])
    ∷ header_value_data []
    ∷ headers_complete 1 0 3
    ∷ body_data (1 ∷ 2 ∷ [])
    ∷ body_data (3 ∷ [])
    ∷ message_complete
    ∷ message_begin
    ∷ status_data 200 (79 ∷ 75 ∷ [])
    ∷ element_complete
    ∷ headers_complete 1 1 0
    ∷ message_complete
    ∷ []

-- A parser that makes the first calls for its first buffer, and the others for its second.
abbrev scripted : Llhttp
scripted = record {
  Handle = ℕ;
  execute = λ h bytes. (h + 1, if h == 0 then early_calls else late_calls, 0);
  finish = λ h. (h, [], 0);
  message_needs_eof = λ h. false;
}

abbrev buffer : IoBuffer
buffer = record {
  mem = record { size = 5; cell = λ i. 80 };
  allocated_capacity = 5;
  buffer_ptr = 1;
  buffer_length = 5;
  buffer_remaining = 2;
  buffer_capacity = 4;
}

buffer-IsValid : Contents.IsValid buffer
buffer-IsValid = record { room = refl; spare = refl; fits = omega arith }

scripted-Reads :
    Reads scripted memory 0 (map contents (buffer ∷ buffer ∷ [])) (early_calls ++ late_calls)
unfolding Reads segment
scripted-Reads = (
  1,
  early_calls,
  late_calls,
  refl,
  omega arith,
  refl,
  (2, late_calls, [], refl, omega arith, refl, refl),
)

connection-Serves_example : Serves scripted memory 0 (buffer ∷ buffer ∷ []) (post ∷ answer ∷ [])
connection-Serves_example =
    connection-Serves scripted memory 0 (buffer ∷ buffer ∷ []) (post ∷ answer ∷ [])
      (early_calls ++ late_calls) (buffer-IsValid, (buffer-IsValid, tt))
      (post-IsValid, (answer-IsValid, tt)) scripted-Reads refl

-- "GET / HTTP/1.1" with a header "host: a"
abbrev slash : Cbuffer
slash = record {
  mem = record { size = 256; cell = λ i. if i == 0 then 47 else 0 };
  length = 1;
  capacity = 256;
  size = 1;
  strategy = common_strategy;
}

abbrev get : HttpMessage
get = record memory.block {
  headers = record {
    list = record { heap = (5, node 0 0 9) ∷ []; count = 1; head = 5; tail = 5 };
    pairs = (9, pair_of (104 ∷ []) (97 ∷ [])) ∷ [];
  };
  is_request = true;
  major_vers = 1;
  minor_vers = 1;
  method = 1;
  target = slash;
}

abbrev plain_get : PlainMessage
plain_get = record (block_of memory) {
  headers = (104 ∷ [], 97 ∷ []) ∷ [];
  is_request = true;
  method = 1;
  target = 47 ∷ [];
}

-- "GET"
abbrev method_name : ℕ → List ℕ
method_name n = 71 ∷ 69 ∷ 84 ∷ []

small : length (plain_text method_name plain_get) + 128 < 2 ^ 31
unfolding request_text decimal
small = omega arith
