-- ===== src/UrlParser/Machine.antt =====
-- `parse_url_char` of url_parser.c.
use network_c_http.Base.{ℕ, ◌||◌, if◌then◌else◌, ◌==◌}
use network_c_http.UrlParser.Chars.{is_alpha, is_userinfo_char, is_url_char}

-- `enum state`: the states that the URL functions name. The other states of the enum belong to a
-- message parser that this program does not have, and no function returns or tests them.
pub data State : Type 0 where
  dead : State
  req_spaces_before_url : State
  req_schema : State
  req_schema_slash : State
  req_schema_slash_slash : State
  req_server_start : State
  req_server : State
  req_server_with_at : State
  req_path : State
  req_query_string_start : State
  req_query_string : State
  req_fragment_start : State
  req_fragment : State

-- The cases `s_req_server_start` and `s_req_server`, into which `s_req_server_with_at` falls.
unfoldable pub in_server : ℕ → State
in_server ch =
    if ch == b'/'
    then req_path
    else if ch == b'?'
    then req_query_string_start
    else if ch == b'@'
    then req_server_with_at
    else if is_userinfo_char ch || ch == 91 || ch == 93
    then req_server
    else dead

-- The `switch` of `parse_url_char`; what falls out of it is dead.
unfoldable pub switch_state : State → ℕ → State
unfolding in_server
switch_state dead ch = dead
switch_state req_spaces_before_url ch =
    if ch == b'/' || ch == b'*' then req_path else if is_alpha ch then req_schema else dead
switch_state req_schema ch =
    if is_alpha ch then req_schema else if ch == b':' then req_schema_slash else dead
switch_state req_schema_slash ch = if ch == b'/' then req_schema_slash_slash else dead
switch_state req_schema_slash_slash ch = if ch == b'/' then req_server_start else dead
switch_state req_server_with_at ch = if ch == b'@' then dead else in_server ch
switch_state req_server_start ch = in_server ch
switch_state req_server ch = in_server ch
switch_state req_path ch =
    if is_url_char ch
    then req_path
    else if ch == b'?'
    then req_query_string_start
    else if ch == b'#'
    then req_fragment_start
    else dead
switch_state req_query_string_start ch =
    if is_url_char ch
    then req_query_string
    else if ch == b'?'
    then req_query_string
    else if ch == b'#'
    then req_fragment_start
    else dead
switch_state req_query_string ch =
    if is_url_char ch
    then req_query_string
    else if ch == b'?'
    then req_query_string
    else if ch == b'#'
    then req_fragment_start
    else dead
switch_state req_fragment_start ch =
    if is_url_char ch
    then req_fragment
    else if ch == b'?'
    then req_fragment
    else if ch == b'#'
    then req_fragment_start
    else dead
switch_state req_fragment ch =
    if is_url_char ch then req_fragment else if ch == b'?' || ch == b'#' then req_fragment else dead

-- Spaces and line ends, 32, 13 and 10, and in the strict parser the tab 9 and the form feed 12, are
-- dead in every state.
unfoldable pub parse_url_char : State → ℕ → State
unfolding switch_state
parse_url_char s ch =
    if ch == 32 || ch == 13 || ch == 10
    then dead
    else if ch == 9 || ch == 12
    then dead
    else switch_state s ch
