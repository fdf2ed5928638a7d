-- ===== src/Http/Header.antt =====
-- http_conn.cpp, parse_headers.
use reactor_web_server.Common.{
  ℕ, Bool, true, false, ◌||◌, ◌&&◌, not, Option, none, some, [], ◌∷◌, ◌==◌, ltb, leb, if◌then◌else◌,
  length, drop, ℤ, pos, negsuc,
}
use reactor_web_server.Common.Text.{
  Bytes, codes, c_str, split_at, strcaseeq, strncaseeq, equal, skip_blanks, skip_sign, count_digits,
  strtol,
}
use reactor_web_server.Http.{
  HttpConn, HttpCode, no_request, bad_request, get_request, body, read_buffer_size,
}

abbrev pub is_empty : Bytes → Bool
is_empty [] = true
is_empty (_ ∷ _) = false

-- The checks of digits: an optional sign, then one to ten digits and nothing else.
unfoldable pub is_number : Bytes → Bool
unfolding skip_sign count_digits
is_number text =
    let p = skip_sign text in
    let digits = count_digits p in not (digits == 0 || ltb 10 digits || not (digits == length p))

unfoldable pub in_range : ℤ × Bool → Option ℕ
in_range (negsuc _, erange) = none
in_range (pos v, erange) = if erange || leb read_buffer_size v then none else some v

-- The value of a Content-Length header, or `none` for a bad request.
unfoldable pub content_length_value : Bytes → Option ℕ
unfolding is_number in_range strtol
content_length_value text = if is_number text then in_range (strtol text) else none

unfoldable pub set_content_length : HttpConn → Option ℕ → HttpCode × HttpConn
set_content_length c none = (bad_request, c)
set_content_length c (some v) = (no_request, record c { content_length = v })

-- The empty line.
unfoldable pub end_of_headers : HttpConn → HttpCode × HttpConn
end_of_headers c =
    if equal c.version (codes "HTTP/1.1") && is_empty c.host
    then (bad_request, c)
    else if not (c.content_length == 0)
    then (no_request, record c { check_state = body })
    else (get_request, c)

-- A line that is not empty.
unfoldable pub header_line : HttpConn → Bytes → HttpCode × HttpConn
unfolding set_content_length
header_line c text =
    if strncaseeq text (codes "Host:")
    then (no_request, record c { host = skip_blanks (drop 5 text) })
    else if strncaseeq text (codes "Connection:")
    then (
      no_request,
      record c { linger = strcaseeq (skip_blanks (drop 11 text)) (codes "keep-alive") },
    )
    else if strncaseeq text (codes "Content-Length:")
    then set_content_length c (content_length_value (skip_blanks (drop 15 text)))
    else elim (split_at b':' text) [ none ↦ (bad_request, c) | some _ ↦ (no_request, c) ]

unfoldable pub parse_headers : HttpConn → ℕ → HttpCode × HttpConn
unfolding header_line end_of_headers
parse_headers c text =
    let line = c_str (drop text c.read_buf) in
    if is_empty line then end_of_headers c else header_line c line
