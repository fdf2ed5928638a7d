-- ===== src/Http/RequestLine.antt =====
-- http_conn.cpp, parse_request_line.
use reactor_web_server.Common.{
  ℕ, ◌+◌, Bool, true, false, ◌||◌, Option, none, some, ◌==◌, if◌then◌else◌, length, set, drop,
}
use reactor_web_server.Common.Text.{Bytes, codes, c_str, split_at, strcaseeq, strncaseeq, first}
use reactor_web_server.Http.{HttpConn, HttpCode, no_request, bad_request, get, header}

abbrev pub is_blank : ℕ → Bool
is_blank c = c == b' ' || c == b'\t'

-- `*p = '\0'`
abbrev pub put_nul : HttpConn → ℕ → HttpConn
put_nul c i = record c { read_buf = set c.read_buf i 0 }

-- From `m_url = url` on; `p` is the version.
unfoldable pub take_version : HttpConn → Bytes → Bytes → HttpCode × HttpConn
take_version c url p =
    let d = record c { url = url } in
    if strncaseeq p (codes "HTTP/1.1")
    then (no_request, record d { version = codes "HTTP/1.1"; linger = true; check_state = header })
    else if strncaseeq p (codes "HTTP/1.0")
    then (no_request, record d { version = codes "HTTP/1.0"; linger = false; check_state = header })
    else (bad_request, d)

-- From the second strchr on; `url` is the offset of the URL in the buffer.
unfoldable pub take_url : HttpConn → ℕ → Option (Bytes × Bytes) → HttpCode × HttpConn
unfolding take_version
take_url c url none = (bad_request, c)
take_url c url (some (u, p)) =
    let d = put_nul c (url + length u) in
    if is_blank (first p) then (bad_request, d) else take_version d u p

-- From the first strchr on; `text` is the offset of the line in the buffer.
unfoldable pub take_method : HttpConn → ℕ → Option (Bytes × Bytes) → HttpCode × HttpConn
unfolding take_url
take_method c text none = (bad_request, c)
take_method c text (some (m, p)) =
    let d = put_nul c (text + length m) in
    if is_blank (first p)
    then (bad_request, d)
    else if strcaseeq m (codes "GET")
    then take_url (record d { method = get }) (text + length m + 1) (split_at b' ' p)
    else (bad_request, d)

unfoldable pub parse_request_line : HttpConn → ℕ → HttpCode × HttpConn
unfolding take_method
parse_request_line c text = take_method c text (split_at b' ' (c_str (drop text c.read_buf)))
