-- ===== src/Http/Requests/Headers.antt =====
-- Header lines as clients write them, and what parse_headers of http_conn.cpp does with each.
use reactor_web_server.Common.{
  ℕ, ◌≡◌, ◌≢◌, refl, ap, ◌∙◌, drop, [], ◌∷◌, ◌++◌, All, arith, Bool, false, if◌then◌else◌,
}
use reactor_web_server.Common.Text.{Bytes, codes, c_str, strcaseeq, strncaseeq, skip_blanks, first}
use reactor_web_server.Http.{HttpConn, no_request}
use reactor_web_server.Http.RequestLine.{is_blank}
use reactor_web_server.Http.Header.{is_empty, end_of_headers, header_line, parse_headers}
use reactor_web_server.Http.Requests.Texts.{
  IsPlain, split_at-append, skip_blanks-first, strncaseeq-name,
}

-- A header that the server reads, or any other but Content-Length.
pub data Header : Type 0 where
  host_is connection_is : Bytes → Header
  other_is : Bytes → Bytes → Header

abbrev pub header_text : Header → Bytes
header_text (host_is v) = codes "Host: " ++ v
header_text (connection_is v) = codes "Connection: " ++ v
header_text (other_is name v) = name ++ b':' ∷ v

abbrev pub IsValue : Bytes → Type 0
IsValue v = All IsPlain v × (is_blank (first v) ≡ false)

-- A name without a colon, and none of the three that the parser knows.
pub record IsOtherName (name : Bytes) : Type 0 where
  pub plain : All IsPlain name
  pub one_word : All (λ b. b ≢ b':') name
  pub no_host : strcaseeq name (codes "Host") ≡ false
  pub no_connection : strcaseeq name (codes "Connection") ≡ false
  pub no_length : strcaseeq name (codes "Content-Length") ≡ false

abbrev pub IsHeader : Header → Type 0
IsHeader (host_is v) = IsValue v
IsHeader (connection_is v) = IsValue v
IsHeader (other_is name v) = IsOtherName name × All IsPlain v

-- The host and the choice of keep-alive after a header.
abbrev pub host_by : Header → Bytes → Bytes
host_by (host_is v) old = v
host_by _ old = old

abbrev pub linger_by : Header → Bool → Bool
linger_by (connection_is v) old = strcaseeq v (codes "keep-alive")
linger_by _ old = old

-- What a header changes.
abbrev pub heard : Header → HttpConn → HttpConn
heard h c = record c { host = host_by h c.host; linger = linger_by h c.linger }

pub IsPlain-append : (xs ys : Bytes) → All IsPlain xs → All IsPlain ys → All IsPlain (xs ++ ys)
IsPlain-append [] ys h k = k
IsPlain-append (x ∷ xs) ys h k = (h.0, IsPlain-append xs ys h.1 k)

host_prefix : All IsPlain (codes "Host: ")
host_prefix = ground arith

connection_prefix : All IsPlain (codes "Connection: ")
connection_prefix = ground arith

pub header_text-IsPlain : (h : Header) → IsHeader h → All IsPlain (header_text h)
header_text-IsPlain (host_is v) k = IsPlain-append (codes "Host: ") v host_prefix k.0
header_text-IsPlain (connection_is v) k =
    IsPlain-append (codes "Connection: ") v connection_prefix k.0
header_text-IsPlain (other_is name v) k =
    IsPlain-append name (b':' ∷ v) k.0.plain (ground arith, k.1)

pub header_text_full : (h : Header) → is_empty (header_text h) ≡ false
header_text_full (host_is v) = refl
header_text_full (connection_is v) = refl
header_text_full (other_is [] v) = refl
header_text_full (other_is (x ∷ name) v) = refl

host_heard :
    (v : Bytes) (c : HttpConn)
    → IsValue v
    → header_line c (codes "Host: " ++ v) ≡ (no_request, heard (host_is v) c)
unfolding header_line strncaseeq skip_blanks
host_heard v c k = ap (λ (t : Bytes). (no_request, record c { host = t })) (skip_blanks-first v k.1)

connection_heard :
    (v : Bytes) (c : HttpConn)
    → IsValue v
    → header_line c (codes "Connection: " ++ v) ≡ (no_request, heard (connection_is v) c)
unfolding header_line strncaseeq skip_blanks
connection_heard v c k =
    ap (λ (t : Bytes). (no_request, record c { linger = strcaseeq t (codes "keep-alive") }))
      (skip_blanks-first v k.1)

other_heard :
    (name v : Bytes) (c : HttpConn)
    → IsOtherName name
    → header_line c (name ++ b':' ∷ v) ≡ (no_request, c)
unfolding header_line
other_heard name v c k =
    rw
      (
        strncaseeq-name name (codes "Host") v k.one_word (ground arith),
        k.no_host,
        strncaseeq-name name (codes "Connection") v k.one_word (ground arith),
        k.no_connection,
        strncaseeq-name name (codes "Content-Length") v k.one_word (ground arith),
        k.no_length,
        split_at-append b':' name v k.one_word,
      )
      refl

header_line-heard :
    (h : Header) (c : HttpConn)
    → IsHeader h
    → header_line c (header_text h) ≡ (no_request, heard h c)
header_line-heard (host_is v) c k = host_heard v c k
header_line-heard (connection_is v) c k = connection_heard v c k
header_line-heard (other_is name v) c k = other_heard name v c k.0

pub parse_headers-heard :
    (h : Header) (c : HttpConn) (text : ℕ)
    → IsHeader h
    → c_str (drop text c.read_buf) ≡ header_text h
    → parse_headers c text ≡ (no_request, heard h c)
unfolding parse_headers
parse_headers-heard h c text k e =
    ap (λ line. if is_empty line then end_of_headers c else header_line c line) e
    ∙ rw (header_text_full h) (header_line-heard h c k)

pub parse_headers_empty :
    (c : HttpConn) (text : ℕ)
    → c_str (drop text c.read_buf) ≡ []
    → parse_headers c text ≡ end_of_headers c
unfolding parse_headers
parse_headers_empty c text e =
    ap (λ line. if is_empty line then end_of_headers c else header_line c line) e
