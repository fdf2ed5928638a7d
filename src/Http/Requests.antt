-- ===== src/Http/Requests.antt =====
-- GET requests as clients write them, and what the parser of http_conn.cpp makes of them.
mod Texts
pub mod Lines
pub mod Headers
pub mod Head
pub mod FirstLine
use reactor_web_server.Common.{
  ℕ, suc, ◌+◌, ◌≤◌, ◌≡◌, ◌≢◌, refl, ap, sym, ◌∙◌, length, List, [], ◌++◌, All, arith, Bool, false,
  ◌&&◌, Option, some, subst,
}
use reactor_web_server.Common.Text.{Bytes, codes, equal}
use reactor_web_server.Http.{
  HttpConn, HttpCode, get, request_line, header, body, LineStatus, line_ok,
}
use reactor_web_server.Http.RequestLine.{parse_request_line}
use reactor_web_server.Http.Header.{is_empty}
use reactor_web_server.Http.Resource.{Files, do_request}
use reactor_web_server.Http.Parser.{
  again, after_request_line, dispatch, process_round, process_loop, process_read,
}
use reactor_web_server.Http.Parser.Invariant.{IsValid}
use reactor_web_server.Http.Parser.Loop.{onward, process_loop-suc, process_read_fuel}
use reactor_web_server.Http.Requests.Lines.{
  Unread, ended, at_line, at_line-Unread, at_line-text, process_round-line,
}
use reactor_web_server.Http.Requests.Headers.{Header, IsHeader}
use reactor_web_server.Http.Requests.Head.{
  headers_text, host_after, linger_after, concluded, HeadersRead, headers_parsed, ended-Unread,
  length-ended,
}
use reactor_web_server.Http.Requests.FirstLine.{
  version_text, first_line, IsUrl, first_line-IsPlain, length-first_line, greeted,
  parse_request_line_get, greeted-Unread,
}

-- A GET request without a body.
pub record Request : Type 0 where
  pub url : Bytes
  pub newer : Bool
  pub headers : List Header

abbrev pub request_text : Request → Bytes
request_text q = ended (first_line q.url q.newer) (headers_text q.headers)

-- What can stand in a request.
pub record IsRequest (q : Request) : Type 0 where
  pub url_fits : IsUrl q.url
  pub headers_fit : All IsHeader q.headers

-- A connection that is about to parse a request, as init and reset_for_next leave it.
pub record IsReady (c : HttpConn) : Type 0 where
  pub valid : IsValid c
  pub first_state : c.check_state ≡ request_line
  pub no_host : c.host ≡ []
  pub no_length : c.content_length ≡ 0

-- The connection behind a request: what the request says, and nothing else, has changed, and the
-- bytes behind it are left.
pub record Parsed (q : Request) (rest : Bytes) (c d : HttpConn) : Type 0 where
  pub unread : Unread d rest
  pub consumed : d.checked_idx ≡ c.checked_idx + length (request_text q)
  pub changed : d ≡ record c {
    read_buf = d.read_buf;
    checked_idx = d.checked_idx;
    start_line = d.start_line;
    check_state = header;
    method = get;
    url = q.url;
    version = version_text q.newer;
    host = host_after q.headers [];
    linger = linger_after q.headers q.newer;
  }

module _ (fs : Files) (root : Bytes) where
  first_round :
      (url : Bytes) (newer : Bool) (rest : Bytes) (ls : LineStatus) (c : HttpConn)
      → (u : Unread c (ended (first_line url newer) rest)) → IsUrl url
      → c.check_state ≡ request_line
      → c.checked_idx + length (first_line url newer) + 2 ≤ c.read_idx
      → process_round fs root c.check_state ls c
        ≡ again line_ok (greeted (at_line c (first_line url newer) rest u) c.start_line url newer)
  unfolding dispatch after_request_line
  first_round url newer rest ls c u h s f =
      let line = first_line url newer in
      let e = at_line c line rest u in
      let plain = first_line-IsPlain url newer h in
      process_round-line c line rest u fs root ls (λ b. cc) plain f
      ∙ ap (λ t. dispatch fs root t e c.start_line) s
      ∙ ap (after_request_line fs root)
          (parse_request_line_get e c.start_line url newer h (at_line-text c line rest u plain))

  -- On a valid connection at the start of a request, with no host and no content length yet, where
  -- a GET request (no body; a URL without blanks; lines without NUL, CR and LF) is read to its last
  -- byte: process_read returns BadRequest if HTTP/1.1 is asked for and no host named, and otherwise
  -- what do_request returns, each on a connection that has the request's URL, version, host and
  -- choice of keep-alive, everything else as it was, and the bytes behind the request left unread.
  pub process_read-request_text :
      (q : Request) (rest : Bytes) (c : HttpConn)
      → IsRequest q
      → IsReady c
      → Unread c (request_text q ++ rest)
      → c.checked_idx + length (request_text q) ≤ c.read_idx
      → (d : HttpConn) × Parsed q rest c d × (process_read fs root c ≡ some (concluded fs root d))
  unfolding onward
  process_read-request_text q rest c h r u f =
      let line = first_line q.url q.newer in
      let next = headers_text q.headers ++ rest in
      let w = ended-Unread c line (headers_text q.headers) rest u in
      let l = length-ended line (headers_text q.headers) in
      let m = length-first_line q.url q.newer in
      let e = at_line c line next w in
      let later =
        headers_parsed fs root q.headers rest line_ok (greeted e c.start_line q.url q.newer)
          (greeted-Unread e c.start_line q.url q.newer next (at_line-Unread c line next w)
            (omega (arith, m, w.checked_at, w.start_at)))
          h.headers_fit refl r.no_length (omega (arith, l, w.checked_at)) in
      (
        later.0,
        record {
          unread = later.1.unread;
          consumed = omega (arith, later.1.consumed, l, w.checked_at);
          changed = later.1.changed ∙ λ i. record c {
            read_buf = later.0.read_buf;
            checked_idx = later.0.checked_idx;
            start_line = later.0.start_line;
            check_state = header;
            method = get;
            url = q.url;
            version = version_text q.newer;
            host = host_after q.headers (r.no_host i);
            linger = linger_after q.headers q.newer;
          };
        },
        process_read_fuel fs root (suc (suc (length q.headers))) c (concluded fs root later.0)
            r.valid
            (process_loop-suc fs root (suc (length q.headers)) line_ok c
              ∙ ap (onward fs root (suc (length q.headers))) (
                  first_round q.url q.newer next line_ok c w h.url_fits r.first_state
                    (omega (arith, l)))
              ∙ later.2),
      )
