-- ===== src/Http/Requests/Head.antt =====
-- The headers of a request, to their end, in process_read of http_conn.cpp.
use reactor_web_server.Common.{
  suc, ◌+◌, ◌≤◌, ◌≡◌, refl, ap, ◌∙◌, length, length-append, List, [], ◌∷◌, ◌++◌, append_assoc, All,
  arith, Bool, ◌&&◌, some, if◌then◌else◌, Bool-cases, inl, inr,
}
use reactor_web_server.Common.Text.{Bytes, codes, equal}
use reactor_web_server.Http.{HttpConn, HttpCode, bad_request, header, LineStatus, line_ok}
use reactor_web_server.Http.Header.{is_empty, end_of_headers}
use reactor_web_server.Http.Resource.{Files, do_request}
use reactor_web_server.Http.Parser.{
  done, again, after_header, dispatch, process_round, process_loop,
}
use reactor_web_server.Http.Parser.Loop.{onward, process_loop-suc}
use reactor_web_server.Http.Requests.Lines.{
  Unread, ended, at_line, at_line-Unread, at_line-text, process_round-line,
}
use reactor_web_server.Http.Requests.Headers.{
  Header, header_text, IsHeader, host_by, linger_by, heard, header_text-IsPlain,
  parse_headers-heard, parse_headers_empty,
}

-- The lines of the headers, and the empty line behind them.
abbrev pub headers_text : List Header → Bytes
headers_text [] = ended [] []
headers_text (h ∷ hs) = ended (header_text h) (headers_text hs)

abbrev pub host_after : List Header → Bytes → Bytes
host_after [] old = old
host_after (h ∷ hs) old = host_after hs (host_by h old)

abbrev pub linger_after : List Header → Bool → Bool
linger_after [] old = old
linger_after (h ∷ hs) old = linger_after hs (linger_by h old)

-- The connection at the end of its headers: behind them in the buffer, and apart from what they say
-- as it was.
pub record HeadersRead (hs : List Header) (rest : Bytes) (c d : HttpConn) : Type 0 where
  pub unread : Unread d rest
  pub consumed : d.checked_idx ≡ c.checked_idx + length (headers_text hs)
  pub changed : d ≡ record c {
    read_buf = d.read_buf;
    checked_idx = d.checked_idx;
    start_line = d.start_line;
    host = host_after hs c.host;
    linger = linger_after hs c.linger;
  }

-- HTTP/1.1 wants a host.
abbrev pub no_host_named : HttpConn → Bool
no_host_named c = equal c.version (codes "HTTP/1.1") && is_empty c.host

-- What the end of the headers makes of a request without a body.
abbrev pub concluded : Files → Bytes → HttpConn → HttpCode × HttpConn
concluded fs root c = if no_host_named c then (bad_request, c) else do_request fs root c

end_of_headers_done :
    (fs : Files) (root : Bytes) (c : HttpConn)
    → c.content_length ≡ 0
    → after_header fs root (end_of_headers c) ≡ done (concluded fs root c)
unfolding end_of_headers after_header
end_of_headers_done fs root c z = elim (Bool-cases (no_host_named c)) [
  | inl e ↦ rw e refl
  | inr e ↦ rw (e, z) refl
]

heard-Unread : (h : Header) (c : HttpConn) (text : Bytes) → Unread c text → Unread (heard h c) text
heard-Unread h c text u = record {
  before = u.before;
  buffer = u.buffer;
  checked_at = u.checked_at;
  start_at = u.start_at;
}

pub ended-Unread :
    (c : HttpConn) (line ys rest : Bytes)
    → Unread c (ended line ys ++ rest)
    → Unread c (ended line (ys ++ rest))
ended-Unread c line ys rest u = record {
  before = u.before;
  buffer = u.buffer ∙ ap (◌++◌ u.before) (append_assoc line (b'\r' ∷ b'\n' ∷ ys) rest);
  checked_at = u.checked_at;
  start_at = u.start_at;
}

pub length-ended : (line ys : Bytes) → length (ended line ys) ≡ length line + 2 + length ys
length-ended line ys = omega (arith, length-append line (b'\r' ∷ b'\n' ∷ ys))

module _ (fs : Files) (root : Bytes) where
  -- The handler of a header line goes on with the next.
  header_round :
      (h : Header) (rest : Bytes) (ls : LineStatus) (c : HttpConn)
      → (u : Unread c (ended (header_text h) rest)) → IsHeader h
      → c.check_state ≡ header
      → c.checked_idx + length (header_text h) + 2 ≤ c.read_idx
      → process_round fs root c.check_state ls c
        ≡ again line_ok (heard h (at_line c (header_text h) rest u))
  unfolding dispatch after_header
  header_round h rest ls c u k s f =
      let e = at_line c (header_text h) rest u in
      process_round-line c (header_text h) rest u fs root ls (λ b. cc) (header_text-IsPlain h k) f
      ∙ ap (λ t. dispatch fs root t e c.start_line) s
      ∙ ap (after_header fs root) (
          parse_headers-heard h e c.start_line k
            (at_line-text c (header_text h) rest u (header_text-IsPlain h k)))

  -- The empty line ends the request.
  end_round :
      (rest : Bytes) (ls : LineStatus) (c : HttpConn)
      → (u : Unread c (ended [] rest)) → c.check_state ≡ header
      → c.content_length ≡ 0
      → c.checked_idx + 2 ≤ c.read_idx
      → process_round fs root c.check_state ls c ≡ done (concluded fs root (at_line c [] rest u))
  unfolding dispatch
  end_round rest ls c u s z f =
      let e = at_line c [] rest u in
      process_round-line c [] rest u fs root ls (λ b. cc) tt (omega arith)
      ∙ ap (λ t. dispatch fs root t e c.start_line) s
      ∙ ap (after_header fs root) (parse_headers_empty e c.start_line (at_line-text c [] rest u tt))
      ∙ end_of_headers_done fs root e z

  pub headers_parsed :
      (hs : List Header) (rest : Bytes) (ls : LineStatus) (c : HttpConn)
      → Unread c (headers_text hs ++ rest)
      → All IsHeader hs
      → c.check_state ≡ header
      → c.content_length ≡ 0
      → c.checked_idx + length (headers_text hs) ≤ c.read_idx
      → (d : HttpConn) × HeadersRead hs rest c d
        × (process_loop fs root (suc (length hs)) ls c ≡ some (concluded fs root d))
  unfolding onward
  headers_parsed [] rest ls c u k s z f = (
    at_line c [] rest u,
    record {
      unread = at_line-Unread c [] rest u;
      consumed = omega (arith, u.checked_at);
      changed = refl;
    },
    process_loop-suc fs root 0 ls c ∙ ap (onward fs root 0) (end_round rest ls c u s z f),
  )
  headers_parsed (h ∷ hs) rest ls c u k s z f =
      let w = ended-Unread c (header_text h) (headers_text hs) rest u in
      let e = at_line c (header_text h) (headers_text hs ++ rest) w in
      let l = length-ended (header_text h) (headers_text hs) in
      let later =
        headers_parsed hs rest line_ok (heard h e)
          (heard-Unread h e (headers_text hs ++ rest)
            (at_line-Unread c (header_text h) (headers_text hs ++ rest) w))
          k.1 s z (omega (arith, l, w.checked_at)) in
      (
        later.0,
        record {
          unread = later.1.unread;
          consumed = omega (arith, later.1.consumed, l, w.checked_at);
          changed = later.1.changed;
        },
        process_loop-suc fs root (suc (length hs)) ls c
            ∙ ap (onward fs root (suc (length hs)))
                (header_round h (headers_text hs ++ rest) ls c w k.0 s (omega (arith, l)))
            ∙ later.2,
      )
