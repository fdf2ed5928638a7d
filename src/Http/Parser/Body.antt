-- ===== src/Http/Parser/Body.antt =====
-- What http_conn.cpp does with the body of a request.
use reactor_web_server.Common.{ℕ, suc, ◌+◌, ◌-◌, ◌<◌, ◌≡◌, refl, ap, ◌∙◌, length, arith, some, ◌++◌}
use reactor_web_server.Common.Text.{Bytes}
use reactor_web_server.Http.{
  HttpConn, HttpCode, no_request, CheckState, request_line, header, body, LineStatus, line_ok,
  line_open, read_buffer_size,
}
use reactor_web_server.Http.Line.{Scan, scan, parse_line}
use reactor_web_server.Http.Line.Find.{IsLine, scan_open}
use reactor_web_server.Http.Resource.{Files}
use reactor_web_server.Http.Parser.{
  done, again, parse_body, after_body, dispatch, handle_line, after_scan, process_round,
  process_loop,
}

-- The unread bytes hold no end of line.
pub record UnreadIsLine (c : HttpConn) : Type 0 where
  pub before : Bytes
  pub unread : Bytes
  pub behind : Bytes
  pub buffer : c.read_buf ≡ before ++ (unread ++ behind)
  pub checked_at : length before ≡ c.checked_idx
  pub read_at : length before + length unread ≡ c.read_idx
  pub is_line : IsLine unread

-- The scanner then looks at every byte.
pub parse_line_open :
    (c : HttpConn)
    → UnreadIsLine c
    → parse_line c ≡ (line_open, record c { checked_idx = c.read_idx })
unfolding parse_line
parse_line_open c u =
    ap (λ (t : Scan). (t.status, record c { read_buf = t.buf; checked_idx = t.checked })) scanned
  where
    count_left : length u.unread ≡ c.read_idx - c.checked_idx
    count_left = omega (arith, u.read_at, u.checked_at)

    scanned :
        scan (c.read_idx - c.checked_idx) c.read_buf c.checked_idx c.read_idx
        ≡ record { status = line_open; buf = c.read_buf; checked = c.read_idx }
    scanned =
        ground
          (arith, scan_open u.unread u.before u.behind c.read_idx u.is_line u.read_at, count_left)

module _ (fs : Files) (root : Bytes) where
  pub process_round_body :
      (s : CheckState) (c : HttpConn)
      → s ≡ body
      → process_round fs root s line_ok c ≡ handle_line fs root c
  unfolding process_round
  process_round_body body c e = refl
  process_round_body request_line c e = cc
  process_round_body header c e = cc

  pub process_round_scan :
      (s : CheckState) (c : HttpConn)
      → process_round fs root s line_open c ≡ after_scan fs root (parse_line c)
  unfolding process_round
  process_round_scan body c = refl
  process_round_scan _ c = refl

  pub dispatch_body :
      (s : CheckState) (c : HttpConn) (text : ℕ)
      → s ≡ body
      → dispatch fs root s c text ≡ after_body fs root (parse_body c text)
  unfolding dispatch
  dispatch_body body c text e = refl
  dispatch_body request_line c text e = cc
  dispatch_body header c text e = cc

  pub process_loop_again :
      (n : ℕ) (ls ls' : LineStatus) (c d : HttpConn)
      → process_round fs root c.check_state ls c ≡ again ls' d
      → process_loop fs root (suc n) ls c ≡ process_loop fs root n ls' d
  unfolding process_loop
  process_loop_again n ls ls' c d e = rw (e, process_loop)

  pub process_loop_done :
      (n : ℕ) (ls : LineStatus) (c : HttpConn) (r : HttpCode × HttpConn)
      → process_round fs root c.check_state ls c ≡ done r
      → process_loop fs root (suc n) ls c ≡ some r
  unfolding process_loop
  process_loop_done n ls c r e = rw (e, process_loop)

  -- The body is looked at from the place that the last line ended at.
  pub body_round :
      (c : HttpConn)
      → c.check_state ≡ body
      → process_round fs root c.check_state line_ok c
        ≡ after_body fs root (parse_body (record c { start_line = c.checked_idx }) c.start_line)
  unfolding handle_line
  body_round c e =
      process_round_body c.check_state c e
      ∙ dispatch_body c.check_state (record c { start_line = c.checked_idx }) c.start_line e

  short_body :
      (c : HttpConn) (text : ℕ)
      → c.content_length < read_buffer_size
      → c.read_idx < c.content_length + c.checked_idx
      → after_body fs root (parse_body c text) ≡ again line_open c
  unfolding after_body parse_body
  short_body c text b h = ground arith

  abbrev pub waiting : HttpConn → HttpConn
  waiting c = record c { start_line = c.checked_idx; checked_idx = c.read_idx }

  pub body_waits :
      (n : ℕ) (c : HttpConn)
      → c.check_state ≡ body
      → c.content_length < read_buffer_size
      → c.read_idx < c.content_length + c.checked_idx
      → UnreadIsLine c
      → process_loop fs root (suc (suc n)) line_ok c ≡ some (no_request, waiting c)
  unfolding after_scan
  body_waits n c e b h u =
      process_loop_again (suc n) line_ok line_open c (record c { start_line = c.checked_idx })
        (body_round c e ∙ short_body (record c { start_line = c.checked_idx }) c.start_line b h)
      ∙ process_loop_done n line_open (record c { start_line = c.checked_idx })
          (no_request, waiting c)
          (process_round_scan c.check_state (record c { start_line = c.checked_idx })
            ∙ rw (parse_line_open (record c { start_line = c.checked_idx }) (moved u)))
    where
      moved : UnreadIsLine c → UnreadIsLine (record c { start_line = c.checked_idx })
      moved v = record {
        before = v.before;
        unread = v.unread;
        behind = v.behind;
        buffer = v.buffer;
        checked_at = v.checked_at;
        read_at = v.read_at;
        is_line = v.is_line;
      }
