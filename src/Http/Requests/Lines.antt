-- ===== src/Http/Requests/Lines.antt =====
-- One round of process_read's loop in http_conn.cpp on a line that is there.
use reactor_web_server.Common.{
  ◌+◌, ◌-◌, ◌≤◌, ◌≡◌, ◌≢◌, refl, ap, ap₂, sym, ◌∙◌, length, length-append, drop, drop-append, [],
  ◌∷◌, ◌++◌, append_assoc, All, arith,
}
use reactor_web_server.Common.Text.{Bytes, c_str}
use reactor_web_server.Http.{HttpConn, body, LineStatus, line_ok}
use reactor_web_server.Http.Line.{Scan, scan, parse_line}
use reactor_web_server.Http.Line.Find.{IsLine, scan-line}
use reactor_web_server.Http.Resource.{Files}
use reactor_web_server.Http.Parser.{dispatch, handle_line, after_scan, process_round}
use reactor_web_server.Http.Parser.Loop.{reads, after_scan_ok}
use reactor_web_server.Http.Requests.Texts.{IsPlain, c_str-append}

-- The connection is at the start of a line, with a text before it.
pub record Unread (c : HttpConn) (text : Bytes) : Type 0 where
  pub before : Bytes
  pub buffer : c.read_buf ≡ before ++ text
  pub checked_at : length before ≡ c.checked_idx
  pub start_at : c.start_line ≡ c.checked_idx

plain-IsLine : (line : Bytes) → All IsPlain line → IsLine line
plain-IsLine [] h = tt
plain-IsLine (x ∷ xs) h = ((h.0.1, h.0.2), plain-IsLine xs h.1)

abbrev pub ended : Bytes → Bytes → Bytes
ended line rest = line ++ b'\r' ∷ b'\n' ∷ rest

module _ (c : HttpConn) (line rest : Bytes) (u : Unread c (ended line rest)) where
  -- The connection when the handler of the line is called.
  abbrev pub at_line : HttpConn
  at_line = record c {
    read_buf = u.before ++ (line ++ 0 ∷ 0 ∷ rest);
    checked_idx = length u.before + length line + 2;
    start_line = length u.before + length line + 2;
  }

  pub at_line-Unread : Unread at_line rest
  at_line-Unread = record {
    before = u.before ++ (line ++ 0 ∷ 0 ∷ []);
    buffer = rw (append_assoc, append_assoc) refl;
    checked_at =
        omega (arith, length-append u.before (line ++ 0 ∷ 0 ∷ []), length-append line (0 ∷ 0 ∷ []));
    start_at = refl;
  }

  pub at_line-text : All IsPlain line → c_str (drop c.start_line at_line.read_buf) ≡ line
  at_line-text h =
      ap (λ n. c_str (drop n at_line.read_buf)) (u.start_at ∙ sym u.checked_at)
      ∙ ap c_str (drop-append u.before (line ++ 0 ∷ 0 ∷ rest))
      ∙ c_str-append line (0 ∷ rest) h

  line_found :
      All IsPlain line
      → c.checked_idx + length line + 2 ≤ c.read_idx
      → parse_line c ≡ (line_ok, record at_line { start_line = c.start_line })
  unfolding parse_line
  line_found h k =
      ap (λ (s : Scan). (s.status, record c { read_buf = s.buf; checked_idx = s.checked }))
        (ap₂ (λ b i. scan (c.read_idx - c.checked_idx) b i c.read_idx) u.buffer (sym u.checked_at)
          ∙ scan-line line u.before rest (c.read_idx - c.checked_idx) c.read_idx
              (plain-IsLine line h) (omega (arith, u.checked_at)) (omega arith))

  pub process_round-line :
      (fs : Files) (root : Bytes) (ls : LineStatus)
      → c.check_state ≢ body
      → All IsPlain line
      → c.checked_idx + length line + 2 ≤ c.read_idx
      → process_round fs root c.check_state ls c
        ≡ dispatch fs root c.check_state at_line c.start_line
  unfolding handle_line
  process_round-line fs root ls n h k =
      reads fs root c.check_state ls c n
      ∙ ap (after_scan fs root) (line_found h k)
      ∙ after_scan_ok fs root (line_ok, record at_line { start_line = c.start_line }) refl
