-- ===== src/Http/Pieces/Lines.antt =====
-- parse_line of http_conn.cpp over a line that arrives in pieces.
use reactor_web_server.Common.{
  ℕ, zero, suc, ◌+◌, ◌-◌, ◌≤◌, ◌<◌, ◌≡◌, ◌≢◌, ap, sym, ◌∙◌, length, get_or, set, arith, ◌==◌,
  Bool-cases, inl, inr,
}
use reactor_web_server.Common.Text.{Bytes}
use reactor_web_server.Http.{HttpConn, LineStatus, line_ok}
use reactor_web_server.Http.Line.Bounds.{scan-Scanned}
use reactor_web_server.Http.Line.{Scan, at_cr, at_lf, scan, parse_line}
use reactor_web_server.Http.Read.{store}
use reactor_web_server.Http.Read.Store.{splice}
use reactor_web_server.Http.Pieces.Buffer.{get_or-set}
use reactor_web_server.Http.Pieces.Scans.{More, over, scan-More}

at_cr_ends :
    (i r : ℕ) (buf : Bytes)
    → (at_cr buf i r).status ≡ line_ok
    → get_or (at_cr buf i r).buf ((at_cr buf i r).checked - 1) 0 ≡ 0
unfolding at_cr
at_cr_ends i r buf h = ground (arith, get_or-set (set buf i 0) (i + 1))

at_lf_ends :
    (i : ℕ) (buf : Bytes)
    → (at_lf buf i).status ≡ line_ok
    → get_or (at_lf buf i).buf ((at_lf buf i).checked - 1) 0 ≡ 0
unfolding at_lf
at_lf_ends i buf h = ground (arith, get_or-set (set buf (i - 1) 0) i)

-- A line ends in a NUL inside the read bytes.
scan_ends :
    (n i r : ℕ) (buf : Bytes)
    → (scan n buf i r).status ≡ line_ok
    → get_or (scan n buf i r).buf ((scan n buf i r).checked - 1) 0 ≡ 0
unfolding scan
scan_ends zero i r buf h = cc
scan_ends (suc n) i r buf h = elim (Bool-cases (get_or buf i 0 == b'\r')) [
  | inl a ↦ rw a (at_cr_ends i r buf (rw a at h))
  | inr a ↦ rw a (elim (Bool-cases (get_or buf i 0 == b'\n')) [
    | inl b ↦ rw b (at_lf_ends i buf (rw (a, b) at h))
    | inr b ↦ rw b (scan_ends n (i + 1) r buf (rw (a, b) at h))
  ])
]

-- Where the line ends that parse_line found.
pub record IsEnded (c : HttpConn) : Type 0 where
  pub ended : get_or c.read_buf (c.checked_idx - 1) 0 ≡ 0
  pub after : c.start_line < c.checked_idx

pub parse_line-IsEnded :
    (c : HttpConn)
    → c.start_line ≤ c.checked_idx
    → c.checked_idx ≤ c.read_idx
    → (parse_line c).0 ≡ line_ok
    → IsEnded (parse_line c).1
unfolding parse_line
parse_line-IsEnded c h k e =
    let s =
      scan-Scanned (c.read_idx - c.checked_idx) c.read_buf c.checked_idx c.read_idx (omega arith) in
    record {
      ended = scan_ends (c.read_idx - c.checked_idx) c.checked_idx c.read_idx c.read_buf e;
      after = omega (arith, s.progress e);
    }

module _ (c : HttpConn) (bs : Bytes) (h : c.checked_idx ≤ c.read_idx)
    (k : c.read_idx ≤ length c.read_buf) where
  -- The two scans of parse_line, as More relates them.
  scanned :
      More bs c.read_buf c.read_idx
        (over bs c.read_buf c.read_idx k (c.read_idx + length bs - c.checked_idx) c.checked_idx)
        (scan (c.read_idx - c.checked_idx) c.read_buf c.checked_idx c.read_idx)
  scanned =
      scan-More bs c.read_buf c.read_idx k (c.read_idx - c.checked_idx)
        (c.read_idx + length bs - c.checked_idx) c.checked_idx (omega arith) (omega arith)

  parsed : Scan → LineStatus × HttpConn
  parsed s = (s.status, record (store c bs) { read_buf = s.buf; checked_idx = s.checked })

  pub parse_line_found :
      (parse_line c).0 ≡ line_ok → parse_line (store c bs) ≡ (line_ok, store (parse_line c).1 bs)
  unfolding parse_line store over parsed
  parse_line_found e = ap parsed (scanned.found e)

  pub parse_line_pending :
      (parse_line c).0 ≢ line_ok → parse_line (store c bs) ≡ parse_line (store (parse_line c).1 bs)
  unfolding parse_line store over parsed
  parse_line_pending e =
      let m = scanned.pending e in
      let s = scan (c.read_idx - c.checked_idx) c.read_buf c.checked_idx c.read_idx in
      ap parsed (
        m.1
        ∙ ap
            (λ xs.
              scan (c.read_idx + length bs - s.checked) (splice c.read_idx bs xs) s.checked
                (c.read_idx + length bs))
            (sym m.0))
