-- ===== src/Http/Line.antt =====
-- http_conn.cpp, parse_line: the scanner that finds the next line in the read buffer.
pub mod Bounds
pub mod Find
use reactor_web_server.Common.{
  ℕ, zero, suc, ◌+◌, ◌-◌, Bool, ◌&&◌, ◌≡◌, refl, leb, ◌==◌, if◌then◌else◌, get_or, set, [], ◌∷◌,
  ◌++◌,
}
use reactor_web_server.Common.Text.{Bytes, codes}
use reactor_web_server.Http.{HttpConn, LineStatus, line_ok, line_bad, line_open}

-- What the loop changes: the buffer and m_checked_idx.
pub record Scan : Type 0 where
  pub status : LineStatus
  pub buf : Bytes
  pub checked : ℕ

-- The byte at the index is '\r'.
unfoldable pub at_cr : Bytes → ℕ → ℕ → Scan
at_cr buf i r =
    if i + 1 == r
    then record { status = line_open; buf = buf; checked = i }
    else if get_or buf (i + 1) 0 == b'\n'
    then record { status = line_ok; buf = set (set buf i 0) (i + 1) 0; checked = i + 2 }
    else record { status = line_bad; buf = buf; checked = i }

-- The byte at the index is '\n'.
unfoldable pub at_lf : Bytes → ℕ → Scan
at_lf buf i =
    if leb 1 i && get_or buf (i - 1) 0 == b'\r'
    then record { status = line_ok; buf = set (set buf (i - 1) 0) i 0; checked = i + 1 }
    else record { status = line_bad; buf = buf; checked = i }

-- The loop, by the rounds that are left: read_idx - checked_idx.
unfoldable pub scan : ℕ → Bytes → ℕ → ℕ → Scan
unfolding at_cr at_lf
scan zero buf i r = record { status = line_open; buf = buf; checked = i }
scan (suc n) buf i r =
    let later = scan n buf (i + 1) r in
    let temp = get_or buf i 0 in
    if temp == b'\r' then at_cr buf i r else if temp == b'\n' then at_lf buf i else later

unfoldable pub parse_line : HttpConn → LineStatus × HttpConn
unfolding scan
parse_line c =
    let s = scan (c.read_idx - c.checked_idx) c.read_buf c.checked_idx c.read_idx in
    (s.status, record c { read_buf = s.buf; checked_idx = s.checked })
