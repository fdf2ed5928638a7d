-- ===== src/Http/Parser/Induction.antt =====
-- http_conn.cpp: what parse_line and the handlers keep of a connection, process_read keeps: its
-- socket, and how many bytes were read into a buffer of which size.
use reactor_web_server.Common.{
  ℕ, zero, suc, ◌+◌, ◌-◌, ◌*◌, ◌==◌, length, length-set, set, get_or, either_way, refl,
  Option-cases, inl, inr, ◌≡◌, ◌∙◌, Option, none, some, arith, subst, ℤ,
}
use reactor_web_server.Common.Text.{Bytes}
use reactor_web_server.Http.{
  HttpConn, HttpCode, no_request, get_request, bad_request, CheckState, request_line, header, body,
  LineStatus, line_ok,
}
use reactor_web_server.Http.Line.{Scan, at_cr, at_lf, scan, parse_line}
use reactor_web_server.Http.Resource.{Files}
use reactor_web_server.Http.Parser.{
  Round, done, again, after_request_line, after_header, after_body, dispatch, handle_line,
  after_scan, process_round, process_loop, process_read, record_code, prepare_io_read,
}
use reactor_web_server.Http.Parser.Keeps.{
  Keeps, parse_request_line-Keeps, parse_headers-Keeps, parse_body-Keeps, do_request-Keeps,
}

-- The connection that a round leaves has the property.
abbrev Has : (HttpConn → Type 0) → Round → Type 0
Has P (done (code, d)) = P d
Has P (again ls d) = P d

-- A property that the scanner and the handlers keep.
pub record IsKept (P : HttpConn → Type 0) : Type 0 where
  pub line : (c : HttpConn) → P c → P (parse_line c).1
  pub begin : (c : HttpConn) → P c → P (record c { start_line = c.checked_idx })
  pub handled : {c d : HttpConn} → Keeps c d → P c → P d

module _ (fs : Files) (root : Bytes) {P : HttpConn → Type 0} (k : IsKept P) where
  after_request_line-Has : (r : HttpCode × HttpConn) → P r.1 → Has P (after_request_line fs root r)
  unfolding after_request_line
  after_request_line-Has (bad_request, d) e = e
  after_request_line-Has (_, d) e = e

  after_header-Has : (r : HttpCode × HttpConn) → P r.1 → Has P (after_header fs root r)
  unfolding after_header
  after_header-Has (bad_request, d) e = e
  after_header-Has (get_request, d) e = k.handled (do_request-Keeps fs root d) e
  after_header-Has (_, d) e = e

  after_body-Has : (r : HttpCode × HttpConn) → P r.1 → Has P (after_body fs root r)
  unfolding after_body
  after_body-Has (get_request, d) e = k.handled (do_request-Keeps fs root d) e
  after_body-Has (_, d) e = e

  dispatch-Has :
      (s : CheckState) (c : HttpConn) (text : ℕ) → P c → Has P (dispatch fs root s c text)
  unfolding dispatch
  dispatch-Has request_line c text e =
      after_request_line-Has _ (k.handled (parse_request_line-Keeps c text) e)
  dispatch-Has header c text e = after_header-Has _ (k.handled (parse_headers-Keeps c text) e)
  dispatch-Has body c text e = after_body-Has _ (k.handled (parse_body-Keeps c text) e)

  handle_line-Has : (c : HttpConn) → P c → Has P (handle_line fs root c)
  unfolding handle_line
  handle_line-Has c e =
      dispatch-Has c.check_state (record c { start_line = c.checked_idx }) c.start_line
        (k.begin c e)

  after_scan-Has : (r : LineStatus × HttpConn) → P r.1 → Has P (after_scan fs root r)
  unfolding after_scan
  after_scan-Has (line_ok, d) e = handle_line-Has d e
  after_scan-Has (_, d) e = e

  process_round-Has :
      (s : CheckState) (ls : LineStatus) (c : HttpConn) → P c → Has P (process_round fs root s ls c)
  unfolding process_round parse_line
  process_round-Has body line_ok c e = handle_line-Has c e
  process_round-Has _ _ c e = after_scan-Has (parse_line c) (k.line c e)

  -- What the loop returns, if it does.
  abbrev pub Leaves : Option (HttpCode × HttpConn) → Type 0
  Leaves none = Unit
  Leaves (some r) = P r.1

  process_loop-Leaves :
      (n : ℕ) (ls : LineStatus) (c : HttpConn) → P c → Leaves (process_loop fs root n ls c)
  unfolding process_loop
  process_loop-Leaves zero ls c e = tt
  process_loop-Leaves (suc n) ls c e =
      next (process_round fs root c.check_state ls c) (process_round-Has c.check_state ls c e)
        (λ ls' d f. process_loop-Leaves n ls' d f)
    where
      next :
          (r : Round)
          → Has P r
          → ((ls' : LineStatus) (d : HttpConn) → P d → Leaves (process_loop fs root n ls' d))
          → Leaves (elim r [ done x ↦ some x | again ls' d ↦ process_loop fs root n ls' d ])
      next (done (code, d)) f ih = f
      next (again ls' d) f ih = ih ls' d f

  pub process_read-Has :
      (c d : HttpConn) (code : HttpCode) → P c → process_read fs root c ≡ some (code, d) → P d
  unfolding process_read
  process_read-Has c d code h e =
      subst Leaves e (process_loop-Leaves (2 * (c.read_idx - c.checked_idx) + 2) line_ok c h)

-- The read bytes stay as many, in a buffer that stays as large.
pub record HasRead (r l : ℕ) (c : HttpConn) : Type 0 where
  pub read : c.read_idx ≡ r
  pub size : length c.read_buf ≡ l

length-at_cr : (buf : Bytes) (i r : ℕ) → length (at_cr buf i r).buf ≡ length buf
unfolding at_cr
length-at_cr buf i r = ground (arith, length-set buf i 0, length-set (set buf i 0) (i + 1) 0)

length-at_lf : (buf : Bytes) (i : ℕ) → length (at_lf buf i).buf ≡ length buf
unfolding at_lf
length-at_lf buf i = ground (arith, length-set buf (i - 1) 0, length-set (set buf (i - 1) 0) i 0)

length-scan : (n i r : ℕ) (buf : Bytes) → length (scan n buf i r).buf ≡ length buf
unfolding scan
length-scan zero i r buf = refl
length-scan (suc n) i r buf =
    either_way (λ (s : Scan). length s.buf ≡ length buf) (get_or buf i 0 == b'\r') _ _
      (length-at_cr buf i r)
      (either_way (λ (s : Scan). length s.buf ≡ length buf) (get_or buf i 0 == b'\n') _ _
        (length-at_lf buf i) (length-scan n (i + 1) r buf))

pub HasRead-IsKept : (r l : ℕ) → IsKept (HasRead r l)
unfolding parse_line
HasRead-IsKept r l = record {
  line = λ c h. record {
    read = h.read;
    size = length-scan (c.read_idx - c.checked_idx) c.checked_idx c.read_idx c.read_buf ∙ h.size;
  };
  begin = λ c h. record { read = h.read; size = h.size };
  handled = λ k h. record { read = k.read_same ∙ h.read; size = k.size_same ∙ h.size };
}

HasSock-IsKept : (z : ℤ) → IsKept (λ c. c.sockfd ≡ z)
unfolding parse_line
HasSock-IsKept z = record { line = λ c h. h; begin = λ c h. h; handled = λ k h. k.sock_same ∙ h }

module _ (fs : Files) (root : Bytes) where
  record_code-sockfd :
      (code : HttpCode) (c : HttpConn) → (record_code fs root (code, c)).1.sockfd ≡ c.sockfd
  unfolding record_code
  record_code-sockfd no_request c = refl
  record_code-sockfd _ c = refl

  pub prepare_io_read-sockfd :
      (z : ℤ) (c : HttpConn) (r : ℕ × HttpConn)
      → c.sockfd ≡ z
      → prepare_io_read fs root c ≡ some r
      → r.1.sockfd ≡ z
  unfolding prepare_io_read
  prepare_io_read-sockfd z c r h p = elim (Option-cases (process_read fs root c)) [
    | inl e ↦ absurd (ground (arith, rw (e, prepare_io_read) at p))
    | inr ((code, d), e) ↦
        subst (λ x. x.1.sockfd ≡ z) (some_eq (rw (e, prepare_io_read) at p))
          (record_code-sockfd code d ∙ process_read-Has fs root (HasSock-IsKept z) c d code h e)
  ]
    where
      some_eq : {x : ℕ × HttpConn} → ◌≡◌ {A = Option (ℕ × HttpConn)} (some x) (some r) → x ≡ r
      some_eq h = ground arith
