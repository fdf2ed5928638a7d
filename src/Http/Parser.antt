-- ===== src/Http/Parser.antt =====
-- http_conn.cpp, parse_body, process_read and prepare_io_read: the main state machine.
pub mod Keeps
pub mod Invariant
pub mod Induction
pub mod Loop
pub mod Stray
pub mod Body
pub mod BodyFaults
use reactor_web_server.Common.{
  ℕ, zero, suc, ◌+◌, ◌-◌, ◌*◌, Bool, true, false, ◌||◌, ◌&&◌, Option, none, some, leb, ltb, ◌==◌,
  if◌then◌else◌,
}
use reactor_web_server.Common.Text.{Bytes}
use reactor_web_server.Http.{
  HttpConn, HttpCode, no_request, get_request, bad_request, no_resource, forbidden_request,
  file_request, internal_error, CheckState, request_line, header, body, LineStatus, line_ok,
  line_bad, line_open, read_buffer_size,
}
use reactor_web_server.Http.Line.{parse_line}
use reactor_web_server.Http.RequestLine.{parse_request_line, put_nul}
use reactor_web_server.Http.Header.{parse_headers}
use reactor_web_server.Http.Resource.{Files, do_request}

unfoldable pub parse_body : HttpConn → ℕ → HttpCode × HttpConn
parse_body c text =
    if leb read_buffer_size c.content_length
    then (bad_request, c)
    else if leb (c.content_length + c.checked_idx) c.read_idx
    then (get_request, put_nul c (text + c.content_length))
    else (no_request, c)

-- How an iteration of the loop ends: by `return`, or with the next `line_status`.
pub data Round : Type 0 where
  done : HttpCode × HttpConn → Round
  again : LineStatus → HttpConn → Round

module _ (fs : Files) (root : Bytes) where
  unfoldable pub after_request_line : HttpCode × HttpConn → Round
  after_request_line (bad_request, c) = done (bad_request, c)
  after_request_line (_, c) = again line_ok c

  unfoldable pub after_header : HttpCode × HttpConn → Round
  after_header (bad_request, c) = done (bad_request, c)
  after_header (get_request, c) = done (do_request fs root c)
  after_header (_, c) = again line_ok c

  unfoldable pub after_body : HttpCode × HttpConn → Round
  after_body (get_request, c) = done (do_request fs root c)
  after_body (_, c) = again line_open c

  -- The switch, with the state that it looks at and the offset of the line.
  unfoldable pub dispatch : CheckState → HttpConn → ℕ → Round
  unfolding after_request_line after_header after_body
  dispatch request_line c text = after_request_line (parse_request_line c text)
  dispatch header c text = after_header (parse_headers c text)
  dispatch body c text = after_body (parse_body c text)

  -- The body of the loop.
  unfoldable pub handle_line : HttpConn → Round
  unfolding dispatch
  handle_line c = dispatch c.check_state (record c { start_line = c.checked_idx }) c.start_line

  unfoldable pub after_scan : LineStatus × HttpConn → Round
  after_scan (line_ok, c) = handle_line c
  after_scan (_, c) = done (no_request, c)

  -- The condition of the loop and its body.
  unfoldable pub process_round : CheckState → LineStatus → HttpConn → Round
  unfolding handle_line after_scan
  process_round body line_ok c = handle_line c
  process_round _ _ c = after_scan (parse_line c)

  -- The loop on fuel; `none` means that the fuel ran out.
  unfoldable pub process_loop : ℕ → LineStatus → HttpConn → Option (HttpCode × HttpConn)
  unfolding process_round
  process_loop zero ls c = none
  process_loop (suc n) ls c = elim (process_round c.check_state ls c) [
    | done r ↦ some r
    | again ls' c' ↦ process_loop n ls' c'
  ]

  unfoldable pub process_read : HttpConn → Option (HttpCode × HttpConn)
  unfolding process_loop
  process_read c = process_loop (2 * (c.read_idx - c.checked_idx) + 2) line_ok c

  unfoldable pub record_code : HttpCode × HttpConn → ℕ × HttpConn
  record_code (no_request, c) = (0, c)
  record_code (code, c) = (1, record c { parsed_code = code })

  unfoldable pub prepare_io_read : HttpConn → Option (ℕ × HttpConn)
  unfolding process_read record_code
  prepare_io_read c = elim (process_read c) [ none ↦ none | some r ↦ some (record_code r) ]
