-- ===== src/Http/Parser/Invariant.antt =====
-- The main state machine of http_conn.cpp keeps its indices in order, and ends.
use reactor_web_server.Common.{
  ℕ, zero, suc, ◌+◌, ◌-◌, ◌*◌, ◌≤◌, ◌<◌, ◌≡◌, ◌≢◌, refl, length, arith, Option, some,
}
use reactor_web_server.Common.Text.{Bytes}
use reactor_web_server.Http.{
  HttpConn, HttpCode, get_request, bad_request, CheckState, request_line, header, body, LineStatus,
  line_ok, line_open, read_buffer_size,
}
use reactor_web_server.Http.Line.{parse_line}
use reactor_web_server.Http.Line.Bounds.{scan-Scanned}
use reactor_web_server.Http.RequestLine.{parse_request_line}
use reactor_web_server.Http.Header.{parse_headers}
use reactor_web_server.Http.Resource.{Files, do_request}
use reactor_web_server.Http.Parser.{
  Round, done, again, parse_body, after_request_line, after_header, after_body, dispatch,
  handle_line, after_scan, process_round, process_loop, process_read,
}
use reactor_web_server.Http.Parser.Keeps.{
  Keeps, parse_request_line-Keeps, parse_headers-Keeps, parse_body-Keeps, do_request-Keeps,
}

-- The indices of the read buffer are in order and inside it, and the body fits it.
pub record IsValid (c : HttpConn) : Type 0 where
  pub start-le : c.start_line ≤ c.checked_idx
  pub checked-le : c.checked_idx ≤ c.read_idx
  pub read-le : c.read_idx ≤ length c.read_buf
  pub body-lt : c.content_length < read_buffer_size

pub Keeps-IsValid : {c d : HttpConn} → Keeps c d → IsValid c → IsValid d
Keeps-IsValid k v = record {
  start-le = omega (arith, k.read_same, k.checked_same, k.start_same, v.start-le);
  checked-le = omega (arith, k.read_same, k.checked_same, v.checked-le);
  read-le = omega (arith, k.read_same, k.size_same, v.read-le);
  body-lt = k.bounded v.body-lt;
}

-- What is left to do, in half rounds: a body can be looked at once without reading a line.
abbrev pub measure : CheckState → LineStatus → HttpConn → ℕ
measure body line_ok c = 2 * (c.read_idx - c.checked_idx) + 1
measure _ _ c = 2 * (c.read_idx - c.checked_idx)

-- A round ends in a valid connection; if it goes on, less is left, and if it returns, the request
-- for a resource was made.
abbrev pub Good : ℕ → Round → Type 0
Good m (done (code, d)) = IsValid d × (code ≢ get_request)
Good m (again ls d) = IsValid d × (measure d.check_state ls d < m)

measure-le :
    (s : CheckState) (ls : LineStatus) (c : HttpConn)
    → measure s ls c ≤ 2 * (c.read_idx - c.checked_idx) + 1
measure-le body line_ok c = omega arith
measure-le _ _ c = omega arith

measure_open :
    (s : CheckState) (c : HttpConn) → measure s line_open c ≡ 2 * (c.read_idx - c.checked_idx)
measure_open body c = refl
measure_open _ c = refl

Good-mono : {m n : ℕ} (r : Round) → m ≤ n → Good m r → Good n r
Good-mono (done (code, d)) h g = g
Good-mono (again ls d) h g = (g.0, omega (arith, g.1))

do_request-ne-get :
    (fs : Files) (root : Bytes) (c : HttpConn) → (do_request fs root c).0 ≢ get_request
unfolding do_request
do_request-ne-get fs root c = λ e. ground arith

rest : HttpConn → ℕ
rest c = 2 * (c.read_idx - c.checked_idx)

pub parse_line-IsValid : (c : HttpConn) → IsValid c → IsValid (parse_line c).1
unfolding parse_line
parse_line-IsValid c v =
    let s =
      scan-Scanned (c.read_idx - c.checked_idx) c.read_buf c.checked_idx c.read_idx
        (omega (arith, v.checked-le)) in
    record {
      start-le = omega (arith, v.start-le, s.forward);
      checked-le = s.inside;
      read-le = omega (arith, v.read-le, s.same_size);
      body-lt = v.body-lt;
    }

module _ (fs : Files) (root : Bytes) where
  do_request-Good : (m : ℕ) {c : HttpConn} → IsValid c → Good m (done (do_request fs root c))
  do_request-Good m {c} v =
      (Keeps-IsValid (do_request-Keeps fs root c) v, do_request-ne-get fs root c)

  again-Good :
      {c d : HttpConn} (ls : LineStatus) → IsValid c → Keeps c d → Good (rest c + 2) (again ls d)
  unfolding rest
  again-Good {c} {d} ls v k =
      (Keeps-IsValid k v, omega (arith, measure-le d.check_state ls d, k.read_same, k.checked_same))

  after_request_line-Good :
      {c : HttpConn} (r : HttpCode × HttpConn)
      → IsValid c
      → Keeps c r.1
      → Good (rest c + 2) (after_request_line fs root r)
  unfolding after_request_line
  after_request_line-Good (bad_request, d) v k = (Keeps-IsValid k v, λ e. cc)
  after_request_line-Good (_, d) v k = again-Good line_ok v k

  after_header-Good :
      {c : HttpConn} (r : HttpCode × HttpConn)
      → IsValid c
      → Keeps c r.1
      → Good (rest c + 2) (after_header fs root r)
  unfolding after_header
  after_header-Good (bad_request, d) v k = (Keeps-IsValid k v, λ e. cc)
  after_header-Good {c} (get_request, d) v k = do_request-Good (rest c + 2) (Keeps-IsValid k v)
  after_header-Good (_, d) v k = again-Good line_ok v k

  -- After a body the next round reads a line.
  after_body-Good :
      {c : HttpConn} (r : HttpCode × HttpConn)
      → IsValid c
      → Keeps c r.1
      → Good (rest c + 1) (after_body fs root r)
  unfolding after_body rest
  after_body-Good {c} (get_request, d) v k = do_request-Good (rest c + 1) (Keeps-IsValid k v)
  after_body-Good (_, d) v k =
      (Keeps-IsValid k v, omega (arith, measure_open d.check_state d, k.read_same, k.checked_same))

  -- The line starts anew where the scan stopped.
  started-IsValid : {c : HttpConn} → IsValid c → IsValid (record c { start_line = c.checked_idx })
  started-IsValid v = record {
    start-le = omega arith;
    checked-le = v.checked-le;
    read-le = v.read-le;
    body-lt = v.body-lt;
  }

  dispatch-Good :
      (s : CheckState) {c : HttpConn} (text : ℕ)
      → IsValid c
      → Good (rest c + 2) (dispatch fs root s c text)
  unfolding dispatch
  dispatch-Good request_line {c} text v =
      after_request_line-Good (parse_request_line c text) v (parse_request_line-Keeps c text)
  dispatch-Good header {c} text v =
      after_header-Good (parse_headers c text) v (parse_headers-Keeps c text)
  dispatch-Good body {c} text v =
      Good-mono (after_body fs root (parse_body c text)) (omega arith)
        (after_body-Good (parse_body c text) v (parse_body-Keeps c text))

  scanned-Good :
      (c : HttpConn) (r : LineStatus × HttpConn)
      → IsValid r.1
      → (r.0 ≡ line_ok → rest r.1 + 2 ≤ rest c)
      → Good (rest c) (after_scan fs root r)
  unfolding after_scan handle_line rest
  scanned-Good c (line_ok, d) v p =
      Good-mono (handle_line fs root d) (p refl)
        (dispatch-Good d.check_state d.start_line (started-IsValid v))
  scanned-Good c (_, d) v p = (v, λ e. cc)

  parse_line-Good : (c : HttpConn) → IsValid c → Good (rest c) (after_scan fs root (parse_line c))
  unfolding parse_line rest
  parse_line-Good c v =
      let s =
        scan-Scanned (c.read_idx - c.checked_idx) c.read_buf c.checked_idx c.read_idx
          (omega (arith, v.checked-le)) in
      scanned-Good c (parse_line c) (parse_line-IsValid c v)
        (λ e. omega (arith, s.progress e, s.inside))

  body-Good :
      (s : CheckState) (c : HttpConn) (text : ℕ)
      → s ≡ body
      → IsValid c
      → Good (rest c + 1) (dispatch fs root s c text)
  unfolding dispatch
  body-Good body c text e v = after_body-Good (parse_body c text) v (parse_body-Keeps c text)
  body-Good request_line c text e v = cc
  body-Good header c text e v = cc

  pub process_round-Good :
      (s : CheckState) (ls : LineStatus) (c : HttpConn)
      → c.check_state ≡ s
      → IsValid c
      → Good (measure s ls c) (process_round fs root s ls c)
  unfolding process_round handle_line rest
  process_round-Good body line_ok c e v =
      body-Good c.check_state (record c { start_line = c.checked_idx }) c.start_line e
        (started-IsValid v)
  process_round-Good _ _ c e v = parse_line-Good c v

  -- The result of the loop: there is one, it is valid, and it asks for no further resource.
  abbrev pub Finished : Option (HttpCode × HttpConn) → Type 0
  Finished r =
      (code : HttpCode) × (d : HttpConn) × (r ≡ some (code, d)) × IsValid d × (code ≢ get_request)

  process_loop-Finished :
      (n : ℕ) (ls : LineStatus) (c : HttpConn)
      → IsValid c
      → measure c.check_state ls c < n
      → Finished (process_loop fs root n ls c)
  unfolding process_loop
  process_loop-Finished zero ls c v h = absurd (omega arith)
  process_loop-Finished (suc n) ls c v h =
      next (process_round fs root c.check_state ls c) refl
        (process_round-Good c.check_state ls c refl v)
        (λ ls' d w l. process_loop-Finished n ls' d w (omega arith))
    where
      next :
          (r : Round)
          → process_round fs root c.check_state ls c ≡ r
          → Good (measure c.check_state ls c) r
          → ((ls' : LineStatus) (d : HttpConn)
              → IsValid d
              → measure d.check_state ls' d < measure c.check_state ls c
              → Finished (process_loop fs root n ls' d))
          → Finished (process_loop fs root (suc n) ls c)
      next (done (code, d)) e g ih = (code, d, rw (e, process_loop), g.0, g.1)
      next (again ls' d) e g ih = rw (e, process_loop) (ih ls' d g.0 g.1)

  -- On a valid connection process_read returns with the fuel that it has, keeps the connection
  -- valid, and never returns the code GetRequest.
  pub process_read-Finished : (c : HttpConn) → IsValid c → Finished (process_read fs root c)
  unfolding process_read
  process_read-Finished c v =
      process_loop-Finished _ line_ok c v (omega (arith, measure-le c.check_state line_ok c))
