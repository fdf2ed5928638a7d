-- ===== src/Http/Parser/BodyFaults.antt =====
-- How http_conn.cpp loses track of a body: in two parts it is never complete, and a complete one
-- stays in the buffer as if it were the next request.
use reactor_web_server.Common.{
  ℕ, suc, ◌+◌, ◌-◌, ◌*◌, ◌≤◌, ◌<◌, ◌≡◌, refl, ap₂, ◌∙◌, true, length, arith, some, drop, take,
  lt→ltb, length-take,
}
use reactor_web_server.Common.Text.{Bytes}
use reactor_web_server.Http.{HttpConn, HttpCode, body, line_ok, read_buffer_size, Closed}
use reactor_web_server.Http.Line.Find.{IsLine}
use reactor_web_server.Http.RequestLine.{put_nul}
use reactor_web_server.Http.Read.{store}
use reactor_web_server.Http.Reset.{keep_leftover, reset_for_next}
use reactor_web_server.Http.Resource.{Files, do_request}
use reactor_web_server.Http.Parser.{done, parse_body, after_body, process_read, prepare_io_read}
use reactor_web_server.Http.Parser.Body.{
  UnreadIsLine, body_round, process_loop_done, waiting, body_waits,
}
use reactor_web_server.Http.Parser.Keeps.{do_request-Keeps}

fuel_two : (x : ℕ) → 2 * x + 2 ≡ suc (suc (2 * x))
fuel_two x = omega arith

module _ (fs : Files) (root : Bytes) where
  prepare_waits :
      (c : HttpConn)
      → c.check_state ≡ body
      → c.content_length < read_buffer_size
      → c.read_idx < c.content_length + c.checked_idx
      → UnreadIsLine c
      → prepare_io_read fs root c ≡ some (0, waiting fs root c)
  unfolding prepare_io_read process_read
  prepare_waits c e b h u = rw (
    fuel_two (c.read_idx - c.checked_idx),
    body_waits fs root (2 * (c.read_idx - c.checked_idx)) c e b h u,
    prepare_io_read,
  )

  stored_IsLine :
      (c : HttpConn) (bs : Bytes)
      → c.read_idx ≤ length c.read_buf
      → IsLine bs
      → UnreadIsLine (store (waiting fs root c) bs)
  unfolding store
  stored_IsLine c bs h l = record {
    before = take c.read_idx c.read_buf;
    unread = bs;
    behind = drop (c.read_idx + length bs) c.read_buf;
    buffer = refl;
    checked_at = omega (arith, length-take c.read_idx c.read_buf);
    read_at = omega (arith, length-take c.read_idx c.read_buf);
    is_line = l;
  }

  -- A body that comes in two parts, neither with an end of line, is not recognised as complete:
  -- also when exactly the missing bytes have arrived, the parser asks for more.
  pub body_in_two_parts :
      (c : HttpConn) (bs : Bytes)
      → c.check_state ≡ body
      → c.content_length < read_buffer_size
      → c.checked_idx < c.read_idx
      → c.read_idx + length bs ≡ c.content_length + c.checked_idx
      → 0 < length bs
      → c.read_idx ≤ length c.read_buf
      → UnreadIsLine c
      → IsLine bs
      → (d : HttpConn) × (prepare_io_read fs root c ≡ some (0, d))
        × (prepare_io_read fs root (store d bs) ≡ some (0, waiting fs root (store d bs)))
  unfolding store
  body_in_two_parts c bs e b h whole more fits u l = (
    waiting fs root c,
    prepare_waits c e b (omega arith) u,
    prepare_waits (store (waiting fs root c) bs) e b (omega arith) (stored_IsLine c bs fits l),
  )

  complete_body :
      (c : HttpConn) (text : ℕ)
      → c.content_length < read_buffer_size
      → c.content_length + c.checked_idx ≤ c.read_idx
      → after_body fs root (parse_body c text)
        ≡ done (do_request fs root (put_nul c (text + c.content_length)))
  unfolding after_body parse_body
  complete_body c text b h = ground arith

  complete_read :
      (c : HttpConn)
      → c.check_state ≡ body
      → c.content_length < read_buffer_size
      → c.content_length + c.checked_idx ≤ c.read_idx
      → process_read fs root c
        ≡ some (
            do_request fs root
              (put_nul (record c { start_line = c.checked_idx }) (c.start_line + c.content_length)))
  unfolding process_read
  complete_read c e b h = rw (
    fuel_two (c.read_idx - c.checked_idx),
    process_loop_done fs root (suc (2 * (c.read_idx - c.checked_idx))) line_ok c _ (
        body_round fs root c e
        ∙ complete_body (record c { start_line = c.checked_idx }) c.start_line b h),
  )

keep_leftover-read_idx :
    (c : HttpConn)
    → c.start_line ≤ c.read_idx
    → (keep_leftover c).read_idx ≡ c.read_idx - c.start_line
unfolding keep_leftover
keep_leftover-read_idx c h = ground arith

-- A complete body ends the parsing, but the reset before the next request keeps it: the bytes from
-- the start of the body on are taken for a request that is already there.
pub body_left_over :
    (fs : Files) (root : Bytes) (c : HttpConn) (log : Closed)
    → c.check_state ≡ body
    → c.content_length < read_buffer_size
    → 0 < c.content_length
    → c.content_length + c.checked_idx ≤ c.read_idx
    → (code : HttpCode) × (d : HttpConn) × (process_read fs root c ≡ some (code, d))
      × ((reset_for_next d log).0 ≡ true)
      × ((reset_for_next d log).1.read_idx ≡ c.read_idx - c.checked_idx)
unfolding reset_for_next
body_left_over fs root c log e b pos h =
    let p : HttpConn =
      put_nul (record c { start_line = c.checked_idx }) (c.start_line + c.content_length) in
    let r : HttpCode × HttpConn = do_request fs root p in
    let k = do_request-Keeps fs root p in
    let left : (keep_leftover r.1).read_idx ≡ c.read_idx - c.checked_idx =
      keep_leftover-read_idx r.1 (omega (arith, k.start_same, k.read_same))
      ∙ ap₂ (λ (m : ℕ) (n : ℕ). m - n) k.read_same k.start_same in
    (r.0, r.1, complete_read fs root c e b h, lt→ltb 0 _ (omega (arith, left)), left)
