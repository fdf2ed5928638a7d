-- ===== src/Http/Parser/Stray.antt =====
-- What http_conn.cpp does with a line whose end it does not accept.
use reactor_web_server.Common.{
  ℕ, zero, suc, ◌+◌, ◌-◌, ◌*◌, ◌≤◌, ◌<◌, ◌≡◌, ◌≢◌, refl, get_or, sym, subst, ◌∙◌, true, length,
  get_or-take_append, arith, List, Option, some, ◌++◌, drop, take,
}
use reactor_web_server.Common.Text.{Bytes}
use reactor_web_server.Http.{HttpConn, no_request, CheckState, request_line, header, body, line_ok}
use reactor_web_server.Http.Line.Find.{Stray, EndsStray, parse_line_stray}
use reactor_web_server.Http.Read.{Recv, room, store, read_once}
use reactor_web_server.Http.Read.Store.{length-store}
use reactor_web_server.Http.Read.Receives.{bytes_of, read_once-Receives}
use reactor_web_server.Http.Resource.{Files}
use reactor_web_server.Http.Parser.{
  done, after_scan, process_round, process_loop, process_read, prepare_io_read,
}

-- A connection that is reading the request line or a header, with a line whose end, at `p`, the
-- scanner does not accept.
pub record IsStuck (p : ℕ) (c : HttpConn) : Type 0 where
  pub no_body : c.check_state ≢ body
  pub line : EndsStray p c
  pub in_buffer : c.read_idx ≤ length c.read_buf

-- Where the scanner stops.
abbrev pub stopped : ℕ → HttpConn → HttpConn
stopped p c = record c { checked_idx = p }

module _ (fs : Files) (root : Bytes) where
  process_round_stuck :
      (p : ℕ) (s : CheckState) (c : HttpConn)
      → s ≢ body
      → EndsStray p c
      → process_round fs root s line_ok c ≡ done (no_request, stopped p c)
  unfolding process_round after_scan
  process_round_stuck p body c n h = absurd (n refl)
  process_round_stuck p request_line c n h = rw (parse_line_stray p c h)
  process_round_stuck p header c n h = rw (parse_line_stray p c h)

  process_loop_stuck :
      (p n : ℕ) (c : HttpConn)
      → 0 < n
      → IsStuck p c
      → process_loop fs root n line_ok c ≡ some (no_request, stopped p c)
  unfolding process_loop
  process_loop_stuck p zero c l h = absurd (omega arith)
  process_loop_stuck p (suc n) c l h =
      rw (process_round_stuck p c.check_state c h.no_body h.line, process_loop)

  pub prepare_io_read_stuck :
      (p : ℕ) (c : HttpConn) → IsStuck p c → prepare_io_read fs root c ≡ some (0, stopped p c)
  unfolding prepare_io_read process_read
  prepare_io_read_stuck p c h = rw (
    process_loop_stuck p (2 * (c.read_idx - c.checked_idx) + 2) c (omega arith) h,
    prepare_io_read,
  )

stopped-IsStuck : (p : ℕ) (c : HttpConn) → IsStuck p c → IsStuck p (stopped p c)
stopped-IsStuck p c h = record {
  no_body = h.no_body;
  line = record {
    ahead = omega arith;
    unread = h.line.unread;
    clean = λ i l m. absurd (omega arith);
    stray = h.line.stray;
  };
  in_buffer = h.in_buffer;
}

store-Stray :
    (buf bs later : Bytes) (i r k : ℕ)
    → i < r
    → r ≤ length buf
    → Stray buf i r
    → Stray (take r buf ++ (bs ++ later)) i (r + k)
store-Stray buf bs later i r k l h s = ground (
  arith,
  get_or-take_append r buf (bs ++ later) i 0 l h,
  get_or-take_append r buf (bs ++ later) (i + 1) 0,
  get_or-take_append r buf (bs ++ later) (i - 1) 0,
)

store-clean :
    (buf bs later : Bytes) (i r : ℕ)
    → i < r
    → r ≤ length buf
    → (get_or buf i 0 ≢ b'\r') × (get_or buf i 0 ≢ b'\n')
    → (get_or (take r buf ++ (bs ++ later)) i 0 ≢ b'\r')
      × (get_or (take r buf ++ (bs ++ later)) i 0 ≢ b'\n')
store-clean buf bs later i r l h s = rw (get_or-take_append r buf (bs ++ later) i 0 l h) s

-- More bytes do not help.
pub store-IsStuck :
    (p : ℕ) (c : HttpConn) (bs : Bytes)
    → c.read_idx + length bs ≤ length c.read_buf
    → IsStuck p c
    → IsStuck p (store c bs)
unfolding store
store-IsStuck p c bs h s =
    let later = drop (c.read_idx + length bs) c.read_buf in
    record {
      no_body = s.no_body;
      line = record {
        ahead = s.line.ahead;
        unread = omega (arith, s.line.unread);
        clean = λ i l m.
            store-clean c.read_buf bs later i c.read_idx (omega (arith, s.line.unread)) s.in_buffer
              (s.line.clean i l m);
        stray =
            store-Stray c.read_buf bs later p c.read_idx (length bs) s.line.unread s.in_buffer
              s.line.stray;
      };
      in_buffer = omega (arith, length-store c bs h);
    }

-- The connection after some rounds of reading and parsing, as deal_read makes them, whatever
-- the parser answers in them.
pub data Polled (fs : Files) (root : Bytes) (c : HttpConn) : HttpConn → Type 0 where
  start : Polled fs root c c
  poll :
      {d e f : HttpConn} {r : ℕ}
      → Polled fs root c d
      → (os : List Recv) → length (bytes_of os) ≤ room d
      → read_once os d ≡ some (true, e)
      → prepare_io_read fs root e ≡ some (r, f)
      → Polled fs root c f

read_once-IsStuck :
    (p : ℕ) (os : List Recv) (d e : HttpConn)
    → IsStuck p d
    → length (bytes_of os) ≤ room d
    → read_once os d ≡ some (true, e)
    → IsStuck p e
read_once-IsStuck p os d e s l r =
    let got = read_once-Receives os d true e s.in_buffer l r in
    subst (IsStuck p) (sym got.stored) (store-IsStuck p d got.bytes got.fits s)

answered_once :
    {r : ℕ} {e f : HttpConn} → ◌≡◌ {A = Option (ℕ × HttpConn)} (some (0, e)) (some (r, f)) → e ≡ f
answered_once h = ground arith

Polled-IsStuck :
    {fs : Files} {root : Bytes} {c d : HttpConn} {p : ℕ}
    → IsStuck p c
    → Polled fs root c d
    → IsStuck p d
Polled-IsStuck s start = s
Polled-IsStuck {fs} {root} {p = p} s (poll {d} {e} before os l r q) =
    let stuck = read_once-IsStuck p os d e (Polled-IsStuck s before) l r in
    subst (IsStuck p) (answered_once (sym (prepare_io_read_stuck fs root p e stuck) ∙ q))
      (stopped-IsStuck p e stuck)

-- A connection in front of a request line or a header whose first end of line, which is read, is a
-- bare '\n' or a '\r' with another byte than '\n' behind it: after any number of rounds of reading
-- and parsing, whatever the client sends, the next round, with the bytes it brings, has the answer
-- 0, to wait for more, and the scanner stands on that end of line.
pub stray_never_answered :
    (fs : Files) (root : Bytes) (p : ℕ) (c d e : HttpConn) (os : List Recv)
    → IsStuck p c
    → Polled fs root c d
    → length (bytes_of os) ≤ room d
    → read_once os d ≡ some (true, e)
    → prepare_io_read fs root e ≡ some (0, record e { checked_idx = p })
stray_never_answered fs root p c d e os s polled l r =
    prepare_io_read_stuck fs root p e (read_once-IsStuck p os d e (Polled-IsStuck s polled) l r)
