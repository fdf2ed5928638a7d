-- ===== src/Http/Reset/Leftover.antt =====
-- The connection between two requests, in http_conn.cpp.
use reactor_web_server.Common.{
  ℕ, ◌-◌, ◌≡◌, refl, ap, sym, ◌∙◌, Bool, arith, ◌++◌, length, length-append, length-take,
  length-drop, take, drop, take-append, ltb, minus_one,
}
use reactor_web_server.Common.Text.{Bytes}
use reactor_web_server.Http.{HttpConn, request_line, Closed, close_fd}
use reactor_web_server.Http.Reset.{move_front, keep_leftover, reset_for_next}
use reactor_web_server.Http.Parser.Invariant.{IsValid}

-- The bytes read but not yet taken for a request.
abbrev pub unread_bytes : HttpConn → Bytes
unread_bytes c = take (c.read_idx - c.start_line) (drop c.start_line c.read_buf)

take_same : (n : ℕ) (xs ys : Bytes) → length xs ≡ n → take n (xs ++ ys) ≡ xs
take_same n xs ys h = ap (λ (k : ℕ). take k (xs ++ ys)) (sym h) ∙ take-append xs ys

length_unread : (c : HttpConn) → IsValid c → length (unread_bytes c) ≡ c.read_idx - c.start_line
length_unread c v = omega (
  arith,
  length-take (c.read_idx - c.start_line) (drop c.start_line c.read_buf),
  length-drop c.start_line c.read_buf,
  v.read-le,
)

-- A connection after the reset.
pub record Restarted (c d : HttpConn) (more : Bool) : Type 0 where
  pub kept : take d.read_idx d.read_buf ≡ unread_bytes c
  pub tells : more ≡ ltb 0 (length (unread_bytes c))
  pub same_size : length d.read_buf ≡ length c.read_buf
  pub valid : IsValid d
  pub no_file : d.file_fd ≡ minus_one
  pub at_request_line : d.check_state ≡ request_line

kept_lem :
    (c : HttpConn)
    → IsValid c
    → (take (keep_leftover c).read_idx (keep_leftover c).read_buf ≡ unread_bytes c)
      × ((keep_leftover c).read_idx ≡ length (unread_bytes c))
      × (length (keep_leftover c).read_buf ≡ length c.read_buf)
unfolding keep_leftover move_front
kept_lem c v = ground (
  arith,
  length_unread c v,
  take_same (c.read_idx - c.start_line) (unread_bytes c)
      (drop (c.read_idx - c.start_line) c.read_buf) (length_unread c v),
  length-append (unread_bytes c) (drop (c.read_idx - c.start_line) c.read_buf),
  length-drop (c.read_idx - c.start_line) c.read_buf,
)

-- The reset of a valid connection keeps exactly the unread bytes, now at the front of a buffer of
-- the same size, tells whether there are any, leaves a valid connection that waits for a request
-- line, and closes the file of the last response.
pub reset_for_next-Restarted :
    (c : HttpConn) (log : Closed)
    → IsValid c
    → Restarted c (reset_for_next c log).1 (reset_for_next c log).0
      × ((reset_for_next c log).2 ≡ close_fd c.file_fd log)
unfolding reset_for_next
reset_for_next-Restarted c log v =
    let k = kept_lem c v in
    (
      record {
        kept = k.0;
        tells = ap (ltb 0) k.1;
        same_size = k.2;
        valid = record {
          start-le = omega arith;
          checked-le = omega arith;
          read-le = omega (arith, k.1, k.2, length_unread c v, v.read-le);
          body-lt = omega arith;
        };
        no_file = refl;
        at_request_line = refl;
      },
      refl,
    )
