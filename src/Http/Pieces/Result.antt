-- ===== src/Http/Pieces/Result.antt =====
-- What process_read of http_conn.cpp returns, when more bytes arrive behind those it looked at.
use reactor_web_server.Common.{
  ℕ, ◌+◌, ◌≤◌, ◌≡◌, ◌≢◌, refl, sym, ◌∙◌, length, arith, Option, some, subst,
}
use reactor_web_server.Common.Text.{Bytes}
use reactor_web_server.Http.{HttpConn, HttpCode, no_request, body, line_ok}
use reactor_web_server.Http.Resource.{Files}
use reactor_web_server.Http.Read.{store}
use reactor_web_server.Http.Read.Store.{length-store}
use reactor_web_server.Http.Parser.{process_read}
use reactor_web_server.Http.Parser.Invariant.{IsValid, process_read-Finished}
use reactor_web_server.Http.Parser.Induction.{HasRead, HasRead-IsKept, process_read-Has}
use reactor_web_server.Http.Parser.Loop.{some_eq, process_read_fuel, process_read_loop}
use reactor_web_server.Http.Pieces.Loop.{goes_on, process_loop_more}

pub store-IsValid :
    (c : HttpConn) (bs : Bytes)
    → c.read_idx + length bs ≤ length c.read_buf
    → IsValid c
    → IsValid (store c bs)
unfolding store
store-IsValid c bs h v = record {
  start-le = v.start-le;
  checked-le = omega (arith, v.checked-le);
  read-le = omega (arith, length-store c bs h);
  body-lt = v.body-lt;
}

module _ (fs : Files) (root : Bytes) where
  -- What comes of a result when more bytes arrive: a request for more calls the parser again, any
  -- other result stays.
  abbrev pub with_next : Bytes → HttpCode × HttpConn → Option (HttpCode × HttpConn)
  with_next bs (no_request, d) = process_read fs root (store d bs)
  with_next bs (code, d) = some (code, store d bs)

  left_IsValid :
      (c d : HttpConn) (code : HttpCode)
      → IsValid c
      → process_read fs root c ≡ some (code, d)
      → IsValid d
  left_IsValid c d code v e =
      let f = process_read-Finished fs root c v in
      subst (λ r. IsValid r.1) (some_eq (sym f.2 ∙ e)) f.3

  pub left-HasRead :
      (c d : HttpConn) (code : HttpCode)
      → process_read fs root c ≡ some (code, d)
      → HasRead c.read_idx (length c.read_buf) d
  left-HasRead c d code e =
      process_read-Has fs root (HasRead-IsKept c.read_idx (length c.read_buf)) c d code
        (record { read = refl; size = refl }) e

  next-IsValid :
      (c d : HttpConn) (code : HttpCode) (bs : Bytes)
      → IsValid c
      → c.read_idx + length bs ≤ length c.read_buf
      → process_read fs root c ≡ some (code, d)
      → IsValid (store d bs)
  next-IsValid c d code bs v h e =
      let k = left-HasRead c d code e in
      store-IsValid d bs (omega (arith, k.read, k.size)) (left_IsValid c d code v e)

  with_next_fuel :
      (bs : Bytes) (code : HttpCode) (d : HttpConn)
      → IsValid (store d bs)
      → (m : ℕ) × (r : HttpCode × HttpConn) × (goes_on fs root m bs code d ≡ some r)
        × (with_next bs (code, d) ≡ some r)
  unfolding process_read
  with_next_fuel bs no_request d v =
      let f = process_read-Finished fs root (store d bs) v in (_, (f.0, f.1), f.2, f.2)
  with_next_fuel bs _ d v = (0, _, refl, refl)

  -- A valid connection, a call of process_read that does not end inside a body, and more bytes:
  -- what comes of the two pieces is what one call makes of all bytes at once.
  pub process_read-store :
      (c d : HttpConn) (code : HttpCode) (bs : Bytes)
      → IsValid c
      → c.read_idx + length bs ≤ length c.read_buf
      → process_read fs root c ≡ some (code, d)
      → d.check_state ≢ body
      → process_read fs root (store c bs) ≡ with_next bs (code, d)
  process_read-store c d code bs v h e n =
      let f = with_next_fuel bs code d (next-IsValid c d code bs v h e) in
      process_read_fuel fs root _ (store c bs) f.1 (store-IsValid c bs h v) (
        process_loop_more fs root _ f.0 bs line_ok c d code f.1 v
          (process_read_loop fs root c (code, d) e) n f.2)
      ∙ sym f.3
