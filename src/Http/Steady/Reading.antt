-- ===== src/Http/Steady/Reading.antt =====
-- http_conn.cpp: read_once keeps a connection valid and on its socket.
use reactor_web_server.Common.{
  either_way, ℕ, ◌+◌, ◌≤◌, Bool, false, Option, none, some, List, [], ◌∷◌, leb, ◌==◌, length,
  length-take, take, arith, ℤ,
}
use reactor_web_server.Common.Text.{Bytes}
use reactor_web_server.Http.{HttpConn}
use reactor_web_server.Http.Read.{
  Recv, received, recv_failed, room, store, at_end, got, recv_step, recv_loop, read_once,
}
use reactor_web_server.Http.Read.Store.{length-store}
use reactor_web_server.Http.Write.{eagain, eintr, other_error}
use reactor_web_server.Http.Steady.{IsSteady}

module _ (z : ℤ) where
  -- What read_once returns, if it does.
  abbrev pub ReadSteady : Option (Bool × HttpConn) → Type 0
  ReadSteady none = Unit
  ReadSteady (some (b, d)) = IsSteady z d

  store-IsSteady :
      (c : HttpConn) (bs : Bytes)
      → c.read_idx + length bs ≤ length c.read_buf
      → IsSteady z c
      → IsSteady z (store c bs)
  unfolding store
  store-IsSteady c bs h v = record {
    valid = record {
      start-le = v.valid.start-le;
      checked-le = omega (arith, v.valid.checked-le);
      read-le = omega (arith, length-store c bs h, h);
      body-lt = v.valid.body-lt;
    };
    on_sock = v.on_sock;
  }

  got-ReadSteady :
      (before : ℕ) (next : HttpConn → Option (Bool × HttpConn)) (bs : Bytes) (c : HttpConn)
      → c.read_idx + length bs ≤ length c.read_buf
      → IsSteady z c
      → ((d : HttpConn) → IsSteady z d → ReadSteady (next d))
      → ReadSteady (got before next bs c)
  unfolding got at_end
  got-ReadSteady before next [] c h v ih = v
  got-ReadSteady before next (b ∷ bs) c h v ih = ih _ (store-IsSteady c (b ∷ bs) h v)

  recv_step-ReadSteady :
      (before : ℕ) (next : HttpConn → Option (Bool × HttpConn)) (o : Recv) (c : HttpConn)
      → IsSteady z c
      → ((d : HttpConn) → IsSteady z d → ReadSteady (next d))
      → ReadSteady (recv_step before next o c)
  unfolding recv_step
  recv_step-ReadSteady before next (received bs) c v ih =
      got-ReadSteady before next (take (room c) bs) c
        (omega (arith, length-take (room c) bs, v.valid.read-le)) v ih
  recv_step-ReadSteady before next (recv_failed eagain) c v ih = v
  recv_step-ReadSteady before next (recv_failed eintr) c v ih = ih c v
  recv_step-ReadSteady before next (recv_failed other_error) c v ih = v

  recv_loop-ReadSteady :
      (before : ℕ) (os : List Recv) (c : HttpConn)
      → IsSteady z c
      → ReadSteady (recv_loop before os c)
  unfolding recv_loop at_end
  recv_loop-ReadSteady before [] c v =
      either_way ReadSteady (room c == 0) (some (at_end before c)) none v tt
  recv_loop-ReadSteady before (o ∷ os) c v =
      either_way ReadSteady (room c == 0) (some (at_end before c))
        (recv_step before (recv_loop before os) o c) v
        (recv_step-ReadSteady before (recv_loop before os) o c v
          (λ d w. recv_loop-ReadSteady before os d w))

  pub read_once-ReadSteady :
      (os : List Recv) (c : HttpConn) → IsSteady z c → ReadSteady (read_once os c)
  unfolding read_once
  read_once-ReadSteady os c v =
      either_way ReadSteady (leb (length c.read_buf) c.read_idx) (some (false, c))
        (recv_loop c.read_idx os c) v (recv_loop-ReadSteady c.read_idx os c v)
