-- ===== src/Http/Pieces.antt =====
-- The parser of http_conn.cpp over a request that arrives in pieces: read_once and prepare_io_read
-- by turns, as SubReactor::deal_read makes them while requests stay incomplete.
mod Buffer
mod Scans
mod Lines
mod Handlers
mod Rounds
mod Bodies
mod Loop
mod Result
use reactor_web_server.Common.{
  ℕ, zero, suc, ◌+◌, ◌≤◌, ◌≡◌, ◌≢◌, refl, ap, sym, ◌∙◌, length, length-append, arith, Option, some,
  subst, [], ◌++◌, append-nil, inl, inr, Option-cases,
}
use reactor_web_server.Common.Text.{Bytes}
use reactor_web_server.Http.{
  HttpConn, HttpCode, no_request, get_request, bad_request, no_resource, forbidden_request,
  file_request, internal_error, body,
}
use reactor_web_server.Http.Resource.{Files}
use reactor_web_server.Http.Read.{store}
use reactor_web_server.Http.Read.Store.{store-nil, store-store, length-store}
use reactor_web_server.Http.Read.Receives.{Receives}
use reactor_web_server.Http.Parser.{process_read, record_code, prepare_io_read}
use reactor_web_server.Http.Parser.Invariant.{IsValid}
use reactor_web_server.Http.Parser.Induction.{HasRead}
use reactor_web_server.Http.Parser.Loop.{some_eq}
use reactor_web_server.Http.Pieces.Result.{store-IsValid, left-HasRead, process_read-store}

-- A connection that got some bytes in pieces: as long as the parser asks for more, inside the
-- request line or the headers, read_once stores what the socket has.
pub data Pieces (fs : Files) (root : Bytes) (c : HttpConn) : Bytes → HttpConn → Type 0 where
  whole : Pieces fs root c [] c
  piece :
      {bs : Bytes} {d e f : HttpConn}
      → Pieces fs root c bs d
      → prepare_io_read fs root d ≡ some (0, e)
      → e.check_state ≢ body
      → (all : Bytes) (r : Receives e all f) → Pieces fs root c (bs ++ r.bytes) f

module _ (fs : Files) (root : Bytes) where
  only_zero :
      (r : HttpCode × HttpConn) (e : HttpConn)
      → record_code fs root r ≡ (0, e)
      → r ≡ (no_request, e)
  unfolding record_code
  only_zero (no_request, x) e h = ap (λ t. (no_request, t.1)) h
  only_zero (get_request, x) e h = ground arith
  only_zero (_, x) e h = ground arith

  asks_for_more :
      (d e : HttpConn)
      → prepare_io_read fs root d ≡ some (0, e)
      → process_read fs root d ≡ some (no_request, e)
  unfolding prepare_io_read
  asks_for_more d e h = elim (Option-cases (process_read fs root d)) [
    | inl n ↦ absurd (ground (arith, rw (n, prepare_io_read) at h))
    | inr (r, n) ↦ n ∙ ap some (only_zero r e (some_eq (rw (n, prepare_io_read) at h)))
  ]

  -- The bytes fit, and the parser goes on from the pieces as from all of them at once.
  record Joined (c : HttpConn) (bs : Bytes) (d : HttpConn) : Type 0 where
    fits : c.read_idx + length bs ≤ length c.read_buf
    same : process_read fs root d ≡ process_read fs root (store c bs)

  piece-Joined :
      (c d e f : HttpConn) (bs all : Bytes)
      → IsValid c
      → Joined c bs d
      → process_read fs root d ≡ some (no_request, e)
      → e.check_state ≢ body
      → (r : Receives e all f) → Joined c (bs ++ r.bytes) f
  unfolding store
  piece-Joined c d e f bs all v j p n r =
      let q = sym j.same ∙ p in
      let k = left-HasRead fs root (store c bs) e no_request q in
      let room : c.read_idx + length bs + length r.bytes ≤ length c.read_buf =
        omega (arith, k.read, k.size, length-store c bs j.fits, r.fits) in
      record {
        fits = omega (arith, length-append bs r.bytes, room);
        same =
            ap (process_read fs root) r.stored
            ∙ sym (
                process_read-store fs root (store c bs) e no_request r.bytes
                  (store-IsValid c bs j.fits v) (omega (arith, room, length-store c bs j.fits)) q n)
            ∙ ap (process_read fs root) (store-store c bs r.bytes j.fits);
      }

  Pieces-Joined : (c d : HttpConn) (bs : Bytes) → IsValid c → Pieces fs root c bs d → Joined c bs d
  Pieces-Joined c d bs v whole = record {
    fits = omega (arith, v.read-le);
    same = sym (ap (process_read fs root) (store-nil c));
  }
  Pieces-Joined c f bs v (piece p h n all r) =
      piece-Joined c _ _ f _ all v (Pieces-Joined c _ _ v p) (asks_for_more _ _ h) n r

  -- From a valid connection, whatever pieces its bytes arrive in, prepare_io_read returns after the
  -- last piece, code and connection, what it returns on all the bytes at once, as long as each call
  -- before asked for more while it was reading the request line or the headers.
  pub Pieces-same :
      (c d : HttpConn) (bs : Bytes)
      → IsValid c
      → Pieces fs root c bs d
      → prepare_io_read fs root d ≡ prepare_io_read fs root (store c bs)
  unfolding prepare_io_read
  Pieces-same c d bs v p = rw ((Pieces-Joined c d bs v p).same, prepare_io_read) refl
