-- ===== src/Http/Write/Taking.antt =====
-- write of http_conn.cpp on a socket that takes some bytes at each call.
use reactor_web_server.Common.{
  ℕ, ◌-◌, ◌≡◌, ◌≢◌, refl, subst, List, [], ◌∷◌, none, some, All, length, drop, ltb, leb, either_way,
  Option-cases, inl, inr,
}
use reactor_web_server.Common.Text.{Bytes}
use reactor_web_server.Http.Write.{
  eintr, Outcome, sent, nothing, failed, Io, Written, accept, call, iovec, total, writev_loop,
  file_rest, sendfile_loop, send_loop, write,
}
use reactor_web_server.Http.Write.Correct.{IsCalm}

abbrev pub IsTaken : Outcome → Type 0
IsTaken o = (k : ℕ) × (o ≡ sent k)

-- A call that returns, returns 1.
abbrev OnlyOne : Written → Type 0
OnlyOne none = Unit
OnlyOne (some (r, io)) = r ≡ 1

call-OnlyOne :
    (next : Io → Written) (offered : Bytes) (o : Outcome) (io : Io)
    → IsTaken o
    → ((later : Io) → OnlyOne (next later))
    → OnlyOne (call next offered o io)
unfolding call
call-OnlyOne next offered (sent k) io t ih = ih (accept k offered io)
call-OnlyOne next offered nothing io (k, e) ih = cc
call-OnlyOne next offered (failed f) io (k, e) ih = cc

writev_loop-OnlyOne : (os : List Outcome) (io : Io) → All IsTaken os → OnlyOne (writev_loop os io)
unfolding writev_loop
writev_loop-OnlyOne [] io t =
    either_way OnlyOne (ltb io.conn.write_offset (total io.conn)) none (some (1, io)) tt refl
writev_loop-OnlyOne (o ∷ os) io t =
    either_way OnlyOne (ltb io.conn.write_offset (total io.conn))
      (call (writev_loop os) (iovec io.conn) o io) (some (1, io))
      (call-OnlyOne (writev_loop os) (iovec io.conn) o io t.0
        (λ later. writev_loop-OnlyOne os later t.1))
      refl

module _ (file : Bytes) where
  sendfile_loop-OnlyOne :
      (os : List Outcome) (io : Io) → All IsTaken os → OnlyOne (sendfile_loop file os io)
  unfolding sendfile_loop
  sendfile_loop-OnlyOne [] io t =
      either_way OnlyOne
        (leb io.conn.file_size (io.conn.write_offset - length io.conn.response_head)) (some (1, io))
        none refl tt
  sendfile_loop-OnlyOne (o ∷ os) io t =
      either_way OnlyOne
        (leb io.conn.file_size (io.conn.write_offset - length io.conn.response_head)) (some (1, io))
        (call (sendfile_loop file os) (file_rest file io.conn) o io) refl
        (call-OnlyOne (sendfile_loop file os) (file_rest file io.conn) o io t.0
          (λ later. sendfile_loop-OnlyOne os later t.1))

  send_loop-OnlyOne :
      (os : List Outcome) (io : Io) → All IsTaken os → OnlyOne (send_loop file os io)
  unfolding send_loop
  send_loop-OnlyOne [] io t =
      either_way OnlyOne (ltb io.conn.write_offset (length io.conn.response_head)) none
        (sendfile_loop file [] io) tt (sendfile_loop-OnlyOne [] io t)
  send_loop-OnlyOne (o ∷ os) io t =
      either_way OnlyOne (ltb io.conn.write_offset (length io.conn.response_head))
        (call (send_loop file os) (drop io.conn.write_offset io.conn.response_head) o io)
        (sendfile_loop file (o ∷ os) io)
        (call-OnlyOne (send_loop file os) (drop io.conn.write_offset io.conn.response_head) o io t.0
          (λ later. send_loop-OnlyOne os later t.1))
        (sendfile_loop-OnlyOne (o ∷ os) io t)

  write-OnlyOne : (os : List Outcome) (io : Io) → All IsTaken os → OnlyOne (write file os io)
  unfolding write
  write-OnlyOne os io t =
      either_way OnlyOne io.conn.use_sendfile (send_loop file os io) (writev_loop os io)
        (send_loop-OnlyOne os io t) (writev_loop-OnlyOne os io t)

  -- So if it returns, it has sent the whole response.
  pub write_taken :
      (os : List Outcome) (io : Io)
      → All IsTaken os
      → write file os io ≢ none
      → (later : Io) × (write file os io ≡ some (1, later))
  write_taken os io t n = elim (Option-cases (write file os io)) [
    | inl e ↦ absurd (n e)
    | inr ((r, later), e) ↦ (
      later,
      subst (λ k. write file os io ≡ some (k, later)) (subst OnlyOne e (write-OnlyOne os io t)) e,
    )
  ]

taken_calm : (o : Outcome) → IsTaken o → o ≢ failed eintr
taken_calm (sent k) t = λ e. cc
taken_calm nothing (k, e) = cc
taken_calm (failed f) (k, e) = cc

pub taken-IsCalm : (os : List Outcome) → All IsTaken os → IsCalm os
taken-IsCalm [] t = tt
taken-IsCalm (o ∷ os) t = (taken_calm o t.0, taken-IsCalm os t.1)
