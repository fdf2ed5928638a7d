-- ===== src/Http/Write/Correct.antt =====
-- write of http_conn.cpp as its callers see it: what the peer gets, and that a call returns.
use reactor_web_server.Common.{
  ℕ, ◌+◌, ◌-◌, ◌≤◌, ◌<◌, ◌≡◌, ◌≢◌, refl, ap, Bool, true, false, if◌then◌else◌, length,
  length-append, drop, take, Bool-cases, inl, inr, arith, List, [], ◌∷◌, ◌++◌, none, ltb, leb, All,
}
use reactor_web_server.Common.Text.{Bytes}
use reactor_web_server.Http.{HttpConn}
use reactor_web_server.Http.Write.{
  Errno, eagain, eintr, other_error, Outcome, sent, nothing, failed, Io, Written, refused, call,
  iovec, total, writev_loop, file_rest, sendfile_loop, send_loop, write,
}
use reactor_web_server.Http.Write.Delivery.{sent_so_far, Ends}
use reactor_web_server.Http.Write.Loops.{
  head_Offered, iovec-Offered, file-Offered, writev_loop-Ends, send_loop-Ends,
}

-- The response as the peer is to see it.
abbrev pub response : Bytes → HttpConn → Bytes
response file c = c.response_head ++ (if c.use_sendfile then file else c.response_body)

-- A file has the size that stat told.
abbrev pub IsWhole : Bytes → HttpConn → Type 0
IsWhole file c = c.use_sendfile ≡ true → c.file_size ≡ length file

by_path :
    (file : Bytes) (c : HttpConn) (os : List Outcome) (k : ℕ) (e : Errno) (b : Bool)
    → (b ≡ true → c.file_size ≡ length file)
    → let p = c.response_head ++ (if b then file else c.response_body) in
      k ≤ length p
      → Ends c p k (
          if b
          then send_loop file os (sent_so_far c p k e)
          else writev_loop os (sent_so_far c p k e))
by_path file c os k e true whole h = send_loop-Ends file c (whole refl) os k e h
by_path file c os k e false whole h = writev_loop-Ends c os k e h

-- A call of write extends what the peer was sent by the next part of the response; it returns 1
-- only when the peer has the whole response, and otherwise a later call goes on where it stopped.
pub write-Ends :
    (file : Bytes) (c : HttpConn) (os : List Outcome) (k : ℕ) (e : Errno)
    → IsWhole file c
    → k ≤ length (response file c)
    → Ends c (response file c) k (write file os (sent_so_far c (response file c) k e))
unfolding write
write-Ends file c os k e whole h = by_path file c os k e c.use_sendfile whole h

-- No call of the script is interrupted by a signal.
abbrev pub IsCalm : List Outcome → Type 0
IsCalm = All (λ o. o ≢ failed eintr)

abbrev Returns : Written → Type 0
Returns w = w ≢ none

abbrev at_offset : HttpConn → ℕ → Errno → Bytes → Io
at_offset c k e w = record { conn = record c { write_offset = k }; errno = e; wire = w }

refused-Returns : (e : Errno) (io : Io) (retry : Written) → e ≢ eintr → Returns (refused e io retry)
unfolding refused
refused-Returns eagain io retry h = λ e. cc
refused-Returns eintr io retry h = absurd (h refl)
refused-Returns other_error io retry h = λ e. cc

-- One call returns, or goes on with at least one byte more sent.
call-Returns :
    (c : HttpConn) (next : Io → Written) (offered : Bytes) (o : Outcome) (k : ℕ) (e : Errno)
    (w : Bytes)
    → e ≢ eintr
    → o ≢ failed eintr
    → 0 < length offered
    → ((n : ℕ) (v : Bytes) → k < n → Returns (next (at_offset c n e v)))
    → Returns (call next offered o (at_offset c k e w))
unfolding call
call-Returns c next offered (sent j) k e w ne q lt ih = ih _ _ (omega arith)
call-Returns c next offered nothing k e w ne q lt ih = refused-Returns e _ _ ne
call-Returns c next offered (failed f) k e w ne q lt ih =
    refused-Returns f _ _ (λ h. q (ap failed h))

module _ (c : HttpConn) where
  writev_loop-Returns :
      (os : List Outcome) (k : ℕ) (e : Errno) (w : Bytes)
      → e ≢ eintr
      → IsCalm os
      → total c ≤ k + length os
      → Returns (writev_loop os (at_offset c k e w))
  unfolding writev_loop
  writev_loop-Returns [] k e w ne q h = ground arith
  writev_loop-Returns (o ∷ os) k e w ne q h = elim (Bool-cases (ltb k (total c))) [
    | inl more ↦ rw more (
        call-Returns c (writev_loop os) (iovec (record c { write_offset = k })) o k e w ne q.0
          (iovec-Offered c k more).some_bytes
          (λ n v l. writev_loop-Returns os n e v ne q.1 (omega arith)))
    | inr over ↦ rw over (λ x. cc)
  ]

module _ (file : Bytes) (c : HttpConn) (whole : c.file_size ≡ length file) where
  sendfile_loop-Returns :
      (os : List Outcome) (k : ℕ) (e : Errno) (w : Bytes)
      → e ≢ eintr
      → IsCalm os
      → length c.response_head ≤ k
      → length c.response_head + c.file_size ≤ k + length os
      → Returns (sendfile_loop file os (at_offset c k e w))
  unfolding sendfile_loop
  sendfile_loop-Returns [] k e w ne q g h = ground arith
  sendfile_loop-Returns (o ∷ os) k e w ne q g h =
      elim (Bool-cases (leb c.file_size (k - length c.response_head))) [
        | inl over ↦ rw over (λ x. cc)
        | inr more ↦ rw more (
            call-Returns c (sendfile_loop file os) (file_rest file (record c { write_offset = k }))
              o k e w ne q.0 (file-Offered file c whole k g more).some_bytes
              (λ n v l. sendfile_loop-Returns os n e v ne q.1 (omega arith) (omega arith)))
      ]

  send_loop-Returns :
      (os : List Outcome) (k : ℕ) (e : Errno) (w : Bytes)
      → e ≢ eintr
      → IsCalm os
      → length c.response_head + c.file_size ≤ k + length os
      → Returns (send_loop file os (at_offset c k e w))
  unfolding send_loop
  send_loop-Returns [] k e w ne q h = elim (Bool-cases (ltb k (length c.response_head))) [
    | inl more ↦ absurd (ground arith)
    | inr over ↦ rw over (sendfile_loop-Returns [] k e w ne q (ground arith) h)
  ]
  send_loop-Returns (o ∷ os) k e w ne q h = elim (Bool-cases (ltb k (length c.response_head))) [
    | inl more ↦ rw more (
        call-Returns c (send_loop file os) (drop k c.response_head) o k e w ne q.0
          (head_Offered c.response_head file k (ground arith)).some_bytes
          (λ n v l. send_loop-Returns os n e v ne q.1 (omega arith)))
    | inr over ↦ rw over (sendfile_loop-Returns (o ∷ os) k e w ne q (ground arith) h)
  ]

path_ends :
    (file : Bytes) (c : HttpConn) (os : List Outcome) (k : ℕ) (e : Errno) (w : Bytes) (b : Bool)
    → (b ≡ true → c.file_size ≡ length file)
    → e ≢ eintr
    → IsCalm os
    → length (c.response_head ++ (if b then file else c.response_body)) ≤ k + length os
    → Returns
        (if b then send_loop file os (at_offset c k e w) else writev_loop os (at_offset c k e w))
path_ends file c os k e w true whole ne q h =
    send_loop-Returns file c (whole refl) os k e w ne q
      (omega (arith, whole refl, length-append c.response_head file))
path_ends file c os k e w false whole ne q h =
    writev_loop-Returns c os k e w ne q
      (omega (arith, length-append c.response_head c.response_body))

-- write returns within as many system calls as bytes are left, if none of them is interrupted and
-- errno was not left at EINTR.
pub write-ne-none :
    (file : Bytes) (c : HttpConn) (os : List Outcome) (k : ℕ) (e : Errno)
    → IsWhole file c
    → e ≢ eintr
    → IsCalm os
    → length (response file c) ≤ k + length os
    → write file os (sent_so_far c (response file c) k e) ≢ none
unfolding write
write-ne-none file c os k e whole ne q h =
    path_ends file c os k e (take k (response file c)) c.use_sendfile whole ne q h
