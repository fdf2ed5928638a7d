-- ===== src/Http/Write/Delivery.antt =====
-- What write of http_conn.cpp sends: the response, in order and once, over any number of calls.
use reactor_web_server.Common.{
  ℕ, zero, suc, ◌+◌, ◌≤◌, ◌<◌, ◌≡◌, refl, ap, sym, ◌∙◌, length, min, length-append, length-drop,
  take, drop, take-drop_join, arith, [], ◌∷◌, ◌++◌, none, some,
}
use reactor_web_server.Common.Text.{Bytes}
use reactor_web_server.Http.{HttpConn}
use reactor_web_server.Http.Write.{
  Errno, eagain, eintr, other_error, Outcome, sent, nothing, failed, Io, Written, accept, refused,
  call,
}

-- The connection with `k` bytes of the response `p` sent.
abbrev pub sent_so_far : HttpConn → Bytes → ℕ → Errno → Io
sent_so_far c p k e = record { conn = record c { write_offset = k }; errno = e; wire = take k p }

-- A call ended with a first part of the response sent, no less than before; by the result 1 only
-- with all of it.
abbrev pub Ends : HttpConn → Bytes → ℕ → Written → Type 0
Ends c p k none = Unit
Ends c p k (some (r, io)) =
    (n : ℕ) × (e : Errno) × (io ≡ sent_so_far c p n e)
    × (k ≤ n)
    × (n ≤ length p)
    × (r ≡ 1 → n ≡ length p)

-- Bytes that come next in the response, at least one.
pub record Offered (p : Bytes) (k : ℕ) (offered : Bytes) : Type 0 where
  pub later : Bytes
  pub next_bytes : drop k p ≡ offered ++ later
  pub some_bytes : 0 < length offered

take_front : (n : ℕ) (xs ys : Bytes) → n ≤ length xs → take n (xs ++ ys) ≡ take n xs
take_front zero xs ys h = refl
take_front (suc n) [] ys h = absurd (omega arith)
take_front (suc n) (x ∷ xs) ys h = ap (◌∷◌ x) (take_front n xs ys (omega arith))

module _ (c : HttpConn) (p : Bytes) where
  pub Ends-weaken : (j k : ℕ) (w : Written) → j ≤ k → Ends c p k w → Ends c p j w
  Ends-weaken j k none h t = t
  Ends-weaken j k (some (r, io)) h t = (t.0, t.1, t.2, omega (arith, t.3), t.4, t.5)

  accept_lem :
      (j k : ℕ) (e : Errno) (offered : Bytes)
      → Offered p k offered
      → accept j offered (sent_so_far c p k e)
        ≡ sent_so_far c p (k + min (suc j) (length offered)) e
  accept_lem j k e offered o = λ i. record {
    conn = record c { write_offset = k + min (suc j) (length offered) };
    errno = e;
    wire = grown i;
  }
    where
      s : ℕ
      s = min (suc j) (length offered)

      grown : take k p ++ take s offered ≡ take (k + s) p
      grown =
          ap (λ (t : Bytes). take k p ++ t)
            (sym (ap (take s) o.next_bytes ∙ take_front s offered o.later (omega arith)))
          ∙ take-drop_join k s p

  Offered-le :
      (k : ℕ) (offered : Bytes) → k ≤ length p → Offered p k offered → k + length offered ≤ length p
  Offered-le k offered h o =
      omega (arith, ap length o.next_bytes, length-append offered o.later, length-drop k p)

  refused-Ends :
      (f : Errno) (k : ℕ) (e : Errno) (retry : Written)
      → k ≤ length p
      → Ends c p k retry
      → Ends c p k (refused f (sent_so_far c p k e) retry)
  unfolding refused
  refused-Ends eagain k e retry h t = (k, e, refl, omega arith, h, λ q. absurd (omega arith))
  refused-Ends eintr k e retry h t = t
  refused-Ends other_error k e retry h t = (k, e, refl, omega arith, h, λ q. absurd (omega arith))

  -- One system call, with a loop behind it that is right.
  pub call-Ends :
      (next : Io → Written) (offered : Bytes) (o : Outcome) (k : ℕ) (e : Errno)
      → k ≤ length p
      → Offered p k offered
      → ((n : ℕ) (f : Errno) → k ≤ n → n ≤ length p → Ends c p n (next (sent_so_far c p n f)))
      → Ends c p k (call next offered o (sent_so_far c p k e))
  unfolding call
  call-Ends next offered (sent j) k e h o ih =
      let s : ℕ = min (suc j) (length offered) in
      rw (accept_lem j k e offered o) (
        Ends-weaken k (k + s) (next (sent_so_far c p (k + s) e)) (omega arith)
          (ih (k + s) e (omega arith) (omega (arith, Offered-le k offered h o))))
  call-Ends next offered nothing k e h o ih = refused-Ends e k e _ h (ih k e (omega arith) h)
  call-Ends next offered (failed f) k e h o ih = refused-Ends f k f _ h (ih k f (omega arith) h)
