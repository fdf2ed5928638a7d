-- ===== src/Http/Read/Receives.antt =====
-- What read_once of http_conn.cpp adds to the buffer.
use reactor_web_server.Common.{
  ℕ, ◌+◌, ◌≤◌, ◌<◌, ◌≡◌, refl, ap, sym, subst, ◌∙◌, Bool, true, false, ◌==◌, if◌then◌else◌, length,
  length-append, take_all, take-nil, Bool-cases, inl, inr, arith, List, [], ◌∷◌, ◌++◌, append_assoc,
  Option, none, some, leb,
}
use reactor_web_server.Common.Text.{Bytes}
use reactor_web_server.Http.{HttpConn}
use reactor_web_server.Http.Header.{is_empty}
use reactor_web_server.Http.Write.{eagain, eintr, other_error}
use reactor_web_server.Http.Read.{
  Recv, received, recv_failed, room, store, at_end, got, recv_step, recv_loop, read_once,
}
use reactor_web_server.Http.Read.Store.{
  store-nil, store-store, length-store, stored_fits, stored_room,
}

-- All that the kernel's answers hold.
abbrev pub bytes_of : List Recv → Bytes
bytes_of [] = []
bytes_of (received bs ∷ os) = bs ++ bytes_of os
bytes_of (recv_failed e ∷ os) = bytes_of os

-- The connection with some first part of the bytes stored behind the read ones.
pub record Receives (c : HttpConn) (all : Bytes) (d : HttpConn) : Type 0 where
  pub bytes : Bytes
  pub later : Bytes
  pub in_order : all ≡ bytes ++ later
  pub fits : c.read_idx + length bytes ≤ length c.read_buf
  pub stored : d ≡ store c bytes

Receives-none : (c : HttpConn) (all : Bytes) → c.read_idx ≤ length c.read_buf → Receives c all c
Receives-none c all h = record {
  bytes = [];
  later = all;
  in_order = refl;
  fits = omega arith;
  stored = sym (store-nil c);
}

Receives-store :
    (c : HttpConn) (a all : Bytes) (d : HttpConn)
    → c.read_idx + length a ≤ length c.read_buf
    → Receives (store c a) all d
    → Receives c (a ++ all) d
unfolding store
Receives-store c a all d h r = record {
  bytes = a ++ r.bytes;
  later = r.later;
  in_order = ap (◌++◌ a) r.in_order ∙ sym (append_assoc a r.bytes r.later);
  fits = omega (arith, length-append a r.bytes, r.fits, length-store c a h);
  stored = r.stored ∙ store-store c a r.bytes h;
}

conn_eq :
    {a b : Bool} {c d : HttpConn}
    → ◌≡◌ {A = Option (Bool × HttpConn)} (some (a, c)) (some (b, d))
    → c ≡ d
conn_eq e = ground arith

none_is_some : {r : Bool × HttpConn} → ◌≡◌ {A = Option (Bool × HttpConn)} none (some r) → ⊥
none_is_some e = cc

-- The rest of the loop, as the steps see it.
abbrev LoopReceives : ℕ → List Recv → Bool → HttpConn → Type 0
LoopReceives before os b d =
    (e : HttpConn)
    → e.read_idx ≤ length e.read_buf
    → length (bytes_of os) ≤ room e
    → recv_loop before os e ≡ some (b, d)
    → Receives e (bytes_of os) d

module _ (before : ℕ) where
  got-Receives :
      (bs : Bytes) (os : List Recv) (c : HttpConn) {b : Bool} {d : HttpConn}
      → c.read_idx + length bs ≤ length c.read_buf
      → length (bs ++ bytes_of os) ≤ room c
      → LoopReceives before os b d
      → got before (recv_loop before os) bs c ≡ some (b, d)
      → Receives c (bs ++ bytes_of os) d
  unfolding got at_end
  got-Receives [] os c h f ih e =
      subst (Receives c (bytes_of os)) (conn_eq e) (Receives-none c (bytes_of os) (omega arith))
  got-Receives (x ∷ xs) os c h f ih e = Receives-store c (x ∷ xs) (bytes_of os) _ h (
      ih (store c (x ∷ xs)) (stored_fits c (x ∷ xs) h)
        (omega (arith, stored_room c (x ∷ xs) h, length-append (x ∷ xs) (bytes_of os))) e)

  recv_step-Receives :
      (o : Recv) (os : List Recv) (c : HttpConn) {b : Bool} {d : HttpConn}
      → c.read_idx ≤ length c.read_buf
      → length (bytes_of (o ∷ os)) ≤ room c
      → LoopReceives before os b d
      → recv_step before (recv_loop before os) o c ≡ some (b, d)
      → Receives c (bytes_of (o ∷ os)) d
  unfolding recv_step
  recv_step-Receives (received bs) os c {b} {d} h f ih e =
      got-Receives bs os c (omega (arith, length-append bs (bytes_of os))) f ih (
        subst (λ (t : Bytes). got before (recv_loop before os) t c ≡ some (b, d))
          (take_all (room c) bs (omega (arith, length-append bs (bytes_of os)))) e)
  recv_step-Receives (recv_failed eagain) os c h f ih e =
      subst (Receives c (bytes_of os)) (conn_eq e) (Receives-none c (bytes_of os) h)
  recv_step-Receives (recv_failed eintr) os c h f ih e = ih c h f e
  recv_step-Receives (recv_failed other_error) os c h f ih e =
      subst (Receives c (bytes_of os)) (conn_eq e) (Receives-none c (bytes_of os) h)

  recv_loop-Receives :
      (os : List Recv) (c : HttpConn) {b : Bool} {d : HttpConn}
      → c.read_idx ≤ length c.read_buf
      → length (bytes_of os) ≤ room c
      → recv_loop before os c ≡ some (b, d)
      → Receives c (bytes_of os) d
  unfolding recv_loop at_end
  recv_loop-Receives [] c h f e = elim (Bool-cases (room c == 0)) [
    | inl full ↦ subst (Receives c []) (conn_eq (rw full at e)) (Receives-none c [] h)
    | inr more ↦ absurd (none_is_some (rw more at e))
  ]
  recv_loop-Receives (o ∷ os) c h f e = elim (Bool-cases (room c == 0)) [
    | inl full ↦
        subst (Receives c (bytes_of (o ∷ os))) (conn_eq (rw full at e))
          (Receives-none c (bytes_of (o ∷ os)) h)
    | inr more ↦ recv_step-Receives o os c h f (λ g. recv_loop-Receives os g) (rw more at e)
  ]

-- Whatever read_once returns, the buffer has gained a first part of the bytes that arrived, in
-- order, behind the bytes read before; no other field of the connection has changed.
pub read_once-Receives :
    (os : List Recv) (c : HttpConn) (b : Bool) (d : HttpConn)
    → c.read_idx ≤ length c.read_buf
    → length (bytes_of os) ≤ room c
    → read_once os c ≡ some (b, d)
    → Receives c (bytes_of os) d
unfolding read_once
read_once-Receives os c b d h f e = elim (Bool-cases (leb (length c.read_buf) c.read_idx)) [
  | inl full ↦
      subst (Receives c (bytes_of os)) (conn_eq (rw full at e)) (Receives-none c (bytes_of os) h)
  | inr more ↦ recv_loop-Receives c.read_idx os c h f (rw more at e)
]

-- The peer closed its side: data that came first is kept for the caller, without data the
-- connection is given up.
read_once_fin :
    (c : HttpConn) (bs : Bytes) (os : List Recv)
    → c.read_idx + length bs < length c.read_buf
    → read_once (received bs ∷ received [] ∷ os) c
      ≡ some (if is_empty bs then (false, c) else (true, store c bs))
unfolding read_once recv_loop recv_step got at_end
read_once_fin c [] os h = ground (arith, take-nil {A = ℕ} (room c))
read_once_fin c (x ∷ xs) os h = ground (
  arith,
  take_all (room c) (x ∷ xs),
  stored_room c (x ∷ xs),
  take-nil {A = ℕ} (room (store c (x ∷ xs))),
)
