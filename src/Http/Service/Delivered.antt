-- ===== src/Http/Service/Delivered.antt =====
-- A response of http_conn.cpp on its way to the client: deal_write calls write when epoll reports
-- that the socket can be written, and waits when it returns 2.
use reactor_web_server.Common.{
  ℕ, ◌≤◌, ◌≡◌, ◌≢◌, none, All, refl, ap, sym, ◌∙◌, subst, [], length, take_all, List, some, arith,
}
use reactor_web_server.Common.Text.{Bytes}
use reactor_web_server.Http.{HttpConn}
use reactor_web_server.Http.Write.Taking.{IsTaken, write_taken, taken-IsCalm}
use reactor_web_server.Http.Write.{Errno, eintr, Outcome, Io, write}
use reactor_web_server.Http.Write.Delivery.{sent_so_far, Ends}
use reactor_web_server.Http.Write.Correct.{response, write-Ends, write-ne-none}
use reactor_web_server.Http.Service.Reply.{Sends}

-- The calls of write so far: the first is on a connection that sent nothing, and before the next
-- errno may have changed.
pub data Sending (file : Bytes) (c : HttpConn) (e : Errno) : Io → Type 0 where
  begun : Sending file c e (record { conn = c; errno = e; wire = [] })
  waited :
      {io later : Io}
      → Sending file c e io
      → (os : List Outcome) → write file os io ≡ some (2, later)
      → (f : Errno) → Sending file c e (record later { errno = f })

-- How far the sending has come.
record Reached (c : HttpConn) (text : Bytes) (io : Io) : Type 0 where
  upto : ℕ
  bound : upto ≤ length text
  there : io ≡ sent_so_far c text upto io.errno

module _ (file text : Bytes) (c : HttpConn) (e : Errno) (s : Sends file text c) where
  begun-Reached : Reached c text (record { conn = c; errno = e; wire = [] })
  begun-Reached = record {
    upto = 0;
    bound = omega arith;
    there = λ i. record { conn = record c { write_offset = s.from_start i }; errno = e; wire = [] };
  }

  call-Ends :
      (os : List Outcome) (io : Io)
      → (r : Reached c text io) → Ends c text r.upto (write file os io)
  call-Ends os io r =
      subst (λ x. Ends c text r.upto (write file os x)) (sym r.there)
        (subst (λ p. Ends c p r.upto (write file os (sent_so_far c p r.upto io.errno))) s.in_all
          (write-Ends file c os r.upto io.errno s.whole_file
            (omega (arith, r.bound, ap length s.in_all))))

  next-Reached :
      (os : List Outcome) (io later : Io) (r : ℕ) (f : Errno)
      → Reached c text io
      → write file os io ≡ some (r, later)
      → Reached c text (record later { errno = f })
  next-Reached os io later r f k w =
      let t : Ends c text k.upto (some (r, later)) =
        subst (Ends c text k.upto) w (call-Ends os io k) in
      record { upto = t.0; bound = t.4; there = ap (λ (x : Io). record x { errno = f }) t.2 }

  Sending-Reached : (io : Io) → Sending file c e io → Reached c text io
  Sending-Reached io begun = begun-Reached
  Sending-Reached io (waited {io = before} {later = later} k os w f) =
      next-Reached os before later 2 f (Sending-Reached before k) w

  -- The call that returns 1 has sent the rest.
  pub Sending-whole :
      (io end : Io) (os : List Outcome)
      → Sending file c e io
      → write file os io ≡ some (1, end)
      → end.wire ≡ text
  Sending-whole io end os k w =
      let t : Ends c text (Sending-Reached io k).upto (some (1, end)) =
        subst (Ends c text (Sending-Reached io k).upto) w
          (call-Ends os io (Sending-Reached io k)) in
      ap (λ (x : Io). x.wire) t.2 ∙ take_all t.0 text (omega (arith, t.5 refl))

  begun_at :
      ◌≡◌ {A = Io} (record { conn = c; errno = e; wire = [] }) (sent_so_far c (response file c) 0 e)
  begun_at = λ i. record { conn = record c { write_offset = s.from_start i }; errno = e; wire = [] }

  -- One call is enough for a socket that takes some bytes each time.
  pub sent_at_once :
      (os : List Outcome)
      → e ≢ eintr
      → All IsTaken os
      → length text ≤ length os
      → (later : Io) × (write file os (record { conn = c; errno = e; wire = [] }) ≡ some (1, later))
        × (later.wire ≡ text)
  sent_at_once os n t l =
      let start : Io = record { conn = c; errno = e; wire = [] } in
      let returns =
        subst (λ (x : Io). write file os x ≢ none) (sym begun_at)
          (write-ne-none file c os 0 e s.whole_file n (taken-IsCalm os t)
            (omega (arith, l, ap length s.in_all))) in
      let (later, w) = write_taken file os start t returns in
      (later, w, Sending-whole start later os begun w)
