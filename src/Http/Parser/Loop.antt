-- ===== src/Http/Parser/Loop.antt =====
-- The loop of process_read in http_conn.cpp: which rounds read a line, and that fuel beyond what is
-- needed makes no difference.
use reactor_web_server.Common.{
  ℕ, zero, suc, ◌+◌, ◌-◌, ◌*◌, ◌≡◌, ◌≢◌, ◌⊎◌, refl, ap, sym, ◌∙◌, arith, Option, some, inl, inr,
}
use native.Mathlib.Nat.{suc-add, zero-add, add_comm}
use reactor_web_server.Common.Text.{Bytes}
use reactor_web_server.Http.{
  HttpConn, HttpCode, no_request, CheckState, request_line, header, body, LineStatus, line_ok,
  line_bad, line_open,
}
use reactor_web_server.Http.Line.{parse_line}
use reactor_web_server.Http.Resource.{Files}
use reactor_web_server.Http.Parser.{
  Round, done, again, handle_line, after_scan, process_round, process_loop, process_read,
}
use reactor_web_server.Http.Parser.Invariant.{IsValid, process_read-Finished}

pub Round-cases :
    (r : Round)
    → ((x : HttpCode × HttpConn) × (r ≡ done x))
      ⊎ ((ls : LineStatus) × (c : HttpConn) × (r ≡ again ls c))
Round-cases (done x) = inl (x, refl)
Round-cases (again ls c) = inr (ls, c, refl)

pub some_eq : {A : Type 0} {x y : A} → ◌≡◌ {A = Option A} (some x) (some y) → x ≡ y
some_eq h = ground arith

abbrev pub Result : Type 0
Result = Option (HttpCode × HttpConn)

pub line_ok-cases : (s : LineStatus) → (s ≡ line_ok) ⊎ (s ≢ line_ok)
line_ok-cases line_ok = inl refl
line_ok-cases line_bad = inr (λ e. cc)
line_ok-cases line_open = inr (λ e. cc)

module _ (fs : Files) (root : Bytes) where
  pub reads :
      (s : CheckState) (ls : LineStatus) (c : HttpConn)
      → s ≢ body
      → process_round fs root s ls c ≡ after_scan fs root (parse_line c)
  unfolding process_round
  reads request_line ls c n = refl
  reads header ls c n = refl
  reads body ls c n = absurd (n refl)

  pub after_scan_ok :
      (r : LineStatus × HttpConn) → r.0 ≡ line_ok → after_scan fs root r ≡ handle_line fs root r.1
  unfolding after_scan
  after_scan_ok (line_ok, d) e = refl
  after_scan_ok (line_bad, d) e = cc
  after_scan_ok (line_open, d) e = cc

  pub after_scan_more :
      (r : LineStatus × HttpConn) → r.0 ≢ line_ok → after_scan fs root r ≡ done (no_request, r.1)
  unfolding after_scan
  after_scan_more (line_ok, d) n = absurd (n refl)
  after_scan_more (line_bad, d) n = refl
  after_scan_more (line_open, d) n = refl

  -- The loop after its first round.
  unfoldable pub onward : ℕ → Round → Result
  onward n r = elim r [ done x ↦ some x | again ls c ↦ process_loop fs root n ls c ]

  pub process_loop-suc :
      (n : ℕ) (ls : LineStatus) (c : HttpConn)
      → process_loop fs root (suc n) ls c ≡ onward n (process_round fs root c.check_state ls c)
  unfolding process_loop onward
  process_loop-suc n ls c = refl

  -- More fuel than enough makes no difference.
  pub fuel_suc :
      (n : ℕ) (ls : LineStatus) (c : HttpConn) (r : HttpCode × HttpConn)
      → process_loop fs root n ls c ≡ some r
      → process_loop fs root (suc n) ls c ≡ some r
  unfolding process_loop
  fuel_suc zero ls c r e = cc
  fuel_suc (suc n) ls c r e = elim (Round-cases (process_round fs root c.check_state ls c)) [
    | inl (x, f) ↦ rw (f, process_loop) (rw (f, process_loop) at e)
    | inr (ls', d, f) ↦ rw (f, process_loop) (fuel_suc n ls' d r (rw (f, process_loop) at e))
  ]

  pub fuel_add :
      (k n : ℕ) (ls : LineStatus) (c : HttpConn) (r : HttpCode × HttpConn)
      → process_loop fs root n ls c ≡ some r
      → process_loop fs root (k + n) ls c ≡ some r
  fuel_add zero n ls c r e = rw zero-add e
  fuel_add (suc k) n ls c r e = rw suc-add (fuel_suc (k + n) ls c r (fuel_add k n ls c r e))

  fuel_any :
      (m n : ℕ) (ls : LineStatus) (c : HttpConn) (r s : HttpCode × HttpConn)
      → process_loop fs root m ls c ≡ some r
      → process_loop fs root n ls c ≡ some s
      → r ≡ s
  fuel_any m n ls c r s e f =
      some_eq (sym (fuel_add n m ls c r e) ∙ rw add_comm (fuel_add m n ls c s f))

  pub process_read_fuel :
      (n : ℕ) (c : HttpConn) (r : HttpCode × HttpConn)
      → IsValid c
      → process_loop fs root n line_ok c ≡ some r
      → process_read fs root c ≡ some r
  unfolding process_read
  process_read_fuel n c r v e =
      let f = process_read-Finished fs root c v in
      f.2
      ∙ ap some
          (sym (fuel_any n (2 * (c.read_idx - c.checked_idx) + 2) line_ok c r (f.0, f.1) e f.2))

  pub process_read_loop :
      (c : HttpConn) (r : HttpCode × HttpConn)
      → process_read fs root c ≡ some r
      → process_loop fs root (2 * (c.read_idx - c.checked_idx) + 2) line_ok c ≡ some r
  unfolding process_read
  process_read_loop c r e = e
