-- ===== src/Http/Pieces/Loop.antt =====
-- process_read's loop in http_conn.cpp, with more bytes read.
use reactor_web_server.Common.{
  ℕ, zero, suc, ◌+◌, ◌≡◌, ◌≢◌, refl, ap, sym, ◌∙◌, some, inl, inr, subst,
}
use native.Mathlib.Nat.{suc-add}
use reactor_web_server.Common.Text.{Bytes}
use reactor_web_server.Http.{HttpConn, HttpCode, no_request, body, LineStatus, line_ok}
use reactor_web_server.Http.Resource.{Files}
use reactor_web_server.Http.Read.{store}
use reactor_web_server.Http.Parser.{process_round, process_loop}
use reactor_web_server.Http.Parser.Invariant.{IsValid, Good, process_round-Good}
use reactor_web_server.Http.Pieces.Rounds.{
  round_more, Settled, settled, waits, process_round-Compared,
}
use reactor_web_server.Http.Parser.Loop.{
  Result, onward, process_loop-suc, fuel_suc, fuel_add, Round-cases, some_eq,
}
use reactor_web_server.Http.Pieces.Bodies.{process_loop-InBody}

module _ (fs : Files) (root : Bytes) where
  loop_first :
      (n m : ℕ) (ls : LineStatus) (c : HttpConn)
      → process_loop fs root (suc n + m) ls c
        ≡ onward fs root (n + m) (process_round fs root c.check_state ls c)
  loop_first n m ls c = rw suc-add (process_loop-suc fs root (n + m) ls c)

  -- What the parser does when more bytes arrive: it is called again if it asked for them.
  abbrev pub goes_on : ℕ → Bytes → HttpCode → HttpConn → Result
  goes_on m bs no_request d = process_loop fs root m line_ok (store d bs)
  goes_on m bs code d = some (code, store d bs)

  goes_on_settled :
      (m : ℕ) (bs : Bytes) (code : HttpCode) (d : HttpConn)
      → code ≢ no_request
      → goes_on m bs code d ≡ some (code, store d bs)
  goes_on_settled m bs no_request d n = absurd (n refl)
  goes_on_settled m bs _ d n = refl

  pub process_loop_more :
      (n m : ℕ) (bs : Bytes) (ls : LineStatus) (c d : HttpConn) (code : HttpCode)
      (r : HttpCode × HttpConn)
      → IsValid c
      → process_loop fs root n ls c ≡ some (code, d)
      → d.check_state ≢ body
      → goes_on m bs code d ≡ some r
      → process_loop fs root (n + m) ls (store c bs) ≡ some r
  unfolding process_loop store onward
  process_loop_more zero m bs ls c d code r v e h g = cc
  process_loop_more (suc n) m bs ls c d code r v e h g =
      let one = process_round fs root c.check_state ls c in
      let not_body : c.check_state ≢ body =
        λ b. h (process_loop-InBody fs root (suc n) ls c d code b e) in
      let left = sym (process_loop-suc fs root n ls c) ∙ e in
      loop_first n m ls (store c bs) ∙ elim (process_round-Compared fs root bs ls c not_body v) [
        | settled s f ↦ ap (onward fs root (n + m)) f ∙ elim (Round-cases one) [
          | inl ((co, x), k) ↦
              ap (λ t. onward fs root (n + m) (round_more bs t)) k
              ∙ sym (goes_on_settled m bs co x (subst Settled k s))
              ∙ subst (λ p. goes_on m bs p.0 p.1 ≡ some r)
                  (sym (some_eq (sym (ap (onward fs root n) k) ∙ left))) g
          | inr (ls', x, k) ↦
              ap (λ t. onward fs root (n + m) (round_more bs t)) k
              ∙ process_loop_more n m bs ls' x d code r
                  (subst (Good _) k (process_round-Good fs root c.check_state ls c refl v)).0
                  (sym (ap (onward fs root n) k) ∙ left) h g
        ]
        | waits x k t f ↦
            ap (onward fs root (n + m)) f
            ∙ sym (process_loop-suc fs root (n + m) line_ok (store x bs))
            ∙ fuel_suc fs root (n + m) line_ok (store x bs) r (
                fuel_add fs root n m line_ok (store x bs) r (
                  subst (λ p. goes_on m bs p.0 p.1 ≡ some r)
                    (sym (some_eq (sym (ap (onward fs root n) k) ∙ left))) g))
      ]
