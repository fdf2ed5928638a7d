-- ===== src/Http/Pieces/Bodies.antt =====
-- http_conn.cpp: once process_read reads a body, it stays with it.
use reactor_web_server.Common.{ℕ, zero, suc, ◌≡◌, ap, ◌∙◌, arith, some, inl, inr, subst}
use reactor_web_server.Common.Text.{Bytes}
use reactor_web_server.Http.{
  HttpConn, HttpCode, get_request, CheckState, request_line, header, body, LineStatus, line_ok,
}
use reactor_web_server.Http.Line.{parse_line}
use reactor_web_server.Http.Resource.Changes.{do_request_changes}
use reactor_web_server.Http.Resource.{Files}
use reactor_web_server.Http.Parser.Loop.{Round-cases, some_eq}
use reactor_web_server.Http.Parser.{
  Round, done, again, parse_body, after_body, dispatch, handle_line, after_scan, process_round,
  process_loop,
}

parse_body_state : (c : HttpConn) (text : ℕ) → (parse_body c text).1.check_state ≡ c.check_state
unfolding parse_body
parse_body_state c text = ground arith

-- What a round leaves is still reading a body.
abbrev InBody : Round → Type 0
InBody (done (code, d)) = d.check_state ≡ body
InBody (again ls d) = d.check_state ≡ body

module _ (fs : Files) (root : Bytes) where
  after_body-InBody :
      (r : HttpCode × HttpConn) → r.1.check_state ≡ body → InBody (after_body fs root r)
  unfolding after_body
  after_body-InBody (get_request, d) e = ap (λ x. x.check_state) (do_request_changes fs root d) ∙ e
  after_body-InBody (_, d) e = e

  dispatch-InBody :
      (s : CheckState) (c : HttpConn) (text : ℕ)
      → s ≡ body
      → c.check_state ≡ body
      → InBody (dispatch fs root s c text)
  unfolding dispatch
  dispatch-InBody body c text e f =
      after_body-InBody (parse_body c text) (parse_body_state c text ∙ f)
  dispatch-InBody request_line c text e f = cc
  dispatch-InBody header c text e f = cc

  handle_line-InBody : (c : HttpConn) → c.check_state ≡ body → InBody (handle_line fs root c)
  unfolding handle_line
  handle_line-InBody c e =
      dispatch-InBody c.check_state (record c { start_line = c.checked_idx }) c.start_line e e

  after_scan-InBody :
      (r : LineStatus × HttpConn) → r.1.check_state ≡ body → InBody (after_scan fs root r)
  unfolding after_scan
  after_scan-InBody (line_ok, d) e = handle_line-InBody d e
  after_scan-InBody (_, d) e = e

  process_round-InBody :
      (s : CheckState) (ls : LineStatus) (c : HttpConn)
      → c.check_state ≡ body
      → InBody (process_round fs root s ls c)
  unfolding process_round parse_line
  process_round-InBody body line_ok c e = handle_line-InBody c e
  process_round-InBody _ _ c e = after_scan-InBody (parse_line c) e

  pub process_loop-InBody :
      (n : ℕ) (ls : LineStatus) (c d : HttpConn) (code : HttpCode)
      → c.check_state ≡ body
      → process_loop fs root n ls c ≡ some (code, d)
      → d.check_state ≡ body
  unfolding process_loop
  process_loop-InBody zero ls c d code h e = cc
  process_loop-InBody (suc n) ls c d code h e =
      elim (Round-cases (process_round fs root c.check_state ls c)) [
        | inl ((co, x), f) ↦
            let b : x.check_state ≡ body =
              subst InBody f (process_round-InBody c.check_state ls c h) in
            subst (λ r. r.1.check_state ≡ body) (some_eq (rw (f, process_loop) at e)) b
        | inr (ls', x, f) ↦
            process_loop-InBody n ls' x d code
              (subst InBody f (process_round-InBody c.check_state ls c h))
              (rw (f, process_loop) at e)
      ]
