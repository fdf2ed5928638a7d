-- ===== src/Http/Pieces/Rounds.antt =====
-- One round of process_read's loop in http_conn.cpp, with more bytes read.
use reactor_web_server.Common.{ℕ, ◌-◌, ◌≡◌, ◌≢◌, refl, ap, sym, ◌∙◌, arith, inl, inr, subst}
use reactor_web_server.Common.Text.{Bytes}
use reactor_web_server.Http.{
  HttpConn, HttpCode, no_request, get_request, bad_request, CheckState, request_line, header, body,
  LineStatus, line_ok,
}
use reactor_web_server.Http.Line.{parse_line}
use reactor_web_server.Http.RequestLine.{parse_request_line}
use reactor_web_server.Http.Header.{parse_headers}
use reactor_web_server.Http.Resource.Changes.{do_request_answers}
use reactor_web_server.Http.Resource.{Files}
use reactor_web_server.Http.Read.{store}
use reactor_web_server.Http.Parser.{
  Round, done, again, after_request_line, after_header, dispatch, handle_line, after_scan,
  process_round,
}
use reactor_web_server.Http.Parser.Invariant.{IsValid, parse_line-IsValid}
use reactor_web_server.Http.Parser.Loop.{reads, after_scan_ok, after_scan_more, line_ok-cases}
use reactor_web_server.Http.Pieces.Lines.{
  IsEnded, parse_line-IsEnded, parse_line_found, parse_line_pending,
}
use reactor_web_server.Http.Pieces.Handlers.{
  with_more, LineAt, parse_request_line-store, parse_headers-store, do_request-store,
}

-- A round with more bytes in its connection.
abbrev pub round_more : Bytes → Round → Round
round_more bs (done (code, d)) = done (code, store d bs)
round_more bs (again ls d) = again ls (store d bs)

-- A round that does not ask for more bytes.
abbrev pub Settled : Round → Type 0
Settled (done (code, d)) = code ≢ no_request
Settled (again ls d) = Unit

module _ (fs : Files) (root : Bytes) where
  -- A line that ends inside the read bytes is handled the same with more of them.
  record Same (bs : Bytes) (more one : Round) : Type 0 where
    same : more ≡ round_more bs one
    settled : Settled one

  after_request_line-Same :
      (bs : Bytes) (r : HttpCode × HttpConn)
      → Same bs (after_request_line fs root (with_more bs r)) (after_request_line fs root r)
  unfolding after_request_line
  after_request_line-Same bs (bad_request, d) = record { same = refl; settled = λ e. cc }
  after_request_line-Same bs (_, d) = record { same = refl; settled = tt }

  after_header-Same :
      (bs : Bytes) (r : HttpCode × HttpConn)
      → Same bs (after_header fs root (with_more bs r)) (after_header fs root r)
  unfolding after_header
  after_header-Same bs (bad_request, d) = record { same = refl; settled = λ e. cc }
  after_header-Same bs (get_request, d) = record {
    same = ap done (do_request-store bs fs root d);
    settled = do_request_answers fs root d;
  }
  after_header-Same bs (_, d) = record { same = refl; settled = tt }

  dispatch-Same :
      (bs : Bytes) (s : CheckState) (c : HttpConn) (text : ℕ)
      → s ≢ body
      → LineAt c text
      → Same bs (dispatch fs root s (store c bs) text) (dispatch fs root s c text)
  unfolding dispatch
  dispatch-Same bs request_line c text n l =
      subst
        (λ r.
          Same bs (after_request_line fs root r)
            (after_request_line fs root (parse_request_line c text)))
        (sym (parse_request_line-store bs c text l))
        (after_request_line-Same bs (parse_request_line c text))
  dispatch-Same bs header c text n l =
      subst (λ r. Same bs (after_header fs root r) (after_header fs root (parse_headers c text)))
        (sym (parse_headers-store bs c text l)) (after_header-Same bs (parse_headers c text))
  dispatch-Same bs body c text n l = absurd (n refl)

  handle_line-Same :
      (bs : Bytes) (c : HttpConn)
      → c.check_state ≢ body
      → IsValid c
      → IsEnded c
      → Same bs (handle_line fs root (store c bs)) (handle_line fs root c)
  unfolding handle_line store
  handle_line-Same bs c n v e =
      dispatch-Same bs c.check_state (record c { start_line = c.checked_idx }) c.start_line n
        (record {
          end = c.checked_idx - 1;
          from = omega (arith, e.after);
          inside = omega (arith, e.after, v.checked-le);
          in_buffer = v.read-le;
          ended = e.ended;
        })

  -- How a round compares with the round that has more bytes: it is the same, or it asks for more
  -- and the other one is what a new call makes of them.
  pub data Compared (bs : Bytes) (s : CheckState) (more one : Round) : Type 0 where
    settled : Settled one → more ≡ round_more bs one → Compared bs s more one
    waits :
        (d : HttpConn)
        → one ≡ done (no_request, d)
        → d.check_state ≡ s
        → more ≡ process_round fs root d.check_state line_ok (store d bs)
        → Compared bs s more one

  parse_line_state : (c : HttpConn) → (parse_line c).1.check_state ≡ c.check_state
  unfolding parse_line
  parse_line_state c = refl

  pub process_round-Compared :
      (bs : Bytes) (ls : LineStatus) (c : HttpConn)
      → c.check_state ≢ body
      → IsValid c
      → Compared bs c.check_state
          (process_round fs root c.check_state ls (store c bs))
          (process_round fs root c.check_state ls c)
  process_round-Compared bs ls c n v =
      let one = reads fs root c.check_state ls c n in
      let more = reads fs root c.check_state ls (store c bs) n in
      let d = (parse_line c).1 in
      elim (line_ok-cases (parse_line c).0) [
        | inl e ↦
            let same =
              handle_line-Same bs d (subst (λ s. s ≢ body) (sym (parse_line_state c)) n)
                (parse_line-IsValid c v) (parse_line-IsEnded c v.start-le v.checked-le e) in
            let handled = one ∙ after_scan_ok fs root (parse_line c) e in
            settled (subst Settled (sym handled) same.settled) (
              more
              ∙ ap (after_scan fs root) (parse_line_found c bs v.checked-le v.read-le e)
              ∙ after_scan_ok fs root (line_ok, store d bs) refl
              ∙ same.same
              ∙ ap (round_more bs) (sym handled))
        | inr e ↦ waits d (one ∙ after_scan_more fs root (parse_line c) e) (parse_line_state c) (
            more
            ∙ ap (after_scan fs root) (parse_line_pending c bs v.checked-le v.read-le e)
            ∙ sym (
                reads fs root d.check_state line_ok (store d bs)
                  (subst (λ s. s ≢ body) (sym (parse_line_state c)) n)))
      ]
