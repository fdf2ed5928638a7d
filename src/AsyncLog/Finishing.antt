-- ===== src/AsyncLog/Finishing.antt =====
-- async_log.h: backend_loop writes everything that was logged before the log was stopped.
use reactor_web_server.Common.{
  ℕ, ◌≡◌, refl, ap, sym, ◌∙◌, Bool, true, false, List, [], ◌∷◌, ◌++◌, append-nil, append_assoc,
  if◌then◌else◌, Bool-cases, inl, inr, subst,
}
use reactor_web_server.Common.Text.{Bytes}
use reactor_web_server.AsyncLog.{flush_rest}
use reactor_web_server.AsyncLog.Order.{concat, contents}
use reactor_web_server.AsyncLog.Backend.{
  Clock, close_file, write_to_file, Backend, Round, finish, round, backend_loop,
}
use reactor_web_server.AsyncLog.Draining.{texts, IsTidy, close_file-IsShut, write_to_file-IsTidy}
use reactor_web_server.AsyncLog.Rounds.{taken, runs_on, AllFit, at_test, at_test-Rounded}

module _ (capacity : ℕ) where
  -- The back end has left: what it wrote, and every file closed.
  pub record IsFinished (text : Bytes) (c : Backend) : Type 0 where
    pub closes : c.out.fopened ≡ c.out.fclosed
    pub written : c.log.ready_bufs ≡ [] → texts c.out.writes ≡ text

  finish-IsFinished :
      (k : Clock) (b : Backend)
      → b.log.bufs ≡ []
      → IsTidy b.out b.log.file
      → IsFinished (contents b.log) (finish capacity k b)
  unfolding finish flush_rest
  finish-IsFinished k b e h = by_rest b.log.cur_buf refl
    where
      rest_text :
          (c : Bytes) → c ≡ b.log.cur_buf → b.log.ready_bufs ≡ [] → b.log.file ++ c ≡ contents b.log
      rest_text c p r =
          ap (λ x. b.log.file ++ x) p
          ∙ ap (λ x. b.log.file ++ (concat x ++ b.log.cur_buf)) (sym r)
          ∙ ap (λ x. b.log.file ++ (concat x ++ (concat b.log.ready_bufs ++ b.log.cur_buf))) (sym e)

      by_rest :
          (c : Bytes)
          → c ≡ b.log.cur_buf
          → IsFinished (contents b.log) (elim c as (λ q. Backend) [
            | [] ↦ record b { out = close_file b.out }
            | x ∷ xs ↦ record {
              log = flush_rest b.log;
              out = close_file (write_to_file k (x ∷ xs) b.out);
            }
          ])
      by_rest [] p =
          let s = close_file-IsShut b.out b.log.file h in
          record {
            closes = s.closes;
            written = λ r. s.written ∙ sym (append-nil b.log.file) ∙ rest_text [] p r;
          }
      by_rest (x ∷ xs) p =
          let s =
            close_file-IsShut (write_to_file k (x ∷ xs) b.out) (b.log.file ++ (x ∷ xs))
              (write_to_file-IsTidy k (x ∷ xs) b.out b.log.file h) in
          record { closes = s.closes; written = λ r. s.written ∙ rest_text (x ∷ xs) p r }

  -- Whether a stop comes in the rounds, and the lines that the log takes until the round after it.
  abbrev pub comes_to_end : Bool → List Round → Bool
  comes_to_end on [] = false
  comes_to_end on (r ∷ rs) =
      let rest = comes_to_end true rs in
      if runs_on (runs_on on r.before) r.meanwhile then rest else true

  abbrev pub all_taken : Bool → List Round → Bytes
  all_taken on [] = []
  all_taken on (r ∷ rs) =
      let rest = all_taken true rs in
      (taken on r.before ++ taken (runs_on on r.before) r.meanwhile)
      ++ (if runs_on (runs_on on r.before) r.meanwhile then rest else [])

  abbrev pub AllRoundsFit : List Round → Type 0
  AllRoundsFit [] = Unit
  AllRoundsFit (r ∷ rs) = AllFit capacity r.before × AllFit capacity r.meanwhile × AllRoundsFit rs

  module _ (r : Round) (rs : List Round) (b : Backend) where
    loop_on :
        (at_test capacity r b).log.started ≡ true
        → backend_loop capacity (r ∷ rs) b ≡ backend_loop capacity rs (at_test capacity r b)
    unfolding backend_loop round
    loop_on e =
        let d = at_test capacity r b in
        ap
          (λ on.
            let x : Bool × Backend =
              if on then (true, d) else (false, finish capacity (r.clock 0) d) in
            if x.0 then backend_loop capacity rs x.1 else (false, x.1))
          e

    loop_off :
        (at_test capacity r b).log.started ≡ false
        → backend_loop capacity (r ∷ rs) b
          ≡ (false, finish capacity (r.clock 0) (at_test capacity r b))
    unfolding backend_loop round
    loop_off e =
        let d = at_test capacity r b in
        ap
          (λ on.
            let x : Bool × Backend =
              if on then (true, d) else (false, finish capacity (r.clock 0) d) in
            if x.0 then backend_loop capacity rs x.1 else (false, x.1))
          e

    abbrev taken_now : Bytes
    taken_now = taken b.log.started r.before ++ taken (runs_on b.log.started r.before) r.meanwhile

    -- The text of the rounds, by whether the log goes on.
    all_taken_on :
        (on : Bool)
        → runs_on (runs_on b.log.started r.before) r.meanwhile ≡ on
        → contents b.log ++ (taken_now ++ (if on then all_taken true rs else []))
          ≡ contents b.log ++ all_taken b.log.started (r ∷ rs)
    all_taken_on on e =
        ap (λ o. contents b.log ++ (taken_now ++ (if o then all_taken true rs else []))) (sym e)

  abbrev Finishes : Bytes → Bool × Backend → Type 0
  Finishes text x = (x.0 ≡ false) × IsFinished text x.1

  -- If the log is stopped in some round, backend_loop leaves the loop. Each file that was opened before is then
  -- closed, once and in order, and stderr is not; and if no full buffer was set aside during the last
  -- round's writes, then what fwrite was given, over all files, is what the log held at the start and each
  -- line taken since, in order and complete. The lines fit an empty buffer.
  pub backend_loop_complete :
      (rs : List Round) (b : Backend)
      → AllRoundsFit rs
      → b.log.bufs ≡ []
      → IsTidy b.out b.log.file
      → comes_to_end b.log.started rs ≡ true
      → ((backend_loop capacity rs b).0 ≡ false)
        × IsFinished (contents b.log ++ all_taken b.log.started rs) (backend_loop capacity rs b).1
  backend_loop_complete [] b f e h c = cc
  backend_loop_complete (r ∷ rs) b (f, g, fs) e h c =
      let a = at_test-Rounded capacity r b f g e h in
      let d = at_test capacity r b in
      let goal = Finishes (contents b.log ++ all_taken b.log.started (r ∷ rs)) in
      elim (Bool-cases d.log.started) [
        | inl on ↦
            let go = sym a.on ∙ on in
            let (x, y) = backend_loop_complete rs d fs a.no_bufs a.tidy (
              ap (λ o. comes_to_end o rs) on
              ∙ ap (λ o. if o then comes_to_end true rs else true) (sym go)
              ∙ c) in
            subst goal (sym (loop_on r rs b on)) (
              x,
              subst (λ text. IsFinished text (backend_loop capacity rs d).1)
                  (ap (λ t. t ++ all_taken d.log.started rs) a.text
                    ∙ ap (λ o. (contents b.log ++ taken_now r rs b) ++ all_taken o rs) on
                    ∙ append_assoc (contents b.log) (taken_now r rs b) (all_taken true rs)
                    ∙ all_taken_on r rs b true go)
                  y,
            )
        | inr off ↦ subst goal (sym (loop_off r rs b off)) (
          refl,
          subst (λ text. IsFinished text (finish capacity (r.clock 0) d))
              (a.text
                ∙ ap (λ t. contents b.log ++ t) (sym (append-nil (taken_now r rs b)))
                ∙ all_taken_on r rs b false (sym a.on ∙ off))
              (finish-IsFinished (r.clock 0) d a.no_bufs a.tidy),
        )
      ]
