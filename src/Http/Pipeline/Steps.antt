-- ===== src/Http/Pipeline/Steps.antt =====
-- From one request of a connection to the next, in http_conn.cpp.
use reactor_web_server.Common.{
  Bool-cases, inl, inr, ℕ, ◌+◌, ◌-◌, ◌≡◌, ◌≢◌, refl, ap, ap₂, sym, ◌∙◌, subst, length,
  length-append, length-take, take, drop, take-append, drop-append, take-append-drop, [], ◌++◌,
  append_assoc, arith, some,
}
use reactor_web_server.Common.Text.{Bytes}
use reactor_web_server.Http.{HttpConn, HttpCode, no_request, Closed}
use reactor_web_server.Http.Resource.{Files}
use reactor_web_server.Http.Resource.Changes.{with_file, do_request_changes, do_request_answers}
use reactor_web_server.Http.Parser.{record_code, prepare_io_read}
use reactor_web_server.Http.Parser.Invariant.{IsValid}
use reactor_web_server.Http.Parser.Loop.{some_eq}
use reactor_web_server.Http.Requests.{
  Request, IsRequest, IsReady, Parsed, request_text, process_read-request_text,
}
use reactor_web_server.Http.Requests.Head.{no_host_named, concluded}
use reactor_web_server.Http.Requests.Lines.{Unread}
use reactor_web_server.Http.Reset.{reset_for_next}
use reactor_web_server.Http.Reset.Leftover.{unread_bytes, reset_for_next-Restarted}
use reactor_web_server.Http.Steady.{prepare_io_read-IsSteady}
use reactor_web_server.Http.Pipeline.Between.{
  KeepsReading, Answering, Answering-KeepsReading, Answering-IsSteady,
}

-- A connection between two requests that has read this text and no more.
pub record Holds (c : HttpConn) (text : Bytes) : Type 0 where
  pub ready : IsReady c
  pub tail : Bytes
  pub unread : Unread c (text ++ tail)
  pub at_end : c.read_idx ≡ c.checked_idx + length text

unread_text :
    (before text tail buf : Bytes) (r s : ℕ)
    → buf ≡ before ++ (text ++ tail)
    → s ≡ length before
    → r ≡ s + length text
    → take (r - s) (drop s buf) ≡ text
unread_text before text tail buf r s b e f =
    ap₂ (λ (n : ℕ) (xs : Bytes). take n xs) (omega arith)
      (ap₂ (λ (n : ℕ) (xs : Bytes). drop n xs) e b ∙ drop-append before (text ++ tail))
    ∙ take-append text tail

concluded_changes :
    (fs : Files) (root : Bytes) (c : HttpConn)
    → (concluded fs root c).1 ≡ with_file c (concluded fs root c).1
concluded_changes fs root c = elim (Bool-cases (no_host_named c)) [
  | inl e ↦ rw e refl
  | inr e ↦ rw e (do_request_changes fs root c)
]

concluded_answers :
    (fs : Files) (root : Bytes) (c : HttpConn) → (concluded fs root c).0 ≢ no_request
concluded_answers fs root c = elim (Bool-cases (no_host_named c)) [
  | inl e ↦ rw e (λ f. cc)
  | inr e ↦ rw e (do_request_answers fs root c)
]

module _ (fs : Files) (root : Bytes) where
  -- The connection that prepare_io_read leaves behind a request.
  abbrev pub requested : HttpConn → HttpConn
  requested d = record ((concluded fs root d).1) { parsed_code = (concluded fs root d).0 }

  record_code_answer :
      (code : HttpCode) (c : HttpConn)
      → code ≢ no_request
      → record_code fs root (code, c) ≡ (1, record c { parsed_code = code })
  unfolding record_code
  record_code_answer no_request c h = absurd (h refl)
  record_code_answer _ c h = refl

  -- What the first of the requests gives.
  abbrev pub Understood : Request → Bytes → HttpConn → Type 0
  Understood q rest c =
      (d : HttpConn) × Parsed q rest c d × (prepare_io_read fs root c ≡ some (1, requested d))

  pub first-Understood :
      (q : Request) (more : Bytes) (c : HttpConn)
      → IsRequest q
      → (h : Holds c (request_text q ++ more)) → Understood q (more ++ h.tail) c
  unfolding prepare_io_read
  first-Understood q more c k h =
      let l = length-append (request_text q) more in
      let (d, p, e) =
        process_read-request_text fs root q (more ++ h.tail) c k h.ready
          (subst (Unread c) (append_assoc (request_text q) more h.tail) h.unread)
          (omega (arith, h.at_end, l)) in
      (
        d,
        p,
        rw (e, prepare_io_read)
            (ap some (
              record_code_answer (concluded fs root d).0 (concluded fs root d).1
                (concluded_answers fs root d))),
      )

  requested-KeepsReading : (d : HttpConn) → KeepsReading d (requested d)
  requested-KeepsReading d = record {
    buf_same = ap (λ x. x.read_buf) (concluded_changes fs root d);
    read_same = ap (λ x. x.read_idx) (concluded_changes fs root d);
    start_same = ap (λ x. x.start_line) (concluded_changes fs root d);
  }

  prepared-IsValid :
      (c d : HttpConn) → IsValid c → prepare_io_read fs root c ≡ some (1, d) → IsValid d
  prepared-IsValid c d v e =
      let (r, f, w) =
        prepare_io_read-IsSteady c.sockfd fs root c (record { valid = v; on_sock = refl }) in
      subst (λ x. IsValid x.1) (some_eq (sym f ∙ e)) w.valid

  reset-IsReady : (x : HttpConn) (log : Closed) → IsValid x → IsReady (reset_for_next x log).1
  unfolding reset_for_next
  reset-IsReady x log v = record {
    valid = (reset_for_next-Restarted x log v).0.valid;
    first_state = refl;
    no_host = refl;
    no_length = refl;
  }

  reset_starts :
      (x : HttpConn) (log : Closed)
      → ((reset_for_next x log).1.checked_idx ≡ 0) × ((reset_for_next x log).1.start_line ≡ 0)
  unfolding reset_for_next
  reset_starts x log = (refl, refl)

  -- The reset after the response leaves the bytes behind the request.
  reset-Holds :
      (x : HttpConn) (log : Closed) (text : Bytes)
      → IsValid x
      → unread_bytes x ≡ text
      → Holds (reset_for_next x log).1 text
  reset-Holds x log text v e =
      let y = (reset_for_next x log).1 in
      let r = (reset_for_next-Restarted x log v).0 in
      let k = r.kept ∙ e in
      let s = reset_starts x log in
      record {
        ready = reset-IsReady x log v;
        tail = drop y.read_idx y.read_buf;
        unread = record {
          before = [];
          buffer =
              sym (take-append-drop y.read_idx y.read_buf)
              ∙ ap (λ xs. xs ++ drop y.read_idx y.read_buf) k;
          checked_at = sym s.0;
          start_at = s.1 ∙ sym s.0;
        };
        at_end =
            omega (arith, s.0, r.valid.read-le, length-take y.read_idx y.read_buf, ap length k);
      }

  pub next-Holds :
      (q : Request) (more : Bytes) (c d x : HttpConn) (log : Closed)
      → (h : Holds c (request_text q ++ more)) → Parsed q (more ++ h.tail) c d
      → prepare_io_read fs root c ≡ some (1, requested d)
      → Answering fs root (requested d) x
      → Holds (reset_for_next x log).1 more
  next-Holds q more c d x log h p e a =
      let k = Answering-KeepsReading fs root (requested d) x a in
      let j = requested-KeepsReading d in
      let valid = prepared-IsValid c (requested d) h.ready.valid e in
      let steady =
        Answering-IsSteady fs root (requested d) x (record { valid = valid; on_sock = refl }) a in
      reset-Holds x log more steady.valid (
        unread_text p.unread.before more h.tail x.read_buf x.read_idx x.start_line
          (k.buf_same ∙ j.buf_same ∙ p.unread.buffer)
          (k.start_same ∙ j.start_same ∙ p.unread.start_at ∙ sym p.unread.checked_at)
          (omega (
            arith,
            k.read_same,
            j.read_same,
            k.start_same,
            j.start_same,
            ap (λ y. y.read_idx) p.changed,
            p.consumed,
            p.unread.start_at,
            h.at_end,
            length-append (request_text q) more,
          )))

  pub same_answer :
      (c d e : HttpConn)
      → prepare_io_read fs root c ≡ some (1, d)
      → prepare_io_read fs root c ≡ some (1, e)
      → d ≡ e
  same_answer c d e p q = ap (λ r. r.1) (some_eq (sym p ∙ q))
