-- ===== src/Http/Pipeline/Between.antt =====
-- Preparing and writing a response, in http_conn.cpp, leaves what was read alone.
use reactor_web_server.Common.{
  ℕ, ◌≡◌, refl, ap, ◌∙◌, false, Option, none, some, List, ◌&&◌, not, if◌then◌else◌, Bool-cases, inl,
  inr, subst,
}
use reactor_web_server.Common.Text.{Bytes}
use reactor_web_server.Http.{HttpConn, HttpCode, get_request}
use reactor_web_server.Http.Resource.{Files}
use reactor_web_server.Http.Resource.Changes.{do_request_changes}
use reactor_web_server.Http.Response.{
  Answer, answer, assemble, begin_response, apply_answer, process_write, business_code,
  finish_business, run_business_and_prepare_write,
}
use reactor_web_server.Http.Write.{Errno, Outcome, Io, Written, write}
use reactor_web_server.Http.Write.Unmoved.{rewound, Unmoved, write-Unmoved}
use reactor_web_server.Http.Steady.{IsSteady, run_business-IsSteady, WriteSteady, write-WriteSteady}

-- The read bytes, their number and where the next request begins.
pub record KeepsReading (c d : HttpConn) : Type 0 where
  pub buf_same : d.read_buf ≡ c.read_buf
  pub read_same : d.read_idx ≡ c.read_idx
  pub start_same : d.start_line ≡ c.start_line

same_reading :
    (c d e : HttpConn)
    → e.read_buf ≡ d.read_buf
    → e.read_idx ≡ d.read_idx
    → e.start_line ≡ d.start_line
    → KeepsReading c d
    → KeepsReading c e
same_reading c d e b r s k = record {
  buf_same = b ∙ k.buf_same;
  read_same = r ∙ k.read_same;
  start_same = s ∙ k.start_same;
}

module _ (c : HttpConn) where
  assemble-KeepsReading :
      (a : Answer) (d : HttpConn) → KeepsReading c d → KeepsReading c (assemble a d)
  unfolding assemble
  assemble-KeepsReading a d k = elim (Bool-cases (a.serve_file && not d.use_sendfile)) [
    | inl e ↦ rw e (same_reading c d _ refl refl refl k)
    | inr e ↦ rw e (same_reading c d _ refl refl refl k)
  ]

  apply_answer-KeepsReading :
      (d : HttpConn) (o : Option Answer) → KeepsReading c d → KeepsReading c (apply_answer d o).1
  unfolding apply_answer
  apply_answer-KeepsReading d none k = k
  apply_answer-KeepsReading d (some a) k =
      let e = record d {
        response_body = a.error_body;
        linger = if a.close then false else d.linger;
      } in
      assemble-KeepsReading a e (same_reading c d e refl refl refl k)

business_code-KeepsReading :
    (fs : Files) (root : Bytes) (c : HttpConn) (code : HttpCode)
    → KeepsReading c (business_code fs root c code).1
unfolding business_code
business_code-KeepsReading fs root c get_request = record {
  buf_same = ap (λ d. d.read_buf) (do_request_changes fs root c);
  read_same = ap (λ d. d.read_idx) (do_request_changes fs root c);
  start_same = ap (λ d. d.start_line) (do_request_changes fs root c);
}
business_code-KeepsReading fs root c _ = record {
  buf_same = refl;
  read_same = refl;
  start_same = refl;
}

run_business-KeepsReading :
    (fs : Files) (root : Bytes) (c : HttpConn)
    → KeepsReading c (run_business_and_prepare_write fs root c).1
unfolding run_business_and_prepare_write process_write finish_business begin_response
run_business-KeepsReading fs root c =
    let b = business_code fs root c c.parsed_code in
    apply_answer-KeepsReading c (begin_response b.1) (answer b.0) (
      same_reading c b.1 (begin_response b.1) refl refl refl
        (business_code-KeepsReading fs root c c.parsed_code))

-- A parsed connection on its way through the worker and any number of calls of write.
pub data Answering (fs : Files) (root : Bytes) (c : HttpConn) : HttpConn → Type 0 where
  prepared : Answering fs root c (run_business_and_prepare_write fs root c).1
  wrote :
      {d : HttpConn}
      → Answering fs root c d
      → (file : Bytes) (os : List Outcome) (errno : Errno) (wire : Bytes) (r : ℕ) (io : Io)
      → write file os (record { conn = d; errno = errno; wire = wire }) ≡ some (r, io)
      → Answering fs root c (io.conn)

written-KeepsReading :
    (c d : HttpConn) (o : Written) (r : ℕ) (io : Io)
    → o ≡ some (r, io)
    → Unmoved (rewound d) o
    → KeepsReading c d
    → KeepsReading c io.conn
written-KeepsReading c d o r io e u k =
    let same : rewound io.conn ≡ rewound d = subst (Unmoved (rewound d)) e u in
    same_reading c d io.conn (ap (λ x. x.read_buf) same) (ap (λ x. x.read_idx) same)
      (ap (λ x. x.start_line) same) k

module _ (fs : Files) (root : Bytes) (c : HttpConn) where
  pub Answering-KeepsReading : (d : HttpConn) → Answering fs root c d → KeepsReading c d
  Answering-KeepsReading d prepared = run_business-KeepsReading fs root c
  Answering-KeepsReading d (wrote {d = e} a file os errno wire r io h) =
      written-KeepsReading c e _ r io h
        (write-Unmoved (rewound e) file os (record { conn = e; errno = errno; wire = wire }) refl)
        (Answering-KeepsReading e a)

  pub Answering-IsSteady :
      (d : HttpConn) → IsSteady c.sockfd c → Answering fs root c d → IsSteady c.sockfd d
  Answering-IsSteady d v prepared = run_business-IsSteady c.sockfd fs root c v
  Answering-IsSteady d v (wrote {d = e} a file os errno wire r io h) =
      subst (WriteSteady c.sockfd) h (
        write-WriteSteady c.sockfd file os (record { conn = e; errno = errno; wire = wire })
          (Answering-IsSteady e v a))
