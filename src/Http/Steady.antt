-- ===== src/Http/Steady.antt =====
-- http_conn.cpp: every operation keeps the connection valid and on its socket, whatever the
-- kernel answers.
pub mod Reading
use reactor_web_server.Common.{
  ℕ, ◌+◌, ◌≤◌, ◌≡◌, refl, sym, subst, ◌∙◌, Bool, true, false, Option, none, some, List, [], ◌∷◌,
  leb, ◌==◌, ◌&&◌, not, if◌then◌else◌, length, length-take, take, Bool-cases, inl, inr, arith, ℤ,
  minus_one,
}
use reactor_web_server.Common.Text.{Bytes}
use reactor_web_server.Http.{
  HttpConn, HttpCode, no_request, get_request, Address, init_state, init, Closed,
}
use reactor_web_server.Http.Read.{
  Recv, received, recv_failed, room, store, at_end, got, recv_step, recv_loop, read_once,
}
use reactor_web_server.Http.Read.Store.{length-store}
use reactor_web_server.Http.Resource.{Files}
use reactor_web_server.Http.Write.{eagain, eintr, other_error, Outcome, Io, write}
use reactor_web_server.Http.Write.Unmoved.{rewound, Unmoved, write-Unmoved}
use reactor_web_server.Http.Parser.{prepare_io_read, record_code}
use reactor_web_server.Http.Parser.Keeps.{do_request-Keeps}
use reactor_web_server.Http.Parser.Induction.{prepare_io_read-sockfd}
use reactor_web_server.Http.Parser.Invariant.{IsValid, Keeps-IsValid, process_read-Finished}
use reactor_web_server.Http.Response.{
  Answer, answer, assemble, begin_response, apply_answer, process_write, business_code,
  finish_business, run_business_and_prepare_write,
}
use reactor_web_server.Http.Reset.{reset_for_next, keep_leftover}
use reactor_web_server.Http.Reset.Leftover.{reset_for_next-Restarted}

-- A valid connection on the socket `z`.
pub record IsSteady (z : ℤ) (c : HttpConn) : Type 0 where
  pub valid : IsValid c
  pub on_sock : c.sockfd ≡ z

-- Only these fields count.
pub same_IsSteady :
    (z : ℤ) (c d : HttpConn)
    → d.sockfd ≡ c.sockfd
    → d.read_idx ≡ c.read_idx
    → d.checked_idx ≡ c.checked_idx
    → d.start_line ≡ c.start_line
    → length d.read_buf ≡ length c.read_buf
    → d.content_length ≡ c.content_length
    → IsSteady z c
    → IsSteady z d
same_IsSteady z c d s r k l n m v = record {
  valid = record {
    start-le = omega (arith, k, l, v.valid.start-le);
    checked-le = omega (arith, k, r, v.valid.checked-le);
    read-le = omega (arith, n, r, v.valid.read-le);
    body-lt = omega (arith, m, v.valid.body-lt);
  };
  on_sock = s ∙ v.on_sock;
}

reset_for_next-sockfd : (c : HttpConn) (log : Closed) → (reset_for_next c log).1.sockfd ≡ c.sockfd
unfolding reset_for_next keep_leftover
reset_for_next-sockfd c log = ground arith

record_code-IsValid :
    (fs : Files) (root : Bytes) (code : HttpCode) (c : HttpConn)
    → IsValid c
    → IsValid (record_code fs root (code, c)).1
unfolding record_code
record_code-IsValid fs root no_request c v = v
record_code-IsValid fs root _ c v = record {
  start-le = v.start-le;
  checked-le = v.checked-le;
  read-le = v.read-le;
  body-lt = v.body-lt;
}

pub prepare_io_read_returns :
    (fs : Files) (root : Bytes) (c : HttpConn)
    → IsValid c
    → (r : ℕ × HttpConn) × (prepare_io_read fs root c ≡ some r) × IsValid r.1
unfolding prepare_io_read
prepare_io_read_returns fs root c v =
    let (code, d, e, w, _) = process_read-Finished fs root c v in
    (
      record_code fs root (code, d),
      rw (e, prepare_io_read) refl,
      record_code-IsValid fs root code d w,
    )

module _ (z : ℤ) where
  -- prepare_io_read returns on a valid connection.
  pub prepare_io_read-IsSteady :
      (fs : Files) (root : Bytes) (c : HttpConn)
      → IsSteady z c
      → (r : ℕ × HttpConn) × (prepare_io_read fs root c ≡ some r) × IsSteady z r.1
  prepare_io_read-IsSteady fs root c v =
      let (r, e, w) = prepare_io_read_returns fs root c v.valid in
      (r, e, record { valid = w; on_sock = prepare_io_read-sockfd fs root z c r v.on_sock e })

  begin_response-IsSteady : (c : HttpConn) → IsSteady z c → IsSteady z (begin_response c)
  unfolding begin_response
  begin_response-IsSteady c v = same_IsSteady z c _ refl refl refl refl refl refl v

  assemble-IsSteady : (a : Answer) (c : HttpConn) → IsSteady z c → IsSteady z (assemble a c)
  unfolding assemble
  assemble-IsSteady a c v = elim (Bool-cases (a.serve_file && not c.use_sendfile)) [
    | inl e ↦ rw e (same_IsSteady z c _ refl refl refl refl refl refl v)
    | inr e ↦ rw e (same_IsSteady z c _ refl refl refl refl refl refl v)
  ]

  apply_answer-IsSteady :
      (c : HttpConn) (o : Option Answer) → IsSteady z c → IsSteady z (apply_answer c o).1
  unfolding apply_answer
  apply_answer-IsSteady c none v = v
  apply_answer-IsSteady c (some a) v =
      assemble-IsSteady a
        (record c { response_body = a.error_body; linger = if a.close then false else c.linger })
        (same_IsSteady z c
          (record c { response_body = a.error_body; linger = if a.close then false else c.linger })
          refl refl refl refl refl refl v)

  business_code-IsSteady :
      (fs : Files) (root : Bytes) (c : HttpConn) (code : HttpCode)
      → IsSteady z c
      → IsSteady z (business_code fs root c code).1
  unfolding business_code
  business_code-IsSteady fs root c get_request v = record {
    valid = Keeps-IsValid (do_request-Keeps fs root c) v.valid;
    on_sock = (do_request-Keeps fs root c).sock_same ∙ v.on_sock;
  }
  business_code-IsSteady fs root c _ v = v

  pub run_business-IsSteady :
      (fs : Files) (root : Bytes) (c : HttpConn)
      → IsSteady z c
      → IsSteady z (run_business_and_prepare_write fs root c).1
  unfolding run_business_and_prepare_write process_write finish_business
  run_business-IsSteady fs root c v =
      let b = business_code fs root c c.parsed_code in
      apply_answer-IsSteady (begin_response b.1) (answer b.0)
        (begin_response-IsSteady b.1 (business_code-IsSteady fs root c c.parsed_code v))

  -- What write returns, if it does.
  abbrev pub WriteSteady : Option (ℕ × Io) → Type 0
  WriteSteady none = Unit
  WriteSteady (some (r, io)) = IsSteady z io.conn

  Unmoved-WriteSteady :
      (c : HttpConn) (o : Option (ℕ × Io)) → IsSteady z c → Unmoved (rewound c) o → WriteSteady o
  Unmoved-WriteSteady c none v u = tt
  Unmoved-WriteSteady c (some (r, io)) v u =
      same_IsSteady z (rewound io.conn) io.conn refl refl refl refl refl refl
        (subst (IsSteady z) (sym u) (same_IsSteady z c (rewound c) refl refl refl refl refl refl v))

  pub write-WriteSteady :
      (file : Bytes) (os : List Outcome) (io : Io)
      → IsSteady z io.conn
      → WriteSteady (write file os io)
  write-WriteSteady file os io v =
      Unmoved-WriteSteady io.conn (write file os io) v
        (write-Unmoved (rewound io.conn) file os io refl)

  pub reset_for_next-IsSteady :
      (c : HttpConn) (log : Closed) → IsSteady z c → IsSteady z (reset_for_next c log).1
  reset_for_next-IsSteady c log v = record {
    valid = (reset_for_next-Restarted c log v.valid).0.valid;
    on_sock = reset_for_next-sockfd c log ∙ v.on_sock;
  }

pub init_state-IsSteady : (c : HttpConn) → IsSteady minus_one (init_state c)
unfolding init_state
init_state-IsSteady c = record {
  valid = record {
    start-le = omega arith;
    checked-le = omega arith;
    read-le = omega arith;
    body-lt = omega arith;
  };
  on_sock = refl;
}

pub init-IsSteady : (c : HttpConn) (fd : ℤ) (addr : Address) → IsSteady fd (init c fd addr)
unfolding init init_state
init-IsSteady c fd addr = record {
  valid = record {
    start-le = omega arith;
    checked-le = omega arith;
    read-le = omega arith;
    body-lt = omega arith;
  };
  on_sock = refl;
}
