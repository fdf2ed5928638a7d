-- ===== src/Http/Service/Reply.antt =====
-- The responses of process_write in http_conn.cpp as texts.
use reactor_web_server.Common.{
  ℕ, ◌≤◌, ◌≡◌, ◌≢◌, refl, ap, sym, Bool, true, false, ◌&&◌, not, if◌then◌else◌, [], ◌++◌, length,
  take, some, subst,
}
use reactor_web_server.Common.Text.{Bytes}
use reactor_web_server.Http.{HttpConn, HttpCode, get_request}
use reactor_web_server.Http.Resource.{Files}
use reactor_web_server.Http.Response.{
  Answer, answer, head_text, head_size, snprintf, content_type_of, body_length, assemble,
  begin_response, apply_answer, process_write, business_code, finish_business,
  run_business_and_prepare_write,
}
use reactor_web_server.Http.Response.Head.{answer-title-length}
use reactor_web_server.Http.Response.Assembled.{whole_head, switched}
use reactor_web_server.Http.Write.Correct.{response, IsWhole}

-- A status line, headers and a body of the announced length.
abbrev pub page : ℕ → Bytes → Bytes → Bool → Bytes → Bytes
page status title ctype linger body = head_text status title (length body) ctype linger ++ body

-- The connection is about to send a text, with this file behind its descriptor.
pub record Sends (file text : Bytes) (c : HttpConn) : Type 0 where
  pub in_all : response file c ≡ text
  pub whole_file : IsWhole file c
  pub from_start : c.write_offset ≡ 0

module _ (a : Answer) (c : HttpConn) where
  -- The head that the answer has for a body of this length.
  abbrev pub head_of : ℕ → Bytes
  head_of n = head_text a.status a.title n (content_type_of a.serve_file c.url) c.linger

  -- The connection with its response, by the test of the last step.
  abbrev pub IsAssembled : ℕ → Bytes → Bytes → HttpConn → Type 0
  IsAssembled n file inline e =
      (response file e ≡ head_of n ++ (if c.use_sendfile then file else inline))
      × (e.use_sendfile ≡ c.use_sendfile)
      × (e.file_size ≡ c.file_size)
      × (e.write_offset ≡ c.write_offset)

module _ (a : Answer) (c : HttpConn) (short : length a.title ≤ 21) where
  whole :
      (n : ℕ)
      → take (snprintf head_size (head_of a c n)).1 (snprintf head_size (head_of a c n)).0
        ≡ head_of a c n
  whole n = whole_head a n c.url c.linger short

  body_chosen :
      (inline : Bool) (n : ℕ) (file : Bytes)
      → let d = record c {
        response_head =
            take (snprintf head_size (head_of a c n)).1 (snprintf head_size (head_of a c n)).0;
      } in
        IsAssembled a c n file
          (if inline then c.file_content else c.response_body)
          (if inline then record d { response_body = c.file_content; file_content = [] } else d)
  body_chosen true n file =
      (ap (λ h. h ++ (if c.use_sendfile then file else c.file_content)) (whole n), refl, refl, refl)
  body_chosen false n file = (
    ap (λ h. h ++ (if c.use_sendfile then file else c.response_body)) (whole n),
    refl,
    refl,
    refl,
  )

  pub assemble-IsAssembled :
      (file : Bytes)
      → IsAssembled a c
          (body_length a c)
          file
          (if a.serve_file && not c.use_sendfile then c.file_content else c.response_body)
          (assemble a c)
  unfolding assemble
  assemble-IsAssembled file =
      body_chosen (a.serve_file && not c.use_sendfile) (body_length a c) file

module _ (fs : Files) (root : Bytes) where
  business_answers :
      (c : HttpConn) (code : HttpCode) (a : Answer)
      → code ≢ get_request
      → answer code ≡ some a
      → finish_business
          (process_write (business_code fs root c code).1 (business_code fs root c code).0)
        ≡ (1, assemble a (switched c a))
  unfolding business_code process_write apply_answer begin_response finish_business
  business_answers c get_request a n e = absurd (n refl)
  business_answers c _ a n e = rw e refl

  -- The worker leaves the answer to the code that the parser left.
  pub run_business_answers :
      (c : HttpConn) (a : Answer) (file : Bytes)
      → c.parsed_code ≢ get_request
      → answer c.parsed_code ≡ some a
      → let r = run_business_and_prepare_write fs root c in
        let d = switched c a in
        (r.0 ≡ 1)
        × IsAssembled a d
            (body_length a d)
            file
            (if a.serve_file && not d.use_sendfile then d.file_content else d.response_body)
            r.1
  unfolding run_business_and_prepare_write
  run_business_answers c a file n e =
      let d = switched c a in
      let done = business_answers c c.parsed_code a n e in
      (
        ap (λ r. r.0) done,
        subst
            (IsAssembled a d (body_length a d) file
              (if a.serve_file && not d.use_sendfile then d.file_content else d.response_body))
            (sym (ap (λ r. r.1) done))
            (assemble-IsAssembled a d (answer-title-length c.parsed_code e) file),
      )
