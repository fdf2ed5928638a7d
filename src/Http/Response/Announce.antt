-- ===== src/Http/Response/Announce.antt =====
-- What process_write of http_conn.cpp leaves for write.
use reactor_web_server.Common.{
  ℕ, ◌≡◌, ◌≢◌, refl, ap, arith, sym, subst, none, ◌∙◌, Bool, true, false, ◌&&◌, not, if◌then◌else◌,
  ◌||◌, ◌==◌, ◌++◌, [], some,
}
use reactor_web_server.Common.Text.{Bytes, codes}
use reactor_web_server.Http.{
  HttpConn, HttpCode, no_request, get_request, bad_request, no_resource, forbidden_request,
  file_request, internal_error,
}
use reactor_web_server.Http.Response.{
  Answer, answer, head_text, content_type_of, begin_response, apply_answer, decimal, process_write,
}
use reactor_web_server.Http.Response.Head.{answer-title-length}
use reactor_web_server.Http.Response.Assembled.{body_to_send, Holds, assemble-Holds}

-- The status that HTTP gives to what the parser found.
abbrev pub status_of : HttpCode → ℕ
status_of file_request = 200
status_of bad_request = 400
status_of forbidden_request = 403
status_of no_resource = 404
status_of internal_error = 500
status_of no_request = 0
status_of get_request = 0

abbrev pub reason : HttpCode → Bytes
reason file_request = codes "OK"
reason bad_request = codes "Bad Request"
reason forbidden_request = codes "Forbidden"
reason no_resource = codes "Not Found"
reason internal_error = codes "Internal Server Error"
reason no_request = []
reason get_request = []

-- The page that names an error by its status and its reason.
abbrev pub error_page : HttpCode → Bytes
error_page ret =
    codes "<html><body><h1>"
    ++ (decimal (status_of ret) ++ (codes " " ++ (reason ret ++ codes "</h1></body></html>")))

-- A response, ready to be sent: its status line and headers in full, with the length of what is
-- sent behind them; behind them the file or the error page. Only a file and a missing file leave
-- the connection open.
pub record Announced (c : HttpConn) (ret : HttpCode) (d : HttpConn) : Type 0 where
  pub head_is :
      d.response_head
      ≡ head_text
          (status_of ret)
          (reason ret)
          (body_to_send d ((status_of ret == 200) && c.use_sendfile))
          (content_type_of (status_of ret == 200) c.url)
          d.linger
  pub body_is : d.response_body ≡ (
      if status_of ret == 200
      then (if c.use_sendfile then [] else c.file_content)
      else error_page ret)
  pub same_file :
      (d.file_fd ≡ c.file_fd) × (d.file_size ≡ c.file_size) × (d.use_sendfile ≡ c.use_sendfile)
  pub from_start : d.write_offset ≡ 0
  pub lingers :
      d.linger ≡ (if (status_of ret == 200) || (status_of ret == 404) then c.linger else false)

if_not : {A : Type 0} (b : Bool) (x y : A) → (if not b then x else y) ≡ (if b then y else x)
if_not true x y = refl
if_not false x y = refl

Holds-given : {c d : HttpConn} {a b : Answer} → some a ≡ some b → Holds c b d → Holds c a d
Holds-given {c} {d} {a} e h =
    subst (λ x. Holds c x d) (sym (ap (λ o. elim o as (λ _. Answer) [ none ↦ a | some x ↦ x ]) e)) h

-- The answers, code by code.
Holds-Announced :
    (c : HttpConn) (ret : HttpCode) (a : Answer) (d : HttpConn)
    → answer ret ≡ some a
    → Holds c a d
    → Announced c ret d
unfolding answer decimal
Holds-Announced c file_request a d e h =
    let k = Holds-given e h in
    record {
      head_is = k.head_is;
      body_is = k.body_is ∙ if_not c.use_sendfile c.file_content [];
      same_file = k.same_file;
      from_start = k.from_start;
      lingers = k.lingers;
    }
Holds-Announced c bad_request a d e h =
    let k = Holds-given e h in
    record {
      head_is = k.head_is;
      body_is = k.body_is;
      same_file = k.same_file;
      from_start = k.from_start;
      lingers = k.lingers;
    }
Holds-Announced c forbidden_request a d e h =
    let k = Holds-given e h in
    record {
      head_is = k.head_is;
      body_is = k.body_is;
      same_file = k.same_file;
      from_start = k.from_start;
      lingers = k.lingers;
    }
Holds-Announced c no_resource a d e h =
    let k = Holds-given e h in
    record {
      head_is = k.head_is;
      body_is = k.body_is;
      same_file = k.same_file;
      from_start = k.from_start;
      lingers = k.lingers;
    }
Holds-Announced c internal_error a d e h =
    let k = Holds-given e h in
    record {
      head_is = k.head_is;
      body_is = k.body_is;
      same_file = k.same_file;
      from_start = k.from_start;
      lingers = k.lingers;
    }
Holds-Announced c no_request a d e h = absurd (ground arith)
Holds-Announced c get_request a d e h = absurd (ground arith)

answered :
    (ret : HttpCode) → ret ≢ no_request → ret ≢ get_request → (a : Answer) × (answer ret ≡ some a)
unfolding answer
answered file_request n g = (_, refl)
answered bad_request n g = (_, refl)
answered forbidden_request n g = (_, refl)
answered no_resource n g = (_, refl)
answered internal_error n g = (_, refl)
answered no_request n g = absurd (n refl)
answered get_request n g = absurd (g refl)

-- For each code but NoRequest and GetRequest, process_write succeeds and leaves the whole response to
-- be sent from offset 0. Its head has the code's status and reason and announces the length of what
-- follows it. What follows is the file's content for a file that is sent from memory, the error's
-- page for an error, and no text for a file that sendfile sends, whose descriptor, size and mode
-- stay. Keep-alive stays for a file and for a missing file, and ends for the other errors.
pub process_write-Announced :
    (c : HttpConn) (ret : HttpCode)
    → ret ≢ no_request
    → ret ≢ get_request
    → ((process_write c ret).0 ≡ true) × Announced c ret (process_write c ret).1
unfolding process_write apply_answer begin_response
process_write-Announced c ret n g =
    let (a, e) = answered ret n g in
    rw e (refl, Holds-Announced c ret a _ e (assemble-Holds c a (answer-title-length ret e)))
