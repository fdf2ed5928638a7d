-- ===== src/Http/Response/Assembled.antt =====
-- http_conn.cpp, process_write: what putting an answer's response together leaves.
use reactor_web_server.Common.{
  ℕ, ◌≤◌, ◌≡◌, refl, ap₂, sym, ◌∙◌, Bool, true, false, ◌&&◌, not, if◌then◌else◌, [], length, take,
}
use reactor_web_server.Common.Text.{Bytes}
use reactor_web_server.Http.{HttpConn}
use reactor_web_server.Http.Response.{
  Answer, head_text, head_size, snprintf, content_type_of, body_length, assemble,
}
use reactor_web_server.Http.Response.Head.{content_type_of-length, head_text-length, snprintf_fits}

-- The length of what write sends behind the head.
abbrev pub body_to_send : HttpConn → Bool → ℕ
body_to_send d by_file = if by_file then d.file_size else length d.response_body

-- The head of a response, in full, announces the length of what is sent behind it. What is sent is
-- the file, by sendfile or from memory, or the text of the error; sending starts at offset 0.
pub record Holds (c : HttpConn) (a : Answer) (d : HttpConn) : Type 0 where
  pub head_is :
      d.response_head
      ≡ head_text a.status a.title
          (body_to_send d (a.serve_file && c.use_sendfile))
          (content_type_of a.serve_file c.url)
          d.linger
  pub body_is :
      d.response_body
      ≡ (if a.serve_file && not c.use_sendfile then c.file_content else a.error_body)
  pub same_file :
      (d.file_fd ≡ c.file_fd) × (d.file_size ≡ c.file_size) × (d.use_sendfile ≡ c.use_sendfile)
  pub from_start : d.write_offset ≡ 0
  pub lingers : d.linger ≡ (if a.close then false else c.linger)

pub whole_head :
    (a : Answer) (n : ℕ) (url : Bytes) (linger : Bool)
    → length a.title ≤ 21
    → let text = head_text a.status a.title n (content_type_of a.serve_file url) linger in
      take (snprintf head_size text).1 (snprintf head_size text).0 ≡ text
whole_head a n url linger h =
    snprintf_fits _
      (head_text-length a.status a.title n _ linger h (content_type_of-length a.serve_file url))

-- The state that the switch leaves.
abbrev pub switched : HttpConn → Answer → HttpConn
switched c a = record c {
  response_head = [];
  response_body = a.error_body;
  write_offset = 0;
  linger = if a.close then false else c.linger;
}

-- The body that the last step may move from the inline content.
body_moved :
    (d : HttpConn) (content : Bytes) (b : Bool)
    → let e = if b then record d { response_body = content; file_content = [] } else d in
      (e.response_head ≡ d.response_head)
      × (e.write_offset ≡ d.write_offset)
      × (e.linger ≡ d.linger)
      × (e.file_size ≡ d.file_size)
      × (e.response_body ≡ (if b then content else d.response_body))
      × (e.file_fd ≡ d.file_fd)
      × (e.use_sendfile ≡ d.use_sendfile)
body_moved d content true = (refl, refl, refl, refl, refl, refl, refl)
body_moved d content false = (refl, refl, refl, refl, refl, refl, refl)

lengths_agree :
    (serve by_file : Bool) (size : ℕ) (content body : Bytes)
    → (if serve then (if by_file then size else length content) else length body)
      ≡ (if serve && by_file then size else length (if serve && not by_file then content else body))
lengths_agree true true size content body = refl
lengths_agree true false size content body = refl
lengths_agree false by_file size content body = refl

pub assemble-Holds :
    (c : HttpConn) (a : Answer) → length a.title ≤ 21 → Holds c a (assemble a (switched c a))
unfolding assemble body_length
assemble-Holds c a h =
    let n : ℕ = body_length a (switched c a) in
    let l : Bool = if a.close then false else c.linger in
    let text : Bytes = head_text a.status a.title n (content_type_of a.serve_file c.url) l in
    let d : HttpConn = record (switched c a) {
      response_head = take (snprintf head_size text).1 (snprintf head_size text).0;
    } in
    let m = body_moved d c.file_content (a.serve_file && not c.use_sendfile) in
    let agree : n ≡ body_to_send (assemble a (switched c a)) (a.serve_file && c.use_sendfile) =
      lengths_agree a.serve_file c.use_sendfile c.file_size c.file_content a.error_body
      ∙ ap₂
          (λ (size : ℕ) (bytes : Bytes).
            if a.serve_file && c.use_sendfile then size else length bytes)
          (sym m.3) (sym m.4) in
    record {
      head_is =
          m.0
          ∙ whole_head a n c.url l h
          ∙ ap₂
              (λ (k : ℕ) (b : Bool).
                head_text a.status a.title k (content_type_of a.serve_file c.url) b)
              agree (sym m.2);
      body_is = m.4;
      same_file = (m.5, m.3, m.6);
      from_start = m.1;
      lingers = m.2;
    }
