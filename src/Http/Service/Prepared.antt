-- ===== src/Http/Service/Prepared.antt =====
-- The responses that the worker prepares, in http_conn.cpp, for each resource.
use reactor_web_server.Common.{
  ℕ, [], ◌∷◌, ◌<◌, ◌≡◌, refl, ap, ap₂, ◌∙◌, Bool, true, false, ◌++◌, length, arith, Bool-cases, inl,
  inr,
}
use reactor_web_server.Common.Text.{Bytes, codes, equal}
use reactor_web_server.Http.{HttpConn}
use reactor_web_server.Http.Header.{is_empty}
use reactor_web_server.Http.Resource.{Files, welcome_page}
use reactor_web_server.Http.Response.{
  answer, head_text, get_content_type, content_type_of, body_length, run_business_and_prepare_write,
}
use reactor_web_server.Http.Write.Correct.{response}
use reactor_web_server.Http.Requests.Head.{no_host_named, concluded}
use reactor_web_server.Http.Requests.FirstLine.{version_text}
use reactor_web_server.Http.Service.Lookup.{
  Found, welcome, missing, refused, malformed, stored, filled, do_request-filled, IsFaithful, Fits,
  find-Fits,
}
use reactor_web_server.Http.Service.Reply.{Sends, run_business_answers}
use reactor_web_server.Http.Service.Promise.{reply_for, found_for}

pub full_url : (url : Bytes) → 0 < length url → is_empty url ≡ false
full_url [] h = absurd (omega arith)
full_url (x ∷ url) h = refl

type_of_page :
    (url : Bytes) → equal url (codes "/") ≡ true → content_type_of true url ≡ codes "text/html"
unfolding content_type_of
type_of_page url h = elim (Bool-cases (is_empty url)) [ inl e ↦ rw e refl | inr e ↦ rw (e, h) refl ]

type_of_file :
    (url : Bytes)
    → is_empty url ≡ false
    → equal url (codes "/") ≡ false
    → content_type_of true url ≡ get_content_type url
unfolding content_type_of
type_of_file url e h = rw (e, h) refl

type_of_error : (url : Bytes) → content_type_of false url ≡ codes "text/html"
unfolding content_type_of
type_of_error url = refl

-- The connection that looked up a resource.
abbrev pub loaded : Found → HttpConn → HttpConn
loaded f d = record ((filled f d).1) { parsed_code = (filled f d).0 }

pub version_is : (newer : Bool) → equal (version_text newer) (codes "HTTP/1.1") ≡ newer
unfolding equal
version_is true = refl
version_is false = refl

-- The same, as the code finds it in the connection.
abbrev pub found_by : Files → Bytes → HttpConn → Found
found_by fs root d = found_for fs root (equal d.version (codes "HTTP/1.1")) d.host d.url

pub concluded-filled :
    (fs : Files) (root : Bytes) (d : HttpConn) → concluded fs root d ≡ filled (found_by fs root d) d
concluded-filled fs root d = elim (Bool-cases (no_host_named d)) [
  | inl e ↦ rw e refl
  | inr e ↦ rw e (do_request-filled fs root d)
]

pub found_by-Fits :
    (fs : Files) (content : Bytes → Bytes) (root : Bytes) (d : HttpConn)
    → IsFaithful fs content
    → Fits (found_by fs root d) d.url (content (root ++ d.url))
found_by-Fits fs content root d h = elim (Bool-cases (no_host_named d)) [
  | inl e ↦ rw e tt
  | inr e ↦ rw e (find-Fits fs content root d.url h)
]

module _ (fs : Files) (root : Bytes) where
  -- The worker has the reply ready.
  abbrev pub Replies : Bytes → Bytes → HttpConn → Type 0
  Replies file text d =
      ((run_business_and_prepare_write fs root d).0 ≡ 1)
      × Sends file text (run_business_and_prepare_write fs root d).1

  -- What is sent from memory, and what from the file.
  inline-Replies :
      (d : HttpConn) (text old file : Bytes) (n : ℕ)
      → (run_business_and_prepare_write fs root d).0 ≡ 1
      → ((response file (run_business_and_prepare_write fs root d).1 ≡ old)
          × ((run_business_and_prepare_write fs root d).1.use_sendfile ≡ false)
          × ((run_business_and_prepare_write fs root d).1.file_size ≡ n)
          × ((run_business_and_prepare_write fs root d).1.write_offset ≡ 0))
      → old ≡ text
      → Replies file text d
  inline-Replies d text old file n ok r e = (
    ok,
    record { in_all = r.0 ∙ e; whole_file = λ f. absurd (ground (arith, r.1)); from_start = r.3 },
  )

  welcome-Replies :
      (d : HttpConn) (file : Bytes)
      → equal d.url (codes "/") ≡ true
      → Replies file (reply_for welcome d.url d.linger file) (loaded welcome d)
  unfolding answer body_length
  welcome-Replies d file h =
      let r = run_business_answers fs root (loaded welcome d) _ file (λ e. cc) refl in
      inline-Replies (loaded welcome d) _ _ file _ r.0 r.1 (
        ap (λ t. head_text 200 (codes "OK") (length welcome_page) t d.linger ++ welcome_page)
          (type_of_page d.url h))

  missing-Replies :
      (d : HttpConn) (file : Bytes)
      → d.use_sendfile ≡ false
      → Replies file (reply_for missing d.url d.linger file) (loaded missing d)
  unfolding answer body_length content_type_of
  missing-Replies d file u =
      let r = run_business_answers fs root (loaded missing d) _ file (λ e. cc) refl in
      inline-Replies (loaded missing d) _ _ file _ r.0 (r.1.0, r.1.1 ∙ u, r.1.2, r.1.3) (rw u refl)

  refused-Replies :
      (d : HttpConn) (file : Bytes)
      → d.use_sendfile ≡ false
      → Replies file (reply_for refused d.url d.linger file) (loaded refused d)
  unfolding answer body_length content_type_of
  refused-Replies d file u =
      let r = run_business_answers fs root (loaded refused d) _ file (λ e. cc) refl in
      inline-Replies (loaded refused d) _ _ file _ r.0 (r.1.0, r.1.1 ∙ u, r.1.2, r.1.3) (rw u refl)

  malformed-Replies :
      (d : HttpConn) (file : Bytes)
      → d.use_sendfile ≡ false
      → Replies file (reply_for malformed d.url d.linger file) (loaded malformed d)
  unfolding answer body_length content_type_of
  malformed-Replies d file u =
      let r = run_business_answers fs root (loaded malformed d) _ file (λ e. cc) refl in
      inline-Replies (loaded malformed d) _ _ file _ r.0 (r.1.0, r.1.1 ∙ u, r.1.2, r.1.3)
        (rw u refl)

  stored-Replies :
      (d : HttpConn) (size fd : ℕ) (file : Bytes)
      → size ≡ length file
      → is_empty d.url ≡ false
      → equal d.url (codes "/") ≡ false
      → Replies file (reply_for (stored size fd) d.url d.linger file) (loaded (stored size fd) d)
  unfolding answer body_length
  stored-Replies d size fd file n e h =
      let r = run_business_answers fs root (loaded (stored size fd) d) _ file (λ f. cc) refl in
      (
        r.0,
        record {
          in_all =
              r.1.0
              ∙ ap₂ (λ (k : ℕ) (t : Bytes). head_text 200 (codes "OK") k t d.linger ++ file) n
                  (type_of_file d.url e h);
          whole_file = λ f. r.1.2 ∙ n;
          from_start = r.1.3;
        },
      )

  pub found-Replies :
      (f : Found) (d : HttpConn) (file : Bytes)
      → Fits f d.url file
      → is_empty d.url ≡ false
      → d.use_sendfile ≡ false
      → Replies file (reply_for f d.url d.linger file) (loaded f d)
  found-Replies welcome d file h e u = welcome-Replies d file h
  found-Replies missing d file h e u = missing-Replies d file u
  found-Replies refused d file h e u = refused-Replies d file u
  found-Replies malformed d file h e u = malformed-Replies d file u
  found-Replies (stored size fd) d file h e u = stored-Replies d size fd file h.0 e h.1
