-- ===== src/Http/Service.antt =====
-- What the server of http_conn.cpp promises a client: a reply for each GET request.
pub mod Lookup
pub mod Reply
pub mod Promise
pub mod Prepared
pub mod Delivered
use reactor_web_server.Common.{
  ℕ, [], ◌∷◌, ◌<◌, ◌≤◌, All, ◌≡◌, ◌≢◌, refl, ap, ap₂, sym, ◌∙◌, Bool, true, false, ◌&&◌, not,
  if◌then◌else◌, ◌++◌, length, arith, Option, some, List, subst, pos, Bool-cases, inl, inr,
}
use reactor_web_server.Common.Text.{Bytes, codes, equal}
use reactor_web_server.Http.{HttpConn, HttpCode, file_request}
use reactor_web_server.Http.Header.{is_empty}
use reactor_web_server.Http.Resource.{Files, welcome_page, do_request}
use reactor_web_server.Http.Parser.{prepare_io_read}
use reactor_web_server.Http.Response.{
  answer, head_text, get_content_type, content_type_of, body_length, run_business_and_prepare_write,
}
use reactor_web_server.Http.Write.{Errno, eintr, Outcome, Io, write}
use reactor_web_server.Http.Write.Correct.{response}
use reactor_web_server.Http.Requests.{Request, IsRequest, request_text, Parsed}
use reactor_web_server.Http.Requests.Head.{host_after, linger_after, no_host_named, concluded}
use reactor_web_server.Http.Requests.FirstLine.{version_text}
use reactor_web_server.Http.Pipeline.Steps.{Holds, requested, first-Understood, same_answer}
use reactor_web_server.Http.Service.Lookup.{
  Found, welcome, missing, refused, malformed, stored, find, filled, do_request-filled, IsFaithful,
  Fits, find-Fits,
}
use reactor_web_server.Http.Service.Delivered.{Sending, Sending-whole, sent_at_once}
use reactor_web_server.Http.Write.Taking.{IsTaken}
use reactor_web_server.Http.Service.Reply.{page, Sends, run_business_answers}
use reactor_web_server.Http.Service.Promise.{reply_for, found_for, reply}
use reactor_web_server.Http.Service.Prepared.{
  Replies, full_url, version_is, found_by, concluded-filled, found_by-Fits, found-Replies,
}

module _ (fs : Files) (root : Bytes) where
  -- The reply is ready on the connection that the request left.
  abbrev pub Answers : (Bytes → Bytes) → Request → Bool → HttpConn → Type 0
  Answers content q b d =
      Replies fs root (content (root ++ q.url))
        (reply_for (found_for fs root b (host_after q.headers []) q.url) q.url
          (linger_after q.headers q.newer) (content (root ++ q.url)))
        (requested fs root d)

  -- On a connection between two requests that has read a GET request (no body; a URL without
  -- blanks; lines without NUL, CR and LF) and perhaps more bytes, with files whose sizes stat tells
  -- right and no file left from before: prepare_io_read returns 1, the worker returns 1 on what it
  -- leaves, and the response is then the reply that the request specifies (the server's page, a
  -- file, 400 without a host under HTTP/1.1, 403 or 404), to be sent from its first byte on.
  pub request_replied :
      (content : Bytes → Bytes) (q : Request) (more : Bytes) (c : HttpConn)
      → IsFaithful fs content
      → IsRequest q
      → Holds c (request_text q ++ more)
      → c.use_sendfile ≡ false
      → (d : HttpConn) × (prepare_io_read fs root c ≡ some (1, d))
        × Replies fs root (content (root ++ q.url)) (reply fs content root q) d
  request_replied content q more c h k holds u =
      let (d, p, e) = first-Understood fs root q more c k holds in
      let url = sym (ap (λ x. x.url) p.changed) in
      let found =
        found-Replies fs root (found_by fs root d) d (content (root ++ d.url))
          (found_by-Fits fs content root d h)
          (subst (λ v. is_empty v ≡ false) url (full_url q.url k.url_fits.full))
          (ap (λ x. x.use_sendfile) p.changed ∙ u) in
      (
        requested fs root d,
        e,
        subst (λ b. Answers content q b d) (version_is q.newer)
            (subst
              (λ x.
                Replies fs root (content (root ++ x.url))
                  (reply_for (found_by fs root x) x.url x.linger (content (root ++ x.url)))
                  (requested fs root d))
              p.changed
              (subst
                (Replies fs root (content (root ++ d.url))
                  (reply_for (found_by fs root d) d.url d.linger (content (root ++ d.url))))
                (sym (
                  ap (λ (r : HttpCode × HttpConn). record (r.1) { parsed_code = r.0 })
                    (concluded-filled fs root d)))
                found)),
      )

  -- The response that is ready is the one of the connection that prepare_io_read left.
  prepared-Sends :
      (content : Bytes → Bytes) (q : Request) (more : Bytes) (c d : HttpConn)
      → IsFaithful fs content
      → IsRequest q
      → Holds c (request_text q ++ more)
      → c.use_sendfile ≡ false
      → prepare_io_read fs root c ≡ some (1, d)
      → Sends
          (content (root ++ q.url))
          (reply fs content root q)
          (run_business_and_prepare_write fs root d).1
  prepared-Sends content q more c d h k holds u p =
      let (x, f, r) = request_replied content q more c h k holds u in
      subst
        (λ y.
          Sends (content (root ++ q.url)) (reply fs content root q)
            (run_business_and_prepare_write fs root y).1)
        (same_answer fs root c x d f p) r.1

  -- On a connection between two requests that has read a GET request (no body; a URL without
  -- blanks; lines without NUL, CR and LF) and perhaps more bytes, with files whose sizes stat tells
  -- right and no file left from before: when prepare_io_read returned 1, the worker prepared the
  -- response, and a call of write returns 1 after any number of calls that returned 2, what the
  -- client was sent is the reply that the request specifies, no byte more or less.
  pub reply_delivered :
      (content : Bytes → Bytes) (q : Request) (more : Bytes) (c d : HttpConn) (e : Errno)
      (io end : Io) (os : List Outcome)
      → IsFaithful fs content
      → IsRequest q
      → Holds c (request_text q ++ more)
      → c.use_sendfile ≡ false
      → prepare_io_read fs root c ≡ some (1, d)
      → Sending (content (root ++ q.url)) (run_business_and_prepare_write fs root d).1 e io
      → write (content (root ++ q.url)) os io ≡ some (1, end)
      → end.wire ≡ reply fs content root q
  reply_delivered content q more c d e io end os h k holds u p s w =
      Sending-whole (content (root ++ q.url)) (reply fs content root q)
        (run_business_and_prepare_write fs root d).1 e
        (prepared-Sends content q more c d h k holds u p) io end os s w

  -- On a connection between two requests that has read a GET request (no body; a URL without
  -- blanks; lines without NUL, CR and LF) and perhaps more bytes, with files whose sizes stat tells
  -- right and no file left from before, when prepare_io_read returned 1 and the worker prepared the
  -- response: if errno is not EINTR, and the socket takes at least one byte at each call, in as
  -- many calls as the reply has bytes, then write returns 1 and the client was sent the reply that
  -- the request specifies.
  pub reply_sent :
      (content : Bytes → Bytes) (q : Request) (more : Bytes) (c d : HttpConn) (e : Errno)
      (os : List Outcome)
      → IsFaithful fs content
      → IsRequest q
      → Holds c (request_text q ++ more)
      → c.use_sendfile ≡ false
      → prepare_io_read fs root c ≡ some (1, d)
      → e ≢ eintr
      → All IsTaken os
      → length (reply fs content root q) ≤ length os
      → (end : Io) × (write
            (content (root ++ q.url))
            os
            (record { conn = (run_business_and_prepare_write fs root d).1; errno = e; wire = [] })
          ≡ some (1, end))
        × (end.wire ≡ reply fs content root q)
  reply_sent content q more c d e os h k holds u p n t l =
      sent_at_once (content (root ++ q.url)) (reply fs content root q)
        (run_business_and_prepare_write fs root d).1 e
        (prepared-Sends content q more c d h k holds u p) os n t l
