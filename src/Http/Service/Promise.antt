-- ===== src/Http/Service/Promise.antt =====
-- The reply that a GET request specifies, for http_conn.cpp.
use reactor_web_server.Common.{[], Bool, false, ◌&&◌, if◌then◌else◌, ◌++◌}
use reactor_web_server.Common.Text.{Bytes, codes}
use reactor_web_server.Http.Header.{is_empty}
use reactor_web_server.Http.Resource.{Files, welcome_page}
use reactor_web_server.Http.Response.{get_content_type}
use reactor_web_server.Http.Requests.{Request}
use reactor_web_server.Http.Requests.Head.{host_after, linger_after}
use reactor_web_server.Http.Service.Lookup.{
  Found, welcome, missing, refused, malformed, stored, find,
}
use reactor_web_server.Http.Service.Reply.{page}

-- The reply for a resource, by its URL, the choice of keep-alive and the content of its file.
abbrev pub reply_for : Found → Bytes → Bool → Bytes → Bytes
reply_for welcome url linger file = page 200 (codes "OK") (codes "text/html") linger welcome_page
reply_for (stored size fd) url linger file =
    page 200 (codes "OK") (get_content_type url) linger file
reply_for missing url linger file =
    page 404 (codes "Not Found") (codes "text/html") linger
      (codes "<html><body><h1>404 Not Found</h1></body></html>")
reply_for refused url linger file =
    page 403 (codes "Forbidden") (codes "text/html") false
      (codes "<html><body><h1>403 Forbidden</h1></body></html>")
reply_for malformed url linger file =
    page 400 (codes "Bad Request") (codes "text/html") false
      (codes "<html><body><h1>400 Bad Request</h1></body></html>")

-- The resource of a request.
abbrev pub found_for : Files → Bytes → Bool → Bytes → Bytes → Found
found_for fs root newer host url = if newer && is_empty host then malformed else find fs root url

-- The reply to a request.
abbrev pub reply : Files → (Bytes → Bytes) → Bytes → Request → Bytes
reply fs content root q =
    reply_for (found_for fs root q.newer (host_after q.headers []) q.url) q.url
      (linger_after q.headers q.newer) (content (root ++ q.url))
