-- ===== src/Http/Resource/Safety.antt =====
-- Which files do_request of http_conn.cpp opens.
use reactor_web_server.Common.{
  ℕ, ◌≡◌, ◌≢◌, ap, true, false, Bool-cases, inl, inr, arith, [], ◌∷◌, ◌++◌, Option, some, pos,
}
use reactor_web_server.Common.Text.{Bytes, codes, equal, contains_pair}
use reactor_web_server.Http.{HttpConn, HttpCode, file_request, forbidden_request}
use reactor_web_server.Http.Resource.{
  Files, FileStat, regular, welcome_page, opened, open_resource, do_request,
}

contains_pair-append : (a b : ℕ) (xs ys : Bytes) → contains_pair a b (xs ++ a ∷ b ∷ ys) ≡ true
unfolding contains_pair
contains_pair-append a b [] ys = ground arith
contains_pair-append a b (x ∷ []) ys = ground arith
contains_pair-append a b (x ∷ y ∷ xs) ys = ground (arith, contains_pair-append a b (y ∷ xs) ys)

-- The file of a request and the connection that serves it.
pub record Served (fs : Files) (root : Bytes) (c d : HttpConn) : Type 0 where
  pub no_dots : (a b : Bytes) → c.url ≢ a ++ b'.' ∷ b'.' ∷ b
  pub is_regular : fs.stat (root ++ c.url) ≡ some (record { kind = regular; size = d.file_size })
  pub is_opened : fs.open_read (root ++ c.url) ≡ d.file_fd

open_resource-Served :
    (fs : Files) (c d : HttpConn) (path : Bytes) (o : Option FileStat)
    → c.use_sendfile ≡ false
    → open_resource fs c path o ≡ (file_request, d)
    → (o ≡ some (record { kind = regular; size = d.file_size })) × (fs.open_read path ≡ d.file_fd)
unfolding open_resource opened
open_resource-Served fs c d path o u h = ground arith

-- A file that do_request opens has a URL with no ".." in it, is a regular file at the root followed
-- by the URL, and its size is the one that will be announced.
pub do_request-Served :
    (fs : Files) (root : Bytes) (c d : HttpConn)
    → c.use_sendfile ≡ false
    → do_request fs root c ≡ (file_request, d)
    → d.use_sendfile ≡ true
    → Served fs root c d
unfolding do_request
do_request-Served fs root c d u h s = elim (Bool-cases (equal c.url (codes "/"))) [
  | inl e ↦ absurd (not_inline (rw e at h))
  | inr e ↦ elim (Bool-cases (contains_pair b'.' b'.' c.url)) [
    | inl f ↦ absurd (refuses (rw (e, f) at h))
    | inr f ↦
        let r =
          open_resource-Served fs c d (root ++ c.url) (fs.stat (root ++ c.url)) u
            (rw (e, f) at h) in
        record {
          no_dots =
              λ a b q. cc (f, ap (contains_pair b'.' b'.') q, contains_pair-append b'.' b'.' a b);
          is_regular = r.0;
          is_opened = r.1;
        }
  ]
]
  where
    not_inline :
        ◌≡◌ {A = HttpCode × HttpConn}
          (file_request, record c { file_content = welcome_page; use_sendfile = false })
          (file_request, d)
        → ⊥
    not_inline q = cc (ap (λ (r : HttpCode × HttpConn). r.1.use_sendfile) q, s)

    refuses : ◌≡◌ {A = HttpCode × HttpConn} (forbidden_request, c) (file_request, d) → ⊥
    refuses q = cc (ap (λ (r : HttpCode × HttpConn). r.0) q)

-- A URL need not begin with "/": the file whose path is the root followed by the URL is served,
-- so also one beside the root directory, whose name continues the root's.
pub do_request_beside_root :
    (fs : Files) (root : Bytes) (c : HttpConn) (x fd size : ℕ) (xs : Bytes)
    → c.url ≡ x ∷ xs
    → x ≢ b'/'
    → contains_pair b'.' b'.' (x ∷ xs) ≡ false
    → fs.stat (root ++ x ∷ xs) ≡ some (record { kind = regular; size = size })
    → fs.open_read (root ++ x ∷ xs) ≡ pos fd
    → do_request fs root c
      ≡ (file_request, record c { file_fd = pos fd; file_size = size; use_sendfile = true })
unfolding do_request open_resource opened equal
do_request_beside_root fs root c x fd size xs u n d st op = rw (u, d, st, op) (ground arith)
