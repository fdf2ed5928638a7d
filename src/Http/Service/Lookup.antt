-- ===== src/Http/Service/Lookup.antt =====
-- Which resource a URL names, for do_request of http_conn.cpp.
use reactor_web_server.Common.{
  true, false, ℕ, ◌≡◌, ◌≢◌, refl, Option, none, some, Bool-cases, inl, inr, ℤ, pos, negsuc, ◌++◌,
  if◌then◌else◌, arith, length,
}
use reactor_web_server.Common.Text.{Bytes, codes, equal, contains_pair}
use reactor_web_server.Http.{
  HttpConn, HttpCode, file_request, bad_request, no_resource, forbidden_request,
}
use reactor_web_server.Http.Resource.{
  Files, FileStat, FileKind, directory, regular, other_kind, welcome_page, opened, open_resource,
  do_request,
}

-- The page of the server itself, a file with its size and descriptor, or none of these; and a
-- request that names no host although it has to.
pub data Found : Type 0 where
  welcome missing refused malformed : Found
  stored : ℕ → ℕ → Found

abbrev pub open_file_of : ℕ → ℤ → Found
open_file_of size (pos fd) = stored size fd
open_file_of size (negsuc _) = missing

abbrev pub of_kind : FileKind → ℕ → ℤ → Found
of_kind regular size fd = open_file_of size fd
of_kind directory size fd = missing
of_kind other_kind size fd = refused

abbrev pub of_stat : Option FileStat → ℤ → Found
of_stat none fd = missing
of_stat (some st) fd = of_kind st.kind st.size fd

-- The resource of a URL: a path may not climb, and only a regular file is served.
abbrev pub find : Files → Bytes → Bytes → Found
find fs root url =
    if equal url (codes "/")
    then welcome
    else if contains_pair b'.' b'.' url
    then refused
    else of_stat (fs.stat (root ++ url)) (fs.open_read (root ++ url))

-- What a resource makes of a connection.
abbrev pub filled : Found → HttpConn → HttpCode × HttpConn
filled welcome c = (file_request, record c { file_content = welcome_page; use_sendfile = false })
filled missing c = (no_resource, c)
filled refused c = (forbidden_request, c)
filled malformed c = (bad_request, c)
filled (stored size fd) c =
    (file_request, record c { file_fd = pos fd; file_size = size; use_sendfile = true })

opened-filled :
    (c : HttpConn) (size : ℕ) (fd : ℤ) → opened c size fd ≡ filled (open_file_of size fd) c
unfolding opened
opened-filled c size (pos n) = refl
opened-filled c size (negsuc n) = refl

open_resource-filled :
    (fs : Files) (c : HttpConn) (path : Bytes) (o : Option FileStat)
    → open_resource fs c path o ≡ filled (of_stat o (fs.open_read path)) c
unfolding open_resource
open_resource-filled fs c path none = refl
open_resource-filled fs c path (some st) = by_kind st.kind st.size
  where
    by_kind :
        (k : FileKind) (n : ℕ)
        → open_resource fs c path (some (record { kind = k; size = n }))
          ≡ filled (of_kind k n (fs.open_read path)) c
    by_kind directory n = refl
    by_kind other_kind n = refl
    by_kind regular n = opened-filled c n (fs.open_read path)

pub do_request-filled :
    (fs : Files) (root : Bytes) (c : HttpConn)
    → do_request fs root c ≡ filled (find fs root c.url) c
unfolding do_request
do_request-filled fs root c = elim (Bool-cases (equal c.url (codes "/"))) [
  | inl e ↦ rw e refl
  | inr e ↦ rw e (elim (Bool-cases (contains_pair b'.' b'.' c.url)) [
    | inl f ↦ rw f refl
    | inr f ↦ rw f (open_resource-filled fs c (root ++ c.url) (fs.stat (root ++ c.url)))
  ])
]

-- What stat tells of a regular file is the length of its content.
abbrev pub IsFaithful : Files → (Bytes → Bytes) → Type 0
IsFaithful fs content =
    (path : Bytes) (size : ℕ)
    → fs.stat path ≡ some (record { kind = regular; size = size })
    → size ≡ length (content path)

of_kind_stored :
    (k : FileKind) (n : ℕ) (z : ℤ) (size fd : ℕ)
    → of_kind k n z ≡ stored size fd
    → (k ≡ regular) × (n ≡ size)
of_kind_stored regular n (pos m) size fd e = ground arith
of_kind_stored regular n (negsuc m) size fd e = cc
of_kind_stored directory n z size fd e = cc
of_kind_stored other_kind n z size fd e = cc

of_stat_stored :
    (o : Option FileStat) (z : ℤ) (size fd : ℕ)
    → of_stat o z ≡ stored size fd
    → o ≡ some (record { kind = regular; size = size })
of_stat_stored none z size fd e = cc
of_stat_stored (some st) z size fd e =
    let k = of_kind_stored st.kind st.size z size fd e in
    λ i. some (record { kind = k.0 i; size = k.1 i })

of_kind_no_welcome : (k : FileKind) (n : ℕ) (z : ℤ) → of_kind k n z ≢ welcome
of_kind_no_welcome regular n (pos m) = λ e. cc
of_kind_no_welcome regular n (negsuc m) = λ e. cc
of_kind_no_welcome directory n z = λ e. cc
of_kind_no_welcome other_kind n z = λ e. cc

of_stat_no_welcome : (o : Option FileStat) (z : ℤ) → of_stat o z ≢ welcome
of_stat_no_welcome none z = λ e. cc
of_stat_no_welcome (some st) z = of_kind_no_welcome st.kind st.size z

-- What a resource tells of its URL and of the file behind it.
abbrev pub Fits : Found → Bytes → Bytes → Type 0
Fits welcome url file = equal url (codes "/") ≡ true
Fits (stored size fd) url file = (size ≡ length file) × (equal url (codes "/") ≡ false)
Fits _ url file = Unit

of_stat-Fits :
    (fs : Files) (content : Bytes → Bytes) (path url : Bytes) (f : Found)
    → IsFaithful fs content
    → equal url (codes "/") ≡ false
    → of_stat (fs.stat path) (fs.open_read path) ≡ f
    → Fits f url (content path)
of_stat-Fits fs content path url (stored size fd) h a e =
    (h path size (of_stat_stored (fs.stat path) (fs.open_read path) size fd e), a)
of_stat-Fits fs content path url missing h a e = tt
of_stat-Fits fs content path url refused h a e = tt
of_stat-Fits fs content path url malformed h a e = tt
of_stat-Fits fs content path url welcome h a e =
    absurd (of_stat_no_welcome (fs.stat path) (fs.open_read path) e)

pub find-Fits :
    (fs : Files) (content : Bytes → Bytes) (root url : Bytes)
    → IsFaithful fs content
    → Fits (find fs root url) url (content (root ++ url))
find-Fits fs content root url h = elim (Bool-cases (equal url (codes "/"))) [
  | inl a ↦ rw a a
  | inr a ↦ rw a (elim (Bool-cases (contains_pair b'.' b'.' url)) [
    | inl b ↦ rw b tt
    | inr b ↦ rw b (of_stat-Fits fs content (root ++ url) url _ h a refl)
  ])
]
