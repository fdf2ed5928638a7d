-- ===== src/Http/Resource/Changes.antt =====
-- do_request of http_conn.cpp changes nothing of a connection but its file.
use reactor_web_server.Common.{
  ℕ, ◌≡◌, ◌≢◌, refl, arith, Option, none, some, Bool-cases, inl, inr, ℤ, pos, negsuc, ◌++◌,
}
use reactor_web_server.Common.Text.{Bytes, codes, equal, contains_pair}
use reactor_web_server.Http.{HttpConn, no_request}
use reactor_web_server.Http.Resource.{
  Files, FileStat, FileKind, directory, regular, other_kind, opened, open_resource, do_request,
}

-- There is always an answer.
pub do_request_answers :
    (fs : Files) (root : Bytes) (c : HttpConn) → (do_request fs root c).0 ≢ no_request
unfolding do_request
do_request_answers fs root c = λ e. ground arith

-- A connection but for its file.
abbrev pub with_file : HttpConn → HttpConn → HttpConn
with_file c d = record c {
  file_content = d.file_content;
  file_fd = d.file_fd;
  file_size = d.file_size;
  use_sendfile = d.use_sendfile;
}

opened_changes :
    (c : HttpConn) (size : ℕ) (fd : ℤ) → (opened c size fd).1 ≡ with_file c (opened c size fd).1
unfolding opened
opened_changes c size (pos n) = refl
opened_changes c size (negsuc n) = refl

open_resource_changes :
    (fs : Files) (c : HttpConn) (path : Bytes) (o : Option FileStat)
    → (open_resource fs c path o).1 ≡ with_file c (open_resource fs c path o).1
unfolding open_resource
open_resource_changes fs c path none = refl
open_resource_changes fs c path (some st) = by_kind st.kind st.size
  where
    by_kind :
        (k : FileKind) (n : ℕ)
        → (open_resource fs c path (some (record { kind = k; size = n }))).1
          ≡ with_file c (open_resource fs c path (some (record { kind = k; size = n }))).1
    by_kind directory n = refl
    by_kind other_kind n = refl
    by_kind regular n = opened_changes c n (fs.open_read path)

pub do_request_changes :
    (fs : Files) (root : Bytes) (c : HttpConn)
    → (do_request fs root c).1 ≡ with_file c (do_request fs root c).1
unfolding do_request
do_request_changes fs root c = elim (Bool-cases (equal c.url (codes "/"))) [
  | inl e ↦ rw e refl
  | inr e ↦ rw e (elim (Bool-cases (contains_pair b'.' b'.' c.url)) [
    | inl f ↦ rw f refl
    | inr f ↦ rw f (open_resource_changes fs c (root ++ c.url) (fs.stat (root ++ c.url)))
  ])
]
