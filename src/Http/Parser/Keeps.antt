-- ===== src/Http/Parser/Keeps.antt =====
-- What the handlers of http_conn.cpp's parser leave as it was: the indices of the read buffer.
use reactor_web_server.Common.{
  ℕ, ◌+◌, ◌<◌, ◌≡◌, refl, ◌∙◌, Bool, length, length-set, Bool-cases, Option-cases, inl, inr, arith,
  Option, none, some, leb, ◌++◌, drop, pos, negsuc, ℤ,
}
use reactor_web_server.Common.Text.{
  Bytes, codes, c_str, split_at, strcaseeq, strncaseeq, equal, first, contains_pair, strtol,
}
use reactor_web_server.Http.{HttpConn, HttpCode, get, read_buffer_size}
use reactor_web_server.Http.RequestLine.{
  is_blank, put_nul, take_version, take_url, take_method, parse_request_line,
}
use reactor_web_server.Http.Header.{
  is_empty, in_range, is_number, content_length_value, set_content_length, end_of_headers,
  header_line, parse_headers,
}
use reactor_web_server.Http.Resource.{
  Files, FileStat, FileKind, directory, regular, other_kind, opened, open_resource, do_request,
}
use reactor_web_server.Http.Parser.{parse_body}

pub record Keeps (c d : HttpConn) : Type 0 where
  pub sock_same : d.sockfd ≡ c.sockfd
  pub read_same : d.read_idx ≡ c.read_idx
  pub checked_same : d.checked_idx ≡ c.checked_idx
  pub start_same : d.start_line ≡ c.start_line
  pub size_same : length d.read_buf ≡ length c.read_buf
  pub bounded : c.content_length < read_buffer_size → d.content_length < read_buffer_size

abbrev pub KeepsAfter : HttpConn → HttpCode × HttpConn → Type 0
KeepsAfter c r = Keeps c r.1

Keeps-refl : (c : HttpConn) → Keeps c c
Keeps-refl c = record {
  sock_same = refl;
  read_same = refl;
  checked_same = refl;
  start_same = refl;
  size_same = refl;
  bounded = λ h. h;
}

Keeps-trans : (c d e : HttpConn) → Keeps c d → Keeps d e → Keeps c e
Keeps-trans c d e k l = record {
  sock_same = l.sock_same ∙ k.sock_same;
  read_same = l.read_same ∙ k.read_same;
  checked_same = l.checked_same ∙ k.checked_same;
  start_same = l.start_same ∙ k.start_same;
  size_same = l.size_same ∙ k.size_same;
  bounded = λ h. l.bounded (k.bounded h);
}

put_nul-Keeps : (c : HttpConn) (i : ℕ) → Keeps c (put_nul c i)
put_nul-Keeps c i = record {
  sock_same = refl;
  read_same = refl;
  checked_same = refl;
  start_same = refl;
  size_same = length-set c.read_buf i 0;
  bounded = λ h. h;
}

put_get-Keeps : (c : HttpConn) (i : ℕ) → Keeps c (record (put_nul c i) { method = get })
put_get-Keeps c i = record {
  sock_same = refl;
  read_same = refl;
  checked_same = refl;
  start_same = refl;
  size_same = length-set c.read_buf i 0;
  bounded = λ h. h;
}

take_version-Keeps : (c : HttpConn) (url p : Bytes) → KeepsAfter c (take_version c url p)
unfolding take_version
take_version-Keeps c url p = ground arith

take_url-Keeps :
    (c : HttpConn) (url : ℕ) (o : Option (Bytes × Bytes)) → KeepsAfter c (take_url c url o)
unfolding take_url
take_url-Keeps c url none = Keeps-refl c
take_url-Keeps c url (some (u, p)) =
    let k = put_nul-Keeps c (url + length u) in
    elim (Bool-cases (is_blank (first p))) [
      | inl e ↦ rw e k
      | inr e ↦ rw e (Keeps-trans c _ _ k (take_version-Keeps _ u p))
    ]

take_method-Keeps :
    (c : HttpConn) (text : ℕ) (o : Option (Bytes × Bytes)) → KeepsAfter c (take_method c text o)
unfolding take_method
take_method-Keeps c text none = Keeps-refl c
take_method-Keeps c text (some (m, p)) =
    let k = put_nul-Keeps c (text + length m) in
    elim (Bool-cases (is_blank (first p))) [
      | inl e ↦ rw e k
      | inr e ↦ rw e (elim (Bool-cases (strcaseeq m (codes "GET"))) [
        | inl f ↦ rw f (
            Keeps-trans c (record (put_nul c (text + length m)) { method = get }) _
              (put_get-Keeps c (text + length m))
              (take_url-Keeps _ (text + length m + 1) (split_at b' ' p)))
        | inr f ↦ rw f k
      ])
    ]

pub parse_request_line-Keeps : (c : HttpConn) (text : ℕ) → KeepsAfter c (parse_request_line c text)
unfolding parse_request_line
parse_request_line-Keeps c text =
    take_method-Keeps c text (split_at b' ' (c_str (drop text c.read_buf)))

in_range-lt : (r : ℤ × Bool) {v : ℕ} → in_range r ≡ some v → v < read_buffer_size
unfolding in_range
in_range-lt (negsuc n, e) h = ground arith
in_range-lt (pos n, e) h = ground arith

-- An accepted Content-Length is below the size of the buffer.
pub content_length_value-lt :
    (text : Bytes) {v : ℕ} → content_length_value text ≡ some v → v < read_buffer_size
unfolding content_length_value
content_length_value-lt text h = elim (Bool-cases (is_number text)) [
  | inl e ↦ in_range-lt (strtol text) (rw e at h)
  | inr e ↦ ground arith
]

set_content_length-Keeps :
    (c : HttpConn) (o : Option ℕ)
    → ((v : ℕ) → o ≡ some v → v < read_buffer_size)
    → KeepsAfter c (set_content_length c o)
unfolding set_content_length
set_content_length-Keeps c none h = Keeps-refl c
set_content_length-Keeps c (some v) h = record {
  sock_same = refl;
  read_same = refl;
  checked_same = refl;
  start_same = refl;
  size_same = refl;
  bounded = λ _. h v refl;
}

header_line-Keeps : (c : HttpConn) (text : Bytes) → KeepsAfter c (header_line c text)
unfolding header_line
header_line-Keeps c text = elim (Bool-cases (strncaseeq text (codes "Host:"))) [
  | inl e ↦ rw e (ground arith)
  | inr e ↦ rw e (elim (Bool-cases (strncaseeq text (codes "Connection:"))) [
    | inl f ↦ rw f (ground arith)
    | inr f ↦ rw f (elim (Bool-cases (strncaseeq text (codes "Content-Length:"))) [
      | inl g ↦ rw g (set_content_length-Keeps c _ (λ v. content_length_value-lt _))
      | inr g ↦ rw g (elim (Option-cases (split_at b':' text)) [
        | inl n ↦ rw n (Keeps-refl c)
        | inr (x, s) ↦ rw s (Keeps-refl c)
      ])
    ])
  ])
]

end_of_headers-Keeps : (c : HttpConn) → KeepsAfter c (end_of_headers c)
unfolding end_of_headers
end_of_headers-Keeps c = ground arith

pub parse_headers-Keeps : (c : HttpConn) (text : ℕ) → KeepsAfter c (parse_headers c text)
unfolding parse_headers
parse_headers-Keeps c text = elim (Bool-cases (is_empty (c_str (drop text c.read_buf)))) [
  | inl e ↦ rw e (end_of_headers-Keeps c)
  | inr e ↦ rw e (header_line-Keeps c _)
]

pub parse_body-Keeps : (c : HttpConn) (text : ℕ) → KeepsAfter c (parse_body c text)
unfolding parse_body
parse_body-Keeps c text = elim (Bool-cases (leb read_buffer_size c.content_length)) [
  | inl e ↦ rw e (Keeps-refl c)
  | inr e ↦ rw e (elim (Bool-cases (leb (c.content_length + c.checked_idx) c.read_idx)) [
    | inl f ↦ rw f (put_nul-Keeps c (text + c.content_length))
    | inr f ↦ rw f (Keeps-refl c)
  ])
]

opened-Keeps : (c : HttpConn) (size : ℕ) (fd : ℤ) → KeepsAfter c (opened c size fd)
unfolding opened
opened-Keeps c size (pos n) = ground arith
opened-Keeps c size (negsuc n) = Keeps-refl c

open_resource-Keeps :
    (fs : Files) (c : HttpConn) (path : Bytes) (o : Option FileStat)
    → KeepsAfter c (open_resource fs c path o)
unfolding open_resource
open_resource-Keeps fs c path none = Keeps-refl c
open_resource-Keeps fs c path (some st) = by_kind st.kind st.size
  where
    by_kind :
        (k : FileKind) (n : ℕ)
        → KeepsAfter c (open_resource fs c path (some (record { kind = k; size = n })))
    by_kind directory n = Keeps-refl c
    by_kind other_kind n = Keeps-refl c
    by_kind regular n = opened-Keeps c n (fs.open_read path)

pub do_request-Keeps :
    (fs : Files) (root : Bytes) (c : HttpConn) → KeepsAfter c (do_request fs root c)
unfolding do_request
do_request-Keeps fs root c = elim (Bool-cases (equal c.url (codes "/"))) [
  | inl e ↦ rw e (ground arith)
  | inr e ↦ rw e (elim (Bool-cases (contains_pair b'.' b'.' c.url)) [
    | inl f ↦ rw f (Keeps-refl c)
    | inr f ↦ rw f (open_resource-Keeps fs c (root ++ c.url) (fs.stat (root ++ c.url)))
  ])
]
