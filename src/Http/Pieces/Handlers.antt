-- ===== src/Http/Pieces/Handlers.antt =====
-- The handlers of http_conn.cpp's parser with more bytes read than those of the line.
use reactor_web_server.Common.{
  ℕ, ◌+◌, ◌≤◌, ◌<◌, ◌≡◌, refl, ap, ◌∙◌, length, length-set, drop, get_or, arith, ◌++◌, Bool-cases,
  Option-cases, Option, none, some, inl, inr, if◌then◌else◌, pos, negsuc, ℤ,
}
use reactor_web_server.Common.Text.{
  Bytes, codes, c_str, split_at, strcaseeq, strncaseeq, equal, first, contains_pair,
}
use reactor_web_server.Http.{HttpConn, HttpCode, get, bad_request}
use reactor_web_server.Http.RequestLine.{
  is_blank, put_nul, take_version, take_url, take_method, parse_request_line,
}
use reactor_web_server.Http.Header.{
  is_empty, set_content_length, end_of_headers, header_line, parse_headers,
}
use reactor_web_server.Http.Resource.{
  Files, FileStat, FileKind, directory, regular, other_kind, opened, open_resource, do_request,
}
use reactor_web_server.Http.Read.{store}
use reactor_web_server.Http.Pieces.Buffer.{
  put_nul-store, c_str-take_append, length-c_str, length-split_at,
}

-- A result with more bytes in its connection.
abbrev pub with_more : Bytes → HttpCode × HttpConn → HttpCode × HttpConn
with_more bs (code, d) = (code, store d bs)

-- A line that starts at the offset and ends inside the read bytes.
pub record LineAt (c : HttpConn) (text : ℕ) : Type 0 where
  pub end : ℕ
  pub from : text ≤ end
  pub inside : end < c.read_idx
  pub in_buffer : c.read_idx ≤ length c.read_buf
  pub ended : get_or c.read_buf end 0 ≡ 0

module _ (bs : Bytes) where
  take_version-store :
      (c : HttpConn) (u p : Bytes)
      → take_version (store c bs) u p ≡ with_more bs (take_version c u p)
  unfolding take_version store
  take_version-store c u p = ground arith

  after_url : Bytes → Bytes → HttpConn → HttpCode × HttpConn
  after_url u p d = if is_blank (first p) then (bad_request, d) else take_version d u p

  after_url-store :
      (u p : Bytes) (d : HttpConn) → after_url u p (store d bs) ≡ with_more bs (after_url u p d)
  unfolding after_url
  after_url-store u p d = elim (Bool-cases (is_blank (first p))) [
    | inl e ↦ rw e refl
    | inr e ↦ rw e (take_version-store d u p)
  ]

  take_url-store :
      (c : HttpConn) (url : ℕ) (o : Option (Bytes × Bytes))
      → c.read_idx ≤ length c.read_buf
      → ((u p : Bytes) → o ≡ some (u, p) → url + length u < c.read_idx)
      → take_url (store c bs) url o ≡ with_more bs (take_url c url o)
  unfolding take_url after_url
  take_url-store c url none h k = refl
  take_url-store c url (some (u, p)) h k =
      ap (after_url u p) (put_nul-store c bs (url + length u) (k u p refl) h)
      ∙ after_url-store u p (put_nul c (url + length u))

  after_method : Bytes → Bytes → ℕ → HttpConn → HttpCode × HttpConn
  after_method m p url d =
      if is_blank (first p)
      then (bad_request, d)
      else if strcaseeq m (codes "GET")
      then take_url (record d { method = get }) url (split_at b' ' p)
      else (bad_request, d)

  after_method-store :
      (m p : Bytes) (url : ℕ) (d : HttpConn)
      → d.read_idx ≤ length d.read_buf
      → url + length p < d.read_idx
      → after_method m p url (store d bs) ≡ with_more bs (after_method m p url d)
  unfolding after_method store
  after_method-store m p url d h k = elim (Bool-cases (is_blank (first p))) [
    | inl e ↦ rw e refl
    | inr e ↦ rw e (elim (Bool-cases (strcaseeq m (codes "GET"))) [
      | inl f ↦ rw f (
          take_url-store (record d { method = get }) url (split_at b' ' p) h
            (λ u q g. omega (arith, length-split_at p b' ' u q g)))
      | inr f ↦ rw f refl
    ])
  ]

  take_method-store :
      (c : HttpConn) (text : ℕ) (o : Option (Bytes × Bytes))
      → c.read_idx ≤ length c.read_buf
      → ((m p : Bytes) → o ≡ some (m, p) → text + length m + 1 + length p < c.read_idx)
      → take_method (store c bs) text o ≡ with_more bs (take_method c text o)
  unfolding take_method after_method
  take_method-store c text none h k = refl
  take_method-store c text (some (m, p)) h k =
      ap (after_method m p (text + length m + 1))
        (put_nul-store c bs (text + length m) (omega (arith, k m p refl)) h)
      ∙ after_method-store m p (text + length m + 1) (put_nul c (text + length m))
          (omega (arith, length-set c.read_buf (text + length m) 0)) (k m p refl)

  same_text :
      (c : HttpConn) (text : ℕ)
      → LineAt c text
      → c_str (drop text (store c bs).read_buf) ≡ c_str (drop text c.read_buf)
  unfolding store
  same_text c text l =
      c_str-take_append c.read_idx c.read_buf _ text l.end l.from l.inside l.in_buffer l.ended

  pub parse_request_line-store :
      (c : HttpConn) (text : ℕ)
      → LineAt c text
      → parse_request_line (store c bs) text ≡ with_more bs (parse_request_line c text)
  unfolding parse_request_line
  parse_request_line-store c text l =
      ap (λ line. take_method (store c bs) text (split_at b' ' line)) (same_text c text l)
      ∙ take_method-store c text (split_at b' ' (c_str (drop text c.read_buf))) l.in_buffer
          (λ m p e. omega (
            arith,
            length-split_at (c_str (drop text c.read_buf)) b' ' m p e,
            length-c_str c.read_buf text l.end l.from l.ended,
            l.inside,
          ))

  set_content_length-store :
      (c : HttpConn) (o : Option ℕ)
      → set_content_length (store c bs) o ≡ with_more bs (set_content_length c o)
  unfolding set_content_length store
  set_content_length-store c none = refl
  set_content_length-store c (some v) = refl

  header_line-store :
      (c : HttpConn) (text : Bytes)
      → header_line (store c bs) text ≡ with_more bs (header_line c text)
  unfolding header_line store
  header_line-store c text = elim (Bool-cases (strncaseeq text (codes "Host:"))) [
    | inl e ↦ rw e refl
    | inr e ↦ rw e (elim (Bool-cases (strncaseeq text (codes "Connection:"))) [
      | inl f ↦ rw f refl
      | inr f ↦ rw f (elim (Bool-cases (strncaseeq text (codes "Content-Length:"))) [
        | inl g ↦ rw g (set_content_length-store c _)
        | inr g ↦ rw g (elim (Option-cases (split_at b':' text)) [
          | inl n ↦ rw n refl
          | inr (x, s) ↦ rw s refl
        ])
      ])
    ])
  ]

  end_of_headers-store :
      (c : HttpConn) → end_of_headers (store c bs) ≡ with_more bs (end_of_headers c)
  unfolding end_of_headers store
  end_of_headers-store c = ground arith

  pub parse_headers-store :
      (c : HttpConn) (text : ℕ)
      → LineAt c text
      → parse_headers (store c bs) text ≡ with_more bs (parse_headers c text)
  unfolding parse_headers
  parse_headers-store c text l =
      ap
        (λ line.
          if is_empty line then end_of_headers (store c bs) else header_line (store c bs) line)
        (same_text c text l)
      ∙ elim (Bool-cases (is_empty (c_str (drop text c.read_buf)))) [
        | inl e ↦ rw e (end_of_headers-store c)
        | inr e ↦ rw e (header_line-store c _)
      ]

  opened-store :
      (c : HttpConn) (size : ℕ) (fd : ℤ)
      → opened (store c bs) size fd ≡ with_more bs (opened c size fd)
  unfolding opened store
  opened-store c size (pos n) = refl
  opened-store c size (negsuc n) = refl

  open_resource-store :
      (fs : Files) (c : HttpConn) (path : Bytes) (o : Option FileStat)
      → open_resource fs (store c bs) path o ≡ with_more bs (open_resource fs c path o)
  unfolding open_resource
  open_resource-store fs c path none = refl
  open_resource-store fs c path (some st) = by_kind st.kind st.size
    where
      by_kind :
          (k : FileKind) (n : ℕ)
          → open_resource fs (store c bs) path (some (record { kind = k; size = n }))
            ≡ with_more bs (open_resource fs c path (some (record { kind = k; size = n })))
      by_kind directory n = refl
      by_kind other_kind n = refl
      by_kind regular n = opened-store c n (fs.open_read path)

  pub do_request-store :
      (fs : Files) (root : Bytes) (c : HttpConn)
      → do_request fs root (store c bs) ≡ with_more bs (do_request fs root c)
  unfolding do_request store
  do_request-store fs root c = elim (Bool-cases (equal c.url (codes "/"))) [
    | inl e ↦ rw e refl
    | inr e ↦ rw e (elim (Bool-cases (contains_pair b'.' b'.' c.url)) [
      | inl f ↦ rw f refl
      | inr f ↦ rw f (open_resource-store fs c (root ++ c.url) (fs.stat (root ++ c.url)))
    ])
  ]
