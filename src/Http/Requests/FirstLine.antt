-- ===== src/Http/Requests/FirstLine.antt =====
-- The first line of a GET request, and parse_request_line of http_conn.cpp on it.
use reactor_web_server.Common.{
  ℕ, ◌+◌, ◌<◌, ◌≡◌, ◌≢◌, refl, ap, ◌∙◌, length, length-append, length-set, set, drop, [], ◌∷◌, ◌++◌,
  All, arith, Bool, true, false, some,
}
use reactor_web_server.Common.Text.{Bytes, codes, c_str, split_at, strcaseeq, strncaseeq, first}
use reactor_web_server.Http.{HttpConn, no_request, get, header}
use reactor_web_server.Http.RequestLine.{
  is_blank, take_version, take_url, take_method, parse_request_line,
}
use reactor_web_server.Http.Requests.Texts.{IsPlain, split_at-append, set-append_front}
use reactor_web_server.Http.Requests.Lines.{Unread}
use reactor_web_server.Http.Requests.Headers.{IsPlain-append}

-- HTTP/1.1 or HTTP/1.0
abbrev pub version_text : Bool → Bytes
version_text true = codes "HTTP/1.1"
version_text false = codes "HTTP/1.0"

abbrev pub first_line : Bytes → Bool → Bytes
first_line url newer = codes "GET" ++ b' ' ∷ (url ++ b' ' ∷ version_text newer)

-- A URL that can stand in a request line.
pub record IsUrl (url : Bytes) : Type 0 where
  pub plain : All IsPlain url
  pub no_space : All (λ b. b ≢ b' ') url
  pub begins : is_blank (first url) ≡ false
  pub full : 0 < length url

version-IsPlain : (newer : Bool) → All IsPlain (b' ' ∷ version_text newer)
version-IsPlain true = ground arith
version-IsPlain false = ground arith

get-IsPlain : All IsPlain (codes "GET ")
get-IsPlain = ground arith

pub first_line-IsPlain :
    (url : Bytes) (newer : Bool) → IsUrl url → All IsPlain (first_line url newer)
first_line-IsPlain url newer h =
    IsPlain-append (codes "GET ") (url ++ b' ' ∷ version_text newer) get-IsPlain
      (IsPlain-append url (b' ' ∷ version_text newer) h.plain (version-IsPlain newer))

length-version_text : (newer : Bool) → length (version_text newer) ≡ 8
length-version_text true = refl
length-version_text false = refl

pub length-first_line :
    (url : Bytes) (newer : Bool) → length (first_line url newer) ≡ length url + 13
length-first_line url newer =
    omega (arith, length-append url (b' ' ∷ version_text newer), length-version_text newer)

-- The connection after its request line: the two blanks overwritten, and what the line says.
abbrev pub greeted : HttpConn → ℕ → Bytes → Bool → HttpConn
greeted c text url newer = record c {
  read_buf = set (set c.read_buf (text + 3) 0) (text + 3 + 1 + length url) 0;
  method = get;
  url = url;
  version = version_text newer;
  linger = newer;
  check_state = header;
}

take_version_text :
    (c : HttpConn) (url : Bytes) (newer : Bool)
    → take_version c url (version_text newer) ≡ (
      no_request,
      record c { url = url; version = version_text newer; linger = newer; check_state = header },
    )
unfolding take_version strncaseeq
take_version_text c url true = refl
take_version_text c url false = refl

version-begins : (newer : Bool) → is_blank (first (version_text newer)) ≡ false
version-begins true = refl
version-begins false = refl

get_split : (rest : Bytes) → split_at b' ' (codes "GET" ++ b' ' ∷ rest) ≡ some (codes "GET", rest)
unfolding split_at
get_split rest = refl

first-append : (url rest : Bytes) → 0 < length url → first (url ++ rest) ≡ first url
first-append [] rest h = absurd (omega arith)
first-append (x ∷ url) rest h = refl

take_method-url :
    (c : HttpConn) (text : ℕ) (url : Bytes) (newer : Bool)
    → IsUrl url
    → take_method c text (some (codes "GET", url ++ b' ' ∷ version_text newer))
      ≡ (no_request, greeted c text url newer)
unfolding take_method take_url strcaseeq
take_method-url c text url newer h =
    rw
      (
        first-append url (b' ' ∷ version_text newer) h.full,
        h.begins,
        split_at-append b' ' url (version_text newer) h.no_space,
        version-begins newer,
      )
      (take_version_text (record c { read_buf = (greeted c text url newer).read_buf; method = get })
        url newer)

pub parse_request_line_get :
    (c : HttpConn) (text : ℕ) (url : Bytes) (newer : Bool)
    → IsUrl url
    → c_str (drop text c.read_buf) ≡ first_line url newer
    → parse_request_line c text ≡ (no_request, greeted c text url newer)
unfolding parse_request_line
parse_request_line_get c text url newer h e =
    ap (λ line. take_method c text (split_at b' ' line)) e
    ∙ ap (take_method c text) (get_split (url ++ b' ' ∷ version_text newer))
    ∙ take_method-url c text url newer h

-- Both blanks are before the next line.
pub greeted-Unread :
    (c : HttpConn) (text : ℕ) (url : Bytes) (newer : Bool) (rest : Bytes)
    → Unread c rest
    → text + length url + 4 < c.checked_idx
    → Unread (greeted c text url newer) rest
greeted-Unread c text url newer rest u h =
    let i = text + 3 in
    let j = text + 3 + 1 + length url in
    record {
      before = set (set u.before i 0) j 0;
      buffer =
          ap (λ xs. set (set xs i 0) j 0) u.buffer
          ∙ ap (λ xs. set xs j 0) (set-append_front u.before rest i 0 (omega (arith, u.checked_at)))
          ∙ set-append_front (set u.before i 0) rest j 0
              (omega (arith, u.checked_at, length-set u.before i 0));
      checked_at = length-set (set u.before i 0) j 0 ∙ length-set u.before i 0 ∙ u.checked_at;
      start_at = u.start_at;
    }
