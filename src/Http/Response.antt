-- ===== src/Http/Response.antt =====
-- http_conn.cpp, get_content_type, process_write and run_business_and_prepare_write.
pub mod Numbers
pub mod Head
pub mod Assembled
pub mod Announce
use reactor_web_server.Common.{
  ℕ, zero, suc, ◌+◌, ◌-◌, ◌/◌, ◌%◌, Bool, true, false, ◌||◌, ◌&&◌, not, Option, none, some, List,
  [], ◌∷◌, ◌++◌, ltb, if◌then◌else◌, length, take,
}
use reactor_web_server.Common.Text.{Bytes, codes, equal, strcaseeq, strrchr}
use reactor_web_server.Http.{
  HttpConn, HttpCode, no_request, get_request, bad_request, no_resource, forbidden_request,
  file_request, internal_error,
}
use reactor_web_server.Http.Header.{is_empty}
use reactor_web_server.Http.Resource.{Files, do_request}

unfoldable pub type_of_suffix : Bytes → Bytes
type_of_suffix dot =
    if strcaseeq dot (codes ".html") || strcaseeq dot (codes ".htm")
    then codes "text/html"
    else if strcaseeq dot (codes ".css")
    then codes "text/css"
    else if strcaseeq dot (codes ".js")
    then codes "application/javascript"
    else if strcaseeq dot (codes ".png")
    then codes "image/png"
    else if strcaseeq dot (codes ".jpg") || strcaseeq dot (codes ".jpeg")
    then codes "image/jpeg"
    else if strcaseeq dot (codes ".gif")
    then codes "image/gif"
    else if strcaseeq dot (codes ".txt")
    then codes "text/plain"
    else codes "application/octet-stream"

unfoldable pub get_content_type : Bytes → Bytes
unfolding type_of_suffix
get_content_type url = elim (strrchr b'.' url) [
  | none ↦ codes "text/plain"
  | some dot ↦ type_of_suffix dot
]

-- printf's %d and %zu, on fuel: a 64-bit number has at most 20 digits.
unfoldable pub decimal_onto : ℕ → ℕ → Bytes → Bytes
decimal_onto zero n acc = acc
decimal_onto (suc f) n acc =
    let more = decimal_onto f (n / 10) ((b'0' + n % 10) ∷ acc) in
    if ltb n 10 then (b'0' + n % 10) ∷ acc else more

unfoldable pub decimal : ℕ → Bytes
unfolding decimal_onto
decimal n = decimal_onto 20 n []

-- What the switch of process_write sets for a code.
pub record Answer : Type 0 where
  pub status : ℕ
  pub title : Bytes
  pub error_body : Bytes
  pub serve_file : Bool
  pub close : Bool

unfoldable pub answer : HttpCode → Option Answer
answer file_request =
    some (record {
      status = 200;
      title = codes "OK";
      error_body = [];
      serve_file = true;
      close = false;
    })
answer bad_request = some (record {
  status = 400;
  title = codes "Bad Request";
  error_body = codes "<html><body><h1>400 Bad Request</h1></body></html>";
  serve_file = false;
  close = true;
})
answer forbidden_request = some (record {
  status = 403;
  title = codes "Forbidden";
  error_body = codes "<html><body><h1>403 Forbidden</h1></body></html>";
  serve_file = false;
  close = true;
})
answer no_resource = some (record {
  status = 404;
  title = codes "Not Found";
  error_body = codes "<html><body><h1>404 Not Found</h1></body></html>";
  serve_file = false;
  close = false;
})
answer internal_error = some (record {
  status = 500;
  title = codes "Internal Server Error";
  error_body = codes "<html><body><h1>500 Internal Server Error</h1></body></html>";
  serve_file = false;
  close = true;
})
answer no_request = none
answer get_request = none

unfoldable pub head_text : ℕ → Bytes → ℕ → Bytes → Bool → Bytes
unfolding decimal
head_text status title body_len ctype linger =
    codes "HTTP/1.1 "
    ++ (decimal status
        ++ (codes " "
            ++ (title
                ++ (codes "\r\nServer: EpollETReactor/1.0 (Modern C++)\r\nContent-Length: "
                    ++ (decimal body_len
                        ++ (codes "\r\nContent-Type: "
                            ++ (ctype
                                ++ (codes "\r\nConnection: "
                                    ++ ((if linger then codes "keep-alive" else codes "close")
                                        ++ codes "\r\n\r\n")))))))))

abbrev pub head_size : ℕ
head_size = 512

-- snprintf(head, sizeof(head), …) writes what fits beside the final NUL, and returns the length of
-- the whole text; `assign(head, n)` then takes that many bytes of the array.
unfoldable pub snprintf : ℕ → Bytes → Bytes × ℕ
snprintf size text = (take (size - 1) text ++ 0 ∷ [], length text)

unfoldable pub content_type_of : Bool → Bytes → Bytes
unfolding get_content_type
content_type_of serve_file url =
    if serve_file && (not (is_empty url) && not (equal url (codes "/")))
    then get_content_type url
    else codes "text/html"

unfoldable pub body_length : Answer → HttpConn → ℕ
body_length a c =
    if a.serve_file
    then (if c.use_sendfile then c.file_size else length c.file_content)
    else length c.response_body

-- From the choice of the content type on, over the state that the switch left.
unfoldable pub assemble : Answer → HttpConn → HttpConn
unfolding body_length
assemble a c =
    let text =
      head_text a.status a.title (body_length a c) (content_type_of a.serve_file c.url) c.linger in
    let (head, n) = snprintf head_size text in
    let d = record c { response_head = take n head } in
    if a.serve_file && not c.use_sendfile
    then record d { response_body = c.file_content; file_content = [] }
    else d

unfoldable pub begin_response : HttpConn → HttpConn
begin_response c = record c { response_head = []; response_body = []; write_offset = 0 }

unfoldable pub apply_answer : HttpConn → Option Answer → Bool × HttpConn
unfolding assemble
apply_answer c none = (false, c)
apply_answer c (some a) = (
  true,
  assemble a
      (record c { response_body = a.error_body; linger = if a.close then false else c.linger }),
)

unfoldable pub process_write : HttpConn → HttpCode → Bool × HttpConn
unfolding begin_response apply_answer
process_write c ret = apply_answer (begin_response c) (answer ret)

-- The code that the worker answers, after the request for a resource if there still is one.
unfoldable pub business_code : Files → Bytes → HttpConn → HttpCode → HttpCode × HttpConn
business_code fs root c get_request = do_request fs root c
business_code fs root c code = (code, c)

unfoldable pub finish_business : Bool × HttpConn → ℕ × HttpConn
finish_business (ok, c) = (if ok then 1 else 2, c)

unfoldable pub run_business_and_prepare_write : Files → Bytes → HttpConn → ℕ × HttpConn
unfolding business_code process_write finish_business
run_business_and_prepare_write fs root c =
    let (code, d) = business_code fs root c c.parsed_code in finish_business (process_write d code)
