-- ===== src/Http/Resource.antt =====
-- http_conn.cpp, do_request: from a URL to a resource. The file system is a parameter.
pub mod Safety
pub mod Changes
use reactor_web_server.Common.{
  ℕ, Bool, true, false, Option, none, some, ◌++◌, if◌then◌else◌, ℤ, pos, negsuc,
}
use reactor_web_server.Common.Text.{Bytes, codes, equal, contains_pair}
use reactor_web_server.Http.{HttpConn, HttpCode, file_request, forbidden_request, no_resource}

pub data FileKind : Type 0 where
  directory regular other_kind : FileKind

-- What stat(2) tells of a file.
pub record FileStat : Type 0 where
  pub kind : FileKind
  pub size : ℕ

-- stat(2), `none` for a failure, and open(2) with O_RDONLY, negative for a failure.
pub record Files : Type 0 where
  pub stat : Bytes → Option FileStat
  pub open_read : Bytes → ℤ

abbrev pub welcome_page : Bytes
welcome_page =
    codes
      "<!DOCTYPE html><html><head><meta charset=\"utf-8\"><title>Reactor WebServer (Modern C++)</title></head><body><h1>Hello from Epoll ET Reactor WebServer!</h1><p>HTTP/1.1 Keep-Alive enabled.</p><p>Try: <a href=\"/index.html\">/index.html</a></p><p style=\"color:#666;font-size:0.9em\">Written in <b>modern C++11 style</b>: RAII, enum class, std::vector, std::string, std::unique_ptr.</p></body></html>"

-- The result of ::open.
unfoldable pub opened : HttpConn → ℕ → ℤ → HttpCode × HttpConn
opened c size (negsuc _) = (no_resource, c)
opened c size (pos fd) =
    (file_request, record c { file_fd = pos fd; file_size = size; use_sendfile = true })

-- The result of ::stat.
unfoldable pub open_resource : Files → HttpConn → Bytes → Option FileStat → HttpCode × HttpConn
unfolding opened
open_resource fs c path none = (no_resource, c)
open_resource fs c path (some st) = elim st.kind [
  | directory ↦ (no_resource, c)
  | other_kind ↦ (forbidden_request, c)
  | regular ↦ opened c st.size (fs.open_read path)
]

unfoldable pub do_request : Files → Bytes → HttpConn → HttpCode × HttpConn
unfolding open_resource
do_request fs root c =
    if equal c.url (codes "/")
    then (file_request, record c { file_content = welcome_page; use_sendfile = false })
    else if contains_pair b'.' b'.' c.url
    then (forbidden_request, c)
    else open_resource fs c (root ++ c.url) (fs.stat (root ++ c.url))
