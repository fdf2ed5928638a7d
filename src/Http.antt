-- ===== src/Http.antt =====
-- http_conn.h: the state of one HTTP connection, with its construction, init and close.
-- The logging macros are left out; they do not change the connection.
pub mod Line
pub mod RequestLine
pub mod Header
pub mod Resource
pub mod Parser
pub mod Response
pub mod Write
pub mod Read
pub mod Reset
pub mod Steady
pub mod Pieces
pub mod Requests
pub mod Pipeline
pub mod Service
use reactor_web_server.Common.{
  ℕ, Bool, true, false, List, [], ◌∷◌, ◌++◌, ◌-◌, ℤ, minus_one, eq_ℤ, ltb, not, if◌then◌else◌,
  length, replicate,
}
use reactor_web_server.Common.Text.{Bytes}

pub data Method : Type 0 where
  get : Method

pub data CheckState : Type 0 where
  request_line header body : CheckState

pub data HttpCode : Type 0 where
  no_request get_request bad_request no_resource : HttpCode
  forbidden_request file_request internal_error : HttpCode

pub data LineStatus : Type 0 where
  line_ok line_bad line_open : LineStatus

-- struct sockaddr_in, as far as it is read.
pub record Address : Type 0 where
  pub sin_addr : ℕ
  pub sin_port : ℕ

abbrev pub read_buffer_size : ℕ
read_buffer_size = 16384

abbrev pub no_address : Address
no_address = record { sin_addr = 0; sin_port = 0 }

pub record HttpConn : Type 0 where
  pub sockfd : ℤ
  pub address : Address
  pub read_buf : Bytes
  pub read_idx : ℕ
  pub checked_idx : ℕ
  pub start_line : ℕ
  pub check_state : CheckState
  pub method : Method
  pub url : Bytes
  pub version : Bytes
  pub host : Bytes
  pub linger : Bool
  pub content_length : ℕ
  pub file_content : Bytes
  pub file_fd : ℤ
  pub file_size : ℕ
  pub use_sendfile : Bool
  pub response_head : Bytes
  pub response_body : Bytes
  pub write_offset : ℕ
  pub parsed_code : HttpCode

-- init_state does not touch the buffer, which a connection slot keeps.
unfoldable pub init_state : HttpConn → HttpConn
init_state c = record {
  sockfd = minus_one;
  address = no_address;
  read_buf = c.read_buf;
  read_idx = 0;
  checked_idx = 0;
  start_line = 0;
  check_state = request_line;
  method = get;
  url = [];
  version = [];
  host = [];
  linger = false;
  content_length = 0;
  file_content = [];
  file_fd = minus_one;
  file_size = 0;
  use_sendfile = false;
  response_head = [];
  response_body = [];
  write_offset = 0;
  parsed_code = no_request;
}

-- The constructor http_conn(), over a vector that is still empty.
unfoldable pub http_conn : HttpConn
unfolding init_state
http_conn = init_state (record {
  sockfd = minus_one;
  address = no_address;
  read_buf = [];
  read_idx = 0;
  checked_idx = 0;
  start_line = 0;
  check_state = request_line;
  method = get;
  url = [];
  version = [];
  host = [];
  linger = false;
  content_length = 0;
  file_content = [];
  file_fd = minus_one;
  file_size = 0;
  use_sendfile = false;
  response_head = [];
  response_body = [];
  write_offset = 0;
  parsed_code = no_request;
})

-- vector::resize to a larger size, new bytes 0.
abbrev pub grow : ℕ → Bytes → Bytes
grow n buf = buf ++ replicate (n - length buf) 0

unfoldable pub init : HttpConn → ℤ → Address → HttpConn
unfolding init_state
init c fd addr =
    let d = init_state c in
    record d {
      sockfd = fd;
      address = addr;
      read_buf =
          if ltb (length d.read_buf) read_buffer_size
          then grow read_buffer_size d.read_buf
          else d.read_buf;
    }

-- The descriptors closed so far, in order, stand for the calls of ::close.
abbrev pub Closed : Type 0
Closed = List ℤ

unfoldable pub close_fd : ℤ → Closed → Closed
close_fd fd log = if eq_ℤ fd minus_one then log else log ++ fd ∷ []

unfoldable pub close_conn : HttpConn → Closed → HttpConn × Closed
unfolding init_state close_fd
close_conn c log = (init_state c, close_fd c.file_fd (close_fd c.sockfd log))
