-- ===== src/Examples/Requests.antt =====
-- Runs of the parser over whole requests: in pieces, and as clients write them.
use reactor_web_server.Common.{
  ◌≡◌, refl, arith, true, false, [], ◌∷◌, ◌++◌, pos, some, length, replicate,
}
use reactor_web_server.Common.Text.{
  Bytes, codes, strcaseeq, strncaseeq, equal, split_at, c_str, contains_pair,
}
use reactor_web_server.Http.{HttpConn, http_conn, file_request, header}
use reactor_web_server.Http.Line.{parse_line}
use reactor_web_server.Http.RequestLine.{parse_request_line}
use reactor_web_server.Http.Header.{parse_headers}
use reactor_web_server.Http.Read.{store}
use reactor_web_server.Http.Resource.{Files, regular, do_request}
use reactor_web_server.Http.Parser.{process_read, prepare_io_read}
use reactor_web_server.Http.Parser.Invariant.{IsValid}
use reactor_web_server.Http.Requests.{
  Request, IsRequest, IsReady, Parsed, request_text, process_read-request_text,
}
use reactor_web_server.Http.Requests.Headers.{host_is, connection_is, other_is}
use reactor_web_server.Http.Requests.Head.{concluded}
use reactor_web_server.Http.Requests.Lines.{Unread}
use reactor_web_server.Http.Reset.{reset_for_next}
use reactor_web_server.Http.Response.{run_business_and_prepare_write}
use reactor_web_server.Http.Pipeline.{requests_text, Served, idle, request, requests_in_order}
use reactor_web_server.Http.Pipeline.Between.{prepared}
use reactor_web_server.Http.Pipeline.Steps.{Holds, Understood}
use reactor_web_server.Http.Pieces.{Pieces, whole, piece, Pieces-same}

-- Every path is a regular file of four bytes.
abbrev pub files : Files
files = record { stat = λ _. some (record { kind = regular; size = 4 }); open_read = λ _. pos 7 }

-- A connection that has read a text into a buffer with some more room.
abbrev having_read : Bytes → HttpConn
having_read text = record http_conn { read_buf = text ++ replicate 30 0; read_idx = length text }

abbrev first_piece : HttpConn
first_piece = having_read (codes "GET /a HTT")

abbrev second_piece : Bytes
second_piece = codes "P/1.0\r\n\r\n"

first_piece-IsValid : IsValid first_piece
unfolding http_conn
first_piece-IsValid = record {
  start-le = omega arith;
  checked-le = omega arith;
  read-le = omega arith;
  body-lt = omega arith;
}

-- The parser has looked at all the bytes, and asks for more.
abbrev first_asked : HttpConn
first_asked = record first_piece { checked_idx = 10 }

first_piece_incomplete : prepare_io_read files (codes "/srv") first_piece ≡ some (0, first_asked)
unfolding http_conn prepare_io_read parse_line
first_piece_incomplete = refl

two-Pieces : Pieces files (codes "/srv") first_piece second_piece (store first_asked second_piece)
unfolding http_conn
two-Pieces =
    piece whole first_piece_incomplete (λ e. cc) second_piece
      (record {
        bytes = second_piece;
        later = [];
        in_order = refl;
        fits = omega arith;
        stored = refl;
      })

Pieces-same_example :
    prepare_io_read files (codes "/srv") (store first_asked second_piece)
    ≡ prepare_io_read files (codes "/srv") (store first_piece second_piece)
Pieces-same_example =
    Pieces-same files (codes "/srv") first_piece (store first_asked second_piece) second_piece
      first_piece-IsValid two-Pieces

-- A request as a browser writes it.
abbrev browser : Request
browser = record {
  url = codes "/a.html";
  newer = true;
  headers =
      host_is (codes "x.org")
      ∷ other_is (codes "Accept") (codes " */*")
      ∷ connection_is (codes "keep-alive")
      ∷ [];
}

-- The next request is behind it, as far as it came.
abbrev browsing : HttpConn
browsing = having_read (request_text browser ++ codes "GET")

browser-IsRequest : IsRequest browser
unfolding strcaseeq equal
browser-IsRequest = record {
  url_fits = record {
    plain = ground arith;
    no_space = ground arith;
    begins = refl;
    full = omega arith;
  };
  headers_fit = ground arith;
}

browsing-IsReady : IsReady browsing
unfolding http_conn
browsing-IsReady = record {
  valid = record {
    start-le = omega arith;
    checked-le = omega arith;
    read-le = omega arith;
    body-lt = omega arith;
  };
  first_state = refl;
  no_host = refl;
  no_length = refl;
}

browsing-Unread : Unread browsing (request_text browser ++ (codes "GET" ++ replicate 30 0))
unfolding http_conn
browsing-Unread = record { before = []; buffer = refl; checked_at = refl; start_at = refl }

process_read-request_text_example :
    (d : HttpConn) × Parsed browser (codes "GET" ++ replicate 30 0) browsing d
    × (process_read files (codes "/srv") browsing ≡ some (concluded files (codes "/srv") d))
unfolding http_conn
process_read-request_text_example =
    process_read-request_text files (codes "/srv") browser (codes "GET" ++ replicate 30 0) browsing
      browser-IsRequest browsing-IsReady browsing-Unread (omega arith)

abbrev pub short : Request
short = record { url = codes "/b"; newer = false; headers = [] }

-- Two requests in one packet.
abbrev pub two_requests : HttpConn
two_requests = having_read (requests_text (short ∷ short ∷ []))

pub short-IsRequest : IsRequest short
unfolding equal
short-IsRequest = record {
  url_fits = record {
    plain = ground arith;
    no_space = ground arith;
    begins = refl;
    full = omega arith;
  };
  headers_fit = tt;
}

pub two_requests-Holds : Holds two_requests (requests_text (short ∷ short ∷ []))
unfolding http_conn
two_requests-Holds = record {
  ready = record {
    valid = record {
      start-le = omega arith;
      checked-le = omega arith;
      read-le = omega arith;
      body-lt = omega arith;
    };
    first_state = refl;
    no_host = refl;
    no_length = refl;
  };
  tail = replicate 30 0;
  unread = record { before = []; buffer = refl; checked_at = refl; start_at = refl };
  at_end = refl;
}

-- The connection behind the first request, while it is answered, and after the reset.
abbrev pub first_parsed : HttpConn
first_parsed = record two_requests {
  read_buf =
      codes "GET"
      ++ 0 ∷ codes "/b"
      ++ 0 ∷ codes "HTTP/1.0"
      ++ 0 ∷ 0 ∷ 0 ∷ 0 ∷ (requests_text (short ∷ []) ++ replicate 30 0);
  checked_idx = 19;
  start_line = 19;
  check_state = header;
  url = codes "/b";
  version = codes "HTTP/1.0";
  file_fd = pos 7;
  file_size = 4;
  use_sendfile = true;
  parsed_code = file_request;
}

abbrev pub first_answered : HttpConn
first_answered = (run_business_and_prepare_write files (codes "/srv") first_parsed).1

abbrev first_reset : HttpConn
first_reset = (reset_for_next first_answered []).1

pub first_done : prepare_io_read files (codes "/srv") two_requests ≡ some (1, first_parsed)
unfolding http_conn prepare_io_read parse_line parse_request_line split_at c_str strcaseeq
    strncaseeq parse_headers equal do_request contains_pair
first_done = refl

one-Served : Served files (codes "/srv") two_requests 1 first_reset
one-Served = request first_done prepared [] idle

requests_in_order_example :
    (tail : Bytes) × Understood files (codes "/srv") short (requests_text [] ++ tail) first_reset
requests_in_order_example =
    requests_in_order files (codes "/srv") (short ∷ []) short [] two_requests first_reset
      (short-IsRequest, tt) short-IsRequest two_requests-Holds one-Served
