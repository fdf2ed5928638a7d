-- ===== src/Examples/Parsing.antt =====
-- Runs of the request side of a connection: reading, parsing, resources.
use reactor_web_server.Common.{
  ◌≡◌, refl, arith, true, List, [], ◌∷◌, ◌++◌, pos, some, length, replicate, inr,
}
use reactor_web_server.Common.Text.{Bytes, codes, equal, contains_pair}
use reactor_web_server.Http.{HttpConn, HttpCode, http_conn, file_request, body}
use reactor_web_server.Http.Read.{Recv, received, recv_failed, store, read_once}
use reactor_web_server.Http.Read.Receives.{Receives, read_once-Receives}
use reactor_web_server.Http.Write.{eagain}
use reactor_web_server.Http.Resource.{Files, regular, do_request}
use reactor_web_server.Http.Resource.Safety.{Served, do_request-Served, do_request_beside_root}
use reactor_web_server.Http.Reset.{reset_for_next}
use reactor_web_server.Http.Parser.{process_read, prepare_io_read}
use reactor_web_server.Http.Parser.Invariant.{IsValid, Finished, process_read-Finished}
use reactor_web_server.Http.Parser.Stray.{
  IsStuck, Polled, start, poll, store-IsStuck, prepare_io_read_stuck, stray_never_answered,
}
use reactor_web_server.Http.Parser.Body.{UnreadIsLine, waiting}
use reactor_web_server.Http.Parser.BodyFaults.{body_in_two_parts, body_left_over}

-- Every path is a regular file of four bytes.
abbrev one_file : Files
one_file = record { stat = λ _. some (record { kind = regular; size = 4 }); open_read = λ _. pos 7 }

-- A connection that has read a text into a buffer with some more room.
abbrev reading : Bytes → HttpConn
reading text = record http_conn { read_buf = text ++ replicate 8 0; read_idx = length text }

-- A request line that ends in a bare newline, with one round of reading behind it.
abbrev lone_newline : HttpConn
lone_newline = reading (codes "G\n")

abbrev more : List Recv
more = received (codes "H") ∷ recv_failed eagain ∷ []

lone_newline-IsStuck : IsStuck 1 lone_newline
unfolding http_conn
lone_newline-IsStuck = record {
  no_body = λ e. cc;
  line = record {
    ahead = omega arith;
    unread = omega arith;
    clean = λ i l m. let first : i ≡ 0 = omega arith in rw first (omega arith, omega arith);
    stray = inr (refl, inr (omega arith));
  };
  in_buffer = omega arith;
}

lone_newline-Polled :
    Polled one_file
      (codes "/srv")
      lone_newline
      (record (store lone_newline (codes "H")) { checked_idx = 1 })
unfolding http_conn read_once store
lone_newline-Polled = poll start more (omega arith) refl (
    prepare_io_read_stuck one_file (codes "/srv") 1 (store lone_newline (codes "H"))
      (store-IsStuck 1 lone_newline (codes "H") (omega arith) lone_newline-IsStuck))

stray_never_answered_example :
    prepare_io_read one_file
      (codes "/srv")
      (store (record (store lone_newline (codes "H")) { checked_idx = 1 }) (codes "H"))
    ≡ some (
      0,
      record (store (record (store lone_newline (codes "H")) { checked_idx = 1 }) (codes "H")) {
        checked_idx = 1;
      },
    )
unfolding http_conn read_once store
stray_never_answered_example =
    stray_never_answered one_file (codes "/srv") 1 lone_newline
      (record (store lone_newline (codes "H")) { checked_idx = 1 })
      (store (record (store lone_newline (codes "H")) { checked_idx = 1 }) (codes "H")) more
      lone_newline-IsStuck lone_newline-Polled (omega arith) refl

reading-IsValid : IsValid (reading (codes "GET /a HTTP/1.0\r\n\r\n"))
unfolding http_conn
reading-IsValid = record {
  start-le = omega arith;
  checked-le = omega arith;
  read-le = omega arith;
  body-lt = omega arith;
}

process_read-Finished_example :
    Finished one_file
      (codes "/srv")
      (process_read one_file (codes "/srv") (reading (codes "GET /a HTTP/1.0\r\n\r\n")))
process_read-Finished_example =
    process_read-Finished one_file (codes "/srv") (reading (codes "GET /a HTTP/1.0\r\n\r\n"))
      reading-IsValid

-- The head of a request with a body of six bytes is done; three of them are there.
abbrev half_body : HttpConn
half_body = record (reading (codes "abc")) { check_state = body; content_length = 6 }

half_body-UnreadIsLine : UnreadIsLine half_body
unfolding http_conn
half_body-UnreadIsLine = record {
  before = [];
  unread = codes "abc";
  behind = replicate 8 0;
  buffer = refl;
  checked_at = refl;
  read_at = refl;
  is_line = omega arith;
}

body_in_two_parts_example :
    (d : HttpConn) × (prepare_io_read one_file [] half_body ≡ some (0, d))
    × (prepare_io_read one_file [] (store d (codes "def"))
        ≡ some (0, waiting one_file [] (store d (codes "def"))))
unfolding http_conn
body_in_two_parts_example =
    body_in_two_parts one_file [] half_body (codes "def") refl (omega arith) (omega arith) refl
      (omega arith) (omega arith) half_body-UnreadIsLine (omega arith)

abbrev full_body : HttpConn
full_body = record (reading (codes "abcdef")) { check_state = body; content_length = 6 }

body_left_over_example :
    (code : HttpCode) × (d : HttpConn) × (process_read one_file [] full_body ≡ some (code, d))
    × ((reset_for_next d []).0 ≡ true)
    × ((reset_for_next d []).1.read_idx ≡ 6)
unfolding http_conn
body_left_over_example =
    body_left_over one_file [] full_body [] refl (omega arith) (omega arith) (omega arith)

read_once-Receives_example :
    Receives (reading (codes "ab")) (codes "cde") (store (reading (codes "ab")) (codes "cde"))
unfolding http_conn read_once store
read_once-Receives_example =
    read_once-Receives (received (codes "cde") ∷ recv_failed eagain ∷ []) (reading (codes "ab"))
      true (store (reading (codes "ab")) (codes "cde")) (omega arith) (omega arith) refl

abbrev asking : Bytes → HttpConn
asking url = record http_conn { url = url }

do_request-Served_example :
    Served one_file
      (codes "/srv")
      (asking (codes "/a"))
      (record (asking (codes "/a")) { file_fd = pos 7; file_size = 4; use_sendfile = true })
unfolding http_conn do_request equal contains_pair
do_request-Served_example =
    do_request-Served one_file (codes "/srv") (asking (codes "/a")) _ refl refl refl

-- The root is /srv/www, the file served is /srv/www-old/key.
do_request_beside_root_example :
    do_request one_file (codes "/srv/www") (asking (codes "-old/key")) ≡ (
      file_request,
      record (asking (codes "-old/key")) { file_fd = pos 7; file_size = 4; use_sendfile = true },
    )
unfolding http_conn contains_pair
do_request_beside_root_example =
    do_request_beside_root one_file (codes "/srv/www") (asking (codes "-old/key")) b'-' 7 4
      (codes "old/key") refl (λ e. absurd (omega arith)) refl refl refl
