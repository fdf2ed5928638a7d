-- ===== src/Examples/Responding.antt =====
-- Runs of the response side of a connection: writing, resetting, answers.
use reactor_web_server.Common.{◌≡◌, refl, arith, true, List, [], ◌∷◌, pos, some}
use reactor_web_server.Common.Text.{codes}
use reactor_web_server.Http.{HttpConn, http_conn, no_resource, close_fd}
use reactor_web_server.Http.Write.{
  eagain, other_error, Outcome, sent, failed, write, send_loop, sendfile_loop,
}
use reactor_web_server.Http.Write.Delivery.{sent_so_far, Ends}
use reactor_web_server.Http.Write.Correct.{response, IsCalm, write-Ends}
use reactor_web_server.Http.Parser.Invariant.{IsValid}
use reactor_web_server.Http.Reset.{reset_for_next}
use reactor_web_server.Http.Reset.Leftover.{Restarted, reset_for_next-Restarted}
use reactor_web_server.Http.Response.{
  answer, decimal, process_write, assemble, snprintf, head_text, content_type_of,
}
use reactor_web_server.Http.Header.{content_length_value}
use reactor_web_server.Http.Response.Numbers.{content_length_value-decimal}
use reactor_web_server.Http.Response.Announce.{Announced, process_write-Announced}

abbrev blank_conn : HttpConn
blank_conn = http_conn

-- A response of five bytes, the last three from a file.
abbrev file_conn : HttpConn
file_conn = record blank_conn {
  response_head = codes "ab";
  use_sendfile = true;
  file_fd = pos 9;
  file_size = 3;
}

abbrev slow_socket : List Outcome
slow_socket = sent 0 ∷ sent 5 ∷ sent 0 ∷ failed eagain ∷ sent 7 ∷ sent 0 ∷ []

write-Ends_example : Ends file_conn (response (codes "xyz") file_conn) 1 (
    write
      (codes "xyz")
      slow_socket
      (sent_so_far file_conn (response (codes "xyz") file_conn) 1 other_error))
write-Ends_example =
    write-Ends (codes "xyz") file_conn slow_socket 1 other_error (λ _. refl) (omega arith)

calm : IsCalm slow_socket
calm = (λ e. cc, (λ e. cc, (λ e. cc, (λ e. cc, (λ e. cc, (λ e. cc, tt))))))

-- The socket blocks after three bytes.
write_blocks :
    write
      (codes "xyz")
      slow_socket
      (sent_so_far file_conn (response (codes "xyz") file_conn) 0 other_error)
    ≡ some (2, sent_so_far file_conn (response (codes "xyz") file_conn) 3 eagain)
unfolding write send_loop sendfile_loop
write_blocks = refl

-- Six bytes were read, the request ended after four.
abbrev served_conn : HttpConn
served_conn = record blank_conn {
  read_buf = codes "GET abcd";
  read_idx = 6;
  checked_idx = 4;
  start_line = 4;
  file_fd = pos 9;
}

served_conn-IsValid : IsValid served_conn
unfolding http_conn
served_conn-IsValid = record {
  start-le = omega arith;
  checked-le = omega arith;
  read-le = omega arith;
  body-lt = omega arith;
}

reset_for_next-Restarted_example :
    Restarted served_conn (reset_for_next served_conn []).1 (reset_for_next served_conn []).0
    × ((reset_for_next served_conn []).2 ≡ close_fd (pos 9) [])
reset_for_next-Restarted_example = reset_for_next-Restarted served_conn [] served_conn-IsValid

process_write-Announced_example :
    ((process_write blank_conn no_resource).0 ≡ true)
    × Announced blank_conn no_resource (process_write blank_conn no_resource).1
process_write-Announced_example = process_write-Announced blank_conn no_resource (λ e. cc) (λ e. cc)

not_found_head :
    (process_write blank_conn no_resource).1.response_head
    ≡ codes
        "HTTP/1.1 404 Not Found\r\nServer: EpollETReactor/1.0 (Modern C++)\r\nContent-Length: 48\r\nContent-Type: text/html\r\nConnection: close\r\n\r\n"
unfolding process_write answer assemble snprintf head_text content_type_of http_conn
not_found_head = refl

content_length_value-decimal_example : content_length_value (decimal 42) ≡ some 42
content_length_value-decimal_example = content_length_value-decimal 42 (omega arith)
