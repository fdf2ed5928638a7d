-- ===== src/Http/Reset.antt =====
-- http_conn.cpp, reset_for_next: the connection between two requests; and keep_alive.
pub mod Leftover
use reactor_web_server.Common.{
  ℕ, ◌+◌, ◌-◌, Bool, true, false, [], ◌++◌, ltb, if◌then◌else◌, take, drop, minus_one,
}
use reactor_web_server.Common.Text.{Bytes}
use reactor_web_server.Http.{HttpConn, request_line, get, no_request, Closed, close_fd}

abbrev pub keep_alive : HttpConn → Bool
keep_alive c = c.linger

-- memmove(data, data + from, n)
unfoldable pub move_front : ℕ → ℕ → Bytes → Bytes
move_front start n buf = take n (drop start buf) ++ drop n buf

unfoldable pub keep_leftover : HttpConn → HttpConn
unfolding move_front
keep_leftover c =
    if ltb c.read_idx c.start_line
    then record c { read_idx = 0 }
    else if ltb 0 (c.read_idx - c.start_line)
    then record c {
      read_buf = move_front c.start_line (c.read_idx - c.start_line) c.read_buf;
      read_idx = c.read_idx - c.start_line;
    }
    else record c { read_idx = 0 }

unfoldable pub reset_for_next : HttpConn → Closed → Bool × HttpConn × Closed
unfolding keep_leftover close_fd
reset_for_next c log =
    let d = keep_leftover c in
    (
      ltb 0 d.read_idx,
      record d {
        checked_idx = 0;
        start_line = 0;
        check_state = request_line;
        method = get;
        url = [];
        version = [];
        host = [];
        linger = false;
        content_length = 0;
        file_content = [];
        file_fd = minus_one;
        file_size = 0;
        use_sendfile = false;
        response_head = [];
        response_body = [];
        write_offset = 0;
        parsed_code = no_request;
      },
      close_fd c.file_fd log,
    )
