-- ===== src/Http/Write/Unmoved.antt =====
-- write of http_conn.cpp changes the connection in nothing but the write offset.
use reactor_web_server.Common.{
  either_way, ◌-◌, ◌≡◌, List, [], ◌∷◌, none, some, ltb, leb, length, drop,
}
use reactor_web_server.Common.Text.{Bytes}
use reactor_web_server.Http.{HttpConn}
use reactor_web_server.Http.Write.{
  Errno, eagain, eintr, other_error, Outcome, sent, nothing, failed, Io, Written, accept, refused,
  with_errno, call, iovec, total, writev_loop, file_rest, sendfile_loop, send_loop, write,
}

-- What the connection is, whatever was sent of the response.
abbrev pub rewound : HttpConn → HttpConn
rewound c = record c { write_offset = 0 }

-- What a call leaves, if it returns.
abbrev pub Unmoved : HttpConn → Written → Type 0
Unmoved d none = Unit
Unmoved d (some (r, io)) = rewound io.conn ≡ d

module _ (d : HttpConn) where
  refused-Unmoved :
      (e : Errno) (io : Io) (retry : Written)
      → rewound io.conn ≡ d
      → Unmoved d retry
      → Unmoved d (refused e io retry)
  unfolding refused
  refused-Unmoved eagain io retry p q = p
  refused-Unmoved eintr io retry p q = q
  refused-Unmoved other_error io retry p q = p

  call-Unmoved :
      (next : Io → Written) (offered : Bytes) (o : Outcome) (io : Io)
      → rewound io.conn ≡ d
      → ((io' : Io) → rewound io'.conn ≡ d → Unmoved d (next io'))
      → Unmoved d (call next offered o io)
  unfolding call
  call-Unmoved next offered (sent k) io p ih = ih (accept k offered io) p
  call-Unmoved next offered nothing io p ih = refused-Unmoved io.errno io _ p (ih io p)
  call-Unmoved next offered (failed e) io p ih =
      refused-Unmoved e (with_errno e io) _ p (ih (with_errno e io) p)

  writev_loop-Unmoved :
      (os : List Outcome) (io : Io) → rewound io.conn ≡ d → Unmoved d (writev_loop os io)
  unfolding writev_loop
  writev_loop-Unmoved [] io p =
      either_way (Unmoved d) (ltb io.conn.write_offset (total io.conn)) none (some (1, io)) tt p
  writev_loop-Unmoved (o ∷ os) io p =
      either_way (Unmoved d) (ltb io.conn.write_offset (total io.conn))
        (call (writev_loop os) (iovec io.conn) o io) (some (1, io))
        (call-Unmoved (writev_loop os) (iovec io.conn) o io p
          (λ io' q. writev_loop-Unmoved os io' q))
        p

  module _ (file : Bytes) where
    sendfile_loop-Unmoved :
        (os : List Outcome) (io : Io) → rewound io.conn ≡ d → Unmoved d (sendfile_loop file os io)
    unfolding sendfile_loop
    sendfile_loop-Unmoved [] io p =
        either_way (Unmoved d)
          (leb io.conn.file_size (io.conn.write_offset - length io.conn.response_head))
          (some (1, io)) none p tt
    sendfile_loop-Unmoved (o ∷ os) io p =
        either_way (Unmoved d)
          (leb io.conn.file_size (io.conn.write_offset - length io.conn.response_head))
          (some (1, io)) (call (sendfile_loop file os) (file_rest file io.conn) o io) p
          (call-Unmoved (sendfile_loop file os) (file_rest file io.conn) o io p
            (λ io' q. sendfile_loop-Unmoved os io' q))

    send_loop-Unmoved :
        (os : List Outcome) (io : Io) → rewound io.conn ≡ d → Unmoved d (send_loop file os io)
    unfolding send_loop
    send_loop-Unmoved [] io p =
        either_way (Unmoved d) (ltb io.conn.write_offset (length io.conn.response_head)) none
          (sendfile_loop file [] io) tt (sendfile_loop-Unmoved [] io p)
    send_loop-Unmoved (o ∷ os) io p =
        either_way (Unmoved d) (ltb io.conn.write_offset (length io.conn.response_head))
          (call (send_loop file os) (drop io.conn.write_offset io.conn.response_head) o io)
          (sendfile_loop file (o ∷ os) io)
          (call-Unmoved (send_loop file os) (drop io.conn.write_offset io.conn.response_head) o io p
            (λ io' q. send_loop-Unmoved os io' q))
          (sendfile_loop-Unmoved (o ∷ os) io p)

    pub write-Unmoved :
        (os : List Outcome) (io : Io) → rewound io.conn ≡ d → Unmoved d (write file os io)
    unfolding write
    write-Unmoved os io p =
        either_way (Unmoved d) io.conn.use_sendfile (send_loop file os io) (writev_loop os io)
          (send_loop-Unmoved os io p) (writev_loop-Unmoved os io p)
