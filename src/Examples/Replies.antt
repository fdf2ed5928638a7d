-- ===== src/Examples/Replies.antt =====
-- Runs of a whole exchange: a request, its response, and what the client gets.
use reactor_web_server.Common.{
  ℕ, zero, suc, List, All, ◌+◌, ◌≡◌, refl, ap, sym, subst, arith, [], ◌∷◌, ◌++◌, some, length,
}
use reactor_web_server.Common.Text.{Bytes, codes, contains_pair, equal, strrchr}
use reactor_web_server.Http.{HttpConn, http_conn}
use reactor_web_server.Http.Parser.{prepare_io_read}
use reactor_web_server.Http.Response.{
  run_business_and_prepare_write, answer, assemble, get_content_type, snprintf, head_text,
  content_type_of,
}
use reactor_web_server.Http.Write.{Outcome, eagain, sent, Io, write}
use reactor_web_server.Http.Write.Taking.{IsTaken}
use reactor_web_server.Http.Pipeline.{requests_text}
use reactor_web_server.Http.Service.{request_replied, reply_delivered, reply_sent}
use reactor_web_server.Http.Service.Promise.{reply}
use reactor_web_server.Http.Service.Prepared.{Replies}
use reactor_web_server.Http.Service.Delivered.{Sending, begun}
use reactor_web_server.Http.Service.Lookup.{IsFaithful}
use reactor_web_server.Examples.Requests.{
  files, short, short-IsRequest, two_requests, two_requests-Holds, first_parsed, first_answered,
  first_done,
}

-- What every file holds.
abbrev content : Bytes → Bytes
content path = codes "text"

files-IsFaithful : IsFaithful files content
files-IsFaithful path size e = ground arith

request_replied_example :
    (d : HttpConn) × (prepare_io_read files (codes "/srv") two_requests ≡ some (1, d))
    × Replies files
        (codes "/srv")
        (content (codes "/srv/b"))
        (reply files content (codes "/srv") short)
        d
unfolding http_conn
request_replied_example =
    request_replied files (codes "/srv") content short (requests_text (short ∷ [])) two_requests
      files-IsFaithful short-IsRequest two_requests-Holds refl

abbrev short_head : Bytes
short_head =
    codes
      "HTTP/1.1 200 OK\r\nServer: EpollETReactor/1.0 (Modern C++)\r\nContent-Length: 4\r\nContent-Type: text/plain\r\nConnection: close\r\n\r\n"

abbrev short_answered : HttpConn
short_answered = record first_parsed { response_head = short_head }

short_answered_lem :
    run_business_and_prepare_write files (codes "/srv") first_parsed ≡ (1, short_answered)
unfolding http_conn run_business_and_prepare_write answer assemble get_content_type strrchr snprintf
    head_text content_type_of equal
short_answered_lem = refl

abbrev before_write : Io
before_write = record { conn = short_answered; errno = eagain; wire = [] }

abbrev after_write : Io
after_write = record {
  conn = record short_answered { write_offset = length short_head + 4 };
  errno = eagain;
  wire = short_head ++ codes "text";
}

all_written : write (codes "text") (sent 999 ∷ sent 999 ∷ []) before_write ≡ some (1, after_write)
unfolding http_conn write
all_written = refl

reply_delivered_example : after_write.wire ≡ reply files content (codes "/srv") short
unfolding http_conn
reply_delivered_example =
    reply_delivered files (codes "/srv") content short (requests_text (short ∷ [])) two_requests
      first_parsed eagain before_write after_write (sent 999 ∷ sent 999 ∷ []) files-IsFaithful
      short-IsRequest two_requests-Holds refl first_done
      (subst (λ c. Sending (codes "text") c eagain before_write)
        (sym (ap (λ r. r.1) short_answered_lem)) begun)
      all_written

-- A socket that takes a byte at a time.
abbrev byte_by_byte : ℕ → List Outcome
byte_by_byte zero = []
byte_by_byte (suc n) = sent 0 ∷ byte_by_byte n

byte_by_byte-IsTaken : (n : ℕ) → All IsTaken (byte_by_byte n)
byte_by_byte-IsTaken zero = tt
byte_by_byte-IsTaken (suc n) = ((0, refl), byte_by_byte-IsTaken n)

reply_of_short : reply files content (codes "/srv") short ≡ short_head ++ codes "text"
unfolding equal contains_pair get_content_type strrchr head_text
reply_of_short = refl

reply_sent_example :
    (end : Io) × (write
        (codes "text")
        (byte_by_byte 150)
        (record { conn = first_answered; errno = eagain; wire = [] })
      ≡ some (1, end))
    × (end.wire ≡ reply files content (codes "/srv") short)
unfolding http_conn
reply_sent_example =
    reply_sent files (codes "/srv") content short (requests_text (short ∷ [])) two_requests
      first_parsed eagain (byte_by_byte 150) files-IsFaithful short-IsRequest two_requests-Holds
      refl first_done (λ e. cc) (byte_by_byte-IsTaken 150) (omega (arith, ap length reply_of_short))
