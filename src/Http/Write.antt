-- ===== src/Http/Write.antt =====
-- http_conn.cpp, write: sending the response over a non-blocking socket.
-- The kernel's answers are a script. A call that accepts bytes accepts at least one and at most
-- those offered: `sent k` stands for the lesser of k + 1 and the number offered.
pub mod Delivery
pub mod Loops
pub mod Correct
pub mod Unmoved
pub mod Taking
use reactor_web_server.Common.{
  ℕ, zero, suc, ◌+◌, ◌-◌, Bool, true, false, Option, none, some, List, [], ◌∷◌, ◌++◌, ltb, leb,
  if◌then◌else◌, length, take, drop, min,
}
use reactor_web_server.Common.Text.{Bytes}
use reactor_web_server.Http.{HttpConn}

-- errno; EWOULDBLOCK is EAGAIN on Linux.
pub data Errno : Type 0 where
  eagain eintr other_error : Errno

-- A result below 0 sets errno, the result 0 leaves it.
pub data Outcome : Type 0 where
  sent : ℕ → Outcome
  nothing : Outcome
  failed : Errno → Outcome

-- The connection, errno, all that the peer was sent, and the kernel's answers to come.
pub record Io : Type 0 where
  pub conn : HttpConn
  pub errno : Errno
  pub wire : Bytes

abbrev pub Written : Type 0
Written = Option (ℕ × Io)

-- `m_write_offset += s` for a call that was offered these bytes.
abbrev pub accept : ℕ → Bytes → Io → Io
accept k offered io =
    let s = min (suc k) (length offered) in
    record io {
      conn = record (io.conn) { write_offset = io.conn.write_offset + s };
      wire = io.wire ++ take s offered;
    }

-- `if (s <= 0)`: wait, retry or fail, by errno.
unfoldable pub refused : Errno → Io → Written → Written
refused eagain io retry = some (2, io)
refused eintr io retry = retry
refused other_error io retry = some (0, io)

abbrev pub with_errno : Errno → Io → Io
with_errno e io = record io { errno = e }

-- One call that is offered some bytes, and the loop behind it.
unfoldable pub call : (Io → Written) → Bytes → Outcome → Io → Written
unfolding refused
call next offered (sent k) io = next (accept k offered io)
call next offered nothing io = refused io.errno io (next io)
call next offered (failed e) io = refused e (with_errno e io) (next (with_errno e io))

-- The iovec of a round: the rest of the head, or the rest of the body behind it.
unfoldable pub iovec : HttpConn → Bytes
iovec c =
    if ltb c.write_offset (length c.response_head)
    then drop c.write_offset c.response_head
    else drop (c.write_offset - length c.response_head) c.response_body

abbrev pub total : HttpConn → ℕ
total c = length c.response_head + length c.response_body

-- The writev loop; `none` means that the kernel has not answered yet.
unfoldable pub writev_loop : List Outcome → Io → Written
unfolding call iovec
writev_loop [] io = if ltb io.conn.write_offset (total io.conn) then none else some (1, io)
writev_loop (o ∷ os) io =
    if ltb io.conn.write_offset (total io.conn)
    then call (writev_loop os) (iovec io.conn) o io
    else some (1, io)

module _ (file : Bytes) where
  -- What sendfile is offered: the rest of the file behind the head, up to its size.
  unfoldable pub file_rest : HttpConn → Bytes
  file_rest c =
      let file_offset = c.write_offset - length c.response_head in
      take (c.file_size - file_offset) (drop file_offset file)

  -- `file_offset >= m_file_size`, and the end of the loop: nothing remains.
  unfoldable pub sendfile_loop : List Outcome → Io → Written
  unfolding call file_rest
  sendfile_loop [] io =
      if leb io.conn.file_size (io.conn.write_offset - length io.conn.response_head)
      then some (1, io)
      else none
  sendfile_loop (o ∷ os) io =
      if leb io.conn.file_size (io.conn.write_offset - length io.conn.response_head)
      then some (1, io)
      else call (sendfile_loop os) (file_rest io.conn) o io

  -- Phase 1, the head, and then phase 2.
  unfoldable pub send_loop : List Outcome → Io → Written
  unfolding call sendfile_loop
  send_loop [] io =
      if ltb io.conn.write_offset (length io.conn.response_head) then none else sendfile_loop [] io
  send_loop (o ∷ os) io =
      if ltb io.conn.write_offset (length io.conn.response_head)
      then call (send_loop os) (drop io.conn.write_offset io.conn.response_head) o io
      else sendfile_loop (o ∷ os) io

  unfoldable pub write : List Outcome → Io → Written
  unfolding send_loop writev_loop
  write os io = if io.conn.use_sendfile then send_loop os io else writev_loop os io
