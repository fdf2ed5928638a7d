-- ===== src/Http/Read.antt =====
-- http_conn.cpp, read_once: filling the read buffer from a non-blocking socket.
-- The kernel's answers are a script. A call on a full buffer asks for 0 bytes, which recv answers
-- by 0; otherwise `received bs` gives at most as many bytes as there is room for.
pub mod Store
pub mod Receives
use reactor_web_server.Common.{
  ℕ, zero, suc, ◌+◌, ◌-◌, Bool, true, false, Option, none, some, List, [], ◌∷◌, ◌++◌, ltb, leb,
  ◌==◌, if◌then◌else◌, length, take, drop,
}
use reactor_web_server.Common.Text.{Bytes}
use reactor_web_server.Http.{HttpConn}
use reactor_web_server.Http.Write.{Errno, eagain, eintr, other_error}

-- `received []` is the end of the stream: recv returns 0.
pub data Recv : Type 0 where
  received : Bytes → Recv
  recv_failed : Errno → Recv

abbrev pub room : HttpConn → ℕ
room c = length c.read_buf - c.read_idx

-- The bytes that recv wrote behind the read ones, and `m_read_idx += bytes_read`.
unfoldable pub store : HttpConn → Bytes → HttpConn
store c bs = record c {
  read_buf = take c.read_idx c.read_buf ++ (bs ++ drop (c.read_idx + length bs) c.read_buf);
  read_idx = c.read_idx + length bs;
}

-- `bytes_read == 0`
unfoldable pub at_end : ℕ → HttpConn → Bool × HttpConn
at_end before c = (ltb before c.read_idx, c)

-- A positive result goes on.
unfoldable pub got :
    ℕ → (HttpConn → Option (Bool × HttpConn)) → Bytes → HttpConn → Option (Bool × HttpConn)
unfolding store at_end
got before next [] c = some (at_end before c)
got before next (b ∷ bs) c = next (store c (b ∷ bs))

unfoldable pub recv_step :
    ℕ → (HttpConn → Option (Bool × HttpConn)) → Recv → HttpConn → Option (Bool × HttpConn)
unfolding got
recv_step before next (received bs) c = got before next (take (room c) bs) c
recv_step before next (recv_failed eagain) c = some (true, c)
recv_step before next (recv_failed eintr) c = next c
recv_step before next (recv_failed other_error) c = some (false, c)

-- The loop; `none` means that the kernel has not answered yet.
unfoldable pub recv_loop : ℕ → List Recv → HttpConn → Option (Bool × HttpConn)
unfolding recv_step at_end
recv_loop before [] c = if room c == 0 then some (at_end before c) else none
recv_loop before (o ∷ os) c =
    if room c == 0 then some (at_end before c) else recv_step before (recv_loop before os) o c

unfoldable pub read_once : List Recv → HttpConn → Option (Bool × HttpConn)
unfolding recv_loop
read_once os c =
    if leb (length c.read_buf) c.read_idx then some (false, c) else recv_loop c.read_idx os c
