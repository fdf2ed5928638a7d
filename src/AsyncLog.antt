-- ===== src/AsyncLog.antt =====
-- async_log.h: the buffers of the log, the front end that fills them and the back end that writes
-- them. A line comes formatted from strftime and snprintf; the capacity of a buffer is a parameter.
-- The file is what fwrite was given, whatever file was open then.
pub mod Order
pub mod Backend
pub mod Draining
pub mod Rounds
pub mod Finishing
use reactor_web_server.Common.{
  ℕ, ◌+◌, ◌-◌, ◌≡◌, Bool, true, false, Option, none, some, List, [], ◌∷◌, ◌++◌, ltb, leb, ◌==◌, min,
  take, length, if◌then◌else◌, ℤ, pos, negsuc,
}
use reactor_web_server.Common.Text.{Bytes}

-- LogLevel, by its number; a threshold may be a number of no level.
pub data LogLevel : Type 0 where
  debug info warn error : LogLevel

abbrev pub level_number : LogLevel → ℕ
level_number debug = 0
level_number info = 1
level_number warn = 2
level_number error = 3

pub record AsyncLog : Type 0 where
  pub cur_buf : Bytes
  pub ready_bufs : List Bytes
  -- the buffers that the back end took and has not written
  pub bufs : List Bytes
  pub level : ℕ
  pub echo_stderr_level : ℕ
  pub started : Bool
  pub file : Bytes
  pub terminal : Bytes

unfoldable pub async_log : AsyncLog
async_log = record {
  cur_buf = [];
  ready_bufs = [];
  bufs = [];
  level = 0;
  echo_stderr_level = 0;
  started = false;
  file = [];
  terminal = [];
}

-- Without the directory and the file.
unfoldable pub init : ℕ → ℕ → AsyncLog → AsyncLog
init level echo l = record l { level = level; echo_stderr_level = echo; started = true }

-- What snprintf wrote into an array of `size` chars, by the text and the length that it returned.
unfoldable pub clamped : ℕ → Bytes → ℤ → Bytes
clamped size text (negsuc _) = []
clamped size text (pos n) = take (if ltb (size - 1) n then size - 1 else n) text

-- line_buf
unfoldable pub line_of : Bytes × ℤ → Bytes × ℤ → Bytes
unfolding clamped
line_of (header, hlen) (msg, mlen) =
    clamped 256 header hlen ++ (clamped 1024 msg mlen ++ b'\n' ∷ [])

module _ (capacity : ℕ) where
  -- LogBuffer::append
  unfoldable pub buffer_append : Bytes → Bytes → Option Bytes
  buffer_append buf text =
      if ltb capacity (length buf + length text) then none else some (buf ++ text)

  -- The buffer after a second append, whose result is not looked at.
  unfoldable pub append_or_keep : Bytes → Bytes → Bytes
  unfolding buffer_append
  append_or_keep buf text = elim (buffer_append buf text) [ none ↦ buf | some b ↦ b ]

  -- The part of AsyncLog::append under the mutex.
  unfoldable pub store : Bytes → AsyncLog → AsyncLog
  unfolding append_or_keep
  store line l =
      if l.started
      then elim (buffer_append l.cur_buf line) [
        | none ↦ record l {
          ready_bufs = l.ready_bufs ++ l.cur_buf ∷ [];
          cur_buf = append_or_keep [] line;
        }
        | some b ↦ record l { cur_buf = b }
      ]
      else l

  unfoldable pub append : LogLevel → Bytes × ℤ → Bytes × ℤ → AsyncLog → AsyncLog
  unfolding store line_of
  append level header msg l =
      if ltb (level_number level) l.level
      then l
      else store (line_of header msg) (record l {
        terminal =
            if leb l.echo_stderr_level (level_number level)
            then l.terminal ++ line_of header msg
            else l.terminal;
      })

-- The first half of a round of backend_loop, under the mutex.
unfoldable pub swap_bufs : AsyncLog → AsyncLog
swap_bufs l = elim l.cur_buf [
  | [] ↦ record l { bufs = l.ready_bufs; ready_bufs = [] }
  | _ ∷ _ ↦ record l { bufs = l.ready_bufs ++ l.cur_buf ∷ []; ready_bufs = []; cur_buf = [] }
]

-- One turn of the loop over the buffers, without the mutex.
unfoldable pub write_buf : AsyncLog → List Bytes → AsyncLog
write_buf l [] = l
write_buf l (b ∷ bs) = record l { file = l.file ++ b; bufs = bs }

-- The end of backend_loop, when the log is stopped: what the current buffer holds.
unfoldable pub flush_rest : AsyncLog → AsyncLog
flush_rest l = record l { file = l.file ++ l.cur_buf; cur_buf = [] }

unfoldable pub shutdown : AsyncLog → AsyncLog
shutdown l = record l { started = false }
