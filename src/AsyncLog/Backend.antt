-- ===== src/AsyncLog/Backend.antt =====
-- async_log.h: the thread that writes the log, and the files that it writes to. The clock and fopen are
-- parameters: `mday` and `date` are what localtime_r and strftime give.
use reactor_web_server.Common.{
  ℕ, ◌+◌, Bool, true, false, Option, none, some, List, [], ◌∷◌, ◌++◌, ◌==◌, if◌then◌else◌,
}
use reactor_web_server.Common.Text.{Bytes, codes}
use reactor_web_server.AsyncLog.{
  LogLevel, debug, info, warn, error, AsyncLog, store, swap_bufs, write_buf, flush_rest, shutdown,
  init,
}

abbrev pub log_level_str : LogLevel → Bytes
log_level_str debug = codes "DEBUG"
log_level_str info = codes "INFO"
log_level_str warn = codes "WARN"
log_level_str error = codes "ERROR"

-- m_fp: stderr, or a file by its name.
pub data Stream : Type 0 where
  stderr : Stream
  file : Bytes → Stream

-- What two calls of time give, the second for the name of a new file, and whether fopen succeeds.
pub record Clock : Type 0 where
  pub mday : ℕ
  pub roll_mday : ℕ
  pub roll_date : Bytes
  pub opens : Bool

pub record LogFile : Type 0 where
  pub dir : Bytes
  pub base_name : Bytes
  pub day : ℕ
  pub fp : Option Stream
  pub filename : Bytes
  -- what fwrite was given, by the stream, and the files that fopen and fclose were called on
  pub writes : List (Stream × Bytes)
  pub fopened : List Bytes
  pub fclosed : List Bytes

unfoldable pub log_file : LogFile
log_file = record {
  dir = codes "./log";
  base_name = codes "server.log";
  day = 0;
  fp = none;
  filename = [];
  writes = [];
  fopened = [];
  fclosed = [];
}

-- if (m_fp && m_fp != stderr) { fflush(m_fp); fclose(m_fp); m_fp = nullptr; }
unfoldable pub close_file : LogFile → LogFile
close_file o = elim o.fp [
  | none ↦ o
  | some stderr ↦ o
  | some (file name) ↦ record o { fp = none; fclosed = o.fclosed ++ name ∷ [] }
]

-- m_filename = m_dir + "/" + m_base_name + "." + date
unfoldable pub name_of : LogFile → Bytes → Bytes
name_of o date = o.dir ++ (b'/' ∷ (o.base_name ++ (b'.' ∷ date)))

unfoldable pub open_file : LogFile → Bytes → Bool → LogFile
open_file o name opens =
    if opens
    then record o { filename = name; fp = some (file name); fopened = o.fopened ++ name ∷ [] }
    else record o { filename = name; fp = some stderr }

unfoldable pub roll_file_locked : Clock → LogFile → LogFile
unfolding close_file open_file name_of
roll_file_locked k o =
    let p = record (close_file o) { fp = none; day = k.roll_mday } in
    open_file p (name_of p k.roll_date) k.opens

-- if (!m_fp) roll_file_locked();
unfoldable pub reopened : Clock → LogFile → LogFile
unfolding roll_file_locked
reopened k o = elim o.fp [ none ↦ roll_file_locked k o | some _ ↦ o ]

-- if (m_fp) fwrite(data, 1, len, m_fp);
unfoldable pub fwrite : Bytes → LogFile → LogFile
fwrite text o = elim o.fp [ none ↦ o | some s ↦ record o { writes = o.writes ++ (s, text) ∷ [] } ]

unfoldable pub write_to_file : Clock → Bytes → LogFile → LogFile
unfolding reopened fwrite
write_to_file k text o =
    fwrite text (reopened k (if k.mday == o.day then o else roll_file_locked k o))

-- The log with the state of its file.
pub record Backend : Type 0 where
  pub log : AsyncLog
  pub out : LogFile

-- AsyncLog::init as a whole.
unfoldable pub init_backend : Bytes → Bytes → ℕ → ℕ → Clock → Backend → Backend
init_backend dir base_name level echo k b = record {
  log = init level echo b.log;
  out = roll_file_locked k (record (b.out) { dir = dir; base_name = base_name });
}

-- What the other threads do to the log.
pub data Front : Type 0 where
  logs : Bytes → Front
  stops : Front

-- One round of backend_loop: what happens up to the end of the wait, what happens while the buffers
-- are written, and the clock at the writes.
pub record Round : Type 0 where
  pub before : List Front
  pub meanwhile : List Front
  pub clock : ℕ → Clock

module _ (capacity : ℕ) where
  unfoldable pub do_all : List Front → AsyncLog → AsyncLog
  unfolding store shutdown
  do_all [] l = l
  do_all (logs line ∷ fs) l = do_all fs (store capacity line l)
  do_all (stops ∷ fs) l = do_all fs (shutdown l)

  -- The loop over the buffers; `i` counts the writes.
  unfoldable pub write_all : (ℕ → Clock) → ℕ → List Bytes → Backend → Backend
  unfolding write_buf write_to_file
  write_all clock i [] b = b
  write_all clock i (t ∷ ts) b =
      write_all clock (i + 1) ts
        (record { log = write_buf b.log (t ∷ ts); out = write_to_file (clock i) t b.out })

  -- The end of the loop, for a log that is stopped.
  unfoldable pub finish : Clock → Backend → Backend
  unfolding flush_rest close_file
  finish k b = elim b.log.cur_buf [
    | [] ↦ record b { out = close_file b.out }
    | c ∷ cs ↦ record { log = flush_rest b.log; out = close_file (write_to_file k (c ∷ cs) b.out) }
  ]

  -- `true` means that the loop goes on. The clock at 0 is also the one of the last write.
  unfoldable pub round : Round → Backend → Bool × Backend
  unfolding do_all swap_bufs write_all finish
  round r b =
      let l = swap_bufs (do_all r.before b.log) in
      let c = write_all r.clock 1 l.bufs (record { log = l; out = b.out }) in
      let d = record c { log = do_all r.meanwhile c.log } in
      if d.log.started then (true, d) else (false, finish (r.clock 0) d)

  unfoldable pub backend_loop : List Round → Backend → Bool × Backend
  unfolding round
  backend_loop [] b = (true, b)
  backend_loop (r ∷ rs) b = let (go, c) = round r b in if go then backend_loop rs c else (false, c)
