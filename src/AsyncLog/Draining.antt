-- ===== src/AsyncLog/Draining.antt =====
-- async_log.h: what backend_loop writes, and to which files.
use reactor_web_server.Common.{
  either_way, ◌≡◌, refl, ap, sym, ◌∙◌, Bool, true, false, Option, none, some, List, [], ◌∷◌, ◌++◌,
  ◌==◌, append-nil, append_assoc, if◌then◌else◌, arith,
}
use reactor_web_server.Common.Text.{Bytes}
use reactor_web_server.AsyncLog.Backend.{
  Stream, stderr, file, Clock, LogFile, close_file, name_of, open_file, roll_file_locked, reopened,
  fwrite, write_to_file,
}

-- All that was written, in order.
abbrev pub texts : List (Stream × Bytes) → Bytes
texts [] = []
texts ((s, t) ∷ ws) = t ++ texts ws

texts-snoc :
    (ws : List (Stream × Bytes)) (s : Stream) (t : Bytes)
    → texts (ws ++ (s, t) ∷ []) ≡ texts ws ++ t
texts-snoc [] s t = append-nil t
texts-snoc ((r, u) ∷ ws) s t =
    ap (λ x. u ++ x) (texts-snoc ws s t) ∙ sym (append_assoc u (texts ws) t)

-- The file that is open.
abbrev pub current : Option Stream → List Bytes
current none = []
current (some stderr) = []
current (some (file name)) = name ∷ []

-- Each file that was opened is closed, or it is the one that is open; and the log's own view of what
-- is written is what fwrite was given.
pub record IsTidy (o : LogFile) (text : Bytes) : Type 0 where
  pub closes : o.fopened ≡ o.fclosed ++ current o.fp
  pub written : texts o.writes ≡ text

-- Nothing is open.
pub record IsShut (o : LogFile) (text : Bytes) : Type 0 where
  pub closes : o.fopened ≡ o.fclosed
  pub written : texts o.writes ≡ text

pub close_file-IsShut : (o : LogFile) (text : Bytes) → IsTidy o text → IsShut (close_file o) text
unfolding close_file
close_file-IsShut o text h = closed o.fp refl
  where
    closed :
        (p : Option Stream)
        → p ≡ o.fp
        → IsShut
            (elim p [
              | none ↦ o
              | some stderr ↦ o
              | some (file name) ↦ record o { fp = none; fclosed = o.fclosed ++ name ∷ [] }
            ])
            text
    closed none e = record {
      closes = h.closes ∙ ap (λ p. o.fclosed ++ current p) (sym e) ∙ append-nil o.fclosed;
      written = h.written;
    }
    closed (some stderr) e = record {
      closes = h.closes ∙ ap (λ p. o.fclosed ++ current p) (sym e) ∙ append-nil o.fclosed;
      written = h.written;
    }
    closed (some (file name)) e = record {
      closes = h.closes ∙ ap (λ p. o.fclosed ++ current p) (sym e);
      written = h.written;
    }

open_file-IsTidy :
    (o : LogFile) (name text : Bytes) (opens : Bool)
    → IsShut o text
    → IsTidy (open_file o name opens) text
unfolding open_file
open_file-IsTidy o name text true h = record {
  closes = ap (λ l. l ++ name ∷ []) h.closes;
  written = h.written;
}
open_file-IsTidy o name text false h = record {
  closes = h.closes ∙ sym (append-nil o.fclosed);
  written = h.written;
}

roll_file-IsTidy :
    (k : Clock) (o : LogFile) (text : Bytes) → IsTidy o text → IsTidy (roll_file_locked k o) text
unfolding roll_file_locked
roll_file-IsTidy k o text h =
    let s = close_file-IsShut o text h in
    let p = record (close_file o) { fp = none; day = k.roll_mday } in
    open_file-IsTidy p (name_of p k.roll_date) text k.opens
      (record { closes = s.closes; written = s.written })

-- A file or stderr is there to be written to.
abbrev there : Option Stream → Bool
there none = false
there (some s) = true

roll_file_opens : (k : Clock) (o : LogFile) → there (roll_file_locked k o).fp ≡ true
unfolding roll_file_locked open_file
roll_file_opens k o = ground arith

reopened_lem :
    (k : Clock) (o : LogFile) (text : Bytes)
    → IsTidy o text
    → IsTidy (reopened k o) text × (there (reopened k o).fp ≡ true)
unfolding reopened
reopened_lem k o text h = by_stream o.fp refl
  where
    by_stream :
        (p : Option Stream)
        → p ≡ o.fp
        → IsTidy (elim p as (λ q. LogFile) [ none ↦ roll_file_locked k o | some _ ↦ o ]) text
          × (there (elim p as (λ q. LogFile) [ none ↦ roll_file_locked k o | some _ ↦ o ]).fp
              ≡ true)
    by_stream none e = (roll_file-IsTidy k o text h, roll_file_opens k o)
    by_stream (some s) e = (h, ap there (sym e))

fwrite-IsTidy :
    (t : Bytes) (o : LogFile) (text : Bytes)
    → IsTidy o text
    → there o.fp ≡ true
    → IsTidy (fwrite t o) (text ++ t)
unfolding fwrite
fwrite-IsTidy t o text h a = by_stream o.fp refl
  where
    by_stream :
        (p : Option Stream)
        → p ≡ o.fp
        → IsTidy
            (elim p [ none ↦ o | some s ↦ record o { writes = o.writes ++ (s, t) ∷ [] } ])
            (text ++ t)
    by_stream none e = absurd (no_stream (ap there e ∙ a))
      where
        no_stream : false ≡ true → ⊥
        no_stream x = cc
    by_stream (some s) e = record {
      closes = h.closes;
      written = texts-snoc o.writes s t ∙ ap (λ x. x ++ t) h.written;
    }

pub write_to_file-IsTidy :
    (k : Clock) (t : Bytes) (o : LogFile) (text : Bytes)
    → IsTidy o text
    → IsTidy (write_to_file k t o) (text ++ t)
unfolding write_to_file
write_to_file-IsTidy k t o text h =
    let p = if k.mday == o.day then o else roll_file_locked k o in
    let (c, d) = reopened_lem k p text (
      either_way (λ x. IsTidy x text) (k.mday == o.day) o (roll_file_locked k o) h
        (roll_file-IsTidy k o text h)) in
    fwrite-IsTidy t (reopened k p) text c d
