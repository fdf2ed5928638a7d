-- ===== src/AsyncLog/Order.antt =====
-- async_log.h: no line is lost and none is out of order.
use reactor_web_server.Common.{
  ℕ, ◌+◌, ◌-◌, ◌≤◌, ◌<◌, ◌≡◌, refl, ap, sym, ◌∙◌, true, List, [], ◌∷◌, ◌++◌, ltb, length,
  length-append, length-take, ℤ, pos, negsuc, if◌then◌else◌, Bool-cases, inl, inr, append-nil,
  append_assoc, arith, lt→ltb,
}
use reactor_web_server.Common.Text.{Bytes}
use reactor_web_server.AsyncLog.{
  AsyncLog, clamped, line_of, buffer_append, append_or_keep, store, swap_bufs, write_buf,
  flush_rest, shutdown,
}

abbrev pub concat : List Bytes → Bytes
concat [] = []
concat (b ∷ bs) = b ++ concat bs

concat-append : (bs cs : List Bytes) → concat (bs ++ cs) ≡ concat bs ++ concat cs
concat-append [] cs = refl
concat-append (b ∷ bs) cs =
    ap (λ x. b ++ x) (concat-append bs cs) ∙ sym (append_assoc b (concat bs) (concat cs))

concat_one : (bs : List Bytes) (b : Bytes) → concat (bs ++ b ∷ []) ≡ concat bs ++ b
concat_one bs b = concat-append bs (b ∷ []) ∙ ap (λ x. concat bs ++ x) (append-nil b)

-- All that the log was given, from the file on to the newest buffer.
abbrev pub contents : AsyncLog → Bytes
contents l = l.file ++ (concat l.bufs ++ (concat l.ready_bufs ++ l.cur_buf))

push_out : (f a b x : Bytes) → f ++ (a ++ (b ++ x)) ≡ (f ++ (a ++ b)) ++ x
push_out f a b x = ap (λ y. f ++ y) (sym (append_assoc a b x)) ∙ sym (append_assoc f (a ++ b) x)

module _ (capacity : ℕ) where
  kept_lem : (line : Bytes) → length line ≤ capacity → append_or_keep capacity [] line ≡ line
  unfolding append_or_keep buffer_append
  kept_lem line h = ground (arith, h)

  pub store-contents :
      (line : Bytes) (l : AsyncLog)
      → length line ≤ capacity
      → contents (store capacity line l) ≡ contents l ++ (if l.started then line else [])
  unfolding store buffer_append
  store-contents line l h = elim (Bool-cases l.started) [
    | inr off ↦ rw off (sym (append-nil (contents l)))
    | inl on ↦ elim (Bool-cases (ltb capacity (length l.cur_buf + length line))) [
      | inl full ↦
          rw (on, full)
            (rw (kept_lem line h) (
              ap (λ y. l.file ++ (concat l.bufs ++ (y ++ line))) (concat_one l.ready_bufs l.cur_buf)
              ∙ push_out l.file (concat l.bufs) (concat l.ready_bufs ++ l.cur_buf) line))
      | inr fits ↦
          rw (on, fits)
            (ap (λ y. l.file ++ (concat l.bufs ++ y))
                (sym (append_assoc (concat l.ready_bufs) l.cur_buf line))
              ∙ push_out l.file (concat l.bufs) (concat l.ready_bufs ++ l.cur_buf) line)
    ]
  ]

pub swapped_contents :
    (l : AsyncLog) (cur : Bytes)
    → l.cur_buf ≡ cur
    → l.bufs ≡ []
    → contents (swap_bufs l) ≡ contents l
unfolding swap_bufs
swapped_contents l [] c e = rw (c, e) refl
swapped_contents l (x ∷ xs) c e =
    rw (c, e)
      (ap (λ y. l.file ++ y)
        (append-nil (concat (l.ready_bufs ++ (x ∷ xs) ∷ [])) ∙ concat_one l.ready_bufs (x ∷ xs)))

pub write_buf-contents :
    (l : AsyncLog) (bs : List Bytes) → l.bufs ≡ bs → contents (write_buf l bs) ≡ contents l
unfolding write_buf
write_buf-contents l [] e = refl
write_buf-contents l (b ∷ bs) e =
    let later = concat l.ready_bufs ++ l.cur_buf in
    rw e (
      append_assoc l.file b (concat bs ++ later)
      ∙ ap (λ y. l.file ++ y) (sym (append_assoc b (concat bs) later)))

module _ (capacity : ℕ) where
  -- What the threads do to the log: lines that a buffer can hold, the shutdown, and the rounds of
  -- the back end.
  pub data Step : AsyncLog → AsyncLog → Type 0 where
    logs : (line : Bytes) (l : AsyncLog) → length line ≤ capacity → Step l (store capacity line l)
    stops : (l : AsyncLog) → Step l (shutdown l)
    swaps : (l : AsyncLog) → l.bufs ≡ [] → Step l (swap_bufs l)
    writes : (l : AsyncLog) → Step l (write_buf l l.bufs)

  pub data Steps : AsyncLog → AsyncLog → Type 0 where
    stays : (l : AsyncLog) → Steps l l
    goes_on : (l m n : AsyncLog) → Steps l m → Step m n → Steps l n

  abbrev pub logged : {l m : AsyncLog} → Step l m → Bytes
  logged (logs line l h) = if l.started then line else []
  logged (stops l) = []
  logged (swaps l e) = []
  logged (writes l) = []

  abbrev pub all_logged : {l m : AsyncLog} → Steps l m → Bytes
  all_logged (stays l) = []
  all_logged (goes_on l m n ss s) = all_logged ss ++ logged s

  Step-contents : (l m : AsyncLog) (s : Step l m) → contents m ≡ contents l ++ logged s
  unfolding shutdown
  Step-contents l _ (logs line _ h) = store-contents capacity line l h
  Step-contents l _ (stops _) = sym (append-nil (contents l))
  Step-contents l _ (swaps _ e) =
      swapped_contents l l.cur_buf refl e ∙ sym (append-nil (contents l))
  Step-contents l _ (writes _) = write_buf-contents l l.bufs refl ∙ sym (append-nil (contents l))

  -- However the threads that log, the shutdown and the back end are interleaved, the file and
  -- behind it the buffers, oldest first, hold the lines logged since, in order and complete.
  pub Steps-contents : (l m : AsyncLog) (ss : Steps l m) → contents m ≡ contents l ++ all_logged ss
  Steps-contents l _ (stays _) = sym (append-nil (contents l))
  Steps-contents l n (goes_on _ m _ ss s) =
      Step-contents m n s
      ∙ ap (λ k. k ++ logged s) (Steps-contents l m ss)
      ∙ append_assoc (contents l) (all_logged ss) (logged s)

  -- If no buffer is waiting when the stopped back end ends, the file holds everything.
  flush_rest_complete :
      (l m : AsyncLog) (ss : Steps l m)
      → m.bufs ≡ []
      → m.ready_bufs ≡ []
      → (flush_rest m).file ≡ contents l ++ all_logged ss
  unfolding flush_rest
  flush_rest_complete l m ss b r = rw (b, r) at (Steps-contents l m ss)

  -- If a buffer becomes full while the back end writes and the log is then stopped, the end of the
  -- back end writes the new buffer only: the full one stays in memory and never gets to the file.
  pub full_buffer_lost :
      (l : AsyncLog) (line : Bytes)
      → l.started ≡ true
      → length line ≤ capacity
      → capacity < length l.cur_buf + length line
      → ((flush_rest (shutdown (store capacity line l))).file ≡ l.file ++ line)
        × ((flush_rest (shutdown (store capacity line l))).ready_bufs
            ≡ l.ready_bufs ++ l.cur_buf ∷ [])
  unfolding flush_rest shutdown store buffer_append
  full_buffer_lost l line on h f =
      rw (on, lt→ltb capacity (length l.cur_buf + length line) f, kept_lem capacity line h)
        (refl, refl)

length-clamped : (size : ℕ) (text : Bytes) (n : ℤ) → length (clamped size text n) ≤ size - 1
unfolding clamped
length-clamped size text (negsuc _) = omega arith
length-clamped size text (pos n) = ground (arith, length-take n text, length-take (size - 1) text)

-- A line is at most 255 bytes of header, 1023 of message and the end of line, whatever snprintf
-- returned, so it fits line_buf and an empty buffer of 4 MB.
length-line_of : (header msg : Bytes × ℤ) → length (line_of header msg) ≤ 1279
unfolding line_of
length-line_of (header, hlen) (msg, mlen) = omega (
  arith,
  length-append (clamped 256 header hlen) (clamped 1024 msg mlen ++ b'\n' ∷ []),
  length-append (clamped 1024 msg mlen) (b'\n' ∷ []),
  length-clamped 256 header hlen,
  length-clamped 1024 msg mlen,
)
