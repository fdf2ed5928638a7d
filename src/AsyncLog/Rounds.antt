-- ===== src/AsyncLog/Rounds.antt =====
-- async_log.h: what one round of backend_loop writes.
use reactor_web_server.Common.{
  ℕ, ◌+◌, ◌≤◌, ◌≡◌, refl, ap, sym, ◌∙◌, Bool, false, List, [], ◌∷◌, ◌++◌, append-nil, append_assoc,
  if◌then◌else◌, length, arith, subst,
}
use reactor_web_server.Common.Text.{Bytes}
use reactor_web_server.AsyncLog.{AsyncLog, store, swap_bufs, write_buf, shutdown}
use reactor_web_server.AsyncLog.Order.{
  contents, store-contents, swapped_contents, write_buf-contents,
}
use reactor_web_server.AsyncLog.Backend.{
  Clock, write_to_file, Backend, Front, logs, stops, Round, do_all, write_all,
}
use reactor_web_server.AsyncLog.Draining.{IsTidy, write_to_file-IsTidy}

-- The lines that a log takes: those that come before it is stopped.
abbrev pub taken : Bool → List Front → Bytes
taken on [] = []
taken on (logs line ∷ fs) = (if on then line else []) ++ taken on fs
taken on (stops ∷ fs) = taken false fs

abbrev pub runs_on : Bool → List Front → Bool
runs_on on [] = on
runs_on on (logs line ∷ fs) = runs_on on fs
runs_on on (stops ∷ fs) = runs_on false fs

module _ (capacity : ℕ) where
  -- Each line fits an empty buffer.
  abbrev pub AllFit : List Front → Type 0
  AllFit [] = Unit
  AllFit (logs line ∷ fs) = (length line ≤ capacity) × AllFit fs
  AllFit (stops ∷ fs) = AllFit fs

  pub record Did (fs : List Front) (l m : AsyncLog) : Type 0 where
    pub text : contents m ≡ contents l ++ taken l.started fs
    pub on : m.started ≡ runs_on l.started fs
    pub same_file : m.file ≡ l.file
    pub same_bufs : m.bufs ≡ l.bufs

  store_keeps :
      (line : Bytes) (l : AsyncLog)
      → ((store capacity line l).started ≡ l.started)
        × ((store capacity line l).file ≡ l.file)
        × ((store capacity line l).bufs ≡ l.bufs)
  unfolding store
  store_keeps line l = (ground arith, ground arith, ground arith)

  pub do_all-Did : (fs : List Front) (l : AsyncLog) → AllFit fs → Did fs l (do_all capacity fs l)
  unfolding do_all shutdown
  do_all-Did [] l f = record {
    text = sym (append-nil (contents l));
    on = refl;
    same_file = refl;
    same_bufs = refl;
  }
  do_all-Did (stops ∷ fs) l f =
      let d = do_all-Did fs (shutdown l) f in
      record { text = d.text; on = d.on; same_file = d.same_file; same_bufs = d.same_bufs }
  do_all-Did (logs line ∷ fs) l (f, fs_fit) =
      let (a, b, c) = store_keeps line l in
      let d = do_all-Did fs (store capacity line l) fs_fit in
      record {
        text =
            d.text
            ∙ ap (λ x. x ++ taken (store capacity line l).started fs)
                (store-contents capacity line l f)
            ∙ append_assoc (contents l) (if l.started then line else [])
                (taken (store capacity line l).started fs)
            ∙ ap (λ on. contents l ++ ((if l.started then line else []) ++ taken on fs)) a;
        on = d.on ∙ ap (λ on. runs_on on fs) a;
        same_file = d.same_file ∙ b;
        same_bufs = d.same_bufs ∙ c;
      }

  record Wrote (b c : Backend) : Type 0 where
    pub text : contents c.log ≡ contents b.log
    pub on : c.log.started ≡ b.log.started
    pub no_bufs : c.log.bufs ≡ []
    pub tidy : IsTidy c.out c.log.file

  write_all-Wrote :
      (clock : ℕ → Clock) (bs : List Bytes) (i : ℕ) (b : Backend)
      → b.log.bufs ≡ bs
      → IsTidy b.out b.log.file
      → Wrote b (write_all capacity clock i bs b)
  unfolding write_all write_buf
  write_all-Wrote clock [] i b e h = record { text = refl; on = refl; no_bufs = e; tidy = h }
  write_all-Wrote clock (t ∷ ts) i b e h =
      let c : Backend = record {
        log = write_buf b.log (t ∷ ts);
        out = write_to_file (clock i) t b.out;
      } in
      let w =
        write_all-Wrote clock ts (i + 1) c refl
          (write_to_file-IsTidy (clock i) t b.out b.log.file h) in
      record {
        text = w.text ∙ write_buf-contents b.log (t ∷ ts) e;
        on = w.on;
        no_bufs = w.no_bufs;
        tidy = w.tidy;
      }

  swap_bufs_keeps :
      (l : AsyncLog) → ((swap_bufs l).started ≡ l.started) × ((swap_bufs l).file ≡ l.file)
  unfolding swap_bufs
  swap_bufs_keeps l = (ground arith, ground arith)

  -- Up to the test of m_started.
  pub record Rounded (r : Round) (b d : Backend) : Type 0 where
    pub text :
        contents d.log
        ≡ contents b.log
          ++ (taken b.log.started r.before ++ taken (runs_on b.log.started r.before) r.meanwhile)
    pub on : d.log.started ≡ runs_on (runs_on b.log.started r.before) r.meanwhile
    pub no_bufs : d.log.bufs ≡ []
    pub tidy : IsTidy d.out d.log.file

  abbrev pub at_test : Round → Backend → Backend
  at_test r b =
      let l = swap_bufs (do_all capacity r.before b.log) in
      let c = write_all capacity r.clock 1 l.bufs (record { log = l; out = b.out }) in
      record c { log = do_all capacity r.meanwhile c.log }

  pub at_test-Rounded :
      (r : Round) (b : Backend)
      → AllFit r.before
      → AllFit r.meanwhile
      → b.log.bufs ≡ []
      → IsTidy b.out b.log.file
      → Rounded r b (at_test r b)
  at_test-Rounded r b f g e h =
      let k = do_all capacity r.before b.log in
      let d = do_all-Did r.before b.log f in
      let (s, same) = swap_bufs_keeps k in
      let l = swap_bufs k in
      let w =
        write_all-Wrote r.clock l.bufs 1 (record { log = l; out = b.out }) refl
          (subst (IsTidy b.out) (sym (same ∙ d.same_file)) h) in
      let c = write_all capacity r.clock 1 l.bufs (record { log = l; out = b.out }) in
      let m = do_all-Did r.meanwhile c.log g in
      let on = w.on ∙ s ∙ d.on in
      record {
        text =
            m.text
            ∙ ap (λ x. x ++ taken c.log.started r.meanwhile)
                (w.text ∙ swapped_contents k k.cur_buf refl (d.same_bufs ∙ e) ∙ d.text)
            ∙ append_assoc (contents b.log) (taken b.log.started r.before)
                (taken c.log.started r.meanwhile)
            ∙ ap (λ x. contents b.log ++ (taken b.log.started r.before ++ taken x r.meanwhile)) on;
        on = m.on ∙ ap (λ x. runs_on x r.meanwhile) on;
        no_bufs = m.same_bufs ∙ w.no_bufs;
        tidy = subst (IsTidy c.out) (sym m.same_file) w.tidy;
      }
