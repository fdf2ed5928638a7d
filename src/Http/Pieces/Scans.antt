-- ===== src/Http/Pieces/Scans.antt =====
-- The scanner of parse_line in http_conn.cpp with more bytes read.
use reactor_web_server.Common.{
  ℕ, zero, suc, ◌+◌, ◌-◌, ◌≤◌, ◌<◌, ◌≡◌, ◌≢◌, true, refl, ap, ◌∙◌, length, length-set, drop, get_or,
  set, leb, ◌&&◌, get_or-take_append, arith, ◌++◌, ◌==◌, Bool-cases, inl, inr,
}
use reactor_web_server.Common.Text.{Bytes}
use reactor_web_server.Http.{LineStatus, line_ok, line_bad, line_open}
use reactor_web_server.Http.Line.Find.{scan_byte}
use reactor_web_server.Http.Line.{Scan, at_cr, at_lf, scan}
use reactor_web_server.Http.Read.Store.{splice}
use reactor_web_server.Http.Pieces.Buffer.{splice-set}

-- The scanner with more bytes `bs` read: a line that it had found it finds again, and where it had
-- found none, starting anew from where it had stopped makes no difference.
pub record More (bs buf : Bytes) (r : ℕ) (more s : Scan) : Type 0 where
  pub found :
      s.status ≡ line_ok
      → more ≡ record { status = line_ok; buf = splice r bs s.buf; checked = s.checked }
  pub pending :
      s.status ≢ line_ok
      → (s.buf ≡ buf)
        × (more ≡ scan (r + length bs - s.checked) (splice r bs buf) s.checked (r + length bs))

scan_cr : (n i r : ℕ) (xs : Bytes) → get_or xs i 0 ≡ b'\r' → scan (suc n) xs i r ≡ at_cr xs i r
unfolding scan
scan_cr n i r xs h = ground arith

scan_lf : (n i r : ℕ) (xs : Bytes) → get_or xs i 0 ≡ b'\n' → scan (suc n) xs i r ≡ at_lf xs i
unfolding scan
scan_lf n i r xs h = ground arith

module _ (bs buf : Bytes) (r : ℕ) (fit : r ≤ length buf) where
  -- The scan over all bytes, by the rounds that are left.
  unfoldable pub over : ℕ → ℕ → Scan
  over n i = scan n (splice r bs buf) i (r + length bs)

  old_byte : (i : ℕ) → i < r → get_or (splice r bs buf) i 0 ≡ get_or buf i 0
  old_byte i h = get_or-take_append r buf (bs ++ drop (r + length bs) buf) i 0 h fit

  set_twice :
      (i j : ℕ)
      → i < r
      → j < r
      → set (set (splice r bs buf) i 0) j 0 ≡ splice r bs (set (set buf i 0) j 0)
  set_twice i j h k =
      ap (λ xs. set xs j 0) (splice-set r bs buf i 0 h fit)
      ∙ splice-set r bs (set buf i 0) j 0 k (omega (arith, length-set buf i 0))

  stays :
      (n i : ℕ) (s : LineStatus)
      → s ≢ line_ok
      → i + n ≡ r + length bs
      → More bs buf r (over n i) (record { status = s; buf = buf; checked = i })
  unfolding over
  stays n i s h e = record {
    found = λ f. absurd (h f);
    pending = λ f. (refl, ap (λ m. scan m (splice r bs buf) i (r + length bs)) (omega arith));
  }

  finds :
      (s t : Scan)
      → t.status ≡ line_ok
      → s ≡ record { status = line_ok; buf = splice r bs t.buf; checked = t.checked }
      → More bs buf r s t
  finds s t h e = record { found = λ f. e; pending = λ f. absurd (f h) }

  cr_found :
      (n i : ℕ)
      → i + 1 < r
      → get_or buf i 0 ≡ b'\r'
      → get_or buf (i + 1) 0 ≡ b'\n'
      → over (suc n) i ≡ record {
        status = line_ok;
        buf = splice r bs (set (set buf i 0) (i + 1) 0);
        checked = i + 2;
      }
  unfolding over at_cr
  cr_found n i l h k =
      scan_cr n i (r + length bs) (splice r bs buf) (old_byte i (omega arith) ∙ h)
      ∙ ground (arith, old_byte (i + 1) l, set_twice i (i + 1) (omega arith) l)

  at_cr-More :
      (n i : ℕ)
      → i < r
      → i + suc n ≡ r + length bs
      → get_or buf i 0 ≡ b'\r'
      → More bs buf r (over (suc n) i) (at_cr buf i r)
  unfolding at_cr
  at_cr-More n i l e h = elim (Bool-cases (i + 1 == r)) [
    | inl a ↦ rw a (stays (suc n) i line_open (λ f. cc) e)
    | inr a ↦ rw a (elim (Bool-cases (get_or buf (i + 1) 0 == b'\n')) [
      | inl b ↦ rw b (finds _ _ refl (cr_found n i (ground arith) h (ground arith)))
      | inr b ↦ rw b (stays (suc n) i line_bad (λ f. cc) e)
    ])
  ]

  lf_found :
      (n i : ℕ)
      → i < r
      → get_or buf i 0 ≡ b'\n'
      → (leb 1 i && get_or buf (i - 1) 0 == b'\r') ≡ true
      → over (suc n) i ≡ record {
        status = line_ok;
        buf = splice r bs (set (set buf (i - 1) 0) i 0);
        checked = i + 1;
      }
  unfolding over at_lf
  lf_found n i l h k =
      scan_lf n i (r + length bs) (splice r bs buf) (old_byte i l ∙ h)
      ∙ rw (old_byte (i - 1) (omega arith), k, set_twice (i - 1) i (omega arith) l)

  at_lf-More :
      (n i : ℕ)
      → i < r
      → i + suc n ≡ r + length bs
      → get_or buf i 0 ≡ b'\n'
      → More bs buf r (over (suc n) i) (at_lf buf i)
  unfolding at_lf
  at_lf-More n i l e h = elim (Bool-cases (leb 1 i && get_or buf (i - 1) 0 == b'\r')) [
    | inl b ↦ rw b (finds _ _ refl (lf_found n i l h b))
    | inr b ↦ rw b (stays (suc n) i line_bad (λ f. cc) e)
  ]

  over_other :
      (n i x : ℕ)
      → i < r
      → get_or buf i 0 ≡ x
      → x ≢ b'\r'
      → x ≢ b'\n'
      → over (suc n) i ≡ over n (i + 1)
  unfolding over
  over_other n i x l e h k =
      scan_byte n i (r + length bs) x (splice r bs buf) (old_byte i l ∙ e) h k

  pub scan-More :
      (n m i : ℕ) → i + n ≡ r → i + m ≡ r + length bs → More bs buf r (over m i) (scan n buf i r)
  unfolding scan
  scan-More zero m i e f = stays m i line_open (λ g. cc) f
  scan-More (suc n) zero i e f = absurd (omega arith)
  scan-More (suc n) (suc m) i e f = elim (Bool-cases (get_or buf i 0 == b'\r')) [
    | inl a ↦ rw a (at_cr-More m i (omega arith) f (ground arith))
    | inr a ↦ rw a (elim (Bool-cases (get_or buf i 0 == b'\n')) [
      | inl b ↦ rw b (at_lf-More m i (omega arith) f (ground arith))
      | inr b ↦
          rw
            (
              b,
              over_other m i (get_or buf i 0) (omega arith) refl (λ k. ground arith)
                  (λ k. ground arith),
            )
            (scan-More n m (i + 1) (omega arith) (omega arith))
    ])
  ]
