-- ===== src/Http/Line/Find.antt =====
-- What parse_line of http_conn.cpp finds: a line up to "\r\n", no end of line, or a stray byte.
use reactor_web_server.Common.{
  ℕ, zero, suc, refl, ◌+◌, ◌-◌, ◌≤◌, ◌<◌, ◌≡◌, ◌≢◌, ap, ◌∙◌, length, length-append, get_or,
  get_or-append_add, set-append, set-append_add, get_or-append, inl, inr, ◌⊎◌, arith, [], ◌∷◌, ◌++◌,
  append_assoc, All,
}
use native.Mathlib.Nat.{add-zero}
use reactor_web_server.Common.Text.{Bytes}
use reactor_web_server.Http.{HttpConn, line_ok, line_bad, line_open}
use reactor_web_server.Http.Line.{Scan, at_cr, at_lf, scan, parse_line}

-- No end of line inside.
abbrev pub IsLine : Bytes → Type 0
IsLine = All (λ b. (b ≢ b'\r') × (b ≢ b'\n'))

pub scan_byte :
    (n i r x : ℕ) (buf : Bytes)
    → get_or buf i 0 ≡ x
    → x ≢ b'\r'
    → x ≢ b'\n'
    → scan (suc n) buf i r ≡ scan n buf (i + 1) r
unfolding scan
scan_byte n i r x buf e h k = ground arith

at_cr_ends :
    (pre rest : Bytes) (r : ℕ)
    → length pre + 2 ≤ r
    → at_cr (pre ++ b'\r' ∷ b'\n' ∷ rest) (length pre) r
      ≡ record { status = line_ok; buf = pre ++ 0 ∷ 0 ∷ rest; checked = length pre + 2 }
unfolding at_cr
at_cr_ends pre rest r h = ground (
  arith,
  get_or-append_add pre (b'\r' ∷ b'\n' ∷ rest) 1 0,
  set-append pre b'\r' 0 (b'\n' ∷ rest),
  set-append_add pre (0 ∷ b'\n' ∷ rest) 1 0,
)

-- A line that ends in "\r\n" inside the read bytes is found, and its end overwritten.
pub scan-line :
    (line pre rest : Bytes) (n r : ℕ)
    → IsLine line
    → length pre + n ≡ r
    → length line + 2 ≤ n
    → scan n (pre ++ (line ++ b'\r' ∷ b'\n' ∷ rest)) (length pre) r ≡ record {
      status = line_ok;
      buf = pre ++ (line ++ 0 ∷ 0 ∷ rest);
      checked = length pre + length line + 2;
    }
scan-line line pre rest zero r t e h = absurd (omega arith)
scan-line [] pre rest (suc n) r t e h =
    unfold scan in
    ground (
      arith,
      get_or-append pre b'\r' 0 (b'\n' ∷ rest),
      at_cr_ends pre rest r,
      add-zero (length pre),
    )
scan-line (x ∷ xs) pre rest (suc n) r t e h =
    scan_byte n (length pre) r x _ (get_or-append pre x 0 _) t.0.0 t.0.1
    ∙ ground (
      arith,
      append_assoc pre (x ∷ []) (xs ++ b'\r' ∷ b'\n' ∷ rest),
      append_assoc pre (x ∷ []) (xs ++ 0 ∷ 0 ∷ rest),
      length-append pre (x ∷ []),
      scan-line xs (pre ++ x ∷ []) rest n r t.1,
    )

-- Without an end of line all the read bytes are looked at, and nothing is changed.
pub scan_open :
    (line pre rest : Bytes) (r : ℕ)
    → IsLine line
    → length pre + length line ≡ r
    → scan (length line) (pre ++ (line ++ rest)) (length pre) r
      ≡ record { status = line_open; buf = pre ++ (line ++ rest); checked = r }
scan_open [] pre rest r t e = unfold scan in ground arith
scan_open (x ∷ xs) pre rest r t e =
    scan_byte (length xs) (length pre) r x _ (get_or-append pre x 0 _) t.0.0 t.0.1
    ∙ ground (
      arith,
      append_assoc pre (x ∷ []) (xs ++ rest),
      length-append pre (x ∷ []),
      scan_open xs (pre ++ x ∷ []) rest r t.1,
    )

-- An end of line that the scanner does not accept: '\r' with another byte than '\n' read behind
-- it, or '\n' with no '\r' in front.
abbrev pub Stray : Bytes → ℕ → ℕ → Type 0
Stray buf i r =
    ((get_or buf i 0 ≡ b'\r') × (i + 1 < r) × (get_or buf (i + 1) 0 ≢ b'\n'))
    ⊎ ((get_or buf i 0 ≡ b'\n') × ((i ≡ 0) ⊎ (get_or buf (i - 1) 0 ≢ b'\r')))

-- A connection's next line, as far as it is read, comes to an end of line that the scanner does not
-- accept: the first end of line is at `p`.
pub record EndsStray (p : ℕ) (c : HttpConn) : Type 0 where
  pub ahead : c.checked_idx ≤ p
  pub unread : p < c.read_idx
  pub clean :
      (i : ℕ)
      → c.checked_idx ≤ i
      → i < p
      → (get_or c.read_buf i 0 ≢ b'\r') × (get_or c.read_buf i 0 ≢ b'\n')
  pub stray : Stray c.read_buf p c.read_idx

scan-Stray :
    (n : ℕ) (buf : Bytes) (i r : ℕ)
    → 0 < n
    → Stray buf i r
    → scan n buf i r ≡ record { status = line_bad; buf = buf; checked = i }
unfolding scan at_cr at_lf
scan-Stray zero buf i r h s = absurd (omega arith)
scan-Stray (suc n) buf i r h (inl s) = ground arith
scan-Stray (suc n) buf i r h (inr s) = ground arith

scan_clean :
    (k n i r : ℕ) (buf : Bytes)
    → ((j : ℕ) → i ≤ j → j < i + k → (get_or buf j 0 ≢ b'\r') × (get_or buf j 0 ≢ b'\n'))
    → scan (k + n) buf i r ≡ scan n buf (i + k) r
scan_clean zero n i r buf h = ground (arith, add-zero i)
scan_clean (suc k) n i r buf h =
    let (cr, lf) = h i (omega arith) (omega arith) in
    ap (λ j. scan j buf i r) (omega arith)
    ∙ scan_byte (k + n) i r (get_or buf i 0) buf refl cr lf
    ∙ scan_clean k n (i + 1) r buf (λ j l m. h j (omega arith) (omega arith))
    ∙ ap (λ j. scan n buf j r) (omega arith)

-- There the scanner stops, with the bytes unchanged.
pub parse_line_stray :
    (p : ℕ) (c : HttpConn) → EndsStray p c → parse_line c ≡ (line_bad, record c { checked_idx = p })
unfolding parse_line
parse_line_stray p c s =
    let k : ℕ = p - c.checked_idx in
    let n : ℕ = c.read_idx - p in
    ap (λ (t : Scan). (t.status, record c { read_buf = t.buf; checked_idx = t.checked }))
      (ap (λ j. scan j c.read_buf c.checked_idx c.read_idx) (omega (arith, s.ahead, s.unread))
        ∙ scan_clean k n c.checked_idx c.read_idx c.read_buf
            (λ j l m. s.clean j l (omega (arith, s.ahead)))
        ∙ ap (λ i. scan n c.read_buf i c.read_idx) (omega (arith, s.ahead))
        ∙ scan-Stray n c.read_buf p c.read_idx (omega (arith, s.unread)) s.stray)
