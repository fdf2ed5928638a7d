-- ===== src/Http/Line/Bounds.antt =====
-- parse_line of http_conn.cpp stays inside the bytes that were read.
use reactor_web_server.Common.{
  ℕ, zero, suc, ◌+◌, ◌-◌, ◌≤◌, ◌<◌, ◌≡◌, refl, ◌==◌, length, length-set, set, get_or, Bool-cases,
  inl, inr, arith,
}
use reactor_web_server.Common.Text.{Bytes}
use reactor_web_server.Http.{line_ok}
use reactor_web_server.Http.Line.{Scan, at_cr, at_lf, scan}

-- What every scan from an index to the end of the read bytes leaves.
pub record Scanned (i r : ℕ) (buf : Bytes) (s : Scan) : Type 0 where
  pub forward : i ≤ s.checked
  pub inside : s.checked ≤ r
  pub same_size : length s.buf ≡ length buf
  pub progress : s.status ≡ line_ok → i < s.checked

at_cr-Scanned : (buf : Bytes) (i r : ℕ) → i < r → Scanned i r buf (at_cr buf i r)
unfolding at_cr
at_cr-Scanned buf i r h = ground (arith, length-set buf i 0, length-set (set buf i 0) (i + 1) 0)

at_lf-Scanned : (buf : Bytes) (i r : ℕ) → i < r → Scanned i r buf (at_lf buf i)
unfolding at_lf
at_lf-Scanned buf i r h =
    ground (arith, length-set buf (i - 1) 0, length-set (set buf (i - 1) 0) i 0)

pub scan-Scanned : (n : ℕ) (buf : Bytes) (i r : ℕ) → i + n ≡ r → Scanned i r buf (scan n buf i r)
unfolding scan
scan-Scanned zero buf i r e = record {
  forward = omega arith;
  inside = omega arith;
  same_size = refl;
  progress = λ h. cc;
}
scan-Scanned (suc n) buf i r e = elim (Bool-cases (get_or buf i 0 == b'\r')) [
  | inl cr ↦ rw cr (at_cr-Scanned buf i r (omega arith))
  | inr no_cr ↦ rw no_cr (elim (Bool-cases (get_or buf i 0 == b'\n')) [
    | inl lf ↦ rw lf (at_lf-Scanned buf i r (omega arith))
    | inr no_lf ↦ rw no_lf (later (scan-Scanned n buf (i + 1) r (omega arith)))
  ])
]
  where
    later : {s : Scan} → Scanned (i + 1) r buf s → Scanned i r buf s
    later t = record {
      forward = omega arith;
      inside = t.inside;
      same_size = t.same_size;
      progress = λ h. omega (arith, t.progress h);
    }
