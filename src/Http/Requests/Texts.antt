-- ===== src/Http/Requests/Texts.antt =====
-- The C library's text functions, as the parser of http_conn.cpp calls them, on well-formed texts.
use reactor_web_server.Common.{
  ℕ, ◌≡◌, ◌≢◌, refl, false, some, [], ◌∷◌, ◌++◌, All, arith, length, set, ap, suc, zero, ◌<◌,
}
use reactor_web_server.Common.Text.{
  Bytes, c_str, split_at, to_lower, strcaseeq, strncaseeq, skip_blanks, first,
}
use reactor_web_server.Http.RequestLine.{is_blank}

-- A byte that can stand in a line: not NUL, and no part of an end of line.
abbrev pub IsPlain : ℕ → Type 0
IsPlain b = (b ≢ 0) × (b ≢ b'\r') × (b ≢ b'\n')

pub c_str-append : (line ys : Bytes) → All IsPlain line → c_str (line ++ 0 ∷ ys) ≡ line
unfolding c_str
c_str-append [] ys h = refl
c_str-append (x ∷ xs) ys h = ground (arith, c_str-append xs ys h.1)

pub split_at-append :
    (x : ℕ) (a b : Bytes) → All (λ y. y ≢ x) a → split_at x (a ++ x ∷ b) ≡ some (a, b)
unfolding split_at
split_at-append x [] b h = ground arith
split_at-append x (y ∷ a) b h = ground (arith, split_at-append x a b h.1)

pub skip_blanks-first : (v : Bytes) → is_blank (first v) ≡ false → skip_blanks v ≡ v
unfolding skip_blanks
skip_blanks-first [] h = refl
skip_blanks-first (x ∷ v) h = rw h refl

to_lower-colon : (x : ℕ) → x ≢ b':' → to_lower x ≢ b':'
unfolding to_lower
to_lower-colon x h = λ e. ground arith

-- A name in front of its colon, compared with the name that the code looks for.
pub strncaseeq-name :
    (name t v : Bytes)
    → All (λ y. y ≢ b':') name
    → All (λ y. y ≢ b':') t
    → strncaseeq (name ++ b':' ∷ v) (t ++ b':' ∷ []) ≡ strcaseeq name t
unfolding strncaseeq strcaseeq
strncaseeq-name [] [] v h k = refl
strncaseeq-name [] (y ∷ t) v h k = ground (arith, to_lower-colon y k.0)
strncaseeq-name (x ∷ xs) [] v h k = ground (arith, to_lower-colon x h.0)
strncaseeq-name (x ∷ xs) (y ∷ t) v h k = rw (strncaseeq-name xs t v h.1 k.1) refl

pub set-append_front :
    (xs ys : Bytes) (i v : ℕ) → i < length xs → set (xs ++ ys) i v ≡ set xs i v ++ ys
set-append_front [] ys i v h = absurd (omega arith)
set-append_front (x ∷ xs) ys zero v h = refl
set-append_front (x ∷ xs) ys (suc i) v h = ap (◌∷◌ x) (set-append_front xs ys i v (omega arith))
