-- ===== src/Http/Response/Numbers.antt =====
-- http_conn.cpp: a Content-Length that process_write prints, as parse_headers reads it.
use reactor_web_server.Common.{
  ℕ, zero, suc, ◌+◌, ◌/◌, ◌%◌, ◌^◌, ◌≤◌, ◌<◌, ◌≡◌, refl, ap, ◌∙◌, Bool, true, false, ◌&&◌, leb,
  ◌==◌, none, some, arith, [], ◌∷◌, length, take_all, if◌then◌else◌, pos,
}
use native.Mathlib.Nat.{pow-suc}
use reactor_web_server.Common.Text.{Bytes, digits_value, is_digit, count_digits, skip_sign, strtol}
use reactor_web_server.Http.{read_buffer_size}
use reactor_web_server.Http.Header.{is_number, in_range, content_length_value}
use reactor_web_server.Http.Response.{decimal_onto, decimal}
use reactor_web_server.Http.Response.Head.{digits_value-decimal}

abbrev all_digits : Bytes → Bool
all_digits [] = true
all_digits (x ∷ xs) = is_digit x && all_digits xs

digit_is_digit : (n : ℕ) → is_digit (b'0' + n % 10) ≡ true
unfolding is_digit
digit_is_digit n = ground arith

decimal_onto-all_digits :
    (f n : ℕ) (acc : Bytes) → all_digits acc ≡ true → all_digits (decimal_onto f n acc) ≡ true
unfolding decimal_onto
decimal_onto-all_digits zero n acc h = h
decimal_onto-all_digits (suc f) n acc h =
    let more =
      decimal_onto-all_digits f (n / 10) ((b'0' + n % 10) ∷ acc)
        (ground (arith, h, digit_is_digit n)) in
    ground (arith, more, h, digit_is_digit n)

-- Enough digits for the number: `k` and one more.
decimal_onto-digits :
    (k f n : ℕ) (acc : Bytes) → n < 10 ^ suc k → length (decimal_onto f n acc) ≤ suc k + length acc
unfolding decimal_onto
decimal_onto-digits k zero n acc h = omega arith
decimal_onto-digits zero (suc f) n acc h = ground (arith, pow-suc 10 0)
decimal_onto-digits (suc k) (suc f) n acc h = ground (
  arith,
  decimal_onto-digits k f (n / 10) ((b'0' + n % 10) ∷ acc) (omega (arith, pow-suc 10 (suc k))),
)

decimal_onto-filled :
    (f n : ℕ) (acc : Bytes) → 1 ≤ f + length acc → 1 ≤ length (decimal_onto f n acc)
unfolding decimal_onto
decimal_onto-filled zero n acc h = omega (arith, h)
decimal_onto-filled (suc f) n acc h =
    ground (arith, decimal_onto-filled f (n / 10) ((b'0' + n % 10) ∷ acc) (omega arith))

count_digits_all : (ds : Bytes) → all_digits ds ≡ true → count_digits ds ≡ length ds
unfolding count_digits
count_digits_all [] h = refl
count_digits_all (d ∷ ds) h = ground (arith, count_digits_all ds)

module _ (d : ℕ) (ds : Bytes) (h : all_digits (d ∷ ds) ≡ true) where
  no_sign : skip_sign (d ∷ ds) ≡ d ∷ ds
  unfolding skip_sign is_digit
  no_sign = ground (arith, h)

  no_minus : (d == b'-') ≡ false
  unfolding is_digit
  no_minus = ground (arith, h)

  strtol_digits :
      digits_value 0 (d ∷ ds) < 2 ^ 63 → strtol (d ∷ ds) ≡ (pos (digits_value 0 (d ∷ ds)), false)
  unfolding strtol
  strtol_digits v =
      rw
        (
          no_sign,
          no_minus,
          count_digits_all (d ∷ ds) h,
          take_all (length (d ∷ ds)) (d ∷ ds) (omega arith),
          below (digits_value 0 (d ∷ ds)) v,
        )
        refl
    where
      below : (n : ℕ) → n < 2 ^ 63 → leb (2 ^ 63) n ≡ false
      below n b = ground arith

  digits-is_number : length (d ∷ ds) ≤ 10 → is_number (d ∷ ds) ≡ true
  unfolding is_number
  digits-is_number k = rw (no_sign, count_digits_all (d ∷ ds) h) (ground arith)

  -- A text of one to ten digits, as parse_headers reads it.
  plain_number :
      length (d ∷ ds) ≤ 10
      → digits_value 0 (d ∷ ds) < 2 ^ 63
      → content_length_value (d ∷ ds) ≡ (
          if leb read_buffer_size (digits_value 0 (d ∷ ds))
          then none
          else some (digits_value 0 (d ∷ ds)))
  unfolding content_length_value in_range
  plain_number k v = rw (digits-is_number k, strtol_digits v) refl

plain_text :
    (p : Bytes) (n : ℕ)
    → 1 ≤ length p
    → all_digits p ≡ true
    → length p ≤ 10
    → digits_value 0 p ≡ n
    → n < 2 ^ 63
    → content_length_value p ≡ (if leb read_buffer_size n then none else some n)
plain_text [] n f h k e v = absurd (omega arith)
plain_text (d ∷ ds) n f h k e v =
    plain_number d ds h k (omega (arith, e))
    ∙ ap (λ m. if leb read_buffer_size m then none else some m) e

-- A Content-Length of up to ten digits that the server prints, it reads back as the same number if that is
-- below READ_BUFFER_SIZE, and refuses with 400 otherwise: the printer of process_write and the
-- checks and strtol of parse_headers agree on every such number.
pub content_length_value-decimal :
    (n : ℕ)
    → n < 10 ^ 10
    → content_length_value (decimal n) ≡ (if leb read_buffer_size n then none else some n)
unfolding decimal
content_length_value-decimal n h =
    plain_text (decimal n) n (decimal_onto-filled 20 n [] (omega arith))
      (decimal_onto-all_digits 20 n [] refl) (omega (arith, decimal_onto-digits 9 20 n [] h))
      (digits_value-decimal n (omega (arith, h))) (omega (arith, h))
