-- ===== src/Http/Response/Head.antt =====
-- The response head of http_conn.cpp: it fits its array, and says what is sent.
use reactor_web_server.Common.{
  ℕ, zero, suc, ◌+◌, ◌-◌, ◌/◌, ◌%◌, ◌^◌, ◌≤◌, ◌<◌, ◌≡◌, ap, ◌∙◌, Bool, true, false, ◌&&◌, not, ltb,
  Bool-cases, Option-cases, inl, inr, arith, [], ◌∷◌, length, length-append, take, take_all,
  take-append, some,
}
use native.Mathlib.Nat.{pow-suc}
use reactor_web_server.Http.Header.{is_empty}
use reactor_web_server.Common.Text.{Bytes, codes, equal, digits_value, strrchr}
use reactor_web_server.Http.{HttpCode, no_request}
use reactor_web_server.Http.Response.{
  type_of_suffix, get_content_type, decimal_onto, decimal, Answer, answer, head_text, head_size,
  snprintf, content_type_of,
}

decimal_onto-length : (f n : ℕ) (acc : Bytes) → length (decimal_onto f n acc) ≤ f + length acc
unfolding decimal_onto
decimal_onto-length zero n acc = omega arith
decimal_onto-length (suc f) n acc =
    ground (arith, decimal_onto-length f (n / 10) ((b'0' + n % 10) ∷ acc))

decimal-length : (n : ℕ) → length (decimal n) ≤ 20
unfolding decimal
decimal-length n = decimal_onto-length 20 n []

-- Printing and reading a number.
digits_onto :
    (f n : ℕ) (rest : Bytes)
    → n < 10 ^ f
    → digits_value 0 (decimal_onto f n rest) ≡ digits_value n rest
unfolding decimal_onto digits_value
digits_onto zero n rest h = ap (λ (k : ℕ). digits_value k rest) (omega arith)
digits_onto (suc f) n rest h = elim (Bool-cases (ltb n 10)) [
  | inl last ↦ rw last (ap (λ (k : ℕ). digits_value k rest) (ground arith))
  | inr more ↦ rw more (
      digits_onto f (n / 10) ((b'0' + n % 10) ∷ rest) (omega (arith, pow-suc 10 f))
      ∙ ap (λ (k : ℕ). digits_value k rest) (omega arith))
]

-- Every number of 64 bits is printed so that it reads back.
pub digits_value-decimal : (n : ℕ) → n < 2 ^ 64 → digits_value 0 (decimal n) ≡ n
unfolding decimal digits_value
digits_value-decimal n h = digits_onto 20 n [] (omega arith)

type_of_suffix-length : (dot : Bytes) → length (type_of_suffix dot) ≤ 24
unfolding type_of_suffix
type_of_suffix-length dot = ground arith

get_content_type-length : (url : Bytes) → length (get_content_type url) ≤ 24
unfolding get_content_type
get_content_type-length url = elim (Option-cases (strrchr b'.' url)) [
  | inl e ↦ rw (e, get_content_type) (omega arith)
  | inr (dot, e) ↦ rw (e, get_content_type) (type_of_suffix-length dot)
]

pub content_type_of-length : (b : Bool) (url : Bytes) → length (content_type_of b url) ≤ 24
unfolding content_type_of
content_type_of-length b url =
    elim (Bool-cases (b && (not (is_empty url) && not (equal url (codes "/"))))) [
      | inl e ↦ rw e (get_content_type-length url)
      | inr e ↦ rw e (omega arith)
    ]

pub answer-title-length : (ret : HttpCode) {a : Answer} → answer ret ≡ some a → length a.title ≤ 21
unfolding answer
answer-title-length no_request h = cc
answer-title-length _ h = ground arith

-- The formatted head is shorter than the array that it is printed into.
pub head_text-length :
    (status : ℕ) (title : Bytes) (n : ℕ) (ctype : Bytes) (linger : Bool)
    → length title ≤ 21
    → length ctype ≤ 24
    → length (head_text status title n ctype linger) < head_size
unfolding head_text
head_text-length status title n ctype true h k =
    omega (arith, length-append {0}, decimal-length status, decimal-length n)
head_text-length status title n ctype false h k =
    omega (arith, length-append {0}, decimal-length status, decimal-length n)

pub snprintf_fits :
    (text : Bytes)
    → length text < head_size
    → take (snprintf head_size text).1 (snprintf head_size text).0 ≡ text
unfolding snprintf
snprintf_fits text h = rw (take_all (head_size - 1) text (omega arith)) (take-append text (0 ∷ []))
