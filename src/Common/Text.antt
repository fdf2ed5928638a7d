-- ===== src/Common/Text.antt =====
-- The functions of <cstring>, <strings.h> and <cstdlib> that the parser calls, over texts without
-- their final NUL. A byte is a number.
use Prim.Native.Char.{code}
use Prim.Native.String.{String}
use Prim.Native.Nat.{ℕ, zero, suc, ◌+◌, ◌-◌, ◌*◌, ◌^◌}
use reactor_web_server.Common.Int.{ℤ, pos, negsuc}
use mathlib.Core.Bool.{Bool, true, false, ◌&&◌, ◌||◌}
use mathlib.Core.Option.{Option, none, some}
use mathlib.Core.List.{List, [], ◌∷◌}
use reactor_web_server.Common.Tests.{leb, ltb, ◌==◌, if◌then◌else◌}
use reactor_web_server.Common.Lists.{take}

abbrev pub Bytes : Type 0
Bytes = List ℕ

-- The bytes of an ASCII literal.
abbrev pub codes : String → Bytes
codes String.[] = []
codes (String.◌∷◌ c s) = code c ∷ codes s

-- The C string at the front of a memory: the bytes before the first NUL.
unfoldable pub c_str : Bytes → Bytes
c_str [] = []
c_str (c ∷ cs) = if c == 0 then [] else c ∷ c_str cs

unfoldable pub to_lower : ℕ → ℕ
to_lower c = if leb b'A' c && leb c b'Z' then c + 32 else c

-- strcasecmp(s, t) == 0
unfoldable pub strcaseeq : Bytes → Bytes → Bool
unfolding to_lower
strcaseeq [] [] = true
strcaseeq (x ∷ xs) (y ∷ ys) = to_lower x == to_lower y && strcaseeq xs ys
strcaseeq _ _ = false

-- strncasecmp(s, t, strlen(t)) == 0
unfoldable pub strncaseeq : Bytes → Bytes → Bool
unfolding to_lower
strncaseeq xs [] = true
strncaseeq [] (y ∷ ys) = false
strncaseeq (x ∷ xs) (y ∷ ys) = to_lower x == to_lower y && strncaseeq xs ys

-- std::string == literal
unfoldable pub equal : Bytes → Bytes → Bool
equal [] literal = elim literal [ [] ↦ true | _ ↦ false ]
equal (c ∷ text) literal = elim literal [ [] ↦ false | d ∷ rest ↦ c == d && equal text rest ]

-- strchr(s, c), as the text before the hit and the text from the byte behind it.
unfoldable pub split_at : ℕ → Bytes → Option (Bytes × Bytes)
split_at c [] = none
split_at c (x ∷ xs) =
    let later = split_at c xs in
    if x == c then some ([], xs) else elim later [ none ↦ none | some (a, b) ↦ some (x ∷ a, b) ]

-- text + strspn(text, " \t")
unfoldable pub skip_blanks : Bytes → Bytes
skip_blanks [] = []
skip_blanks (x ∷ xs) = if x == b' ' || x == b'\t' then skip_blanks xs else x ∷ xs

unfoldable pub is_digit : ℕ → Bool
is_digit c = leb b'0' c && leb c b'9'

-- The decimal value of digits behind a value read so far.
unfoldable pub digits_value : ℕ → Bytes → ℕ
digits_value acc [] = acc
digits_value acc (d ∷ ds) = digits_value (acc * 10 + (d - b'0')) ds

-- strrchr(s, c), as the text from the last hit on.
unfoldable pub strrchr : ℕ → Bytes → Option Bytes
strrchr c [] = none
strrchr c (x ∷ xs) =
    let here = if x == c then some (x ∷ xs) else none in
    elim (strrchr c xs) [ some t ↦ some t | none ↦ here ]

-- s.find(t) != npos for a text of two bytes
unfoldable pub contains_pair : ℕ → ℕ → Bytes → Bool
contains_pair a b [] = false
contains_pair a b (x ∷ []) = false
contains_pair a b (x ∷ y ∷ ys) = (x == a && y == b) || contains_pair a b (y ∷ ys)

-- The byte that a pointer into a C string reads.
abbrev pub first : Bytes → ℕ
first [] = 0
first (x ∷ xs) = x

-- `while ('0' <= p[digits] && p[digits] <= '9') ++digits;`
unfoldable pub count_digits : Bytes → ℕ
unfolding is_digit
count_digits [] = 0
count_digits (x ∷ xs) = if is_digit x then suc (count_digits xs) else 0

unfoldable pub skip_sign : Bytes → Bytes
skip_sign [] = []
skip_sign (x ∷ xs) = if x == b'-' || x == b'+' then xs else x ∷ xs

unfoldable pub negate : ℕ → ℤ
negate zero = pos 0
negate (suc n) = negsuc n

-- strtol(s, &end, 10) of a text that begins with a sign or a digit, with errno == ERANGE.
unfoldable pub strtol : Bytes → ℤ × Bool
unfolding negate skip_sign count_digits digits_value
strtol s =
    let p = skip_sign s in
    let v = digits_value 0 (take (count_digits p) p) in
    if first s == b'-'
    then (if ltb (2 ^ 63) v then (negsuc (2 ^ 63 - 1), true) else (negate v, false))
    else (if leb (2 ^ 63) v then (pos (2 ^ 63 - 1), true) else (pos v, false))
