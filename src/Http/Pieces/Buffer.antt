-- ===== src/Http/Pieces/Buffer.antt =====
-- The read buffer with more bytes behind the read ones: what the parser sees of the old ones.
use reactor_web_server.Common.{
  ℕ, zero, suc, ◌+◌, ◌≤◌, ◌<◌, ◌≡◌, refl, ap, sym, ◌∙◌, length, take, drop, get_or, set, arith, [],
  ◌∷◌, ◌++◌, some, ◌==◌, Bool-cases, Option-cases, inl, inr,
}
use reactor_web_server.Common.Text.{Bytes, c_str, split_at}
use reactor_web_server.Http.{HttpConn}
use reactor_web_server.Http.RequestLine.{put_nul}
use reactor_web_server.Http.Read.{store}
use reactor_web_server.Http.Read.Store.{splice}

set-take_append :
    (r : ℕ) (xs ys : Bytes) (i v : ℕ)
    → i < r
    → r ≤ length xs
    → set (take r xs ++ ys) i v ≡ take r (set xs i v) ++ ys
set-take_append zero xs ys i v h k = absurd (omega arith)
set-take_append (suc r) [] ys i v h k = absurd (omega arith)
set-take_append (suc r) (x ∷ xs) ys zero v h k = refl
set-take_append (suc r) (x ∷ xs) ys (suc i) v h k =
    ap (◌∷◌ x) (set-take_append r xs ys i v (omega arith) (omega arith))

drop-set : (n : ℕ) (xs : Bytes) (i v : ℕ) → i < n → drop n (set xs i v) ≡ drop n xs
drop-set zero xs i v h = absurd (omega arith)
drop-set (suc n) [] i v h = refl
drop-set (suc n) (x ∷ xs) zero v h = refl
drop-set (suc n) (x ∷ xs) (suc i) v h = drop-set n xs i v (omega arith)

-- Writing inside the read bytes and receiving more of them are independent.
pub splice-set :
    (r : ℕ) (a buf : Bytes) (i v : ℕ)
    → i < r
    → r ≤ length buf
    → set (splice r a buf) i v ≡ splice r a (set buf i v)
splice-set r a buf i v h k =
    set-take_append r buf (a ++ drop (r + length a) buf) i v h k
    ∙ ap (λ xs. take r (set buf i v) ++ (a ++ xs))
        (sym (drop-set (r + length a) buf i v (omega arith)))

pub put_nul-store :
    (c : HttpConn) (bs : Bytes) (i : ℕ)
    → i < c.read_idx
    → c.read_idx ≤ length c.read_buf
    → put_nul (store c bs) i ≡ store (put_nul c i) bs
unfolding store
put_nul-store c bs i h k =
    λ j. record (store c bs) { read_buf = splice-set c.read_idx bs c.read_buf i 0 h k j }

pub get_or-set : (xs : Bytes) (i : ℕ) → get_or (set xs i 0) i 0 ≡ 0
get_or-set [] i = refl
get_or-set (x ∷ xs) zero = refl
get_or-set (x ∷ xs) (suc i) = get_or-set xs i

-- A text that ends inside the read bytes.
pub c_str-take_append :
    (r : ℕ) (xs ys : Bytes) (t k : ℕ)
    → t ≤ k
    → k < r
    → r ≤ length xs
    → get_or xs k 0 ≡ 0
    → c_str (drop t (take r xs ++ ys)) ≡ c_str (drop t xs)
unfolding c_str
c_str-take_append zero xs ys t k h l b e = absurd (omega arith)
c_str-take_append (suc r) [] ys t k h l b e = absurd (omega arith)
c_str-take_append (suc r) (x ∷ xs) ys zero zero h l b e = rw e
c_str-take_append (suc r) (x ∷ xs) ys (suc t) zero h l b e = absurd (omega arith)
c_str-take_append (suc r) (x ∷ xs) ys zero (suc k) h l b e =
    rw (c_str-take_append r xs ys zero k (omega arith) (omega arith) (omega arith) e)
c_str-take_append (suc r) (x ∷ xs) ys (suc t) (suc k) h l b e =
    c_str-take_append r xs ys t k (omega arith) (omega arith) (omega arith) e

pub length-c_str :
    (xs : Bytes) (t k : ℕ) → t ≤ k → get_or xs k 0 ≡ 0 → t + length (c_str (drop t xs)) ≤ k
unfolding c_str
length-c_str [] zero k h e = omega arith
length-c_str [] (suc t) k h e = omega arith
length-c_str (x ∷ xs) zero zero h e = rw e (omega arith)
length-c_str (x ∷ xs) (suc t) zero h e = absurd (omega arith)
length-c_str (x ∷ xs) zero (suc k) h e = elim (Bool-cases (x == 0)) [
  | inl z ↦ rw z (omega arith)
  | inr z ↦ rw z (omega (arith, length-c_str xs zero k (omega arith) e))
]
length-c_str (x ∷ xs) (suc t) (suc k) h e = omega (arith, length-c_str xs t k (omega arith) e)

-- The two texts around a byte, and the byte.
pub length-split_at :
    (s : Bytes) (x : ℕ) (a b : Bytes)
    → split_at x s ≡ some (a, b)
    → length a + 1 + length b ≡ length s
unfolding split_at
length-split_at [] x a b e = ground arith
length-split_at (y ∷ s) x a b e = elim (Option-cases (split_at x s)) [
  | inl n ↦ ground arith
  | inr ((a', b'), n) ↦ ground (arith, length-split_at s x a' b' n)
]
