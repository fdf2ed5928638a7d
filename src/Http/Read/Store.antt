-- ===== src/Http/Read/Store.antt =====
-- Writing received bytes into the buffer, for read_once of http_conn.cpp.
use reactor_web_server.Common.{
  ℕ, ◌+◌, ◌≤◌, ◌≡◌, ap₂, sym, ◌∙◌, length, length-append, length-take, length-drop, take, drop,
  take-append, take-append-drop, drop-append_add, drop-drop, arith, [], ◌++◌, append_assoc,
}
use native.Mathlib.Nat.{add-zero, add_assoc}
use reactor_web_server.Common.Text.{Bytes}
use reactor_web_server.Http.{HttpConn}
use reactor_web_server.Http.Read.{room, store}

fit : (n : ℕ) (xs : Bytes) → n ≤ length xs → length (take n xs) ≡ n
fit n xs h = omega (arith, length-take n xs)

pub store-nil : (c : HttpConn) → store c [] ≡ c
unfolding store
store-nil c = λ i. record c { read_buf = buffer i; read_idx = add-zero c.read_idx i }
  where
    buffer : take c.read_idx c.read_buf ++ ([] ++ drop (c.read_idx + 0) c.read_buf) ≡ c.read_buf
    buffer = rw add-zero (take-append-drop c.read_idx c.read_buf)

-- The buffer with some bytes written over it.
abbrev pub splice : ℕ → Bytes → Bytes → Bytes
splice r a buf = take r buf ++ (a ++ drop (r + length a) buf)

module _ (r : ℕ) (a buf : Bytes) (h : r + length a ≤ length buf) where
  length_front : length (take r buf ++ a) ≡ r + length a
  length_front = omega (arith, length-append (take r buf) a, fit r buf (omega arith))

  splice_front : splice r a buf ≡ (take r buf ++ a) ++ drop (r + length a) buf
  splice_front = sym (append_assoc (take r buf) a (drop (r + length a) buf))

  take-splice : take (r + length a) (splice r a buf) ≡ take r buf ++ a
  take-splice =
      ap₂ (λ (n : ℕ) (xs : Bytes). take n xs) (sym length_front) splice_front
      ∙ take-append (take r buf ++ a) (drop (r + length a) buf)

  drop-splice : (n : ℕ) → drop (r + length a + n) (splice r a buf) ≡ drop (r + length a + n) buf
  drop-splice n =
      ap₂ (λ (m : ℕ) (xs : Bytes). drop (m + n) xs) (sym length_front) splice_front
      ∙ drop-append_add (take r buf ++ a) (drop (r + length a) buf) n
      ∙ drop-drop (r + length a) n buf

  splice-splice : (b : Bytes) → splice (r + length a) b (splice r a buf) ≡ splice r (a ++ b) buf
  splice-splice b =
      ap₂ (λ (xs ys : Bytes). xs ++ (b ++ ys)) take-splice (drop-splice (length b))
      ∙ rw (append_assoc, append_assoc, length-append, add_assoc)

-- Storing twice is storing the two pieces in a row.
pub store-store :
    (c : HttpConn) (a b : Bytes)
    → c.read_idx + length a ≤ length c.read_buf
    → store (store c a) b ≡ store c (a ++ b)
unfolding store
store-store c a b h =
    λ i. record c { read_buf = splice-splice c.read_idx a c.read_buf h b i; read_idx = joined i }
  where
    joined : c.read_idx + length a + length b ≡ c.read_idx + length (a ++ b)
    joined = omega (arith, length-append a b)

pub length-store :
    (c : HttpConn) (a : Bytes)
    → c.read_idx + length a ≤ length c.read_buf
    → length (store c a).read_buf ≡ length c.read_buf
unfolding store
length-store c a h = omega (
  arith,
  length-append (take c.read_idx c.read_buf) (a ++ drop (c.read_idx + length a) c.read_buf),
  length-append a (drop (c.read_idx + length a) c.read_buf),
  fit c.read_idx c.read_buf (omega arith),
  length-drop (c.read_idx + length a) c.read_buf,
)

pub stored_fits :
    (c : HttpConn) (a : Bytes)
    → c.read_idx + length a ≤ length c.read_buf
    → (store c a).read_idx ≤ length (store c a).read_buf
unfolding store
stored_fits c a h = omega (arith, length-store c a h)

pub stored_room :
    (c : HttpConn) (a : Bytes)
    → c.read_idx + length a ≤ length c.read_buf
    → room (store c a) + length a ≡ room c
unfolding store
stored_room c a h = omega (arith, length-store c a h)
