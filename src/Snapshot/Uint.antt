-- ===== src/Snapshot/Uint.antt =====
-- Reading what was written (pkg/snapshot/snapshot.go).
use gomembase.Prelude.{
  ℕ, zero, suc, ◌*◌, ◌/◌, ◌^◌, ◌<◌, ◌≡◌, refl, ◌∙◌, ap, false, ◌++◌, Str, length, ltb, arith,
  length-append, take-append, drop-append, append_assoc,
}
use gomembase.Prelude.Int.{ℤ, pos, negsuc}
use gomembase.Errors.{ok}
use gomembase.Snapshot.{
  le_bytes, from_le, to_u64, from_u64, and_read, read_full, read_uint_value, read_int64_value,
  read_bytes,
}

-- 2 ^ (8 * n)
abbrev pub bound : ℕ → ℕ
bound zero = 1
bound (suc n) = 256 * bound n

pub length-le_bytes : (n v : ℕ) → length (le_bytes n v) ≡ n
unfolding le_bytes
length-le_bytes zero v = refl
length-le_bytes (suc n) v = ap suc (length-le_bytes n (v / 256))

pub from_le-le_bytes : (n v : ℕ) → v < bound n → from_le (le_bytes n v) ≡ v
unfolding from_le le_bytes
from_le-le_bytes zero v h = omega arith
from_le-le_bytes (suc n) v h = omega (arith, from_le-le_bytes n (v / 256))

pub read_full-append : (xs ys : Str) → read_full (length xs) (xs ++ ys) ≡ (ok xs, ys)
unfolding read_full
read_full-append xs ys =
    let inside : ltb (length (xs ++ ys)) (length xs) ≡ false =
      ground (arith, length-append xs ys) in
    rw (inside, take-append xs ys, drop-append xs ys) refl

read_full-size : (n : ℕ) (xs ys : Str) → length xs ≡ n → read_full n (xs ++ ys) ≡ (ok xs, ys)
read_full-size n xs ys e = rw (← e) (read_full-append xs ys)

pub read_uint_value-le_bytes :
    (n v : ℕ) (ys : Str) → v < bound n → read_uint_value n (le_bytes n v ++ ys) ≡ (ok v, ys)
unfolding read_uint_value
read_uint_value-le_bytes n v ys h =
    ap (λ p. and_read p (λ bs r. (ok (from_le bs), r)))
      (read_full-size n (le_bytes n v) ys (length-le_bytes n v))
    ∙ ap (λ m. (ok m, ys)) (from_le-le_bytes n v h)

-- The values of an int64.
abbrev pub InInt64 : ℤ → Type 0
InInt64 (pos n) = n < 2 ^ 63
InInt64 (negsuc n) = n < 2 ^ 63

to_u64-bound : (z : ℤ) → InInt64 z → to_u64 z < bound 8
unfolding to_u64
to_u64-bound (pos n) h = omega arith
to_u64-bound (negsuc n) h = omega arith

from_u64-to_u64 : (z : ℤ) → InInt64 z → from_u64 (to_u64 z) ≡ z
unfolding from_u64 to_u64
from_u64-to_u64 (pos n) h = ground arith
from_u64-to_u64 (negsuc n) h = ground arith

pub read_int64_value-le_bytes :
    (z : ℤ) (ys : Str) → InInt64 z → read_int64_value (le_bytes 8 (to_u64 z) ++ ys) ≡ (ok z, ys)
unfolding read_int64_value
read_int64_value-le_bytes z ys h =
    ap (λ p. and_read p (λ m r. (ok (from_u64 m), r)))
      (read_uint_value-le_bytes 8 (to_u64 z) ys (to_u64-bound z h))
    ∙ ap (λ z'. (ok z', ys)) (from_u64-to_u64 z h)

-- A slice with its length before it.
abbrev pub framed : Str → Str
framed s = le_bytes 4 (length s) ++ s

-- A slice of less than 4 GiB that is written with its length is read back, and what follows it stays.
pub read_bytes-framed : (s ys : Str) → length s < bound 4 → read_bytes (framed s ++ ys) ≡ (ok s, ys)
unfolding read_bytes
read_bytes-framed s ys h =
    ap (λ r. and_read (read_uint_value 4 r) (λ n r'. read_full n r'))
      (append_assoc (le_bytes 4 (length s)) s ys)
    ∙ ap (λ p. and_read p (λ n r. read_full n r))
        (read_uint_value-le_bytes 4 (length s) (s ++ ys) h)
    ∙ read_full-append s ys
