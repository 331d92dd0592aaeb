-- ===== src/Snapshot.antt =====
-- pkg/snapshot/snapshot.go: integers, byte slices and headers on io.Writer and io.Reader.
pub mod Uint
pub mod File
pub mod Written
pub mod Atomic
pub mod Restored
pub mod Tests
use gomembase.Prelude.{
  ℕ, zero, suc, ◌+◌, ◌-◌, ◌*◌, ◌/◌, ◌%◌, ◌^◌, Bool, true, false, not, List, [], ◌∷◌, ◌++◌, Option,
  none, some, Str, bytes, str_eq, length, take, drop, ltb, ◌==◌, if◌then◌else◌,
}
use gomembase.Prelude.Int.{ℤ, pos, negsuc}
use gomembase.Errors.{
  Error, sentinel, joined, foreign, snapshot_write_failed, snapshot_read_failed,
  invalid_snapshot_magic, invalid_snapshot_version, Result, ok, err,
}

-- An io.Writer, as an operation on what it writes to.
pub record Writer (W : Type 0) : Type 0 where
  pub write : W → Str → Option Error × W

-- bytes.Buffer, whose Write has no error.
abbrev pub buffer_writer : Writer Str
buffer_writer = record { write = λ b s. (none, b ++ s) }

-- `if err := …; err != nil { return err }` and what follows.
abbrev pub and_write : {W : Type 0} → Option Error × W → (W → Option Error × W) → Option Error × W
and_write (none, w) k = k w
and_write (some e, w) k = (some e, w)

abbrev pub failing : {W : Type 0} → (Error → Error) → Option Error × W → Option Error × W
failing f (none, w) = (none, w)
failing f (some e, w) = (some (f e), w)

-- What a reader returns, and the bytes left. A reader is its bytes.
abbrev pub and_read : {A B : Type 0} → Result A × Str → (A → Str → Result B × Str) → Result B × Str
and_read (ok a, r) k = k a r
and_read (err e, r) k = (err e, r)

abbrev pub failing_read : {A : Type 0} → (Error → Error) → Result A × Str → Result A × Str
failing_read f (ok a, r) = (ok a, r)
failing_read f (err e, r) = (err (f e), r)

-- An unsigned integer of `n` bytes in little-endian order; higher bits are lost.
unfoldable pub le_bytes : ℕ → ℕ → Str
le_bytes zero v = []
le_bytes (suc n) v = v % 256 ∷ le_bytes n (v / 256)

unfoldable pub from_le : Str → ℕ
from_le [] = 0
from_le (b ∷ bs) = b + 256 * from_le bs

-- An int64 as the uint64 with the same bits, and back.
unfoldable pub to_u64 : ℤ → ℕ
to_u64 (pos n) = n
to_u64 (negsuc n) = 2 ^ 64 - suc (n % 2 ^ 64)

unfoldable pub from_u64 : ℕ → ℤ
from_u64 m = if ltb m (2 ^ 63) then pos m else negsuc (2 ^ 64 - m - 1)

pub record SnapshotHeader : Type 0 where
  pub first_bytes : Str
  pub version : ℕ
  pub count : ℕ

unfoldable pub create_snapshot_header : ℕ → SnapshotHeader
create_snapshot_header count = record { first_bytes = bytes "RCDB"; version = 1; count = count }

unfoldable pub validate : SnapshotHeader → Option Error
validate h =
    if not (str_eq h.first_bytes (bytes "RCDB"))
    then some (sentinel invalid_snapshot_magic)
    else if not (h.version == 1)
    then some (sentinel invalid_snapshot_version)
    else none

abbrev pub write_failed : Error → Error
write_failed e = joined (sentinel snapshot_write_failed) e

abbrev pub read_failed : Error → Error
read_failed e = joined (sentinel snapshot_read_failed) e

module _ {W : Type 0} (wr : Writer W) where
  -- WriteUintValue for an integer type of `n` bytes
  unfoldable pub write_uint_value : ℕ → W → ℕ → Option Error × W
  write_uint_value n w v = wr.write w (le_bytes n v)

  unfoldable pub write_int64_value : W → ℤ → Option Error × W
  write_int64_value w v = write_uint_value 8 w (to_u64 v)

  -- `uint32(len(value))` keeps 32 bits.
  unfoldable pub write_bytes : W → Str → Option Error × W
  write_bytes w value = and_write (write_uint_value 4 w (length value)) (λ w'. wr.write w' value)

  unfoldable pub write_header : W → ℕ → Option Error × W
  write_header w count =
      let h = create_snapshot_header count in
      failing write_failed (
        and_write (wr.write w h.first_bytes) (λ w'.
          and_write (write_uint_value 2 w' h.version) (λ w''. write_uint_value 8 w'' h.count)))

-- io.ReadFull with a buffer of `n` bytes
unfoldable pub read_full : ℕ → Str → Result Str × Str
read_full n r =
    if ltb (length r) n
    then (err (foreign (if length r == 0 then bytes "EOF" else bytes "unexpected EOF")), [])
    else (ok (take n r), drop n r)

unfoldable pub read_uint_value : ℕ → Str → Result ℕ × Str
read_uint_value n r = and_read (read_full n r) (λ bs r'. (ok (from_le bs), r'))

unfoldable pub read_int64_value : Str → Result ℤ × Str
read_int64_value r = and_read (read_uint_value 8 r) (λ m r'. (ok (from_u64 m), r'))

unfoldable pub read_bytes : Str → Result Str × Str
read_bytes r = and_read (read_uint_value 4 r) (λ n r'. read_full n r')

unfoldable pub read_snapshot_header : Str → Result SnapshotHeader × Str
read_snapshot_header r = failing_read read_failed (
    and_read (read_full 4 r) (λ first r'. and_read (read_uint_value 2 r') (λ version r''.
      and_read (read_uint_value 8 r'') (λ count rest.
        (ok (record { first_bytes = first; version = version; count = count }), rest)))))
