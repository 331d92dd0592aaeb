-- ===== src/Collection/Codec.antt =====
-- SerializeState and DeserializeState of pkg/list_storage, pkg/set_storage and pkg/zset_storage, over
-- the writer and the reader of what is stored under a key.
pub mod RoundTrip
pub mod Loaded
use gomembase.Prelude.{ℕ, zero, suc, List, [], ◌∷◌, Option, none, Str, length}
use gomembase.Prelude.Dict.{Dict, insert}
use gomembase.Errors.{Error, Result, ok}
use gomembase.Stdlib.{unix_nano, time_unix}
use gomembase.Snapshot.{
  Writer, and_write, and_read, write_uint_value, write_int64_value, write_bytes, read_uint_value,
  read_int64_value, read_bytes,
}
use gomembase.Storage.Codec.{write_expiry, read_expiry, schedule_new, or_end}
use gomembase.Collection.{Value, Collection, clear}

module _ {A W : Type 0} (wr : Writer W) (write_value : A → W → Option Error × W) where
  unfoldable pub write_entry : Str → Value A → W → Option Error × W
  write_entry key v w = and_write (write_bytes wr w key) (λ w1.
      and_write (write_value v.value w1) (λ w2.
        and_write (write_int64_value wr w2 (unix_nano v.created_at))
          (write_expiry wr v.expires_at)))

  unfoldable pub write_entries : Dict (Value A) → W → Option Error × W
  unfolding write_entry
  write_entries [] w = (none, w)
  write_entries ((key, v) ∷ d) w = and_write (write_entry key v w) (write_entries d)

  unfoldable pub serialize_state : {L : Type 0} → Collection A L → W → Option Error × W
  unfolding write_entries
  serialize_state s w =
      and_write (write_uint_value wr 8 w (length s.entries)) (write_entries s.entries)

unfoldable pub load_entry : {A L : Type 0} → Str → Value A → Collection A L → Collection A L
load_entry key v s = record s {
  entries = insert key v s.entries;
  expirations = schedule_new key v.expires_at s.expirations;
}

module _ {A : Type 0} (read_value : Str → Result A × Str) where
  unfoldable pub read_entry : Str → Result (Str × Value A) × Str
  read_entry r = and_read (read_bytes r) (λ key r1. and_read (read_value r1) (λ value r2.
      and_read (read_int64_value r2) (λ created r3. and_read (read_expiry r3) (λ expires r4.
        let v : Value A = record {
          value = value;
          created_at = time_unix created;
          expires_at = expires;
        } in
        (ok (key, v), r4)))))

  unfoldable pub load_entries :
      {L : Type 0} → ℕ → Str → Collection A L → Option Error × Collection A L × Str
  unfolding read_entry load_entry
  load_entries zero r s = (none, s, r)
  load_entries (suc n) r s =
      or_end s (read_entry r) (λ entry r'. load_entries n r' (load_entry entry.0 entry.1 s))

  unfoldable pub deserialize_state :
      {L : Type 0} → Str → Collection A L → Option Error × Collection A L × Str
  unfolding load_entries
  deserialize_state r s =
      or_end s (read_uint_value 8 r) (λ count r'. load_entries count r' (clear s))

-- The elements of a list or a set: their number, and each with its length.
module _ {W : Type 0} (wr : Writer W) where
  unfoldable pub write_elements : List Str → W → Option Error × W
  write_elements [] w = (none, w)
  write_elements (x ∷ xs) w = and_write (write_bytes wr w x) (write_elements xs)

  unfoldable pub write_counted : List Str → W → Option Error × W
  unfolding write_elements
  write_counted xs w = and_write (write_uint_value wr 8 w (length xs)) (write_elements xs)

unfoldable pub read_elements : ℕ → Str → Result (List Str) × Str
read_elements zero r = (ok [], r)
read_elements (suc n) r =
    and_read (read_bytes r) (λ x r1. and_read (read_elements n r1) (λ xs r2. (ok (x ∷ xs), r2)))

unfoldable pub read_counted : Str → Result (List Str) × Str
unfolding read_elements
read_counted r = and_read (read_uint_value 8 r) read_elements
