-- ===== src/Storage/Codec.antt =====
-- SerializeState and DeserializeState of pkg/storage/storage.go.
pub mod RoundTrip
pub mod Loaded
use gomembase.Prelude.{
  ℕ, zero, suc, List, [], ◌∷◌, Option, none, some, Str, length, ◌==◌, if◌then◌else◌,
}
use gomembase.Prelude.Dict.{Dict, insert}
use gomembase.Errors.{Error, Result, ok, err}
use gomembase.Expirations.{Expirations, schedule}
use gomembase.Stdlib.{unix_nano, time_unix}
use gomembase.Snapshot.{
  Writer, and_write, and_read, write_uint_value, write_int64_value, write_bytes, read_uint_value,
  read_int64_value, read_bytes,
}
use gomembase.Storage.{Payload, Storage}
use gomembase.Storage.Ops.{clear}

module _ {W : Type 0} (wr : Writer W) where
  unfoldable pub write_expiry : Option ℕ → W → Option Error × W
  write_expiry none w = write_uint_value wr 1 w 0
  write_expiry (some t) w =
      and_write (write_uint_value wr 1 w 1) (λ w'. write_int64_value wr w' (unix_nano t))

  unfoldable pub write_entry : Str → Payload → W → Option Error × W
  unfolding write_expiry
  write_entry key p w = and_write (write_bytes wr w key) (λ w1.
      and_write (write_bytes wr w1 p.value) (λ w2.
        and_write (write_int64_value wr w2 (unix_nano p.metadata.created_at))
          (write_expiry p.metadata.expires_at)))

  unfoldable pub write_entries : Dict Payload → W → Option Error × W
  unfolding write_entry
  write_entries [] w = (none, w)
  write_entries ((key, p) ∷ d) w = and_write (write_entry key p w) (write_entries d)

  unfoldable pub serialize_state : {L : Type 0} → Storage L → W → Option Error × W
  unfolding write_entries
  serialize_state s w =
      and_write (write_uint_value wr 8 w (length s.entries)) (write_entries s.entries)

unfoldable pub read_expiry : Str → Result (Option ℕ) × Str
read_expiry r = and_read (read_uint_value 1 r) (λ has_expiry r'.
    if has_expiry == 1
    then and_read (read_int64_value r') (λ z r''. (ok (some (time_unix z)), r''))
    else (ok none, r'))

unfoldable pub read_entry : Str → Result (Str × Payload) × Str
unfolding read_expiry
read_entry r = and_read (read_bytes r) (λ key r1. and_read (read_bytes r1) (λ value r2.
    and_read (read_int64_value r2) (λ created r3. and_read (read_expiry r3) (λ expires r4.
      let p : Payload = record {
        value = value;
        metadata = record { created_at = time_unix created; expires_at = expires };
      } in
      (ok (key, p), r4)))))

-- An expiration is added, and none that the key may have is cancelled.
abbrev pub schedule_new : Str → Option ℕ → Expirations → Expirations
schedule_new key none x = x
schedule_new key (some t) x = schedule key t x

-- What a read gives to the rest of the loading, which ends at an error.
abbrev pub or_end :
    {A S : Type 0}
    → S
    → Result A × Str
    → (A → Str → Option Error × S × Str)
    → Option Error × S × Str
or_end s (ok a, r) k = k a r
or_end s (err e, r) k = (some e, s, r)

module _ {L : Type 0} where
  unfoldable pub load_entry : Str → Payload → Storage L → Storage L
  load_entry key p s = record s {
    entries = insert key p s.entries;
    expirations = schedule_new key p.metadata.expires_at s.expirations;
  }

  -- The state and the bytes left, with the error that ended the loop.
  unfoldable pub load_entries : ℕ → Str → Storage L → Option Error × Storage L × Str
  unfolding read_entry load_entry
  load_entries zero r s = (none, s, r)
  load_entries (suc n) r s =
      or_end s (read_entry r) (λ entry r'. load_entries n r' (load_entry entry.0 entry.1 s))

  unfoldable pub deserialize_state : Str → Storage L → Option Error × Storage L × Str
  unfolding load_entries
  deserialize_state r s =
      or_end s (read_uint_value 8 r) (λ count r'. load_entries count r' (clear s))
