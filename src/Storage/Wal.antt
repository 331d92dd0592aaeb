-- ===== src/Storage/Wal.antt =====
-- ProcessWalEntry of pkg/storage/storage.go: one logged entry applied during recovery.
pub mod Laws
pub mod Line
mod Tests
use gomembase.Prelude.{
  ℕ, Bool, true, false, List, [], ◌∷◌, Option, none, some, Str, bytes, str_eq, ltb, if◌then◌else◌,
}
use gomembase.Prelude.Dict.{insert}
use gomembase.Stdlib.{GoText}
use gomembase.Storage.{PayloadMetadata, Payload, Storage, delete_no_lock, put}

abbrev pub or_raw : Option Str → Str → Str
or_raw none raw = raw
or_raw (some s) raw = s

-- The expiration that a SET entry names, or `none` where the entry is passed over: its time does
-- not parse, or lies before `now`.
unfoldable pub replayed_expiry : ⦃g : GoText⦄ → ℕ → Str → Option (Option ℕ)
replayed_expiry ⦃g⦄ now expires =
    if str_eq expires (bytes "PERSISTENT") then some none else (elim (g.parse_rfc3339 expires) [
      | none ↦ none
      | some t ↦ if ltb t now then none else some (some t)
    ])

module _ {L : Type 0} ⦃g : GoText⦄ where
  unfoldable pub apply_set : ℕ → Str → Str → Option (Option ℕ) → Storage L → Storage L
  apply_set now key value none s = s
  apply_set now key value (some expires_at) s =
      put key
        (record { value = value; metadata = record { created_at = now; expires_at = expires_at } })
        s

  unfoldable pub process_set : ℕ → List Str → Storage L → Storage L
  process_set now (key ∷ value ∷ expires ∷ rest) s =
      apply_set now (or_raw (g.path_unescape key) key) (or_raw (g.base64_decode value) value)
        (replayed_expiry now expires) s
  process_set now args s = s

  unfoldable pub process_delete : List Str → Storage L → Storage L
  process_delete [] s = s
  process_delete (key ∷ rest) s = delete_no_lock (or_raw (g.path_unescape key) key) s

  -- Every path returns a nil error.
  unfoldable pub process_wal_entry : ℕ → Str → List Str → Storage L → Storage L
  unfolding replayed_expiry apply_set process_set process_delete
  process_wal_entry now action args s =
      if str_eq action (bytes "DELETE")
      then process_delete args s
      else if str_eq action (bytes "SET")
      then process_set now args s
      else s
