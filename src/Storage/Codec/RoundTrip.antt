-- ===== src/Storage/Codec/RoundTrip.antt =====
-- The entries of a key-value state read back from their bytes of a snapshot (pkg/storage/storage.go).
use gomembase.Prelude.{
  ℕ, ◌+◌, ◌^◌, ◌<◌, ◌≤◌, ◌≡◌, refl, ◌∙◌, sym, ap, [], ◌∷◌, ◌++◌, Option, none, some, Str, length,
  arith, append_assoc, append-nil,
}
use gomembase.Prelude.Dict.{Dict, lookup}
use gomembase.Errors.{ok}
use gomembase.Stdlib.{unix_epoch, unix_nano, time_unix}
use gomembase.Snapshot.{
  buffer_writer, le_bytes, to_u64, write_uint_value, write_int64_value, write_bytes,
}
use gomembase.Snapshot.Uint.{
  bound, framed, InInt64, read_uint_value-le_bytes, read_int64_value-le_bytes, read_bytes-framed,
}
use gomembase.Storage.{Payload}
use gomembase.Storage.Codec.{write_expiry, write_entry, write_entries, read_expiry, read_entry}

-- The times that UnixNano and time.Unix agree on: within 2 ^ 63 nanoseconds of the epoch.
abbrev pub IsUnix : ℕ → Type 0
IsUnix t = (unix_epoch ≤ t + 2 ^ 63) × (t < unix_epoch + 2 ^ 63)

abbrev pub IsUnixOption : Option ℕ → Type 0
IsUnixOption none = Unit
IsUnixOption (some t) = IsUnix t

-- Texts of less than 4 GiB and such times.
abbrev pub Fits : Str × Payload → Type 0
Fits (key, p) =
    (length key < bound 4)
    × (length p.value < bound 4)
    × IsUnix p.metadata.created_at
    × IsUnixOption p.metadata.expires_at

-- Every key occurs once, as in a Go map.
abbrev pub Distinct : Dict Payload → Type 0
Distinct [] = Unit
Distinct ((key, p) ∷ d) = (lookup key d ≡ none) × Distinct d

pub unix_nano-InInt64 : (t : ℕ) → IsUnix t → InInt64 (unix_nano t)
unfolding unix_nano
unix_nano-InInt64 t h = ground (arith, h)

pub time_unix-unix_nano : (t : ℕ) → time_unix (unix_nano t) ≡ t
unfolding time_unix unix_nano
time_unix-unix_nano t = ground arith

abbrev pub time_bytes : ℕ → Str
time_bytes t = le_bytes 8 (to_u64 (unix_nano t))

abbrev pub expiry_bytes : Option ℕ → Str
expiry_bytes none = le_bytes 1 0
expiry_bytes (some t) = le_bytes 1 1 ++ time_bytes t

abbrev pub entry_bytes : Str → Payload → Str
entry_bytes key p =
    framed key
    ++ (framed p.value ++ (time_bytes p.metadata.created_at ++ expiry_bytes p.metadata.expires_at))

abbrev pub entries_bytes : Dict Payload → Str
entries_bytes [] = []
entries_bytes ((key, p) ∷ d) = entry_bytes key p ++ entries_bytes d

pub write_expiry-expiry_bytes :
    (e : Option ℕ) (w : Str) → write_expiry buffer_writer e w ≡ (none, w ++ expiry_bytes e)
unfolding write_expiry write_int64_value write_uint_value
write_expiry-expiry_bytes none w = refl
write_expiry-expiry_bytes (some t) w =
    ap (λ o. (none, o)) (append_assoc w (le_bytes 1 1) (time_bytes t))

pub write_bytes-framed : (s w : Str) → write_bytes buffer_writer w s ≡ (none, w ++ framed s)
unfolding write_bytes write_uint_value
write_bytes-framed s w = ap (λ o. (none, o)) (append_assoc w (le_bytes 4 (length s)) s)

write_entry-entry_bytes :
    (key : Str) (p : Payload) (w : Str)
    → write_entry buffer_writer key p w ≡ (none, w ++ entry_bytes key p)
unfolding write_entry write_int64_value write_uint_value
write_entry-entry_bytes key p w =
    let k = framed key in
    let v = framed p.value in
    let c = time_bytes p.metadata.created_at in
    let e = expiry_bytes p.metadata.expires_at in
    rw
      (
        write_bytes-framed key w,
        write_bytes-framed p.value (w ++ k),
        write_expiry-expiry_bytes p.metadata.expires_at (((w ++ k) ++ v) ++ c),
      )
      (ap (λ o. (none, o))
        (append_assoc ((w ++ k) ++ v) c e
          ∙ append_assoc (w ++ k) v (c ++ e)
          ∙ append_assoc w k (v ++ (c ++ e))))

pub write_entries-entries_bytes :
    (d : Dict Payload) (w : Str) → write_entries buffer_writer d w ≡ (none, w ++ entries_bytes d)
unfolding write_entries
write_entries-entries_bytes [] w = ap (λ o. (none, o)) (sym (append-nil w))
write_entries-entries_bytes ((key, p) ∷ d) w = rw (write_entry-entry_bytes key p w) (
    write_entries-entries_bytes d (w ++ entry_bytes key p)
    ∙ ap (λ o. (none, o)) (append_assoc w (entry_bytes key p) (entries_bytes d)))

pub read_expiry-expiry_bytes :
    (e : Option ℕ) (tail : Str)
    → IsUnixOption e
    → read_expiry (expiry_bytes e ++ tail) ≡ (ok e, tail)
unfolding read_expiry
read_expiry-expiry_bytes none tail h = rw (read_uint_value-le_bytes 1 0 tail (ground arith)) refl
read_expiry-expiry_bytes (some t) tail h =
    rw
      (
        append_assoc (le_bytes 1 1) (time_bytes t) tail,
        read_uint_value-le_bytes 1 1 (time_bytes t ++ tail) (ground arith),
        read_int64_value-le_bytes (unix_nano t) tail (unix_nano-InInt64 t h),
        time_unix-unix_nano t,
      )
      refl

pub read_entry-entry_bytes :
    (key : Str) (p : Payload) (tail : Str)
    → Fits (key, p)
    → read_entry (entry_bytes key p ++ tail) ≡ (ok (key, p), tail)
unfolding read_entry
read_entry-entry_bytes key p tail h =
    let k = framed key in
    let v = framed p.value in
    let c = time_bytes p.metadata.created_at in
    let e = expiry_bytes p.metadata.expires_at in
    let shape : entry_bytes key p ++ tail ≡ k ++ (v ++ (c ++ (e ++ tail))) =
      append_assoc k (v ++ (c ++ e)) tail
      ∙ ap (λ o. k ++ o)
          (append_assoc v (c ++ e) tail ∙ ap (λ o. v ++ o) (append_assoc c e tail)) in
    rw
      (
        shape,
        read_bytes-framed key (v ++ (c ++ (e ++ tail))) h.0,
        read_bytes-framed p.value (c ++ (e ++ tail)) h.1,
        read_int64_value-le_bytes (unix_nano p.metadata.created_at) (e ++ tail)
            (unix_nano-InInt64 p.metadata.created_at h.2),
        read_expiry-expiry_bytes p.metadata.expires_at tail h.3,
        time_unix-unix_nano p.metadata.created_at,
      )
      refl
