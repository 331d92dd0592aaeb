-- ===== src/Storage/Tests.antt =====
-- The key-value engine at concrete inputs.
use gomembase.Prelude.{
  ℕ, ◌/◌, ◌+◌, ◌*◌, ◌≡◌, refl, false, List, [], ◌∷◌, ◌++◌, Option, none, some, Str, bytes, str_eq,
  if◌then◌else◌, arith, ltb, length,
}
use gomembase.Prelude.Int.{ℤ, pos, negsuc, ◌+ℤ◌, wrap64}
use gomembase.Prelude.Dict
use gomembase.Prelude.Dict.{lookup, lookup-empty, insert}
use gomembase.Errors.{ok, err, key_error, sentinel, key_expired, foreign}
use gomembase.Logger.{WalEntry, WalLogger}
use gomembase.Stdlib.{GoText, GoTextLaws, second, unix_epoch}
use gomembase.Storage.{
  PayloadMetadata, Payload, Storage, new_storage, put, log, is_expired, set_args,
}
use gomembase.Storage.Ops.{set_no_lock, set, delete, get, increment_by}
use gomembase.Storage.Reads.{get-set, get-increment_by, replace_value}
use gomembase.Storage.Wal.{process_wal_entry}
use gomembase.Storage.Wal.Laws.{replay_resurrects, process_wal_entry-set, replayed}
use gomembase.Storage.Invariant.{IsValid}
use gomembase.Expirations.{no_expirations}
use gomembase.Snapshot.{buffer_writer}
use gomembase.Storage.Codec.{serialize_state, deserialize_state}
use gomembase.Storage.Codec.Loaded.{deserialize_state-serialize_state}
use gomembase.Storage.Ops.{cleanup_expired}
use gomembase.Storage.Cleanup.{IsFinished, KeptOrDue, cleanup_expired-IsFinished}
use gomembase.Storage.Calls.{
  Call, call_set, call_get, call_set_with_ttl, call_cleanup, run_all, run_all-IsValid,
}

-- A logger that keeps its lines, and fails from the third line on.
instance abbrev small_log : WalLogger (List WalEntry)
small_log = record {
  log = λ l e.
      if ltb (length l) 2 then (none, l ++ e ∷ []) else (some (foreign (bytes "disk full")), l);
}

abbrev parse_single : Str → Option ℕ
parse_single (n ∷ []) = some n
parse_single _ = none

abbrev format_signed : ℤ → Str
format_signed (pos n) = n ∷ []
format_signed (negsuc n) = 45 ∷ n ∷ []

abbrev parse_signed : Str → Option ℤ
parse_signed (n ∷ []) = some (pos n)
parse_signed (s ∷ n ∷ []) = some (negsuc n)
parse_signed _ = none

-- Numbers as single characters, and names with no character to escape.
instance abbrev simple_text : GoText
simple_text = record {
  path_escape = λ s. s;
  path_unescape = λ s. some s;
  base64_encode = λ s. s;
  base64_decode = λ s. some s;
  base64_beside_error = λ s. [];
  format_rfc3339 = λ t. t / second * second ∷ [];
  parse_rfc3339 = parse_single;
  format_int = format_signed;
  parse_int = parse_signed;
  atoi_beside_error = λ s. pos 0;
  regexp_compile = λ r. ok (λ k. str_eq k r);
}

simple_text-GoTextLaws : GoTextLaws simple_text
simple_text-GoTextLaws = record {
  unescape-escape = λ s. refl;
  decode-encode = λ s. refl;
  parse-format = λ t. refl;
  format_not_persistent = λ t e. cc e;
}

abbrev key : Str
key = bytes "k"

abbrev lasting : PayloadMetadata
lasting = record { created_at = 5; expires_at = none }

abbrev seven : Payload
seven = record { value = 7 ∷ []; metadata = lasting }

abbrev empty_storage : Storage (List WalEntry)
empty_storage = new_storage []

abbrev one_key : Storage (List WalEntry)
one_key = (set key seven.value lasting empty_storage).1

get-set_example : (get 9 key (set key (bytes "v") lasting one_key).1).0 ≡ (
    if str_eq key key
    then if is_expired 9 lasting
      then err (key_error key (sentinel key_expired) [] (bytes "GET"))
      else ok (bytes "v")
    else (get 9 key one_key).0)
get-set_example = get-set 9 key key (bytes "v") lasting one_key

found : lookup key one_key.entries ≡ some seven
unfolding lookup set set_no_lock put log insert Dict.delete new_storage str_eq
found = refl

live : is_expired 9 lasting ≡ false
unfolding is_expired
live = refl

get-increment_by_example :
    (let sum = wrap64 (pos 7 +ℤ pos 3) in
      let p' = replace_value seven (format_signed sum) in
      let (result, s') = increment_by 9 key (pos 3) one_key in
      ((get 9 key s').0
        ≡ (if str_eq key key then ok (format_signed sum) else (get 9 key one_key).0))
      × (result
          ≡ elim (log
              (bytes "SET")
              (set_args key p')
              (record one_key { entries = insert key p' one_key.entries })).0 [
                | none ↦ ok sum
                | some e ↦ err e
              ]))
get-increment_by_example = get-increment_by 9 key key (pos 3) (pos 7) seven one_key found live refl

abbrev short_lived : Payload
short_lived = record {
  value = bytes "b";
  metadata = record { created_at = 6; expires_at = some 8 };
}

process_wal_entry-set_example :
    process_wal_entry 9 (bytes "SET") (set_args key seven) one_key
    ≡ put key (replayed 9 seven none) one_key
process_wal_entry-set_example = process_wal_entry-set simple_text-GoTextLaws 9 key seven one_key

replay_resurrects_example :
    (let line = λ (x : Payload) (y : Storage (List WalEntry)).
        process_wal_entry 9 (bytes "SET") (set_args key x) y in
      (get 9 key (line short_lived (line seven empty_storage))).0 ≡ ok (7 ∷ []))
    × ((get 9 key
          (set key short_lived.value short_lived.metadata
            (set key seven.value lasting empty_storage).1).1).0
        ≡ err (key_error key (sentinel key_expired) [] (bytes "GET")))
replay_resurrects_example =
    replay_resurrects simple_text-GoTextLaws 9 key seven short_lived 8 empty_storage empty_storage
      refl refl (ground arith)

abbrev calls : List (ℕ × Call)
calls =
    (5, call_set key (bytes "a") lasting)
    ∷ (6, call_set_with_ttl key (bytes "b") (pos 2))
    ∷ (20, call_get key)
    ∷ (30, call_cleanup)
    ∷ []

run_all-IsValid_example : IsValid (run_all calls empty_storage)
run_all-IsValid_example = run_all-IsValid calls []

abbrev dated : Storage (List WalEntry)
dated = record {
  wal_logger = [];
  entries =
      (
        key,
        record {
          value = bytes "v";
          metadata = record { created_at = unix_epoch; expires_at = some (unix_epoch + 7) };
        },
      )
      ∷ [];
  expirations = no_expirations;
}

deserialize_state-serialize_state_example :
    (let (e, body) = serialize_state buffer_writer dated [] in
      let (e', t', rest) = deserialize_state body one_key in
      (e ≡ none)
      × (e' ≡ none)
      × (rest ≡ [])
      × ((k : Str) → lookup k t'.entries ≡ lookup k dated.entries)
      × IsValid t')
deserialize_state-serialize_state_example =
    deserialize_state-serialize_state dated one_key (lookup-empty key, tt)
      ((ground arith, ground arith, (ground arith, ground arith), (ground arith, ground arith)), tt)
      (ground arith)

abbrev pending : List (ℕ × Call)
pending = (5, call_set_with_ttl key (bytes "b") (pos 2)) ∷ []

cleanup_expired-IsFinished_example :
    IsFinished 20 (cleanup_expired 20 (run_all pending empty_storage))
    × ((j : Str)
        → KeptOrDue 20
            (lookup j (run_all pending empty_storage).entries)
            (lookup j (cleanup_expired 20 (run_all pending empty_storage)).entries))
cleanup_expired-IsFinished_example =
    cleanup_expired-IsFinished 20 (run_all pending empty_storage) (run_all-IsValid pending [])
