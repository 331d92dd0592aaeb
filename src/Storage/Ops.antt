-- ===== src/Storage/Ops.antt =====
-- pkg/storage/storage.go: the operations on single keys and on given keys.
use gomembase.Prelude.{
  ℕ, zero, suc, Bool, true, false, List, [], ◌∷◌, ◌++◌, Option, none, some, Str, bytes, ltb, length,
  if◌then◌else◌,
}
use gomembase.Prelude.Int.{ℤ, pos, negsuc, ◌+ℤ◌, neg_ℤ, ltb_ℤ, wrap64}
use gomembase.Prelude.Dict.{Dict, lookup, insert}
use gomembase.Errors.{
  Error, Result, ok, err, key_error, sentinel, key_not_found, key_expired, key_not_integer,
}
use gomembase.Logger.{WalLogger}
use gomembase.Expirations.{no_expirations, entry_at}
use gomembase.Stdlib.{GoText, add_duration}
use gomembase.Storage.{
  PayloadMetadata, Payload, is_expired, Storage, delete_no_lock, log, put, logged_delete, set_args,
}

abbrev pub key_failure : {A : Type 0} → Str → Error → Str → Result A
key_failure key e operation = err (key_error key e [] operation)

-- The loop of Mget: the results, with `none` for a nil slice, and the expired keys in order.
unfoldable pub mget_loop :
    ℕ → List Str → Dict Payload → Dict (Option Str) → List Str → Dict (Option Str) × List Str
mget_loop now [] stored result expired = (result, expired)
mget_loop now (key ∷ keys) stored result expired = elim (lookup key stored) [
  | none ↦ mget_loop now keys stored (insert key none result) expired
  | some p ↦
      let gone = mget_loop now keys stored (insert key none result) (expired ++ key ∷ []) in
      let here = mget_loop now keys stored (insert key (some p.value) result) expired in
      if is_expired now p.metadata then gone else here
]

module _ {L : Type 0} ⦃w : WalLogger L⦄ ⦃g : GoText⦄ where
  unfoldable pub set_no_lock : Str → Str → PayloadMetadata → Storage L → Option Error × Storage L
  set_no_lock key value metadata s =
      log (bytes "SET") (set_args key (record { value = value; metadata = metadata }))
        (put key (record { value = value; metadata = metadata }) s)

  unfoldable pub set : Str → Str → PayloadMetadata → Storage L → Option Error × Storage L
  set key value metadata s = set_no_lock key value metadata s

  unfoldable pub set_with_ttl : ℕ → Str → Str → ℤ → Storage L → Option Error × Storage L
  set_with_ttl now key value ttl s =
      set key value (record { created_at = now; expires_at = some (add_duration now ttl) }) s

  -- The entries of the argument in some order, up to the first error.
  unfoldable pub mset_no_lock : Dict Payload → Storage L → Option Error × Storage L
  mset_no_lock [] s = (none, s)
  mset_no_lock ((k, v) ∷ batch) s =
      let (e, s') = set_no_lock k v.value v.metadata s in
      elim e [ none ↦ mset_no_lock batch s' | some e' ↦ (some e', s') ]

  unfoldable pub mset_with_ttl_no_lock :
      PayloadMetadata → Dict Payload → Storage L → Option Error × Storage L
  mset_with_ttl_no_lock metadata [] s = (none, s)
  mset_with_ttl_no_lock metadata ((k, v) ∷ batch) s =
      let (e, s') = set_no_lock k v.value metadata s in
      elim e [ none ↦ mset_with_ttl_no_lock metadata batch s' | some e' ↦ (some e', s') ]

  unfoldable pub mset_with_ttl : ℕ → Dict Payload → ℤ → Storage L → Option Error × Storage L
  mset_with_ttl now batch ttl s =
      mset_with_ttl_no_lock (record { created_at = now; expires_at = some (add_duration now ttl) })
        batch s

  unfoldable pub delete : Str → Storage L → Option Error × Storage L
  delete key s = logged_delete key s

  unfoldable pub get : ℕ → Str → Storage L → Result Str × Storage L
  get now key s = elim (lookup key s.entries) [
    | none ↦ (key_failure key (sentinel key_not_found) (bytes "GET"), s)
    | some p ↦
        if is_expired now p.metadata
        then (key_failure key (sentinel key_expired) (bytes "GET"), (delete key s).1)
        else (ok p.value, s)
  ]

  unfoldable pub exists : ℕ → Str → Storage L → Bool × Storage L
  exists now key s = elim (lookup key s.entries) [
    | none ↦ (false, s)
    | some p ↦ if is_expired now p.metadata then (false, (delete key s).1) else (true, s)
  ]

  unfoldable pub snapshot_key : ℕ → Str → Storage L → Option Payload
  snapshot_key now key s = elim (lookup key s.entries) [
    | none ↦ none
    | some p ↦ if is_expired now p.metadata then none else some p
  ]

  -- The value is written before the call of the logger, whose error the caller gets.
  unfoldable pub increment_by_no_lock : ℕ → Str → ℤ → Storage L → Result ℤ × Storage L
  increment_by_no_lock now key amount s =
      let op : Str = if ltb_ℤ amount (pos 0) then bytes "DECREMENT" else bytes "INCREMENT" in
      elim (lookup key s.entries) [
        | none ↦ (key_failure key (sentinel key_not_found) op, s)
        | some p ↦
            if is_expired now p.metadata
            then (key_failure key (sentinel key_expired) op, (logged_delete key s).1)
            else (elim (g.parse_int p.value) [
              | none ↦ (err (key_error key (sentinel key_not_integer) p.value op), s)
              | some n ↦
                  let new_val = wrap64 (n +ℤ amount) in
                  let p' : Payload = record {
                    value = g.format_int new_val;
                    metadata = p.metadata;
                  } in
                  let updated : Storage L = record s { entries = insert key p' s.entries } in
                  let (e, s') = log (bytes "SET") (set_args key p') updated in
                  (elim e [ none ↦ ok new_val | some e' ↦ err e' ], s')
            ])
      ]

  unfoldable pub increment : ℕ → Str → Storage L → Result ℤ × Storage L
  increment now key s = increment_by_no_lock now key (pos 1) s

  unfoldable pub increment_by : ℕ → Str → ℤ → Storage L → Result ℤ × Storage L
  increment_by now key amount s = increment_by_no_lock now key amount s

  unfoldable pub decrement : ℕ → Str → Storage L → Result ℤ × Storage L
  decrement now key s = increment_by_no_lock now key (negsuc 0) s

  -- `-amount` in 64 bits
  unfoldable pub decrement_by : ℕ → Str → ℤ → Storage L → Result ℤ × Storage L
  decrement_by now key amount s = increment_by_no_lock now key (wrap64 (neg_ℤ amount)) s

  unfoldable pub delete_if_expired : ℕ → Str → Option Payload → Storage L → Storage L
  delete_if_expired now key none s = s
  delete_if_expired now key (some p) s =
      if is_expired now p.metadata then (logged_delete key s).1 else s

  unfoldable pub delete_expired_keys : ℕ → List Str → Storage L → Storage L
  unfolding delete_if_expired
  delete_expired_keys now [] s = s
  delete_expired_keys now (key ∷ keys) s =
      delete_expired_keys now keys (delete_if_expired now key (lookup key s.entries) s)

  unfoldable pub mget : ℕ → List Str → Storage L → Dict (Option Str) × Storage L
  mget now keys s =
      let (result, expired) = mget_loop now keys s.entries [] [] in
      (result, delete_expired_keys now expired s)

module _ {L : Type 0} where
  unfoldable pub key_count : Storage L → ℕ
  key_count s = length s.entries

  unfoldable pub reset : Storage L → Storage L
  reset s = record s { entries = []; expirations = no_expirations }

  unfoldable pub clear : Storage L → Storage L
  clear s = record s { entries = []; expirations = no_expirations }

-- `for s.expirations.Len() > 0`: entries that expire after `now` end the loop. No line is logged.
unfoldable pub cleanup_loop : {L : Type 0} → ℕ → ℕ → Storage L → Storage L
cleanup_loop zero now s = s
cleanup_loop (suc fuel) now s =
    let first = entry_at s.expirations 0 in
    let rest = cleanup_loop fuel now (delete_no_lock first.key s) in
    if ltb 0 (length s.expirations.heap) then if ltb now first.expires_at then s else rest else s

unfoldable pub cleanup_expired : {L : Type 0} → ℕ → Storage L → Storage L
unfolding cleanup_loop
cleanup_expired now s = cleanup_loop (length s.expirations.heap) now s
