-- ===== src/Storage/Reads.antt =====
-- What Get sees after the writes of pkg/storage/storage.go.
use gomembase.Prelude.{
  ℕ, ◌≡◌, refl, ◌∙◌, ap, false, List, [], Option, none, some, Str, bytes, str_eq, arith,
  if◌then◌else◌,
}
use gomembase.Prelude.Int.{ℤ, ◌+ℤ◌, wrap64}
use gomembase.Prelude.Dict.{lookup, insert, lookup-insert}
use gomembase.Errors.{Result, ok, err, sentinel, key_not_found, key_expired, key_error}
use gomembase.Logger.{WalLogger}
use gomembase.Stdlib.{GoText}
use gomembase.Storage.{PayloadMetadata, Payload, is_expired, Storage, log, put, set_args}
use gomembase.Storage.Ops.{set_no_lock, set, get, key_failure, increment_by_no_lock, increment_by}

-- The answer of Get for what is stored under a key.
unfoldable pub reading : ℕ → Str → Option Payload → Result Str
reading now key none = key_failure key (sentinel key_not_found) (bytes "GET")
reading now key (some p) =
    if is_expired now p.metadata
    then key_failure key (sentinel key_expired) (bytes "GET")
    else ok p.value

abbrev pub replace_value : Payload → Str → Payload
replace_value p v = record { value = v; metadata = p.metadata }

module _ {L : Type 0} ⦃w : WalLogger L⦄ ⦃g : GoText⦄ where
  pub get-reading :
      (now : ℕ) (key : Str) (s : Storage L)
      → (get now key s).0 ≡ reading now key (lookup key s.entries)
  unfolding get reading
  get-reading now key s = ground arith

  pub entries-log :
      (action : Str) (args : List Str) (s : Storage L) → (log action args s).1.entries ≡ s.entries
  unfolding log
  entries-log action args s = refl

  pub lookup-set :
      (k j v : Str) (m : PayloadMetadata) (s : Storage L)
      → lookup j (set k v m s).1.entries
        ≡ (if str_eq k j then some (record { value = v; metadata = m }) else lookup j s.entries)
  unfolding set set_no_lock put log
  lookup-set k j v m s = lookup-insert k j (record { value = v; metadata = m }) s.entries

  -- After a Set, whether its line was logged or not, Get of the key answers with the new value, or
  -- that it has expired if the new expiration lies before the time of the Get; every other key is
  -- answered as before.
  pub get-set :
      (now : ℕ) (k j v : Str) (m : PayloadMetadata) (s : Storage L)
      → (get now j (set k v m s).1).0 ≡ (
          if str_eq k j
          then if is_expired now m
            then err (key_error j (sentinel key_expired) [] (bytes "GET"))
            else ok v
          else (get now j s).0)
  get-set now k j v m s =
      get-reading now j (set k v m s).1
      ∙ ap (reading now j) (lookup-set k j v m s)
      ∙ unfold reading in ground (arith, get-reading now j s)

  increment_by_no_lock-found :
      (now : ℕ) (k : Str) (a n : ℤ) (p : Payload) (s : Storage L)
      → lookup k s.entries ≡ some p
      → is_expired now p.metadata ≡ false
      → g.parse_int p.value ≡ some n
      → (let sum = wrap64 (n +ℤ a) in
          let p' = replace_value p (g.format_int sum) in
          let (e, s') =
            log (bytes "SET") (set_args k p') (record s { entries = insert k p' s.entries }) in
          increment_by now k a s ≡ (elim e [ none ↦ ok sum | some e' ↦ err e' ], s'))
  unfolding increment_by increment_by_no_lock
  increment_by_no_lock-found now k a n p s found live int = ground arith

  -- IncrementBy of a key that holds an integer and has not expired: Get of the key then answers with
  -- the decimal text of the sum, wrapped to 64 bits, and of every other key as before. The call
  -- returns that sum, or the error of the logger for the line of the new value, and with such an
  -- error the sum is stored all the same.
  pub get-increment_by :
      (now : ℕ) (k j : Str) (a n : ℤ) (p : Payload) (s : Storage L)
      → lookup k s.entries ≡ some p
      → is_expired now p.metadata ≡ false
      → g.parse_int p.value ≡ some n
      → (let sum = wrap64 (n +ℤ a) in
          let p' = replace_value p (g.format_int sum) in
          let (result, s') = increment_by now k a s in
          ((get now j s').0 ≡ (if str_eq k j then ok (g.format_int sum) else (get now j s).0))
          × (result
              ≡ elim (log
                  (bytes "SET")
                  (set_args k p')
                  (record s { entries = insert k p' s.entries })).0 [
                    | none ↦ ok sum
                    | some e ↦ err e
                  ]))
  get-increment_by now k j a n p s found live int =
      let p' = replace_value p (g.format_int (wrap64 (n +ℤ a))) in
      let updated : Storage L = record s { entries = insert k p' s.entries } in
      let run = increment_by_no_lock-found now k a n p s found live int in
      (
        get-reading now j (increment_by now k a s).1
            ∙ ap (λ r. reading now j (lookup j r.1.entries)) run
            ∙ ap (reading now j) (
                ap (lookup j) (entries-log (bytes "SET") (set_args k p') updated)
                ∙ lookup-insert k j p' s.entries)
            ∙ unfold reading in ground (arith, get-reading now j s, live),
        ap (λ r. r.0) run,
      )
