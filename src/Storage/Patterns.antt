-- ===== src/Storage/Patterns.antt =====
-- pkg/storage/storage.go: counting, finding and deleting the keys that fit a prefix, a suffix or a
-- regular expression. `range s.data` visits the entries in the order of the list.
use gomembase.Prelude.{
  ℕ, suc, Bool, List, [], ◌∷◌, Option, none, some, Str, has_prefix, has_suffix, if◌then◌else◌,
}
use gomembase.Prelude.Dict.{Dict, insert}
use gomembase.Errors.{Error, Result, ok, err, regex_error}
use gomembase.Logger.{WalLogger}
use gomembase.Stdlib.{GoText}
use gomembase.Storage.{Payload, is_expired, Storage, logged_delete}
use gomembase.Storage.Ops.{delete_expired_keys}

-- The loops of CountBy…: how many unexpired keys fit, and the expired keys.
unfoldable pub count_loop : ℕ → (Str → Bool) → Dict Payload → ℕ × List Str
count_loop now fits [] = (0, [])
count_loop now fits ((k, v) ∷ rest) =
    let (count, expired) = count_loop now fits rest in
    if is_expired now v.metadata
    then (count, k ∷ expired)
    else if fits k
    then (suc count, expired)
    else (count, expired)

-- The loops of FindBy….
unfoldable pub find_loop : ℕ → (Str → Bool) → Dict Payload → Dict Str → Dict Str × List Str
find_loop now fits [] result = (result, [])
find_loop now fits ((k, v) ∷ rest) result =
    let added = if fits k then insert k v.value result else result in
    let (found, expired) =
      find_loop now fits rest (if is_expired now v.metadata then result else added) in
    if is_expired now v.metadata then (found, k ∷ expired) else (found, expired)

-- A regular expression that does not compile is reported before anything is read.
abbrev with_regex :
    {A S : Type 0} ⦃g : GoText⦄ → Str → S → ((Str → Bool) → Result A × S) → Result A × S
with_regex ⦃g⦄ regex s run = elim (g.regexp_compile regex) [
  | ok fits ↦ run fits
  | err e ↦ (err (regex_error regex e), s)
]

abbrev as_ok : {A S : Type 0} → A × S → Result A × S
as_ok (a, s) = (ok a, s)

module _ {L : Type 0} ⦃w : WalLogger L⦄ ⦃g : GoText⦄ where
  unfoldable pub count_by : ℕ → (Str → Bool) → Storage L → ℕ × Storage L
  count_by now fits s =
      let (count, expired) = count_loop now fits s.entries in
      (count, delete_expired_keys now expired s)

  unfoldable pub count_by_prefix : ℕ → Str → Storage L → ℕ × Storage L
  count_by_prefix now prefix s = count_by now (λ k. has_prefix k prefix) s

  unfoldable pub count_by_suffix : ℕ → Str → Storage L → ℕ × Storage L
  count_by_suffix now suffix s = count_by now (λ k. has_suffix k suffix) s

  unfoldable pub count_by_regex : ℕ → Str → Storage L → Result ℕ × Storage L
  count_by_regex now regex s = with_regex regex s (λ fits. as_ok (count_by now fits s))

  unfoldable pub find_by : ℕ → (Str → Bool) → Storage L → Dict Str × Storage L
  find_by now fits s =
      let (found, expired) = find_loop now fits s.entries [] in
      (found, delete_expired_keys now expired s)

  unfoldable pub find_by_prefix : ℕ → Str → Storage L → Dict Str × Storage L
  find_by_prefix now prefix s = find_by now (λ k. has_prefix k prefix) s

  unfoldable pub find_by_suffix : ℕ → Str → Storage L → Dict Str × Storage L
  find_by_suffix now suffix s = find_by now (λ k. has_suffix k suffix) s

  unfoldable pub find_by_regex : ℕ → Str → Storage L → Result (Dict Str) × Storage L
  find_by_regex now regex s = with_regex regex s (λ fits. as_ok (find_by now fits s))

  -- The loops of DeleteBy…: the count, and the error of the logger that ended the loop. The error of
  -- a line for an expired key is dropped, and the key stays.
  unfoldable pub delete_loop :
      ℕ → (Str → Bool) → Dict Payload → ℕ → Storage L → (ℕ × Option Error) × Storage L
  delete_loop now fits [] count s = ((count, none), s)
  delete_loop now fits ((k, v) ∷ rest) count s =
      let (e, s') = logged_delete k s in
      let gone = delete_loop now fits rest count s' in
      let matched : (ℕ × Option Error) × Storage L = elim e [
        | none ↦ delete_loop now fits rest (suc count) s'
        | some e' ↦ ((count, some e'), s')
      ] in
      let kept = delete_loop now fits rest count s in
      if is_expired now v.metadata then gone else if fits k then matched else kept

  -- The prefix and suffix forms drop the error (`break`).
  unfoldable pub delete_by_prefix : ℕ → Str → Storage L → ℕ × Storage L
  delete_by_prefix now prefix s =
      let (res, s') = delete_loop now (λ k. has_prefix k prefix) s.entries 0 s in (res.0, s')

  unfoldable pub delete_by_suffix : ℕ → Str → Storage L → ℕ × Storage L
  delete_by_suffix now suffix s =
      let (res, s') = delete_loop now (λ k. has_suffix k suffix) s.entries 0 s in (res.0, s')

  -- DeleteByRegex also returns the count beside an error of the logger.
  unfoldable pub delete_by_regex : ℕ → Str → Storage L → (ℕ × Option Error) × Storage L
  delete_by_regex now regex s = elim (g.regexp_compile regex) [
    | ok fits ↦ delete_loop now fits s.entries 0 s
    | err e ↦ ((0, some (regex_error regex e)), s)
  ]
