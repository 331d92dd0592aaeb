-- ===== src/Collection/Patterns.antt =====
-- Counting, finding and deleting the keys that fit a prefix, a suffix or a regular expression, in
-- pkg/list_storage, pkg/set_storage and pkg/zset_storage. `range s.data` visits the entries in the
-- order of the list; `fits` is the test of the key.
use gomembase.Prelude.{ℕ, suc, Bool, List, [], ◌∷◌, Option, none, some, Str, if◌then◌else◌}
use gomembase.Prelude.Dict.{Dict, insert}
use gomembase.Errors.{Error, Result, ok, err, regex_error}
use gomembase.Logger.{WalLogger}
use gomembase.Stdlib.{GoText}
use gomembase.Collection.{Value, Collection, is_expired, logged_delete, delete_expired_keys}

-- How many unexpired keys fit, and the expired keys.
unfoldable pub count_loop : {A : Type 0} → ℕ → (Str → Bool) → Dict (Value A) → ℕ × List Str
unfolding is_expired
count_loop now fits [] = (0, [])
count_loop now fits ((k, v) ∷ rest) =
    let (count, expired) = count_loop now fits rest in
    if is_expired now v.expires_at
    then (count, k ∷ expired)
    else if fits k
    then (suc count, expired)
    else (count, expired)

-- What is found, with its copy `f v`, and the expired keys.
unfoldable pub find_loop :
    {A R : Type 0} → ℕ → (A → R) → (Str → Bool) → Dict (Value A) → Dict R → Dict R × List Str
unfolding is_expired
find_loop now f fits [] result = (result, [])
find_loop now f fits ((k, v) ∷ rest) result =
    let added = if fits k then insert k (f v.value) result else result in
    let (found, expired) =
      find_loop now f fits rest (if is_expired now v.expires_at then result else added) in
    if is_expired now v.expires_at then (found, k ∷ expired) else (found, expired)

-- A regular expression that does not compile is reported before anything is read.
abbrev pub with_regex :
    {R S : Type 0} ⦃g : GoText⦄ → Str → S → ((Str → Bool) → Result R × S) → Result R × S
with_regex ⦃g⦄ regex s run = elim (g.regexp_compile regex) [
  | ok fits ↦ run fits
  | err e ↦ (err (regex_error regex e), s)
]

abbrev pub as_ok : {R S : Type 0} → R × S → Result R × S
as_ok (a, s) = (ok a, s)

module _ {A L : Type 0} ⦃w : WalLogger L⦄ (engine_id : Str) ⦃g : GoText⦄ where
  unfoldable pub count_by : ℕ → (Str → Bool) → Collection A L → ℕ × Collection A L
  count_by now fits s =
      let (count, expired) = count_loop now fits s.entries in
      (count, delete_expired_keys engine_id now expired s)

  unfoldable pub find_by :
      {R : Type 0} → ℕ → (A → R) → (Str → Bool) → Collection A L → Dict R × Collection A L
  find_by now f fits s =
      let (found, expired) = find_loop now f fits s.entries [] in
      (found, delete_expired_keys engine_id now expired s)

  -- The count, and the error of the logger that ended the loop. The error of a line for an expired
  -- key is dropped, and the key stays.
  unfoldable pub delete_loop :
      ℕ → (Str → Bool) → Dict (Value A) → ℕ → Collection A L → (ℕ × Option Error) × Collection A L
  unfolding is_expired
  delete_loop now fits [] count s = ((count, none), s)
  delete_loop now fits ((k, v) ∷ rest) count s =
      let (e, s') = logged_delete engine_id k s in
      let gone = delete_loop now fits rest count s' in
      let matched : (ℕ × Option Error) × Collection A L = elim e [
        | none ↦ delete_loop now fits rest (suc count) s'
        | some e' ↦ ((count, some e'), s')
      ] in
      let kept = delete_loop now fits rest count s in
      if is_expired now v.expires_at then gone else if fits k then matched else kept

  unfoldable pub delete_by : ℕ → (Str → Bool) → Collection A L → (ℕ × Option Error) × Collection A L
  unfolding delete_loop
  delete_by now fits s = delete_loop now fits s.entries 0 s

  -- With a regular expression: 0 and the error if it does not compile.
  unfoldable pub delete_by_compiled : ℕ → Str → Collection A L → (ℕ × Option Error) × Collection A L
  unfolding delete_by
  delete_by_compiled now regex s = elim (g.regexp_compile regex) [
    | ok fits ↦ delete_by now fits s
    | err e ↦ ((0, some (regex_error regex e)), s)
  ]
