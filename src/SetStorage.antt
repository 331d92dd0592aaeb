-- ===== src/SetStorage.antt =====
-- pkg/set_storage/set_storage.go: the set engine. `none` is a panic.
pub mod Members
pub mod Ops
pub mod Algebra
pub mod Wal
pub mod Keys
pub mod Laws
pub mod Invariant
pub mod Panics
pub mod Preserved
pub mod Calls
pub mod Membership
pub mod Refinement
pub mod Combined
pub mod Intersection
pub mod Saved
pub mod Clock
mod Tests
use gomembase.Prelude.{
  ℕ, zero, suc, Bool, true, false, List, [], ◌∷◌, Option, none, some, Str, bytes, length,
  if◌then◌else◌,
}
use gomembase.Prelude.Dict.{lookup}
use gomembase.Collection.{Value, Collection, is_expired, delete_no_lock, store}
use gomembase.SetStorage.Members.{mem, add_loop, remove_loop, union_loop, diff_loop, inter_of}

abbrev pub SetStorage : Type 0 → Type 0
SetStorage L = Collection (List Str) L

abbrev pub engine_id : Str
engine_id = bytes "set"

-- The value that SAdd works on: a new one, or the old one with the expiration of the call.
unfoldable pub added_value : ℕ → Option ℕ → Option (Value (List Str)) → Value (List Str)
added_value now e none = record { value = []; created_at = now; expires_at = e }
added_value now none (some v) = v
added_value now (some t) (some v) = record v { expires_at = some t }

-- `if len(mSet) > 0 { data[dstKey] = Value{…} }`
unfoldable pub store_result : {L : Type 0} → ℕ → Str → List Str → SetStorage L → SetStorage L
store_result now key [] s = s
store_result now key (m ∷ ms) s =
    store key (record { value = m ∷ ms; created_at = now; expires_at = none }) none s

module _ {L : Type 0} where
  unfoldable pub s_add_no_lock_and_no_wal :
      ℕ → Str → List Str → Option ℕ → SetStorage L → ℕ × SetStorage L
  unfolding added_value add_loop
  s_add_no_lock_and_no_wal now key members expires_at s =
      let v = added_value now expires_at (lookup key s.entries) in
      let (ms, added) = add_loop members v.value 0 in
      (added, store key (record v { value = ms }) expires_at s)

  -- `if len(val.members) == 0 { deleteNoLock(key) } else { data[key] = val }`
  unfoldable pub store_or_delete : Str → Value (List Str) → List Str → SetStorage L → SetStorage L
  store_or_delete key v [] s = delete_no_lock key s
  store_or_delete key v (m ∷ ms) s = store key (record v { value = m ∷ ms }) none s

  -- A missing key reads as a value with no members.
  unfoldable pub s_rem_no_lock_and_no_wal : Str → List Str → SetStorage L → ℕ × SetStorage L
  unfolding remove_loop store_or_delete
  s_rem_no_lock_and_no_wal key members s = elim (lookup key s.entries) [
    | none ↦ ((remove_loop members [] 0).1, delete_no_lock key s)
    | some v ↦
        let (ms, removed) = remove_loop members v.value 0 in (removed, store_or_delete key v ms s)
  ]

  unfoldable pub s_move_no_lock_and_no_wal : ℕ → Str → Str → Str → SetStorage L → SetStorage L
  unfolding s_rem_no_lock_and_no_wal s_add_no_lock_and_no_wal
  s_move_no_lock_and_no_wal now src_key dst_key member s =
      let s' = (s_rem_no_lock_and_no_wal src_key (member ∷ []) s).1 in
      (s_add_no_lock_and_no_wal now dst_key (member ∷ []) none s').1

  -- The sets under the keys, and the state without the expired ones, which are skipped. `none` where
  -- a key is missing.
  unfoldable pub stored_sets : ℕ → List Str → SetStorage L → Option (List (List Str)) × SetStorage L
  unfolding is_expired
  stored_sets now [] s = (some [], s)
  stored_sets now (k ∷ ks) s =
      let skipped = stored_sets now ks (delete_no_lock k s) in
      let (sets, s') = stored_sets now ks s in
      elim (lookup k s.entries) [
        | none ↦ (none, s)
        | some v ↦
            if is_expired now v.expires_at
            then skipped
            else (elim sets [ none ↦ none | some xs ↦ some (v.value ∷ xs) ], s')
      ]

  unfoldable pub s_inter_store_no_lock_and_no_wal :
      ℕ → Str → List Str → SetStorage L → Option (SetStorage L)
  unfolding stored_sets inter_of store_result
  s_inter_store_no_lock_and_no_wal now dst_key [] s = some (delete_no_lock dst_key s)
  s_inter_store_no_lock_and_no_wal now dst_key (k ∷ ks) s =
      let (sets, s') = stored_sets now (k ∷ ks) (delete_no_lock dst_key s) in
      elim sets [
        | none ↦ some s'
        | some xs ↦ elim (inter_of xs) [
          | none ↦ none
          | some ms ↦ some (store_result now dst_key ms s')
        ]
      ]

  -- Over the sets under the keys that are there, with a step for each; an expired one is deleted.
  unfoldable pub fold_sets :
      (List Str → List Str → List Str)
      → ℕ
      → List Str
      → List Str
      → SetStorage L
      → List Str × SetStorage L
  unfolding is_expired
  fold_sets step now [] acc s = (acc, s)
  fold_sets step now (k ∷ ks) acc s =
      let missing = fold_sets step now ks acc s in
      elim (lookup k s.entries) [
        | none ↦ missing
        | some v ↦
            let dropped = fold_sets step now ks acc (delete_no_lock k s) in
            let used = fold_sets step now ks (step v.value acc) s in
            if is_expired now v.expires_at then dropped else used
      ]

  unfoldable pub s_union_store_no_lock_and_no_wal : ℕ → Str → List Str → SetStorage L → SetStorage L
  unfolding fold_sets union_loop store_result
  s_union_store_no_lock_and_no_wal now dst_key keys s =
      let (ms, s') = fold_sets union_loop now keys [] (delete_no_lock dst_key s) in
      store_result now dst_key ms s'

  unfoldable pub s_diff_store_no_lock_and_no_wal : ℕ → Str → List Str → SetStorage L → SetStorage L
  unfolding fold_sets diff_loop store_result is_expired
  s_diff_store_no_lock_and_no_wal now dst_key [] s = delete_no_lock dst_key s
  s_diff_store_no_lock_and_no_wal now dst_key (first ∷ rest) s =
      let s0 = delete_no_lock dst_key s in
      elim (lookup first s0.entries) [
        | none ↦ s0
        | some v ↦
            let (ms, s') = fold_sets diff_loop now rest v.value s0 in
            if is_expired now v.expires_at
            then delete_no_lock first s0
            else store_result now dst_key ms s'
      ]
