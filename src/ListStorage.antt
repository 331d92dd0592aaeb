-- ===== src/ListStorage.antt =====
-- pkg/list_storage/list_storage.go: the list engine. A method that could run into a nil list of Go
-- returns an option, and `none` is a panic.
pub mod Elements
pub mod Ops
pub mod Wal
pub mod Keys
pub mod Invariant
pub mod Refinement
pub mod Contents
pub mod Views
pub mod Edits
pub mod Ranges
pub mod Removals
pub mod Replay
pub mod Replayed
pub mod Negative
pub mod Clock
pub mod Logged
pub mod Saved
mod Tests
pub mod Panics
pub mod Calls
use gomembase.Prelude.{
  ℕ, Bool, true, false, List, [], ◌∷◌, Option, none, some, Str, bytes, length, if◌then◌else◌,
}
use gomembase.Prelude.Int.{ℤ}
use gomembase.Prelude.Dict.{lookup}
use gomembase.Collection.{Value, Collection, is_expired, delete_no_lock, store}
use gomembase.ListStorage.Elements.{
  push_values, take_end, replace_loop, insert_loop, remove_elements,
}

abbrev pub ListStorage : Type 0 → Type 0
ListStorage L = Collection (List Str) L

abbrev pub engine_id : Str
engine_id = bytes "list"

infixl 5 ◌>>=◌
abbrev pub ◌>>=◌ : {A B : Type 0} → Option A → (A → Option B) → Option B
none >>= f = none
some a >>= f = f a

-- `if val.value.Len() == 0 { deleteNoLock(key) } else { data[key] = val }`
unfoldable pub store_or_delete :
    {L : Type 0} → Str → Value (List Str) → List Str → ListStorage L → ListStorage L
store_or_delete key v [] s = delete_no_lock key s
store_or_delete key v (x ∷ xs) s = store key (record v { value = x ∷ xs }) none s

-- The value that a push works on: a new one, or the old one with the expiration of the call.
unfoldable pub pushed_value : ℕ → Option ℕ → Option (Value (List Str)) → Value (List Str)
pushed_value now e none = record { value = []; created_at = now; expires_at = e }
pushed_value now none (some v) = v
pushed_value now (some t) (some v) = record v { expires_at = some t }

-- The value that a move adds to.
unfoldable pub moved_value : ℕ → Option (Value (List Str)) → Value (List Str)
moved_value now none = record { value = []; created_at = now; expires_at = none }
moved_value now (some v) = v

module _ {L : Type 0} where
  -- An expired list is deleted first, with no line.
  unfoldable pub delete_if_expired : ℕ → Str → ListStorage L → ListStorage L
  unfolding is_expired
  delete_if_expired now key s = elim (lookup key s.entries) [
    | none ↦ s
    | some v ↦ if is_expired now v.expires_at then delete_no_lock key s else s
  ]

  unfoldable pub push_no_lock_and_no_wal :
      ℕ → Str → List Str → Option ℕ → Bool → ListStorage L → ListStorage L
  unfolding delete_if_expired pushed_value push_values
  push_no_lock_and_no_wal now key values expires_at to_left s =
      let s' = delete_if_expired now key s in
      let v = pushed_value now expires_at (lookup key s'.entries) in
      store key (record v { value = push_values to_left values v.value }) expires_at s'

  unfoldable pub pop_no_lock_and_no_wal : Str → Bool → ListStorage L → Option (Str × ListStorage L)
  unfolding store_or_delete take_end
  pop_no_lock_and_no_wal key from_left s = do
    v ← lookup key s.entries
    taken ← take_end from_left v.value
    some (taken.0, store_or_delete key v taken.1 s)

  unfoldable pub move_no_lock_and_no_wal :
      ℕ → Str → Str → Bool → Bool → ListStorage L → Option (Str × ListStorage L)
  unfolding pop_no_lock_and_no_wal moved_value
  move_no_lock_and_no_wal now key_from key_to src_left dst_left s = do
    popped ← pop_no_lock_and_no_wal key_from src_left s
    let v = moved_value now (lookup key_to popped.1.entries)
    let s' =
        store key_to (record v { value = push_values dst_left (popped.0 ∷ []) v.value }) none
          popped.1
    some (popped.0, s')

  unfoldable pub replace_no_lock_and_no_wal : Str → ℤ → Str → ListStorage L → Option (ListStorage L)
  unfolding replace_loop
  replace_no_lock_and_no_wal key index value s = do
    v ← lookup key s.entries
    some (store key (record v { value = replace_loop 0 index value v.value }) none s)

  -- The new length, or `none` where there is no pivot.
  unfoldable pub insert_no_lock_and_no_wal :
      Str → Str → Str → Bool → ListStorage L → Option (Option ℕ × ListStorage L)
  unfolding insert_loop
  insert_no_lock_and_no_wal key pivot value before s = do
    v ← lookup key s.entries
    elim (insert_loop pivot value before v.value) [
      | none ↦ some (none, s)
      | some xs ↦ some (some (length xs), store key (record v { value = xs }) none s)
    ]

  unfoldable pub remove_no_lock_and_no_wal :
      Str → ℤ → Str → ListStorage L → Option (ℕ × ListStorage L)
  unfolding remove_elements store_or_delete
  remove_no_lock_and_no_wal key count element s = do
    v ← lookup key s.entries
    let r = remove_elements count element v.value
    some (r.0, store_or_delete key v r.1 s)
