-- ===== src/ListStorage/Ops.antt =====
-- The methods of pkg/list_storage/list_storage.go on given keys.
use gomembase.Prelude.{
  ℕ, zero, suc, Bool, true, false, List, [], ◌∷◌, map, Option, none, some, Str, bytes, length,
  get_elem?, if◌then◌else◌,
}
use gomembase.Prelude.Int.{ℤ, pos, negsuc}
use gomembase.Prelude.Dict.{lookup}
use gomembase.Errors.{Error, Result, ok, err, key_error, sentinel, key_not_found}
use gomembase.Logger.{WalLogger}
use gomembase.Stdlib.{GoText}
use gomembase.Storage.{expires_str}
use gomembase.Collection.{Value, log, drop_expired, read_value, logged_delete, snapshot}
use gomembase.ListStorage.{
  ListStorage, engine_id, ◌>>=◌, push_no_lock_and_no_wal, pop_no_lock_and_no_wal,
  move_no_lock_and_no_wal, replace_no_lock_and_no_wal, insert_no_lock_and_no_wal,
  remove_no_lock_and_no_wal,
}
use gomembase.ListStorage.Elements.{resolve_index, nth_from_end, range_of, pos_loop}

abbrev pub not_found : {A : Type 0} → Str → Str → Result A
not_found key operation = err (key_error key (sentinel key_not_found) [] operation)

abbrev pub bool_str : Bool → Str
bool_str true = bytes "true"
bool_str false = bytes "false"

-- `if err := Log(…); err != nil { return nil, err }`
abbrev pub result_of : {A : Type 0} → A → Option Error → Result A
result_of a none = ok a
result_of a (some e) = err e

-- A stored list with an element.
abbrev pub is_empty_list : Option (Value (List Str)) → Bool
is_empty_list none = true
is_empty_list (some v) = elim v.value [ [] ↦ true | x ∷ xs ↦ false ]

-- The actions and arguments that the methods log.
module _ ⦃g : GoText⦄ where
  abbrev pub push_action : Bool → Str
  push_action to_left = if to_left then bytes "LPUSH" else bytes "RPUSH"

  abbrev pub push_args : Str → List Str → Option ℕ → List Str
  push_args key values e = g.path_escape key ∷ expires_str e ∷ map g.base64_encode values

  abbrev pub pop_action : Bool → Str
  pop_action from_left = if from_left then bytes "LPOP" else bytes "RPOP"

  abbrev pub move_args : Str → Str → Bool → Bool → List Str
  move_args key_from key_to src_left dst_left =
      g.path_escape key_from ∷ g.path_escape key_to ∷ bool_str src_left ∷ bool_str dst_left ∷ []

  abbrev pub replace_args : Str → ℤ → Str → List Str
  replace_args key index value = g.path_escape key ∷ g.format_int index ∷ g.base64_encode value ∷ []

  abbrev pub insert_args : Str → Str → Str → Bool → List Str
  insert_args key pivot value before =
      g.path_escape key ∷ g.base64_encode pivot ∷ g.base64_encode value ∷ bool_str before ∷ []

  abbrev pub remove_args : Str → ℤ → Str → List Str
  remove_args key count element =
      g.path_escape key ∷ g.format_int count ∷ g.base64_encode element ∷ []

-- The loop of Index stops at an index in range.
unfoldable pub index_of : Str → ℤ → List Str → Result Str
index_of key index xs = elim (resolve_index (length xs) index) [
  | none ↦ not_found key (bytes "INDEX")
  | some i ↦ elim (get_elem? xs i) [ none ↦ not_found key (bytes "INDEX") | some x ↦ ok x ]
]

module _ {L : Type 0} ⦃w : WalLogger L⦄ ⦃g : GoText⦄ where
  unfoldable pub push_no_lock :
      ℕ → Str → List Str → Option ℕ → Bool → ListStorage L → Option Error × ListStorage L
  push_no_lock now key values e to_left s =
      log engine_id (push_action to_left) (push_args key values e)
        (push_no_lock_and_no_wal now key values e to_left s)

  unfoldable pub left_push :
      ℕ → Str → List Str → Option ℕ → ListStorage L → Option Error × ListStorage L
  unfolding push_no_lock
  left_push now key values e s = push_no_lock now key values e true s

  unfoldable pub right_push :
      ℕ → Str → List Str → Option ℕ → ListStorage L → Option Error × ListStorage L
  unfolding push_no_lock
  right_push now key values e s = push_no_lock now key values e false s

  unfoldable pub pop_no_lock : ℕ → Str → Bool → ListStorage L → Option (Result Str × ListStorage L)
  pop_no_lock now key from_left s =
      let s' = drop_expired engine_id now key s in
      let found : Option (Result Str × ListStorage L) = (do
        popped ← pop_no_lock_and_no_wal key from_left s'
        let r = log engine_id (pop_action from_left) (g.path_escape key ∷ []) popped.1
        some (result_of popped.0 r.0, r.1)) in
      if is_empty_list (lookup key s'.entries)
      then some (not_found key (bytes "POP"), s')
      else found

  unfoldable pub left_pop : ℕ → Str → ListStorage L → Option (Result Str × ListStorage L)
  unfolding pop_no_lock
  left_pop now key s = pop_no_lock now key true s

  unfoldable pub right_pop : ℕ → Str → ListStorage L → Option (Result Str × ListStorage L)
  unfolding pop_no_lock
  right_pop now key s = pop_no_lock now key false s

  -- Move reads the clock for the source and, later, for the destination.
  unfoldable pub move_between :
      ℕ → ℕ → Str → Str → Bool → Bool → ListStorage L → Option (Result Str × ListStorage L)
  move_between now later key_from key_to src_left dst_left s =
      let s1 = drop_expired engine_id now key_from s in
      let s2 = drop_expired engine_id later key_to s1 in
      let found : Option (Result Str × ListStorage L) = (do
        moved ← move_no_lock_and_no_wal later key_from key_to src_left dst_left s2
        let r = log engine_id (bytes "MOVE") (move_args key_from key_to src_left dst_left) moved.1
        some (result_of moved.0 r.0, r.1)) in
      if is_empty_list (lookup key_from s1.entries)
      then some (not_found key_from (bytes "MOVE"), s1)
      else found

  -- Move where both readings give the same time.
  unfoldable pub move :
      ℕ → Str → Str → Bool → Bool → ListStorage L → Option (Result Str × ListStorage L)
  unfolding move_between
  move now key_from key_to src_left dst_left s =
      move_between now now key_from key_to src_left dst_left s

  unfoldable pub list_len : ℕ → Str → ListStorage L → ℕ × ListStorage L
  list_len now key s = read_value engine_id now key 0 length s

  unfoldable pub range : ℕ → Str → ℤ → ℤ → ListStorage L → List Str × ListStorage L
  range now key start stop s = read_value engine_id now key [] (range_of start stop) s

  unfoldable pub get : ℕ → Str → ListStorage L → List Str × ListStorage L
  unfolding range
  get now key s = range now key (pos 0) (negsuc 0) s

  unfoldable pub index : ℕ → Str → ℤ → ListStorage L → Result Str × ListStorage L
  unfolding index_of
  index now key i s =
      read_value engine_id now key (not_found key (bytes "INDEX")) (index_of key i) s

  unfoldable pub replace_at_index :
      ℕ → Str → ℤ → Str → ListStorage L → Option (Option Error × ListStorage L)
  replace_at_index now key i value s =
      let s' = drop_expired engine_id now key s in
      let missing : Option (Option Error × ListStorage L) =
        some (some (key_error key (sentinel key_not_found) [] (bytes "REPLACE")), s') in
      elim (lookup key s'.entries) [
        | none ↦ missing
        | some v ↦ elim (resolve_index (length v.value) i) [
          | none ↦ missing
          | some n ↦ do
            replaced ← replace_no_lock_and_no_wal key (pos n) value s'
            some (log engine_id (bytes "REPLACE") (replace_args key i value) replaced)
        ]
      ]

  -- The new length, 0 for a missing key, -1 for a missing pivot.
  unfoldable pub insert :
      ℕ → Str → Str → Str → Bool → ListStorage L → Option (Result ℤ × ListStorage L)
  insert now key pivot value before s =
      let s' = drop_expired engine_id now key s in
      elim (lookup key s'.entries) [
        | none ↦ some (ok (pos 0), s')
        | some v ↦ do
          inserted ← insert_no_lock_and_no_wal key pivot value before s'
          elim inserted.0 [
            | none ↦ some (ok (negsuc 0), inserted.1)
            | some n ↦
                let r =
                  log engine_id (bytes "INSERT") (insert_args key pivot value before) inserted.1 in
                some (result_of (pos n) r.0, r.1)
          ]
      ]

  unfoldable pub remove : ℕ → Str → ℤ → Str → ListStorage L → Option (Result ℕ × ListStorage L)
  remove now key count element s =
      let s' = drop_expired engine_id now key s in
      elim (lookup key s'.entries) [
        | none ↦ some (ok 0, s')
        | some v ↦ do
          removed ← remove_no_lock_and_no_wal key count element s'
          elim removed.0 [
            | zero ↦ some (ok 0, removed.1)
            | suc n ↦
                let r = log engine_id (bytes "REMOVE") (remove_args key count element) removed.1 in
                some (result_of (suc n) r.0, r.1)
          ]
      ]

  -- The index, or -1.
  unfoldable pub pos_of : ℕ → Str → Str → ListStorage L → Option ℕ × ListStorage L
  pos_of now key value s = read_value engine_id now key none (pos_loop 0 value) s

  unfoldable pub delete : Str → ListStorage L → Option Error × ListStorage L
  delete key s = logged_delete engine_id key s

unfoldable pub snapshot_list : {L : Type 0} → ℕ → Str → ListStorage L → Option (List Str)
snapshot_list now key s = snapshot now key s

unfoldable pub snapshot_list_index : {L : Type 0} → ℕ → Str → ℤ → ListStorage L → Option Str
snapshot_list_index now key i s = do
  xs ← snapshot now key s
  n ← resolve_index (length xs) i
  nth_from_end xs n
