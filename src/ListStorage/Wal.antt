-- ===== src/ListStorage/Wal.antt =====
-- ProcessWalEntry of pkg/list_storage/list_storage.go; `none` is a panic.
use gomembase.Prelude.{
  ℕ, Bool, true, false, List, [], ◌∷◌, map, Option, none, some, Str, bytes, str_eq, if◌then◌else◌,
}
use gomembase.Prelude.Int.{ℤ}
use gomembase.Stdlib.{GoText}
use gomembase.Storage.Wal.{or_raw}
use gomembase.Collection.{delete_no_lock}
use gomembase.Collection.Replay.{unescaped, decoded, replayed_expiry}
use gomembase.ListStorage.{
  ListStorage, ◌>>=◌, push_no_lock_and_no_wal, pop_no_lock_and_no_wal, move_no_lock_and_no_wal,
  replace_no_lock_and_no_wal, insert_no_lock_and_no_wal, remove_no_lock_and_no_wal,
}

module _ ⦃g : GoText⦄ where
  abbrev pub decoded_or_raw : Str → Str
  decoded_or_raw s = or_raw (g.base64_decode s) s

  abbrev pub atoi : Str → ℤ
  atoi s = elim (g.parse_int s) [ none ↦ g.atoi_beside_error s | some n ↦ n ]

  module _ {L : Type 0} where
    unfoldable pub process_push : ℕ → Bool → List Str → ListStorage L → Option (ListStorage L)
    unfolding replayed_expiry
    process_push now to_left (key ∷ expires ∷ values) s = some (
        push_no_lock_and_no_wal now (or_raw (g.path_unescape key) key) (map decoded_or_raw values)
          (replayed_expiry expires) to_left s)
    process_push now to_left args s = some s

    unfoldable pub process_pop : Bool → List Str → ListStorage L → Option (ListStorage L)
    process_pop from_left [] s = some s
    process_pop from_left (key ∷ rest) s = do
      popped ← pop_no_lock_and_no_wal (or_raw (g.path_unescape key) key) from_left s
      some popped.1

    unfoldable pub process_move : ℕ → List Str → ListStorage L → Option (ListStorage L)
    process_move now (key_from ∷ key_to ∷ src_left ∷ dst_left ∷ rest) s = do
      moved ←
          move_no_lock_and_no_wal now (unescaped key_from) (unescaped key_to)
            (str_eq src_left (bytes "true")) (str_eq dst_left (bytes "true")) s
      some moved.1
    process_move now args s = some s

    unfoldable pub process_replace : List Str → ListStorage L → Option (ListStorage L)
    process_replace (key ∷ index ∷ value ∷ rest) s = elim (g.parse_int index) [
      | none ↦ some s
      | some i ↦ replace_no_lock_and_no_wal (unescaped key) i (decoded_or_raw value) s
    ]
    process_replace args s = some s

    unfoldable pub process_insert : List Str → ListStorage L → Option (ListStorage L)
    process_insert (key ∷ pivot ∷ value ∷ before ∷ rest) s = do
      inserted ←
          insert_no_lock_and_no_wal (unescaped key) (decoded pivot) (decoded value)
            (str_eq before (bytes "true")) s
      some inserted.1
    process_insert args s = some s

    unfoldable pub process_remove : List Str → ListStorage L → Option (ListStorage L)
    process_remove (key ∷ count ∷ element ∷ rest) s = do
      removed ← remove_no_lock_and_no_wal (unescaped key) (atoi count) (decoded element) s
      some removed.1
    process_remove args s = some s

    unfoldable pub process_delete : List Str → ListStorage L → ListStorage L
    process_delete [] s = s
    process_delete (key ∷ rest) s = delete_no_lock (unescaped key) s

    -- Every path that returns has a nil error.
    unfoldable pub process_wal_entry : ℕ → Str → List Str → ListStorage L → Option (ListStorage L)
    process_wal_entry now action args s =
        if str_eq action (bytes "LPUSH")
        then process_push now true args s
        else if str_eq action (bytes "RPUSH")
        then process_push now false args s
        else if str_eq action (bytes "LPOP")
        then process_pop true args s
        else if str_eq action (bytes "RPOP")
        then process_pop false args s
        else if str_eq action (bytes "MOVE")
        then process_move now args s
        else if str_eq action (bytes "REPLACE")
        then process_replace args s
        else if str_eq action (bytes "INSERT")
        then process_insert args s
        else if str_eq action (bytes "REMOVE")
        then process_remove args s
        else if str_eq action (bytes "DELETE")
        then some (process_delete args s)
        else some s
