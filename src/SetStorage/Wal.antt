-- ===== src/SetStorage/Wal.antt =====
-- ProcessWalEntry of pkg/set_storage/set_storage.go; `none` is a panic.
use gomembase.Prelude.{
  ℕ, ◌||◌, List, [], ◌∷◌, map, Option, none, some, Str, bytes, str_eq, if◌then◌else◌,
}
use gomembase.Stdlib.{GoText}
use gomembase.Collection.{delete_no_lock}
use gomembase.Collection.Replay.{unescaped, replayed_expiry}
use gomembase.SetStorage.{
  SetStorage, s_add_no_lock_and_no_wal, s_rem_no_lock_and_no_wal, s_move_no_lock_and_no_wal,
  s_inter_store_no_lock_and_no_wal, s_union_store_no_lock_and_no_wal,
  s_diff_store_no_lock_and_no_wal,
}

module _ ⦃g : GoText⦄ where
  -- A member that does not decode is left out.
  unfoldable pub decoded_members : List Str → List Str
  decoded_members [] = []
  decoded_members (x ∷ xs) =
      let rest = decoded_members xs in elim (g.base64_decode x) [ none ↦ rest | some m ↦ m ∷ rest ]

  module _ {L : Type 0} where
    unfoldable pub process_s_add : ℕ → List Str → SetStorage L → SetStorage L
    unfolding replayed_expiry decoded_members
    process_s_add now (key ∷ expires ∷ members) s =
        (s_add_no_lock_and_no_wal now (unescaped key) (decoded_members members)
          (replayed_expiry expires) s).1
    process_s_add now args s = s

    unfoldable pub process_s_rem : List Str → SetStorage L → SetStorage L
    unfolding decoded_members
    process_s_rem [] s = s
    process_s_rem (key ∷ members) s =
        (s_rem_no_lock_and_no_wal (unescaped key) (decoded_members members) s).1

    unfoldable pub process_s_move : ℕ → List Str → SetStorage L → SetStorage L
    process_s_move now (src_key ∷ dst_key ∷ member ∷ rest) s = elim (g.base64_decode member) [
      | none ↦ s
      | some m ↦ s_move_no_lock_and_no_wal now (unescaped src_key) (unescaped dst_key) m s
    ]
    process_s_move now args s = s

    unfoldable pub process_s_inter_store : ℕ → List Str → SetStorage L → Option (SetStorage L)
    process_s_inter_store now [] s = some s
    process_s_inter_store now (dst_key ∷ keys) s =
        s_inter_store_no_lock_and_no_wal now (unescaped dst_key) (map unescaped keys) s

    unfoldable pub process_s_union_store : ℕ → List Str → SetStorage L → SetStorage L
    process_s_union_store now [] s = s
    process_s_union_store now (dst_key ∷ keys) s =
        s_union_store_no_lock_and_no_wal now (unescaped dst_key) (map unescaped keys) s

    unfoldable pub process_s_diff_store : ℕ → List Str → SetStorage L → SetStorage L
    process_s_diff_store now [] s = s
    process_s_diff_store now (dst_key ∷ keys) s =
        s_diff_store_no_lock_and_no_wal now (unescaped dst_key) (map unescaped keys) s

    unfoldable pub process_delete : List Str → SetStorage L → SetStorage L
    process_delete [] s = s
    process_delete (key ∷ rest) s = delete_no_lock (unescaped key) s

    -- Every path that returns has a nil error.
    unfoldable pub process_wal_entry : ℕ → Str → List Str → SetStorage L → Option (SetStorage L)
    process_wal_entry now action args s =
        if str_eq action (bytes "SADD")
        then some (process_s_add now args s)
        else if str_eq action (bytes "SREM") || str_eq action (bytes "SPOP")
        then some (process_s_rem args s)
        else if str_eq action (bytes "SMOVE")
        then some (process_s_move now args s)
        else if str_eq action (bytes "SINTERSTORE")
        then process_s_inter_store now args s
        else if str_eq action (bytes "SUNIONSTORE")
        then some (process_s_union_store now args s)
        else if str_eq action (bytes "SDIFFSTORE")
        then some (process_s_diff_store now args s)
        else if str_eq action (bytes "DELETE")
        then some (process_delete args s)
        else some s
