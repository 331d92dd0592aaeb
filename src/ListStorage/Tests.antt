-- ===== src/ListStorage/Tests.antt =====
-- The list engine at concrete inputs.
use gomembase.Prelude.{
  ℕ, inr, ◌≡◌, ◌≢◌, ◌≤◌, ◌*◌, ◌+◌, refl, Bool, true, false, List, [], ◌∷◌, Option, none, some, Str,
  bytes, length, arith,
}
use gomembase.Prelude.Int.{pos, negsuc}
use gomembase.Logger.{WalEntry}
use gomembase.Stdlib.{second, unix_epoch}
use gomembase.Expirations.{no_expirations}
use gomembase.Prelude.Dict.{lookup, lookup-empty}
use gomembase.Snapshot.{buffer_writer}
use gomembase.ListStorage.Saved.{lists_read_back}
use gomembase.Collection.{Value, is_expired, log}
use gomembase.Collection.Samples.{sample_log, sample_text, sample_text-GoTextLaws}
use gomembase.Collection.Panic.{Returns}
use gomembase.Collection.Contents.{contents, view_of}
use gomembase.Collection.Invariant.{IsValid}
use gomembase.ListStorage.{ListStorage}
use gomembase.ListStorage.Elements.{range_of, remove_elements}
use gomembase.ListStorage.Ops.{move_between, right_push, push_args}
use gomembase.ListStorage.Keys.{new_list_storage, serialize_state, deserialize_state}
use gomembase.ListStorage.Wal.{process_wal_entry, process_push, process_pop}
use gomembase.ListStorage.Calls.{
  ListCall, call_left_push, call_left_pop, call_move, call_replace_at_index, run_list_calls,
  run_list_calls-Returns,
}
use gomembase.ListStorage.Edits.{
  Edit, edit_left_push, edit_right_pop, edit_move, edit_remove, edit_view_all, run_edits, run_edit,
  run_edits-view,
}
use gomembase.ListStorage.Ranges.{slice, slice_start, slice_end, range_of-slice}
use gomembase.ListStorage.Removals.{remove_elements-bounds}
use gomembase.ListStorage.Replay.{line_of}
use gomembase.ListStorage.Clock.{move_between-panics}
use gomembase.ListStorage.Replayed.{IsThere, Agree}
use gomembase.ListStorage.Logged.{process_wal_entry-run_edit}
use gomembase.ListStorage.Logged.Lines.{Logged}

abbrev key : Str
key = bytes "k"

abbrev letters : List Str
letters = bytes "a" ∷ bytes "b" ∷ bytes "c" ∷ []

abbrev empty_lists : ListStorage (List WalEntry)
empty_lists = new_list_storage []

abbrev some_lists : ListStorage (List WalEntry)
some_lists = (right_push 5 key letters none empty_lists).1

some_lists-contents : contents 5 key some_lists ≡ letters
unfolding contents right_push new_list_storage gomembase.Prelude.Dict.lookup
    gomembase.Collection.log gomembase.ListStorage.push_no_lock_and_no_wal
    gomembase.Collection.store gomembase.Prelude.Dict.insert gomembase.Prelude.str_eq
    gomembase.Collection.new_collection
some_lists-contents = refl

abbrev some_calls : List (ℕ × ListCall)
some_calls =
    (1, call_left_push key letters (some 9))
    ∷ (2, call_move key key true false 0)
    ∷ (3, call_left_pop key)
    ∷ (4, call_replace_at_index key (negsuc 0) (bytes "z"))
    ∷ (20, call_left_pop key)
    ∷ []

run_list_calls-Returns_example : Returns IsValid (run_list_calls some_calls empty_lists)
run_list_calls-Returns_example =
    run_list_calls-Returns some_calls [] (tt, (inr refl, (tt, (tt, (tt, tt)))))

abbrev some_edits : List Edit
some_edits =
    edit_left_push key letters none
    ∷ edit_move key (bytes "j") false true
    ∷ edit_right_pop key
    ∷ edit_remove key (pos 1) (bytes "c")
    ∷ []

never_expires : is_expired 5 none ≡ false
unfolding is_expired
never_expires = refl

run_edits-view_example :
    Returns
      (λ s. view_of 5 s ≡ edit_view_all some_edits (view_of 5 some_lists))
      (run_edits 5 some_edits some_lists)
run_edits-view_example =
    run_edits-view 5 some_edits some_lists (never_expires, (tt, (tt, (tt, tt))))

range_of-slice_example :
    range_of (negsuc 1) (pos 7) letters
    ≡ slice (slice_start 3 (negsuc 1)) (slice_end 3 (pos 7)) letters
range_of-slice_example = range_of-slice (negsuc 1) (pos 7) letters

remove_elements-bounds_example :
    ((remove_elements (negsuc 0) (bytes "b") letters).0 ≤ 1)
    × ((remove_elements (negsuc 0) (bytes "b") letters).0
          + length (remove_elements (negsuc 0) (bytes "b") letters).1
        ≡ 3)
remove_elements-bounds_example = remove_elements-bounds (negsuc 0) (bytes "b") letters (λ e. cc e)

abbrev plain_value : Value (List Str)
plain_value = record { value = letters; created_at = 5; expires_at = none }

abbrev plain_lists : ListStorage (List WalEntry)
plain_lists = record {
  wal_logger = [];
  entries = (key, plain_value) ∷ [];
  expirations = no_expirations;
}

plain_lists-IsThere : IsThere 5 key plain_value plain_lists
unfolding lookup gomembase.Prelude.str_eq is_expired
plain_lists-IsThere = (refl, refl, λ e. absurd (ground (arith, e)))

process_wal_entry-run_edit_example :
    (let edit = edit_remove key (negsuc 1) (bytes "b") in
      Agree 5
        (process_wal_entry 5 (line_of edit).0 (line_of edit).1 plain_lists)
        (run_edit 5 edit plain_lists)
      × Returns (Logged 5 edit plain_lists) (run_edit 5 edit plain_lists))
process_wal_entry-run_edit_example =
    process_wal_entry-run_edit sample_text-GoTextLaws 5 (edit_remove key (negsuc 1) (bytes "b"))
      plain_lists refl (plain_value, plain_lists-IsThere)

abbrev dated_lists : ListStorage (List WalEntry)
dated_lists = record {
  wal_logger = [];
  entries =
      (key, record { value = letters; created_at = unix_epoch; expires_at = some (unix_epoch + 7) })
      ∷ [];
  expirations = no_expirations;
}

-- The list of dated_lists.
abbrev dated_value : Value (List Str)
dated_value = record {
  value = letters;
  created_at = unix_epoch;
  expires_at = some (unix_epoch + 7);
}

dated_found : lookup key dated_lists.entries ≡ some dated_value
unfolding lookup gomembase.Prelude.str_eq
dated_found = refl

dated_fresh : is_expired unix_epoch dated_value.expires_at ≡ false
unfolding is_expired
dated_fresh = ground arith

dated_old : is_expired (unix_epoch + 8) dated_value.expires_at ≡ true
unfolding is_expired
dated_old = ground arith

move_between-panics_example :
    move_between unix_epoch (unix_epoch + 8) key key true false dated_lists ≡ none
move_between-panics_example =
    move_between-panics unix_epoch (unix_epoch + 8) key true false dated_lists dated_value
      dated_found (λ e. absurd (ground (arith, e))) dated_fresh dated_old

lists_read_back_example :
    (let (e, body) = serialize_state buffer_writer dated_lists [] in
      let (e', t', rest) = deserialize_state body empty_lists in
      (e ≡ none)
      × (e' ≡ none)
      × (rest ≡ [])
      × ((k : Str) → lookup k t'.entries ≡ lookup k dated_lists.entries)
      × IsValid t')
lists_read_back_example =
    lists_read_back dated_lists empty_lists (lookup-empty key, tt)
      (
        (
          ground arith,
          (ground arith, (ground arith, (ground arith, (ground arith, tt)))),
          (ground arith, ground arith),
          (ground arith, ground arith),
        ),
        tt,
      )
      (ground arith)

-- The lines of a push with an expiration, a push and two pops, replayed once the expiration has
-- passed: the second push drops the first one's list, and the second pop finds no list.
abbrev replayed_lines : ℕ → Option (ListStorage (List WalEntry))
replayed_lines now =
    elim (process_wal_entry now (bytes "LPUSH") (push_args key (bytes "a" ∷ []) (some (3 * second)))
      empty_lists) [
        | none ↦ none
        | some s1 ↦
            elim (process_wal_entry now (bytes "LPUSH") (push_args key (bytes "b" ∷ []) none) s1) [
              | none ↦ none
              | some s2 ↦ elim (process_wal_entry now (bytes "LPOP") (key ∷ []) s2) [
                | none ↦ none
                | some s3 ↦ process_wal_entry now (bytes "LPOP") (key ∷ []) s3
              ]
            ]
      ]

replayed_pops_panic : replayed_lines (10 * second) ≡ none
unfolding process_wal_entry process_push process_pop new_list_storage gomembase.Prelude.str_eq
    gomembase.ListStorage.pop_no_lock_and_no_wal gomembase.Prelude.Dict.lookup
    gomembase.ListStorage.push_no_lock_and_no_wal gomembase.Collection.store
    gomembase.Prelude.Dict.insert gomembase.Collection.new_collection
    gomembase.Collection.delete_no_lock
replayed_pops_panic = refl
