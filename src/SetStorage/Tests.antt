-- ===== src/SetStorage/Tests.antt =====
-- The set engine at concrete inputs.
use gomembase.Prelude.{
  ℕ, ◌≡◌, ◌*◌, ◌+◌, arith, refl, Bool, true, false, List, [], ◌∷◌, Option, none, some, Str, bytes,
  if◌then◌else◌,
}
use gomembase.Prelude.Int.{pos}
use gomembase.Logger.{WalEntry}
use gomembase.Stdlib.{second, unix_epoch}
use gomembase.Collection.{Value, is_expired}
use gomembase.Collection.Samples.{sample_log, sample_text}
use gomembase.Collection.Panic.{Returns}
use gomembase.Collection.Invariant.{IsValid}
use gomembase.SetStorage.{SetStorage}
use gomembase.SetStorage.Members.{mem}
use gomembase.SetStorage.Clock.{s_inter_store_between-panics}
use gomembase.SetStorage.Ops.{s_add, s_add_args, s_move}
use gomembase.SetStorage.Algebra.{s_inter, s_inter_store_between, s_union_store, s_diff_store}
use gomembase.SetStorage.Wal.{process_wal_entry, process_s_add, process_s_inter_store}
use gomembase.SetStorage.Keys.{new_set_storage, serialize_state, deserialize_state}
use gomembase.SetStorage.Saved.{held, sets_read_back}
use gomembase.Prelude.Dict.{lookup, lookup-empty}
use gomembase.Expirations.{no_expirations}
use gomembase.Snapshot.{buffer_writer}
use gomembase.SetStorage.Calls.{
  SetCall, call_add, call_pop, call_inter_store, call_diff, run_set_calls, run_set_calls-Returns,
}
use gomembase.SetStorage.Membership.{has, with_members, replaced}
use gomembase.SetStorage.Refinement.{moved_member, s_add-has, s_move-has}
use gomembase.SetStorage.Combined.{s_union_store-has, s_diff_store-has}
use gomembase.SetStorage.Combined.Folds.{any_has, first_only, emptied}
use gomembase.SetStorage.Intersection.{all_have, s_inter-all_have}

abbrev a : Str
a = bytes "a"

abbrev b : Str
b = bytes "b"

abbrev empty_sets : SetStorage (List WalEntry)
empty_sets = new_set_storage []

abbrev some_sets : SetStorage (List WalEntry)
some_sets =
    (s_add 5 b (bytes "y" ∷ []) none (s_add 5 a (bytes "x" ∷ bytes "y" ∷ []) none empty_sets).1).1

abbrev some_calls : List (ℕ × SetCall)
some_calls =
    (1, call_add a (bytes "x" ∷ bytes "y" ∷ []) (some 9))
    ∷ (2, call_add b (bytes "y" ∷ []) none)
    ∷ (3, call_inter_store (bytes "c") (a ∷ b ∷ []) 0)
    ∷ (4, call_pop b (pos 1))
    ∷ (20, call_inter_store (bytes "c") (a ∷ []) 0)
    ∷ (21, call_diff (a ∷ b ∷ []))
    ∷ []

run_set_calls-Returns_example : Returns IsValid (run_set_calls some_calls empty_sets)
run_set_calls-Returns_example =
    run_set_calls-Returns some_calls [] (tt, (tt, (refl, (tt, (refl, (tt, tt))))))

never_expires : is_expired 5 none ≡ false
unfolding is_expired
never_expires = refl

s_add-has_example :
    has 5 (s_add 5 a (bytes "z" ∷ []) none some_sets).1
    ≡ with_members a (bytes "z" ∷ []) (has 5 some_sets)
s_add-has_example = s_add-has 5 a (bytes "z" ∷ []) none some_sets never_expires

s_move-has_example :
    has 5 (s_move 5 a b (bytes "x") some_sets).1 ≡ moved_member a b (bytes "x") (has 5 some_sets)
s_move-has_example = s_move-has 5 a b (bytes "x") some_sets

s_inter-all_have_example :
    Returns
      (λ ms. (m : Str) → mem m ms ≡ all_have (a ∷ b ∷ []) m (has 5 some_sets))
      (s_inter 5 (a ∷ b ∷ []) some_sets).0
s_inter-all_have_example = s_inter-all_have 5 a (b ∷ []) some_sets

s_union_store-has_example :
    has 5 (s_union_store 5 a (a ∷ b ∷ []) some_sets).1
    ≡ replaced a (λ m. any_has (a ∷ b ∷ []) m (emptied a (has 5 some_sets))) (has 5 some_sets)
s_union_store-has_example = s_union_store-has 5 a (a ∷ b ∷ []) some_sets

s_diff_store-has_example :
    has 5 (s_diff_store 5 (bytes "c") (a ∷ b ∷ []) some_sets).1
    ≡ replaced
        (bytes "c")
        (λ m. first_only (a ∷ b ∷ []) m (emptied (bytes "c") (has 5 some_sets)))
        (has 5 some_sets)
s_diff_store-has_example = s_diff_store-has 5 (bytes "c") (a ∷ b ∷ []) some_sets

-- The lines of an SAdd with an expiration and of an SInterStore, replayed once the expiration has
-- passed: no set is left to start from.
abbrev replayed_lines : ℕ → Option (SetStorage (List WalEntry))
replayed_lines now =
    elim (process_wal_entry now (bytes "SADD") (s_add_args a (bytes "x" ∷ []) (some (3 * second)))
      empty_sets) [
        | none ↦ none
        | some s ↦ process_wal_entry now (bytes "SINTERSTORE") (b ∷ a ∷ []) s
      ]

replayed_intersection_panics : replayed_lines (10 * second) ≡ none
unfolding process_wal_entry process_s_add process_s_inter_store new_set_storage
    gomembase.Prelude.str_eq gomembase.SetStorage.s_inter_store_no_lock_and_no_wal
    gomembase.Prelude.Dict.lookup gomembase.Collection.delete_no_lock gomembase.Prelude.Dict.delete
    gomembase.SetStorage.s_add_no_lock_and_no_wal gomembase.Collection.store
    gomembase.Prelude.Dict.insert gomembase.Collection.new_collection
replayed_intersection_panics = refl

abbrev dated_sets : SetStorage (List WalEntry)
dated_sets = record {
  wal_logger = [];
  entries =
      (
        a,
        record {
          value = bytes "x" ∷ bytes "y" ∷ [];
          created_at = unix_epoch;
          expires_at = some (unix_epoch + 7);
        },
      )
      ∷ [];
  expirations = no_expirations;
}

-- The set of dated_sets.
abbrev dated_value : Value (List Str)
dated_value = record {
  value = bytes "x" ∷ bytes "y" ∷ [];
  created_at = unix_epoch;
  expires_at = some (unix_epoch + 7);
}

dated_found : lookup a dated_sets.entries ≡ some dated_value
unfolding lookup gomembase.Prelude.str_eq
dated_found = refl

dated_fresh : is_expired unix_epoch dated_value.expires_at ≡ false
unfolding is_expired
dated_fresh = ground arith

dated_old : is_expired (unix_epoch + 8) dated_value.expires_at ≡ true
unfolding is_expired
dated_old = ground arith

s_inter_store_between-panics_example :
    s_inter_store_between unix_epoch (unix_epoch + 8) b (a ∷ []) dated_sets ≡ none
s_inter_store_between-panics_example =
    s_inter_store_between-panics unix_epoch (unix_epoch + 8) b a dated_sets dated_value dated_found
      dated_fresh dated_old (λ e. absurd (ground (arith, e)))

sets_read_back_example :
    (let (e, body) = serialize_state buffer_writer dated_sets [] in
      let (e', t', rest) = deserialize_state body empty_sets in
      (e ≡ none)
      × (e' ≡ none)
      × (rest ≡ [])
      × ((k m : Str) → held m (lookup k t'.entries) ≡ held m (lookup k dated_sets.entries))
      × IsValid t')
sets_read_back_example =
    sets_read_back dated_sets empty_sets (lookup-empty a, tt)
      (
        (
          ground arith,
          (ground arith, (ground arith, (ground arith, tt))),
          (ground arith, ground arith),
          (ground arith, ground arith),
        ),
        tt,
      )
      (ground arith)
