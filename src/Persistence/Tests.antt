-- ===== src/Persistence/Tests.antt =====
-- Recovery from the log at a concrete log.
use gomembase.Prelude.{
  ◌≡◌, refl, false, List, [], ◌∷◌, ◌++◌, Option, none, Str, bytes, str_eq, length,
}
use gomembase.Prelude.Dict.{lookup}
use gomembase.Errors.{Error}
use gomembase.Logger.{WalEntry}
use gomembase.Wal.{WalInterface, Callback}
use gomembase.Wal.Lines.{apply_lines}
use gomembase.Persistence.{Engines, contains, dispatch, restore_wal}
use gomembase.Persistence.Replay.{IsPlain, IsTxId}
use gomembase.Persistence.Blocks.{
  Item, plain, block, broken, lines_of, broken_ids, WellFormed, surviving, run_entries,
}
use gomembase.Persistence.Restore.{recovery_error, restore_wal-items}

-- A log that is its list of lines, and never fails.
abbrev pub line_recover : (S : Type 0) → Callback S → S → List Str → Option Error × S × List Str
line_recover S f s p = ((apply_lines f p s).0, (apply_lines f p s).1, p)

abbrev pub line_log : WalInterface (List Str)
line_log = record {
  write_to_wal = λ p l. ((length l, none), p ++ l ∷ []);
  write_raw = λ p l. ((length l, none), p ++ l ∷ []);
  recover_from_wal = line_recover;
  close_wal = λ p. (none, p);
  sync_wal = λ p. (none, p);
  truncate_wal = λ p. (none, []);
}

-- One engine, which collects the keys that it is given.
abbrev collecting : Engines (List (List Str))
collecting = record {
  engines =
      (bytes "kv", record { process_wal_entry = λ action args x. (none, x ++ args ∷ []) }) ∷ [];
  fallback_engine = none;
}

abbrev set_key : Str → WalEntry
set_key k = record { engine_id = bytes "kv"; action = bytes "SET"; args = k ∷ [] }

set_key-IsPlain_a : IsPlain (set_key (bytes "a"))
unfolding str_eq
set_key-IsPlain_a = record {
  no_marker = refl;
  no_bar = ((refl, (refl, tt)), ((refl, (refl, (refl, tt))), ((refl, tt), tt)));
}

t1-IsTxId : IsTxId (bytes "t")
unfolding str_eq
t1-IsTxId = record { not_empty = refl; no_bar = (refl, tt) }

t2-IsTxId : IsTxId (bytes "u")
unfolding str_eq
t2-IsTxId = record { not_empty = refl; no_bar = (refl, tt) }

-- A committed transaction, one that was cut by a crash, and an entry that the next run logged.
abbrev crashed : List Item
crashed =
    block (bytes "t") (set_key (bytes "a") ∷ [])
    ∷ broken (bytes "u")
    ∷ plain (set_key (bytes "a"))
    ∷ []

crashed-WellFormed : WellFormed (broken_ids crashed) crashed
unfolding contains str_eq
crashed-WellFormed =
    (t1-IsTxId, refl, ((set_key-IsPlain_a, tt), (t2-IsTxId, (set_key-IsPlain_a, tt))))

restore_wal-items_example :
    (let (err, x') = run_entries collecting [] (surviving false crashed) [] in
      restore_wal line_log collecting [] (lines_of crashed) []
      ≡ (recovery_error err, x', lines_of crashed))
restore_wal-items_example =
    restore_wal-items line_log collecting [] crashed (lines_of crashed) [] crashed-WellFormed
      (λ S f s. refl)

-- The entry of the next run is gone.
crashed_loses :
    run_entries collecting [] (surviving false crashed) [] ≡ (none, (bytes "a" ∷ []) ∷ [])
unfolding run_entries dispatch lookup str_eq
crashed_loses = refl
