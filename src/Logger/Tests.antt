-- ===== src/Logger/Tests.antt =====
-- The loggers at concrete inputs.
use gomembase.Prelude.{◌≡◌, false, bytes, List, [], ◌∷◌, ◌++◌, none}
use gomembase.Logger.{
  WalEntry, WalLogger, TxWalLogger, begin_tx, tx_begin, tx_commit, log_all, commit_tx, rollback_tx,
  tx_logger,
}
use gomembase.Logger.TxLaws.{commit_tx-log_all, rollback_tx-log_all}

-- A logger that keeps its lines.
instance abbrev kept_lines : WalLogger (List WalEntry)
kept_lines = record { log = λ l e. (none, l ++ e ∷ []) }

abbrev set_line : WalEntry
set_line = record { engine_id = bytes "kv"; action = bytes "SET"; args = bytes "a" ∷ [] }

abbrev idle : TxWalLogger (List WalEntry)
idle = record { real = set_line ∷ []; buffer = []; active = false }

commit_tx-log_all_example :
    commit_tx (log_all (begin_tx idle) (set_line ∷ set_line ∷ [])) (bytes "t1") ≡ (
      none,
      record {
        real =
            log_all
              (set_line ∷ [])
              (tx_begin (bytes "t1") ∷ (set_line ∷ set_line ∷ []) ++ tx_commit (bytes "t1") ∷ []);
        buffer = [];
        active = false;
      },
    )
commit_tx-log_all_example = commit_tx-log_all idle (set_line ∷ set_line ∷ []) (bytes "t1")

rollback_tx-log_all_example :
    rollback_tx (log_all (begin_tx idle) (set_line ∷ []))
    ≡ record { real = set_line ∷ []; buffer = []; active = false }
rollback_tx-log_all_example = rollback_tx-log_all idle (set_line ∷ [])
