-- ===== src/Persistence/State/Saved.antt =====
-- A state that SaveSnapshot saved is the one that Restore loads (pkg/persistence/persistence.go).
use Prim.Native.String.{String}
use gomembase.Prelude.{◌≡◌, [], none}
use gomembase.Prelude.Dict.{Dict}
use gomembase.Wal.{WalInterface}
use gomembase.Snapshot.File.{Snapshot}
use gomembase.Persistence.Restore.{Delivers}

-- A log that was truncated with no error has no lines.
abbrev pub Truncates : {P : Type 0} → WalInterface P → Type 1
Truncates {P = P} wal =
    (p : P) → (wal.truncate_wal p).0 ≡ none → Delivers wal (wal.truncate_wal p).1 []
