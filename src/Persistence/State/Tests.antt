-- ===== src/Persistence/State/Tests.antt =====
-- Saving and restoring a server with one engine.
use gomembase.Prelude.{List, [], ◌∷◌, none, Str, bytes}
use gomembase.Prelude.Dict
use gomembase.Prelude.Dict.{Dict}
use gomembase.Snapshot.File.{Snapshot, new_snapshot}
use gomembase.Persistence.{Engines}
use gomembase.Persistence.State.{StateEngine}

-- An engine whose state is its text.
abbrev one_engine : Dict (StateEngine Str)
one_engine =
    (
      bytes "kv",
      record {
        serialize_state = λ x. (none, x);
        deserialize_state = λ r x. (none, r, []);
        reset = λ x. (none, []);
        clear = λ x. (none, []);
      },
    )
    ∷ []

abbrev no_replay : Engines Str
no_replay = record { engines = []; fallback_engine = none }

abbrev snapshot : Snapshot
snapshot = new_snapshot (bytes "snap")

abbrev old_log : List Str
old_log = bytes "old" ∷ []
