-- ===== src/Storage/Wal/Line.antt =====
-- A logged Set on its way through the log: the line of pkg/persistence/persistence.go, replayed into
-- pkg/storage/storage.go.
use gomembase.Prelude.{ℕ, ◌≡◌, refl, ◌∙◌, ap, List, [], ◌∷◌, Option, none, some, Str, bytes, str_eq}
use gomembase.Prelude.Dict.{lookup}
use gomembase.Logger.{WalEntry}
use gomembase.Stdlib.{GoText, GoTextLaws}
use gomembase.Persistence.{Engines, Ids, replay_line, replay_entry, dispatch}
use gomembase.Persistence.Replay.{NoBar, IsPlain, line_of, replay_line-plain}
use gomembase.Storage.{Payload, Storage, engine_id, put, expires_str, set_args}
use gomembase.Storage.Wal.{process_wal_entry}
use gomembase.Storage.Wal.Laws.{survivor, process_wal_entry-set}

-- The texts that an engine logs have no bar: url.PathEscape escapes it, the alphabet of base64 and
-- the layout of RFC 3339 have none.
pub record HasNoBar (g : GoText) : Type 0 where
  pub path_escape : (s : Str) → NoBar (g.path_escape s)
  pub base64_encode : (s : Str) → NoBar (g.base64_encode s)
  pub format_rfc3339 : (t : ℕ) → NoBar (g.format_rfc3339 t)

-- A server with the key-value engine alone, at a time of the replay.
abbrev pub kv_engines : {L : Type 0} ⦃g : GoText⦄ → ℕ → Engines (Storage L)
kv_engines now = record {
  engines =
      (
        engine_id,
        record { process_wal_entry = λ action args s. (none, process_wal_entry now action args s) },
      )
      ∷ [];
  fallback_engine = none;
}

abbrev pub set_entry : ⦃g : GoText⦄ → Str → Payload → WalEntry
set_entry key p = record { engine_id = engine_id; action = bytes "SET"; args = set_args key p }

module _ ⦃g : GoText⦄ (laws : GoTextLaws g) (safe : HasNoBar g) where
  expires_str-NoBar : (e : Option ℕ) → NoBar (expires_str e)
  expires_str-NoBar none =
      (refl, (refl, (refl, (refl, (refl, (refl, (refl, (refl, (refl, (refl, tt))))))))))
  expires_str-NoBar (some t) = safe.format_rfc3339 t

  set_entry-IsPlain : (key : Str) (p : Payload) → IsPlain (set_entry key p)
  unfolding str_eq
  set_entry-IsPlain key p = record {
    no_marker = refl;
    no_bar = (
      (refl, (refl, tt)),
      (
        (refl, (refl, (refl, tt))),
        (
          safe.path_escape key,
          (safe.base64_encode p.value, (expires_str-NoBar p.metadata.expires_at, tt)),
        ),
      ),
    );
  }

  replay_entry-kv :
      {L : Type 0} (now : ℕ) (incomplete : Ids) (action : Str) (args : List Str) (s : Storage L)
      → replay_entry (kv_engines now) incomplete [] engine_id action args ([], s)
        ≡ (none, ([], process_wal_entry now action args s))
  unfolding replay_entry dispatch lookup str_eq
  replay_entry-kv now incomplete action args s = refl

  -- The line that Log writes for a Set, met by the second pass of Restore outside any transaction:
  -- it is split, dispatched to the key-value engine and decoded, and the engine then holds the value
  -- under the key, created at the time of the replay and with its expiration cut to the second; but
  -- if that lies before the replay, the state is the one before. Either way there is no error.
  pub replay_line-set :
      {L : Type 0} (now : ℕ) (incomplete : Ids) (key : Str) (p : Payload) (s : Storage L)
      → replay_line (kv_engines now) incomplete [] (line_of (set_entry key p)) ([], s)
        ≡ (none, ([], elim (survivor now p) [ none ↦ s | some p' ↦ put key p' s ]))
  replay_line-set now incomplete key p s =
      replay_line-plain (kv_engines now) incomplete [] (set_entry key p) ([], s)
        (set_entry-IsPlain key p)
      ∙ replay_entry-kv now incomplete (bytes "SET") (set_args key p) s
      ∙ ap (λ s'. (none, ([], s'))) (process_wal_entry-set laws now key p s)
