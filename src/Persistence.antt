-- ===== src/Persistence.antt =====
-- pkg/persistence/persistence.go: log lines, and recovery from the log in two passes. The engines
-- are operations on the state `X` of the whole server; `P` is the state of the log.
pub mod Replay
pub mod Blocks
pub mod Restore
pub mod State
pub mod Tests
use gomembase.Prelude.{
  ℕ, zero, suc, Bool, true, false, ◌&&◌, not, List, [], ◌∷◌, ◌++◌, Option, none, some, Str, bytes,
  str_eq, length, ltb, ◌==◌, if◌then◌else◌,
}
use gomembase.Prelude.Dict.{Dict, lookup, insert, delete}
use gomembase.Errors.{Error, foreign, wrapped}
use gomembase.Logger.{WalEntry}
use gomembase.Wal.{WalInterface, Callback}

abbrev pub bar : ℕ
bar = 124

-- strings.Join(parts, "|") and strings.Split(line, "|")
unfoldable pub join : List Str → Str
join [] = []
join (p ∷ []) = p
join (p ∷ q ∷ ps) = p ++ bar ∷ join (q ∷ ps)

abbrev cons_part : ℕ → List Str → List Str
cons_part c [] = (c ∷ []) ∷ []
cons_part c (p ∷ ps) = (c ∷ p) ∷ ps

unfoldable pub split : Str → List Str
split [] = [] ∷ []
split (c ∷ s) = let rest = split s in if c == bar then [] ∷ rest else cons_part c rest

-- The line that PersistenceManager.Log writes.
unfoldable pub log_line : WalEntry → Str
log_line e = join (e.engine_id ∷ e.action ∷ e.args) ++ 10 ∷ []

unfoldable pub log : {P : Type 0} → WalInterface P → P → WalEntry → Option Error × P
log wal p e = let (res, p') = wal.write_to_wal p (log_line e) in (res.1, p')

-- What recovery uses of an engine, and of the fallback engine.
pub record Engine (X : Type 0) : Type 0 where
  pub process_wal_entry : (action : Str) → (args : List Str) → X → Option Error × X

pub record DelegatedEngine (X : Type 0) : Type 0 where
  pub process_delegated_wal_entry :
      (engine_id action : Str) → (args : List Str) → X → Option Error × X

pub record Engines (X : Type 0) : Type 0 where
  pub engines : Dict (Engine X)
  pub fallback_engine : Option (DelegatedEngine X)

-- RegisterEngine, under the engine's identifier, and RegisterFallbackEngine.
unfoldable pub register_engine : {X : Type 0} → Str → Engine X → Engines X → Engines X
register_engine id e pm = record pm { engines = insert id e pm.engines }

unfoldable pub register_fallback_engine : {X : Type 0} → DelegatedEngine X → Engines X → Engines X
register_fallback_engine e pm = record pm { fallback_engine = some e }

-- slices.Contains
unfoldable pub contains : List Str → Str → Bool
contains [] s = false
contains (x ∷ xs) s = let rest = contains xs s in if str_eq x s then true else rest

-- A set of identifiers, as the map to `true` of the source.
abbrev pub Ids : Type 0
Ids = Dict (Unit {0})

-- Pass 1: the transactions that have begun and not committed.
unfoldable pub track_parts : List Str → Ids → Ids
track_parts (ds ∷ action ∷ tx_id ∷ rest) active =
    if str_eq ds (bytes "tx")
    then if str_eq action (bytes "TX_BEGIN")
      then insert tx_id tt active
      else if str_eq action (bytes "TX_COMMIT")
      then delete tx_id active
      else active
    else active
track_parts parts active = active

unfoldable pub track_tx : Callback Ids
track_tx line active = (none, track_parts (split line) active)

abbrev pub is_member : Option (Unit {0}) → Bool
is_member none = false
is_member (some u) = true

module _ {X : Type 0} (pm : Engines X) (restore_only : List Str) where
  -- An entry outside incomplete transactions.
  unfoldable pub dispatch : Str → Str → List Str → X → Option Error × X
  dispatch engine_id action args x =
      if ltb 0 (length restore_only) && not (contains restore_only engine_id)
      then (none, x)
      else (elim (lookup engine_id pm.engines) [
        | some e ↦ e.process_wal_entry action args x
        | none ↦ elim pm.fallback_engine [
          | some d ↦ d.process_delegated_wal_entry engine_id action args x
          | none ↦ (some (foreign (bytes "unregistered engine in WAL: " ++ engine_id)), x)
        ]
      ])

-- The current transaction after a marker line.
unfoldable pub next_tx : Str → Str → Str → Str
next_tx current action id =
    if str_eq action (bytes "TX_BEGIN")
    then id
    else if str_eq action (bytes "TX_COMMIT")
    then []
    else current

module _ {X : Type 0} (pm : Engines X) (incomplete : Ids) (restore_only : List Str) where
  unfoldable pub replay_entry : Str → Str → List Str → Str × X → Option Error × (Str × X)
  replay_entry engine_id action args (current, x) =
      let applied : Option Error × (Str × X) =
        (let (err, x') = dispatch pm restore_only engine_id action args x in
          (err, (current, x'))) in
      if not (str_eq current []) && is_member (lookup current incomplete)
      then (none, (current, x))
      else applied

  unfoldable pub replay_parts : List Str → Str × X → Option Error × (Str × X)
  unfolding dispatch next_tx replay_entry
  replay_parts [] s = (none, s)
  replay_parts (engine_id ∷ []) s = (none, s)
  replay_parts (engine_id ∷ action ∷ []) s = replay_entry engine_id action [] s
  replay_parts (engine_id ∷ action ∷ arg ∷ args) (current, x) =
      if str_eq engine_id (bytes "tx")
      then (none, (next_tx current action arg, x))
      else replay_entry engine_id action (arg ∷ args) (current, x)

  -- Pass 2, line by line: the state is `currentTxID` with the engines' state.
  unfoldable pub replay_line : Callback (Str × X)
  replay_line line s = replay_parts (split line) s

-- Restore after the snapshot is loaded: both passes over the log. The first one's error is dropped.
unfoldable pub restore_wal :
    {P X : Type 0} → WalInterface P → Engines X → List Str → P → X → Option Error × X × P
restore_wal {P} {X} wal pm restore_only p x =
    let (first, incomplete, p') = wal.recover_from_wal Ids track_tx [] p in
    let (err, s, p'') =
      wal.recover_from_wal (Str × X) (replay_line pm incomplete restore_only) ([], x) p' in
    (
      elim err [ none ↦ none | some e ↦ some (wrapped (bytes "failed to recover from WAL") e) ],
      s.1,
      p'',
    )
