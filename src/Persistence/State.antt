-- ===== src/Persistence/State.antt =====
-- The persistence manager's snapshots (pkg/persistence/persistence.go): SaveSnapshot, the first part
-- of Restore, Reset and Clear.
pub mod Saved
mod Tests
use Prim.Native.String.{String}
use gomembase.Prelude.{
  ℕ, Bool, not, ◌&&◌, List, [], ◌∷◌, ◌++◌, Option, none, some, Str, bytes, length, ltb,
  if◌then◌else◌,
}
use gomembase.Prelude.Dict.{Dict, lookup}
use gomembase.Errors.{Error, foreign, wrapped}
use gomembase.Wal.{WalInterface}
use gomembase.Snapshot.File.{Snapshot, Section, FileSystem, Deserializer, save, load, delete}
use gomembase.Persistence.{Engines, contains, restore_wal}

-- What snapshots use of an engine, on the state of the whole server.
pub record StateEngine (X : Type 0) : Type 0 where
  -- the error, and what the serializer wrote to its buffer
  pub serialize_state : X → Option Error × Str
  -- the error, the state, and the bytes that are left
  pub deserialize_state : Str → X → Option Error × X × Str
  pub reset : X → Option Error × X
  pub clear : X → Option Error × X

-- An error of one of the two steps, with the text in front of it.
abbrev pub explained : String → Option Error → Option Error
explained text none = none
explained text (some e) = some (wrapped (bytes text) e)

unfoldable pub sections : {X : Type 0} → Dict (StateEngine X) → X → List Section
sections [] x = []
sections ((id, e) ∷ engines) x =
    let (failed, body) = e.serialize_state x in (id, failed, body) ∷ sections engines x

-- The loops of Reset and Clear, up to the first error.
unfoldable pub each_engine :
    {X : Type 0}
    → (StateEngine X → X → Option Error × X)
    → Dict (StateEngine X)
    → X
    → Option Error × X
each_engine op [] x = (none, x)
each_engine op ((id, e) ∷ engines) x =
    let (failed, x') = op e x in
    elim failed [ none ↦ each_engine op engines x' | some e' ↦ (some e', x') ]

module _ {F X P : Type 0} (fs : FileSystem F) (wal : WalInterface P)
    (engines : Dict (StateEngine X)) where
  unfoldable pub truncate_after_save : Option Error → F → P → Option Error × F × P
  truncate_after_save (some e) f p = (some (wrapped (bytes "failed to save snapshot") e), f, p)
  truncate_after_save none f p =
      let (failed, p') = wal.truncate_wal p in
      (explained "failed to truncate WAL after snapshot" failed, f, p')

  unfoldable pub save_state : Option Snapshot → X → F → P → Option Error × F × P
  unfolding truncate_after_save
  save_state none x f p = (some (foreign (bytes "snapshot not initialized")), f, p)
  save_state (some s) x f p =
      let (failed, f') = save fs s (sections engines x) f in truncate_after_save failed f' p

  delete_snapshot : Option Snapshot → F → Option Error × F
  delete_snapshot none f = (none, f)
  delete_snapshot (some s) f = delete fs s f

  -- Reset and Clear: the engines, the snapshot file, the log.
  unfoldable pub erase :
      (StateEngine X → X → Option Error × X)
      → Option Snapshot
      → X
      → F
      → P
      → Option Error × X × F × P
  unfolding delete_snapshot each_engine
  erase op snapshot x f p =
      let (e, x') = each_engine op engines x in
      elim e [
        | some e' ↦ (some e', x', f, p)
        | none ↦
            let (e2, f') = delete_snapshot snapshot f in
            elim e2 [
              | some e' ↦ (some e', x', f', p)
              | none ↦ let (e3, p') = wal.truncate_wal p in (e3, x', f', p')
            ]
      ]

  unfoldable pub reset_state : Option Snapshot → X → F → P → Option Error × X × F × P
  unfolding erase
  reset_state = erase (λ e. e.reset)

  unfoldable pub clear_state : Option Snapshot → X → F → P → Option Error × X × F × P
  unfolding erase
  clear_state = erase (λ e. e.clear)

  -- The callback of Restore for a section of the snapshot.
  unfoldable pub load_engine : List Str → Deserializer X
  load_engine restore_only id r x =
      if ltb 0 (length restore_only) && not (contains restore_only id)
      then (none, x, r)
      else (elim (lookup id engines) [
        | none ↦ (some (foreign (bytes "unregistered engine in snapshot: " ++ id)), x, r)
        | some e ↦ e.deserialize_state r x
      ])

  -- The error of loading the snapshot; that there is no file is none.
  unfoldable pub load_error : Option Error → Option Error
  load_error none = none
  load_error (some e) =
      if fs.is_not_exist e then none else some (wrapped (bytes "failed to load snapshot") e)

  unfoldable pub load_state : Option Snapshot → List Str → F → X → Option Error × X
  unfolding load_engine load_error
  load_state none restore_only f x = (none, x)
  load_state (some s) restore_only f x =
      let (e, x') = load fs s (load_engine restore_only) f x in (load_error e, x')

  unfoldable pub then_wal : Engines X → List Str → P → Option Error × X → Option Error × X × P
  then_wal pm restore_only p (some e, x) = (some e, x, p)
  then_wal pm restore_only p (none, x) = restore_wal wal pm restore_only p x

  -- Restore.
  unfoldable pub restore : Engines X → Option Snapshot → List Str → F → P → X → Option Error × X × P
  unfolding load_state then_wal
  restore pm snapshot restore_only f p x =
      then_wal pm restore_only p (load_state snapshot restore_only f x)
