-- ===== src/Collection.antt =====
-- What the engines of pkg/list_storage, pkg/set_storage and pkg/zset_storage have in common, over
-- the type `A` of what is stored under a key and the identifier of the engine: their structs, the
-- deletion of keys and of expired keys, and CleanupExpired. The three packages repeat this code.
pub mod Patterns
pub mod Codec
pub mod Invariant
pub mod Live
pub mod Replay
pub mod Panic
pub mod Contents
pub mod Samples
use gomembase.Prelude.{
  ℕ, zero, suc, Bool, true, false, List, [], ◌∷◌, Option, none, some, Str, bytes, ltb, length,
  if◌then◌else◌,
}
use gomembase.Prelude.Dict.{Dict, lookup, insert, delete}
use gomembase.Errors.{Error}
use gomembase.Logger.{WalEntry, WalLogger}
use gomembase.Expirations.{Expirations, no_expirations, cancel, extend, entry_at}
use gomembase.Stdlib.{GoText}

pub record Value (A : Type 0) : Type 0 where
  pub value : A
  pub created_at : ℕ
  pub expires_at : Option ℕ

pub record Collection (A L : Type 0) : Type 0 where
  pub wal_logger : L
  -- the field `data`
  pub entries : Dict (Value A)
  pub expirations : Expirations

-- `expiresAt != nil && expiresAt.Before(time.Now())`
unfoldable pub is_expired : ℕ → Option ℕ → Bool
is_expired now none = false
is_expired now (some t) = ltb t now

unfoldable pub new_collection : {A L : Type 0} → L → Collection A L
new_collection l = record { wal_logger = l; entries = []; expirations = no_expirations }

unfoldable pub delete_no_lock : {A L : Type 0} → Str → Collection A L → Collection A L
delete_no_lock key s = record s {
  entries = delete key s.entries;
  expirations = cancel key s.expirations;
}

-- `ls.data[key] = val`, and the expiration, if the call brings one.
unfoldable pub store : {A L : Type 0} → Str → Value A → Option ℕ → Collection A L → Collection A L
store key v expires_at s = record s {
  entries = insert key v s.entries;
  expirations = extend key expires_at s.expirations;
}

unfoldable pub key_count : {A L : Type 0} → Collection A L → ℕ
key_count s = length s.entries

-- Reset and Clear
unfoldable pub clear : {A L : Type 0} → Collection A L → Collection A L
clear s = record s { entries = []; expirations = no_expirations }

-- SnapshotList, SnapshotMembers: a copy of what is stored and not expired.
unfoldable pub snapshot : {A L : Type 0} → ℕ → Str → Collection A L → Option A
unfolding is_expired
snapshot now key s = elim (lookup key s.entries) [
  | none ↦ none
  | some v ↦ if is_expired now v.expires_at then none else some v.value
]

module _ {A L : Type 0} ⦃w : WalLogger L⦄ (engine_id : Str) where
  -- `s.walLogger.Log(s.EngineID(), action, args...)`
  unfoldable pub log : Str → List Str → Collection A L → Option Error × Collection A L
  log action args s =
      let (err, l) =
        w.log s.wal_logger (record { engine_id = engine_id; action = action; args = args }) in
      (err, record s { wal_logger = l })

  module _ ⦃g : GoText⦄ where
    abbrev pub log_delete : Str → Collection A L → Option Error × Collection A L
    log_delete key s = log (bytes "DELETE") (g.path_escape key ∷ []) s

    -- `deleteNoLock(key); _ = Log("DELETE")`
    unfoldable pub drop : Str → Collection A L → Collection A L
    drop key s = (log_delete key (delete_no_lock key s)).1

    -- Delete: the line comes first, and without it nothing is deleted.
    unfoldable pub logged_delete : Str → Collection A L → Option Error × Collection A L
    logged_delete key s =
        let (err, s') = log_delete key s in
        (err, elim err [ none ↦ delete_no_lock key s' | some e ↦ s' ])

    -- `if val, exists := data[key]; exists && … Before(time.Now()) { … }`
    unfoldable pub drop_expired : ℕ → Str → Collection A L → Collection A L
    unfolding is_expired drop
    drop_expired now key s = elim (lookup key s.entries) [
      | none ↦ s
      | some v ↦ if is_expired now v.expires_at then drop key s else s
    ]

    -- The head of the reading methods: `missing` for a key that is not there or has expired.
    unfoldable pub read_value :
        {R : Type 0} → ℕ → Str → R → (A → R) → Collection A L → R × Collection A L
    unfolding is_expired drop
    read_value now key missing f s = elim (lookup key s.entries) [
      | none ↦ (missing, s)
      | some v ↦ if is_expired now v.expires_at then (missing, drop key s) else (f v.value, s)
    ]

    unfoldable pub delete_expired_keys : ℕ → List Str → Collection A L → Collection A L
    unfolding drop_expired
    delete_expired_keys now [] s = s
    delete_expired_keys now (key ∷ keys) s = delete_expired_keys now keys (drop_expired now key s)

    -- `for Len() > 0`: an entry that expires after `now` ends the loop.
    unfoldable pub cleanup_loop : ℕ → ℕ → Collection A L → Collection A L
    unfolding drop
    cleanup_loop zero now s = s
    cleanup_loop (suc fuel) now s =
        let first = entry_at s.expirations 0 in
        let rest = cleanup_loop fuel now (drop first.key s) in
        if ltb 0 (length s.expirations.heap)
        then if ltb now first.expires_at then s else rest
        else s

    unfoldable pub cleanup_expired : ℕ → Collection A L → Collection A L
    unfolding cleanup_loop
    cleanup_expired now s = cleanup_loop (length s.expirations.heap) now s
