-- ===== src/Storage.antt =====
-- pkg/storage/storage.go and payload.go: the key-value engine. An operation takes the time of its
-- calls of time.Now, and the state with the logger's. Locks are held for a whole operation.
pub mod Ops
pub mod Reads
pub mod Patterns
pub mod Wal
pub mod Invariant
pub mod Preserved
pub mod Calls
pub mod Codec
pub mod Cleanup
mod Tests
use gomembase.Prelude.{
  ℕ, Bool, true, false, List, [], ◌∷◌, ◌++◌, Option, none, some, Str, bytes, ltb, if◌then◌else◌,
}
use gomembase.Prelude.Dict.{Dict, lookup, insert, delete}
use gomembase.Errors.{Error}
use gomembase.Logger.{WalEntry, WalLogger}
use gomembase.Expirations.{Expirations, no_expirations, cancel, schedule, reschedule}
use gomembase.Stdlib.{GoText}

pub record PayloadMetadata : Type 0 where
  pub created_at : ℕ
  pub expires_at : Option ℕ

pub record Payload : Type 0 where
  pub value : Str
  pub metadata : PayloadMetadata

unfoldable pub is_expired : ℕ → PayloadMetadata → Bool
is_expired now m = elim m.expires_at [ none ↦ false | some t ↦ ltb t now ]

pub record Storage (L : Type 0) : Type 0 where
  pub wal_logger : L
  -- the field `data`
  pub entries : Dict Payload
  pub expirations : Expirations

unfoldable pub new_storage : {L : Type 0} → L → Storage L
new_storage l = record { wal_logger = l; entries = []; expirations = no_expirations }

abbrev pub engine_id : Str
engine_id = bytes "kv"

unfoldable pub delete_no_lock : {L : Type 0} → Str → Storage L → Storage L
delete_no_lock key s = record s {
  entries = delete key s.entries;
  expirations = cancel key s.expirations;
}

-- `s.walLogger.Log(s.EngineID(), action, args...)`
unfoldable pub log :
    {L : Type 0} ⦃w : WalLogger L⦄ → Str → List Str → Storage L → Option Error × Storage L
log ⦃w⦄ action args s =
    let (err, l) =
      w.log s.wal_logger (record { engine_id = engine_id; action = action; args = args }) in
    (err, record s { wal_logger = l })

-- The writes of Set and of the replay of SET: the data, and the expiration in place of the old one.
unfoldable pub put : {L : Type 0} → Str → Payload → Storage L → Storage L
put key p s = record s {
  entries = insert key p s.entries;
  expirations = reschedule key p.metadata.expires_at s.expirations;
}

module _ {L : Type 0} ⦃w : WalLogger L⦄ ⦃g : GoText⦄ where
  abbrev pub log_delete : Str → Storage L → Option Error × Storage L
  log_delete key s = log (bytes "DELETE") (g.path_escape key ∷ []) s

  -- `if err := Log(DELETE); err == nil { deleteNoLock }`, with the error for callers that return it
  unfoldable pub logged_delete : Str → Storage L → Option Error × Storage L
  logged_delete key s =
      let (err, s') = log_delete key s in
      (err, elim err [ none ↦ delete_no_lock key s' | some e ↦ s' ])

abbrev pub expires_str : ⦃g : GoText⦄ → Option ℕ → Str
expires_str none = bytes "PERSISTENT"
expires_str ⦃g⦄ (some t) = g.format_rfc3339 t

-- The arguments of the line that a write logs.
abbrev pub set_args : ⦃g : GoText⦄ → Str → Payload → List Str
set_args ⦃g⦄ key p =
    g.path_escape key ∷ g.base64_encode p.value ∷ expires_str p.metadata.expires_at ∷ []
