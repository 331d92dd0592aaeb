-- ===== src/Wal.antt =====
-- The write-ahead log: pkg/wal/wal.go (the interface WalInterface and the log file) and
-- pkg/wal/buffered_wal.go (the buffer before it).
pub mod Lines
pub mod Buffered
pub mod File
pub mod Conservation
pub mod Durable
mod Tests
use gomembase.Prelude.{Str, ℕ, Option, List}
use gomembase.Errors.{Error}

-- A callback of RecoverFromWal over the state `S` that its closure reaches.
abbrev pub Callback : Type 0 → Type 0
Callback S = Str → S → Option Error × S

-- An implementation of WalInterface, as operations on its state. Writers also return a length.
pub record WalInterface (P : Type 0) : Type 1 where
  pub write_to_wal : P → Str → (ℕ × Option Error) × P
  pub write_raw : P → Str → (ℕ × Option Error) × P
  pub recover_from_wal : (S : Type 0) → Callback S → S → P → Option Error × S × P
  pub close_wal : P → Option Error × P
  pub sync_wal : P → Option Error × P
  pub truncate_wal : P → Option Error × P
