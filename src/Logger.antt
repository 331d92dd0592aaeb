-- ===== src/Logger.antt =====
-- The loggers of storage engines: the interface persistence.WalLogger, and its implementations
-- pkg/multiplexer/scoped_logger.go and pkg/multiplexer/tx_wal_logger.go.
pub mod TxLaws
mod Tests
use gomembase.Prelude.{
  Str, bytes, Bool, true, false, List, [], ◌∷◌, ◌++◌, Option, none, some, if◌then◌else◌,
}
use gomembase.Errors.{Error}

-- The arguments of one call of `Log`.
pub record WalEntry : Type 0 where
  pub engine_id : Str
  pub action : Str
  pub args : List Str

-- An implementation of the interface, as an operation on the implementation's state.
pub record WalLogger (L : Type 0) : Type 0 where
  pub log : L → WalEntry → Option Error × L

-- ScopedWalLogger: a parent, and the identifier that is put before the arguments.
pub record ScopedWalLogger (L : Type 0) : Type 0 where
  pub parent : L
  pub uuid : Str

pub record TxWalLogger (L : Type 0) : Type 0 where
  pub real : L
  pub buffer : List WalEntry
  pub active : Bool

-- The marker lines of a transaction.
abbrev pub tx_begin : Str → WalEntry
tx_begin id = record { engine_id = bytes "tx"; action = bytes "TX_BEGIN"; args = id ∷ [] }

abbrev pub tx_commit : Str → WalEntry
tx_commit id = record { engine_id = bytes "tx"; action = bytes "TX_COMMIT"; args = id ∷ [] }

module _ {L : Type 0} ⦃w : WalLogger L⦄ where
  unfoldable pub scoped_log : ScopedWalLogger L → WalEntry → Option Error × ScopedWalLogger L
  scoped_log s e =
      let (err, parent) = w.log s.parent (record e { args = s.uuid ∷ e.args }) in
      (err, record s { parent = parent })

  unfoldable pub new_tx_wal_logger : L → TxWalLogger L
  new_tx_wal_logger real = record { real = real; buffer = []; active = false }

  unfoldable pub tx_log : TxWalLogger L → WalEntry → Option Error × TxWalLogger L
  tx_log l e =
      let (err, real) = w.log l.real e in
      if l.active
      then (none, record l { buffer = l.buffer ++ e ∷ [] })
      else (err, record l { real = real })

  unfoldable pub begin_tx : TxWalLogger L → TxWalLogger L
  begin_tx l = record l { buffer = []; active = true }

  -- `_ = l.real.Log(…)` for each entry: errors are dropped.
  unfoldable pub log_all : L → List WalEntry → L
  log_all l [] = l
  log_all l (e ∷ es) = log_all (w.log l e).1 es

  unfoldable pub commit_tx : TxWalLogger L → Str → Option Error × TxWalLogger L
  unfolding log_all
  commit_tx l id =
      if l.active
      then (
        none,
        record {
          real = (w.log (log_all (w.log l.real (tx_begin id)).1 l.buffer) (tx_commit id)).1;
          buffer = [];
          active = false;
        },
      )
      else (none, l)

  unfoldable pub rollback_tx : TxWalLogger L → TxWalLogger L
  rollback_tx l = record l { buffer = []; active = false }

-- Both are loggers again.
instance abbrev pub scoped_logger : {L : Type 0} ⦃w : WalLogger L⦄ → WalLogger (ScopedWalLogger L)
scoped_logger = record { log = scoped_log }

instance abbrev pub tx_logger : {L : Type 0} ⦃w : WalLogger L⦄ → WalLogger (TxWalLogger L)
tx_logger = record { log = tx_log }
