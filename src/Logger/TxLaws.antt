-- ===== src/Logger/TxLaws.antt =====
-- What TxWalLogger (pkg/multiplexer/tx_wal_logger.go) passes on to the real logger.
use gomembase.Prelude.{
  Str, ◌≡◌, refl, sym, ap, true, false, List, [], ◌∷◌, ◌++◌, none, arith, append_assoc, append-nil,
}
use gomembase.Logger.{
  WalEntry, WalLogger, TxWalLogger, tx_log, begin_tx, tx_begin, tx_commit, log_all, commit_tx,
  rollback_tx, tx_logger,
}

module _ {L : Type 0} ⦃w : WalLogger L⦄ where
  pub log_all-append :
      (l : L) (es fs : List WalEntry) → log_all l (es ++ fs) ≡ log_all (log_all l es) fs
  unfolding log_all
  log_all-append l [] fs = refl
  log_all-append l (e ∷ es) fs = log_all-append (w.log l e).1 es fs

  -- While a transaction is active, calls of `Log` only grow the buffer.
  log_all_active :
      (l : TxWalLogger L) (es : List WalEntry)
      → l.active ≡ true
      → log_all l es ≡ record l { buffer = l.buffer ++ es }
  unfolding log_all tx_log
  log_all_active l [] h = simp append-nil
  log_all_active l (e ∷ es) h = ground (
    arith,
    append_assoc l.buffer (e ∷ []) es,
    log_all_active (record l { buffer = l.buffer ++ e ∷ []; active = true }) es refl,
  )

  -- A committed transaction passes the calls made since BeginTx to the real logger in order,
  -- between its two markers, and leaves the logger inactive with an empty buffer.
  pub commit_tx-log_all :
      (l : TxWalLogger L) (es : List WalEntry) (id : Str)
      → commit_tx (log_all (begin_tx l) es) id ≡ (
        none,
        record {
          real = log_all l.real (tx_begin id ∷ es ++ tx_commit id ∷ []);
          buffer = [];
          active = false;
        },
      )
  unfolding commit_tx begin_tx log_all
  commit_tx-log_all l es id = rw (log_all_active (begin_tx l) es refl) (
      ap (λ r. (none, record { real = r; buffer = []; active = false }))
        (sym (log_all-append (w.log l.real (tx_begin id)).1 es (tx_commit id ∷ []))))

  -- A rolled back transaction has passed nothing to the real logger.
  pub rollback_tx-log_all :
      (l : TxWalLogger L) (es : List WalEntry)
      → rollback_tx (log_all (begin_tx l) es)
        ≡ record { real = l.real; buffer = []; active = false }
  unfolding rollback_tx begin_tx
  rollback_tx-log_all l es = rw (log_all_active (begin_tx l) es refl)
