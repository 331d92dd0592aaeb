-- ===== src/Wal/Buffered.antt =====
-- pkg/wal/buffered_wal.go: a buffer of lines in front of a physical log.
use gomembase.Prelude.{
  ℕ, suc, List, [], ◌∷◌, ◌++◌, Option, none, some, Str, length, drop, ltb, if◌then◌else◌,
}
use gomembase.Errors.{Error}
use gomembase.Wal.{WalInterface, Callback}

-- BufferedWal: the physical log, and the content of its WalBuffer.
pub record BufferedWal (P : Type 0) : Type 0 where
  pub physical_wal : P
  pub content : List Str

-- SaveToBuffer, ClearBuffer, BufferContent on the content.
unfoldable pub save_to_buffer : List Str → Str → List Str
save_to_buffer content line = content ++ line ∷ []

module _ {P : Type 0} (phys : WalInterface P) where
  open phys use {write_raw, sync_wal, recover_from_wal, close_wal, truncate_wal}

  -- The `for` of ExportToWal: how many lines were written before the first error, and that error.
  unfoldable pub write_lines : List Str → ℕ → P → (ℕ × Option Error) × P
  write_lines [] i p = ((i, none), p)
  write_lines (line ∷ lines) i p =
      let (res, p') = write_raw p line in
      elim res.1 [ none ↦ write_lines lines (suc i) p' | some e ↦ ((i, some e), p') ]

  sync_written : (ℕ × Option Error) × P → (ℕ × Option Error) × P
  sync_written ((n, none), p) = let (err, p') = sync_wal p in ((n, err), p')
  sync_written ((n, some e), p) = ((n, some e), p)

  unfoldable pub export_to_wal : List Str → P → (ℕ × Option Error) × P
  unfolding sync_written
  export_to_wal [] p = ((0, none), p)
  export_to_wal (line ∷ lines) p = sync_written (write_lines (line ∷ lines) 0 p)

  unfoldable pub new_buffered_wal : P → BufferedWal P
  new_buffered_wal p = record { physical_wal = p; content = [] }

  unfoldable pub buffered_write : BufferedWal P → Str → (ℕ × Option Error) × BufferedWal P
  unfolding save_to_buffer
  buffered_write bw line =
      ((length line, none), record bw { content = save_to_buffer bw.content line })

  -- Export, and cut what was written off the buffer (`if written > 0`, and cutting 0 is nothing).
  unfoldable pub flush : BufferedWal P → Option Error × BufferedWal P
  flush bw =
      let (res, p) = export_to_wal bw.content bw.physical_wal in
      (
        res.1,
        record {
          physical_wal = p;
          content = if ltb 0 res.0 then drop res.0 bw.content else bw.content;
        },
      )

  unfoldable pub buffered_sync : BufferedWal P → Option Error × BufferedWal P
  buffered_sync bw = flush bw

  unfoldable pub buffered_recover :
      (S : Type 0) → Callback S → S → BufferedWal P → Option Error × S × BufferedWal P
  buffered_recover S f s bw =
      let (err, bw') = flush bw in
      elim err [
        | some e ↦ (some e, s, bw')
        | none ↦
            let (err', s', p) = recover_from_wal S f s bw'.physical_wal in
            (err', s', record bw' { physical_wal = p })
      ]

  -- A failed flush still closes the physical log, and drops the error of that.
  unfoldable pub buffered_close : BufferedWal P → Option Error × BufferedWal P
  buffered_close bw =
      let (err, bw') = flush bw in
      let (err', p) = close_wal bw'.physical_wal in
      (elim err [ some e ↦ some e | none ↦ err' ], record bw' { physical_wal = p })

  unfoldable pub buffered_truncate : BufferedWal P → Option Error × BufferedWal P
  buffered_truncate bw =
      let (err, p) = truncate_wal bw.physical_wal in
      (err, record { physical_wal = p; content = [] })

  -- BufferedWal implements WalInterface.
  abbrev pub buffered_interface : WalInterface (BufferedWal P)
  buffered_interface = record {
    write_to_wal = buffered_write;
    write_raw = buffered_write;
    recover_from_wal = buffered_recover;
    close_wal = buffered_close;
    sync_wal = buffered_sync;
    truncate_wal = buffered_truncate;
  }
