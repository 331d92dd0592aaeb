-- ===== src/Wal/File.antt =====
-- pkg/wal/wal.go: the log file. The file itself is the operating system's, a parameter.
use Prim.Native.Nat.{ℕ}
use gomembase.Prelude.{Option, none, some, Str, bytes}
use gomembase.Errors.{
  Error, sentinel, wal_error, joined, wal_failed_to_write, wal_failed_to_read, wal_failed_to_close,
  wal_failed_to_sync, wal_failed_to_truncate,
}
use gomembase.Wal.{WalInterface, Callback}
use gomembase.Wal.Lines.{scan, apply_lines}

-- The calls on os.File and os.Truncate, with their errors. `content` is what reading from the
-- start of the file delivers, and `read_error` the error that ends it, if not the end of the file.
pub record OsFile (F : Type 0) : Type 0 where
  pub write : F → Str → (ℕ × Option Error) × F
  pub sync : F → Option Error × F
  pub close : F → Option Error × F
  pub truncate : F → Option Error × F
  pub seek_start : F → Option Error × F
  pub seek_end : F → Option Error × F
  pub content : F → Str
  pub read_error : F → Option Error

pub record Wal (F : Type 0) : Type 0 where
  pub path : Str
  pub file : F

-- errors.Join drops nil errors.
abbrev join_error : Error → Option Error → Error
join_error e none = e
join_error e (some e') = joined e e'

module _ {F : Type 0} (os : OsFile F) where
  -- An error of a call as a WalError of the operation, with the sentinel.
  report : Wal F → Error → Str → Option Error → Option Error
  report w tag operation none = none
  report w tag operation (some e) = some (wal_error w.path (joined tag e) operation)

  unfoldable pub close_file : Wal F → Option Error × Wal F
  unfolding report
  close_file w =
      let (err, f) = os.close w.file in
      (report w (sentinel wal_failed_to_close) (bytes "CLOSE") err, record w { file = f })

  unfoldable pub sync_file : Wal F → Option Error × Wal F
  unfolding report
  sync_file w =
      let (err, f) = os.sync w.file in
      (report w (sentinel wal_failed_to_sync) (bytes "SYNC") err, record w { file = f })

  unfoldable pub truncate_file : Wal F → Option Error × Wal F
  unfolding report
  truncate_file w =
      let (err, f) = os.truncate w.file in
      (report w (sentinel wal_failed_to_truncate) (bytes "TRUNCATE") err, record w { file = f })

  -- A failed write closes the file.
  unfoldable pub write_raw_file : Wal F → Str → (ℕ × Option Error) × Wal F
  write_raw_file w line =
      let (res, f) = os.write w.file line in
      let w' : Wal F = record w { file = f } in
      elim res.1 [
        | none ↦ ((res.0, none), w')
        | some e ↦
            let (err, closed) = close_file w' in
            (
              (
                0,
                some (
                    wal_error w.path (join_error (joined (sentinel wal_failed_to_write) e) err)
                      (bytes "WRITE")),
              ),
              closed,
            )
      ]

  unfoldable pub write_file : Wal F → Str → (ℕ × Option Error) × Wal F
  write_file w line =
      let (res, w') = write_raw_file w line in
      elim res.1 [
        | none ↦ (let (err, w'') = sync_file w' in ((res.0, err), w''))
        | some e ↦ ((0, some e), w')
      ]

  unfoldable pub recover_file : (S : Type 0) → Callback S → S → Wal F → Option Error × S × Wal F
  unfolding report
  recover_file S f s w =
      let (err, g) = os.seek_start w.file in
      let w' : Wal F = record w { file = g } in
      let (lines, too_long) = scan (os.content g) in
      let scan_err : Option Error = elim too_long [ some e ↦ some e | none ↦ os.read_error g ] in
      let (err', s') = apply_lines f lines s in
      let (err'', g') = os.seek_end g in
      let failed = report w (sentinel wal_failed_to_read) (bytes "READ") in
      elim err [
        | some e ↦ (failed (some e), s, w')
        | none ↦ elim err' [
          | some e ↦ (some e, s', w')
          | none ↦ elim scan_err [
            | some e ↦ (failed (some e), s', w')
            | none ↦ (failed err'', s', record w { file = g' })
          ]
        ]
      ]

  abbrev pub file_interface : WalInterface (Wal F)
  file_interface = record {
    write_to_wal = write_file;
    write_raw = write_raw_file;
    recover_from_wal = recover_file;
    close_wal = close_file;
    sync_wal = sync_file;
    truncate_wal = truncate_file;
  }
