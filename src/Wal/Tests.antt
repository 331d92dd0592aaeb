-- ===== src/Wal/Tests.antt =====
-- The buffered log at concrete inputs.
use Prim.Native.String.{String}
use gomembase.Prelude.{
  ℕ, ◌≡◌, refl, ap, Bool, true, false, ◌&&◌, Bool-cases, inl, inr, List, [], ◌∷◌, ◌++◌, Option,
  none, some, Str, bytes, length, take, drop, leb, append-nil, arith, if◌then◌else◌,
}
use gomembase.Errors.{Error, foreign}
use gomembase.Wal.{Callback}
use gomembase.Wal.Lines.{newline, concat, scan, apply_lines}
use gomembase.Wal.File.{OsFile, Wal, file_interface, write_raw_file, close_file, sync_file}
use gomembase.Wal.Buffered.{
  BufferedWal, buffered_sync, buffered_recover, flush, export_to_wal, write_lines, buffered_write,
}
use gomembase.Wal.Conservation.{head_line, write_all}
use gomembase.Wal.Durable.{
  OsFileLaws, Readable, recovery_failed, buffered_sync-text, buffered_recover-write_all,
}

-- A file in memory that takes at most three bytes of a line, and nothing more once it is closed.
record MemoryFile : Type 0 where
  pub bytes_in : Str
  pub is_open : Bool

abbrev closed_error : Error
closed_error = foreign (bytes "file already closed")

abbrev memory_write : MemoryFile → Str → (ℕ × Option Error) × MemoryFile
memory_write f s =
    if f.is_open && leb (length s) 3
    then ((length s, none), record f { bytes_in = f.bytes_in ++ s })
    else if f.is_open
    then ((3, some closed_error), record f { bytes_in = f.bytes_in ++ take 3 s })
    else ((0, some closed_error), f)

abbrev memory_file : OsFile MemoryFile
memory_file = record {
  write = memory_write;
  sync = λ f. (none, f);
  close = λ f. (none, record f { is_open = false });
  truncate = λ f. (none, record f { bytes_in = [] });
  seek_start = λ f. (none, f);
  seek_end = λ f. (none, f);
  content = λ f. f.bytes_in;
  read_error = λ f. none;
}

take-length : (s : Str) → take (length s) s ≡ s
take-length [] = refl
take-length (c ∷ s) = ap (λ t. c ∷ t) (take-length s)

memory_write-take :
    (f : MemoryFile) (s : Str)
    → (let (res, f') = memory_write f s in
        (m : ℕ) × (f'.bytes_in ≡ f.bytes_in ++ take m s) × (res.1 ≡ none → take m s ≡ s))
memory_write-take f s = elim (Bool-cases f.is_open) [
  | inl o ↦ elim (Bool-cases (leb (length s) 3)) [
    | inl short ↦ (length s, ground (arith, o, short, take-length s), λ e. take-length s)
    | inr long ↦ (3, ground (arith, o, long), ground (arith, o, long))
  ]
  | inr c ↦ (0, ground (arith, c, append-nil f.bytes_in), ground (arith, c))
]

memory_file-OsFileLaws : OsFileLaws memory_file
memory_file-OsFileLaws = record {
  on_write = memory_write-take;
  on_sync = λ f. refl;
  on_close = λ f. refl;
  on_seek_start = λ f. refl;
  on_seek_end = λ f. refl;
}

abbrev line : String → Str
line s = bytes s ++ newline ∷ []

abbrev log_with : Str → List Str → BufferedWal (Wal MemoryFile)
log_with old content = record {
  physical_wal = record { path = bytes "wal"; file = record { bytes_in = old; is_open = true } };
  content = content;
}

-- The second line of the buffer is written in part.
abbrev blocked : BufferedWal (Wal MemoryFile)
blocked = log_with (line "a") (line "b" ∷ line "long" ∷ line "c" ∷ [])

buffered_sync-text_example :
    (let (err, bw') = buffered_sync (file_interface memory_file) blocked in
      (n m : ℕ) × (bw'.content ≡ drop n blocked.content)
      × (bw'.physical_wal.file.bytes_in
          ≡ (line "a" ++ concat (take n blocked.content)) ++ take m (head_line bw'.content))
      × (err ≡ none → bw'.content ≡ []))
buffered_sync-text_example = buffered_sync-text memory_file memory_file-OsFileLaws blocked

-- The first line is written, and the two others stay in the buffer.
blocked_keeps :
    ((buffered_sync (file_interface memory_file) blocked).1.content ≡ line "long" ∷ line "c" ∷ [])
    × ((buffered_sync (file_interface memory_file) blocked).1.physical_wal.file.bytes_in
        ≡ (line "a" ++ line "b") ++ bytes "lon")
unfolding buffered_sync flush export_to_wal write_lines write_raw_file close_file
blocked_keeps = (refl, refl)

abbrev buffered : BufferedWal (Wal MemoryFile)
buffered = log_with (line "a") (line "b" ∷ [])

-- A callback that collects the lines.
abbrev collect : Callback (List Str)
collect l s = (none, s ++ l ∷ [])

collected_flush :
    (let log = file_interface memory_file in
      ((buffered_sync log (write_all log buffered (line "c" ∷ []))).0 ≡ none)
      × Readable memory_file
          (buffered_sync log (write_all log buffered (line "c" ∷ []))).1.physical_wal.file)
unfolding buffered_sync flush export_to_wal write_lines buffered_write write_raw_file close_file
    sync_file
collected_flush = (refl, (refl, refl, refl))

buffered_recover-write_all_example :
    (let log = file_interface memory_file in
      let flushed = (buffered_sync log (write_all log buffered (line "c" ∷ []))).1.physical_wal in
      let text = line "a" ++ concat (line "b" ∷ line "c" ∷ []) in
      let (found, too_long) = scan text in
      let (err, s') = apply_lines collect found [] in
      let r = buffered_recover log (List Str) collect [] (write_all log buffered (line "c" ∷ [])) in
      (r.0 ≡ recovery_failed flushed.path err too_long)
      × (r.1 ≡ s')
      × (r.2.physical_wal.file.bytes_in ≡ text)
      × (r.2.content ≡ []))
buffered_recover-write_all_example =
    buffered_recover-write_all memory_file memory_file-OsFileLaws (List Str) collect [] buffered
      (line "c" ∷ []) collected_flush.0 collected_flush.1

collected_scan :
    scan (line "a" ++ concat (line "b" ∷ line "c" ∷ []))
    ≡ (bytes "a" ∷ bytes "b" ∷ bytes "c" ∷ [], none)
unfolding scan concat
collected_scan = refl
