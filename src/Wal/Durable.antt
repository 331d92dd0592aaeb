-- ===== src/Wal/Durable.antt =====
-- The buffered log (pkg/wal/buffered_wal.go) over the log file (pkg/wal/wal.go), over a file of the
-- operating system.
use gomembase.Prelude.{
  ℕ, zero, suc, ◌≡◌, refl, sym, ap, ◌∙◌, List, [], ◌∷◌, ◌++◌, Option, none, some, Option-cases, inl,
  inr, Str, bytes, take, drop, arith, append-nil,
}
use mathlib.Core.Path.{subst}
use gomembase.Errors.{Error, sentinel, joined, wal_error, wal_failed_to_read}
use gomembase.Wal.{Callback}
use gomembase.Wal.Lines.{concat, scan, apply_lines}
use gomembase.Wal.File.{
  OsFile, Wal, file_interface, write_raw_file, sync_file, close_file, recover_file,
}
use gomembase.Wal.Buffered.{BufferedWal, flush, buffered_sync, buffered_recover}
use gomembase.Wal.Conservation.{KeepsText, head_line, write_all, write_all-content, flush-text}

-- os.File.Write appends all bytes or fewer and an error, as the log is opened with O_APPEND; the other
-- calls keep the content.
pub record OsFileLaws {F : Type 0} (os : OsFile F) : Type 0 where
  pub on_write :
      (f : F) (s : Str)
      → (let (res, f') = os.write f s in
          (m : ℕ) × (os.content f' ≡ os.content f ++ take m s) × (res.1 ≡ none → take m s ≡ s))
  pub on_sync : (f : F) → os.content (os.sync f).1 ≡ os.content f
  pub on_close : (f : F) → os.content (os.close f).1 ≡ os.content f
  pub on_seek_start : (f : F) → os.content (os.seek_start f).1 ≡ os.content f
  pub on_seek_end : (f : F) → os.content (os.seek_end f).1 ≡ os.content f

-- No error but that of a line meets a recovery from the file.
abbrev pub Readable : {F : Type 0} → OsFile F → F → Type 0
Readable os f =
    ((os.seek_start f).0 ≡ none)
    × (os.read_error (os.seek_start f).1 ≡ none)
    × ((os.seek_end (os.seek_start f).1).0 ≡ none)

-- The error of a recovery: that of the callback, or else that of a line that is too long.
abbrev pub recovery_failed : Str → Option Error → Option Error → Option Error
recovery_failed path (some e) too_long = some e
recovery_failed path none none = none
recovery_failed path none (some e) =
    some (wal_error path (joined (sentinel wal_failed_to_read) e) (bytes "READ"))

module _ {F : Type 0} (os : OsFile F) (laws : OsFileLaws os) where
  abbrev pub text_of : Wal F → Str
  text_of w = os.content w.file

  file_interface-KeepsText : KeepsText (file_interface os) text_of
  unfolding write_raw_file sync_file close_file
  file_interface-KeepsText = record {
    on_write = λ w l.
        let (m, added, whole) = laws.on_write w.file l in
        elim (Option-cases (os.write w.file l).0.1) [
          | inl ok ↦ (m, ground (arith, added), ground (arith, whole))
          | inr (e, failed) ↦
              (m, ground (arith, added, laws.on_close (os.write w.file l).1), ground arith)
        ];
    on_sync = λ w. laws.on_sync w.file;
  }

  -- SyncWal of a buffer in front of a file, where a failed write has added a part of its line or
  -- nothing and the other calls keep the file's content: for some number of lines of the buffer the
  -- file has its old content, then these lines, then a part of the next one, which is empty if the
  -- buffer is, and the other lines stay in the buffer; after a call without an error the buffer is
  -- empty.
  pub buffered_sync-text :
      (bw : BufferedWal (Wal F))
      → (let (err, bw') = buffered_sync (file_interface os) bw in
          (n m : ℕ) × (bw'.content ≡ drop n bw.content)
          × (text_of bw'.physical_wal
              ≡ (text_of bw.physical_wal ++ concat (take n bw.content))
                ++ take m (head_line bw'.content))
          × (err ≡ none → bw'.content ≡ []))
  unfolding buffered_sync
  buffered_sync-text bw = flush-text (file_interface os) text_of file_interface-KeepsText bw

  recover_file-lines :
      (S : Type 0) (f : Callback S) (s : S) (w : Wal F)
      → Readable os w.file
      → (let (found, too_long) = scan (text_of w) in
          let (err, s') = apply_lines f found s in
          let r = recover_file os S f s w in
          (r.0 ≡ recovery_failed w.path err too_long) × (r.1 ≡ s') × (text_of r.2 ≡ text_of w))
  unfolding recover_file
  recover_file-lines S f s w ready =
      let start = laws.on_seek_start w.file in
      let end = laws.on_seek_end (os.seek_start w.file).1 in
      let found = scan (text_of w) in
      elim (Option-cases (apply_lines f found.0 s).0) [
        | inr (e, failed) ↦ (
          ground (arith, ready, start, failed),
          ground (arith, ready, start, failed),
          ground (arith, ready, start, failed),
        )
        | inl done ↦ elim (Option-cases found.1) [
          | inr (e, long) ↦ (
            ground (arith, ready, start, done, long),
            ground (arith, ready, start, done, long),
            ground (arith, ready, start, done, long),
          )
          | inl short ↦ (
            ground (arith, ready, start, done, short),
            ground (arith, ready, start, done, short),
            ground (arith, ready, start, end, done, short),
          )
        ]
      ]

  take-all : (n : ℕ) (ls : List Str) → drop n ls ≡ [] → take n ls ≡ ls
  take-all zero ls h = sym h
  take-all (suc n) [] h = refl
  take-all (suc n) (l ∷ ls) h = ap (λ t. l ∷ t) (take-all n ls h)

  take_nothing : (m : ℕ) → take m (head_line []) ≡ []
  take_nothing zero = refl
  take_nothing (suc m) = refl

  -- After a flush without an error the file has its old text and that of the buffer.
  flushed-text :
      (bw : BufferedWal (Wal F))
      → (flush (file_interface os) bw).0 ≡ none
      → (let bw' = (flush (file_interface os) bw).1 in
          (bw'.content ≡ [])
          × (text_of bw'.physical_wal ≡ text_of bw.physical_wal ++ concat bw.content))
  flushed-text bw ok =
      let (n, m, kept, written, all) =
        flush-text (file_interface os) text_of file_interface-KeepsText bw in
      let empty = all ok in
      let whole : take n bw.content ≡ bw.content = take-all n bw.content (sym kept ∙ empty) in
      (
        empty,
        written
            ∙ ap
                (λ ls.
                  (text_of bw.physical_wal ++ concat ls)
                  ++ take m (head_line (flush (file_interface os) bw).1.content))
                whole
            ∙ ap (λ ls. (text_of bw.physical_wal ++ concat bw.content) ++ take m (head_line ls))
                empty
            ∙ ap (λ t. (text_of bw.physical_wal ++ concat bw.content) ++ t) (take_nothing m)
            ∙ append-nil _,
      )

  recover_flushed :
      (S : Type 0) (f : Callback S) (s : S) (bw : BufferedWal (Wal F))
      → (flush (file_interface os) bw).0 ≡ none
      → (let bw' = (flush (file_interface os) bw).1 in
          let r = recover_file os S f s bw'.physical_wal in
          buffered_recover (file_interface os) S f s bw
          ≡ (r.0, r.1, record bw' { physical_wal = r.2 }))
  unfolding buffered_recover
  recover_flushed S f s bw ok = ground (arith, ok)

  -- Lines written to a buffer in front of a file and then recovered, where the flush meets no error
  -- and the file after it can be read from its start and positioned, a failed write has added a part
  -- of its line or nothing, and the other calls keep the file's content: the file has its old text,
  -- that of the buffer and that of the new lines, in this order, the buffer is empty, the callback
  -- gets in order the lines that a scan of this text finds, up to its own first error, and the error
  -- is that of the callback, or else that of a line of 64 KiB or more, which ends the scan.
  pub buffered_recover-write_all :
      (S : Type 0) (f : Callback S) (s : S) (bw : BufferedWal (Wal F)) (ls : List Str)
      → (buffered_sync (file_interface os) (write_all (file_interface os) bw ls)).0 ≡ none
      → Readable os
          (buffered_sync
            (file_interface os)
            (write_all (file_interface os) bw ls)).1.physical_wal.file
      → (let log = file_interface os in
          let flushed = (buffered_sync log (write_all log bw ls)).1.physical_wal in
          let text = text_of bw.physical_wal ++ concat (bw.content ++ ls) in
          let (found, too_long) = scan text in
          let (err, s') = apply_lines f found s in
          let r = buffered_recover log S f s (write_all log bw ls) in
          (r.0 ≡ recovery_failed flushed.path err too_long)
          × (r.1 ≡ s')
          × (text_of r.2.physical_wal ≡ text)
          × (r.2.content ≡ []))
  unfolding buffered_sync
  buffered_recover-write_all S f s bw ls ok ready =
      let log = file_interface os in
      let full = write_all log bw ls in
      let (same, more) = write_all-content log bw ls in
      let (empty, written) = flushed-text full ok in
      let flushed = (flush log full).1.physical_wal in
      let whole = text_of bw.physical_wal ++ concat (bw.content ++ ls) in
      let text : text_of flushed ≡ whole =
        written
        ∙ ap (λ w. text_of w ++ concat full.content) same
        ∙ ap (λ c. text_of bw.physical_wal ++ concat c) more in
      let (failed, reached, kept) = recover_file-lines S f s flushed ready in
      let Q : Option Error × S × BufferedWal (Wal F) → Type 0 = λ r.
        (r.0 ≡ recovery_failed flushed.path (apply_lines f (scan whole).0 s).0 (scan whole).1)
        × (r.1 ≡ (apply_lines f (scan whole).0 s).1)
        × (text_of r.2.physical_wal ≡ whole)
        × (r.2.content ≡ []) in
      subst Q (sym (recover_flushed S f s full ok)) (
        failed
            ∙ ap (λ t. recovery_failed flushed.path (apply_lines f (scan t).0 s).0 (scan t).1) text,
        reached ∙ ap (λ t. (apply_lines f (scan t).0 s).1) text,
        kept ∙ text,
        empty,
      )
