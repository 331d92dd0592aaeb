-- ===== src/Snapshot/File.antt =====
-- The type Snapshot of pkg/snapshot/snapshot.go: sections of engines, written to a file and read back.
use gomembase.Prelude.{
  ℕ, zero, suc, ◌-◌, ◌^◌, Bool, List, [], ◌∷◌, ◌++◌, Option, none, some, Str, bytes, length, take,
  drop, ltb, if◌then◌else◌,
}
use gomembase.Errors.{Error, snapshot_error, wrapped, foreign, Result, ok, err}
use gomembase.Snapshot.{
  Writer, and_write, failing, SnapshotHeader, create_snapshot_header, validate, write_failed,
  read_failed, write_uint_value, write_bytes, write_header, read_uint_value, read_bytes,
  read_snapshot_header,
}

pub record Snapshot : Type 0 where
  pub path : Str
  pub s_header : SnapshotHeader

unfoldable pub new_snapshot : Str → Snapshot
new_snapshot path = record { path = path; s_header = create_snapshot_header 0 }

-- A section: the engine, with the error of its serializer and what it has put in the buffer.
abbrev pub Section : Type 0
Section = Str × Option Error × Str

abbrev snapshot_failed : Str → Str → Error → Error
snapshot_failed path operation e = snapshot_error path e operation

module _ {W : Type 0} (wr : Writer W) (path : Str) where
  unfoldable pub save_section : Section → W → Option Error × W
  save_section (engine_id, none, body) w =
      failing (λ e. snapshot_failed path (bytes "WRITE") (write_failed e))
        (and_write (write_bytes wr w engine_id)
          (λ w'. and_write (write_uint_value wr 8 w' (length body)) (λ w''. wr.write w'' body)))
  save_section (engine_id, some e, body) w =
      failing (λ e'. snapshot_failed path (bytes "WRITE") (write_failed e'))
        (and_write (write_bytes wr w engine_id) (λ w'. (some e, w')))

  unfoldable pub save_sections : List Section → W → Option Error × W
  unfolding save_section
  save_sections [] w = (none, w)
  save_sections (section ∷ sections) w = and_write (save_section section w) (save_sections sections)

  unfoldable pub save_snapshot : List Section → W → Option Error × W
  unfolding save_sections
  save_snapshot sections w =
      and_write
        (failing (snapshot_failed path (bytes "SAVE")) (write_header wr w (length sections)))
        (save_sections sections)

-- What Save, Load and Delete use of the operating system: files by their paths.
pub record FileSystem (F : Type 0) : Type 0 where
  pub create : Str → F → Option Error × F
  pub write : Str → F → Str → Option Error × F
  pub sync : Str → F → Option Error × F
  pub close : Str → F → Option Error × F
  pub rename : (from to : Str) → F → Option Error × F
  pub remove : Str → F → Option Error × F
  -- the content, or the error of os.Open
  pub open_file : Str → F → Result Str
  -- errors.Is(err, os.ErrNotExist)
  pub is_not_exist : Error → Bool

abbrev pub tmp_path : Str → Str
tmp_path path = path ++ bytes ".tmp"

abbrev pub removed_on_error :
    {F : Type 0} → (F → Option Error × F) → Option Error × F → Option Error × F
removed_on_error remove (none, f) = (none, f)
removed_on_error remove (some e, f) = (some e, (remove f).1)

module _ {F : Type 0} (fs : FileSystem F) where
  abbrev pub file_writer : Str → Writer F
  file_writer path = record { write = fs.write path }

  -- The body of Save between the creation of the file and the deferred call.
  unfoldable pub save_tmp : Snapshot → List Section → F → Option Error × F
  unfolding save_snapshot
  save_tmp s sections f =
      let tmp = tmp_path s.path in
      and_write (save_snapshot (file_writer tmp) s.path sections f) (λ f1.
        and_write
          (failing
            (λ e.
              snapshot_failed tmp (bytes "SYNC") (wrapped (bytes "failed to sync snapshot file") e))
            (fs.sync tmp f1))
          (λ f2.
            and_write
              (failing
                (λ e.
                  snapshot_failed tmp (bytes "CLOSE")
                    (wrapped (bytes "failed to close snapshot file") e))
                (fs.close tmp f2))
              (λ f3.
                failing
                  (λ e.
                    snapshot_failed s.path (bytes "RENAME")
                      (wrapped (bytes "failed to rename snapshot file") e))
                  (fs.rename tmp s.path f3))))

  unfoldable pub save : Snapshot → List Section → F → Option Error × F
  unfolding save_tmp
  save s sections f =
      let tmp = tmp_path s.path in
      and_write
        (failing
          (λ e.
            snapshot_failed tmp (bytes "CREATE")
              (wrapped (bytes "failed to create temporary snapshot file") e))
          (fs.create tmp f))
        (λ f1.
          let (e, f2) = save_tmp s sections f1 in
          removed_on_error (fs.remove tmp) (e, (fs.close tmp f2).1))

  unfoldable pub delete : Snapshot → F → Option Error × F
  delete s f =
      let (e, f') = fs.remove s.path f in
      (
        elim e [
          | none ↦ none
          | some e' ↦
              if fs.is_not_exist e'
              then none
              else some (
                  snapshot_failed s.path (bytes "DELETE")
                    (wrapped (bytes "failed to delete snapshot file") e'))
        ],
        f',
      )

-- `int64(sectionLen)` as a limit: a negative one admits no byte.
abbrev pub limit_of : ℕ → ℕ
limit_of n = if ltb n (2 ^ 63) then n else 0

-- What a read gives to the rest of the loading, which ends at an error.
abbrev pub or_stop :
    {A X : Type 0}
    → (Error → Error)
    → X
    → Result A × Str
    → (A → Str → Option Error × X)
    → Option Error × X
or_stop f x (ok a, r) k = k a r
or_stop f x (err e, r) k = (some (f e), x)

-- The callback: the engine, the reader of its section, and the state; it returns an error, the
-- state, and the bytes of the section that it left.
abbrev pub Deserializer : Type 0 → Type 0
Deserializer X = Str → Str → X → Option Error × X × Str

module _ {X : Type 0} (path : Str) (deserialize : Deserializer X) where
  abbrev read_stop :
      {A : Type 0} → X → Result A × Str → (A → Str → Option Error × X) → Option Error × X
  read_stop = or_stop (λ e. snapshot_failed path (bytes "READ") (read_failed e))

  -- After the callback: the rest of the section is skipped.
  unfoldable pub skip_rest :
      ℕ → Str → Option Error × X × Str → (Str → X → Option Error × X) → Option Error × X
  skip_rest limit r (some e, x, left) k = (some (snapshot_failed path (bytes "LOAD") e), x)
  skip_rest limit r (none, x, left) k =
      let remaining = limit - (length (take limit r) - length left) in
      let after = left ++ drop limit r in
      if ltb (length after) remaining
      then (some (snapshot_failed path (bytes "READ") (read_failed (foreign (bytes "EOF")))), x)
      else k (drop remaining after) x

  unfoldable pub load_sections : ℕ → Str → X → Option Error × X
  unfolding skip_rest
  load_sections zero r x = (none, x)
  load_sections (suc n) r x = read_stop x (read_bytes r) (λ engine_id r'.
      read_stop x (read_uint_value 8 r') (λ section_len r''.
        let limit = limit_of section_len in
        skip_rest limit r'' (deserialize engine_id (take limit r'') x) (load_sections n)))

  unfoldable pub load_valid : SnapshotHeader → Str → X → Option Error → Option Error × X
  unfolding load_sections
  load_valid header r x (some e) = (some (snapshot_failed path (bytes "LOAD") e), x)
  load_valid header r x none = load_sections header.count r x

  unfoldable pub load_snapshot : Str → X → Option Error × X
  unfolding load_valid
  load_snapshot r x =
      or_stop (snapshot_failed path (bytes "LOAD")) x (read_snapshot_header r)
        (λ header r'. load_valid header r' x (validate header))

-- The header that LoadSnapshot leaves in the snapshot.
unfoldable pub loaded_header : Str → Snapshot → Snapshot
loaded_header r s = elim (read_snapshot_header r).0 [
  | err e ↦ s
  | ok header ↦ elim (validate header) [ none ↦ record s { s_header = header } | some e ↦ s ]
]

unfoldable pub load_opened :
    {X : Type 0} → Snapshot → Deserializer X → X → Result Str → Option Error × X
unfolding load_snapshot
load_opened s deserialize x (ok r) = load_snapshot s.path deserialize r x
load_opened s deserialize x (err e) = (
  some (snapshot_failed s.path (bytes "OPEN") (wrapped (bytes "failed to open snapshot file") e)),
  x,
)

-- Load on the file system.
unfoldable pub load :
    {F X : Type 0} → FileSystem F → Snapshot → Deserializer X → F → X → Option Error × X
unfolding load_opened
load fs s deserialize f x = load_opened s deserialize x (fs.open_file s.path f)
