-- ===== src/Snapshot/Tests.antt =====
-- Snapshots at concrete inputs.
use gomembase.Prelude.{
  ◌≡◌, refl, true, List, [], ◌∷◌, ◌++◌, none, some, Option-cases, inl, inr, Str, bytes, str_eq_iff,
  arith,
}
use gomembase.Prelude.Dict
use gomembase.Prelude.Dict.{Dict, lookup, insert, lookup-insert, lookup-delete}
use gomembase.Errors.{Error, foreign, ok, err}
use gomembase.Snapshot.File.{
  Snapshot, new_snapshot, Section, Deserializer, FileSystem, save, load_snapshot,
}
use gomembase.Snapshot.Written.{FileSystemLaws, snapshot_bytes}
use gomembase.Snapshot.Atomic.{save-snapshot_bytes}
use gomembase.Snapshot.Restored.{each_section, load_snapshot-snapshot_bytes}

abbrev missing : Error
missing = foreign (bytes "no such file or directory")

-- Files in memory.
abbrev pub memory_files : FileSystem (Dict Str)
memory_files = record {
  create = λ p f. (none, insert p [] f);
  write = λ p f s. elim (lookup p f) [
    | none ↦ (some missing, f)
    | some old ↦ (none, insert p (old ++ s) f)
  ];
  sync = λ p f. (none, f);
  close = λ p f. (none, f);
  rename = λ p q f. elim (lookup p f) [
    | none ↦ (some missing, f)
    | some s ↦ (none, insert q s (Dict.delete p f))
  ];
  remove = λ p f. (none, Dict.delete p f);
  open_file = λ p f. elim (lookup p f) [ none ↦ err missing | some s ↦ ok s ];
  is_not_exist = λ e. true;
}

pub memory_files-FileSystemLaws : FileSystemLaws memory_files lookup
memory_files-FileSystemLaws = record {
  create_empty = λ p f e. ground (arith, lookup-insert p p [] f, str_eq_iff p p);
  create_other = λ p q f ne. ground (arith, ne, lookup-insert p q [] f, str_eq_iff p q);
  write_adds =
      λ p f old s e found. ground (arith, found, lookup-insert p p (old ++ s) f, str_eq_iff p p);
  write_other = λ p q f s ne. elim (Option-cases (lookup p f)) [
    | inl e ↦ ground (arith, e)
    | inr (old, e) ↦ ground (arith, e, ne, lookup-insert p q (old ++ s) f, str_eq_iff p q)
  ];
  sync_keeps = λ p q f. refl;
  close_keeps = λ p q f. refl;
  rename_moves = λ p q f done. elim (Option-cases (lookup p f)) [
    | inl e ↦ absurd (ground (arith, e, done))
    | inr (s, e) ↦ ground (arith, e, lookup-insert q q s (Dict.delete p f), str_eq_iff q q)
  ];
  rename_fails = λ p q f e' failed. elim (Option-cases (lookup p f)) [
    | inl e ↦ ground (arith, e)
    | inr (s, e) ↦ absurd (ground (arith, e, failed))
  ];
  remove_other = λ p q f ne. ground (arith, ne, lookup-delete p q f, str_eq_iff p q);
}

abbrev two_sections : List Section
two_sections = (bytes "kv", none, bytes "body") ∷ (bytes "set", none, []) ∷ []

abbrev snapshot : Snapshot
snapshot = new_snapshot (bytes "snap")

save-snapshot_bytes_example :
    (let (e, f') = save memory_files snapshot two_sections [] in
      lookup snapshot.path f'
      ≡ elim e [ none ↦ some (snapshot_bytes two_sections) | some e' ↦ lookup snapshot.path [] ])
save-snapshot_bytes_example =
    save-snapshot_bytes memory_files lookup memory_files-FileSystemLaws snapshot two_sections []

-- A callback that keeps the names and leaves all bytes unread.
abbrev names : Deserializer (List Str)
names engine_id r x = (none, x ++ engine_id ∷ [], r)

load_snapshot-snapshot_bytes_example :
    load_snapshot (bytes "snap") names (snapshot_bytes two_sections) []
    ≡ each_section (bytes "snap") names two_sections []
load_snapshot-snapshot_bytes_example =
    load_snapshot-snapshot_bytes (bytes "snap") names (λ e r x. omega arith) two_sections []
      ((ground arith, ground arith), ((ground arith, ground arith), tt)) (ground arith)
