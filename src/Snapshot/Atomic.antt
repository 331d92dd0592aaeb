-- ===== src/Snapshot/Atomic.antt =====
-- Save of pkg/snapshot/snapshot.go replaces the snapshot file as a whole or not at all.
use gomembase.Prelude.{
  ◌≡◌, ◌≢◌, refl, ◌∙◌, ap, List, [], ◌++◌, Option, none, some, Option-cases, inl, inr, Str, bytes,
  length, arith, length-append,
}
use mathlib.Core.Path.{subst}
use gomembase.Errors.{Error}
use gomembase.Snapshot.{and_write, failing}
use gomembase.Snapshot.File.{
  Snapshot, Section, FileSystem, file_writer, tmp_path, removed_on_error, save_tmp, save,
}
use gomembase.Snapshot.Written.{Adds, snapshot_bytes, save_snapshot-Adds, FileSystemLaws}

path-ne-tmp_path : (p : Str) → p ≢ tmp_path p
path-ne-tmp_path p e =
    let same : length p ≡ length (p ++ bytes ".tmp") = ap length e in
    omega (arith, same, length-append p (bytes ".tmp"))

module _ {F : Type 0} (fs : FileSystem F) (content : Str → F → Option Str)
    (laws : FileSystemLaws fs content) (s : Snapshot) (b : Str) (old : Option Str) where
  -- So far the snapshot file is the old one, and the temporary file is complete.
  abbrev Ready : F → Type 0
  Ready f = (content s.path f ≡ old) × (content (tmp_path s.path) f ≡ some b)

  abbrev Kept : Option Error × F → Type 0
  Kept r = (content s.path r.1 ≡ old) × (r.0 ≡ none → content (tmp_path s.path) r.1 ≡ some b)

  abbrev Outcome : Option Error × F → Type 0
  Outcome r = content s.path r.1 ≡ elim r.0 [ none ↦ some b | some e ↦ old ]

  and_write-Outcome :
      (r : Option Error × F) (k : F → Option Error × F)
      → Kept r
      → ((f : F) → Ready f → Outcome (k f))
      → Outcome (and_write r k)
  and_write-Outcome (none, f) k h h' = h' f (h.0, h.1 refl)
  and_write-Outcome (some e, f) k h h' = h.0

  failing-Kept :
      (g : Error → Error) (f : F) (r : Option Error × F)
      → Ready f
      → content s.path r.1 ≡ content s.path f
      → content (tmp_path s.path) r.1 ≡ content (tmp_path s.path) f
      → Kept (failing g r)
  failing-Kept g f (none, f') ready same tmp = (same ∙ ready.0, λ e. tmp ∙ ready.1)
  failing-Kept g f (some e, f') ready same tmp = (same ∙ ready.0, λ e'. absurd (ground (arith, e')))

  failing-Outcome : (g : Error → Error) (r : Option Error × F) → Outcome r → Outcome (failing g r)
  failing-Outcome g (none, f) h = h
  failing-Outcome g (some e, f) h = h

  rename-Outcome : (f : F) → Ready f → Outcome (fs.rename (tmp_path s.path) s.path f)
  rename-Outcome f ready = elim (Option-cases (fs.rename (tmp_path s.path) s.path f).0) [
    | inl done ↦ rw done (laws.rename_moves (tmp_path s.path) s.path f done ∙ ready.1)
    | inr (e, bad) ↦ rw bad (laws.rename_fails (tmp_path s.path) s.path f e bad ∙ ready.0)
  ]

  create_then :
      (g : Error → Error) (r : Option Error × F) (k : F → Option Error × F)
      → content s.path r.1 ≡ old
      → (r.0 ≡ none → Outcome (k r.1))
      → Outcome (and_write (failing g r) k)
  create_then g (none, f) k h h' = h' refl
  create_then g (some e, f) k h h' = h

  removed-Outcome :
      (r : Option Error × F)
      → Outcome r
      → Outcome
          (removed_on_error (fs.remove (tmp_path s.path)) (r.0, (fs.close (tmp_path s.path) r.1).1))
  removed-Outcome (none, f) h = laws.close_keeps (tmp_path s.path) s.path f ∙ h
  removed-Outcome (some e, f) h =
      laws.remove_other (tmp_path s.path) s.path (fs.close (tmp_path s.path) f).1
        (path-ne-tmp_path s.path)
      ∙ laws.close_keeps (tmp_path s.path) s.path f
      ∙ h

module _ {F : Type 0} (fs : FileSystem F) (content : Str → F → Option Str)
    (laws : FileSystemLaws fs content) (s : Snapshot) (ss : List Section) where
  write-Adds :
      (f : F) (t : Str)
      → Adds (content s.path) (content (tmp_path s.path)) f t (fs.write (tmp_path s.path) f t)
  write-Adds f t = (
    laws.write_other (tmp_path s.path) s.path f t (path-ne-tmp_path s.path),
    λ e o eq. laws.write_adds (tmp_path s.path) f o t e eq,
  )

  save_tmp-Outcome :
      (f : F)
      → content (tmp_path s.path) f ≡ some []
      → Outcome fs content laws s (snapshot_bytes ss) (content s.path f) (save_tmp fs s ss f)
  unfolding save_tmp
  save_tmp-Outcome f empty =
      let b = snapshot_bytes ss in
      let old = content s.path f in
      let tmp = tmp_path s.path in
      let written =
        save_snapshot-Adds (file_writer fs tmp) (content s.path) (content tmp) write-Adds s.path ss
          f in
      and_write-Outcome fs content laws s b old _ _ (written.0, λ e. written.1 e [] empty)
        (λ f1 ready1.
          and_write-Outcome fs content laws s b old _ _
            (failing-Kept fs content laws s b old _ f1 (fs.sync tmp f1) ready1
              (laws.sync_keeps tmp s.path f1) (laws.sync_keeps tmp tmp f1))
            (λ f2 ready2.
              and_write-Outcome fs content laws s b old _ _
                (failing-Kept fs content laws s b old _ f2 (fs.close tmp f2) ready2
                  (laws.close_keeps tmp s.path f2) (laws.close_keeps tmp tmp f2))
                (λ f3 ready3.
                  failing-Outcome fs content laws s b old _ (fs.rename tmp s.path f3)
                    (rename-Outcome fs content laws s b old f3 ready3))))

  -- After a Save with no error the snapshot file holds the header and the sections; after one with
  -- an error, wherever it came from, the file has the content that it had, or is still missing.
  pub save-snapshot_bytes :
      (f : F)
      → (let (e, f') = save fs s ss f in
          content s.path f'
          ≡ elim e [ none ↦ some (snapshot_bytes ss) | some e' ↦ content s.path f ])
  unfolding save
  save-snapshot_bytes f =
      let tmp = tmp_path s.path in
      let other = laws.create_other tmp s.path f (path-ne-tmp_path s.path) in
      let b = snapshot_bytes ss in
      let old = content s.path f in
      let f1 = (fs.create tmp f).1 in
      create_then fs content laws s b old _ (fs.create tmp f) _ other (λ ok.
        removed-Outcome fs content laws s b old (save_tmp fs s ss f1) (
          subst (λ o. Outcome fs content laws s b o (save_tmp fs s ss f1)) other
            (save_tmp-Outcome f1 (laws.create_empty tmp f ok))))
