-- ===== src/Snapshot/Written.antt =====
-- What SaveSnapshot and Save leave in a file (pkg/snapshot/snapshot.go).
use gomembase.Prelude.{
  ℕ, ◌≡◌, ◌≢◌, refl, ◌∙◌, sym, ap, List, [], ◌∷◌, ◌++◌, Option, none, some, Str, bytes, length,
  arith, append_assoc, append-nil,
}
use gomembase.Errors.{Error}
use gomembase.Snapshot.{
  Writer, and_write, failing, le_bytes, write_uint_value, write_bytes, write_header,
  create_snapshot_header,
}
use gomembase.Snapshot.Uint.{framed}
use gomembase.Snapshot.File.{Section, save_section, save_sections, save_snapshot, FileSystem}

-- The bytes of a section, and of a snapshot.
abbrev pub section_bytes : Section → Str
section_bytes (engine_id, e, body) = framed engine_id ++ (le_bytes 8 (length body) ++ body)

abbrev pub sections_bytes : List Section → Str
sections_bytes [] = []
sections_bytes (s ∷ ss) = section_bytes s ++ sections_bytes ss

abbrev pub snapshot_bytes : List Section → Str
snapshot_bytes ss = (bytes "RCDB" ++ (le_bytes 2 1 ++ le_bytes 8 (length ss))) ++ sections_bytes ss

-- From `w`, a call has kept the view, and unless it failed it has added `s` to the output.
module _ {W V : Type 0} (view : W → V) (out : W → Option Str) where
  abbrev pub Adds : W → Str → Option Error × W → Type 0
  Adds w s r =
      (view r.1 ≡ view w) × (r.0 ≡ none → (o : Str) → out w ≡ some o → out r.1 ≡ some (o ++ s))

  and_write-Adds :
      (w : W) (s t : Str) (r : Option Error × W) (k : W → Option Error × W)
      → Adds w s r
      → ((w' : W) → Adds w' t (k w'))
      → Adds w (s ++ t) (and_write r k)
  and_write-Adds w s t (none, w') k h h' = (
    (h' w').0 ∙ h.0,
    λ e o eq. (h' w').1 e (o ++ s) (h.1 refl o eq) ∙ ap some (append_assoc o s t),
  )
  and_write-Adds w s t (some e', w') k h h' = (h.0, λ e o eq. absurd (ground (arith, e)))

  failing-Adds :
      (w : W) (s : Str) (f : Error → Error) (r : Option Error × W)
      → Adds w s r
      → Adds w s (failing f r)
  failing-Adds w s f (none, w') h = h
  failing-Adds w s f (some e', w') h = (h.0, λ e o eq. absurd (ground (arith, e)))

  failed : (w : W) (s : Str) (e : Error) → Adds w s (some e, w)
  failed w s e = (refl, λ e' o eq. absurd (ground (arith, e')))

module _ {W V : Type 0} (wr : Writer W) (view : W → V) (out : W → Option Str)
    (adds : (w : W) (s : Str) → Adds view out w s (wr.write w s)) where
  write_uint_value-Adds :
      (n v : ℕ) (w : W) → Adds view out w (le_bytes n v) (write_uint_value wr n w v)
  unfolding write_uint_value
  write_uint_value-Adds n v w = adds w (le_bytes n v)

  write_bytes-Adds : (w : W) (s : Str) → Adds view out w (framed s) (write_bytes wr w s)
  unfolding write_bytes
  write_bytes-Adds w s =
      and_write-Adds view out w (le_bytes 4 (length s)) s (write_uint_value wr 4 w (length s))
        (λ w'. wr.write w' s) (write_uint_value-Adds 4 (length s) w) (λ w'. adds w' s)

  write_header-Adds :
      (w : W) (n : ℕ)
      → Adds view out w (bytes "RCDB" ++ (le_bytes 2 1 ++ le_bytes 8 n)) (write_header wr w n)
  unfolding write_header create_snapshot_header
  write_header-Adds w n = failing-Adds view out w _ _ _ (
      and_write-Adds view out w (bytes "RCDB") (le_bytes 2 1 ++ le_bytes 8 n) _ _
        (adds w (bytes "RCDB"))
        (λ w'.
          and_write-Adds view out w' (le_bytes 2 1) (le_bytes 8 n) _ _
            (write_uint_value-Adds 2 1 w') (λ w''. write_uint_value-Adds 8 n w'')))

  save_section-Adds :
      (path : Str) (s : Section) (w : W)
      → Adds view out w (section_bytes s) (save_section wr path s w)
  unfolding save_section
  save_section-Adds path (engine_id, none, body) w = failing-Adds view out w _ _ _ (
      and_write-Adds view out w (framed engine_id) (le_bytes 8 (length body) ++ body) _ _
        (write_bytes-Adds w engine_id)
        (λ w'.
          and_write-Adds view out w' (le_bytes 8 (length body)) body _ _
            (write_uint_value-Adds 8 (length body) w') (λ w''. adds w'' body)))
  save_section-Adds path (engine_id, some e, body) w = failing-Adds view out w _ _ _ (
      and_write-Adds view out w (framed engine_id) (le_bytes 8 (length body) ++ body) _ _
        (write_bytes-Adds w engine_id)
        (λ w'. failed view out w' (le_bytes 8 (length body) ++ body) e))

  save_sections-Adds :
      (path : Str) (ss : List Section) (w : W)
      → Adds view out w (sections_bytes ss) (save_sections wr path ss w)
  unfolding save_sections
  save_sections-Adds path [] w = (refl, λ e o eq. eq ∙ ap some (sym (append-nil o)))
  save_sections-Adds path (s ∷ ss) w =
      and_write-Adds view out w (section_bytes s) (sections_bytes ss) _ _
        (save_section-Adds path s w) (save_sections-Adds path ss)

  pub save_snapshot-Adds :
      (path : Str) (ss : List Section) (w : W)
      → Adds view out w (snapshot_bytes ss) (save_snapshot wr path ss w)
  unfolding save_snapshot
  save_snapshot-Adds path ss w =
      and_write-Adds view out w _ (sections_bytes ss) _ _
        (failing-Adds view out w _ _ _ (write_header-Adds w (length ss)))
        (save_sections-Adds path ss)

-- The content of a file, or `none` where there is none, and what Save relies on: each call touches
-- the named files alone, and does what its name says if it reports no error.
pub record FileSystemLaws {F : Type 0} (fs : FileSystem F) (content : Str → F → Option Str)
    : Type 0 where
  pub create_empty :
      (p : Str) (f : F) → (fs.create p f).0 ≡ none → content p (fs.create p f).1 ≡ some []
  pub create_other : (p q : Str) (f : F) → q ≢ p → content q (fs.create p f).1 ≡ content q f
  pub write_adds :
      (p : Str) (f : F) (old s : Str)
      → (fs.write p f s).0 ≡ none
      → content p f ≡ some old
      → content p (fs.write p f s).1 ≡ some (old ++ s)
  pub write_other :
      (p q : Str) (f : F) (s : Str) → q ≢ p → content q (fs.write p f s).1 ≡ content q f
  pub sync_keeps : (p q : Str) (f : F) → content q (fs.sync p f).1 ≡ content q f
  pub close_keeps : (p q : Str) (f : F) → content q (fs.close p f).1 ≡ content q f
  pub rename_moves :
      (p q : Str) (f : F) → (fs.rename p q f).0 ≡ none → content q (fs.rename p q f).1 ≡ content p f
  pub rename_fails :
      (p q : Str) (f : F) (e : Error)
      → (fs.rename p q f).0 ≡ some e
      → content q (fs.rename p q f).1 ≡ content q f
  pub remove_other : (p q : Str) (f : F) → q ≢ p → content q (fs.remove p f).1 ≡ content q f
