-- ===== src/Snapshot/Restored.antt =====
-- What LoadSnapshot makes of a snapshot that SaveSnapshot wrote (pkg/snapshot/snapshot.go).
use gomembase.Prelude.{
  ℕ, ◌-◌, ◌^◌, ◌<◌, ◌≤◌, ◌≡◌, refl, ◌∙◌, sym, ap, fun_ext, false, true, List, [], ◌∷◌, ◌++◌, Option,
  none, some, Str, bytes, length, take, ltb, All, arith, length-append, take-append, drop-append,
  append_assoc, append-nil, str_eq,
}
use gomembase.Errors.{ok, Error, snapshot_error}
use gomembase.Snapshot.{read_snapshot_header, le_bytes, validate}
use gomembase.Snapshot.Uint.{
  bound, framed, read_full-append, read_uint_value-le_bytes, read_bytes-framed,
}
use gomembase.Snapshot.File.{
  Section, Deserializer, skip_rest, load_sections, load_valid, load_snapshot,
}
use gomembase.Snapshot.Written.{section_bytes, sections_bytes, snapshot_bytes}

-- The section's name and body have lengths that their fields hold.
abbrev pub Fits : Section → Type 0
Fits (engine_id, e, body) = (length engine_id < bound 4) × (length body < 2 ^ 63)

-- A callback that leaves no more than it was given.
abbrev pub Reads : {X : Type 0} → Deserializer X → Type 0
Reads {X = X} d = (engine_id r : Str) (x : X) → length (d engine_id r x).2 ≤ length r

-- What is expected: the callback on the body of each section in order, up to the first error.
abbrev pub next_section :
    {X : Type 0} → Str → Option Error × X × Str → (X → Option Error × X) → Option Error × X
next_section path (some e, x, left) k = (some (snapshot_error path e (bytes "LOAD")), x)
next_section path (none, x, left) k = k x

unfoldable pub each_section :
    {X : Type 0} → Str → Deserializer X → List Section → X → Option Error × X
each_section path d [] x = (none, x)
each_section path d ((engine_id, e, body) ∷ ss) x =
    next_section path (d engine_id body x) (each_section path d ss)

validate-written :
    (n : ℕ) → validate (record { first_bytes = bytes "RCDB"; version = 1; count = n }) ≡ none
unfolding validate str_eq
validate-written n = refl

module _ {X : Type 0} (path : Str) (d : Deserializer X) (reads : Reads d) where
  skip_rest-body :
      (body r : Str) (o : Option Error × X × Str) (k : Str → X → Option Error × X)
      → length o.2 ≤ length body
      → skip_rest path d (length body) (body ++ r) o k ≡ next_section path o (λ x. k r x)
  unfolding skip_rest
  skip_rest-body body r (some e, x, left) k h = refl
  skip_rest-body body r (none, x, left) k h =
      let n = length body - (length (take (length body) (body ++ r)) - length left) in
      let size : n ≡ length left = omega (arith, ap length (take-append body r)) in
      let enough : ltb (length (left ++ r)) (length left) ≡ false =
        ground (arith, length-append left r) in
      rw (drop-append body r, size, enough, drop-append left r) refl

  load_sections-each_section :
      (ss : List Section) (tail : Str) (x : X)
      → All Fits ss
      → load_sections path d (length ss) (sections_bytes ss ++ tail) x ≡ each_section path d ss x
  unfolding load_sections each_section
  load_sections-each_section [] tail x h = refl
  load_sections-each_section ((engine_id, e, body) ∷ ss) tail x h =
      let rest = sections_bytes ss ++ tail in
      let size = le_bytes 8 (length body) in
      let shape : (section_bytes (engine_id, e, body) ++ sections_bytes ss) ++ tail
          ≡ framed engine_id ++ (size ++ (body ++ rest)) =
        append_assoc (section_bytes (engine_id, e, body)) (sections_bytes ss) tail
        ∙ append_assoc (framed engine_id) (size ++ body) rest
        ∙ ap (λ t. framed engine_id ++ t) (append_assoc size body rest) in
      let name = read_bytes-framed engine_id (size ++ (body ++ rest)) h.0.0 in
      let len = read_uint_value-le_bytes 8 (length body) (body ++ rest) (omega (arith, h.0.1)) in
      let small : ltb (length body) (2 ^ 63) ≡ true = ground (arith, h.0.1) in
      let whole = take-append body rest in
      rw (shape, name, len, small, whole)
        (skip_rest-body body rest (d engine_id body x) (load_sections path d (length ss))
            (reads engine_id body x)
          ∙ ap (next_section path (d engine_id body x))
              (fun_ext λ x'. load_sections-each_section ss tail x' h.1))

  read_snapshot_header-bytes :
      (n : ℕ) (tail : Str)
      → n < bound 8
      → read_snapshot_header ((bytes "RCDB" ++ (le_bytes 2 1 ++ le_bytes 8 n)) ++ tail)
        ≡ (ok (record { first_bytes = bytes "RCDB"; version = 1; count = n }), tail)
  unfolding read_snapshot_header
  read_snapshot_header-bytes n tail h =
      let shape : (bytes "RCDB" ++ (le_bytes 2 1 ++ le_bytes 8 n)) ++ tail
          ≡ bytes "RCDB" ++ (le_bytes 2 1 ++ (le_bytes 8 n ++ tail)) =
        ap (λ t. bytes "RCDB" ++ t) (append_assoc (le_bytes 2 1) (le_bytes 8 n) tail) in
      rw
        (
          shape,
          read_full-append (bytes "RCDB") (le_bytes 2 1 ++ (le_bytes 8 n ++ tail)),
          read_uint_value-le_bytes 2 1 (le_bytes 8 n ++ tail) (ground arith),
          read_uint_value-le_bytes 8 n tail h,
        )
        refl

  -- Loading what a Save wrote hands the body of each section to the callback, in the order in which
  -- they were written, up to the first error of the callback, however much of a body the callback
  -- reads; with no such error, loading reports none. There are fewer than 2 ^ 64 sections, with
  -- names of less than 4 GiB and bodies of less than 2 ^ 63 bytes.
  pub load_snapshot-snapshot_bytes :
      (ss : List Section) (x : X)
      → All Fits ss
      → length ss < bound 8
      → load_snapshot path d (snapshot_bytes ss) x ≡ each_section path d ss x
  unfolding load_snapshot load_valid
  load_snapshot-snapshot_bytes ss x fits few =
      rw
        (
          read_snapshot_header-bytes (length ss) (sections_bytes ss) few,
          validate-written (length ss),
        )
        (ap (λ r. load_sections path d (length ss) r x) (sym (append-nil (sections_bytes ss)))
          ∙ load_sections-each_section ss [] x fits)
