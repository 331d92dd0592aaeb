-- ===== src/Collection/Codec/RoundTrip.antt =====
-- The entries of a list or set engine (pkg/list_storage, pkg/set_storage) read back from their bytes
-- of a snapshot, over the bytes of what is stored under a key.
use gomembase.Prelude.{
  ◌<◌, ◌≡◌, refl, ◌∙◌, sym, ap, List, [], ◌∷◌, ◌++◌, Option, none, Str, length, All, append_assoc,
  some, arith, append-nil,
}
use gomembase.Prelude.Dict.{Dict, lookup}
use gomembase.Errors.{Error, Result, ok}
use gomembase.Stdlib.{unix_nano}
use gomembase.Snapshot.{buffer_writer, le_bytes, write_uint_value, write_int64_value}
use gomembase.Snapshot.Uint.{
  bound, framed, read_uint_value-le_bytes, read_int64_value-le_bytes, read_bytes-framed,
}
use gomembase.Storage.Codec.RoundTrip.{
  IsUnix, IsUnixOption, time_bytes, expiry_bytes, unix_nano-InInt64, time_unix-unix_nano,
  write_expiry-expiry_bytes, write_bytes-framed, read_expiry-expiry_bytes,
}
use gomembase.Collection.{Value}
use gomembase.Collection.Codec.{
  write_entry, write_entries, read_entry, write_elements, write_counted, read_elements,
  read_counted,
}

-- The bytes of what is stored under a key, as they are written, and what they are read back as.
pub record ValueBytes {A : Type 0} (write_value : A → Str → Option Error × Str)
    (read_value : Str → Result A × Str) : Type 1 where
  pub value_bytes : A → Str
  pub as_read : A → A
  pub IsSmall : A → Type 0
  pub write-bytes : (v : A) (w : Str) → write_value v w ≡ (none, w ++ value_bytes v)
  pub read-bytes :
      (v : A) (tail : Str) → IsSmall v → read_value (value_bytes v ++ tail) ≡ (ok (as_read v), tail)

-- Every key occurs once, as in a Go map.
abbrev pub Distinct : {A : Type 0} → Dict A → Type 0
Distinct [] = Unit
Distinct ((key, v) ∷ d) = (lookup key d ≡ none) × Distinct d

module _ {A : Type 0} {write_value : A → Str → Option Error × Str}
    {read_value : Str → Result A × Str} (b : ValueBytes write_value read_value) where
  -- Keys of less than 4 GiB, values that are small, and times that time.Unix reads back.
  abbrev pub Fits : Str × Value A → Type 0
  Fits (key, v) =
      (length key < bound 4) × b.IsSmall v.value × IsUnix v.created_at × IsUnixOption v.expires_at

  abbrev pub value_as_read : Value A → Value A
  value_as_read v = record v { value = b.as_read v.value }

  abbrev pub entries_as_read : Dict (Value A) → Dict (Value A)
  entries_as_read [] = []
  entries_as_read ((key, v) ∷ d) = (key, value_as_read v) ∷ entries_as_read d

  pub lookup-entries_as_read :
      (j : Str) (d : Dict (Value A))
      → lookup j (entries_as_read d)
        ≡ elim (lookup j d) [ none ↦ none | some v ↦ some (value_as_read v) ]
  unfolding lookup
  lookup-entries_as_read j [] = refl
  lookup-entries_as_read j ((key, v) ∷ d) = ground (arith, lookup-entries_as_read j d)

  pub entries_as_read-Distinct : (d : Dict (Value A)) → Distinct d → Distinct (entries_as_read d)
  entries_as_read-Distinct [] h = tt
  entries_as_read-Distinct ((key, v) ∷ d) h =
      (rw (lookup-entries_as_read key d, h.0) refl, entries_as_read-Distinct d h.1)

  abbrev pub entry_bytes : Str → Value A → Str
  entry_bytes key v =
      framed key
      ++ (b.value_bytes v.value ++ (time_bytes v.created_at ++ expiry_bytes v.expires_at))

  abbrev pub entries_bytes : Dict (Value A) → Str
  entries_bytes [] = []
  entries_bytes ((key, v) ∷ d) = entry_bytes key v ++ entries_bytes d

  write_entry-entry_bytes :
      (key : Str) (v : Value A) (w : Str)
      → write_entry buffer_writer write_value key v w ≡ (none, w ++ entry_bytes key v)
  unfolding write_entry write_int64_value write_uint_value
  write_entry-entry_bytes key v w =
      let k = framed key in
      let x = b.value_bytes v.value in
      let c = time_bytes v.created_at in
      let e = expiry_bytes v.expires_at in
      rw
        (
          write_bytes-framed key w,
          b.write-bytes v.value (w ++ k),
          write_expiry-expiry_bytes v.expires_at (((w ++ k) ++ x) ++ c),
        )
        (ap (λ o. (none, o))
          (append_assoc ((w ++ k) ++ x) c e
            ∙ append_assoc (w ++ k) x (c ++ e)
            ∙ append_assoc w k (x ++ (c ++ e))))

  pub write_entries-entries_bytes :
      (d : Dict (Value A)) (w : Str)
      → write_entries buffer_writer write_value d w ≡ (none, w ++ entries_bytes d)
  unfolding write_entries
  write_entries-entries_bytes [] w = ap (λ o. (none, o)) (sym (append-nil w))
  write_entries-entries_bytes ((key, v) ∷ d) w = rw (write_entry-entry_bytes key v w) (
      write_entries-entries_bytes d (w ++ entry_bytes key v)
      ∙ ap (λ o. (none, o)) (append_assoc w (entry_bytes key v) (entries_bytes d)))

  pub read_entry-entry_bytes :
      (key : Str) (v : Value A) (tail : Str)
      → Fits (key, v)
      → read_entry read_value (entry_bytes key v ++ tail) ≡ (ok (key, value_as_read v), tail)
  unfolding read_entry
  read_entry-entry_bytes key v tail h =
      let k = framed key in
      let x = b.value_bytes v.value in
      let c = time_bytes v.created_at in
      let e = expiry_bytes v.expires_at in
      let shape : entry_bytes key v ++ tail ≡ k ++ (x ++ (c ++ (e ++ tail))) =
        append_assoc k (x ++ (c ++ e)) tail
        ∙ ap (λ o. k ++ o)
            (append_assoc x (c ++ e) tail ∙ ap (λ o. x ++ o) (append_assoc c e tail)) in
      rw
        (
          shape,
          read_bytes-framed key (x ++ (c ++ (e ++ tail))) h.0,
          b.read-bytes v.value (c ++ (e ++ tail)) h.1,
          read_int64_value-le_bytes (unix_nano v.created_at) (e ++ tail)
              (unix_nano-InInt64 v.created_at h.2),
          read_expiry-expiry_bytes v.expires_at tail h.3,
          time_unix-unix_nano v.created_at,
        )
        refl

-- The bytes of the elements of a list, each with its length, after their number.
abbrev elements_bytes : List Str → Str
elements_bytes [] = []
elements_bytes (x ∷ xs) = framed x ++ elements_bytes xs

abbrev pub counted_bytes : List Str → Str
counted_bytes xs = le_bytes 8 (length xs) ++ elements_bytes xs

-- Fewer than 2 ^ 64 elements of less than 4 GiB.
abbrev pub IsSmallList : List Str → Type 0
IsSmallList xs = (length xs < bound 8) × All (λ x. length x < bound 4) xs

write_elements-elements_bytes :
    (xs : List Str) (w : Str) → write_elements buffer_writer xs w ≡ (none, w ++ elements_bytes xs)
unfolding write_elements
write_elements-elements_bytes [] w = ap (λ o. (none, o)) (sym (append-nil w))
write_elements-elements_bytes (x ∷ xs) w = rw (write_bytes-framed x w) (
    write_elements-elements_bytes xs (w ++ framed x)
    ∙ ap (λ o. (none, o)) (append_assoc w (framed x) (elements_bytes xs)))

pub write_counted-counted_bytes :
    (xs : List Str) (w : Str) → write_counted buffer_writer xs w ≡ (none, w ++ counted_bytes xs)
unfolding write_counted write_uint_value
write_counted-counted_bytes xs w =
    write_elements-elements_bytes xs (w ++ le_bytes 8 (length xs))
    ∙ ap (λ o. (none, o)) (append_assoc w (le_bytes 8 (length xs)) (elements_bytes xs))

read_elements-elements_bytes :
    (xs : List Str) (tail : Str)
    → All (λ x. length x < bound 4) xs
    → read_elements (length xs) (elements_bytes xs ++ tail) ≡ (ok xs, tail)
unfolding read_elements
read_elements-elements_bytes [] tail h = refl
read_elements-elements_bytes (x ∷ xs) tail h =
    rw
      (
        append_assoc (framed x) (elements_bytes xs) tail,
        read_bytes-framed x (elements_bytes xs ++ tail) h.0,
        read_elements-elements_bytes xs tail h.1,
      )
      refl

pub read_counted-counted_bytes :
    (xs : List Str) (tail : Str)
    → IsSmallList xs
    → read_counted (counted_bytes xs ++ tail) ≡ (ok xs, tail)
unfolding read_counted
read_counted-counted_bytes xs tail h =
    rw
      (
        append_assoc (le_bytes 8 (length xs)) (elements_bytes xs) tail,
        read_uint_value-le_bytes 8 (length xs) (elements_bytes xs ++ tail) h.0,
      )
      (read_elements-elements_bytes xs tail h.1)

abbrev pub list_bytes_laws : ValueBytes (write_counted buffer_writer) read_counted
list_bytes_laws = record {
  value_bytes = counted_bytes;
  as_read = λ xs. xs;
  IsSmall = IsSmallList;
  write-bytes = write_counted-counted_bytes;
  read-bytes = read_counted-counted_bytes;
}
