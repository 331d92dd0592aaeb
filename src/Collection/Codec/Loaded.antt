-- ===== src/Collection/Codec/Loaded.antt =====
-- A list or set engine (pkg/list_storage, pkg/set_storage) read back from its section of a snapshot.
use gomembase.Prelude.{
  ◌<◌, ◌≡◌, refl, ◌∙◌, sym, ap, [], ◌∷◌, ◌++◌, Option, none, some, Option-cases, inl, inr, Str,
  str_eq, str_eq_iff, length, All, arith, append_assoc, append-nil, if◌then◌else◌,
}
use gomembase.Prelude.Dict.{Dict, lookup, lookup-insert, lookup-empty}
use gomembase.Errors.{Error, Result}
use gomembase.Expirations.Queue.{due, schedule-IsConsistent, due-schedule}
use gomembase.Snapshot.{buffer_writer, le_bytes, write_uint_value}
use gomembase.Snapshot.Uint.{bound, read_uint_value-le_bytes}
use gomembase.Collection.{Value, Collection, clear}
use gomembase.Collection.Invariant.{IsValid, expiry, clear-IsValid}
use gomembase.Collection.Codec.{serialize_state, load_entry, load_entries, deserialize_state}
use gomembase.Collection.Codec.RoundTrip.{
  ValueBytes, Fits, Distinct, entry_bytes, entries_bytes, write_entries-entries_bytes,
  read_entry-entry_bytes, value_as_read, entries_as_read, lookup-entries_as_read,
  entries_as_read-Distinct,
}

module _ {A L : Type 0} where
  abbrev load_all : Dict (Value A) → Collection A L → Collection A L
  load_all [] s = s
  load_all ((key, v) ∷ d) s = load_all d (load_entry key v s)

  -- No key of `d` is in the state.
  abbrev Fresh : Dict (Value A) → Collection A L → Type 0
  Fresh d s = (j : Str) (v : Value A) → lookup j d ≡ some v → lookup j s.entries ≡ none

  lookup-load_entry :
      (key j : Str) (v : Value A) (s : Collection A L)
      → lookup j (load_entry key v s).entries
        ≡ (if str_eq key j then some v else lookup j s.entries)
  unfolding load_entry
  lookup-load_entry key j v s = lookup-insert key j v s.entries

  lookup-load_all :
      (d : Dict (Value A)) (j : Str) (s : Collection A L)
      → Distinct d
      → lookup j (load_all d s).entries
        ≡ elim (lookup j d) [ none ↦ lookup j s.entries | some v ↦ some v ]
  unfolding lookup
  lookup-load_all [] j s h = refl
  lookup-load_all ((key, v) ∷ d) j s h =
      lookup-load_all d j (load_entry key v s) h.1
      ∙ ground (arith, lookup-load_entry key j v s, str_eq_iff key j, h.0)

  load_entry-IsValid :
      (key : Str) (v : Value A) (s : Collection A L)
      → lookup key s.entries ≡ none
      → IsValid s
      → IsValid (load_entry key v s)
  unfolding load_entry expiry
  load_entry-IsValid key v s fresh h =
      let free : lookup key s.expirations.map ≡ none =
        (unfold due in ground (arith, h.agree key, fresh)) in
      elim (Option-cases v.expires_at) [
        | inl e ↦ rw e (record {
          consistent = h.consistent;
          agree = λ j.
              h.agree j
              ∙ ground (arith, e, fresh, lookup-insert key j v s.entries, str_eq_iff key j);
        })
        | inr (t, e) ↦ rw e (record {
          consistent = schedule-IsConsistent s.expirations h.consistent key t free;
          agree = λ j.
              due-schedule s.expirations h.consistent key t free j
              ∙ ground (arith, e, h.agree j, lookup-insert key j v s.entries);
        })
      ]

  load_all-IsValid :
      (d : Dict (Value A)) (s : Collection A L)
      → Distinct d
      → Fresh d s
      → IsValid s
      → IsValid (load_all d s)
  unfolding lookup
  load_all-IsValid [] s h fresh v = v
  load_all-IsValid ((key, x) ∷ d) s h fresh v =
      load_all-IsValid d (load_entry key x s) h.1
        (λ j q e. ground (arith, lookup-load_entry key j x s, str_eq_iff key j, h.0, e, fresh j q))
        (load_entry-IsValid key x s (fresh key x (ground (arith, str_eq_iff key key))) v)

  module _ {write_value : A → Str → Option Error × Str} {read_value : Str → Result A × Str}
      (b : ValueBytes write_value read_value) where
    load_entries-load_all :
        (d : Dict (Value A)) (tail : Str) (s : Collection A L)
        → All (Fits b) d
        → load_entries read_value (length d) (entries_bytes b d ++ tail) s
          ≡ (none, load_all (entries_as_read b d) s, tail)
    unfolding load_entries
    load_entries-load_all [] tail s h = refl
    load_entries-load_all ((key, v) ∷ d) tail s h =
        rw
          (
            append_assoc (entry_bytes b key v) (entries_bytes b d) tail,
            read_entry-entry_bytes b key v (entries_bytes b d ++ tail) h.0,
          )
          (load_entries-load_all d tail (load_entry key (value_as_read b v) s) h.1)

    -- A state that fits, read back into any other state from the bytes that it is written to.
    pub read_back :
        (s t : Collection A L)
        → Distinct s.entries
        → All (Fits b) s.entries
        → length s.entries < bound 8
        → (let (e, body) = serialize_state buffer_writer write_value s [] in
            let (e', t', rest) = deserialize_state read_value body t in
            (e ≡ none)
            × (e' ≡ none)
            × (rest ≡ [])
            × ((k : Str)
                → lookup k t'.entries
                  ≡ elim (lookup k s.entries) [ none ↦ none | some v ↦ some (value_as_read b v) ])
            × IsValid t')
    read_back s t distinct fits few =
        let written : serialize_state buffer_writer write_value s []
            ≡ (none, le_bytes 8 (length s.entries) ++ entries_bytes b s.entries) =
          (unfold serialize_state write_uint_value in
            write_entries-entries_bytes b s.entries (le_bytes 8 (length s.entries))) in
        let loaded : deserialize_state read_value
              (le_bytes 8 (length s.entries) ++ entries_bytes b s.entries) t
            ≡ (none, load_all (entries_as_read b s.entries) (clear t), []) =
          (unfold deserialize_state in
            rw (read_uint_value-le_bytes 8 (length s.entries) (entries_bytes b s.entries) few) (
              ap (λ r. load_entries read_value (length s.entries) r (clear t))
                (sym (append-nil (entries_bytes b s.entries)))
              ∙ load_entries-load_all s.entries [] (clear t) fits)) in
        rw (written, loaded)
          (
            refl,
            refl,
            refl,
            λ k.
                lookup-load_all (entries_as_read b s.entries) k (clear t)
                  (entries_as_read-Distinct b s.entries distinct)
                ∙ unfold clear in
                  ground
                    (arith, lookup-empty {V = Value A} k, lookup-entries_as_read b k s.entries),
            load_all-IsValid (entries_as_read b s.entries) (clear t)
                (entries_as_read-Distinct b s.entries distinct)
                (λ j p e. unfold clear in lookup-empty {V = Value A} j) (clear-IsValid t),
          )
