-- ===== src/Storage/Codec/Loaded.antt =====
-- A key-value state read back from its section of a snapshot (pkg/storage/storage.go).
use gomembase.Prelude.{
  ◌<◌, ◌≡◌, refl, ◌∙◌, sym, ap, [], ◌∷◌, ◌++◌, none, some, Option-cases, inl, inr, Str, str_eq,
  str_eq_iff, length, All, arith, append_assoc, append-nil, if◌then◌else◌,
}
use gomembase.Prelude.Dict.{Dict, lookup, lookup-insert, lookup-empty}
use gomembase.Expirations.Queue.{due, schedule-IsConsistent, due-schedule}
use gomembase.Snapshot.{buffer_writer, le_bytes, write_uint_value}
use gomembase.Snapshot.Uint.{bound, read_uint_value-le_bytes}
use gomembase.Storage.{Payload, Storage}
use gomembase.Storage.Ops.{clear}
use gomembase.Storage.Invariant.{IsValid, expiry}
use gomembase.Storage.Preserved.{clear-IsValid}
use gomembase.Storage.Codec.{serialize_state, load_entry, load_entries, deserialize_state}
use gomembase.Storage.Codec.RoundTrip.{
  Fits, Distinct, entry_bytes, entries_bytes, write_entries-entries_bytes, read_entry-entry_bytes,
}

module _ {L : Type 0} where
  abbrev load_all : Dict Payload → Storage L → Storage L
  load_all [] s = s
  load_all ((key, p) ∷ d) s = load_all d (load_entry key p s)

  load_entries-load_all :
      (d : Dict Payload) (tail : Str) (s : Storage L)
      → All Fits d
      → load_entries (length d) (entries_bytes d ++ tail) s ≡ (none, load_all d s, tail)
  unfolding load_entries
  load_entries-load_all [] tail s h = refl
  load_entries-load_all ((key, p) ∷ d) tail s h =
      rw
        (
          append_assoc (entry_bytes key p) (entries_bytes d) tail,
          read_entry-entry_bytes key p (entries_bytes d ++ tail) h.0,
        )
        (load_entries-load_all d tail (load_entry key p s) h.1)

  -- No key of `d` is in the state.
  abbrev Fresh : Dict Payload → Storage L → Type 0
  Fresh d s = (j : Str) (p : Payload) → lookup j d ≡ some p → lookup j s.entries ≡ none

  lookup-load_entry :
      (key j : Str) (p : Payload) (s : Storage L)
      → lookup j (load_entry key p s).entries
        ≡ (if str_eq key j then some p else lookup j s.entries)
  unfolding load_entry
  lookup-load_entry key j p s = lookup-insert key j p s.entries

  lookup-load_all :
      (d : Dict Payload) (j : Str) (s : Storage L)
      → Distinct d
      → lookup j (load_all d s).entries
        ≡ elim (lookup j d) [ none ↦ lookup j s.entries | some p ↦ some p ]
  unfolding lookup
  lookup-load_all [] j s h = refl
  lookup-load_all ((key, p) ∷ d) j s h =
      lookup-load_all d j (load_entry key p s) h.1
      ∙ ground (arith, lookup-load_entry key j p s, str_eq_iff key j, h.0)

  load_entry-IsValid :
      (key : Str) (p : Payload) (s : Storage L)
      → lookup key s.entries ≡ none
      → IsValid s
      → IsValid (load_entry key p s)
  unfolding load_entry expiry
  load_entry-IsValid key p s fresh v =
      let free : lookup key s.expirations.map ≡ none =
        (unfold due in ground (arith, v.agree key, fresh)) in
      elim (Option-cases p.metadata.expires_at) [
        | inl e ↦ rw e (record {
          consistent = v.consistent;
          agree = λ j.
              v.agree j
              ∙ ground (arith, e, fresh, lookup-insert key j p s.entries, str_eq_iff key j);
        })
        | inr (t, e) ↦ rw e (record {
          consistent = schedule-IsConsistent s.expirations v.consistent key t free;
          agree = λ j.
              due-schedule s.expirations v.consistent key t free j
              ∙ ground (arith, e, v.agree j, lookup-insert key j p s.entries);
        })
      ]

  load_all-IsValid :
      (d : Dict Payload) (s : Storage L)
      → Distinct d
      → Fresh d s
      → IsValid s
      → IsValid (load_all d s)
  unfolding lookup
  load_all-IsValid [] s h fresh v = v
  load_all-IsValid ((key, p) ∷ d) s h fresh v =
      load_all-IsValid d (load_entry key p s) h.1
        (λ j q e. ground (arith, lookup-load_entry key j p s, str_eq_iff key j, h.0, e, fresh j q))
        (load_entry-IsValid key p s (fresh key p (ground (arith, str_eq_iff key key))) v)

  -- A state whose keys occur once, with fewer than 2 ^ 64 entries, texts of less than 4 GiB, and
  -- times whose Unix nanoseconds fit in 64 bits: serializing it to a buffer and deserializing the
  -- bytes into any other state of the engine meets no error, uses up all the bytes, finds the same
  -- payload under each key, and leaves the data and the expirations in agreement.
  pub deserialize_state-serialize_state :
      (s t : Storage L)
      → Distinct s.entries
      → All Fits s.entries
      → length s.entries < bound 8
      → (let (e, body) = serialize_state buffer_writer s [] in
          let (e', t', rest) = deserialize_state body t in
          (e ≡ none)
          × (e' ≡ none)
          × (rest ≡ [])
          × ((k : Str) → lookup k t'.entries ≡ lookup k s.entries)
          × IsValid t')
  deserialize_state-serialize_state s t distinct fits few =
      let written : serialize_state buffer_writer s []
          ≡ (none, le_bytes 8 (length s.entries) ++ entries_bytes s.entries) =
        (unfold serialize_state write_uint_value in
          write_entries-entries_bytes s.entries (le_bytes 8 (length s.entries))) in
      let loaded : deserialize_state (le_bytes 8 (length s.entries) ++ entries_bytes s.entries) t
          ≡ (none, load_all s.entries (clear t), []) =
        (unfold deserialize_state in
          rw (read_uint_value-le_bytes 8 (length s.entries) (entries_bytes s.entries) few) (
            ap (λ r. load_entries (length s.entries) r (clear t))
              (sym (append-nil (entries_bytes s.entries)))
            ∙ load_entries-load_all s.entries [] (clear t) fits)) in
      rw (written, loaded)
        (
          refl,
          refl,
          refl,
          λ k.
              lookup-load_all s.entries k (clear t) distinct
              ∙ unfold clear in ground (arith, lookup-empty {V = Payload} k),
          load_all-IsValid s.entries (clear t) distinct
              (λ j p e. unfold clear in lookup-empty {V = Payload} j) (clear-IsValid t),
        )
