-- ===== src/SetStorage/Saved.antt =====
-- The state of the set engine (pkg/set_storage/set_storage.go) in a snapshot.
use gomembase.Prelude.{
  ℕ, ◌<◌, ◌≡◌, ◌∙◌, ap, refl, Bool, List, [], ◌++◌, Option, none, some, Str, length, All, arith,
}
use gomembase.Prelude.Dict.{lookup}
use gomembase.Snapshot.{buffer_writer}
use gomembase.Snapshot.Uint.{bound}
use gomembase.Errors.{ok}
use gomembase.Collection.{Value}
use gomembase.Collection.Codec.{write_counted}
use gomembase.Collection.Invariant.{IsValid}
use gomembase.Collection.Codec.RoundTrip.{
  ValueBytes, value_as_read, Fits, Distinct, counted_bytes, IsSmallList,
  write_counted-counted_bytes, read_counted-counted_bytes,
}
use gomembase.Collection.Codec.Loaded.{read_back}
use gomembase.SetStorage.{SetStorage}
use gomembase.SetStorage.Members.{mem, union_loop}
use gomembase.SetStorage.Laws.{mem-union_loop}
use gomembase.SetStorage.Keys.{read_members, serialize_state, deserialize_state}

pub read_members-counted_bytes :
    (xs : List Str) (tail : Str)
    → IsSmallList xs
    → read_members (counted_bytes xs ++ tail) ≡ (ok (union_loop xs []), tail)
unfolding read_members
read_members-counted_bytes xs tail h = rw (read_counted-counted_bytes xs tail h) refl

abbrev pub set_bytes_laws : ValueBytes (write_counted buffer_writer) read_members
set_bytes_laws = record {
  value_bytes = counted_bytes;
  as_read = λ xs. union_loop xs [];
  IsSmall = IsSmallList;
  write-bytes = write_counted-counted_bytes;
  read-bytes = read_members-counted_bytes;
}

-- Whether the member is in the set, and the set's times.
abbrev pub held : Str → Option (Value (List Str)) → Option (Bool × ℕ × Option ℕ)
held m none = none
held m (some v) = some (mem m v.value, v.created_at, v.expires_at)

read_member : (m : Str) (xs : List Str) → mem m (union_loop xs []) ≡ mem m xs
unfolding mem
read_member m xs = mem-union_loop m xs [] ∙ ground arith

held-as_read :
    (m : Str) (o : Option (Value (List Str)))
    → held m (elim o [ none ↦ none | some v ↦ some (value_as_read set_bytes_laws v) ]) ≡ held m o
held-as_read m none = refl
held-as_read m (some v) = ap (λ b. some (b, v.created_at, v.expires_at)) (read_member m v.value)

-- A state whose keys occur once, with fewer than 2 ^ 64 sets of fewer than 2 ^ 64 members, texts of
-- less than 4 GiB, and times whose Unix nanoseconds fit in 64 bits: serializing it to a buffer and
-- deserializing the bytes into any other state of the engine meets no error, uses up all the bytes,
-- finds under each key a set with the same members and times, or none where there was none, and
-- leaves the data and the expirations in agreement.
pub sets_read_back :
    {L : Type 0} (s t : SetStorage L)
    → Distinct s.entries
    → All (Fits set_bytes_laws) s.entries
    → length s.entries < bound 8
    → (let (e, body) = serialize_state buffer_writer s [] in
        let (e', t', rest) = deserialize_state body t in
        (e ≡ none)
        × (e' ≡ none)
        × (rest ≡ [])
        × ((k m : Str) → held m (lookup k t'.entries) ≡ held m (lookup k s.entries))
        × IsValid t')
unfolding serialize_state deserialize_state
sets_read_back s t distinct fits few =
    let r = read_back set_bytes_laws s t distinct fits few in
    (r.0, r.1, r.2, λ k m. ap (held m) (r.3 k) ∙ held-as_read m (lookup k s.entries), r.4)
