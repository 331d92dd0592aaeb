-- ===== src/ListStorage/Saved.antt =====
-- The state of the list engine (pkg/list_storage/list_storage.go) in a snapshot.
use gomembase.Prelude.{◌<◌, ◌≡◌, [], none, Str, length, All, ◌∙◌, arith}
use gomembase.Prelude.Dict.{lookup}
use gomembase.Snapshot.{buffer_writer}
use gomembase.Snapshot.Uint.{bound}
use gomembase.Collection.Invariant.{IsValid}
use gomembase.Collection.Codec.RoundTrip.{Fits, Distinct, list_bytes_laws}
use gomembase.Collection.Codec.Loaded.{read_back}
use gomembase.ListStorage.{ListStorage}
use gomembase.ListStorage.Keys.{serialize_state, deserialize_state}

-- A state whose keys occur once, with fewer than 2 ^ 64 lists of fewer than 2 ^ 64 elements, texts of
-- less than 4 GiB, and times whose Unix nanoseconds fit in 64 bits: serializing it to a buffer and
-- deserializing the bytes into any other state of the engine meets no error, uses up all the bytes,
-- finds the same list under each key, with its elements in order and its times, and leaves the data
-- and the expirations in agreement.
pub lists_read_back :
    {L : Type 0} (s t : ListStorage L)
    → Distinct s.entries
    → All (Fits list_bytes_laws) s.entries
    → length s.entries < bound 8
    → (let (e, body) = serialize_state buffer_writer s [] in
        let (e', t', rest) = deserialize_state body t in
        (e ≡ none)
        × (e' ≡ none)
        × (rest ≡ [])
        × ((k : Str) → lookup k t'.entries ≡ lookup k s.entries)
        × IsValid t')
unfolding serialize_state deserialize_state
lists_read_back s t distinct fits few =
    let r = read_back list_bytes_laws s t distinct fits few in
    (r.0, r.1, r.2, λ k. r.3 k ∙ ground arith, r.4)
