-- ===== src/SetStorage/Keys.antt =====
-- The methods of pkg/set_storage/set_storage.go on all keys: counting, finding and deleting by
-- prefix, suffix and regular expression, the expired keys, and the state in a snapshot.
use gomembase.Prelude.{ℕ, List, [], Option, Str, has_prefix, has_suffix}
use gomembase.Prelude.Dict.{Dict}
use gomembase.Errors.{Error, Result, ok}
use gomembase.Logger.{WalLogger}
use gomembase.Stdlib.{GoText}
use gomembase.Snapshot.{Writer, and_read}
use gomembase.Collection
use gomembase.Collection.Codec
use gomembase.Collection.Codec.{write_counted, read_counted}
use gomembase.Collection.Patterns.{
  count_by, find_by, delete_by, delete_by_compiled, with_regex, as_ok,
}
use gomembase.SetStorage.{SetStorage, engine_id}
use gomembase.SetStorage.Members.{union_loop}

abbrev pub get_set_bytes_no_lock : List Str → List Str
get_set_bytes_no_lock xs = xs

unfoldable pub new_set_storage : {L : Type 0} → L → SetStorage L
new_set_storage l = Collection.new_collection l

unfoldable pub key_count : {L : Type 0} → SetStorage L → ℕ
key_count s = Collection.key_count s

unfoldable pub reset : {L : Type 0} → SetStorage L → SetStorage L
reset s = Collection.clear s

unfoldable pub clear : {L : Type 0} → SetStorage L → SetStorage L
clear s = Collection.clear s

unfoldable pub serialize_state : {L W : Type 0} → Writer W → SetStorage L → W → Option Error × W
serialize_state wr s w = Codec.serialize_state wr (write_counted wr) s w

-- `members[string(memberBytes)] = struct{}{}`: a member that is there twice counts once.
unfoldable pub read_members : Str → Result (List Str) × Str
unfolding union_loop
read_members r = and_read (read_counted r) (λ xs r'. (ok (union_loop xs []), r'))

unfoldable pub deserialize_state :
    {L : Type 0} → Str → SetStorage L → Option Error × SetStorage L × Str
deserialize_state r s = Codec.deserialize_state read_members r s

module _ {L : Type 0} ⦃w : WalLogger L⦄ ⦃g : GoText⦄ where
  unfoldable pub cleanup_expired : ℕ → SetStorage L → SetStorage L
  cleanup_expired now s = Collection.cleanup_expired engine_id now s

  unfoldable pub count_by_prefix : ℕ → Str → SetStorage L → ℕ × SetStorage L
  count_by_prefix now prefix s = count_by engine_id now (λ k. has_prefix k prefix) s

  unfoldable pub count_by_suffix : ℕ → Str → SetStorage L → ℕ × SetStorage L
  count_by_suffix now suffix s = count_by engine_id now (λ k. has_suffix k suffix) s

  unfoldable pub count_by_regex : ℕ → Str → SetStorage L → Result ℕ × SetStorage L
  count_by_regex now regex s = with_regex regex s (λ fits. as_ok (count_by engine_id now fits s))

  unfoldable pub find_by_prefix : ℕ → Str → SetStorage L → Dict (List Str) × SetStorage L
  find_by_prefix now prefix s =
      find_by engine_id now get_set_bytes_no_lock (λ k. has_prefix k prefix) s

  unfoldable pub find_by_suffix : ℕ → Str → SetStorage L → Dict (List Str) × SetStorage L
  find_by_suffix now suffix s =
      find_by engine_id now get_set_bytes_no_lock (λ k. has_suffix k suffix) s

  unfoldable pub find_by_regex : ℕ → Str → SetStorage L → Result (Dict (List Str)) × SetStorage L
  find_by_regex now regex s =
      with_regex regex s (λ fits. as_ok (find_by engine_id now get_set_bytes_no_lock fits s))

  unfoldable pub delete_by_prefix : ℕ → Str → SetStorage L → (ℕ × Option Error) × SetStorage L
  delete_by_prefix now prefix s = delete_by engine_id now (λ k. has_prefix k prefix) s

  unfoldable pub delete_by_suffix : ℕ → Str → SetStorage L → (ℕ × Option Error) × SetStorage L
  delete_by_suffix now suffix s = delete_by engine_id now (λ k. has_suffix k suffix) s

  unfoldable pub delete_by_regex : ℕ → Str → SetStorage L → (ℕ × Option Error) × SetStorage L
  delete_by_regex now regex s = delete_by_compiled engine_id now regex s
