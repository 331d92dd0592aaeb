-- ===== src/ListStorage/Keys.antt =====
-- The methods of pkg/list_storage/list_storage.go on all keys: counting, finding and deleting by
-- prefix, suffix and regular expression, the expired keys, and the state in a snapshot.
use gomembase.Prelude.{ℕ, List, Option, Str, has_prefix, has_suffix}
use gomembase.Prelude.Dict.{Dict}
use gomembase.Errors.{Error, Result}
use gomembase.Logger.{WalLogger}
use gomembase.Stdlib.{GoText}
use gomembase.Snapshot.{Writer}
use gomembase.Collection
use gomembase.Collection.Codec
use gomembase.Collection.Codec.{write_counted, read_counted}
use gomembase.Collection.Patterns.{
  count_by, find_by, delete_by, delete_by_compiled, with_regex, as_ok,
}
use gomembase.ListStorage.{ListStorage, engine_id}

abbrev pub list_bytes : List Str → List Str
list_bytes xs = xs

unfoldable pub new_list_storage : {L : Type 0} → L → ListStorage L
new_list_storage l = Collection.new_collection l

unfoldable pub key_count : {L : Type 0} → ListStorage L → ℕ
key_count s = Collection.key_count s

unfoldable pub reset : {L : Type 0} → ListStorage L → ListStorage L
reset s = Collection.clear s

unfoldable pub clear : {L : Type 0} → ListStorage L → ListStorage L
clear s = Collection.clear s

unfoldable pub serialize_state : {L W : Type 0} → Writer W → ListStorage L → W → Option Error × W
serialize_state wr s w = Codec.serialize_state wr (write_counted wr) s w

unfoldable pub deserialize_state :
    {L : Type 0} → Str → ListStorage L → Option Error × ListStorage L × Str
deserialize_state r s = Codec.deserialize_state read_counted r s

module _ {L : Type 0} ⦃w : WalLogger L⦄ ⦃g : GoText⦄ where
  unfoldable pub cleanup_expired : ℕ → ListStorage L → ListStorage L
  cleanup_expired now s = Collection.cleanup_expired engine_id now s

  unfoldable pub count_by_prefix : ℕ → Str → ListStorage L → ℕ × ListStorage L
  count_by_prefix now prefix s = count_by engine_id now (λ k. has_prefix k prefix) s

  unfoldable pub count_by_suffix : ℕ → Str → ListStorage L → ℕ × ListStorage L
  count_by_suffix now suffix s = count_by engine_id now (λ k. has_suffix k suffix) s

  unfoldable pub count_by_regex : ℕ → Str → ListStorage L → Result ℕ × ListStorage L
  count_by_regex now regex s = with_regex regex s (λ fits. as_ok (count_by engine_id now fits s))

  unfoldable pub find_by_prefix : ℕ → Str → ListStorage L → Dict (List Str) × ListStorage L
  find_by_prefix now prefix s = find_by engine_id now list_bytes (λ k. has_prefix k prefix) s

  unfoldable pub find_by_suffix : ℕ → Str → ListStorage L → Dict (List Str) × ListStorage L
  find_by_suffix now suffix s = find_by engine_id now list_bytes (λ k. has_suffix k suffix) s

  unfoldable pub find_by_regex : ℕ → Str → ListStorage L → Result (Dict (List Str)) × ListStorage L
  find_by_regex now regex s =
      with_regex regex s (λ fits. as_ok (find_by engine_id now list_bytes fits s))

  unfoldable pub delete_by_prefix : ℕ → Str → ListStorage L → (ℕ × Option Error) × ListStorage L
  delete_by_prefix now prefix s = delete_by engine_id now (λ k. has_prefix k prefix) s

  unfoldable pub delete_by_suffix : ℕ → Str → ListStorage L → (ℕ × Option Error) × ListStorage L
  delete_by_suffix now suffix s = delete_by engine_id now (λ k. has_suffix k suffix) s

  unfoldable pub delete_by_regex : ℕ → Str → ListStorage L → (ℕ × Option Error) × ListStorage L
  delete_by_regex now regex s = delete_by_compiled engine_id now regex s
