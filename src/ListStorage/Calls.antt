-- ===== src/ListStorage/Calls.antt =====
-- Sequences of calls of the list engine (pkg/list_storage/list_storage.go), each at its own time.
use gomembase.Prelude.{
  ℕ, ◌+◌, ◌≡◌, ◌≢◌, ◌⊎◌, All, Bool, true, false, List, [], ◌∷◌, Option, none, some, Str, has_prefix,
  has_suffix, length,
}
use gomembase.Prelude.Int.{ℤ, pos, negsuc}
use gomembase.Logger.{WalLogger}
use gomembase.Stdlib.{GoText}
use gomembase.Collection.Patterns.{delete_by_compiled}
use gomembase.Collection.Invariant.{
  IsValid, Leaves, result_intro, new_collection-IsValid, clear-IsValid, log-IsValid,
  logged_delete-IsValid, read_value-IsValid, cleanup_expired-IsValid, count_by-IsValid,
  find_by-IsValid, delete_by-IsValid,
}
use gomembase.ListStorage.{ListStorage, engine_id, ◌>>=◌, push_no_lock_and_no_wal}
use gomembase.ListStorage.Elements.{range_of, pos_loop}
use gomembase.ListStorage.Ops.{
  push_action, push_args, push_no_lock, left_push, right_push, left_pop, right_pop, move_between,
  list_len, range, get, index, index_of, replace_at_index, insert, remove, pos_of, delete,
}
use gomembase.ListStorage.Keys.{
  new_list_storage, reset, clear, cleanup_expired, count_by_prefix, count_by_suffix, count_by_regex,
  find_by_prefix, find_by_suffix, find_by_regex, delete_by_prefix, delete_by_suffix,
  delete_by_regex, list_bytes,
}
use gomembase.Collection.Panic.{Returns}
use gomembase.ListStorage.Invariant.{bind-Returns, push_no_lock_and_no_wal-IsValid}
use gomembase.ListStorage.Panics.{
  pop_no_lock-Returns, move_between-Returns, replace_at_index-Returns, insert-Returns,
  remove-Returns,
}

-- The methods that clients call and that change the state, with their arguments. ProcessWalEntry,
-- which panics on some logs, and DeserializeState are not among them. `elapsed` is the time between
-- the two readings of the clock in Move.
pub data ListCall : Type 0 where
  call_left_push call_right_push :
      (key : Str) (values : List Str) (expires_at : Option ℕ) → ListCall
  call_left_pop call_right_pop call_len call_get call_delete : (key : Str) → ListCall
  call_move : (key_from key_to : Str) (src_left dst_left : Bool) (elapsed : ℕ) → ListCall
  call_range : (key : Str) (start stop : ℤ) → ListCall
  call_index : (key : Str) (index : ℤ) → ListCall
  call_replace_at_index : (key : Str) (index : ℤ) (value : Str) → ListCall
  call_insert : (key pivot value : Str) (before : Bool) → ListCall
  call_remove : (key : Str) (count : ℤ) (element : Str) → ListCall
  call_pos : (key value : Str) → ListCall
  call_count_by_prefix call_count_by_suffix call_count_by_regex : Str → ListCall
  call_find_by_prefix call_find_by_suffix call_find_by_regex : Str → ListCall
  call_delete_by_prefix call_delete_by_suffix call_delete_by_regex : Str → ListCall
  call_clear call_reset call_cleanup : ListCall

-- No time passes within a Move of a key onto itself.
abbrev pub Steady : ListCall → Type 0
Steady (call_move from to src_left dst_left elapsed) = (from ≢ to) ⊎ (elapsed ≡ 0)
Steady c = Unit

-- The state that a method leaves.
abbrev left_by : {L R : Type 0} → Option (R × ListStorage L) → Option (ListStorage L)
left_by none = none
left_by (some r) = some r.1

left_by-Returns :
    {L R : Type 0} (o : Option (R × ListStorage L)) → Returns Leaves o → Returns IsValid (left_by o)
left_by-Returns none h = h
left_by-Returns (some r) h = h

module _ {L : Type 0} ⦃w : WalLogger L⦄ ⦃g : GoText⦄ where
  -- The state after a call; `none` is a panic.
  unfoldable pub run_list_call : ℕ → ListCall → ListStorage L → Option (ListStorage L)
  run_list_call now (call_left_push key values e) s = some (left_push now key values e s).1
  run_list_call now (call_right_push key values e) s = some (right_push now key values e s).1
  run_list_call now (call_left_pop key) s = left_by (left_pop now key s)
  run_list_call now (call_right_pop key) s = left_by (right_pop now key s)
  run_list_call now (call_len key) s = some (list_len now key s).1
  run_list_call now (call_get key) s = some (get now key s).1
  run_list_call now (call_delete key) s = some (delete key s).1
  run_list_call now (call_move from to src_left dst_left elapsed) s =
      left_by (move_between now (now + elapsed) from to src_left dst_left s)
  run_list_call now (call_range key start stop) s = some (range now key start stop s).1
  run_list_call now (call_index key i) s = some (index now key i s).1
  run_list_call now (call_replace_at_index key i value) s =
      left_by (replace_at_index now key i value s)
  run_list_call now (call_insert key pivot value before) s =
      left_by (insert now key pivot value before s)
  run_list_call now (call_remove key count element) s = left_by (remove now key count element s)
  run_list_call now (call_pos key value) s = some (pos_of now key value s).1
  run_list_call now (call_count_by_prefix prefix) s = some (count_by_prefix now prefix s).1
  run_list_call now (call_count_by_suffix suffix) s = some (count_by_suffix now suffix s).1
  run_list_call now (call_count_by_regex regex) s = some (count_by_regex now regex s).1
  run_list_call now (call_find_by_prefix prefix) s = some (find_by_prefix now prefix s).1
  run_list_call now (call_find_by_suffix suffix) s = some (find_by_suffix now suffix s).1
  run_list_call now (call_find_by_regex regex) s = some (find_by_regex now regex s).1
  run_list_call now (call_delete_by_prefix prefix) s = some (delete_by_prefix now prefix s).1
  run_list_call now (call_delete_by_suffix suffix) s = some (delete_by_suffix now suffix s).1
  run_list_call now (call_delete_by_regex regex) s = some (delete_by_regex now regex s).1
  run_list_call now call_clear s = some (clear s)
  run_list_call now call_reset s = some (reset s)
  run_list_call now call_cleanup s = some (cleanup_expired now s)

  unfoldable pub run_list_calls : List (ℕ × ListCall) → ListStorage L → Option (ListStorage L)
  unfolding run_list_call
  run_list_calls [] s = some s
  run_list_calls ((now, c) ∷ calls) s = run_list_call now c s >>= run_list_calls calls

  push_no_lock-IsValid :
      (now : ℕ) (k : Str) (values : List Str) (e : Option ℕ) (left : Bool) (s : ListStorage L)
      → IsValid s
      → Leaves (push_no_lock now k values e left s)
  unfolding push_no_lock
  push_no_lock-IsValid now k values e left s h =
      log-IsValid engine_id (push_action left) (push_args k values e)
        (push_no_lock_and_no_wal now k values e left s)
        (push_no_lock_and_no_wal-IsValid now k values e left s h)

  pub run_list_call-Returns :
      (now : ℕ) (c : ListCall) (s : ListStorage L)
      → Steady c
      → IsValid s
      → Returns IsValid (run_list_call now c s)
  unfolding run_list_call left_push right_push left_pop right_pop list_len get range index pos_of
      delete count_by_prefix count_by_suffix count_by_regex find_by_prefix find_by_suffix
      find_by_regex delete_by_prefix delete_by_suffix delete_by_regex delete_by_compiled clear reset
      cleanup_expired
  run_list_call-Returns now (call_left_push key values e) s steady h =
      push_no_lock-IsValid now key values e true s h
  run_list_call-Returns now (call_right_push key values e) s steady h =
      push_no_lock-IsValid now key values e false s h
  run_list_call-Returns now (call_left_pop key) s steady h =
      left_by-Returns _ (pop_no_lock-Returns now key true s h)
  run_list_call-Returns now (call_right_pop key) s steady h =
      left_by-Returns _ (pop_no_lock-Returns now key false s h)
  run_list_call-Returns now (call_len key) s steady h =
      read_value-IsValid engine_id now key 0 length s h
  run_list_call-Returns now (call_get key) s steady h =
      read_value-IsValid engine_id now key [] (range_of (pos 0) (negsuc 0)) s h
  run_list_call-Returns now (call_delete key) s steady h = logged_delete-IsValid engine_id key s h
  run_list_call-Returns now (call_move from to src_left dst_left elapsed) s steady h =
      left_by-Returns _ (move_between-Returns now elapsed from to src_left dst_left s steady h)
  run_list_call-Returns now (call_range key start stop) s steady h =
      read_value-IsValid engine_id now key [] (range_of start stop) s h
  run_list_call-Returns now (call_index key i) s steady h =
      read_value-IsValid engine_id now key _ (index_of key i) s h
  run_list_call-Returns now (call_replace_at_index key i value) s steady h =
      left_by-Returns _ (replace_at_index-Returns now key i value s h)
  run_list_call-Returns now (call_insert key pivot value before) s steady h =
      left_by-Returns _ (insert-Returns now key pivot value before s h)
  run_list_call-Returns now (call_remove key count element) s steady h =
      left_by-Returns _ (remove-Returns now key count element s h)
  run_list_call-Returns now (call_pos key value) s steady h =
      read_value-IsValid engine_id now key none (pos_loop 0 value) s h
  run_list_call-Returns now (call_count_by_prefix prefix) s steady h =
      count_by-IsValid engine_id now (λ k. has_prefix k prefix) s h
  run_list_call-Returns now (call_count_by_suffix suffix) s steady h =
      count_by-IsValid engine_id now (λ k. has_suffix k suffix) s h
  run_list_call-Returns now (call_count_by_regex regex) s steady h =
      result_intro Leaves (g.regexp_compile regex) (λ fits. count_by-IsValid engine_id now fits s h)
        (λ e. h)
  run_list_call-Returns now (call_find_by_prefix prefix) s steady h =
      find_by-IsValid engine_id now list_bytes (λ k. has_prefix k prefix) s h
  run_list_call-Returns now (call_find_by_suffix suffix) s steady h =
      find_by-IsValid engine_id now list_bytes (λ k. has_suffix k suffix) s h
  run_list_call-Returns now (call_find_by_regex regex) s steady h =
      result_intro Leaves (g.regexp_compile regex)
        (λ fits. find_by-IsValid engine_id now list_bytes fits s h) (λ e. h)
  run_list_call-Returns now (call_delete_by_prefix prefix) s steady h =
      delete_by-IsValid engine_id now (λ k. has_prefix k prefix) s h
  run_list_call-Returns now (call_delete_by_suffix suffix) s steady h =
      delete_by-IsValid engine_id now (λ k. has_suffix k suffix) s h
  run_list_call-Returns now (call_delete_by_regex regex) s steady h =
      result_intro Leaves (g.regexp_compile regex)
        (λ fits. delete_by-IsValid engine_id now fits s h) (λ e. h)
  run_list_call-Returns now call_clear s steady h = clear-IsValid s
  run_list_call-Returns now call_reset s steady h = clear-IsValid s
  run_list_call-Returns now call_cleanup s steady h = cleanup_expired-IsValid engine_id now s h

  run_list_calls_from-Returns :
      (calls : List (ℕ × ListCall)) (s : ListStorage L)
      → All (λ c. Steady c.1) calls
      → IsValid s
      → Returns IsValid (run_list_calls calls s)
  unfolding run_list_calls
  run_list_calls_from-Returns [] s steady h = h
  run_list_calls_from-Returns ((now, c) ∷ calls) s steady h =
      bind-Returns IsValid (run_list_call now c s) (run_list_calls calls)
        (run_list_call-Returns now c s steady.0 h)
        (λ s'. run_list_calls_from-Returns calls s' steady.1)

  -- After any sequence of list calls other than ProcessWalEntry and DeserializeState on a new engine,
  -- at any times and whatever the logger answers, no call has panicked, the expiration heap and the
  -- map beside it hold the same entries, each entry knows its place on the heap, and a key is due at a
  -- time exactly if a list with that expiration is stored under it. A call reads the clock once, and
  -- Move twice, where no time passes between the two if it moves within one key.
  pub run_list_calls-Returns :
      (calls : List (ℕ × ListCall)) (l : L)
      → All (λ c. Steady c.1) calls
      → Returns IsValid (run_list_calls calls (new_list_storage l))
  unfolding new_list_storage
  run_list_calls-Returns calls l steady =
      run_list_calls_from-Returns calls (new_list_storage l) steady (new_collection-IsValid l)
