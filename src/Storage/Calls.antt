-- ===== src/Storage/Calls.antt =====
-- Sequences of calls of the key-value engine (pkg/storage/storage.go), each at its own time.
use gomembase.Prelude.{ℕ, Bool, List, [], ◌∷◌, Str, some, has_prefix, has_suffix}
use gomembase.Prelude.Int.{ℤ, pos, negsuc, neg_ℤ, wrap64}
use gomembase.Prelude.Dict.{Dict}
use gomembase.Errors.{Error, Result, ok, err}
use gomembase.Logger.{WalLogger}
use gomembase.Stdlib.{GoText, add_duration}
use gomembase.Storage.{PayloadMetadata, Payload, Storage, new_storage}
use gomembase.Storage.Ops.{
  set, set_with_ttl, mset_no_lock, mset_with_ttl, delete, get, exists, increment, increment_by,
  decrement, decrement_by, mget, mget_loop, reset, clear, cleanup_expired,
}
use gomembase.Storage.Patterns.{
  count_by, find_by, count_loop, find_loop, count_by_prefix, count_by_suffix, count_by_regex,
  find_by_prefix, find_by_suffix, find_by_regex, delete_by_prefix, delete_by_suffix,
  delete_by_regex,
}
use gomembase.Storage.Wal.{process_wal_entry}
use gomembase.Storage.Invariant.{IsValid, new_storage-IsValid}
use gomembase.Storage.Preserved.{
  Leaves, set_no_lock-IsValid, mset_no_lock-IsValid, mset_with_ttl_no_lock-IsValid, get-IsValid,
  exists-IsValid, increment_by_no_lock-IsValid, delete_expired_keys-IsValid, delete_loop-IsValid,
  clear-IsValid, cleanup_expired-IsValid, process_wal_entry-IsValid,
}
use gomembase.Storage.Invariant.{logged_delete-IsValid}

-- The methods that change the state, with their arguments. DeserializeState, which breaks the
-- invariant on a snapshot with a key twice, is not among them.
pub data Call : Type 0 where
  call_set : (key value : Str) (metadata : PayloadMetadata) → Call
  call_set_with_ttl : (key value : Str) (ttl : ℤ) → Call
  call_mset : Dict Payload → Call
  call_mset_with_ttl : Dict Payload → (ttl : ℤ) → Call
  call_delete call_get call_exists call_increment call_decrement : (key : Str) → Call
  call_increment_by call_decrement_by : (key : Str) (amount : ℤ) → Call
  call_mget : (keys : List Str) → Call
  call_count_by_prefix call_count_by_suffix call_count_by_regex : Str → Call
  call_find_by_prefix call_find_by_suffix call_find_by_regex : Str → Call
  call_delete_by_prefix call_delete_by_suffix call_delete_by_regex : Str → Call
  call_clear call_reset call_cleanup : Call
  call_process_wal_entry : (action : Str) (args : List Str) → Call

module _ {L : Type 0} ⦃w : WalLogger L⦄ ⦃g : GoText⦄ where
  -- The state after a call.
  unfoldable pub run : ℕ → Call → Storage L → Storage L
  run now (call_set key value metadata) s = (set key value metadata s).1
  run now (call_set_with_ttl key value ttl) s = (set_with_ttl now key value ttl s).1
  run now (call_mset batch) s = (mset_no_lock batch s).1
  run now (call_mset_with_ttl batch ttl) s = (mset_with_ttl now batch ttl s).1
  run now (call_delete key) s = (delete key s).1
  run now (call_get key) s = (get now key s).1
  run now (call_exists key) s = (exists now key s).1
  run now (call_increment key) s = (increment now key s).1
  run now (call_decrement key) s = (decrement now key s).1
  run now (call_increment_by key amount) s = (increment_by now key amount s).1
  run now (call_decrement_by key amount) s = (decrement_by now key amount s).1
  run now (call_mget keys) s = (mget now keys s).1
  run now (call_count_by_prefix prefix) s = (count_by_prefix now prefix s).1
  run now (call_count_by_suffix suffix) s = (count_by_suffix now suffix s).1
  run now (call_count_by_regex regex) s = (count_by_regex now regex s).1
  run now (call_find_by_prefix prefix) s = (find_by_prefix now prefix s).1
  run now (call_find_by_suffix suffix) s = (find_by_suffix now suffix s).1
  run now (call_find_by_regex regex) s = (find_by_regex now regex s).1
  run now (call_delete_by_prefix prefix) s = (delete_by_prefix now prefix s).1
  run now (call_delete_by_suffix suffix) s = (delete_by_suffix now suffix s).1
  run now (call_delete_by_regex regex) s = (delete_by_regex now regex s).1
  run now call_clear s = clear s
  run now call_reset s = reset s
  run now call_cleanup s = cleanup_expired now s
  run now (call_process_wal_entry action args) s = process_wal_entry now action args s

  unfoldable pub run_all : List (ℕ × Call) → Storage L → Storage L
  unfolding run
  run_all [] s = s
  run_all ((now, c) ∷ calls) s = run_all calls (run now c s)

  result_intro :
      {A R : Type 0} (r : Result A) (f : A → R × Storage L) (k : Error → R × Storage L)
      → ((a : A) → Leaves (f a))
      → ((e : Error) → Leaves (k e))
      → Leaves {L = L} {R = R} (elim r [ ok a ↦ f a | err e ↦ k e ])
  result_intro (ok a) f k h h' = h a
  result_intro (err e) f k h h' = h' e

  find_by-IsValid :
      (now : ℕ) (fits : Str → Bool) (s : Storage L) → IsValid s → Leaves (find_by now fits s)
  unfolding find_by
  find_by-IsValid now fits s h =
      delete_expired_keys-IsValid now (find_loop now fits s.entries []).1 s h

  count_by-IsValid :
      (now : ℕ) (fits : Str → Bool) (s : Storage L) → IsValid s → Leaves (count_by now fits s)
  unfolding count_by
  count_by-IsValid now fits s h =
      delete_expired_keys-IsValid now (count_loop now fits s.entries).1 s h

  pub run-IsValid : (now : ℕ) (c : Call) (s : Storage L) → IsValid s → IsValid (run now c s)
  unfolding run set set_with_ttl mset_with_ttl delete increment decrement increment_by decrement_by
      mget reset count_by_prefix count_by_suffix count_by_regex find_by_prefix find_by_suffix
      find_by_regex delete_by_prefix delete_by_suffix delete_by_regex
  run-IsValid now (call_set key value metadata) s h = set_no_lock-IsValid key value metadata s h
  run-IsValid now (call_set_with_ttl key value ttl) s h =
      set_no_lock-IsValid key value
        (record { created_at = now; expires_at = some (add_duration now ttl) }) s h
  run-IsValid now (call_mset batch) s h = mset_no_lock-IsValid batch s h
  run-IsValid now (call_mset_with_ttl batch ttl) s h =
      mset_with_ttl_no_lock-IsValid
        (record { created_at = now; expires_at = some (add_duration now ttl) }) batch s h
  run-IsValid now (call_delete key) s h = logged_delete-IsValid key s h
  run-IsValid now (call_get key) s h = get-IsValid now key s h
  run-IsValid now (call_exists key) s h = exists-IsValid now key s h
  run-IsValid now (call_increment key) s h = increment_by_no_lock-IsValid now key (pos 1) s h
  run-IsValid now (call_decrement key) s h = increment_by_no_lock-IsValid now key (negsuc 0) s h
  run-IsValid now (call_increment_by key amount) s h =
      increment_by_no_lock-IsValid now key amount s h
  run-IsValid now (call_decrement_by key amount) s h =
      increment_by_no_lock-IsValid now key (wrap64 (neg_ℤ amount)) s h
  run-IsValid now (call_mget keys) s h =
      delete_expired_keys-IsValid now (mget_loop now keys s.entries [] []).1 s h
  run-IsValid now (call_count_by_prefix prefix) s h =
      count_by-IsValid now (λ k. has_prefix k prefix) s h
  run-IsValid now (call_count_by_suffix suffix) s h =
      count_by-IsValid now (λ k. has_suffix k suffix) s h
  run-IsValid now (call_count_by_regex regex) s h =
      result_intro (g.regexp_compile regex) _ _ (λ fits. count_by-IsValid now fits s h) (λ e. h)
  run-IsValid now (call_find_by_prefix prefix) s h =
      find_by-IsValid now (λ k. has_prefix k prefix) s h
  run-IsValid now (call_find_by_suffix suffix) s h =
      find_by-IsValid now (λ k. has_suffix k suffix) s h
  run-IsValid now (call_find_by_regex regex) s h =
      result_intro (g.regexp_compile regex) _ _ (λ fits. find_by-IsValid now fits s h) (λ e. h)
  run-IsValid now (call_delete_by_prefix prefix) s h =
      delete_loop-IsValid now (λ k. has_prefix k prefix) s.entries 0 s h
  run-IsValid now (call_delete_by_suffix suffix) s h =
      delete_loop-IsValid now (λ k. has_suffix k suffix) s.entries 0 s h
  run-IsValid now (call_delete_by_regex regex) s h =
      result_intro (g.regexp_compile regex) _ _
        (λ fits. delete_loop-IsValid now fits s.entries 0 s h) (λ e. h)
  run-IsValid now call_clear s h = clear-IsValid s
  run-IsValid now call_reset s h = unfold clear in clear-IsValid s
  run-IsValid now call_cleanup s h = cleanup_expired-IsValid now s h
  run-IsValid now (call_process_wal_entry action args) s h =
      process_wal_entry-IsValid now action args s h

  run_all_from-IsValid :
      (calls : List (ℕ × Call)) (s : Storage L) → IsValid s → IsValid (run_all calls s)
  unfolding run_all
  run_all_from-IsValid [] s h = h
  run_all_from-IsValid ((now, c) ∷ calls) s h =
      run_all_from-IsValid calls (run now c s) (run-IsValid now c s h)

  -- After any sequence of calls on a new engine, at any times and whatever the logger answers, the
  -- expiration heap and the map beside it hold the same entries, each entry knows its place on the
  -- heap, and a key is due at a time exactly if a payload with that expiration is stored under it.
  pub run_all-IsValid : (calls : List (ℕ × Call)) (l : L) → IsValid (run_all calls (new_storage l))
  run_all-IsValid calls l = run_all_from-IsValid calls (new_storage l) (new_storage-IsValid l)
