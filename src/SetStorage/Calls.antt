-- ===== src/SetStorage/Calls.antt =====
-- Sequences of calls of the set engine (pkg/set_storage/set_storage.go), each at its own time.
use gomembase.Prelude.{
  ℕ, ◌+◌, ◌≡◌, All, ◌≢◌, refl, false, List, [], ◌∷◌, map, Option, none, some, Str, has_prefix,
  has_suffix, length,
}
use gomembase.Prelude.Int.{ℤ}
use gomembase.Logger.{WalLogger}
use gomembase.Stdlib.{GoText}
use gomembase.Collection.Patterns.{delete_by_compiled}
use gomembase.Collection.Panic.{Returns, then-Returns}
use gomembase.Collection.Invariant.{
  IsValid, Leaves, result_intro, new_collection-IsValid, clear-IsValid, logged_delete-IsValid,
  read_value-IsValid, cleanup_expired-IsValid, count_by-IsValid, find_by-IsValid, delete_by-IsValid,
}
use gomembase.SetStorage.{SetStorage, engine_id}
use gomembase.SetStorage.Members.{mem}
use gomembase.SetStorage.Ops.{
  s_add, s_rem, s_pop, s_move, s_is_member, s_m_is_member, s_members, s_card, delete,
}
use gomembase.SetStorage.Algebra.{
  s_inter, s_inter_card, s_inter_store_between, s_union, s_union_store, s_diff, s_diff_store,
}
use gomembase.SetStorage.Keys.{
  new_set_storage, reset, clear, cleanup_expired, count_by_prefix, count_by_suffix, count_by_regex,
  find_by_prefix, find_by_suffix, find_by_regex, delete_by_prefix, delete_by_suffix,
  delete_by_regex, get_set_bytes_no_lock,
}
use gomembase.SetStorage.Panics.{s_inter_some}
use gomembase.SetStorage.Preserved.{
  s_add-IsValid, s_rem-IsValid, s_pop-IsValid, s_move-IsValid, s_inter-IsValid,
  s_inter_card-IsValid, s_inter_card_some, s_inter_store_between-Returns, s_union-IsValid,
  s_union_store-IsValid, s_diff-IsValid, s_diff_store-IsValid,
}

-- The methods that clients call and that change the state, with their arguments. ProcessWalEntry,
-- which panics on some logs, DeserializeState, and SRandMember, whose negative count can be out of
-- range, are not among them. `elapsed` is the time between the two readings of the clock in
-- SInterStore.
pub data SetCall : Type 0 where
  call_add : (key : Str) (members : List Str) (expires_at : Option ℕ) → SetCall
  call_rem call_m_is_member : (key : Str) (members : List Str) → SetCall
  call_pop : (key : Str) (count : ℤ) → SetCall
  call_move : (src_key dst_key member : Str) → SetCall
  call_is_member : (key member : Str) → SetCall
  call_members call_card call_delete : (key : Str) → SetCall
  call_inter call_union call_diff : (keys : List Str) → SetCall
  call_inter_card : (keys : List Str) (limit : ℤ) → SetCall
  call_inter_store : (dst_key : Str) (keys : List Str) (elapsed : ℕ) → SetCall
  call_union_store call_diff_store : (dst_key : Str) (keys : List Str) → SetCall
  call_count_by_prefix call_count_by_suffix call_count_by_regex : Str → SetCall
  call_find_by_prefix call_find_by_suffix call_find_by_regex : Str → SetCall
  call_delete_by_prefix call_delete_by_suffix call_delete_by_regex : Str → SetCall
  call_clear call_reset call_cleanup : SetCall

-- No time passes within an SInterStore.
abbrev pub Steady : SetCall → Type 0
Steady (call_inter_store dst keys elapsed) = elapsed ≡ 0
Steady c = Unit

-- The state beside a result that is not a panic.
abbrev beside : {L R : Type 0} → Option R × SetStorage L → Option (SetStorage L)
beside (none, s) = none
beside (some r, s) = some s

abbrev left_by : {L R : Type 0} → Option (R × SetStorage L) → Option (SetStorage L)
left_by none = none
left_by (some r) = some r.1

beside-Returns :
    {L R : Type 0} (r : Option R × SetStorage L)
    → r.0 ≢ none
    → Leaves r
    → Returns IsValid (beside r)
beside-Returns (none, s) h v = absurd (h refl)
beside-Returns (some r, s) h v = v

left_by-Returns :
    {L R : Type 0} (o : Option (R × SetStorage L)) → Returns Leaves o → Returns IsValid (left_by o)
left_by-Returns none h = h
left_by-Returns (some r) h = h

module _ {L : Type 0} ⦃w : WalLogger L⦄ ⦃g : GoText⦄ where
  -- The state after a call; `none` is a panic.
  unfoldable pub run_set_call : ℕ → SetCall → SetStorage L → Option (SetStorage L)
  run_set_call now (call_add key members e) s = some (s_add now key members e s).1
  run_set_call now (call_rem key members) s = some (s_rem now key members s).1
  run_set_call now (call_m_is_member key members) s = some (s_m_is_member now key members s).1
  run_set_call now (call_pop key count) s = some (s_pop now key count s).1
  run_set_call now (call_move src dst member) s = some (s_move now src dst member s).1
  run_set_call now (call_is_member key member) s = some (s_is_member now key member s).1
  run_set_call now (call_members key) s = some (s_members now key s).1
  run_set_call now (call_card key) s = some (s_card now key s).1
  run_set_call now (call_delete key) s = some (delete key s).1
  run_set_call now (call_inter keys) s = beside (s_inter now keys s)
  run_set_call now (call_union keys) s = some (s_union now keys s).1
  run_set_call now (call_diff keys) s = some (s_diff now keys s).1
  run_set_call now (call_inter_card keys limit) s = beside (s_inter_card now keys limit s)
  run_set_call now (call_inter_store dst keys elapsed) s =
      left_by (s_inter_store_between now (now + elapsed) dst keys s)
  run_set_call now (call_union_store dst keys) s = some (s_union_store now dst keys s).1
  run_set_call now (call_diff_store dst keys) s = some (s_diff_store now dst keys s).1
  run_set_call now (call_count_by_prefix prefix) s = some (count_by_prefix now prefix s).1
  run_set_call now (call_count_by_suffix suffix) s = some (count_by_suffix now suffix s).1
  run_set_call now (call_count_by_regex regex) s = some (count_by_regex now regex s).1
  run_set_call now (call_find_by_prefix prefix) s = some (find_by_prefix now prefix s).1
  run_set_call now (call_find_by_suffix suffix) s = some (find_by_suffix now suffix s).1
  run_set_call now (call_find_by_regex regex) s = some (find_by_regex now regex s).1
  run_set_call now (call_delete_by_prefix prefix) s = some (delete_by_prefix now prefix s).1
  run_set_call now (call_delete_by_suffix suffix) s = some (delete_by_suffix now suffix s).1
  run_set_call now (call_delete_by_regex regex) s = some (delete_by_regex now regex s).1
  run_set_call now call_clear s = some (clear s)
  run_set_call now call_reset s = some (reset s)
  run_set_call now call_cleanup s = some (cleanup_expired now s)

  unfoldable pub run_set_calls : List (ℕ × SetCall) → SetStorage L → Option (SetStorage L)
  unfolding run_set_call
  run_set_calls [] s = some s
  run_set_calls ((now, c) ∷ calls) s = elim (run_set_call now c s) [
    | none ↦ none
    | some s' ↦ run_set_calls calls s'
  ]

  pub run_set_call-Returns :
      (now : ℕ) (c : SetCall) (s : SetStorage L)
      → Steady c
      → IsValid s
      → Returns IsValid (run_set_call now c s)
  unfolding run_set_call s_is_member s_m_is_member s_members s_card delete count_by_prefix
      count_by_suffix count_by_regex find_by_prefix find_by_suffix find_by_regex delete_by_prefix
      delete_by_suffix delete_by_regex delete_by_compiled clear reset cleanup_expired
  run_set_call-Returns now (call_add key members e) s steady h = s_add-IsValid now key members e s h
  run_set_call-Returns now (call_rem key members) s steady h = s_rem-IsValid now key members s h
  run_set_call-Returns now (call_m_is_member key members) s steady h =
      read_value-IsValid engine_id now key _ (λ ms. map (λ m. mem m ms) members) s h
  run_set_call-Returns now (call_pop key count) s steady h = s_pop-IsValid now key count s h
  run_set_call-Returns now (call_move src dst member) s steady h =
      s_move-IsValid now src dst member s h
  run_set_call-Returns now (call_is_member key member) s steady h =
      read_value-IsValid engine_id now key false (mem member) s h
  run_set_call-Returns now (call_members key) s steady h =
      read_value-IsValid engine_id now key [] (λ ms. ms) s h
  run_set_call-Returns now (call_card key) s steady h =
      read_value-IsValid engine_id now key 0 length s h
  run_set_call-Returns now (call_delete key) s steady h = logged_delete-IsValid engine_id key s h
  run_set_call-Returns now (call_inter keys) s steady h =
      beside-Returns (s_inter now keys s) (s_inter_some now keys s) (s_inter-IsValid now keys s h)
  run_set_call-Returns now (call_union keys) s steady h = s_union-IsValid now keys s h
  run_set_call-Returns now (call_diff keys) s steady h = s_diff-IsValid now keys s h
  run_set_call-Returns now (call_inter_card keys limit) s steady h =
      beside-Returns (s_inter_card now keys limit s) (s_inter_card_some now keys limit s)
        (s_inter_card-IsValid now keys limit s h)
  run_set_call-Returns now (call_inter_store dst keys elapsed) s steady h =
      left_by-Returns _ (s_inter_store_between-Returns now elapsed dst keys s steady h)
  run_set_call-Returns now (call_union_store dst keys) s steady h =
      s_union_store-IsValid now dst keys s h
  run_set_call-Returns now (call_diff_store dst keys) s steady h =
      s_diff_store-IsValid now dst keys s h
  run_set_call-Returns now (call_count_by_prefix prefix) s steady h =
      count_by-IsValid engine_id now (λ k. has_prefix k prefix) s h
  run_set_call-Returns now (call_count_by_suffix suffix) s steady h =
      count_by-IsValid engine_id now (λ k. has_suffix k suffix) s h
  run_set_call-Returns now (call_count_by_regex regex) s steady h =
      result_intro Leaves (g.regexp_compile regex) (λ fits. count_by-IsValid engine_id now fits s h)
        (λ e. h)
  run_set_call-Returns now (call_find_by_prefix prefix) s steady h =
      find_by-IsValid engine_id now get_set_bytes_no_lock (λ k. has_prefix k prefix) s h
  run_set_call-Returns now (call_find_by_suffix suffix) s steady h =
      find_by-IsValid engine_id now get_set_bytes_no_lock (λ k. has_suffix k suffix) s h
  run_set_call-Returns now (call_find_by_regex regex) s steady h =
      result_intro Leaves (g.regexp_compile regex)
        (λ fits. find_by-IsValid engine_id now get_set_bytes_no_lock fits s h) (λ e. h)
  run_set_call-Returns now (call_delete_by_prefix prefix) s steady h =
      delete_by-IsValid engine_id now (λ k. has_prefix k prefix) s h
  run_set_call-Returns now (call_delete_by_suffix suffix) s steady h =
      delete_by-IsValid engine_id now (λ k. has_suffix k suffix) s h
  run_set_call-Returns now (call_delete_by_regex regex) s steady h =
      result_intro Leaves (g.regexp_compile regex)
        (λ fits. delete_by-IsValid engine_id now fits s h) (λ e. h)
  run_set_call-Returns now call_clear s steady h = clear-IsValid s
  run_set_call-Returns now call_reset s steady h = clear-IsValid s
  run_set_call-Returns now call_cleanup s steady h = cleanup_expired-IsValid engine_id now s h

  run_set_calls_from-Returns :
      (calls : List (ℕ × SetCall)) (s : SetStorage L)
      → All (λ c. Steady c.1) calls
      → IsValid s
      → Returns IsValid (run_set_calls calls s)
  unfolding run_set_calls
  run_set_calls_from-Returns [] s steady h = h
  run_set_calls_from-Returns ((now, c) ∷ calls) s steady h =
      then-Returns IsValid (run_set_call now c s) (run_set_calls calls)
        (run_set_call-Returns now c s steady.0 h)
        (λ s'. run_set_calls_from-Returns calls s' steady.1)

  -- After any sequence of set calls other than ProcessWalEntry, DeserializeState and SRandMember on a
  -- new engine, at any times and whatever the logger answers, no call has panicked, the expiration
  -- heap and the map beside it hold the same entries, each entry knows its place on the heap, and a
  -- key is due at a time exactly if a set with that expiration is stored under it. A call reads the
  -- clock once, and SInterStore twice, where no time passes between the two.
  pub run_set_calls-Returns :
      (calls : List (ℕ × SetCall)) (l : L)
      → All (λ c. Steady c.1) calls
      → Returns IsValid (run_set_calls calls (new_set_storage l))
  unfolding new_set_storage
  run_set_calls-Returns calls l steady =
      run_set_calls_from-Returns calls (new_set_storage l) steady (new_collection-IsValid l)
