-- ===== src/SetStorage/Invariant.antt =====
-- The data and the expirations of pkg/set_storage/set_storage.go agree after each operation without
-- lock and line.
use gomembase.Prelude.{
  ℕ, ◌≡◌, refl, sym, ap, List, [], ◌∷◌, Option, none, some, Str, str_eq_refl, if_intro,
  option_intro, option_split, arith,
}
use gomembase.Prelude.Dict.{lookup}
use gomembase.Collection.{Value, is_expired, delete_no_lock, store}
use gomembase.Collection.Live.{lookup-delete_no_lock}
use gomembase.Collection.Invariant.{
  IsValid, Leaves, expiry, or_old, delete_no_lock-IsValid, store-IsValid,
}
use gomembase.Collection.Panic.{IfReturns}
use gomembase.SetStorage.{
  SetStorage, added_value, store_result, store_or_delete, stored_sets, fold_sets,
  s_add_no_lock_and_no_wal, s_rem_no_lock_and_no_wal, s_move_no_lock_and_no_wal,
  s_inter_store_no_lock_and_no_wal, s_union_store_no_lock_and_no_wal,
  s_diff_store_no_lock_and_no_wal,
}
use gomembase.SetStorage.Members.{add_loop, remove_loop, union_loop, diff_loop, inter_of}
use gomembase.SetStorage.Ops.{store_popped}

expiry-added_value :
    (now : ℕ) (e : Option ℕ) (o : Option (Value (List Str)))
    → (added_value now e o).expires_at ≡ or_old e (expiry o)
unfolding added_value expiry
expiry-added_value now none none = refl
expiry-added_value now (some t) none = refl
expiry-added_value now none (some v) = refl
expiry-added_value now (some t) (some v) = refl

-- What holds of a state and stays so when a key is deleted.
abbrev pub Lasting : {L : Type 0} → (SetStorage L → Type 0) → Type 0
Lasting {L} P = (k : Str) (s : SetStorage L) → P s → P (delete_no_lock k s)

-- A valid state with no set under a key.
abbrev pub Without : {L : Type 0} → Str → SetStorage L → Type 0
Without key s = IsValid s × (lookup key s.entries ≡ none)

module _ {L : Type 0} where
  pub delete_no_lock_missing :
      (k j : Str) (s : SetStorage L)
      → lookup j s.entries ≡ none
      → lookup j (delete_no_lock k s).entries ≡ none
  delete_no_lock_missing k j s h = ground (arith, lookup-delete_no_lock k j s, h)

  Without-Lasting : (key : Str) → Lasting (Without {L = L} key)
  Without-Lasting key k s h = (delete_no_lock-IsValid k s h.0, delete_no_lock_missing k key s h.1)

  pub delete_no_lock-Without :
      (key : Str) (s : SetStorage L) → IsValid s → Without key (delete_no_lock key s)
  delete_no_lock-Without key s v = (
    delete_no_lock-IsValid key s v,
    ground (arith, lookup-delete_no_lock key key s, str_eq_refl key),
  )

  pub stored_sets-Lasting :
      (P : SetStorage L → Type 0)
      → Lasting P
      → (now : ℕ) (keys : List Str) (s : SetStorage L) → P s
      → P (stored_sets now keys s).1
  unfolding stored_sets
  stored_sets-Lasting P keep now [] s h = h
  stored_sets-Lasting P keep now (k ∷ ks) s h =
      let Q : Option (List (List Str)) × SetStorage L → Type 0 = λ r. P r.1 in
      option_intro Q (lookup k s.entries) h (λ v.
        if_intro Q (is_expired now v.expires_at)
          (stored_sets-Lasting P keep now ks (delete_no_lock k s) (keep k s h))
          (stored_sets-Lasting P keep now ks s h))

  pub fold_sets-Lasting :
      (P : SetStorage L → Type 0)
      → Lasting P
      → (step : List Str → List Str → List Str) (now : ℕ) (keys acc : List Str) (s : SetStorage L)
      → P s
      → P (fold_sets step now keys acc s).1
  unfolding fold_sets
  fold_sets-Lasting P keep step now [] acc s h = h
  fold_sets-Lasting P keep step now (k ∷ ks) acc s h =
      let Q : List Str × SetStorage L → Type 0 = λ r. P r.1 in
      option_intro Q (lookup k s.entries) (fold_sets-Lasting P keep step now ks acc s h) (λ v.
        if_intro Q (is_expired now v.expires_at)
          (fold_sets-Lasting P keep step now ks acc (delete_no_lock k s) (keep k s h))
          (fold_sets-Lasting P keep step now ks (step v.value acc) s h))

  store_result-IsValid :
      (now : ℕ) (key : Str) (ms : List Str) (s : SetStorage L)
      → Without key s
      → IsValid (store_result now key ms s)
  unfolding store_result expiry
  store_result-IsValid now key [] s h = h.0
  store_result-IsValid now key (m ∷ ms) s h =
      store-IsValid key (record { value = m ∷ ms; created_at = now; expires_at = none }) none s
        (sym (ap expiry h.1)) h.0

  pub s_add_no_lock_and_no_wal-IsValid :
      (now : ℕ) (key : Str) (members : List Str) (e : Option ℕ) (s : SetStorage L)
      → IsValid s
      → Leaves (s_add_no_lock_and_no_wal now key members e s)
  unfolding s_add_no_lock_and_no_wal
  s_add_no_lock_and_no_wal-IsValid now key members e s h =
      let v = added_value now e (lookup key s.entries) in
      store-IsValid key (record v { value = (add_loop members v.value 0).0 }) e s
        (expiry-added_value now e (lookup key s.entries)) h

  kept-IsValid :
      (key : Str) (v : Value (List Str)) (ms : List Str) (s : SetStorage L)
      → lookup key s.entries ≡ some v
      → IsValid s
      → IsValid (store key (record v { value = ms }) none s)
  unfolding expiry
  kept-IsValid key v ms s found =
      store-IsValid key (record v { value = ms }) none s (sym (ap expiry found))

  store_or_delete-IsValid :
      (key : Str) (v : Value (List Str)) (ms : List Str) (s : SetStorage L)
      → lookup key s.entries ≡ some v
      → IsValid s
      → IsValid (store_or_delete key v ms s)
  unfolding store_or_delete
  store_or_delete-IsValid key v [] s found h = delete_no_lock-IsValid key s h
  store_or_delete-IsValid key v (m ∷ ms) s found h = kept-IsValid key v (m ∷ ms) s found h

  pub store_popped-IsValid :
      (key : Str) (v : Value (List Str)) (ms : List Str) (s : SetStorage L)
      → lookup key s.entries ≡ some v
      → IsValid s
      → IsValid (store_popped key v ms s)
  unfolding store_popped
  store_popped-IsValid key v [] s found h = delete_no_lock-IsValid key s h
  store_popped-IsValid key v (m ∷ ms) s found h = kept-IsValid key v (m ∷ ms) s found h

  pub s_rem_no_lock_and_no_wal-IsValid :
      (key : Str) (members : List Str) (s : SetStorage L)
      → IsValid s
      → Leaves (s_rem_no_lock_and_no_wal key members s)
  unfolding s_rem_no_lock_and_no_wal
  s_rem_no_lock_and_no_wal-IsValid key members s h =
      option_split Leaves (lookup key s.entries) (λ _. delete_no_lock-IsValid key s h)
        (λ v found. store_or_delete-IsValid key v (remove_loop members v.value 0).0 s found h)

  pub s_move_no_lock_and_no_wal-IsValid :
      (now : ℕ) (src dst member : Str) (s : SetStorage L)
      → IsValid s
      → IsValid (s_move_no_lock_and_no_wal now src dst member s)
  unfolding s_move_no_lock_and_no_wal
  s_move_no_lock_and_no_wal-IsValid now src dst member s h =
      s_add_no_lock_and_no_wal-IsValid now dst (member ∷ []) none
        (s_rem_no_lock_and_no_wal src (member ∷ []) s).1
        (s_rem_no_lock_and_no_wal-IsValid src (member ∷ []) s h)

  pub s_union_store_no_lock_and_no_wal-IsValid :
      (now : ℕ) (dst : Str) (keys : List Str) (s : SetStorage L)
      → IsValid s
      → IsValid (s_union_store_no_lock_and_no_wal now dst keys s)
  unfolding s_union_store_no_lock_and_no_wal
  s_union_store_no_lock_and_no_wal-IsValid now dst keys s h =
      let r = fold_sets union_loop now keys [] (delete_no_lock dst s) in
      store_result-IsValid now dst r.0 r.1 (
        fold_sets-Lasting (Without dst) (Without-Lasting dst) union_loop now keys []
          (delete_no_lock dst s) (delete_no_lock-Without dst s h))

  pub s_diff_store_no_lock_and_no_wal-IsValid :
      (now : ℕ) (dst : Str) (keys : List Str) (s : SetStorage L)
      → IsValid s
      → IsValid (s_diff_store_no_lock_and_no_wal now dst keys s)
  unfolding s_diff_store_no_lock_and_no_wal
  s_diff_store_no_lock_and_no_wal-IsValid now dst [] s h = delete_no_lock-IsValid dst s h
  s_diff_store_no_lock_and_no_wal-IsValid now dst (first ∷ rest) s h =
      let s0 = delete_no_lock dst s in
      let h0 = delete_no_lock-Without dst s h in
      option_intro IsValid (lookup first s0.entries) h0.0 (λ v.
        let r = fold_sets diff_loop now rest v.value s0 in
        if_intro IsValid (is_expired now v.expires_at) (delete_no_lock-IsValid first s0 h0.0) (
          store_result-IsValid now dst r.0 r.1 (
            fold_sets-Lasting (Without dst) (Without-Lasting dst) diff_loop now rest v.value s0
              h0)))

  pub s_inter_store_no_lock_and_no_wal-IsValid :
      (now : ℕ) (dst : Str) (keys : List Str) (s : SetStorage L)
      → IsValid s
      → IfReturns IsValid (s_inter_store_no_lock_and_no_wal now dst keys s)
  unfolding s_inter_store_no_lock_and_no_wal
  s_inter_store_no_lock_and_no_wal-IsValid now dst [] s h = delete_no_lock-IsValid dst s h
  s_inter_store_no_lock_and_no_wal-IsValid now dst (k ∷ ks) s h =
      let r = stored_sets now (k ∷ ks) (delete_no_lock dst s) in
      let h' : Without dst r.1 =
        stored_sets-Lasting (Without dst) (Without-Lasting dst) now (k ∷ ks) (delete_no_lock dst s)
          (delete_no_lock-Without dst s h) in
      option_intro (IfReturns IsValid) r.0 h'.0 (λ xs.
        option_intro (IfReturns IsValid) (inter_of xs) tt
          (λ ms. store_result-IsValid now dst ms r.1 h'))
