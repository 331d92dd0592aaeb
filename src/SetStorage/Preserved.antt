-- ===== src/SetStorage/Preserved.antt =====
-- Each method of pkg/set_storage/set_storage.go keeps the data and the expirations in agreement, and
-- the intersections do not panic.
use mathlib.Core.Path.{subst}
use gomembase.Prelude.{
  ◌≡◌, ◌+◌, arith, ℕ, ◌≢◌, List, [], ◌∷◌, map, Option, none, Str, bytes, length, take, drop, leb,
  ltb, if_intro, option_intro, option_split,
}
use gomembase.Prelude.Int.{ℤ, pos_part}
use gomembase.Prelude.Dict.{lookup}
use gomembase.Logger.{WalLogger}
use gomembase.Stdlib.{GoText}
use gomembase.Collection.{drop_expired, delete_expired_keys, is_expired}
use gomembase.Collection.Panic.{Returns, IfReturns_elim, defined}
use gomembase.Collection.Invariant.{
  IsValid, Leaves, log-IsValid, drop_expired-IsValid, delete_expired_keys-IsValid,
}
use gomembase.SetStorage.{
  SetStorage, engine_id, s_add_no_lock_and_no_wal, s_rem_no_lock_and_no_wal,
  s_move_no_lock_and_no_wal, s_inter_store_no_lock_and_no_wal,
}
use gomembase.SetStorage.Members.{mem}
use gomembase.SetStorage.Ops.{
  s_add, s_rem, s_pop, s_move, store_popped, member_args, s_add_args, s_move_args, logged_expiry,
}
use gomembase.SetStorage.Algebra.{
  s_inter, s_inter_card, s_inter_store_between, s_union, s_union_store, s_diff, s_diff_store,
  log_stored, expired_among, inter_sets, key_is_expired,
}
use gomembase.SetStorage.Invariant.{
  s_add_no_lock_and_no_wal-IsValid, s_rem_no_lock_and_no_wal-IsValid,
  s_move_no_lock_and_no_wal-IsValid, s_union_store_no_lock_and_no_wal-IsValid,
  s_diff_store_no_lock_and_no_wal-IsValid, s_inter_store_no_lock_and_no_wal-IsValid,
  store_popped-IsValid,
}
use gomembase.SetStorage.Panics.{s_inter_some, store_after_inter_some}

list_intro :
    {A B : Type 0} (P : B → Type 0) (xs : List A) {x : B} {f : A → List A → B}
    → P x
    → ((y : A) (ys : List A) → P (f y ys))
    → P (elim xs [ [] ↦ x | y ∷ ys ↦ f y ys ])
list_intro P [] h k = h
list_intro P (x ∷ xs) h k = k x xs

module _ {L : Type 0} ⦃w : WalLogger L⦄ ⦃g : GoText⦄ where
  pub s_add-IsValid :
      (now : ℕ) (key : Str) (members : List Str) (e : Option ℕ) (s : SetStorage L)
      → IsValid s
      → Leaves (s_add now key members e s)
  unfolding s_add
  s_add-IsValid now key members e s h =
      let s0 = drop_expired engine_id now key s in
      let s' = (s_add_no_lock_and_no_wal now key members e s0).1 in
      log-IsValid engine_id (bytes "SADD")
        (s_add_args key members (logged_expiry e (lookup key s'.entries))) s'
        (s_add_no_lock_and_no_wal-IsValid now key members e s0
          (drop_expired-IsValid engine_id now key s h))

  pub s_rem-IsValid :
      (now : ℕ) (key : Str) (members : List Str) (s : SetStorage L)
      → IsValid s
      → Leaves (s_rem now key members s)
  unfolding s_rem
  s_rem-IsValid now key members s h =
      let s0 = drop_expired engine_id now key s in
      let h0 = drop_expired-IsValid engine_id now key s h in
      let r = s_rem_no_lock_and_no_wal key members s0 in
      let h' : IsValid r.1 = s_rem_no_lock_and_no_wal-IsValid key members s0 h0 in
      option_intro Leaves (lookup key s0.entries) h0 (λ v.
        if_intro Leaves (ltb 0 r.0)
          (log-IsValid engine_id (bytes "SREM") (member_args key members) r.1 h') h')

  pub s_pop-IsValid :
      (now : ℕ) (key : Str) (count : ℤ) (s : SetStorage L)
      → IsValid s
      → Leaves (s_pop now key count s)
  unfolding s_pop
  s_pop-IsValid now key count s h =
      let s0 = drop_expired engine_id now key s in
      let h0 = drop_expired-IsValid engine_id now key s h in
      let n = pos_part count in
      option_split Leaves (lookup key s0.entries) (λ _. h0)
        (λ v found. if_intro Leaves (leb (length v.value) 0) h0 (
          if_intro Leaves (leb n 0) h0 (
            log-IsValid engine_id (bytes "SPOP") (member_args key (take n v.value))
              (store_popped key v (drop n v.value) s0)
              (store_popped-IsValid key v (drop n v.value) s0 found h0))))

  pub s_move-IsValid :
      (now : ℕ) (src dst member : Str) (s : SetStorage L)
      → IsValid s
      → Leaves (s_move now src dst member s)
  unfolding s_move
  s_move-IsValid now src dst member s h =
      let s1 = drop_expired engine_id now src s in
      let h1 = drop_expired-IsValid engine_id now src s h in
      let s2 = drop_expired engine_id now dst s1 in
      let h2 = drop_expired-IsValid engine_id now dst s1 h1 in
      option_intro Leaves (lookup src s1.entries) h1 (λ v.
        if_intro Leaves (mem member v.value)
          (log-IsValid engine_id (bytes "SMOVE") (s_move_args src dst member)
            (s_move_no_lock_and_no_wal now src dst member s2)
            (s_move_no_lock_and_no_wal-IsValid now src dst member s2 h2))
          h1)

  pub s_inter-IsValid :
      (now : ℕ) (keys : List Str) (s : SetStorage L) → IsValid s → Leaves (s_inter now keys s)
  unfolding s_inter
  s_inter-IsValid now [] s h = h
  s_inter-IsValid now (k ∷ ks) s h = option_intro Leaves (inter_sets now (k ∷ ks) s) h (λ r.
      list_intro Leaves r.1 h (λ e es. delete_expired_keys-IsValid engine_id now (e ∷ es) s h))

  pub s_inter_card-IsValid :
      (now : ℕ) (keys : List Str) (limit : ℤ) (s : SetStorage L)
      → IsValid s
      → Leaves (s_inter_card now keys limit s)
  unfolding s_inter_card
  s_inter_card-IsValid now keys limit s h = s_inter-IsValid now keys s h

  pub s_inter_card_some :
      (now : ℕ) (keys : List Str) (limit : ℤ) (s : SetStorage L)
      → (s_inter_card now keys limit s).0 ≢ none
  unfolding s_inter_card
  s_inter_card_some now keys limit s =
      option_split (λ o. o ≢ none) (s_inter now keys s).0 (λ e. absurd (s_inter_some now keys s e))
        (λ ms _. defined _)

  log_stored-IsValid :
      (action dst : Str) (keys : List Str) (n : ℕ) (s : SetStorage L)
      → IsValid s
      → Leaves (log_stored action dst keys n s)
  unfolding log_stored
  log_stored-IsValid action dst keys n s h =
      log-IsValid engine_id action (g.path_escape dst ∷ map g.path_escape keys) s h

  s_inter_store_at-Returns :
      (now : ℕ) (dst : Str) (keys : List Str) (s : SetStorage L)
      → IsValid s
      → Returns Leaves (s_inter_store_between now now dst keys s)
  unfolding s_inter_store_between
  s_inter_store_at-Returns now dst keys s h =
      let s1 = (s_inter now keys s).1 in
      let o = s_inter_store_no_lock_and_no_wal now dst keys s1 in
      option_split (Returns Leaves) (s_inter now keys s).0 (λ e. absurd (s_inter_some now keys s e))
        (λ ms _.
          option_split (Returns Leaves) o (λ e. absurd (store_after_inter_some now dst keys s e))
            (λ s2 found. log_stored-IsValid (bytes "SINTERSTORE") dst keys (length ms) s2 (
              IfReturns_elim IsValid o
                (s_inter_store_no_lock_and_no_wal-IsValid now dst keys s1
                  (s_inter-IsValid now keys s h))
                found)))

  pub s_inter_store_between-Returns :
      (now elapsed : ℕ) (dst : Str) (keys : List Str) (s : SetStorage L)
      → elapsed ≡ 0
      → IsValid s
      → Returns Leaves (s_inter_store_between now (now + elapsed) dst keys s)
  s_inter_store_between-Returns now elapsed dst keys s same h =
      let later : now ≡ now + elapsed = omega (arith, same) in
      subst (λ t. Returns Leaves (s_inter_store_between now t dst keys s)) later
        (s_inter_store_at-Returns now dst keys s h)

  pub s_union-IsValid :
      (now : ℕ) (keys : List Str) (s : SetStorage L) → IsValid s → Leaves (s_union now keys s)
  unfolding s_union
  s_union-IsValid now keys s h =
      delete_expired_keys-IsValid engine_id now (expired_among now keys s) s h

  pub s_union_store-IsValid :
      (now : ℕ) (dst : Str) (keys : List Str) (s : SetStorage L)
      → IsValid s
      → Leaves (s_union_store now dst keys s)
  unfolding s_union_store
  s_union_store-IsValid now dst keys s h =
      log_stored-IsValid (bytes "SUNIONSTORE") dst keys (length (s_union now keys s).0) _ (
        s_union_store_no_lock_and_no_wal-IsValid now dst keys (s_union now keys s).1
          (s_union-IsValid now keys s h))

  pub s_diff-IsValid :
      (now : ℕ) (keys : List Str) (s : SetStorage L) → IsValid s → Leaves (s_diff now keys s)
  unfolding s_diff
  s_diff-IsValid now [] s h = h
  s_diff-IsValid now (first ∷ rest) s h =
      let s' = delete_expired_keys engine_id now (expired_among now (first ∷ rest) s) s in
      let h' = delete_expired_keys-IsValid engine_id now (expired_among now (first ∷ rest) s) s h in
      if_intro Leaves (key_is_expired now first s) h' (
        option_intro Leaves (lookup first s'.entries) h'
          (λ v. if_intro Leaves (is_expired now v.expires_at) h' h'))

  pub s_diff_store-IsValid :
      (now : ℕ) (dst : Str) (keys : List Str) (s : SetStorage L)
      → IsValid s
      → Leaves (s_diff_store now dst keys s)
  unfolding s_diff_store
  s_diff_store-IsValid now dst keys s h =
      log_stored-IsValid (bytes "SDIFFSTORE") dst keys (length (s_diff now keys s).0) _ (
        s_diff_store_no_lock_and_no_wal-IsValid now dst keys (s_diff now keys s).1
          (s_diff-IsValid now keys s h))
