-- ===== src/SetStorage/Combined.antt =====
-- The unions and differences of pkg/set_storage/set_storage.go by their members.
pub mod Folds
use gomembase.Prelude.{
  ℕ, ◌≡◌, refl, sym, ap, ◌∙◌, fun_ext, Bool, true, false, List, [], ◌∷◌, map, none, some, Str,
  bytes, str_eq_iff, str_eq_refl, if_intro, if_intro_eq, option_intro, option_split, arith,
  if◌then◌else◌,
}
use gomembase.Prelude.Dict.{lookup}
use gomembase.Collection.{Value, is_expired, delete_no_lock, drop_expired}
use gomembase.Collection.Live.{live}
use gomembase.Collection.Contents.{
  elements, contents, update, contents-store, contents-delete_no_lock,
}
use gomembase.SetStorage.{
  SetStorage, engine_id, store_result, fold_sets, s_union_store_no_lock_and_no_wal,
  s_diff_store_no_lock_and_no_wal,
}
use gomembase.Logger.{WalLogger}
use gomembase.Stdlib.{GoText}
use gomembase.Collection.{delete_expired_keys}
use gomembase.SetStorage.Algebra.{
  s_union, s_diff, s_union_store, s_diff_store, expired_among, log_stored, key_is_expired,
}
use gomembase.SetStorage.Refinement.{has-log, has-drop_expired}
use gomembase.SetStorage.Membership.{Membership, has, mem_nil, never, replaced}
use gomembase.SetStorage.Members.{mem, union_loop, diff_loop}
use gomembase.SetStorage.Laws.{mem-union_loop, mem-diff_loop}
use gomembase.SetStorage.Combined.Folds.{
  any_has, first_only, emptied, has-expired, has-live, has-missing, nothing_stored, first_only_none,
  has-delete_expired, fold_sets-has, mem-fold_union, mem-fold_diff, has-emptied, stored-has,
}

module _ {L : Type 0} where
  pub s_union_store_no_lock_and_no_wal-has :
      (now : ℕ) (dst : Str) (keys : List Str) (s : SetStorage L)
      → has now (s_union_store_no_lock_and_no_wal now dst keys s)
        ≡ replaced dst (λ m. any_has keys m (emptied dst (has now s))) (has now s)
  unfolding s_union_store_no_lock_and_no_wal
  s_union_store_no_lock_and_no_wal-has now dst keys s =
      let s0 = delete_no_lock dst s in
      let r = fold_sets union_loop now keys [] s0 in
      stored-has now dst r.0 s r.1 (fold_sets-has union_loop now keys [] s0 ∙ has-emptied now dst s)
      ∙ ap (λ ms. replaced dst ms (has now s))
          (fun_ext (λ m. ground (
            arith,
            mem-fold_union now m keys [] s0,
            mem_nil m,
            ap (any_has keys m) (has-emptied now dst s),
          )))

  pub s_diff_store_no_lock_and_no_wal-has :
      (now : ℕ) (dst : Str) (keys : List Str) (s : SetStorage L)
      → has now (s_diff_store_no_lock_and_no_wal now dst keys s)
        ≡ replaced dst (λ m. first_only keys m (emptied dst (has now s))) (has now s)
  unfolding s_diff_store_no_lock_and_no_wal first_only
  s_diff_store_no_lock_and_no_wal-has now dst [] s = unfold emptied in has-emptied now dst s
  s_diff_store_no_lock_and_no_wal-has now dst (first ∷ rest) s =
      let s0 = delete_no_lock dst s in
      let Q : SetStorage L → Type 0 = λ t.
        has now t
        ≡ replaced dst (λ m. first_only (first ∷ rest) m (emptied dst (has now s))) (has now s) in
      let nothing : ((m : Str) → has now s0 first m ≡ false) → Q s0 = λ gone.
        has-emptied now dst s
        ∙ nothing_stored dst (λ m. first_only (first ∷ rest) m (emptied dst (has now s)))
            (has now s)
            (λ m.
              first_only_none first m rest (emptied dst (has now s))
                (sym (ap (λ h. h first m) (has-emptied now dst s)) ∙ gone m)) in
      option_split Q (lookup first s0.entries)
        (λ missing. nothing (λ m. has-missing now first m s0 missing))
        (λ v found.
          let r = fold_sets diff_loop now rest v.value s0 in
          if_intro_eq Q (is_expired now v.expires_at)
            (λ old.
              has-delete_expired now first s0 v found old
              ∙ nothing (λ m. has-expired now first m s0 v found old))
            (λ fresh.
              stored-has now dst r.0 s r.1
                (fold_sets-has diff_loop now rest v.value s0 ∙ has-emptied now dst s)
              ∙ ap (λ ms. replaced dst ms (has now s))
                  (fun_ext (λ m. ground (
                    arith,
                    mem-fold_diff now m rest v.value s0,
                    ap (any_has rest m) (has-emptied now dst s),
                    has-live now first m s0 v found fresh,
                    ap (λ h. h first m) (has-emptied now dst s),
                  )))))

module _ {L : Type 0} ⦃w : WalLogger L⦄ ⦃g : GoText⦄ where
  has-delete_expired_keys :
      (now : ℕ) (keys : List Str) (s : SetStorage L)
      → has now (delete_expired_keys engine_id now keys s) ≡ has now s
  unfolding delete_expired_keys
  has-delete_expired_keys now [] s = refl
  has-delete_expired_keys now (k ∷ ks) s =
      has-delete_expired_keys now ks (drop_expired engine_id now k s) ∙ has-drop_expired now k s

  s_diff-kept :
      (now : ℕ) (keys : List Str) (s : SetStorage L) → has now (s_diff now keys s).1 ≡ has now s
  unfolding s_diff
  s_diff-kept now [] s = refl
  s_diff-kept now (first ∷ rest) s =
      let expired = expired_among now (first ∷ rest) s in
      let s' = delete_expired_keys engine_id now expired s in
      let kept = has-delete_expired_keys now expired s in
      let Q : List Str × SetStorage L → Type 0 = λ r. has now r.1 ≡ has now s in
      if_intro Q (key_is_expired now first s) kept (
        option_intro Q (lookup first s'.entries) kept
          (λ v. if_intro Q (is_expired now v.expires_at) kept kept))

  -- After SUnionStore the destination has exactly the members that the sets under the keys had, those
  -- of the destination left out even if it is one of the keys, and all other sets are as before.
  pub s_union_store-has :
      (now : ℕ) (dst : Str) (keys : List Str) (s : SetStorage L)
      → has now (s_union_store now dst keys s).1
        ≡ replaced dst (λ m. any_has keys m (emptied dst (has now s))) (has now s)
  unfolding s_union_store log_stored s_union
  s_union_store-has now dst keys s =
      let s1 = (s_union now keys s).1 in
      let s2 = s_union_store_no_lock_and_no_wal now dst keys s1 in
      has-log now (bytes "SUNIONSTORE") (g.path_escape dst ∷ map g.path_escape keys) s2
      ∙ s_union_store_no_lock_and_no_wal-has now dst keys s1
      ∙ ap (λ h. replaced dst (λ m. any_has keys m (emptied dst h)) h)
          (has-delete_expired_keys now (expired_among now keys s) s)

  -- After SDiffStore the destination has exactly the members of the first set that none of the others
  -- had, where the destination counts as empty if it is one of the keys, and all other sets are as
  -- before.
  pub s_diff_store-has :
      (now : ℕ) (dst : Str) (keys : List Str) (s : SetStorage L)
      → has now (s_diff_store now dst keys s).1
        ≡ replaced dst (λ m. first_only keys m (emptied dst (has now s))) (has now s)
  unfolding s_diff_store log_stored
  s_diff_store-has now dst keys s =
      let s1 = (s_diff now keys s).1 in
      let s2 = s_diff_store_no_lock_and_no_wal now dst keys s1 in
      has-log now (bytes "SDIFFSTORE") (g.path_escape dst ∷ map g.path_escape keys) s2
      ∙ s_diff_store_no_lock_and_no_wal-has now dst keys s1
      ∙ ap (λ h. replaced dst (λ m. first_only keys m (emptied dst h)) h) (s_diff-kept now keys s)
