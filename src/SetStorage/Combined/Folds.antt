-- ===== src/SetStorage/Combined/Folds.antt =====
-- The loops over the sets of a union or a difference of pkg/set_storage/set_storage.go, by members.
use gomembase.Prelude.{
  ℕ, ◌≡◌, refl, sym, ap, ◌∙◌, fun_ext, Bool, true, false, List, [], ◌∷◌, none, some, Str,
  str_eq_iff, str_eq_refl, if_intro_eq, option_split, arith, if◌then◌else◌,
}
use gomembase.Prelude.Dict.{lookup}
use gomembase.Collection.{Value, is_expired, delete_no_lock}
use gomembase.Collection.Live.{live}
use gomembase.Collection.Contents.{
  elements, contents, update, contents-store, contents-delete_no_lock,
}
use gomembase.SetStorage.{SetStorage, store_result, fold_sets}
use gomembase.SetStorage.Membership.{Membership, has, mem_nil, never, replaced}
use gomembase.SetStorage.Members.{mem, union_loop, diff_loop}
use gomembase.SetStorage.Laws.{mem-union_loop, mem-diff_loop}

-- Whether one of the sets has the member.
unfoldable pub any_has : List Str → Str → Membership → Bool
any_has [] m h = false
any_has (k ∷ ks) m h = if h k m then true else any_has ks m h

-- Whether the first set has the member and none of the others.
unfoldable pub first_only : List Str → Str → Membership → Bool
unfolding any_has
first_only [] m h = false
first_only (k ∷ ks) m h = if any_has ks m h then false else h k m

unfoldable pub emptied : Str → Membership → Membership
unfolding replaced
emptied key h = replaced key (λ m. false) h

pub emptied_self : (dst m : Str) (h : Membership) → emptied dst h dst m ≡ false
unfolding emptied replaced
emptied_self dst m h = ground (arith, str_eq_refl dst)

replaced-emptied :
    (dst : Str) (ms : Str → Bool) (h : Membership)
    → replaced dst ms (emptied dst h) ≡ replaced dst ms h
unfolding emptied replaced
replaced-emptied dst ms h = fun_ext (λ k. fun_ext (λ m. ground arith))

pub nothing_stored :
    (dst : Str) (ms : Str → Bool) (h : Membership)
    → ((m : Str) → ms m ≡ false)
    → emptied dst h ≡ replaced dst ms h
unfolding emptied
nothing_stored dst ms h empty = ap (λ f. replaced dst f h) (fun_ext (λ m. sym (empty m)))

pub first_only_none :
    (first m : Str) (rest : List Str) (h : Membership)
    → h first m ≡ false
    → first_only (first ∷ rest) m h ≡ false
unfolding first_only
first_only_none first m rest h empty = ground (arith, empty)

module _ {L : Type 0} where
  has-delete_no_lock :
      (now : ℕ) (key k m : Str) (s : SetStorage L)
      → has now (delete_no_lock key s) k m ≡ replaced key (λ m'. false) (has now s) k m
  unfolding replaced update
  has-delete_no_lock now key k m s = ground (arith, contents-delete_no_lock now key k s, mem_nil m)

  -- An expired set shows no members, so that deleting it changes nothing.
  pub has-expired :
      (now : ℕ) (key m : Str) (s : SetStorage L) (v : Value (List Str))
      → lookup key s.entries ≡ some v
      → is_expired now v.expires_at ≡ true
      → has now s key m ≡ false
  unfolding contents live elements mem
  has-expired now key m s v found old = ground (arith, found, old)

  pub has-live :
      (now : ℕ) (key m : Str) (s : SetStorage L) (v : Value (List Str))
      → lookup key s.entries ≡ some v
      → is_expired now v.expires_at ≡ false
      → has now s key m ≡ mem m v.value
  unfolding contents live elements
  has-live now key m s v found fresh = ground (arith, found, fresh)

  pub has-missing :
      (now : ℕ) (key m : Str) (s : SetStorage L)
      → lookup key s.entries ≡ none
      → has now s key m ≡ false
  unfolding contents live elements mem
  has-missing now key m s h = ground (arith, h)

  pub has-delete_expired :
      (now : ℕ) (key : Str) (s : SetStorage L) (v : Value (List Str))
      → lookup key s.entries ≡ some v
      → is_expired now v.expires_at ≡ true
      → has now (delete_no_lock key s) ≡ has now s
  unfolding replaced
  has-delete_expired now key s v found old = fun_ext (λ k. fun_ext (λ m. ground (
    arith,
    has-delete_no_lock now key k m s,
    has-expired now key m s v found old,
    str_eq_iff key k,
  )))

  pub fold_sets-has :
      (step : List Str → List Str → List Str) (now : ℕ) (keys acc : List Str) (s : SetStorage L)
      → has now (fold_sets step now keys acc s).1 ≡ has now s
  unfolding fold_sets
  fold_sets-has step now [] acc s = refl
  fold_sets-has step now (k ∷ ks) acc s =
      let Q : List Str × SetStorage L → Type 0 = λ r. has now r.1 ≡ has now s in
      option_split Q (lookup k s.entries) (λ _. fold_sets-has step now ks acc s)
        (λ v found.
          if_intro_eq Q (is_expired now v.expires_at)
            (λ old.
              fold_sets-has step now ks acc (delete_no_lock k s)
              ∙ has-delete_expired now k s v found old)
            (λ _. fold_sets-has step now ks (step v.value acc) s))

  pub mem-fold_union :
      (now : ℕ) (m : Str) (keys acc : List Str) (s : SetStorage L)
      → mem m (fold_sets union_loop now keys acc s).0
        ≡ (if any_has keys m (has now s) then true else mem m acc)
  unfolding fold_sets any_has
  mem-fold_union now m [] acc s = refl
  mem-fold_union now m (k ∷ ks) acc s =
      let Q : List Str × SetStorage L → Type 0 =
        λ r. mem m r.0 ≡ (if any_has (k ∷ ks) m (has now s) then true else mem m acc) in
      option_split Q (lookup k s.entries)
        (λ missing. ground (arith, mem-fold_union now m ks acc s, has-missing now k m s missing))
        (λ v found.
          if_intro_eq Q (is_expired now v.expires_at)
            (λ old.
              mem-fold_union now m ks acc (delete_no_lock k s)
              ∙ ground (
                arith,
                has-delete_expired now k s v found old,
                has-expired now k m s v found old,
              ))
            (λ fresh. ground (
              arith,
              mem-fold_union now m ks (union_loop v.value acc) s,
              has-live now k m s v found fresh,
              mem-union_loop m v.value acc,
            )))

  pub mem-fold_diff :
      (now : ℕ) (m : Str) (keys acc : List Str) (s : SetStorage L)
      → mem m (fold_sets diff_loop now keys acc s).0
        ≡ (if any_has keys m (has now s) then false else mem m acc)
  unfolding fold_sets any_has
  mem-fold_diff now m [] acc s = refl
  mem-fold_diff now m (k ∷ ks) acc s =
      let Q : List Str × SetStorage L → Type 0 =
        λ r. mem m r.0 ≡ (if any_has (k ∷ ks) m (has now s) then false else mem m acc) in
      option_split Q (lookup k s.entries)
        (λ missing. ground (arith, mem-fold_diff now m ks acc s, has-missing now k m s missing))
        (λ v found.
          if_intro_eq Q (is_expired now v.expires_at)
            (λ old.
              mem-fold_diff now m ks acc (delete_no_lock k s)
              ∙ ground (
                arith,
                has-delete_expired now k s v found old,
                has-expired now k m s v found old,
              ))
            (λ fresh. ground (
              arith,
              mem-fold_diff now m ks (diff_loop v.value acc) s,
              has-live now k m s v found fresh,
              mem-diff_loop m v.value acc,
            )))

  -- Storing members under a key that shows none.
  store_result-has :
      (now : ℕ) (key k m : Str) (ms : List Str) (s : SetStorage L)
      → ((m' : Str) → has now s key m' ≡ false)
      → has now (store_result now key ms s) k m ≡ replaced key (λ m'. mem m' ms) (has now s) k m
  unfolding store_result replaced update mem
  store_result-has now key k m [] s empty = ground (arith, empty m, str_eq_iff key k)
  store_result-has now key k m (x ∷ xs) s empty = ground (
    arith,
    never now,
    contents-store now key k (record { value = x ∷ xs; created_at = now; expires_at = none }) none s
        (never now),
  )

  pub has-emptied :
      (now : ℕ) (dst : Str) (s : SetStorage L)
      → has now (delete_no_lock dst s) ≡ emptied dst (has now s)
  unfolding emptied
  has-emptied now dst s = fun_ext (λ k. fun_ext (λ m. has-delete_no_lock now dst k m s))

  -- What is stored after the destination has been emptied.
  pub stored-has :
      (now : ℕ) (dst : Str) (ms : List Str) (s t : SetStorage L)
      → has now t ≡ emptied dst (has now s)
      → has now (store_result now dst ms t) ≡ replaced dst (λ m. mem m ms) (has now s)
  stored-has now dst ms s t same =
      fun_ext (λ k. fun_ext (λ m.
        store_result-has now dst k m ms t
          (λ m'. ap (λ h. h dst m') same ∙ emptied_self dst m' (has now s))))
      ∙ ap (replaced dst (λ m. mem m ms)) same
      ∙ replaced-emptied dst (λ m. mem m ms) (has now s)
