-- ===== src/SetStorage/Panics.antt =====
-- SInter and SInterStore of pkg/set_storage/set_storage.go always have a set to start from.
use gomembase.Prelude.{
  ℕ, ◌≡◌, ◌≢◌, refl, sym, ap, ◌∙◌, List, [], ◌∷◌, Option, none, some, Str, str_eq_iff, str_eq_refl,
  option_split, Option-cases, Bool-cases, ◌⊎◌, inl, inr, arith,
}
use gomembase.Prelude.Dict.{lookup}
use mathlib.Core.Path.{subst}
use gomembase.Logger.{WalLogger}
use gomembase.Stdlib.{GoText}
use gomembase.Collection.{is_expired, delete_no_lock, drop_expired, delete_expired_keys}
use gomembase.Collection.Live.{live, live_idempotent, lookup-delete_no_lock, lookup-drop_expired}
use gomembase.Collection.Panic.{defined}
use gomembase.SetStorage.{
  SetStorage, engine_id, stored_sets, store_result, s_inter_store_no_lock_and_no_wal,
}
use gomembase.SetStorage.Members.{inter_of}
use gomembase.SetStorage.Algebra.{inter_sets, s_inter}
use gomembase.SetStorage.Laws.{inter_of-in_all}
use gomembase.SetStorage.Invariant.{delete_no_lock_missing}

-- The state `t` has no set where `s` has none.
abbrev pub Fewer : {L : Type 0} → SetStorage L → SetStorage L → Type 0
Fewer s t = (j : Str) → lookup j s.entries ≡ none → lookup j t.entries ≡ none

-- What is under the key, if anything, has not expired.
abbrev pub Unexpired : {L : Type 0} → ℕ → Str → SetStorage L → Type 0
Unexpired now k s = live now (lookup k s.entries) ≡ lookup k s.entries

inter_of_some : (first : List Str) (sets : List (List Str)) → inter_of (first ∷ sets) ≢ none
inter_of_some first sets =
    let (ms, e, members) = inter_of-in_all first sets in λ h. absurd (ground (arith, e, h))

no_sets : (xs : List (List Str)) → xs ≢ [] → inter_of xs ≢ none
no_sets [] h = absurd (h refl)
no_sets (x ∷ xs) h = inter_of_some x xs

module _ {L : Type 0} where
  -- Where SInter misses a key, so does the method that stores its result.
  stored_sets_missing :
      (now : ℕ) (keys : List Str) (s t : SetStorage L)
      → Fewer s t
      → inter_sets now keys s ≡ none
      → (stored_sets now keys t).0 ≡ none
  unfolding inter_sets stored_sets
  stored_sets_missing now [] s t f h = absurd (ground (arith, h))
  stored_sets_missing now (k ∷ ks) s t f h = elim (Option-cases (lookup k s.entries)) [
    | inl e ↦ ground (arith, f k e)
    | inr (v, e) ↦ elim (Option-cases (inter_sets now ks s)) [
      | inl e' ↦ ground (
        arith,
        stored_sets_missing now ks s t f e',
        stored_sets_missing now ks s (delete_no_lock k t)
            (λ j g. delete_no_lock_missing k j t (f j g)) e',
      )
      | inr (r, e') ↦ absurd (ground (arith, e, e', h))
    ]
  ]

  -- A first set that has not expired is there to start from.
  stored_sets_full :
      (now : ℕ) (k : Str) (ks : List Str) (t : SetStorage L)
      → live now (lookup k t.entries) ≡ lookup k t.entries
      → (stored_sets now (k ∷ ks) t).0 ≢ some []
  unfolding stored_sets live
  stored_sets_full now k ks t h = elim (Option-cases (lookup k t.entries)) [
    | inl e ↦ λ g. absurd (ground (arith, e, g))
    | inr (v, e) ↦ λ g. absurd (ground (arith, e, h, g))
  ]

  store_some :
      (now : ℕ) (dst k : Str) (ks : List Str) (s : SetStorage L)
      → (stored_sets now (k ∷ ks) (delete_no_lock dst s)).0 ≢ some []
      → s_inter_store_no_lock_and_no_wal now dst (k ∷ ks) s ≢ none
  unfolding s_inter_store_no_lock_and_no_wal
  store_some now dst k ks s h =
      let r = stored_sets now (k ∷ ks) (delete_no_lock dst s) in
      option_split (λ o. o ≢ none) r.0 (λ _. defined r.1)
        (λ xs found.
          option_split (λ o. o ≢ none) (inter_of xs)
            (λ e. absurd (no_sets xs (λ g. h (found ∙ ap some g)) e))
            (λ ms _. defined (store_result now dst ms r.1)))

  pub delete_no_lock-Unexpired :
      (now : ℕ) (k j : Str) (s : SetStorage L)
      → Unexpired now j s
      → Unexpired now j (delete_no_lock k s)
  unfolding live
  delete_no_lock-Unexpired now k j s h = ground (arith, lookup-delete_no_lock k j s, h)

  pub head_live :
      (now : ℕ) (k : Str) (ks : List Str) (s : SetStorage L) (sets : List (List Str))
      → inter_sets now (k ∷ ks) s ≡ some (sets, [])
      → Unexpired now k s × (sets ≢ [])
  unfolding inter_sets live
  head_live now k ks s sets h = elim (Option-cases (lookup k s.entries)) [
    | inl e ↦ absurd (ground (arith, e, h))
    | inr (v, e) ↦ elim (Option-cases (inter_sets now ks s)) [
      | inl e' ↦ absurd (ground (arith, e, e', h))
      | inr (r, e') ↦ (ground (arith, e, e', h), λ g. absurd (ground (arith, e, e', h, g)))
    ]
  ]

  head_expired :
      (now : ℕ) (k : Str) (ks : List Str) (s : SetStorage L) (sets : List (List Str)) (j : Str)
      (js : List Str)
      → inter_sets now (k ∷ ks) s ≡ some (sets, j ∷ js)
      → Unexpired now k s ⊎ (j ≡ k)
  unfolding inter_sets live
  head_expired now k ks s sets j js h = elim (Option-cases (lookup k s.entries)) [
    | inl e ↦ absurd (ground (arith, e, h))
    | inr (v, e) ↦ elim (Option-cases (inter_sets now ks s)) [
      | inl e' ↦ absurd (ground (arith, e, e', h))
      | inr (r, e') ↦ elim (Bool-cases (is_expired now v.expires_at)) [
        | inl old ↦ inr (ground (arith, e, e', h, old))
        | inr fresh ↦ inl (ground (arith, e, fresh))
      ]
    ]
  ]

module _ {L : Type 0} ⦃w : WalLogger L⦄ ⦃g : GoText⦄ where
  pub drop_expired-Unexpired :
      (now : ℕ) (k j : Str) (s : SetStorage L)
      → Unexpired now j s
      → Unexpired now j (drop_expired engine_id now k s)
  drop_expired-Unexpired now k j s h = ground (
    arith,
    lookup-drop_expired engine_id now k j s,
    h,
    str_eq_iff k j,
    live_idempotent now (lookup k s.entries),
  )

  pub dropped-Unexpired :
      (now : ℕ) (k : Str) (s : SetStorage L) → Unexpired now k (drop_expired engine_id now k s)
  dropped-Unexpired now k s = ground (
    arith,
    lookup-drop_expired engine_id now k k s,
    str_eq_refl k,
    live_idempotent now (lookup k s.entries),
  )

  delete_expired_keys-Unexpired :
      (now : ℕ) (keys : List Str) (j : Str) (s : SetStorage L)
      → Unexpired now j s
      → Unexpired now j (delete_expired_keys engine_id now keys s)
  unfolding delete_expired_keys
  delete_expired_keys-Unexpired now [] j s h = h
  delete_expired_keys-Unexpired now (k ∷ ks) j s h =
      delete_expired_keys-Unexpired now ks j (drop_expired engine_id now k s)
        (drop_expired-Unexpired now k j s h)

  -- Whatever SInter finds expired is deleted.
  deleted-Unexpired :
      (now : ℕ) (k : Str) (ks : List Str) (s : SetStorage L) (sets : List (List Str)) (e : Str)
      (es : List Str)
      → inter_sets now (k ∷ ks) s ≡ some (sets, e ∷ es)
      → Unexpired now k (delete_expired_keys engine_id now (e ∷ es) s)
  unfolding delete_expired_keys
  deleted-Unexpired now k ks s sets e es h = elim (head_expired now k ks s sets e es h) [
    | inl kept ↦ delete_expired_keys-Unexpired now (e ∷ es) k s kept
    | inr same ↦ delete_expired_keys-Unexpired now es k (drop_expired engine_id now e s) (
        subst (λ j. Unexpired now k (drop_expired engine_id now j s)) (sym same)
          (dropped-Unexpired now k s))
  ]

  pub inter_missing :
      (now : ℕ) (k : Str) (ks : List Str) (s : SetStorage L)
      → inter_sets now (k ∷ ks) s ≡ none
      → s_inter now (k ∷ ks) s ≡ (some [], s)
  unfolding s_inter
  inter_missing now k ks s h = ground (arith, h)

  pub inter_found :
      (now : ℕ) (k : Str) (ks : List Str) (s : SetStorage L) (sets : List (List Str))
      → inter_sets now (k ∷ ks) s ≡ some (sets, [])
      → s_inter now (k ∷ ks) s ≡ (inter_of sets, s)
  unfolding s_inter
  inter_found now k ks s sets h = ground (arith, h)

  pub inter_expired :
      (now : ℕ) (k : Str) (ks : List Str) (s : SetStorage L) (sets : List (List Str)) (e : Str)
      (es : List Str)
      → inter_sets now (k ∷ ks) s ≡ some (sets, e ∷ es)
      → s_inter now (k ∷ ks) s ≡ (some [], delete_expired_keys engine_id now (e ∷ es) s)
  unfolding s_inter
  inter_expired now k ks s sets e es h = ground (arith, h)

  pub s_inter_some : (now : ℕ) (keys : List Str) (s : SetStorage L) → (s_inter now keys s).0 ≢ none
  unfolding s_inter
  s_inter_some now [] s = defined []
  s_inter_some now (k ∷ ks) s = elim (Option-cases (inter_sets now (k ∷ ks) s)) [
    | inl h ↦ λ g. absurd (ground (arith, inter_missing now k ks s h, g))
    | inr ((sets, []), h) ↦ λ g. absurd (
        no_sets sets (head_live now k ks s sets h).1
          (sym (ap (λ r. r.0) (inter_found now k ks s sets h)) ∙ g))
    | inr ((sets, e ∷ es), h) ↦
        λ g. absurd (ground (arith, inter_expired now k ks s sets e es h, g))
  ]

  -- The first key, unless one of the keys is missing, is there and has not expired after SInter.
  store_after_inter :
      (now : ℕ) (dst k : Str) (ks : List Str) (s : SetStorage L)
      → (stored_sets now (k ∷ ks) (delete_no_lock dst (s_inter now (k ∷ ks) s).1)).0 ≢ some []
  store_after_inter now dst k ks s =
      let Q : Option (List Str) × SetStorage L → Type 0 =
        λ r. (stored_sets now (k ∷ ks) (delete_no_lock dst r.1)).0 ≢ some [] in
      elim (Option-cases (inter_sets now (k ∷ ks) s)) [
        | inl h ↦ subst Q (sym (inter_missing now k ks s h)) (λ g. absurd (
            ground (
              arith,
              stored_sets_missing now (k ∷ ks) s (delete_no_lock dst s)
                  (λ j. delete_no_lock_missing dst j s) h,
              g,
            )))
        | inr ((sets, []), h) ↦ subst Q (sym (inter_found now k ks s sets h)) (
            stored_sets_full now k ks (delete_no_lock dst s)
              (delete_no_lock-Unexpired now dst k s (head_live now k ks s sets h).0))
        | inr ((sets, e ∷ es), h) ↦
            let s' = delete_expired_keys engine_id now (e ∷ es) s in
            subst Q (sym (inter_expired now k ks s sets e es h)) (
              stored_sets_full now k ks (delete_no_lock dst s')
                (delete_no_lock-Unexpired now dst k s' (deleted-Unexpired now k ks s sets e es h)))
      ]

  pub store_after_inter_some :
      (now : ℕ) (dst : Str) (keys : List Str) (s : SetStorage L)
      → s_inter_store_no_lock_and_no_wal now dst keys (s_inter now keys s).1 ≢ none
  unfolding s_inter_store_no_lock_and_no_wal
  store_after_inter_some now dst [] s = defined _
  store_after_inter_some now dst (k ∷ ks) s =
      store_some now dst k ks (s_inter now (k ∷ ks) s).1 (store_after_inter now dst k ks s)
