-- ===== src/SetStorage/Algebra.antt =====
-- SInter, SUnion and SDiff of pkg/set_storage/set_storage.go, and the methods that store their results.
use gomembase.Prelude.{
  ℕ, Bool, false, List, [], ◌∷◌, map, Option, none, some, Str, bytes, length, ltb, if◌then◌else◌,
}
use gomembase.Prelude.Int.{ℤ, pos, negsuc}
use gomembase.Prelude.Dict.{lookup}
use gomembase.Errors.{Result}
use gomembase.Logger.{WalLogger}
use gomembase.Stdlib.{GoText}
use gomembase.Collection.{is_expired, log, delete_expired_keys}
use gomembase.SetStorage.{
  SetStorage, engine_id, s_inter_store_no_lock_and_no_wal, s_union_store_no_lock_and_no_wal,
  s_diff_store_no_lock_and_no_wal,
}
use gomembase.SetStorage.Members.{inter_of, union_loop, diff_loop}
use gomembase.SetStorage.Ops.{result_of}

abbrev pub key_is_expired : {L : Type 0} → ℕ → Str → SetStorage L → Bool
key_is_expired now k s = elim (lookup k s.entries) [
  | none ↦ false
  | some v ↦ is_expired now v.expires_at
]

-- The sets under the keys and the expired keys, or `none` where a key is missing.
unfoldable pub inter_sets :
    {L : Type 0} → ℕ → List Str → SetStorage L → Option (List (List Str) × List Str)
unfolding is_expired
inter_sets now [] s = some ([], [])
inter_sets now (k ∷ ks) s = elim (lookup k s.entries) [
  | none ↦ none
  | some v ↦ elim (inter_sets now ks s) [
    | none ↦ none
    | some (sets, expired) ↦
        if is_expired now v.expires_at
        then some (sets, k ∷ expired)
        else some (v.value ∷ sets, expired)
  ]
]

-- The expired keys among `keys`.
unfoldable pub expired_among : {L : Type 0} → ℕ → List Str → SetStorage L → List Str
unfolding is_expired
expired_among now [] s = []
expired_among now (k ∷ ks) s =
    let rest = expired_among now ks s in if key_is_expired now k s then k ∷ rest else rest

-- Over the sets that are there and have not expired, with a step for each.
unfoldable pub fold_live :
    {L : Type 0}
    → (List Str → List Str → List Str)
    → ℕ
    → List Str
    → List Str
    → SetStorage L
    → List Str
unfolding is_expired
fold_live step now [] acc s = acc
fold_live step now (k ∷ ks) acc s =
    let skipped = fold_live step now ks acc s in
    elim (lookup k s.entries) [
      | none ↦ skipped
      | some v ↦
          let used = fold_live step now ks (step v.value acc) s in
          if is_expired now v.expires_at then skipped else used
    ]

module _ {L : Type 0} ⦃w : WalLogger L⦄ ⦃g : GoText⦄ where
  -- `none` is a panic.
  unfoldable pub s_inter : ℕ → List Str → SetStorage L → Option (List Str) × SetStorage L
  unfolding inter_sets inter_of
  s_inter now [] s = (some [], s)
  s_inter now (k ∷ ks) s = elim (inter_sets now (k ∷ ks) s) [
    | none ↦ (some [], s)
    | some (sets, []) ↦ (inter_of sets, s)
    | some (sets, e ∷ es) ↦ (some [], delete_expired_keys engine_id now (e ∷ es) s)
  ]

  unfoldable pub s_inter_card : ℕ → List Str → ℤ → SetStorage L → Option ℕ × SetStorage L
  unfolding s_inter
  s_inter_card now keys limit s =
      let (res, s') = s_inter now keys s in
      (
        elim res [
          | none ↦ none
          | some ms ↦ some (elim limit [
            | pos n ↦ if ltb 0 n then (if ltb n (length ms) then n else length ms) else length ms
            | negsuc n ↦ length ms
          ])
        ],
        s',
      )

  unfoldable pub s_union : ℕ → List Str → SetStorage L → List Str × SetStorage L
  unfolding fold_live union_loop expired_among
  s_union now keys s = (
    fold_live union_loop now keys [] s,
    delete_expired_keys engine_id now (expired_among now keys s) s,
  )

  unfoldable pub s_diff : ℕ → List Str → SetStorage L → List Str × SetStorage L
  unfolding fold_live diff_loop expired_among is_expired
  s_diff now [] s = ([], s)
  s_diff now (first ∷ rest) s =
      let s' = delete_expired_keys engine_id now (expired_among now (first ∷ rest) s) s in
      if key_is_expired now first s then ([], s') else elim (lookup first s'.entries) [
        | none ↦ ([], s')
        | some v ↦
            if is_expired now v.expires_at
            then ([], s')
            else (fold_live diff_loop now rest v.value s', s')
      ]

  -- The line of a store method, and the count of the result that was read before.
  unfoldable pub log_stored : Str → Str → List Str → ℕ → SetStorage L → Result ℕ × SetStorage L
  log_stored action dst_key keys count s =
      let r = log engine_id action (g.path_escape dst_key ∷ map g.path_escape keys) s in
      (result_of count r.0, r.1)

  -- SInterStore reads the clock for SInter and, later, for the sets that it stores.
  unfoldable pub s_inter_store_between :
      ℕ → ℕ → Str → List Str → SetStorage L → Option (Result ℕ × SetStorage L)
  unfolding s_inter log_stored
  s_inter_store_between now later dst_key keys s =
      let (res, s1) = s_inter now keys s in
      elim res [
        | none ↦ none
        | some ms ↦ elim (s_inter_store_no_lock_and_no_wal later dst_key keys s1) [
          | none ↦ none
          | some s2 ↦ some (log_stored (bytes "SINTERSTORE") dst_key keys (length ms) s2)
        ]
      ]

  unfoldable pub s_union_store : ℕ → Str → List Str → SetStorage L → Result ℕ × SetStorage L
  unfolding s_union log_stored
  s_union_store now dst_key keys s =
      let (ms, s1) = s_union now keys s in
      log_stored (bytes "SUNIONSTORE") dst_key keys (length ms)
        (s_union_store_no_lock_and_no_wal now dst_key keys s1)

  unfoldable pub s_diff_store : ℕ → Str → List Str → SetStorage L → Result ℕ × SetStorage L
  unfolding s_diff log_stored
  s_diff_store now dst_key keys s =
      let (ms, s1) = s_diff now keys s in
      log_stored (bytes "SDIFFSTORE") dst_key keys (length ms)
        (s_diff_store_no_lock_and_no_wal now dst_key keys s1)
