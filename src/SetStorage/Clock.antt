-- ===== src/SetStorage/Clock.antt =====
-- SInterStore of pkg/set_storage/set_storage.go where time passes between its two readings of the
-- clock.
use gomembase.Prelude.{ℕ, ◌≡◌, ◌≢◌, true, false, List, [], ◌∷◌, none, some, Str, str_eq_iff, arith}
use gomembase.Prelude.Dict.{lookup}
use gomembase.Logger.{WalLogger}
use gomembase.Stdlib.{GoText}
use gomembase.Collection.{Value, is_expired, delete_no_lock}
use gomembase.Collection.Live.{lookup-delete_no_lock}
use gomembase.SetStorage.{SetStorage, stored_sets, s_inter_store_no_lock_and_no_wal}
use gomembase.SetStorage.Members.{inter_of}
use gomembase.SetStorage.Algebra.{inter_sets, s_inter, s_inter_store_between}

module _ {L : Type 0} where
  no_set_left :
      (later : ℕ) (dst k : Str) (s : SetStorage L) (v : Value (List Str))
      → lookup k s.entries ≡ some v
      → is_expired later v.expires_at ≡ true
      → dst ≢ k
      → s_inter_store_no_lock_and_no_wal later dst (k ∷ []) s ≡ none
  unfolding s_inter_store_no_lock_and_no_wal stored_sets inter_of
  no_set_left later dst k s v found old other =
      let kept : lookup k (delete_no_lock dst s).entries ≡ some v =
        ground (arith, lookup-delete_no_lock dst k s, str_eq_iff dst k, other, found) in
      ground (arith, kept, old)

module _ {L : Type 0} ⦃w : WalLogger L⦄ ⦃g : GoText⦄ where
  inter-unchanged :
      (now : ℕ) (k : Str) (s : SetStorage L) (v : Value (List Str))
      → lookup k s.entries ≡ some v
      → is_expired now v.expires_at ≡ false
      → (s_inter now (k ∷ []) s).1 ≡ s
  unfolding s_inter inter_sets
  inter-unchanged now k s v found fresh = ground (arith, found, fresh)

  -- An SInterStore of one set into another key panics if the set expires between the two readings of
  -- the clock.
  pub s_inter_store_between-panics :
      (now later : ℕ) (dst k : Str) (s : SetStorage L) (v : Value (List Str))
      → lookup k s.entries ≡ some v
      → is_expired now v.expires_at ≡ false
      → is_expired later v.expires_at ≡ true
      → dst ≢ k
      → s_inter_store_between now later dst (k ∷ []) s ≡ none
  unfolding s_inter_store_between
  s_inter_store_between-panics now later dst k s v found fresh old other =
      ground
        (arith, inter-unchanged now k s v found fresh, no_set_left later dst k s v found old other)
