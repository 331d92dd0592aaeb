-- ===== src/ListStorage/Clock.antt =====
-- Move of pkg/list_storage/list_storage.go where time passes between its two readings of the clock.
use gomembase.Prelude.{
  ℕ, refl, ◌≡◌, ◌≢◌, Bool, true, false, List, [], ◌∷◌, none, some, Str, str_eq_refl, arith,
}
use gomembase.Prelude.Dict.{lookup}
use gomembase.Logger.{WalLogger}
use gomembase.Stdlib.{GoText}
use gomembase.Collection.{Value, is_expired, drop_expired}
use gomembase.Collection.Live.{live, lookup-drop_expired}
use gomembase.ListStorage.{ListStorage, engine_id, move_no_lock_and_no_wal, pop_no_lock_and_no_wal}
use gomembase.ListStorage.Ops.{is_empty_list, move_between}

pub kept_fresh :
    {L : Type 0} ⦃w : WalLogger L⦄ ⦃g : GoText⦄ (now : ℕ) (k : Str) (s : ListStorage L)
    (v : Value (List Str))
    → lookup k s.entries ≡ some v
    → is_expired now v.expires_at ≡ false
    → drop_expired engine_id now k s ≡ s
unfolding drop_expired
kept_fresh now k s v found fresh = ground (arith, found, fresh)

pub not_empty : (v : Value (List Str)) → v.value ≢ [] → is_empty_list (some v) ≡ false
not_empty v full = not_nil v.value full
  where
    not_nil : (xs : List Str) → xs ≢ [] → elim xs [ [] ↦ true | x ∷ xs ↦ false ] ≡ false
    not_nil [] h = absurd (h refl)
    not_nil (x ∷ xs) h = refl

module _ {L : Type 0} ⦃w : WalLogger L⦄ ⦃g : GoText⦄ where
  -- A Move of a key onto itself panics if its list, which has an element, expires between the two
  -- readings of the clock.
  pub move_between-panics :
      (now later : ℕ) (k : Str) (src_left dst_left : Bool) (s : ListStorage L)
      (v : Value (List Str))
      → lookup k s.entries ≡ some v
      → v.value ≢ []
      → is_expired now v.expires_at ≡ false
      → is_expired later v.expires_at ≡ true
      → move_between now later k k src_left dst_left s ≡ none
  unfolding move_between move_no_lock_and_no_wal pop_no_lock_and_no_wal live
  move_between-panics now later k src_left dst_left s v found full fresh old =
      let same : drop_expired engine_id now k s ≡ s = kept_fresh now k s v found fresh in
      let gone : lookup k (drop_expired engine_id later k s).entries ≡ none =
        ground (arith, lookup-drop_expired engine_id later k k s, str_eq_refl k, found, old) in
      ground (arith, same, gone, found, not_empty v full)
