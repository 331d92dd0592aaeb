-- ===== src/ListStorage/Contents.antt =====
-- What the operations without lock and line of pkg/list_storage/list_storage.go leave under each key.
pub mod Found
pub use Found.*
use gomembase.Prelude.{
  ℕ, ◌≡◌, ◌≢◌, refl, ap, ◌∙◌, Bool, true, false, List, [], ◌∷◌, Option, none, some, Str, length,
  arith,
}
use mathlib.Core.Path.{subst}
use gomembase.Prelude.Int.{ℤ}
use gomembase.Prelude.Dict.{lookup}
use gomembase.Logger.{WalLogger}
use gomembase.Collection.{Value, is_expired, log, store}
use gomembase.Collection.Live.{live, lookup-store, lookup-delete_no_lock}
use gomembase.ListStorage.{
  ListStorage, engine_id, ◌>>=◌, store_or_delete, pushed_value, moved_value, delete_if_expired,
  push_no_lock_and_no_wal, pop_no_lock_and_no_wal, move_no_lock_and_no_wal,
  replace_no_lock_and_no_wal, insert_no_lock_and_no_wal, remove_no_lock_and_no_wal,
}
use gomembase.ListStorage.Elements.{
  push_values, take_end, take_front, take_back, replace_loop, insert_loop, remove_elements,
}
use gomembase.ListStorage.Ops.{is_empty_list}
use gomembase.Collection.Panic.{Returns}
use gomembase.ListStorage.Invariant.{take_end_some}
use gomembase.Collection.Contents.{
  elements, contents, View, view_of, update, contents-store, live-view, contents-elements,
}
use gomembase.ListStorage.Refinement.{
  contents-store_or_delete, contents-delete_if_expired, live-delete_if_expired, popped_view,
  moved_view,
}

live-pushed_value :
    (now : ℕ) (e : Option ℕ) (o : Option (Value (List Str)))
    → is_expired now e ≡ false
    → is_expired now (pushed_value now e (live now o)).expires_at ≡ false
unfolding live pushed_value is_expired
live-pushed_value now none none h = h
live-pushed_value now (some t) none h = h
live-pushed_value now none (some v) h = ground (arith, h)
live-pushed_value now (some t) (some v) h = ground (arith, h)

value-pushed_value :
    (now : ℕ) (e : Option ℕ) (o : Option (Value (List Str)))
    → (pushed_value now e o).value ≡ elements o
unfolding pushed_value elements
value-pushed_value now none none = refl
value-pushed_value now (some t) none = refl
value-pushed_value now none (some v) = refl
value-pushed_value now (some t) (some v) = refl

module _ {L : Type 0} where
  pub push_no_lock_and_no_wal-contents :
      (now : ℕ) (k j : Str) (values : List Str) (e : Option ℕ) (left : Bool) (s : ListStorage L)
      → is_expired now e ≡ false
      → contents now j (push_no_lock_and_no_wal now k values e left s)
        ≡ update k (push_values left values (contents now k s)) (view_of now s) j
  unfolding push_no_lock_and_no_wal update contents
  push_no_lock_and_no_wal-contents now k j values e left s h =
      let s' = delete_if_expired now k s in
      let o = lookup k s'.entries in
      let x = pushed_value now e o in
      let found = live-delete_if_expired now k s in
      let fresh : is_expired now x.expires_at ≡ false =
        ap (λ o. is_expired now (pushed_value now e o).expires_at) found
        ∙ live-pushed_value now e (lookup k s.entries) h in
      contents-store now k j (record x { value = push_values left values x.value }) e s' fresh
      ∙ ground (arith, value-pushed_value now e o, found, contents-delete_if_expired now k j s)

  -- A pop from a list that is there and has not expired.
  pub pop_no_lock_and_no_wal-contents :
      (now : ℕ) (k j : Str) (left : Bool) (s : ListStorage L) (v : Value (List Str))
      → lookup k s.entries ≡ some v
      → is_expired now v.expires_at ≡ false
      → v.value ≢ []
      → Returns
          (λ r. contents now j r.1 ≡ popped_view left k (view_of now s) j)
          (pop_no_lock_and_no_wal k left s)
  unfolding pop_no_lock_and_no_wal popped_view
  pop_no_lock_and_no_wal-contents now k j left s v found fresh full =
      bind_found _ (lookup k s.entries) _ found (
        option_rec (take_end left v.value) (λ e. absurd (take_end_some left v.value full e))
          (λ t taken. bind_found _ (take_end left v.value) _ taken (
            contents-store_or_delete now k j v t.1 s fresh
            ∙ ground (arith, taken, live-view now k s v found fresh))))

  pub pop_found :
      (k : Str) (left : Bool) (s : ListStorage L) (v : Value (List Str)) (t : Str × List Str)
      → lookup k s.entries ≡ some v
      → take_end left v.value ≡ some t
      → pop_no_lock_and_no_wal k left s ≡ some (t.0, store_or_delete k v t.1 s)
  unfolding pop_no_lock_and_no_wal
  pop_found k left s v t found taken = ground (arith, found, taken)

  kept-store_or_delete :
      (now : ℕ) (k j : Str) (v : Value (List Str)) (xs : List Str) (s : ListStorage L)
      → is_expired now v.expires_at ≡ false
      → live now (lookup j s.entries) ≡ lookup j s.entries
      → live now (lookup j (store_or_delete k v xs s).entries)
        ≡ lookup j (store_or_delete k v xs s).entries
  unfolding store_or_delete live
  kept-store_or_delete now k j v [] s fresh h = ground (arith, lookup-delete_no_lock k j s, h)
  kept-store_or_delete now k j v (x ∷ xs) s fresh h =
      ground (arith, lookup-store k j (record v { value = x ∷ xs }) none s, h, fresh)

  pub move_no_lock_and_no_wal-contents :
      (now : ℕ) (from to j : Str) (src_left dst_left : Bool) (s : ListStorage L)
      (v : Value (List Str))
      → lookup from s.entries ≡ some v
      → is_expired now v.expires_at ≡ false
      → v.value ≢ []
      → live now (lookup to s.entries) ≡ lookup to s.entries
      → Returns
          (λ r. contents now j r.1 ≡ moved_view from to src_left dst_left (view_of now s) j)
          (move_no_lock_and_no_wal now from to src_left dst_left s)
  unfolding move_no_lock_and_no_wal moved_view
  move_no_lock_and_no_wal-contents now from to j src_left dst_left s v found fresh full kept =
      option_rec (take_end src_left v.value) (λ e. absurd (take_end_some src_left v.value full e))
        (λ t taken.
          let s1 = store_or_delete from v t.1 s in
          let o = lookup to s1.entries in
          let x = moved_value now o in
          let still : live now o ≡ o = kept-store_or_delete now from to v t.1 s fresh kept in
          bind_found _ (pop_no_lock_and_no_wal from src_left s) _
            (pop_found from src_left s v t found taken)
            (contents-store now to j (record x { value = push_values dst_left (t.0 ∷ []) x.value })
                none s1 (fresh-moved_value now o still)
              ∙ ground (
                arith,
                taken,
                live-view now from s v found fresh,
                value-moved_value now o,
                contents-elements now to s1 still,
                contents-store_or_delete now from j v t.1 s fresh,
                contents-store_or_delete now from to v t.1 s fresh,
              )))

  -- The same list with other elements.
  pub contents-kept :
      (now : ℕ) (k j : Str) (v : Value (List Str)) (xs : List Str) (s : ListStorage L)
      → is_expired now v.expires_at ≡ false
      → contents now j (store k (record v { value = xs }) none s) ≡ update k xs (view_of now s) j
  contents-kept now k j v xs s fresh = contents-store now k j (record v { value = xs }) none s fresh

  pub replace_found :
      (k : Str) (i : ℤ) (value : Str) (s : ListStorage L) (v : Value (List Str))
      → lookup k s.entries ≡ some v
      → replace_no_lock_and_no_wal k i value s
        ≡ some (store k (record v { value = replace_loop 0 i value v.value }) none s)
  unfolding replace_no_lock_and_no_wal
  replace_found k i value s v found = ground (arith, found)

  pub insert_missed :
      (k pivot value : Str) (before : Bool) (s : ListStorage L) (v : Value (List Str))
      → lookup k s.entries ≡ some v
      → insert_loop pivot value before v.value ≡ none
      → insert_no_lock_and_no_wal k pivot value before s ≡ some (none, s)
  unfolding insert_no_lock_and_no_wal
  insert_missed k pivot value before s v found out = ground (arith, found, out)

  pub insert_found :
      (k pivot value : Str) (before : Bool) (s : ListStorage L) (v : Value (List Str))
      (xs : List Str)
      → lookup k s.entries ≡ some v
      → insert_loop pivot value before v.value ≡ some xs
      → insert_no_lock_and_no_wal k pivot value before s
        ≡ some (some (length xs), store k (record v { value = xs }) none s)
  unfolding insert_no_lock_and_no_wal
  insert_found k pivot value before s v xs found inside = ground (arith, found, inside)

  pub remove_found :
      (k : Str) (count : ℤ) (element : Str) (s : ListStorage L) (v : Value (List Str))
      → lookup k s.entries ≡ some v
      → remove_no_lock_and_no_wal k count element s
        ≡ some (
          (remove_elements count element v.value).0,
          store_or_delete k v (remove_elements count element v.value).1 s,
        )
  unfolding remove_no_lock_and_no_wal
  remove_found k count element s v found = ground (arith, found)
