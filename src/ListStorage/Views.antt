-- ===== src/ListStorage/Views.antt =====
-- What each call of the list engine (pkg/list_storage/list_storage.go) does to the view of it.
use gomembase.Prelude.{
  ℕ, zero, suc, ◌≡◌, refl, sym, ap, ◌∙◌, fun_ext, Bool, true, false, List, [], Option, none, some,
  Str, str_eq_iff, str_eq_refl, length, if_intro_eq, option_split, arith,
}
use mathlib.Core.Path.{subst}
use gomembase.Prelude.Int.{ℤ, pos, negsuc}
use gomembase.Prelude.Dict.{lookup}
use gomembase.Errors.{Error, Result}
use gomembase.Logger.{WalLogger}
use gomembase.Stdlib.{GoText}
use gomembase.Collection.{Value, is_expired, drop_expired, store}
use gomembase.Collection.Live.{live, live_idempotent, lookup-drop_expired}
use gomembase.ListStorage.{
  ListStorage, engine_id, store_or_delete, pop_no_lock_and_no_wal, move_no_lock_and_no_wal,
  replace_no_lock_and_no_wal, insert_no_lock_and_no_wal, remove_no_lock_and_no_wal,
}
use gomembase.ListStorage.Elements.{
  resolve_index, replace_loop, insert_loop, remove_loop, remove_elements,
}
use gomembase.ListStorage.Ops.{
  is_empty_list, pop_no_lock, move, move_between, replace_at_index, insert, remove,
}
use gomembase.ListStorage.Panics.{source_kept, ℕ_intro}
use gomembase.Collection.Panic.{Returns}
use gomembase.ListStorage.Invariant.{bind-Returns}
use gomembase.Collection.Contents.{elements, contents, view_of, update, contents-drop_expired}
use gomembase.ListStorage.Refinement.{
  contents-store_or_delete, popped_view, moved_view, replaced_view, inserted_view, removed_view,
}
use gomembase.ListStorage.Contents.{
  bind_found, option_rec, live_fresh, empty_elements, popped_none, moved_none, full_list,
  contents-log, pop_no_lock_and_no_wal-contents, move_no_lock_and_no_wal-contents, replace_found,
  insert_found, insert_missed, remove_found, contents-kept,
}

remove_elements_nil : (count : ℤ) (element : Str) → (remove_elements count element []).1 ≡ []
unfolding remove_elements remove_loop
remove_elements_nil (pos zero) element = refl
remove_elements_nil (pos (suc n)) element = refl
remove_elements_nil (negsuc n) element = refl

module _ {L : Type 0} ⦃w : WalLogger L⦄ ⦃g : GoText⦄ where
  view-drop_expired :
      (now : ℕ) (k : Str) (s : ListStorage L)
      → view_of now (drop_expired engine_id now k s) ≡ view_of now s
  view-drop_expired now k s = fun_ext (λ j. contents-drop_expired engine_id now k j s)

  dropped_live :
      (now : ℕ) (k : Str) (s : ListStorage L)
      → lookup k (drop_expired engine_id now k s).entries ≡ live now (lookup k s.entries)
  dropped_live now k s = ground (arith, lookup-drop_expired engine_id now k k s, str_eq_refl k)

  dropped_fresh :
      (now : ℕ) (k : Str) (s : ListStorage L) {v : Value (List Str)}
      → lookup k (drop_expired engine_id now k s).entries ≡ some v
      → is_expired now v.expires_at ≡ false
  dropped_fresh now k s e = live_fresh now (lookup k s.entries) (sym (dropped_live now k s) ∙ e)

  view_dropped :
      (now : ℕ) (k : Str) (s : ListStorage L)
      → view_of now s k ≡ elements (lookup k (drop_expired engine_id now k s).entries)
  unfolding contents
  view_dropped now k s = ap elements (sym (dropped_live now k s))

  view_empty :
      (now : ℕ) (k : Str) (s : ListStorage L)
      → is_empty_list (lookup k (drop_expired engine_id now k s).entries) ≡ true
      → view_of now s k ≡ []
  view_empty now k s h = view_dropped now k s ∙ empty_elements _ h

  -- A pop takes the element off the end of the view, and leaves it where the list has none.
  pub pop_no_lock-view :
      (now : ℕ) (k j : Str) (left : Bool) (s : ListStorage L)
      → Returns
          (λ r. contents now j r.1 ≡ popped_view left k (view_of now s) j)
          (pop_no_lock now k left s)
  unfolding pop_no_lock
  pop_no_lock-view now k j left s =
      let s' = drop_expired engine_id now k s in
      let Q : Result Str × ListStorage L → Type 0 =
        λ r. contents now j r.1 ≡ popped_view left k (view_of now s) j in
      if_intro_eq (Returns Q) (is_empty_list (lookup k s'.entries))
        (λ empty.
          contents-drop_expired engine_id now k j s
          ∙ sym (popped_none left k j (view_of now s) (view_empty now k s empty)))
        (λ full.
          let (v, found, some_element) = full_list (lookup k s'.entries) full in
          bind-Returns Q (pop_no_lock_and_no_wal k left s') _
            (subst
              (λ view.
                Returns (λ r. contents now j r.1 ≡ popped_view left k view j)
                  (pop_no_lock_and_no_wal k left s'))
              (view-drop_expired now k s)
              (pop_no_lock_and_no_wal-contents now k j left s' v found (dropped_fresh now k s found)
                some_element))
            (λ r e. contents-log now j _ _ r.1 ∙ e))

  view_missing :
      (now : ℕ) (k : Str) (s : ListStorage L)
      → lookup k (drop_expired engine_id now k s).entries ≡ none
      → view_of now s k ≡ []
  unfolding elements
  view_missing now k s h = view_dropped now k s ∙ ap elements h

  view_found :
      (now : ℕ) (k : Str) (s : ListStorage L) {v : Value (List Str)}
      → lookup k (drop_expired engine_id now k s).entries ≡ some v
      → view_of now s k ≡ v.value
  unfolding elements
  view_found now k s h = view_dropped now k s ∙ ap elements h

  -- A list that is there, with other elements, after the expired ones have gone.
  kept-view :
      (now : ℕ) (k j : Str) (v : Value (List Str)) (xs : List Str) (s : ListStorage L)
      → lookup k (drop_expired engine_id now k s).entries ≡ some v
      → contents now j (store k (record v { value = xs }) none (drop_expired engine_id now k s))
        ≡ update k xs (view_of now s) j
  kept-view now k j v xs s found =
      contents-kept now k j v xs (drop_expired engine_id now k s) (dropped_fresh now k s found)
      ∙ ap (λ view. update k xs view j) (view-drop_expired now k s)

  shrunk-view :
      (now : ℕ) (k j : Str) (v : Value (List Str)) (xs : List Str) (s : ListStorage L)
      → lookup k (drop_expired engine_id now k s).entries ≡ some v
      → contents now j (store_or_delete k v xs (drop_expired engine_id now k s))
        ≡ update k xs (view_of now s) j
  shrunk-view now k j v xs s found =
      contents-store_or_delete now k j v xs (drop_expired engine_id now k s)
        (dropped_fresh now k s found)
      ∙ ap (λ view. update k xs view j) (view-drop_expired now k s)

  pub move-view :
      (now : ℕ) (from to j : Str) (src_left dst_left : Bool) (s : ListStorage L)
      → Returns
          (λ r. contents now j r.1 ≡ moved_view from to src_left dst_left (view_of now s) j)
          (move now from to src_left dst_left s)
  unfolding move move_between
  move-view now from to j src_left dst_left s =
      let s1 = drop_expired engine_id now from s in
      let s2 = drop_expired engine_id now to s1 in
      let Q : Result Str × ListStorage L → Type 0 =
        λ r. contents now j r.1 ≡ moved_view from to src_left dst_left (view_of now s) j in
      if_intro_eq (Returns Q) (is_empty_list (lookup from s1.entries))
        (λ empty.
          contents-drop_expired engine_id now from j s
          ∙ sym (
              moved_none src_left dst_left from to j (view_of now s) (view_empty now from s empty)))
        (λ full.
          let (v, found, some_element) = full_list (lookup from s1.entries) full in
          bind-Returns Q (move_no_lock_and_no_wal now from to src_left dst_left s2) _
            (subst
              (λ view.
                Returns (λ r. contents now j r.1 ≡ moved_view from to src_left dst_left view j)
                  (move_no_lock_and_no_wal now from to src_left dst_left s2))
              (view-drop_expired now to s1 ∙ view-drop_expired now from s)
              (move_no_lock_and_no_wal-contents now from to j src_left dst_left s2 v
                (source_kept now from to s ∙ found) (dropped_fresh now from s found) some_element
                (ap (live now) (dropped_live now to s1)
                  ∙ live_idempotent now (lookup to s1.entries)
                  ∙ sym (dropped_live now to s1))))
            (λ r e. contents-log now j _ _ r.1 ∙ e))

  pub replace_at_index-view :
      (now : ℕ) (k j : Str) (i : ℤ) (value : Str) (s : ListStorage L)
      → Returns
          (λ r. contents now j r.1 ≡ replaced_view k i value (view_of now s) j)
          (replace_at_index now k i value s)
  unfolding replace_at_index replaced_view replace_no_lock_and_no_wal
  replace_at_index-view now k j i value s =
      let s' = drop_expired engine_id now k s in
      let Q : Option Error × ListStorage L → Type 0 =
        λ r. contents now j r.1 ≡ replaced_view k i value (view_of now s) j in
      option_split (Returns Q) (lookup k s'.entries)
        (λ missing.
          contents-drop_expired engine_id now k j s ∙ ground (arith, view_missing now k s missing))
        (λ v found.
          option_split (Returns Q) (resolve_index (length v.value) i)
            (λ out.
              contents-drop_expired engine_id now k j s
              ∙ ground (arith, out, view_found now k s found))
            (λ n inside.
              bind_found Q (replace_no_lock_and_no_wal k (pos n) value s') _
                (replace_found k (pos n) value s' v found)
                (contents-log now j _ _ _
                  ∙ kept-view now k j v (replace_loop 0 (pos n) value v.value) s found
                  ∙ ground (arith, inside, view_found now k s found))))

  pub insert-view :
      (now : ℕ) (k j pivot value : Str) (before : Bool) (s : ListStorage L)
      → Returns
          (λ r. contents now j r.1 ≡ inserted_view k pivot value before (view_of now s) j)
          (insert now k pivot value before s)
  unfolding insert inserted_view insert_no_lock_and_no_wal
  insert-view now k j pivot value before s =
      let s' = drop_expired engine_id now k s in
      let Q : Result ℤ × ListStorage L → Type 0 =
        λ r. contents now j r.1 ≡ inserted_view k pivot value before (view_of now s) j in
      option_split (Returns Q) (lookup k s'.entries)
        (λ missing.
          contents-drop_expired engine_id now k j s
          ∙ unfold insert_loop in ground (arith, view_missing now k s missing))
        (λ v found.
          option_rec (insert_loop pivot value before v.value)
            (λ out.
              bind_found Q (insert_no_lock_and_no_wal k pivot value before s') _
                (insert_missed k pivot value before s' v found out)
                (contents-drop_expired engine_id now k j s
                  ∙ ground (arith, out, view_found now k s found)))
            (λ xs inside.
              bind_found Q (insert_no_lock_and_no_wal k pivot value before s') _
                (insert_found k pivot value before s' v xs found inside)
                (contents-log now j _ _ _
                  ∙ kept-view now k j v xs s found
                  ∙ ground (arith, inside, view_found now k s found))))

  pub remove-view :
      (now : ℕ) (k j : Str) (count : ℤ) (element : Str) (s : ListStorage L)
      → Returns
          (λ r. contents now j r.1 ≡ removed_view k count element (view_of now s) j)
          (remove now k count element s)
  unfolding remove removed_view
  remove-view now k j count element s =
      let s' = drop_expired engine_id now k s in
      let Q : Result ℕ × ListStorage L → Type 0 =
        λ r. contents now j r.1 ≡ removed_view k count element (view_of now s) j in
      option_split (Returns Q) (lookup k s'.entries)
        (λ missing.
          contents-drop_expired engine_id now k j s
          ∙ ground (
            arith,
            view_missing now k s missing,
            remove_elements_nil count element,
            str_eq_iff k j,
          ))
        (λ v found.
          let xs = (remove_elements count element v.value).1 in
          let shrunk : contents now j (store_or_delete k v xs s')
              ≡ removed_view k count element (view_of now s) j =
            shrunk-view now k j v xs s found ∙ ground (arith, view_found now k s found) in
          bind_found Q (remove_no_lock_and_no_wal k count element s') _
            (remove_found k count element s' v found)
            (ℕ_intro (Returns Q) (remove_elements count element v.value).0 shrunk
              (λ n. contents-log now j _ _ (store_or_delete k v xs s') ∙ shrunk)))
