-- ===== src/ListStorage/Edits.antt =====
-- The list engine (pkg/list_storage/list_storage.go) implements a map from keys to lists: sequences
-- of the methods that edit lists, at one time, and the same edits of the view.
use gomembase.Prelude.{
  ℕ, ◌≡◌, refl, ◌∙◌, fun_ext, Bool, true, false, List, [], ◌∷◌, Option, none, some, Str, All,
}
use mathlib.Core.Path.{subst}
use gomembase.Prelude.Int.{ℤ}
use gomembase.Logger.{WalLogger}
use gomembase.Stdlib.{GoText}
use gomembase.Collection.{is_expired}
use gomembase.ListStorage.{ListStorage, ◌>>=◌, push_no_lock_and_no_wal}
use gomembase.ListStorage.Elements.{push_values}
use gomembase.ListStorage.Ops.{
  push_action, push_args, push_no_lock, left_push, right_push, left_pop, right_pop, move,
  replace_at_index, insert, remove,
}
use gomembase.Collection.Panic.{Returns}
use gomembase.ListStorage.Invariant.{bind-Returns}
use gomembase.Collection.Contents.{View, view_of, contents, update}
use gomembase.ListStorage.Refinement.{
  popped_view, moved_view, replaced_view, inserted_view, removed_view,
}
use gomembase.ListStorage.Contents.{contents-log, push_no_lock_and_no_wal-contents}
use gomembase.ListStorage.Views.{
  pop_no_lock-view, move-view, replace_at_index-view, insert-view, remove-view,
}

pub data Edit : Type 0 where
  edit_left_push edit_right_push : (key : Str) (values : List Str) (expires_at : Option ℕ) → Edit
  edit_left_pop edit_right_pop : (key : Str) → Edit
  edit_move : (key_from key_to : Str) (src_left dst_left : Bool) → Edit
  edit_replace : (key : Str) (index : ℤ) (value : Str) → Edit
  edit_insert : (key pivot value : Str) (before : Bool) → Edit
  edit_remove : (key : Str) (count : ℤ) (element : Str) → Edit

-- An edit that does not bring an expiration which has passed.
abbrev pub Lasts : ℕ → Edit → Type 0
Lasts now (edit_left_push key values e) = is_expired now e ≡ false
Lasts now (edit_right_push key values e) = is_expired now e ≡ false
Lasts now edit = Unit

abbrev pub state_of : {L R : Type 0} → Option (R × ListStorage L) → Option (ListStorage L)
state_of none = none
state_of (some r) = some r.1

-- The edit of the view.
unfoldable pub edit_view : Edit → View → View
unfolding update push_values
edit_view (edit_left_push key values e) view = update key (push_values true values (view key)) view
edit_view (edit_right_push key values e) view =
    update key (push_values false values (view key)) view
edit_view (edit_left_pop key) view = popped_view true key view
edit_view (edit_right_pop key) view = popped_view false key view
edit_view (edit_move from to src_left dst_left) view = moved_view from to src_left dst_left view
edit_view (edit_replace key i value) view = replaced_view key i value view
edit_view (edit_insert key pivot value before) view = inserted_view key pivot value before view
edit_view (edit_remove key count element) view = removed_view key count element view

unfoldable pub edit_view_all : List Edit → View → View
unfolding edit_view
edit_view_all [] view = view
edit_view_all (edit ∷ edits) view = edit_view_all edits (edit_view edit view)

module _ {L : Type 0} ⦃w : WalLogger L⦄ ⦃g : GoText⦄ where
  -- The method that makes the edit.
  unfoldable pub run_edit : ℕ → Edit → ListStorage L → Option (ListStorage L)
  run_edit now (edit_left_push key values e) s = some (left_push now key values e s).1
  run_edit now (edit_right_push key values e) s = some (right_push now key values e s).1
  run_edit now (edit_left_pop key) s = state_of (left_pop now key s)
  run_edit now (edit_right_pop key) s = state_of (right_pop now key s)
  run_edit now (edit_move from to src_left dst_left) s =
      state_of (move now from to src_left dst_left s)
  run_edit now (edit_replace key i value) s = state_of (replace_at_index now key i value s)
  run_edit now (edit_insert key pivot value before) s =
      state_of (insert now key pivot value before s)
  run_edit now (edit_remove key count element) s = state_of (remove now key count element s)

  unfoldable pub run_edits : ℕ → List Edit → ListStorage L → Option (ListStorage L)
  unfolding run_edit
  run_edits now [] s = some s
  run_edits now (edit ∷ edits) s = run_edit now edit s >>= run_edits now edits

  state_of-view :
      {R : Type 0} (now : ℕ) (view : View) (o : Option (R × ListStorage L))
      → ((j : Str) → Returns (λ r. contents now j r.1 ≡ view j) o)
      → Returns (λ s. view_of now s ≡ view) (state_of o)
  state_of-view now view none h = h []
  state_of-view now view (some r) h = fun_ext h

  push_no_lock-view :
      (now : ℕ) (k : Str) (values : List Str) (e : Option ℕ) (left : Bool) (s : ListStorage L)
      → is_expired now e ≡ false
      → view_of now (push_no_lock now k values e left s).1
        ≡ update k (push_values left values (contents now k s)) (view_of now s)
  unfolding push_no_lock
  push_no_lock-view now k values e left s h = fun_ext (λ j.
      contents-log now j (push_action left) (push_args k values e)
        (push_no_lock_and_no_wal now k values e left s)
      ∙ push_no_lock_and_no_wal-contents now k j values e left s h)

  pub run_edit-view :
      (now : ℕ) (edit : Edit) (s : ListStorage L)
      → Lasts now edit
      → Returns (λ s'. view_of now s' ≡ edit_view edit (view_of now s)) (run_edit now edit s)
  unfolding run_edit edit_view left_push right_push left_pop right_pop
  run_edit-view now (edit_left_push key values e) s h = push_no_lock-view now key values e true s h
  run_edit-view now (edit_right_push key values e) s h =
      push_no_lock-view now key values e false s h
  run_edit-view now (edit_left_pop key) s h =
      state_of-view now _ _ (λ j. pop_no_lock-view now key j true s)
  run_edit-view now (edit_right_pop key) s h =
      state_of-view now _ _ (λ j. pop_no_lock-view now key j false s)
  run_edit-view now (edit_move from to src_left dst_left) s h =
      state_of-view now _ _ (λ j. move-view now from to j src_left dst_left s)
  run_edit-view now (edit_replace key i value) s h =
      state_of-view now _ _ (λ j. replace_at_index-view now key j i value s)
  run_edit-view now (edit_insert key pivot value before) s h =
      state_of-view now _ _ (λ j. insert-view now key j pivot value before s)
  run_edit-view now (edit_remove key count element) s h =
      state_of-view now _ _ (λ j. remove-view now key j count element s)

  -- After any sequence of pushes, pops, moves, replacements, insertions and removals at one time, with
  -- no push that brings an expiration already past, no call has panicked, and the lists that are there
  -- and have not expired are those that the same edits make of the map from keys to lists that the
  -- engine showed before, whatever the logger answers; a missing list and an empty one are the same.
  pub run_edits-view :
      (now : ℕ) (edits : List Edit) (s : ListStorage L)
      → All (Lasts now) edits
      → Returns (λ s'. view_of now s' ≡ edit_view_all edits (view_of now s)) (run_edits now edits s)
  unfolding run_edits edit_view_all
  run_edits-view now [] s h = refl
  run_edits-view now (edit ∷ edits) s h =
      bind-Returns _ (run_edit now edit s) (run_edits now edits) (run_edit-view now edit s h.0)
        (λ s1 step.
          subst
            (λ view.
              Returns (λ s'. view_of now s' ≡ edit_view_all edits view) (run_edits now edits s1))
            step (run_edits-view now edits s1 h.1))
