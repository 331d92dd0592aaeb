-- ===== src/ListStorage/Replayed.antt =====
-- The lines that the methods of pkg/list_storage/list_storage.go log, replayed on the state before the
-- call, and what the call itself did.
use gomembase.Prelude.{
  ℕ, Bool, true, false, ◌<◌, ◌≡◌, ◌≢◌, sym, ap, ◌∙◌, fun_ext, List, [], Option, none, some, Str,
  length, arith,
}
use mathlib.Core.Path.{subst}
use gomembase.Prelude.Int.{ℤ, pos, negsuc}
use gomembase.Prelude.Dict.{lookup}
use gomembase.Logger.{WalLogger}
use gomembase.Stdlib.{GoText, GoTextLaws}
use gomembase.Collection.{Value, is_expired}
use gomembase.Collection.Panic.{Returns}
use gomembase.Collection.Live.{live}
use gomembase.Collection.Contents.{contents, view_of, update, live-view}
use gomembase.ListStorage.{
  ListStorage, insert_no_lock_and_no_wal, replace_no_lock_and_no_wal, remove_no_lock_and_no_wal,
  pop_no_lock_and_no_wal, move_no_lock_and_no_wal,
}
use gomembase.ListStorage.Elements.{insert_loop, replace_loop, resolve_index, remove_elements}
use gomembase.ListStorage.Wal.{process_wal_entry}
use gomembase.ListStorage.Edits.{
  Edit, edit_left_push, edit_right_push, edit_left_pop, edit_right_pop, edit_move, edit_replace,
  edit_insert, edit_remove, state_of, Lasts, edit_view, run_edit, run_edit-view,
}
use gomembase.ListStorage.Refinement.{
  contents-store_or_delete, replaced_view, inserted_view, removed_view,
}
use gomembase.ListStorage.Contents.{
  option_rec, push_no_lock_and_no_wal-contents, pop_no_lock_and_no_wal-contents,
  move_no_lock_and_no_wal-contents, contents-kept, replace_found, insert_missed, insert_found,
  remove_found,
}
use gomembase.ListStorage.Replay.{
  whole_seconds, applied, line_of, Parses, process_wal_entry-line_of,
}

-- A list with an element that has not expired.
abbrev pub IsThere : {L : Type 0} → ℕ → Str → Value (List Str) → ListStorage L → Type 0
IsThere now k v s =
    (lookup k s.entries ≡ some v) × (is_expired now v.expires_at ≡ false) × (v.value ≢ [])

-- The call finds the list that it edits, and a push brings an expiration that has not passed, also
-- when it is cut to whole seconds.
abbrev pub Acts : {L : Type 0} → ℕ → Edit → ListStorage L → Type 0
Acts now (edit_left_push key values e) s =
    (is_expired now e ≡ false) × (is_expired now (whole_seconds e) ≡ false)
Acts now (edit_right_push key values e) s =
    (is_expired now e ≡ false) × (is_expired now (whole_seconds e) ≡ false)
Acts now (edit_left_pop key) s = (v : Value (List Str)) × IsThere now key v s
Acts now (edit_right_pop key) s = (v : Value (List Str)) × IsThere now key v s
Acts now (edit_move from to src_left dst_left) s =
    (v : Value (List Str)) × IsThere now from v s
    × (live now (lookup to s.entries) ≡ lookup to s.entries)
Acts now (edit_replace key (pos n) value) s =
    (v : Value (List Str)) × IsThere now key v s × (n < length v.value)
Acts now (edit_replace key (negsuc n) value) s = ⊥
Acts now (edit_insert key pivot value before) s = (v : Value (List Str)) × IsThere now key v s
Acts now (edit_remove key count element) s = (v : Value (List Str)) × IsThere now key v s

state_of-contents :
    {L R : Type 0} (now : ℕ) (j : Str) (xs : List Str) (o : Option (R × ListStorage L))
    → Returns (λ r. contents now j r.1 ≡ xs) o
    → Returns (λ s. contents now j s ≡ xs) (state_of o)
state_of-contents now j xs none h = h
state_of-contents now j xs (some r) h = h

pub index_inside : (m n : ℕ) → n < m → resolve_index m (pos n) ≡ some n
unfolding resolve_index
index_inside m n h = ground arith

module _ {L : Type 0} where
  replace-view :
      (now : ℕ) (k j value : Str) (n : ℕ) (s : ListStorage L) (v : Value (List Str))
      → IsThere now k v s
      → n < length v.value
      → Returns
          (λ s'. contents now j s' ≡ replaced_view k (pos n) value (view_of now s) j)
          (replace_no_lock_and_no_wal k (pos n) value s)
  unfolding replaced_view
  replace-view now k j value n s v there h =
      subst (Returns _) (sym (replace_found k (pos n) value s v there.0)) (
        contents-kept now k j v (replace_loop 0 (pos n) value v.value) s there.1
        ∙ ground (arith, live-view now k s v there.0 there.1, index_inside (length v.value) n h))

  insert-view :
      (now : ℕ) (k j pivot value : Str) (before : Bool) (s : ListStorage L) (v : Value (List Str))
      → IsThere now k v s
      → Returns
          (λ r. contents now j r.1 ≡ inserted_view k pivot value before (view_of now s) j)
          (insert_no_lock_and_no_wal k pivot value before s)
  unfolding inserted_view
  insert-view now k j pivot value before s v there =
      let seen = live-view now k s v there.0 there.1 in
      option_rec (insert_loop pivot value before v.value)
        (λ out.
          subst (Returns _) (sym (insert_missed k pivot value before s v there.0 out))
            (ground (arith, out, seen)))
        (λ xs inside.
          subst (Returns _) (sym (insert_found k pivot value before s v xs there.0 inside))
            (contents-kept now k j v xs s there.1 ∙ ground (arith, inside, seen)))

  remove-view :
      (now : ℕ) (k j : Str) (count : ℤ) (element : Str) (s : ListStorage L) (v : Value (List Str))
      → IsThere now k v s
      → Returns
          (λ r. contents now j r.1 ≡ removed_view k count element (view_of now s) j)
          (remove_no_lock_and_no_wal k count element s)
  unfolding removed_view
  remove-view now k j count element s v there =
      subst (Returns _) (sym (remove_found k count element s v there.0)) (
        contents-store_or_delete now k j v (remove_elements count element v.value).1 s there.1
        ∙ ap (λ xs. update k (remove_elements count element xs).1 (view_of now s) j)
            (sym (live-view now k s v there.0 there.1)))

  applied-contents :
      (now : ℕ) (edit : Edit) (s : ListStorage L) (j : Str)
      → Acts now edit s
      → Returns (λ s'. contents now j s' ≡ edit_view edit (view_of now s) j) (applied now edit s)
  unfolding applied edit_view
  applied-contents now (edit_left_push key values e) s j h =
      push_no_lock_and_no_wal-contents now key j values (whole_seconds e) true s h.1
  applied-contents now (edit_right_push key values e) s j h =
      push_no_lock_and_no_wal-contents now key j values (whole_seconds e) false s h.1
  applied-contents now (edit_left_pop key) s j (v, there) =
      state_of-contents now j _ (pop_no_lock_and_no_wal key true s)
        (pop_no_lock_and_no_wal-contents now key j true s v there.0 there.1 there.2)
  applied-contents now (edit_right_pop key) s j (v, there) =
      state_of-contents now j _ (pop_no_lock_and_no_wal key false s)
        (pop_no_lock_and_no_wal-contents now key j false s v there.0 there.1 there.2)
  applied-contents now (edit_move from to src_left dst_left) s j (v, there, kept) =
      state_of-contents now j _ (move_no_lock_and_no_wal now from to src_left dst_left s) (
        move_no_lock_and_no_wal-contents now from to j src_left dst_left s v there.0 there.1 there.2
          kept)
  applied-contents now (edit_replace key (pos n) value) s j (v, there, inside) =
      replace-view now key j value n s v there inside
  applied-contents now (edit_replace key (negsuc n) value) s j h = absurd h
  applied-contents now (edit_insert key pivot value before) s j (v, there) =
      state_of-contents now j _ (insert_no_lock_and_no_wal key pivot value before s)
        (insert-view now key j pivot value before s v there)
  applied-contents now (edit_remove key count element) s j (v, there) =
      state_of-contents now j _ (remove_no_lock_and_no_wal key count element s)
        (remove-view now key j count element s v there)

all_keys :
    {L : Type 0} (view : Str → List Str) (now : ℕ) (o : Option (ListStorage L))
    → ((j : Str) → Returns (λ s. contents now j s ≡ view j) o)
    → Returns (λ s. view_of now s ≡ view) o
all_keys view now none h = h []
all_keys view now (some s) h = fun_ext h

pub Acts-Lasts :
    {L : Type 0} (now : ℕ) (edit : Edit) (s : ListStorage L) → Acts now edit s → Lasts now edit
Acts-Lasts now (edit_left_push key values e) s h = h.0
Acts-Lasts now (edit_right_push key values e) s h = h.0
Acts-Lasts now (edit_left_pop key) s h = tt
Acts-Lasts now (edit_right_pop key) s h = tt
Acts-Lasts now (edit_move from to src_left dst_left) s h = tt
Acts-Lasts now (edit_replace key i value) s h = tt
Acts-Lasts now (edit_insert key pivot value before) s h = tt
Acts-Lasts now (edit_remove key count element) s h = tt

-- Two runs that do not panic and show the same lists.
abbrev pub Agree : {L : Type 0} → ℕ → Option (ListStorage L) → Option (ListStorage L) → Type 0
Agree now o o' = Returns (λ s. Returns (λ s'. view_of now s ≡ view_of now s') o') o

both-Agree :
    {L : Type 0} (now : ℕ) (view : Str → List Str) (o o' : Option (ListStorage L))
    → Returns (λ s. view_of now s ≡ view) o
    → Returns (λ s. view_of now s ≡ view) o'
    → Agree now o o'
both-Agree now view none o' h h' = h
both-Agree now view (some s) none h h' = h'
both-Agree now view (some s) (some s') h h' = h ∙ sym h'

module _ {L : Type 0} ⦃w : WalLogger L⦄ ⦃g : GoText⦄ (laws : GoTextLaws g) where
  pub replay-Agree :
      (now : ℕ) (edit : Edit) (s : ListStorage L)
      → Parses edit
      → Acts now edit s
      → Agree now (process_wal_entry now (line_of edit).0 (line_of edit).1 s) (run_edit now edit s)
  replay-Agree now edit s parses acts =
      subst (λ o. Agree now o (run_edit now edit s))
        (sym (process_wal_entry-line_of laws now edit s parses))
        (both-Agree now (edit_view edit (view_of now s)) (applied now edit s) (run_edit now edit s)
          (all_keys _ now _ (λ j. applied-contents now edit s j acts))
          (run_edit-view now edit s (Acts-Lasts now edit s acts)))
