-- ===== src/ListStorage/Logged.antt =====
-- The lines that the methods of pkg/list_storage/list_storage.go pass to the logger.
pub mod Lines
use gomembase.Prelude.{
  ℕ, zero, suc, ◌<◌, bytes, ◌≡◌, ◌≢◌, refl, sym, ap, ◌∙◌, fun_ext, str_eq_iff, inl, inr, ◌⊎◌, Bool,
  true, false, List, [], ◌∷◌, Option, none, some, Str, length, Option-cases, arith,
}
use mathlib.Core.Path.{subst}
use gomembase.Prelude.Int.{ℤ, pos, negsuc}
use gomembase.Prelude.Dict.{lookup}
use gomembase.Logger.{WalLogger, WalEntry}
use gomembase.Stdlib.{GoText, GoTextLaws}
use gomembase.Collection.{Value, log, store, drop_expired, delete_no_lock}
use gomembase.Errors.{Error, Result, ok}
use gomembase.Collection.Panic.{Returns, IfReturns, IfReturns_elim}
use gomembase.Collection.Contents.{view_of, update, live-view}
use gomembase.ListStorage.{
  ListStorage, engine_id, ◌>>=◌, store_or_delete, delete_if_expired, push_no_lock_and_no_wal,
  pop_no_lock_and_no_wal, move_no_lock_and_no_wal, replace_no_lock_and_no_wal,
  insert_no_lock_and_no_wal, remove_no_lock_and_no_wal,
}
use gomembase.ListStorage.Elements.{
  take_end, resolve_index, remove_elements, remove_loop, insert_loop,
}
use gomembase.ListStorage.Ops.{
  is_empty_list, pop_action, push_action, push_args, result_of, push_no_lock, left_push, right_push,
  left_pop, right_pop, pop_no_lock, move, move_between, move_args, replace_at_index, replace_args,
  insert, insert_args, remove, remove_args,
}
use gomembase.ListStorage.Invariant.{bind-IfReturns}
use gomembase.ListStorage.Edits.{
  Edit, run_edit, run_edit-view, edit_view, edit_left_push, edit_right_push, edit_left_pop,
  edit_right_pop, edit_move, edit_insert, edit_remove, edit_replace, state_of,
}
use gomembase.ListStorage.Contents.{pop_found, option_rec}
use gomembase.ListStorage.Replay.{line_of, Parses}
use gomembase.ListStorage.Clock.{kept_fresh, not_empty}
use gomembase.ListStorage.Replayed.{Acts, Acts-Lasts, IsThere, Agree, replay-Agree, index_inside}
use gomembase.ListStorage.Removals.{remove_elements_nothing}
use gomembase.ListStorage.Refinement.{contents-store_or_delete}
use gomembase.ListStorage.Wal.{process_wal_entry}
use gomembase.Collection.Live.{live}
use gomembase.ListStorage.Logged.Lines.{
  Logged, logger-store_or_delete, logger-push, logger-pop, logger-move, logger-replace, log_after,
  pop_no_lock_logs, move_logs, replace_logs, insert_misses, insert_logs, remove_logs,
}

by_count :
    {B : Type 0} (P : B → Type 0) (n : ℕ) {x : B} {f : ℕ → B}
    → (n ≡ 0 → P x)
    → ((m : ℕ) → P (f m))
    → P (elim n [ zero ↦ x | suc m ↦ f m ])
by_count P zero h k = h refl
by_count P (suc n) h k = k n

module _ {L : Type 0} ⦃w : WalLogger L⦄ ⦃g : GoText⦄ where
  insert-Logged :
      (now : ℕ) (k pivot value : Str) (before : Bool) (s : ListStorage L) (v : Value (List Str))
      → IsThere now k v s
      → IfReturns
          (Logged now (edit_insert k pivot value before) s)
          (state_of (insert now k pivot value before s))
  unfolding store log
  insert-Logged now k pivot value before s v there =
      let P : Option (Result ℤ × ListStorage L) → Type 0 =
        λ o. IfReturns (Logged now (edit_insert k pivot value before) s) (state_of o) in
      option_rec (insert_loop pivot value before v.value)
        (λ out.
          subst P (sym (insert_misses now k pivot value before s v there out)) (inr (refl, refl)))
        (λ xs inside.
          subst P (sym (insert_logs now k pivot value before s v xs there inside)) (inl refl))

  remove-view_kept :
      (now : ℕ) (k : Str) (count : ℤ) (element : Str) (s : ListStorage L) (v : Value (List Str))
      → IsThere now k v s
      → (remove_elements count element v.value).0 ≡ 0
      → view_of now (store_or_delete k v (remove_elements count element v.value).1 s)
        ≡ view_of now s
  unfolding update
  remove-view_kept now k count element s v there nothing = fun_ext (λ j.
      contents-store_or_delete now k j v (remove_elements count element v.value).1 s there.1
      ∙ ground (
        arith,
        remove_elements_nothing count element v.value nothing,
        live-view now k s v there.0 there.1,
        str_eq_iff k j,
      ))

  removed-Logged :
      (now : ℕ) (k : Str) (count : ℤ) (element : Str) (s : ListStorage L) (v : Value (List Str))
      → IsThere now k v s
      → IfReturns
          (Logged now (edit_remove k count element) s)
          (state_of (remove now k count element s))
  unfolding log
  removed-Logged now k count element s v there =
      let t = store_or_delete k v (remove_elements count element v.value).1 s in
      let same = logger-store_or_delete k v (remove_elements count element v.value).1 s in
      let P : Option (Result ℕ × ListStorage L) → Type 0 =
        λ o. IfReturns (Logged now (edit_remove k count element) s) (state_of o) in
      subst P (sym (remove_logs now k count element s v there)) (
        by_count P (remove_elements count element v.value).0
          (λ nothing. inr (same, remove-view_kept now k count element s v there nothing))
          (λ n. inl (
            ap
              (λ l.
                (w.log l (record {
                  engine_id = engine_id;
                  action = bytes "REMOVE";
                  args = remove_args k count element;
                })).1)
              same)))

  run_edit-IfLogged :
      (now : ℕ) (edit : Edit) (s : ListStorage L)
      → Acts now edit s
      → IfReturns (Logged now edit s) (run_edit now edit s)
  unfolding run_edit left_push right_push push_no_lock log left_pop right_pop
  run_edit-IfLogged now (edit_left_push key values e) s h = inl (
      ap
        (λ l.
          (w.log l (record {
            engine_id = engine_id;
            action = push_action true;
            args = push_args key values e;
          })).1)
        (logger-push now key values (e) true s))
  run_edit-IfLogged now (edit_right_push key values e) s h = inl (
      ap
        (λ l.
          (w.log l (record {
            engine_id = engine_id;
            action = push_action false;
            args = push_args key values e;
          })).1)
        (logger-push now key values e false s))
  run_edit-IfLogged now (edit_left_pop key) s (v, there) =
      subst (λ o. IfReturns (Logged now (edit_left_pop key) s) (state_of o))
        (sym (pop_no_lock_logs now key true s v there))
        (log_after now (edit_left_pop key) s (pop_no_lock_and_no_wal key true s) (λ b. b.1)
          (λ b. result_of b.0) (logger-pop key true s))
  run_edit-IfLogged now (edit_right_pop key) s (v, there) =
      subst (λ o. IfReturns (Logged now (edit_right_pop key) s) (state_of o))
        (sym (pop_no_lock_logs now key false s v there))
        (log_after now (edit_right_pop key) s (pop_no_lock_and_no_wal key false s) (λ b. b.1)
          (λ b. result_of b.0) (logger-pop key false s))
  run_edit-IfLogged now (edit_move from to src_left dst_left) s (v, there, kept) =
      subst (λ o. IfReturns (Logged now (edit_move from to src_left dst_left) s) (state_of o))
        (sym (move_logs now from to src_left dst_left s v there kept))
        (log_after now (edit_move from to src_left dst_left) s
          (move_no_lock_and_no_wal now from to src_left dst_left s) (λ b. b.1) (λ b. result_of b.0)
          (logger-move now from to src_left dst_left s))
  run_edit-IfLogged now (edit_replace key (pos n) value) s (v, there, inside) =
      subst (λ o. IfReturns (Logged now (edit_replace key (pos n) value) s) (state_of o))
        (sym (replace_logs now key value n s v there inside))
        (log_after now (edit_replace key (pos n) value) s
          (replace_no_lock_and_no_wal key (pos n) value s) (λ b. b) (λ b e. e)
          (logger-replace key (pos n) value s))
  run_edit-IfLogged now (edit_replace key (negsuc n) value) s h = absurd h
  run_edit-IfLogged now (edit_insert key pivot value before) s (v, there) =
      insert-Logged now key pivot value before s v there
  run_edit-IfLogged now (edit_remove key count element) s (v, there) =
      removed-Logged now key count element s v there

  both :
      (P Q : ListStorage L → Type 0) (o : Option (ListStorage L))
      → Returns P o
      → IfReturns Q o
      → Returns Q o
  both P Q none h k = h
  both P Q (some s) h k = k

  -- Where a push brings an expiration that has not passed, also when cut to whole seconds, and a
  -- pop, a move, a replacement at an index that is in range and not negative, an insertion or a
  -- removal finds its list with an element and not expired, and the destination of a move has not
  -- expired: the call, and the replay at the same time of the line of this edit on the state before
  -- the call, do not panic and show the same lists, whatever the logger answers; and the call
  -- either has passed exactly this line to the logger, or has logged nothing and changed no list.
  -- The index or count in the line is assumed to be read back.
  pub process_wal_entry-run_edit :
      (laws : GoTextLaws g) (now : ℕ) (edit : Edit) (s : ListStorage L)
      → Parses edit
      → Acts now edit s
      → Agree now (process_wal_entry now (line_of edit).0 (line_of edit).1 s) (run_edit now edit s)
        × Returns (Logged now edit s) (run_edit now edit s)
  process_wal_entry-run_edit laws now edit s parses acts = (
    replay-Agree laws now edit s parses acts,
    both (λ s'. view_of now s' ≡ edit_view edit (view_of now s)) (Logged now edit s)
        (run_edit now edit s) (run_edit-view now edit s (Acts-Lasts now edit s acts))
        (run_edit-IfLogged now edit s acts),
  )
