-- ===== src/ListStorage/Panics.antt =====
-- The calls of the list engine (pkg/list_storage/list_storage.go) never run into a nil list.
use gomembase.Prelude.{
  ℕ, zero, suc, ◌+◌, ◌⊎◌, inl, inr, ◌≡◌, ◌≢◌, sym, str_eq_iff, str_eq_refl, Bool, false, List, [],
  ◌∷◌, none, some, Str, bytes, length, if_intro_eq, option_intro, option_intro_eq, arith,
}
use gomembase.Prelude.Int.{ℤ, pos}
use gomembase.Prelude.Dict.{lookup}
use gomembase.Logger.{WalLogger}
use gomembase.Stdlib.{GoText}
use mathlib.Core.Path.{subst}
use gomembase.Collection.{Value, drop_expired}
use gomembase.Collection.Live.{live_idempotent, lookup-drop_expired}
use gomembase.Collection.Invariant.{IsValid, Leaves, log-IsValid, drop_expired-IsValid}
use gomembase.ListStorage.{
  ListStorage, engine_id, pop_no_lock_and_no_wal, move_no_lock_and_no_wal,
  replace_no_lock_and_no_wal, insert_no_lock_and_no_wal, remove_no_lock_and_no_wal,
}
use gomembase.ListStorage.Elements.{resolve_index, take_end, insert_loop}
use gomembase.ListStorage.Ops.{
  pop_action, move_args, replace_args, insert_args, remove_args, pop_no_lock, move_between,
  replace_at_index, insert, remove, is_empty_list,
}
use gomembase.Collection.Panic.{defined, Returns, panic_free}
use gomembase.ListStorage.Invariant.{
  bind_some, bind-Returns, take_end_some, pop_no_lock_and_no_wal-IsValid,
  move_no_lock_and_no_wal-IsValid, replace_no_lock_and_no_wal-IsValid,
  insert_no_lock_and_no_wal-IsValid, remove_no_lock_and_no_wal-IsValid,
}

pub ℕ_intro :
    {B : Type 0} (P : B → Type 0) (n : ℕ) {x : B} {f : ℕ → B}
    → P x
    → ((m : ℕ) → P (f m))
    → P (elim n [ zero ↦ x | suc m ↦ f m ])
ℕ_intro P zero h k = h
ℕ_intro P (suc n) h k = k n

module _ {L : Type 0} ⦃w : WalLogger L⦄ ⦃g : GoText⦄ where
  -- A stored list with an element can be popped.
  pop_some :
      (k : Str) (left : Bool) (s : ListStorage L)
      → is_empty_list (lookup k s.entries) ≡ false
      → pop_no_lock_and_no_wal k left s ≢ none
  unfolding pop_no_lock_and_no_wal
  pop_some k left s h =
      bind_some (lookup k s.entries) _ (λ e. absurd (ground (arith, e, h)))
        (λ v found.
          bind_some (take_end left v.value) _
            (take_end_some left v.value (λ e. absurd (ground (arith, e, found, h))))
            (λ t _. defined _))

  move_some :
      (now : ℕ) (from to : Str) (src_left dst_left : Bool) (s : ListStorage L)
      → is_empty_list (lookup from s.entries) ≡ false
      → move_no_lock_and_no_wal now from to src_left dst_left s ≢ none
  unfolding move_no_lock_and_no_wal
  move_some now from to src_left dst_left s h =
      bind_some (pop_no_lock_and_no_wal from src_left s) _ (pop_some from src_left s h)
        (λ popped _. defined _)

  replace_some :
      (k : Str) (i : ℤ) (value : Str) (s : ListStorage L) {v : Value (List Str)}
      → lookup k s.entries ≡ some v
      → replace_no_lock_and_no_wal k i value s ≢ none
  unfolding replace_no_lock_and_no_wal
  replace_some k i value s found =
      bind_some (lookup k s.entries) _ (λ e. absurd (ground (arith, e, found))) (λ v _. defined _)

  insert_some :
      (k pivot value : Str) (before : Bool) (s : ListStorage L) {v : Value (List Str)}
      → lookup k s.entries ≡ some v
      → insert_no_lock_and_no_wal k pivot value before s ≢ none
  unfolding insert_no_lock_and_no_wal
  insert_some k pivot value before s found =
      bind_some (lookup k s.entries) _ (λ e. absurd (ground (arith, e, found)))
        (λ v _.
          option_intro (λ o. o ≢ none) (insert_loop pivot value before v.value) (defined _)
            (λ xs. defined _))

  remove_some :
      (k : Str) (count : ℤ) (element : Str) (s : ListStorage L) {v : Value (List Str)}
      → lookup k s.entries ≡ some v
      → remove_no_lock_and_no_wal k count element s ≢ none
  unfolding remove_no_lock_and_no_wal
  remove_some k count element s found =
      bind_some (lookup k s.entries) _ (λ e. absurd (ground (arith, e, found))) (λ v _. defined _)

  pub pop_no_lock-Returns :
      (now : ℕ) (k : Str) (left : Bool) (s : ListStorage L)
      → IsValid s
      → Returns Leaves (pop_no_lock now k left s)
  unfolding pop_no_lock
  pop_no_lock-Returns now k left s h =
      let s' = drop_expired engine_id now k s in
      let h' = drop_expired-IsValid engine_id now k s h in
      if_intro_eq (Returns Leaves) (is_empty_list (lookup k s'.entries)) (λ _. h')
        (λ full.
          bind-Returns Leaves (pop_no_lock_and_no_wal k left s') _
            (panic_free Leaves _ (pop_some k left s' full)
              (pop_no_lock_and_no_wal-IsValid k left s' h'))
            (λ r. log-IsValid engine_id (pop_action left) (g.path_escape k ∷ []) r.1))

  -- A list that has an element keeps it when the expiration of the destination is looked at.
  pub source_kept :
      (now : ℕ) (from to : Str) (s : ListStorage L)
      → let s1 = drop_expired engine_id now from s in
        lookup from (drop_expired engine_id now to s1).entries ≡ lookup from s1.entries
  source_kept now from to s =
      let s1 = drop_expired engine_id now from s in
      ground (
        arith,
        lookup-drop_expired engine_id now to from s1,
        lookup-drop_expired engine_id now from from s,
        live_idempotent now (lookup from s.entries),
        str_eq_iff to from,
        str_eq_refl from,
      )

  -- Nor does it lose it where the destination is another key.
  other_kept :
      (now later : ℕ) (from to : Str) (s : ListStorage L)
      → from ≢ to
      → let s1 = drop_expired engine_id now from s in
        lookup from (drop_expired engine_id later to s1).entries ≡ lookup from s1.entries
  other_kept now later from to s other =
      let s1 = drop_expired engine_id now from s in
      ground (arith, lookup-drop_expired engine_id later to from s1, str_eq_iff to from, other)

  move_kept-Returns :
      (now later : ℕ) (from to : Str) (src_left dst_left : Bool) (s : ListStorage L)
      → (let s1 = drop_expired engine_id now from s in
          lookup from (drop_expired engine_id later to s1).entries ≡ lookup from s1.entries)
      → IsValid s
      → Returns Leaves (move_between now later from to src_left dst_left s)
  unfolding move_between
  move_kept-Returns now later from to src_left dst_left s kept h =
      let s1 = drop_expired engine_id now from s in
      let h1 = drop_expired-IsValid engine_id now from s h in
      let s2 = drop_expired engine_id later to s1 in
      let h2 = drop_expired-IsValid engine_id later to s1 h1 in
      if_intro_eq (Returns Leaves) (is_empty_list (lookup from s1.entries)) (λ _. h1)
        (λ full.
          bind-Returns Leaves (move_no_lock_and_no_wal later from to src_left dst_left s2) _
            (panic_free Leaves _
              (move_some later from to src_left dst_left s2
                (subst (λ o. is_empty_list o ≡ false) (sym kept) full))
              (move_no_lock_and_no_wal-IsValid later from to src_left dst_left s2 h2))
            (λ r. log-IsValid engine_id (bytes "MOVE") (move_args from to src_left dst_left) r.1))

  pub move_between-Returns :
      (now elapsed : ℕ) (from to : Str) (src_left dst_left : Bool) (s : ListStorage L)
      → (from ≢ to) ⊎ (elapsed ≡ 0)
      → IsValid s
      → Returns Leaves (move_between now (now + elapsed) from to src_left dst_left s)
  move_between-Returns now elapsed from to src_left dst_left s (inl other) h =
      move_kept-Returns now (now + elapsed) from to src_left dst_left s
        (other_kept now (now + elapsed) from to s other) h
  move_between-Returns now elapsed from to src_left dst_left s (inr same) h =
      let later : now ≡ now + elapsed = omega (arith, same) in
      subst (λ t. Returns Leaves (move_between now t from to src_left dst_left s)) later
        (move_kept-Returns now now from to src_left dst_left s (source_kept now from to s) h)

  pub replace_at_index-Returns :
      (now : ℕ) (k : Str) (i : ℤ) (value : Str) (s : ListStorage L)
      → IsValid s
      → Returns Leaves (replace_at_index now k i value s)
  unfolding replace_at_index
  replace_at_index-Returns now k i value s h =
      let s' = drop_expired engine_id now k s in
      let h' = drop_expired-IsValid engine_id now k s h in
      option_intro_eq (Returns Leaves) (lookup k s'.entries) h' (λ v found.
        option_intro (Returns Leaves) (resolve_index (length v.value) i) h' (λ n.
          bind-Returns Leaves (replace_no_lock_and_no_wal k (pos n) value s') _
            (panic_free IsValid _ (replace_some k (pos n) value s' found)
              (replace_no_lock_and_no_wal-IsValid k (pos n) value s' h'))
            (log-IsValid engine_id (bytes "REPLACE") (replace_args k i value))))

  pub insert-Returns :
      (now : ℕ) (k pivot value : Str) (before : Bool) (s : ListStorage L)
      → IsValid s
      → Returns Leaves (insert now k pivot value before s)
  unfolding insert
  insert-Returns now k pivot value before s h =
      let s' = drop_expired engine_id now k s in
      let h' = drop_expired-IsValid engine_id now k s h in
      option_intro_eq (Returns Leaves) (lookup k s'.entries) h' (λ v found.
        bind-Returns Leaves (insert_no_lock_and_no_wal k pivot value before s') _
          (panic_free Leaves _ (insert_some k pivot value before s' found)
            (insert_no_lock_and_no_wal-IsValid k pivot value before s' h'))
          (λ r hr. option_intro (Returns Leaves) r.0 hr (λ n.
            log-IsValid engine_id (bytes "INSERT") (insert_args k pivot value before) r.1 hr)))

  pub remove-Returns :
      (now : ℕ) (k : Str) (count : ℤ) (element : Str) (s : ListStorage L)
      → IsValid s
      → Returns Leaves (remove now k count element s)
  unfolding remove
  remove-Returns now k count element s h =
      let s' = drop_expired engine_id now k s in
      let h' = drop_expired-IsValid engine_id now k s h in
      option_intro_eq (Returns Leaves) (lookup k s'.entries) h' (λ v found.
        bind-Returns Leaves (remove_no_lock_and_no_wal k count element s') _
          (panic_free Leaves _ (remove_some k count element s' found)
            (remove_no_lock_and_no_wal-IsValid k count element s' h'))
          (λ r hr.
            ℕ_intro (Returns Leaves) r.0 hr
              (λ n. log-IsValid engine_id (bytes "REMOVE") (remove_args k count element) r.1 hr)))
