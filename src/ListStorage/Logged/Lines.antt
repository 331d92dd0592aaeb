-- ===== src/ListStorage/Logged/Lines.antt =====
-- Which line each method of pkg/list_storage/list_storage.go passes to the logger, where it finds its
-- list.
use gomembase.Prelude.{
  ℕ, zero, suc, ◌<◌, bytes, ◌≡◌, refl, ap, inl, ◌⊎◌, Bool, List, [], ◌∷◌, Option, none, some, Str,
  length, arith,
}
use gomembase.Prelude.Int.{ℤ, pos, negsuc}
use gomembase.Prelude.Dict.{lookup}
use gomembase.Logger.{WalLogger, WalEntry}
use gomembase.Stdlib.{GoText}
use gomembase.Collection.{Value, log, store, drop_expired, delete_no_lock}
use gomembase.Errors.{Error, ok}
use gomembase.Collection.Panic.{IfReturns, IfReturns_elim}
use gomembase.Collection.Contents.{view_of}
use gomembase.ListStorage.{
  ListStorage, engine_id, ◌>>=◌, store_or_delete, delete_if_expired, push_no_lock_and_no_wal,
  pop_no_lock_and_no_wal, move_no_lock_and_no_wal, replace_no_lock_and_no_wal,
  insert_no_lock_and_no_wal, remove_no_lock_and_no_wal,
}
use gomembase.ListStorage.Elements.{take_end, remove_elements, insert_loop}
use gomembase.ListStorage.Ops.{
  pop_action, result_of, pop_no_lock, move, move_between, move_args, replace_at_index, replace_args,
  insert, insert_args, remove, remove_args,
}
use gomembase.ListStorage.Invariant.{bind-IfReturns}
use gomembase.ListStorage.Edits.{Edit, state_of}
use gomembase.ListStorage.Replay.{line_of}
use gomembase.ListStorage.Clock.{kept_fresh, not_empty}
use gomembase.ListStorage.Replayed.{IsThere, index_inside}
use gomembase.Collection.Live.{live}

-- The logger has got the line of the edit, or the call did not log and changed no list.
abbrev pub Logged :
    {L : Type 0} ⦃w : WalLogger L⦄ ⦃g : GoText⦄ → ℕ → Edit → ListStorage L → ListStorage L → Type 0
Logged ⦃w = w⦄ now edit s s' =
    let entry : WalEntry = record {
      engine_id = engine_id;
      action = (line_of edit).0;
      args = (line_of edit).1;
    } in
    (s'.wal_logger ≡ (w.log s.wal_logger entry).1)
    ⊎ ((s'.wal_logger ≡ s.wal_logger) × (view_of now s' ≡ view_of now s))

pub logger-store_or_delete :
    {L : Type 0} (k : Str) (v : Value (List Str)) (xs : List Str) (s : ListStorage L)
    → (store_or_delete k v xs s).wal_logger ≡ s.wal_logger
unfolding store_or_delete store delete_no_lock
logger-store_or_delete k v [] s = refl
logger-store_or_delete k v (x ∷ xs) s = refl

pub logger-push :
    {L : Type 0} (now : ℕ) (k : Str) (values : List Str) (e : Option ℕ) (left : Bool)
    (s : ListStorage L)
    → (push_no_lock_and_no_wal now k values e left s).wal_logger ≡ s.wal_logger
unfolding push_no_lock_and_no_wal store delete_if_expired delete_no_lock
logger-push now k values e left s = ground arith

pub logger-pop :
    {L : Type 0} (k : Str) (left : Bool) (s : ListStorage L)
    → IfReturns (λ r. r.1.wal_logger ≡ s.wal_logger) (pop_no_lock_and_no_wal k left s)
unfolding pop_no_lock_and_no_wal
logger-pop k left s =
    bind-IfReturns _ (lookup k s.entries) _
      (λ v _. bind-IfReturns _ (take_end left v.value) _ (λ t _. logger-store_or_delete k v t.1 s))

pub logger-move :
    {L : Type 0} (now : ℕ) (from to : Str) (src_left dst_left : Bool) (s : ListStorage L)
    → IfReturns
        (λ r. r.1.wal_logger ≡ s.wal_logger)
        (move_no_lock_and_no_wal now from to src_left dst_left s)
unfolding move_no_lock_and_no_wal store
logger-move now from to src_left dst_left s =
    bind-IfReturns _ (pop_no_lock_and_no_wal from src_left s) _ (λ p e.
      IfReturns_elim (λ r. r.1.wal_logger ≡ s.wal_logger) (pop_no_lock_and_no_wal from src_left s)
        (logger-pop from src_left s) e)

pub logger-replace :
    {L : Type 0} (k : Str) (i : ℤ) (value : Str) (s : ListStorage L)
    → IfReturns (λ s'. s'.wal_logger ≡ s.wal_logger) (replace_no_lock_and_no_wal k i value s)
unfolding replace_no_lock_and_no_wal store
logger-replace k i value s = bind-IfReturns _ (lookup k s.entries) _ (λ v _. refl)

module _ {L : Type 0} ⦃w : WalLogger L⦄ ⦃g : GoText⦄ where
  -- A call that logs the line of the edit last, on a state with the logger of the first one.
  pub log_after :
      {B R : Type 0} (now : ℕ) (edit : Edit) (s : ListStorage L) (o : Option B)
      (state : B → ListStorage L) (result : B → Option Error → R)
      → IfReturns (λ b. (state b).wal_logger ≡ s.wal_logger) o
      → IfReturns (Logged now edit s) (
          state_of (
            o >>= (λ b.
              (let r = log engine_id (line_of edit).0 (line_of edit).1 (state b) in
                some (result b r.0, r.1)))))
  unfolding log
  log_after now edit s none state result h = tt
  log_after now edit s (some b) state result h = inl (
      ap
        (λ l.
          (w.log l (record {
            engine_id = engine_id;
            action = (line_of edit).0;
            args = (line_of edit).1;
          })).1)
        h)

  pub pop_no_lock_logs :
      (now : ℕ) (k : Str) (left : Bool) (s : ListStorage L) (v : Value (List Str))
      → IsThere now k v s
      → pop_no_lock now k left s ≡ (
          pop_no_lock_and_no_wal k left s >>= (λ b.
            (let r = log engine_id (pop_action left) (g.path_escape k ∷ []) b.1 in
              some (result_of b.0 r.0, r.1))))
  unfolding pop_no_lock
  pop_no_lock_logs now k left s v there =
      ground (arith, kept_fresh now k s v there.0 there.1, there.0, not_empty v there.2)

  same_target :
      (now : ℕ) (to : Str) (s : ListStorage L)
      → live now (lookup to s.entries) ≡ lookup to s.entries
      → drop_expired engine_id now to s ≡ s
  unfolding live drop_expired
  same_target now to s h = ground (arith, h)

  pub move_logs :
      (now : ℕ) (from to : Str) (src_left dst_left : Bool) (s : ListStorage L)
      (v : Value (List Str))
      → IsThere now from v s
      → live now (lookup to s.entries) ≡ lookup to s.entries
      → move now from to src_left dst_left s ≡ (
          move_no_lock_and_no_wal now from to src_left dst_left s >>= (λ b.
            (let r = log engine_id (bytes "MOVE") (move_args from to src_left dst_left) b.1 in
              some (result_of b.0 r.0, r.1))))
  unfolding move move_between
  move_logs now from to src_left dst_left s v there kept = ground (
    arith,
    kept_fresh now from s v there.0 there.1,
    same_target now to s kept,
    there.0,
    not_empty v there.2,
  )

  pub replace_logs :
      (now : ℕ) (k value : Str) (n : ℕ) (s : ListStorage L) (v : Value (List Str))
      → IsThere now k v s
      → n < length v.value
      → replace_at_index now k (pos n) value s ≡ (
          replace_no_lock_and_no_wal k (pos n) value s >>= (λ b.
            (let r = log engine_id (bytes "REPLACE") (replace_args k (pos n) value) b in
              some (r.0, r.1))))
  unfolding replace_at_index
  replace_logs now k value n s v there inside =
      ground (
        arith,
        kept_fresh now k s v there.0 there.1,
        there.0,
        index_inside (length v.value) n inside,
      )

  -- Insert without the pivot, or with it.
  pub insert_misses :
      (now : ℕ) (k pivot value : Str) (before : Bool) (s : ListStorage L) (v : Value (List Str))
      → IsThere now k v s
      → insert_loop pivot value before v.value ≡ none
      → insert now k pivot value before s ≡ some (ok (negsuc 0), s)
  unfolding insert insert_no_lock_and_no_wal
  insert_misses now k pivot value before s v there out =
      ground (arith, kept_fresh now k s v there.0 there.1, there.0, out)

  pub insert_logs :
      (now : ℕ) (k pivot value : Str) (before : Bool) (s : ListStorage L) (v : Value (List Str))
      (xs : List Str)
      → IsThere now k v s
      → insert_loop pivot value before v.value ≡ some xs
      → insert now k pivot value before s ≡ (
          let r =
            log engine_id
              (bytes "INSERT")
              (insert_args k pivot value before)
              (store k (record v { value = xs }) none s) in
          some (result_of (pos (length xs)) r.0, r.1))
  unfolding insert insert_no_lock_and_no_wal
  insert_logs now k pivot value before s v xs there inside =
      ground (arith, kept_fresh now k s v there.0 there.1, there.0, inside)

  pub remove_logs :
      (now : ℕ) (k : Str) (count : ℤ) (element : Str) (s : ListStorage L) (v : Value (List Str))
      → IsThere now k v s
      → remove now k count element s ≡ (
          let t = store_or_delete k v (remove_elements count element v.value).1 s in
          elim (remove_elements count element v.value).0 [
            | zero ↦ some (ok 0, t)
            | suc n ↦
                (let r = log engine_id (bytes "REMOVE") (remove_args k count element) t in
                  some (result_of (suc n) r.0, r.1))
          ])
  unfolding remove remove_no_lock_and_no_wal
  remove_logs now k count element s v there =
      ground (arith, kept_fresh now k s v there.0 there.1, there.0)
