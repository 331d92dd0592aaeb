-- ===== src/Transaction/Exec.antt =====
-- The outcome of Exec (pkg/transaction/transaction.go): all operations, or a rollback.
use gomembase.Prelude.{
  ℕ, suc, ◌+◌, ◌≡◌, refl, List, [], ◌∷◌, ◌++◌, reverse, reverse-append, none, some, length, arith,
}
use gomembase.Errors.{Error}
use gomembase.Transaction.{
  Prepared, Undo, Op, Transaction, pending, committed, rolled_back, not_pending, failed_at, add,
  exec, exec_ops, run_undos, discard,
}

-- The operations succeed one after the other, from `w` to `w'`.
pub data Runs {W : Type 0} : List (Op W) → W → W → Type 0 where
  done : {w : W} → Runs [] w w
  step :
      {op : Op W} {ops : List (Op W)} {w u v : W} {p : Prepared W}
      → op w ≡ (p, u)
      → p.err ≡ none
      → Runs ops u v
      → Runs (op ∷ ops) w v

-- They succeed, and each one's undo leads from what looks like its end to what looks like its start.
pub data Reverts {W : Type 0} (R : W → W → Type 0) : List (Op W) → W → W → Type 0 where
  done : {w : W} → Reverts R [] w w
  step :
      {op : Op W} {ops : List (Op W)} {w u v : W} {p : Prepared W}
      → op w ≡ (p, u)
      → p.err ≡ none
      → ((x : W) → R x u → R (p.undo x).1 w)
      → Reverts R ops u v
      → Reverts R (op ∷ ops) w v

module _ {W : Type 0} where
  exec_ops-Runs :
      {ops : List (Op W)} {w v : W} (i : ℕ) (undos : List (Undo W))
      → Runs ops w v
      → exec_ops ops i undos w ≡ (none, v)
  unfolding exec_ops
  exec_ops-Runs i undos done = refl
  exec_ops-Runs i undos (step {p = p} e ok r) =
      ground (arith, exec_ops-Runs (suc i) (undos ++ p.undo ∷ []) r)

  -- If every operation succeeds, Exec runs them all in order and commits.
  pub exec-Runs :
      {w v : W} (ops : List (Op W))
      → Runs ops w v
      → exec (record { ops = ops; state = pending }) w
        ≡ (none, record { ops = ops; state = committed }, v)
  unfolding exec
  exec-Runs ops r = rw (exec_ops-Runs 0 [] r)

  run_undos-snoc :
      (us : List (Undo W)) (u : Undo W) (x : W)
      → run_undos (reverse (us ++ u ∷ [])) x ≡ run_undos (reverse us) (u x).1
  unfolding run_undos
  run_undos-snoc us u x = rw (reverse-append us (u ∷ []))

  -- The state when the undos collected before `pre` begin to run.
  exec_ops-Reverts :
      (R : W → W → Type 0) (op : Op W) {v x : W} {p : Prepared W} {e : Error} {pre : List (Op W)}
      {w : W} (rest : List (Op W)) (i : ℕ) (undos : List (Undo W))
      → op v ≡ (p, x)
      → p.err ≡ some e
      → R x v
      → Reverts R pre w v
      → (y : W) × R y w
        × (exec_ops (pre ++ op ∷ rest) i undos w
            ≡ (some (failed_at (i + length pre) e), run_undos (reverse undos) y))
  unfolding exec_ops
  exec_ops-Reverts R op {x = x} rest i undos fails err kept done = (x, kept, ground arith)
  exec_ops-Reverts R op rest i undos fails err kept (step {p = q} eq ok back r) =
      let (y, close, result) =
        exec_ops-Reverts R op rest (suc i) (undos ++ q.undo ∷ []) fails err kept r in
      ((q.undo y).1, back y close, ground (arith, result, run_undos-snoc undos q.undo y))

  -- If the operations of `pre` succeed, each with an undo that leads back, and the next one fails
  -- without a trace, then Exec reports the index and the error, is rolled back, and the state looks
  -- like the first one. `R` says which states look alike.
  pub exec-Reverts :
      (R : W → W → Type 0) (op : Op W) {v x : W} {p : Prepared W} {e : Error} {w : W}
      (pre rest : List (Op W))
      → op v ≡ (p, x)
      → p.err ≡ some e
      → R x v
      → Reverts R pre w v
      → (y : W) × R y w
        × (exec (record { ops = pre ++ op ∷ rest; state = pending }) w ≡ (
          some (failed_at (length pre) e),
          record { ops = pre ++ op ∷ rest; state = rolled_back },
          y,
        ))
  unfolding exec run_undos
  exec-Reverts R op {w = w} pre rest fails err kept r =
      let (y, close, result) = exec_ops-Reverts R op rest 0 [] fails err kept r in
      (y, close, ground (arith, result))

  -- A transaction runs at most once: after Exec, whatever its outcome, and after Discard, Exec and
  -- Add answer that it is not pending and change nothing.
  pub exec_once :
      (tx : Transaction W) (op : Op W) (w u : W)
      → (let tx' = (exec tx w).1 in
          (exec tx' u ≡ (some not_pending, tx', u)) × (add tx' op ≡ (some not_pending, tx')))
        × (let tx' = discard tx in
            (exec tx' u ≡ (some not_pending, tx', u)) × (add tx' op ≡ (some not_pending, tx')))
  unfolding exec add discard
  exec_once tx op w u = ground (arith)
