-- ===== src/Transaction.antt =====
-- pkg/transaction/transaction.go: a list of operations that runs whole or is undone.
pub mod Exec
mod Tests
use gomembase.Prelude.{ℕ, zero, suc, List, [], ◌∷◌, ◌++◌, reverse, Option, none, some, length}
use gomembase.Errors.{Error}

pub data State : Type 0 where
  pending committed rolled_back : State

-- A closure of the source acts on the state `W` of everything that it can reach.
abbrev pub Undo : Type 0 → Type 0
Undo W = W → Option Error × W

-- What `PrepareAndDo` returns.
pub record Prepared (W : Type 0) : Type 0 where
  pub undo : Undo W
  pub err : Option Error

abbrev pub Op : Type 0 → Type 0
Op W = W → Prepared W × W

pub record Transaction (W : Type 0) : Type 0 where
  pub ops : List (Op W)
  pub state : State

-- The errors of the package: "transaction is not pending", and "tx failed at op i" with its cause.
pub data TxError : Type 0 where
  not_pending : TxError
  failed_at : ℕ → Error → TxError

abbrev ended : Option TxError → State
ended none = committed
ended (some e) = rolled_back

module _ {W : Type 0} where
  unfoldable pub new : Transaction W
  new = record { ops = []; state = pending }

  add_pending : State → Transaction W → Op W → Option TxError × Transaction W
  add_pending pending tx op = (none, record tx { ops = tx.ops ++ op ∷ [] })
  add_pending _ tx op = (some not_pending, tx)

  unfoldable pub add : Transaction W → Op W → Option TxError × Transaction W
  unfolding add_pending
  add tx op = add_pending tx.state tx op

  -- `_ = undos[j]()`, each in turn whatever it returns.
  unfoldable pub run_undos : List (Undo W) → W → W
  run_undos [] w = w
  run_undos (u ∷ us) w = run_undos us (u w).1

  -- The loop of Exec: `i` counts, `undos` holds the closures in the order of the operations.
  unfoldable pub exec_ops : List (Op W) → ℕ → List (Undo W) → W → Option TxError × W
  exec_ops [] i undos w = (none, w)
  exec_ops (op ∷ ops) i undos w =
      let (p, w') = op w in
      elim p.err [
        | none ↦ exec_ops ops (suc i) (undos ++ p.undo ∷ []) w'
        | some e ↦ (some (failed_at i e), run_undos (reverse undos) w')
      ]

  exec_pending : State → Transaction W → W → Option TxError × Transaction W × W
  exec_pending pending tx w =
      let (err, w') = exec_ops tx.ops 0 [] w in (err, record tx { state = ended err }, w')
  exec_pending _ tx w = (some not_pending, tx, w)

  unfoldable pub exec : Transaction W → W → Option TxError × Transaction W × W
  unfolding exec_pending
  exec tx w = exec_pending tx.state tx w

  discard_pending : State → Transaction W → Transaction W
  discard_pending pending tx = record { ops = []; state = rolled_back }
  discard_pending _ tx = tx

  unfoldable pub discard : Transaction W → Transaction W
  unfolding discard_pending
  discard tx = discard_pending tx.state tx

  unfoldable pub len : Transaction W → ℕ
  len tx = length tx.ops
