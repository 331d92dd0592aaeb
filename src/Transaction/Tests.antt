-- ===== src/Transaction/Tests.antt =====
-- Transactions at concrete inputs: the state is a number.
use gomembase.Prelude.{ℕ, arith, ◌+◌, ◌-◌, ◌≡◌, refl, bytes, [], ◌∷◌, none, some}
use gomembase.Errors.{foreign}
use gomembase.Transaction.{
  Op, Transaction, pending, committed, rolled_back, failed_at, not_pending, add, exec, discard,
}
use gomembase.Transaction.Exec.{Runs, Reverts, exec-Runs, exec-Reverts, exec_once}

abbrev bump : Op ℕ
bump n = (record { undo = λ m. (none, m - 1); err = none }, n + 1)

abbrev broken : Op ℕ
broken n = (record { undo = λ m. (none, m); err = some (foreign (bytes "no")) }, n)

two_bumps : Runs (bump ∷ bump ∷ []) 4 6
two_bumps = Runs.step refl refl (Runs.step refl refl Runs.done)

exec-Runs_example :
    exec (record { ops = bump ∷ bump ∷ []; state = pending }) 4
    ≡ (none, record { ops = bump ∷ bump ∷ []; state = committed }, 6)
exec-Runs_example = exec-Runs (bump ∷ bump ∷ []) two_bumps

bump_back : Reverts (◌≡◌ {A = ℕ}) (bump ∷ []) 4 5
bump_back = Reverts.step refl refl (λ x e. omega arith) Reverts.done

exec-Reverts_example :
    (y : ℕ) × (y ≡ 4)
    × (exec (record { ops = bump ∷ broken ∷ bump ∷ []; state = pending }) 4 ≡ (
      some (failed_at 1 (foreign (bytes "no"))),
      record { ops = bump ∷ broken ∷ bump ∷ []; state = rolled_back },
      y,
    ))
exec-Reverts_example =
    exec-Reverts (◌≡◌ {A = ℕ}) broken (bump ∷ []) (bump ∷ []) refl refl refl bump_back

abbrev started : Transaction ℕ
started = record { ops = bump ∷ []; state = pending }

exec_once_example :
    (let tx' = (exec started 4).1 in
      (exec tx' 7 ≡ (some not_pending, tx', 7)) × (add tx' bump ≡ (some not_pending, tx')))
    × (let tx' = discard started in
        (exec tx' 7 ≡ (some not_pending, tx', 7)) × (add tx' bump ≡ (some not_pending, tx')))
exec_once_example = exec_once started bump 4 7
