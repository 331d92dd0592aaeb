-- ===== src/Persistence/Restore.antt =====
-- Both passes of Restore (pkg/persistence/persistence.go) over a log made of items.
use gomembase.Prelude.{
  ◌≡◌, refl, sym, ap, ◌∙◌, fun_ext, Bool, true, false, not, ◌&&◌, List, [], ◌∷◌, ◌++◌, map, Option,
  none, some, Str, bytes, str_eq, str_eq_refl, All, arith, Bool-cases, inl, inr, if◌then◌else◌,
}
use gomembase.Prelude.Dict.{lookup, lookup-empty}
use gomembase.Errors.{Error, wrapped}
use gomembase.Logger.{WalEntry, tx_begin, tx_commit}
use gomembase.Wal.{WalInterface, Callback}
use gomembase.Wal.Lines.{apply_lines, apply_lines-cons}
use gomembase.Persistence.{
  Engines, Ids, track_tx, contains, dispatch, replay_entry, replay_line, is_member, restore_wal,
}
use gomembase.Persistence.Replay.{
  line_of, IsPlain, replay_line-plain, replay_line-begin, replay_line-commit,
}
use gomembase.Persistence.Blocks.{
  Item, plain, block, broken, lines_of, broken_ids, WellFormed, surviving, and_then, run_entries,
  run_entries-append, and_then_assoc, tracked, tracked-is_member,
}

-- The error and the engines' state of a pass 2.
abbrev outcome : {X : Type 0} → Option Error × (Str × X) → Option Error × X
outcome r = (r.0, r.1.1)

abbrev skips : Ids → Str → Bool
skips incomplete current = not (str_eq current []) && is_member (lookup current incomplete)

module _ {X : Type 0} (pm : Engines X) (incomplete : Ids) (only : List Str) where
  abbrev pass : List Str → Str → X → Option Error × X
  pass ls current x = outcome (apply_lines (replay_line pm incomplete only) ls (current, x))

  pass-marker :
      (l : Str) (ls : List Str) (current next : Str) (x : X)
      → replay_line pm incomplete only l (current, x) ≡ (none, (next, x))
      → pass (l ∷ ls) current x ≡ pass ls next x
  pass-marker l ls current next x h =
      ap (outcome {X = X})
        (apply_lines-cons (replay_line pm incomplete only) l ls (current, x) (next, x) h)

  abbrev after : Option Error × (Str × X) → List Str → Option Error × X
  after r ls = elim r.0 [ none ↦ pass ls r.1.0 r.1.1 | some e ↦ (some e, r.1.1) ]

  pass-cons :
      (l : Str) (ls : List Str) (current : Str) (x : X)
      → pass (l ∷ ls) current x ≡ after (replay_line pm incomplete only l (current, x)) ls
  unfolding apply_lines
  pass-cons l ls current x = ground arith

  after-replay_entry :
      (e : WalEntry) (ls : List Str) (current : Str) (x : X)
      → after (replay_entry pm incomplete only e.engine_id e.action e.args (current, x)) ls ≡ (
          if skips incomplete current
          then pass ls current x
          else and_then (dispatch pm only e.engine_id e.action e.args x) (λ x'. pass ls current x'))
  unfolding replay_entry
  after-replay_entry e ls current x = elim (Bool-cases (skips incomplete current)) [
    | inl skip ↦ rw skip
    | inr keep ↦ rw keep
  ]

  pass-plain :
      (e : WalEntry) (ls : List Str) (current : Str) (x : X)
      → IsPlain e
      → pass (line_of e ∷ ls) current x ≡ (
          if skips incomplete current
          then pass ls current x
          else and_then (dispatch pm only e.engine_id e.action e.args x) (λ x'. pass ls current x'))
  pass-plain e ls current x h =
      pass-cons (line_of e) ls current x
      ∙ ap (λ r. after r ls) (replay_line-plain pm incomplete only e (current, x) h)
      ∙ after-replay_entry e ls current x

  pass-entries :
      (es : List WalEntry) (ls : List Str) (current : Str) (x : X)
      → skips incomplete current ≡ false
      → All IsPlain es
      → pass (map line_of es ++ ls) current x
        ≡ and_then (run_entries pm only es x) (λ x'. pass ls current x')
  unfolding run_entries
  pass-entries [] ls current x keep h = refl
  pass-entries (e ∷ es) ls current x keep h =
      pass-plain e (map line_of es ++ ls) current x h.0
      ∙ rw keep (
          ap (and_then (dispatch pm only e.engine_id e.action e.args x))
            (fun_ext λ x'. pass-entries es ls current x' keep h.1)
          ∙ sym (
              and_then_assoc (dispatch pm only e.engine_id e.action e.args x)
                (λ x'. run_entries pm only es x') (λ x'. pass ls current x')))

  -- A list of identifiers that are incomplete, and no others.
  abbrev Exactly : List Str → Type 0
  Exactly bad = (j : Str) → is_member (lookup j incomplete) ≡ contains bad j

  pass-items :
      (bad : List Str) (items : List Item) (current : Str) (skipping : Bool) (x : X)
      → Exactly bad
      → WellFormed bad items
      → ((i : Str) → contains (broken_ids items) i ≡ true → contains bad i ≡ true)
      → skips incomplete current ≡ skipping
      → pass (lines_of items) current x ≡ run_entries pm only (surviving skipping items) x
  unfolding run_entries apply_lines contains
  pass-items bad [] current skipping x exact h all s = refl
  pass-items bad (plain e ∷ items) current true x exact h all s =
      pass-plain e (lines_of items) current x h.0
      ∙ rw s (pass-items bad items current true x exact h.1 all s)
  pass-items bad (plain e ∷ items) current false x exact h all s =
      pass-plain e (lines_of items) current x h.0
      ∙ rw s (
          ap (and_then (dispatch pm only e.engine_id e.action e.args x))
            (fun_ext λ x'. pass-items bad items current false x' exact h.1 all s))
  pass-items bad (block id es ∷ items) current skipping x exact h all s =
      let commit_line = line_of (tx_commit id) in
      let rest : (x' : X)
          → pass (commit_line ∷ lines_of items) id x'
            ≡ run_entries pm only (surviving false items) x' =
        λ x'.
          pass-marker commit_line (lines_of items) id [] x'
            (replay_line-commit pm incomplete only id id x' h.0)
          ∙ pass-items bad items [] false x' exact h.2.1 all (ground (arith, str_eq_refl [])) in
      pass-marker (line_of (tx_begin id)) (map line_of es ++ commit_line ∷ lines_of items) current
        id x (replay_line-begin pm incomplete only id current x h.0)
      ∙ pass-entries es (commit_line ∷ lines_of items) id x (ground (arith, exact id, h.1)) h.2.0
      ∙ ap (and_then (run_entries pm only es x)) (fun_ext rest)
      ∙ sym (run_entries-append pm only es (surviving false items) x)
  pass-items bad (broken id ∷ items) current skipping x exact h all s =
      pass-marker (line_of (tx_begin id)) (lines_of items) current id x
        (replay_line-begin pm incomplete only id current x h.0)
      ∙ pass-items bad items id true x exact h.1 (λ i p. ground (arith, all i))
          (ground (arith, all id, str_eq_refl id, exact id, h.0))

-- The log recovers without a change of its own, and hands the lines to the callback.
abbrev pub Delivers : {P : Type 0} → WalInterface P → P → List Str → Type 1
Delivers wal p ls =
    (S : Type 0) (f : Callback S) (s : S)
    → wal.recover_from_wal S f s p ≡ ((apply_lines f ls s).0, (apply_lines f ls s).1, p)

abbrev pub recovery_error : Option Error → Option Error
recovery_error none = none
recovery_error (some e) = some (wrapped (bytes "failed to recover from WAL") e)

module _ {P X : Type 0} (wal : WalInterface P) (pm : Engines X) (only : List Str) where
  -- For a log of single entries, committed transactions and broken ones, whose committed
  -- transactions have other identifiers than the broken ones, Restore dispatches in order exactly
  -- the entries of the committed transactions and those single entries that no broken transaction
  -- precedes since the last committed one, up to the first error. So what is logged after a
  -- transaction marker without a commit is skipped up to the next marker that begins a block that
  -- commits, also entries that belong to no transaction.
  pub restore_wal-items :
      (items : List Item) (p : P) (x : X)
      → WellFormed (broken_ids items) items
      → Delivers wal p (lines_of items)
      → (let (err, x') = run_entries pm only (surviving false items) x in
          restore_wal wal pm only p x ≡ (recovery_error err, x', p))
  unfolding restore_wal
  restore_wal-items items p x h delivers =
      let incomplete = tracked items [] in
      let first = delivers Ids track_tx [] in
      let second = delivers (Str × X) (replay_line pm incomplete only) ([], x) in
      let exact : (j : Str) → is_member (lookup j incomplete) ≡ contains (broken_ids items) j = λ j.
        tracked-is_member (broken_ids items) items [] j h
          (λ i e. ground (arith, lookup-empty {V = Unit {0}} i)) (λ i e. e)
        ∙ ground (arith, lookup-empty {V = Unit {0}} j) in
      let replayed =
        pass-items pm incomplete only (broken_ids items) items [] false x exact h (λ i e. e)
          (ground (arith, str_eq_refl [])) in
      rw (first, second) (ap (λ r. (recovery_error r.0, r.1, p)) replayed)
