-- ===== src/Persistence/Blocks.antt =====
-- What Restore (pkg/persistence/persistence.go) replays of a log that is made of single entries,
-- committed transactions, and transactions that began and never committed.
use gomembase.Prelude.{
  ◌≡◌, refl, sym, ap, ◌∙◌, fun_ext, Bool, true, false, ◌||◌, List, [], ◌∷◌, ◌++◌, map, Option, none,
  some, Str, str_eq, str_eq_iff, All, arith, if◌then◌else◌,
}
use gomembase.Prelude.Dict.{insert, delete, lookup, lookup-insert, lookup-delete}
use gomembase.Errors.{Error}
use gomembase.Logger.{WalEntry, tx_begin, tx_commit}
use gomembase.Wal.Lines.{apply_lines, apply_lines-cons}
use gomembase.Persistence.{Engines, Ids, track_tx, contains, dispatch, is_member}
use gomembase.Persistence.Replay.{
  line_of, IsPlain, IsTxId, track_tx-plain, track_tx-begin, track_tx-commit,
}

-- A broken transaction is its begin marker: what follows up to the next item of the other two
-- kinds may be entries of its block or of calls made after a restart.
pub data Item : Type 0 where
  plain : WalEntry → Item
  block : Str → List WalEntry → Item
  broken : Str → Item

abbrev pub lines_of : List Item → List Str
lines_of [] = []
lines_of (plain e ∷ items) = line_of e ∷ lines_of items
lines_of (block id es ∷ items) =
    line_of (tx_begin id) ∷ (map line_of es ++ line_of (tx_commit id) ∷ lines_of items)
lines_of (broken id ∷ items) = line_of (tx_begin id) ∷ lines_of items

abbrev pub broken_ids : List Item → List Str
broken_ids [] = []
broken_ids (plain e ∷ items) = broken_ids items
broken_ids (block id es ∷ items) = broken_ids items
broken_ids (broken id ∷ items) = id ∷ broken_ids items

-- Parts without bars, and identifiers of blocks outside the list `bad`.
abbrev pub WellFormed : List Str → List Item → Type 0
WellFormed bad [] = Unit
WellFormed bad (plain e ∷ items) = IsPlain e × WellFormed bad items
WellFormed bad (block id es ∷ items) =
    IsTxId id × (contains bad id ≡ false) × (All IsPlain es × WellFormed bad items)
WellFormed bad (broken id ∷ items) = IsTxId id × WellFormed bad items

-- The entries that count: `skipping` says that a broken transaction is open.
abbrev pub surviving : Bool → List Item → List WalEntry
surviving skipping [] = []
surviving skipping (plain e ∷ items) =
    let rest = surviving skipping items in if skipping then rest else e ∷ rest
surviving skipping (block id es ∷ items) = es ++ surviving false items
surviving skipping (broken id ∷ items) = surviving true items

module _ {X : Type 0} where
  -- Go on unless there was an error.
  abbrev pub and_then : Option Error × X → (X → Option Error × X) → Option Error × X
  and_then r k = elim r.0 [ none ↦ k r.1 | some e ↦ (some e, r.1) ]

  pub and_then_assoc :
      (r : Option Error × X) (k l : X → Option Error × X)
      → and_then (and_then r k) l ≡ and_then r (λ x. and_then (k x) l)
  and_then_assoc (none, x) k l = refl
  and_then_assoc (some e, x) k l = refl

module _ {X : Type 0} (pm : Engines X) (only : List Str) where
  -- Entries dispatched one after the other, up to the first error.
  unfoldable pub run_entries : List WalEntry → X → Option Error × X
  run_entries [] x = (none, x)
  run_entries (e ∷ es) x =
      and_then (dispatch pm only e.engine_id e.action e.args x) (λ x'. run_entries es x')

  pub run_entries-append :
      (es fs : List WalEntry) (x : X)
      → run_entries (es ++ fs) x ≡ and_then (run_entries es x) (λ x'. run_entries fs x')
  unfolding run_entries
  run_entries-append [] fs x = refl
  run_entries-append (e ∷ es) fs x =
      ap (and_then (dispatch pm only e.engine_id e.action e.args x))
        (fun_ext λ x'. run_entries-append es fs x')
      ∙ sym (
          and_then_assoc (dispatch pm only e.engine_id e.action e.args x) (λ x'. run_entries es x')
            (λ x'. run_entries fs x'))

-- Pass 1.
track_entries :
    (es : List WalEntry) (rest : List Str) (active : Ids)
    → All IsPlain es
    → apply_lines track_tx (map line_of es ++ rest) active ≡ apply_lines track_tx rest active
track_entries [] rest active h = refl
track_entries (e ∷ es) rest active h =
    apply_lines-cons track_tx (line_of e) _ active active (track_tx-plain e active h.0)
    ∙ track_entries es rest active h.1

abbrev pub tracked : List Item → Ids → Ids
tracked items active = (apply_lines track_tx (lines_of items) active).1

tracked-plain :
    (e : WalEntry) (items : List Item) (active : Ids)
    → IsPlain e
    → tracked (plain e ∷ items) active ≡ tracked items active
tracked-plain e items active h =
    ap (λ r. r.1)
      (apply_lines-cons track_tx (line_of e) _ active active (track_tx-plain e active h))

tracked-block :
    (id : Str) (es : List WalEntry) (items : List Item) (active : Ids)
    → IsTxId id
    → All IsPlain es
    → tracked (block id es ∷ items) active ≡ tracked items (delete id (insert id tt active))
tracked-block id es items active h plain_es =
    let begun = insert id tt active in
    ap (λ r. r.1)
      (apply_lines-cons track_tx (line_of (tx_begin id)) _ active begun (track_tx-begin id active h)
        ∙ track_entries es (line_of (tx_commit id) ∷ lines_of items) begun plain_es
        ∙ apply_lines-cons track_tx (line_of (tx_commit id)) _ begun (delete id begun)
            (track_tx-commit id begun h))

tracked-broken :
    (id : Str) (items : List Item) (active : Ids)
    → IsTxId id
    → tracked (broken id ∷ items) active ≡ tracked items (insert id tt active)
tracked-broken id items active h =
    ap (λ r. r.1)
      (apply_lines-cons track_tx (line_of (tx_begin id)) _ active _ (track_tx-begin id active h))

-- Every identifier that is active is in `bad`.
abbrev pub Within : List Str → Ids → Type 0
Within bad active = (j : Str) → is_member (lookup j active) ≡ true → contains bad j ≡ true

is_member-begun :
    (id j : Str) (active : Ids)
    → is_member (lookup j (insert id tt active))
      ≡ (if str_eq id j then true else is_member (lookup j active))
is_member-begun id j active = ground (arith, lookup-insert id j tt active)

is_member-ended :
    (id j : Str) (active : Ids)
    → is_member (lookup j (delete id (insert id tt active)))
      ≡ (if str_eq id j then false else is_member (lookup j active))
is_member-ended id j active =
    ground (arith, lookup-insert id j tt active, lookup-delete id j (insert id tt active))

-- After pass 1 the active identifiers are the earlier ones and those of the broken transactions.
pub tracked-is_member :
    (bad : List Str) (items : List Item) (active : Ids) (j : Str)
    → WellFormed bad items
    → Within bad active
    → ((i : Str) → contains (broken_ids items) i ≡ true → contains bad i ≡ true)
    → is_member (lookup j (tracked items active))
      ≡ (is_member (lookup j active) || contains (broken_ids items) j)
unfolding contains apply_lines
tracked-is_member bad [] active j h within all = ground arith
tracked-is_member bad (plain e ∷ items) active j h within all =
    rw (tracked-plain e items active h.0) (tracked-is_member bad items active j h.1 within all)
tracked-is_member bad (block id es ∷ items) active j h within all =
    let ended = delete id (insert id tt active) in
    let rest : is_member (lookup j (tracked items ended))
        ≡ (is_member (lookup j ended) || contains (broken_ids items) j) =
      tracked-is_member bad items ended j h.2.1
        (λ i p. ground (arith, is_member-ended id i active, within i)) all in
    ap (λ t. is_member (lookup j t)) (tracked-block id es items active h.0 h.2.0)
    ∙ rest
    ∙ ground (arith, is_member-ended id j active, within j, h.1, str_eq_iff id j)
tracked-is_member bad (broken id ∷ items) active j h within all =
    let begun = insert id tt active in
    let rest : is_member (lookup j (tracked items begun))
        ≡ (is_member (lookup j begun) || contains (broken_ids items) j) =
      tracked-is_member bad items begun j h.1
        (λ i p. ground (arith, is_member-begun id i active, within i, all i))
        (λ i p. ground (arith, all i)) in
    ap (λ t. is_member (lookup j t)) (tracked-broken id items active h.0)
    ∙ rest
    ∙ ground (arith, is_member-begun id j active)
