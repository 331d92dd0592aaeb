-- ===== src/Persistence/Replay.antt =====
-- Single log lines (pkg/persistence/persistence.go): splitting, and what each pass does with one.
use gomembase.Prelude.{
  ◌≡◌, refl, ap, ◌∙◌, false, List, [], ◌∷◌, ◌++◌, none, Str, bytes, str_eq, All, ◌==◌,
}
use gomembase.Prelude.Dict.{insert, delete}
use gomembase.Logger.{WalEntry, tx_begin, tx_commit}
use gomembase.Persistence.{
  bar, join, split, Engines, Ids, track_parts, track_tx, replay_entry, replay_parts, replay_line,
}

abbrev pub NoBar : Str → Type 0
NoBar p = All (λ c. (c == bar) ≡ false) p

split-append : (p s : Str) → NoBar p → split (p ++ bar ∷ s) ≡ p ∷ split s
unfolding split
split-append [] s h = refl
split-append (c ∷ p) s h = rw (h.0, split-append p s h.1)

split-NoBar : (p : Str) → NoBar p → split p ≡ p ∷ []
unfolding split
split-NoBar [] h = refl
split-NoBar (c ∷ p) h = rw (h.0, split-NoBar p h.1)

-- Splitting a line at the bars gives back the parts that it was joined from, if none has a bar.
pub split-join : (p : Str) (ps : List Str) → All NoBar (p ∷ ps) → split (join (p ∷ ps)) ≡ p ∷ ps
unfolding join
split-join p [] h = split-NoBar p h.0
split-join p (q ∷ ps) h = split-append p (join (q ∷ ps)) h.0 ∙ ap (◌∷◌ p) (split-join q ps h.1)

-- The line of an entry as a scan delivers it, without its newline.
abbrev pub line_of : WalEntry → Str
line_of e = join (e.engine_id ∷ e.action ∷ e.args)

-- An entry of an engine: no marker, and no bar in any part.
pub record IsPlain (e : WalEntry) : Type 0 where
  pub no_marker : str_eq e.engine_id (bytes "tx") ≡ false
  pub no_bar : All NoBar (e.engine_id ∷ e.action ∷ e.args)

-- A transaction identifier: no bar in it, and not empty.
pub record IsTxId (id : Str) : Type 0 where
  pub not_empty : str_eq id [] ≡ false
  pub no_bar : NoBar id

track_parts-plain :
    (ds action : Str) (args : List Str) (active : Ids)
    → str_eq ds (bytes "tx") ≡ false
    → track_parts (ds ∷ action ∷ args) active ≡ active
unfolding track_parts
track_parts-plain ds action [] active h = refl
track_parts-plain ds action (arg ∷ args) active h = rw h

-- Pass 1.
pub track_tx-plain :
    (e : WalEntry) (active : Ids) → IsPlain e → track_tx (line_of e) active ≡ (none, active)
unfolding track_tx
track_tx-plain e active h =
    ap (λ t. (none, t))
      (ap (λ ps. track_parts ps active) (split-join e.engine_id (e.action ∷ e.args) h.no_bar)
        ∙ track_parts-plain e.engine_id e.action e.args active h.no_marker)

split-begin :
    (id : Str) → NoBar id → split (line_of (tx_begin id)) ≡ bytes "tx" ∷ bytes "TX_BEGIN" ∷ id ∷ []
split-begin id h = split-join (bytes "tx") (bytes "TX_BEGIN" ∷ id ∷ []) (
  (refl, (refl, tt)),
  ((refl, (refl, (refl, (refl, (refl, (refl, (refl, (refl, tt)))))))), (h, tt)),
)

split-commit :
    (id : Str)
    → NoBar id
    → split (line_of (tx_commit id)) ≡ bytes "tx" ∷ bytes "TX_COMMIT" ∷ id ∷ []
split-commit id h = split-join (bytes "tx") (bytes "TX_COMMIT" ∷ id ∷ []) (
  (refl, (refl, tt)),
  ((refl, (refl, (refl, (refl, (refl, (refl, (refl, (refl, (refl, tt))))))))), (h, tt)),
)

pub track_tx-begin :
    (id : Str) (active : Ids)
    → IsTxId id
    → track_tx (line_of (tx_begin id)) active ≡ (none, insert id tt active)
unfolding track_tx track_parts str_eq
track_tx-begin id active h = ap (λ ps. (none, track_parts ps active)) (split-begin id h.no_bar)

pub track_tx-commit :
    (id : Str) (active : Ids)
    → IsTxId id
    → track_tx (line_of (tx_commit id)) active ≡ (none, delete id active)
unfolding track_tx track_parts str_eq
track_tx-commit id active h = ap (λ ps. (none, track_parts ps active)) (split-commit id h.no_bar)

-- Pass 2.
module _ {X : Type 0} (pm : Engines X) (incomplete : Ids) (only : List Str) where
  replay_parts-plain :
      (ds action : Str) (args : List Str) (s : Str × X)
      → str_eq ds (bytes "tx") ≡ false
      → replay_parts pm incomplete only (ds ∷ action ∷ args) s
        ≡ replay_entry pm incomplete only ds action args s
  unfolding replay_parts
  replay_parts-plain ds action [] s h = refl
  replay_parts-plain ds action (arg ∷ args) s h = rw h

  pub replay_line-plain :
      (e : WalEntry) (s : Str × X)
      → IsPlain e
      → replay_line pm incomplete only (line_of e) s
        ≡ replay_entry pm incomplete only e.engine_id e.action e.args s
  unfolding replay_line
  replay_line-plain e s h =
      ap (λ ps. replay_parts pm incomplete only ps s)
        (split-join e.engine_id (e.action ∷ e.args) h.no_bar)
      ∙ replay_parts-plain e.engine_id e.action e.args s h.no_marker

  pub replay_line-begin :
      (id current : Str) (x : X)
      → IsTxId id
      → replay_line pm incomplete only (line_of (tx_begin id)) (current, x) ≡ (none, (id, x))
  unfolding replay_line replay_parts str_eq
  replay_line-begin id current x h =
      ap (λ ps. replay_parts pm incomplete only ps (current, x)) (split-begin id h.no_bar)

  pub replay_line-commit :
      (id current : Str) (x : X)
      → IsTxId id
      → replay_line pm incomplete only (line_of (tx_commit id)) (current, x) ≡ (none, ([], x))
  unfolding replay_line replay_parts str_eq
  replay_line-commit id current x h =
      ap (λ ps. replay_parts pm incomplete only ps (current, x)) (split-commit id h.no_bar)
