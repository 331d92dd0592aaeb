-- ===== src/Wal/Lines.antt =====
-- Lines of the log file: what bufio.Scanner delivers to RecoverFromWal (pkg/wal/wal.go).
use gomembase.Prelude.{
  ℕ, ◌+◌, ◌≡◌, arith, List, [], ◌∷◌, ◌++◌, reverse, Option, none, some, Str, bytes, length, ltb,
  ◌==◌, if◌then◌else◌,
}
use gomembase.Errors.{Error, foreign}
use gomembase.Wal.{Callback}

abbrev pub newline : ℕ
newline = 10

-- The default limit of bufio.Scanner, newline included.
abbrev pub max_token : ℕ
max_token = 65536

unfoldable pub concat : List Str → Str
concat [] = []
concat (l ∷ ls) = l ++ concat ls

-- ScanLines drops one carriage return; the line comes in reverse.
unfoldable pub drop_cr : Str → Str
drop_cr [] = []
drop_cr (c ∷ acc) = if c == 13 then reverse acc else reverse (c ∷ acc)

abbrev pub cons_line : Str → List Str × Option Error → List Str × Option Error
cons_line l (ls, err) = (l ∷ ls, err)

-- `acc` is the current line in reverse. A line that fills the scanner's buffer ends the scan.
unfoldable pub scan_from : Str → Str → List Str × Option Error
unfolding drop_cr
scan_from [] [] = ([], none)
scan_from (c ∷ acc) [] = (drop_cr (c ∷ acc) ∷ [], none)
scan_from acc (c ∷ s) =
    let line_ends = cons_line (drop_cr acc) (scan_from [] s) in
    let line_goes_on = scan_from (c ∷ acc) s in
    let too_long : List Str × Option Error =
      ([], some (foreign (bytes "bufio.Scanner: token too long"))) in
    if c == newline
    then line_ends
    else if ltb (length acc + 1) max_token
    then line_goes_on
    else too_long

unfoldable pub scan : Str → List Str × Option Error
unfolding scan_from
scan s = scan_from [] s

-- The loop that calls `applyFunc` and stops at its first error.
unfoldable pub apply_lines : {S : Type 0} → Callback S → List Str → S → Option Error × S
apply_lines f [] s = (none, s)
apply_lines f (l ∷ ls) s =
    let (err, s') = f l s in elim err [ none ↦ apply_lines f ls s' | some e ↦ (some e, s') ]

-- A line that the callback takes without an error.
pub apply_lines-cons :
    {S : Type 0} (f : Callback S) (l : Str) (ls : List Str) (s t : S)
    → f l s ≡ (none, t)
    → apply_lines f (l ∷ ls) s ≡ apply_lines f ls t
unfolding apply_lines
apply_lines-cons f l ls s t e = ground arith
