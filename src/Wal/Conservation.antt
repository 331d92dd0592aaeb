-- ===== src/Wal/Conservation.antt =====
-- The buffer (pkg/wal/buffered_wal.go) in front of a log file (pkg/wal/wal.go): what is written and
-- what stays in the buffer.
use gomembase.Prelude.{
  ℕ, suc, ◌+◌, ◌≡◌, refl, sym, ap, ◌∙◌, List, [], ◌∷◌, ◌++◌, none, Option-cases, inl, inr, Str,
  take, drop, arith, append_assoc, append-nil,
}
use gomembase.Wal.{WalInterface}
use gomembase.Wal.Lines.{concat}
use gomembase.Wal.Buffered.{BufferedWal, write_lines, export_to_wal, flush, buffered_write}

-- The text of a physical log: a successful write adds its line, a failed one a part of the line from
-- its start, which may be empty; syncing keeps the text.
pub record KeepsText {P : Type 0} (phys : WalInterface P) (text : P → Str) : Type 0 where
  pub on_write :
      (p : P) (l : Str)
      → (let (res, p') = phys.write_raw p l in
          (m : ℕ) × (text p' ≡ text p ++ take m l) × (res.1 ≡ none → take m l ≡ l))
  pub on_sync : (p : P) → text (phys.sync_wal p).1 ≡ text p

abbrev pub head_line : List Str → Str
head_line [] = []
head_line (l ∷ ls) = l

-- Lines written one after the other.
module _ {P : Type 0} (phys : WalInterface P) where
  abbrev pub write_all : BufferedWal P → List Str → BufferedWal P
  write_all bw [] = bw
  write_all bw (l ∷ ls) = write_all (buffered_write phys bw l).1 ls

  pub write_all-content :
      (bw : BufferedWal P) (ls : List Str)
      → ((write_all bw ls).physical_wal ≡ bw.physical_wal)
        × ((write_all bw ls).content ≡ bw.content ++ ls)
  unfolding buffered_write
  write_all-content bw [] = (refl, sym (append-nil bw.content))
  write_all-content bw (l ∷ ls) =
      let (same, more) = write_all-content (buffered_write phys bw l).1 ls in
      (same, more ∙ append_assoc bw.content (l ∷ []) ls)

module _ {P : Type 0} (phys : WalInterface P) (text : P → Str) (h : KeepsText phys text) where
  write_lines-text :
      (ls : List Str) (i : ℕ) (p : P)
      → (let r = write_lines phys ls i p in
          (n m : ℕ) × (r.0.0 ≡ i + n)
          × (text r.1 ≡ (text p ++ concat (take n ls)) ++ take m (head_line (drop n ls)))
          × (r.0.1 ≡ none → drop n ls ≡ []))
  unfolding write_lines concat
  write_lines-text [] i p =
      (0, 0, omega arith, sym (append-nil (text p ++ []) ∙ append-nil (text p)), λ e. refl)
  write_lines-text (l ∷ ls) i p =
      let (m, added, whole) = h.on_write p l in
      elim (Option-cases (phys.write_raw p l).0.1) [
        | inl ok ↦
            let p' = (phys.write_raw p l).1 in
            let longer : text p' ≡ text p ++ l = added ∙ ap (λ x. text p ++ x) (whole ok) in
            let (n, k, count, kept, all) = write_lines-text ls (suc i) p' in
            (
              suc n,
              k,
              ground (arith, count),
              ground (arith, kept, longer, append_assoc (text p) l (concat (take n ls))),
              ground (arith, all),
            )
        | inr (e, failed) ↦
            (0, m, ground arith, ground (arith, added, append-nil (text p)), ground arith)
      ]

  export_to_wal-text :
      (ls : List Str) (p : P)
      → (let r = export_to_wal phys ls p in
          (m : ℕ) × (text r.1
            ≡ (text p ++ concat (take r.0.0 ls)) ++ take m (head_line (drop r.0.0 ls)))
          × (r.0.1 ≡ none → drop r.0.0 ls ≡ []))
  unfolding export_to_wal concat
  export_to_wal-text [] p = (0, sym (append-nil (text p ++ []) ∙ append-nil (text p)), λ e. refl)
  export_to_wal-text (l ∷ ls) p =
      let r = write_lines phys (l ∷ ls) 0 p in
      let (n, m, count, kept, all) = write_lines-text (l ∷ ls) 0 p in
      let same : r.0.0 ≡ n = omega (arith, count) in
      (m, ground (arith, same, kept, h.on_sync r.1), ground (arith, same, all))

  pub flush-text :
      (bw : BufferedWal P)
      → (let (err, bw') = flush phys bw in
          (n m : ℕ) × (bw'.content ≡ drop n bw.content)
          × (text bw'.physical_wal
              ≡ (text bw.physical_wal ++ concat (take n bw.content))
                ++ take m (head_line bw'.content))
          × (err ≡ none → bw'.content ≡ []))
  unfolding flush
  flush-text bw =
      let n = (export_to_wal phys bw.content bw.physical_wal).0.0 in
      let (m, kept, all) = export_to_wal-text bw.content bw.physical_wal in
      (n, m, ground arith, ground (arith, kept), ground (arith, all))
