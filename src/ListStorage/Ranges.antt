-- ===== src/ListStorage/Ranges.antt =====
-- Range, SnapshotListIndex and the removals of pkg/list_storage/list_storage.go against slices,
-- indices and counts.
use gomembase.Prelude.{
  ℕ, zero, suc, ◌-◌, ◌≤◌, ◌<◌, ◌≡◌, refl, sym, ap, ◌∙◌, false, List, [], ◌∷◌, Str, length, take,
  drop, ltb, ◌==◌, arith, if◌then◌else◌,
}
use gomembase.Prelude.Int.{ℤ, pos, negsuc, ◌+ℤ◌}
use gomembase.ListStorage.Elements.{range_loop, first_index, last_index, range_between, range_of}

-- The elements from the index `low` to before the index `high`.
abbrev pub slice : ℕ → ℕ → List Str → List Str
slice low high xs = drop low (take high xs)

-- Where an index of Range starts and ends a slice of `n` elements: a negative one counts from the end.
abbrev pub slice_start : ℕ → ℤ → ℕ
slice_start n (pos a) = a
slice_start n (negsuc a) = n - suc a

abbrev pub slice_end : ℕ → ℤ → ℕ
slice_end n (pos b) = suc b
slice_end n (negsuc b) = n - b

drop_nil : (n : ℕ) → drop {A = Str} n [] ≡ []
drop_nil zero = refl
drop_nil (suc n) = refl

slice_nil : (low high : ℕ) → slice low high [] ≡ []
slice_nil low zero = drop_nil low
slice_nil low (suc high) = drop_nil low

slice_empty : (low high : ℕ) (xs : List Str) → high ≤ low → slice low high xs ≡ []
slice_empty low zero xs h = drop_nil low
slice_empty zero (suc high) xs h = absurd (omega arith)
slice_empty (suc low) (suc high) [] h = refl
slice_empty (suc low) (suc high) (x ∷ xs) h = slice_empty low high xs (omega arith)

take_all : (n : ℕ) (xs : List Str) → length xs ≤ n → take n xs ≡ take (length xs) xs
take_all zero [] h = refl
take_all zero (x ∷ xs) h = absurd (omega arith)
take_all (suc n) [] h = refl
take_all (suc n) (x ∷ xs) h = ap (◌∷◌ x) (take_all n xs (omega arith))

range_loop_past : (i a b : ℕ) (xs : List Str) → b < i → range_loop i a b xs ≡ []
unfolding range_loop
range_loop_past i a b [] h = refl
range_loop_past i a b (x ∷ xs) h = ground arith

-- The loop from the index `i`: `low` elements are before the slice, and `high` up to its end.
range_loop-slice :
    (i a b low high : ℕ) (xs : List Str)
    → a - i ≡ low
    → suc b - i ≡ high
    → range_loop i a b xs ≡ slice low high xs
unfolding range_loop
range_loop-slice i a b low high [] l h = sym (slice_nil low high)
range_loop-slice i a b low zero (x ∷ xs) l h =
    range_loop_past i a b (x ∷ xs) (omega arith) ∙ sym (drop_nil low)
range_loop-slice i a b zero (suc high) (x ∷ xs) l h =
    ground (arith, range_loop-slice (suc i) a b zero high xs (omega arith) (omega arith))
range_loop-slice i a b (suc low) (suc high) (x ∷ xs) l h =
    ground (arith, range_loop-slice (suc i) a b low high xs (omega arith) (omega arith))

-- Range on resolved indices: a slice, which is empty if it ends before it starts.
resolved-slice :
    (low last : ℕ) (xs : List Str)
    → (if ltb last low then [] else range_loop 0 low last xs) ≡ slice low (suc last) xs
resolved-slice low last xs = ground (
  arith,
  range_loop-slice 0 low last low (suc last) xs (omega arith) (omega arith),
  slice_empty low (suc last) xs,
)

first_index-slice_start : (n : ℕ) (start : ℤ) → first_index n start ≡ pos (slice_start n start)
unfolding first_index ◌+ℤ◌
first_index-slice_start n (pos a) = ground arith
first_index-slice_start n (negsuc a) = ground arith

range_between-slice :
    (low : ℕ) (stop : ℤ) (x : Str) (xs : List Str)
    → range_between (pos low) (last_index (suc (length xs)) stop) (x ∷ xs)
      ≡ slice low (slice_end (suc (length xs)) stop) (x ∷ xs)
unfolding range_between last_index ◌+ℤ◌
range_between-slice low (pos b) x xs = ground (
  arith,
  resolved-slice low b (x ∷ xs),
  resolved-slice low (length xs) (x ∷ xs),
  take_all (suc b) (x ∷ xs),
)
range_between-slice low (negsuc b) x xs = ground (
  arith,
  resolved-slice low (length xs - b) (x ∷ xs),
  slice_empty low (suc (length xs) - b) (x ∷ xs),
)

-- Range returns the slice of the list between its two indices, each counted from the front or, if
-- negative, from the back, with the second included; indices out of range are cut off at the ends,
-- and the slice is empty if it ends before it starts.
pub range_of-slice :
    (start stop : ℤ) (xs : List Str)
    → range_of start stop xs ≡ slice (slice_start (length xs) start) (slice_end (length xs) stop) xs
unfolding range_of
range_of-slice start stop [] = sym (slice_nil (slice_start 0 start) (slice_end 0 stop))
range_of-slice start stop (x ∷ xs) =
    let full : (suc (length xs) == 0) ≡ false = ground arith in
    ap
      (λ b.
        if b
        then []
        else range_between (first_index (suc (length xs)) start) (last_index (suc (length xs)) stop)
            (x ∷ xs))
      full
    ∙ ap (λ first. range_between first (last_index (suc (length xs)) stop) (x ∷ xs))
        (first_index-slice_start (suc (length xs)) start)
    ∙ range_between-slice (slice_start (suc (length xs)) start) stop x xs
