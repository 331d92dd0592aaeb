-- ===== src/ListStorage/Elements.antt =====
-- The loops of pkg/list_storage/list_storage.go over the elements of one list, with container/list.
use gomembase.Prelude.{
  ℕ, zero, suc, ◌-◌, ◌/◌, ◌^◌, Bool, true, false, ◌&&◌, ◌||◌, not, List, [], ◌∷◌, ◌++◌, reverse,
  Option, none, some, Str, str_eq, length, get_elem?, ltb, leb, ◌==◌, if◌then◌else◌,
}
use gomembase.Prelude.Int.{ℤ, pos, negsuc, pos_part, ◌+ℤ◌, ltb_ℤ}

-- `for _, v := range values { PushFront(v) or PushBack(v) }`
unfoldable pub push_values : Bool → List Str → List Str → List Str
push_values to_left [] xs = xs
push_values to_left (v ∷ vs) xs = push_values to_left vs (if to_left then v ∷ xs else xs ++ v ∷ [])

-- The last element and those before it.
unfoldable pub take_back : List Str → Option (Str × List Str)
take_back [] = none
take_back (x ∷ xs) = elim (take_back xs) [
  | none ↦ some (x, [])
  | some (y, rest) ↦ some (y, x ∷ rest)
]

unfoldable pub take_front : List Str → Option (Str × List Str)
take_front [] = none
take_front (x ∷ xs) = some (x, xs)

-- Front or Back, and Remove of that element.
unfoldable pub take_end : Bool → List Str → Option (Str × List Str)
unfolding take_front take_back
take_end from_left xs = if from_left then take_front xs else take_back xs

-- `if index < 0 { index = length + index }`, and the test of the range.
unfoldable pub resolve_index : ℕ → ℤ → Option ℕ
resolve_index n index =
    let i = if ltb_ℤ index (pos 0) then pos n +ℤ index else index in
    if ltb_ℤ i (pos 0) || not (ltb_ℤ i (pos n)) then none else some (pos_part i)

-- SnapshotListIndex walks from the nearer end.
unfoldable pub nth_from_end : List Str → ℕ → Option Str
nth_from_end xs i =
    if ltb i (length xs / 2) then get_elem? xs i else get_elem? (reverse xs) (length xs - 1 - i)

-- The elements at `start` to `stop`; `idx` is the index of the first of the list.
unfoldable pub range_loop : ℕ → ℕ → ℕ → List Str → List Str
range_loop idx start stop [] = []
range_loop idx start stop (x ∷ xs) =
    let rest = range_loop (suc idx) start stop xs in
    if leb start idx && leb idx stop then x ∷ rest else if ltb stop idx then [] else rest

-- The first and the last index of Range, negative ones counted from the end and cut off.
unfoldable pub first_index : ℕ → ℤ → ℤ
first_index n start =
    let start' = if ltb_ℤ start (pos 0) then pos n +ℤ start else start in
    if ltb_ℤ start' (pos 0) then pos 0 else start'

unfoldable pub last_index : ℕ → ℤ → ℤ
last_index n stop =
    let stop' = if ltb_ℤ stop (pos 0) then pos n +ℤ stop else stop in
    if ltb_ℤ stop' (pos n) then stop' else pos n +ℤ negsuc 0

unfoldable pub range_between : ℤ → ℤ → List Str → List Str
unfolding range_loop
range_between first last xs =
    if ltb_ℤ last first then [] else range_loop 0 (pos_part first) (pos_part last) xs

-- Range on the elements.
unfoldable pub range_of : ℤ → ℤ → List Str → List Str
unfolding range_between first_index last_index
range_of start stop xs =
    let n = length xs in
    if n == 0 then [] else range_between (first_index n start) (last_index n stop) xs

-- `idx == index` for an index that may be negative
unfoldable pub is_at : ℕ → ℤ → Bool
is_at idx (pos n) = idx == n
is_at idx (negsuc n) = false

unfoldable pub replace_loop : ℕ → ℤ → Str → List Str → List Str
unfolding is_at
replace_loop idx index value [] = []
replace_loop idx index value (x ∷ xs) =
    let rest = replace_loop (suc idx) index value xs in
    if is_at idx index then value ∷ xs else x ∷ rest

-- `none` where no element is the pivot
unfoldable pub insert_loop : Str → Str → Bool → List Str → Option (List Str)
insert_loop pivot value before [] = none
insert_loop pivot value before (x ∷ xs) =
    let rest : Option (List Str) = elim (insert_loop pivot value before xs) [
      | none ↦ none
      | some ys ↦ some (x ∷ ys)
    ] in
    let here = if before then value ∷ x ∷ xs else x ∷ value ∷ xs in
    if str_eq x pivot then some here else rest

-- How many elements have been removed, and what is left. `limit` is `none` in the loop over all.
unfoldable pub below_limit : ℕ → Option ℕ → Bool
below_limit removed none = true
below_limit removed (some limit) = ltb removed limit

unfoldable pub remove_loop : ℕ → Option ℕ → Str → List Str → ℕ × List Str
unfolding below_limit
remove_loop removed limit element [] = (removed, [])
remove_loop removed limit element (x ∷ xs) =
    let gone = remove_loop (suc removed) limit element xs in
    let (n, ys) = remove_loop removed limit element xs in
    if below_limit removed limit
    then if str_eq x element then gone else (n, x ∷ ys)
    else (removed, x ∷ xs)

-- `-count` for a count of -(n + 1): that of the least int64 is negative again, and a negative limit
-- lets nothing through.
unfoldable pub negated_limit : ℕ → ℕ
negated_limit n = if ltb (suc n) (2 ^ 63) then suc n else 0

-- Removed from the left, from the right, or all.
unfoldable pub remove_elements : ℤ → Str → List Str → ℕ × List Str
unfolding remove_loop negated_limit
remove_elements (pos zero) element xs = remove_loop 0 none element xs
remove_elements (pos (suc n)) element xs = remove_loop 0 (some (suc n)) element xs
remove_elements (negsuc n) element xs =
    let (removed, rest) = remove_loop 0 (some (negated_limit n)) element (reverse xs) in
    (removed, reverse rest)

-- The index of the first such element; `none` is the result -1.
unfoldable pub pos_loop : ℕ → Str → List Str → Option ℕ
pos_loop idx value [] = none
pos_loop idx value (x ∷ xs) =
    let rest = pos_loop (suc idx) value xs in if str_eq x value then some idx else rest
