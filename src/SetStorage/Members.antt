-- ===== src/SetStorage/Members.antt =====
-- The loops of pkg/set_storage/set_storage.go over members. A map[string]struct{} is the list of its
-- keys, each once; `range` follows the list, and Go leaves the order open.
use gomembase.Prelude.{
  ℕ, zero, suc, ◌+◌, ◌%◌, Bool, true, false, List, [], ◌∷◌, Option, none, some, Str, str_eq, length,
  get_elem?, ltb, ◌==◌, if◌then◌else◌,
}
use gomembase.Prelude.Int.{pos, ◌+ℤ◌, wrap64, pos_part, neg_part}
use gomembase.Stdlib.{unix_nano}

-- `_, ok := m[s]`
unfoldable pub mem : Str → List Str → Bool
mem x [] = false
mem x (y ∷ ys) = if str_eq y x then true else mem x ys

-- `m[s] = struct{}{}`
unfoldable pub add_member : Str → List Str → List Str
unfolding mem
add_member x ms = if mem x ms then ms else x ∷ ms

-- `delete(m, s)`
unfoldable pub remove_member : Str → List Str → List Str
remove_member x [] = []
remove_member x (y ∷ ys) = let rest = remove_member x ys in if str_eq y x then rest else y ∷ rest

-- The members and how many of them are new.
unfoldable pub add_loop : List Str → List Str → ℕ → List Str × ℕ
unfolding add_member
add_loop [] ms added = (ms, added)
add_loop (x ∷ xs) ms added =
    let more = if mem x ms then added else suc added in add_loop xs (add_member x ms) more

-- The members that stay and how many have gone.
unfoldable pub remove_loop : List Str → List Str → ℕ → List Str × ℕ
unfolding mem remove_member
remove_loop [] ms removed = (ms, removed)
remove_loop (x ∷ xs) ms removed =
    let more = if mem x ms then suc removed else removed in remove_loop xs (remove_member x ms) more

-- `for item := range m { tempSet[item] = struct{}{} }`
unfoldable pub union_loop : List Str → List Str → List Str
unfolding add_member
union_loop [] acc = acc
union_loop (x ∷ xs) acc = union_loop xs (add_member x acc)

-- `for item := range m { delete(tempSet, item) }`
unfoldable pub diff_loop : List Str → List Str → List Str
unfolding remove_member
diff_loop [] acc = acc
diff_loop (x ∷ xs) acc = diff_loop xs (remove_member x acc)

-- The index of the smallest set: `i` is the index of the first set of the list, `best` the index of
-- the smallest set before, with `n` members.
unfoldable pub smallest_loop : ℕ → ℕ → ℕ → List (List Str) → ℕ
smallest_loop i best n [] = best
smallest_loop i best n (x ∷ xs) =
    let shorter = smallest_loop (suc i) i (length x) xs in
    let rest = smallest_loop (suc i) best n xs in if ltb (length x) n then shorter else rest

-- Whether every set but the smallest has the item.
unfoldable pub in_others : Str → ℕ → ℕ → List (List Str) → Bool
unfolding mem
in_others item smallest i [] = true
in_others item smallest i (x ∷ xs) =
    let rest = in_others item smallest (suc i) xs in
    if i == smallest then rest else if mem item x then rest else false

unfoldable pub inter_loop : ℕ → List (List Str) → List Str → List Str
unfolding in_others
inter_loop smallest sets [] = []
inter_loop smallest sets (x ∷ xs) =
    let rest = inter_loop smallest sets xs in if in_others x smallest 0 sets then x ∷ rest else rest

-- The members of all sets. `sets[0]` of no sets is a panic.
unfoldable pub inter_of : List (List Str) → Option (List Str)
unfolding smallest_loop inter_loop
inter_of [] = none
inter_of (x ∷ xs) =
    let smallest = smallest_loop 1 0 (length x) xs in
    elim (get_elem? (x ∷ xs) smallest) [
      | none ↦ none
      | some ms ↦ some (inter_loop smallest (x ∷ xs) ms)
    ]

-- The index that SRandMember computes from the clock, for the draw `i` of `n` members.
unfoldable pub rand_index : ℕ → ℕ → ℕ → ℕ
unfolding unix_nano wrap64
rand_index n t i = let z = wrap64 (unix_nano t +ℤ pos i) in (pos_part z + neg_part z) % n

-- `limit` draws with repetition; `clock i` is the time of the draw `i`.
unfoldable pub rand_loop : (ℕ → ℕ) → ℕ → ℕ → List Str → List Str
unfolding rand_index
rand_loop clock zero i ms = []
rand_loop clock (suc limit) i ms =
    let rest = rand_loop clock limit (suc i) ms in
    elim (get_elem? ms (rand_index (length ms) (clock i) i)) [ none ↦ rest | some m ↦ m ∷ rest ]
