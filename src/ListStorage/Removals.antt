-- ===== src/ListStorage/Removals.antt =====
-- SnapshotListIndex and Remove of pkg/list_storage/list_storage.go: the index from the nearer end, and
-- how many elements a removal takes.
use gomembase.Prelude.{
  ℕ, zero, suc, ◌+◌, ◌-◌, ◌^◌, ◌≤◌, ◌<◌, ◌≡◌, ◌≢◌, refl, List, [], ◌∷◌, ◌++◌, reverse,
  reverse-append, Option, none, some, Str, str_eq, length, length-append, get_elem?, ltb, if_intro,
  if_intro_eq, arith, if◌then◌else◌,
}
use mathlib.Core.List.{reverse-reverse}
use gomembase.Prelude.Int.{ℤ, pos, negsuc, pos_part, neg_part}
use gomembase.ListStorage.Elements.{
  nth_from_end, remove_loop, remove_elements, below_limit, negated_limit,
}

get_elem?-append :
    (xs ys : List Str) (i : ℕ)
    → get_elem? (xs ++ ys) i
      ≡ (if ltb i (length xs) then get_elem? xs i else get_elem? ys (i - length xs))
get_elem?-append [] ys i = ground arith
get_elem?-append (x ∷ xs) ys zero = ground arith
get_elem?-append (x ∷ xs) ys (suc i) = ground (arith, get_elem?-append xs ys i)

length-reverse : (xs : List Str) → length (reverse xs) ≡ length xs
length-reverse [] = refl
length-reverse (x ∷ xs) =
    ground
      (arith, length-reverse xs, reverse-append (x ∷ []) xs, length-append (reverse xs) (x ∷ []))

get_elem?-reverse :
    (xs : List Str) (i : ℕ)
    → i < length xs
    → get_elem? (reverse xs) (length xs - 1 - i) ≡ get_elem? xs i
get_elem?-reverse [] i h = absurd (omega arith)
get_elem?-reverse (x ∷ xs) zero h = ground (
  arith,
  reverse-append (x ∷ []) xs,
  length-reverse xs,
  get_elem?-append (reverse xs) (x ∷ []) (length xs),
)
get_elem?-reverse (x ∷ xs) (suc i) h = ground (
  arith,
  get_elem?-reverse xs i (omega arith),
  reverse-append (x ∷ []) xs,
  length-reverse xs,
  get_elem?-append (reverse xs) (x ∷ []) (length xs - 1 - i),
)

-- SnapshotListIndex walks from the end that is nearer, and reaches the element at the index.
pub nth_from_end-get_elem? :
    (xs : List Str) (i : ℕ) → i < length xs → nth_from_end xs i ≡ get_elem? xs i
unfolding nth_from_end
nth_from_end-get_elem? xs i h = ground (arith, get_elem?-reverse xs i h)

remove_loop-length :
    (n : ℕ) (limit : Option ℕ) (element : Str) (xs : List Str)
    → (remove_loop n limit element xs).0 + length (remove_loop n limit element xs).1 ≡ n + length xs
unfolding remove_loop below_limit
remove_loop-length n limit element [] = refl
remove_loop-length n none element (x ∷ xs) =
    ground (arith, remove_loop-length (suc n) none element xs, remove_loop-length n none element xs)
remove_loop-length n (some l) element (x ∷ xs) = ground (
  arith,
  remove_loop-length (suc n) (some l) element xs,
  remove_loop-length n (some l) element xs,
)

remove_loop_grows :
    (n : ℕ) (limit : Option ℕ) (element : Str) (xs : List Str)
    → n ≤ (remove_loop n limit element xs).0
unfolding remove_loop below_limit
remove_loop_grows n limit element [] = omega arith
remove_loop_grows n none element (x ∷ xs) =
    ground (arith, remove_loop_grows (suc n) none element xs, remove_loop_grows n none element xs)
remove_loop_grows n (some l) element (x ∷ xs) =
    ground (
      arith,
      remove_loop_grows (suc n) (some l) element xs,
      remove_loop_grows n (some l) element xs,
    )

-- A loop that removes nothing leaves the list.
remove_loop_nothing :
    (n : ℕ) (limit : Option ℕ) (element : Str) (xs : List Str)
    → (remove_loop n limit element xs).0 ≡ n
    → (remove_loop n limit element xs).1 ≡ xs
unfolding remove_loop below_limit
remove_loop_nothing n limit element [] h = refl
remove_loop_nothing n none element (x ∷ xs) h =
    ground
      (arith, h, remove_loop_grows (suc n) none element xs, remove_loop_nothing n none element xs)
remove_loop_nothing n (some l) element (x ∷ xs) h = ground (
  arith,
  h,
  remove_loop_grows (suc n) (some l) element xs,
  remove_loop_nothing n (some l) element xs,
)

pub remove_elements_nothing :
    (count : ℤ) (element : Str) (xs : List Str)
    → (remove_elements count element xs).0 ≡ 0
    → (remove_elements count element xs).1 ≡ xs
unfolding remove_elements
remove_elements_nothing (pos zero) element xs h = remove_loop_nothing 0 none element xs h
remove_elements_nothing (pos (suc n)) element xs h =
    remove_loop_nothing 0 (some (suc n)) element xs h
remove_elements_nothing (negsuc n) element xs h = ground (
  arith,
  remove_loop_nothing 0 (some (negated_limit n)) element (reverse xs) h,
  reverse-reverse xs,
)

remove_loop_le :
    (n limit : ℕ) (element : Str) (xs : List Str)
    → n ≤ limit
    → (remove_loop n (some limit) element xs).0 ≤ limit
unfolding remove_loop below_limit
remove_loop_le n limit element [] h = h
remove_loop_le n limit element (x ∷ xs) h =
    let Below : ℕ × List Str → Type 0 = λ r. r.0 ≤ limit in
    if_intro_eq Below (ltb n limit)
      (λ below.
        if_intro Below (str_eq x element)
          (remove_loop_le (suc n) limit element xs (ground (arith, below)))
          (remove_loop_le n limit element xs h))
      (λ done. h)

remove_elements-length :
    (count : ℤ) (element : Str) (xs : List Str)
    → (remove_elements count element xs).0 + length (remove_elements count element xs).1 ≡ length xs
unfolding remove_elements
remove_elements-length (pos zero) element xs = omega (arith, remove_loop-length 0 none element xs)
remove_elements-length (pos (suc n)) element xs =
    omega (arith, remove_loop-length 0 (some (suc n)) element xs)
remove_elements-length (negsuc n) element xs =
    let r = remove_loop 0 (some (negated_limit n)) element (reverse xs) in
    omega (
      arith,
      remove_loop-length 0 (some (negated_limit n)) element (reverse xs),
      length-reverse xs,
      length-reverse r.1,
    )

negated_limit_le : (n : ℕ) → negated_limit n ≤ suc n
unfolding negated_limit
negated_limit_le n = if_intro (λ m. m ≤ suc n) (ltb (suc n) (2 ^ 63)) (omega arith) (omega arith)

-- Remove with a count other than 0 takes away at most as many elements as the count without its sign,
-- and what it takes away and what is left are together as many as before.
pub remove_elements-bounds :
    (count : ℤ) (element : Str) (xs : List Str)
    → count ≢ pos 0
    → ((remove_elements count element xs).0 ≤ pos_part count + neg_part count)
      × ((remove_elements count element xs).0 + length (remove_elements count element xs).1
          ≡ length xs)
unfolding remove_elements
remove_elements-bounds (pos zero) element xs h = absurd (h refl)
remove_elements-bounds (pos (suc n)) element xs h =
    let most = remove_loop_le 0 (suc n) element xs (omega arith) in
    (omega (arith, most), remove_elements-length (pos (suc n)) element xs)
remove_elements-bounds (negsuc n) element xs h =
    let most = remove_loop_le 0 (negated_limit n) element (reverse xs) (omega arith) in
    (omega (arith, most, negated_limit_le n), remove_elements-length (negsuc n) element xs)
