-- ===== src/SetStorage/Laws.antt =====
-- The loops of pkg/set_storage/set_storage.go over members, by what is a member of their results.
use gomembase.Prelude.{
  ℕ, zero, suc, ◌+◌, ◌<◌, ◌≡◌, ◌≢◌, refl, sym, ap, ◌∙◌, Bool, true, false, List, [], ◌∷◌, none,
  some, Str, str_eq, str_eq_iff, length, get_elem?, ltb, if_intro, if_intro_eq, Option-cases, inl,
  inr, arith, if◌then◌else◌,
}
use gomembase.SetStorage.Members.{
  mem, add_member, remove_member, add_loop, remove_loop, union_loop, diff_loop, smallest_loop,
  in_others, inter_loop, inter_of,
}

pub mem-add_member :
    (x y : Str) (ms : List Str) → mem x (add_member y ms) ≡ (if str_eq y x then true else mem x ms)
unfolding add_member mem
mem-add_member x y ms = ground (arith, str_eq_iff y x)

pub mem-remove_member :
    (x y : Str) (ms : List Str)
    → mem x (remove_member y ms) ≡ (if str_eq y x then false else mem x ms)
unfolding remove_member mem
mem-remove_member x y [] = ground arith
mem-remove_member x y (z ∷ ms) =
    ground (arith, mem-remove_member x y ms, str_eq_iff z y, str_eq_iff z x, str_eq_iff y x)

pub mem-union_loop :
    (x : Str) (xs acc : List Str)
    → mem x (union_loop xs acc) ≡ (if mem x xs then true else mem x acc)
unfolding union_loop mem
mem-union_loop x [] acc = refl
mem-union_loop x (y ∷ xs) acc =
    ground (arith, mem-union_loop x xs (add_member y acc), mem-add_member x y acc)

pub mem-diff_loop :
    (x : Str) (xs acc : List Str)
    → mem x (diff_loop xs acc) ≡ (if mem x xs then false else mem x acc)
unfolding diff_loop mem
mem-diff_loop x [] acc = refl
mem-diff_loop x (y ∷ xs) acc =
    ground (arith, mem-diff_loop x xs (remove_member y acc), mem-remove_member x y acc)

pub mem-add_loop :
    (x : Str) (xs ms : List Str) (n : ℕ)
    → mem x (add_loop xs ms n).0 ≡ (if mem x xs then true else mem x ms)
unfolding add_loop mem
mem-add_loop x [] ms n = refl
mem-add_loop x (y ∷ xs) ms n = ground (
  arith,
  mem-add_loop x xs (add_member y ms) (if mem y ms then n else suc n),
  mem-add_member x y ms,
)

pub mem-remove_loop :
    (x : Str) (xs ms : List Str) (n : ℕ)
    → mem x (remove_loop xs ms n).0 ≡ (if mem x xs then false else mem x ms)
unfolding remove_loop mem
mem-remove_loop x [] ms n = refl
mem-remove_loop x (y ∷ xs) ms n = ground (
  arith,
  mem-remove_loop x xs (remove_member y ms) (if mem y ms then suc n else n),
  mem-remove_member x y ms,
)

-- Each member is there once.
abbrev pub Distinct : List Str → Type 0
Distinct [] = Unit
Distinct (x ∷ xs) = (mem x xs ≡ false) × Distinct xs

pub add_member-Distinct : (x : Str) (ms : List Str) → Distinct ms → Distinct (add_member x ms)
unfolding add_member
add_member-Distinct x ms d = if_intro_eq Distinct (mem x ms) (λ _. d) (λ new. (new, d))

pub add_loop-Distinct : (xs ms : List Str) (n : ℕ) → Distinct ms → Distinct (add_loop xs ms n).0
unfolding add_loop
add_loop-Distinct [] ms n d = d
add_loop-Distinct (x ∷ xs) ms n d =
    add_loop-Distinct xs (add_member x ms) (if mem x ms then n else suc n)
      (add_member-Distinct x ms d)

remove_member-Distinct : (x : Str) (ms : List Str) → Distinct ms → Distinct (remove_member x ms)
unfolding remove_member
remove_member-Distinct x [] d = d
remove_member-Distinct x (y ∷ ms) d =
    if_intro_eq Distinct (str_eq y x) (λ _. remove_member-Distinct x ms d.1)
      (λ other. (ground (arith, mem-remove_member y x ms, d.0), remove_member-Distinct x ms d.1))

-- The count of an addition is by how much the set grows.
pub add_loop-length :
    (xs ms : List Str) (n : ℕ) → (add_loop xs ms n).1 + length ms ≡ n + length (add_loop xs ms n).0
unfolding add_loop add_member
add_loop-length [] ms n = refl
add_loop-length (x ∷ xs) ms n =
    ground (arith, add_loop-length xs ms n, add_loop-length xs (x ∷ ms) (suc n))

length-remove_member :
    (x : Str) (ms : List Str)
    → Distinct ms
    → length (remove_member x ms) + (if mem x ms then 1 else 0) ≡ length ms
unfolding remove_member mem
length-remove_member x [] d = omega arith
length-remove_member x (y ∷ ms) d =
    ground (arith, length-remove_member x ms d.1, d.0, str_eq_iff y x)

pub remove_loop-length :
    (xs ms : List Str) (n : ℕ)
    → Distinct ms
    → (remove_loop xs ms n).1 + length (remove_loop xs ms n).0 ≡ n + length ms
unfolding remove_loop
remove_loop-length [] ms n d = refl
remove_loop-length (x ∷ xs) ms n d = ground (
  arith,
  length-remove_member x ms d,
  remove_loop-length xs (remove_member x ms) (if mem x ms then suc n else n)
      (remove_member-Distinct x ms d),
)

-- Whether all sets have the item.
unfoldable pub in_all : Str → List (List Str) → Bool
in_all x [] = true
in_all x (ms ∷ sets) = if mem x ms then in_all x sets else false

in_others-later :
    (x : Str) (smallest i : ℕ) (sets : List (List Str))
    → smallest < i
    → in_others x smallest i sets ≡ in_all x sets
unfolding in_others in_all
in_others-later x smallest i [] h = refl
in_others-later x smallest i (ms ∷ sets) h =
    ground (arith, in_others-later x smallest (suc i) sets (omega arith))

in_others-in_all :
    (x : Str) (i d : ℕ) (sets : List (List Str)) (ms : List Str)
    → get_elem? sets d ≡ some ms
    → mem x ms ≡ true
    → in_others x (i + d) i sets ≡ in_all x sets
unfolding in_others in_all
in_others-in_all x i d [] ms e h = absurd (ground (arith, e))
in_others-in_all x i zero (s ∷ sets) ms e h =
    ground (arith, e, h, in_others-later x (i + 0) (suc i) sets (omega arith))
in_others-in_all x i (suc d) (s ∷ sets) ms e h =
    let same : i + suc d ≡ suc i + d = omega arith in
    ground (arith, same, in_others-in_all x (suc i) d sets ms e h)

in_all-some :
    (x : Str) (d : ℕ) (sets : List (List Str)) (ms : List Str)
    → get_elem? sets d ≡ some ms
    → mem x ms ≡ false
    → in_all x sets ≡ false
unfolding in_all
in_all-some x d [] ms e h = absurd (ground (arith, e))
in_all-some x zero (s ∷ sets) ms e h = ground (arith, e, h)
in_all-some x (suc d) (s ∷ sets) ms e h = ground (arith, in_all-some x d sets ms e h)

mem-inter_loop :
    (x : Str) (i : ℕ) (sets : List (List Str)) (ms : List Str)
    → mem x (inter_loop i sets ms) ≡ (if mem x ms then in_others x i 0 sets else false)
unfolding inter_loop mem
mem-inter_loop x i sets [] = refl
mem-inter_loop x i sets (y ∷ ms) = ground (arith, mem-inter_loop x i sets ms, str_eq_iff y x)

smallest_loop_le :
    (i best n : ℕ) (sets : List (List Str))
    → best < i
    → smallest_loop i best n sets < i + length sets
unfolding smallest_loop
smallest_loop_le i best n [] h = omega arith
smallest_loop_le i best n (s ∷ sets) h =
    let shorter = smallest_loop_le (suc i) i (length s) sets (omega arith) in
    let rest = smallest_loop_le (suc i) best n sets (omega arith) in
    if_intro (λ m. m < i + length (s ∷ sets)) (ltb (length s) n) (omega (arith, shorter))
      (omega (arith, rest))

get_elem?-some : (sets : List (List Str)) (i : ℕ) → i < length sets → get_elem? sets i ≢ none
get_elem?-some [] i h = absurd (omega arith)
get_elem?-some (s ∷ sets) zero h = ground arith
get_elem?-some (s ∷ sets) (suc i) h = get_elem?-some sets i (omega arith)

inter_member :
    (x : Str) (i : ℕ) (sets : List (List Str)) (ms : List Str)
    → get_elem? sets i ≡ some ms
    → mem x (inter_loop i sets ms) ≡ in_all x sets
inter_member x i sets ms e =
    mem-inter_loop x i sets ms
    ∙ if_intro_eq (λ b. b ≡ in_all x sets) (mem x ms)
        (λ h.
          ap (λ j. in_others x j 0 sets) (let z : i ≡ 0 + i = omega arith in z)
          ∙ in_others-in_all x 0 i sets ms e h)
        (λ h. sym (in_all-some x i sets ms e h))

-- The intersection of one set or more is found, and has exactly the members of all of them.
pub inter_of-in_all :
    (first : List Str) (sets : List (List Str))
    → (ms : List Str) × (inter_of (first ∷ sets) ≡ some ms)
      × ((x : Str) → mem x ms ≡ in_all x (first ∷ sets))
unfolding inter_of
inter_of-in_all first sets =
    let all = first ∷ sets in
    let i = smallest_loop 1 0 (length first) sets in
    let inside : i < length all =
      omega (arith, smallest_loop_le 1 0 (length first) sets (omega arith)) in
    elim (Option-cases (get_elem? all i)) [
      | inl e ↦ absurd (get_elem?-some all i inside e)
      | inr (ms, e) ↦ (inter_loop i all ms, ground (arith, e), λ x. inter_member x i all ms e)
    ]
