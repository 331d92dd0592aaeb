-- ===== src/Expirations/Loops.antt =====
-- up and down of container/heap over the expiration heap (pkg/storage/heap.go) only move entries.
use gomembase.Prelude.{
  ℕ, zero, suc, ◌+◌, ◌-◌, ◌*◌, ◌/◌, ◌≤◌, ◌<◌, ◌≡◌, refl, ◌∙◌, Bool-cases, inl, inr, length, arith,
  leb, ◌==◌, if◌then◌else◌,
}
use gomembase.Expirations.{Expirations, addr_at, swap, less, up, down, smaller_child}
use gomembase.Expirations.Swap.{
  IsIndexed, SameEntries, SameEntries-refl, SameEntries-trans, addr_at-swap, swap-SameEntries,
  swap-IsIndexed,
}

-- The address stands at some place of the heap.
abbrev pub OnHeap : Expirations → ℕ → Type 0
OnHeap x a = (i : ℕ) × (i < length x.heap) × (addr_at x i ≡ a)

-- `y` has the entries of `x` on its heap, in other places below `m`.
pub record Moves (m : ℕ) (x y : Expirations) : Type 0 where
  pub same : SameEntries x y
  pub is_indexed : IsIndexed y
  pub onto : (a : ℕ) → OnHeap x a → OnHeap y a
  pub back : (a : ℕ) → OnHeap y a → OnHeap x a
  pub fixed : (k : ℕ) → m ≤ k → addr_at y k ≡ addr_at x k

pub Moves-refl : (m : ℕ) (x : Expirations) → IsIndexed x → Moves m x x
Moves-refl m x v = record {
  same = SameEntries-refl x;
  is_indexed = v;
  onto = λ a o. o;
  back = λ a o. o;
  fixed = λ k h. refl;
}

pub Moves-trans : {x y z : Expirations} (m n : ℕ) → n ≤ m → Moves m x y → Moves n y z → Moves m x z
Moves-trans m n le p q = record {
  same = SameEntries-trans p.same q.same;
  is_indexed = q.is_indexed;
  onto = λ a o. q.onto a (p.onto a o);
  back = λ a o. p.back a (q.back a o);
  fixed = λ k h. q.fixed k (omega arith) ∙ p.fixed k h;
}

module _ (m : ℕ) (x : Expirations) (i j : ℕ) (v : IsIndexed x) (hi : i < length x.heap)
    (hj : j < length x.heap) where
  -- Where the place `k` is found after the swap.
  swapped : ℕ → ℕ
  swapped k = if k == i then j else if k == j then i else k

  addr_at-swapped : (k : ℕ) → addr_at (swap x i j) (swapped k) ≡ addr_at x k
  unfolding swapped
  addr_at-swapped k = ground (
    arith,
    addr_at-swap x i j v hi hj j,
    addr_at-swap x i j v hi hj i,
    addr_at-swap x i j v hi hj k,
  )

  addr_at_back : (k : ℕ) → addr_at x (swapped k) ≡ addr_at (swap x i j) k
  unfolding swapped
  addr_at_back k = ground (arith, addr_at-swap x i j v hi hj k)

  swapped-lt : (k : ℕ) → k < length x.heap → swapped k < length x.heap
  unfolding swapped
  swapped-lt k h = ground arith

  pub swap-Moves : i < m → j < m → Moves m x (swap x i j)
  swap-Moves im jm =
      let same = swap-SameEntries x i j v hi hj in
      record {
        same = same;
        is_indexed = swap-IsIndexed x i j v hi hj;
        onto = λ a o.
            (swapped o.0, omega (arith, same.size, swapped-lt o.0 o.1), addr_at-swapped o.0 ∙ o.2);
        back =
            λ a o. (swapped o.0, swapped-lt o.0 (omega (arith, same.size)), addr_at_back o.0 ∙ o.2);
        fixed = λ k h. ground (arith, addr_at-swap x i j v hi hj k);
      }

pub up-Moves :
    (fuel : ℕ) (x : Expirations) (j : ℕ)
    → IsIndexed x
    → j < length x.heap
    → Moves (suc j) x (up fuel x j)
unfolding up
up-Moves zero x j v h = Moves-refl (suc j) x v
up-Moves (suc fuel) x j v h =
    let i = (j - 1) / 2 in
    elim (Bool-cases (i == j)) [
      | inl top ↦ rw top (Moves-refl (suc j) x v)
      | inr below ↦ rw below (elim (Bool-cases (less x j i)) [
        | inr settled ↦ rw settled (Moves-refl (suc j) x v)
        | inl rises ↦ rw rises (
            let first = swap-Moves (suc j) x i j v (omega arith) h (omega arith) (omega arith) in
            Moves-trans (suc j) (suc i) (omega arith) first
              (up-Moves fuel (swap x i j) i first.is_indexed (omega (arith, first.same.size))))
      ])
    ]

smaller_child_bounds :
    (x : Expirations) (i n : ℕ)
    → 2 * i + 1 < n
    → (smaller_child x i n < n) × (i < smaller_child x i n)
unfolding smaller_child
smaller_child_bounds x i n h = ground arith

pub down-Moves :
    (fuel : ℕ) (x : Expirations) (i n : ℕ)
    → IsIndexed x
    → n ≤ length x.heap
    → i < n
    → Moves n x (down fuel x i n).0 × ((down fuel x i n).1 < n)
unfolding down
down-Moves zero x i n v h lt = (Moves-refl n x v, lt)
down-Moves (suc fuel) x i n v h lt =
    let j = smaller_child x i n in
    elim (Bool-cases (leb n (2 * i + 1))) [
      | inl leaf ↦ rw leaf (Moves-refl n x v, lt)
      | inr inner ↦ rw inner (
          let (jn, ij) = smaller_child_bounds x i n (ground arith) in
          elim (Bool-cases (less x j i)) [
            | inr settled ↦ rw settled (Moves-refl n x v, lt)
            | inl sinks ↦ rw sinks (
                let first = swap-Moves n x i j v (omega arith) (omega arith) lt jn in
                let (rest, place) =
                  down-Moves fuel (swap x i j) j n first.is_indexed (omega (arith, first.same.size))
                    jn in
                (Moves-trans n n (omega arith) first rest, place))
          ])
    ]
