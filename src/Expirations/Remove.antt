-- ===== src/Expirations/Remove.antt =====
-- heap.Remove of the expiration heap (pkg/storage/heap.go): the entry at an index leaves the heap.
use gomembase.Prelude.{
  ℕ, suc, ◌+◌, ◌-◌, ◌<◌, ◌≡◌, ◌≢◌, refl, ◌∙◌, sym, none, some, true, inl, inr, Bool-cases, length,
  take, get_or-take, length-take_le, length-set, arith, ltb, ◌==◌, if◌then◌else◌,
}
use gomembase.Expirations.{Expirations, entry, addr_at, swap, down, pop, detach, heap_remove}
use gomembase.Expirations.Swap.{IsIndexed, entry-set_index, addr_at-swap}
use gomembase.Expirations.Loops.{
  OnHeap, Moves, Moves-refl, Moves-trans, swap-Moves, up-Moves, down-Moves,
}

detach-Moves :
    (x : Expirations) (i : ℕ)
    → IsIndexed x
    → i < length x.heap
    → Moves (length x.heap) x (detach x i)
      × (addr_at (detach x i) (length x.heap - 1) ≡ addr_at x i)
unfolding detach
detach-Moves x i v h =
    let n = length x.heap - 1 in
    let m = length x.heap in
    elim (Bool-cases (n == i)) [
      | inl last ↦ rw last (Moves-refl m x v, ground arith)
      | inr inner ↦ rw inner (
          let first = swap-Moves m x i n v h (omega arith) h (omega arith) in
          let (sunk, place) =
            down-Moves (n + 1) (swap x i n) i n first.is_indexed (omega (arith, first.same.size))
              (ground arith) in
          let at : addr_at (down (n + 1) (swap x i n) i n).0 n ≡ addr_at x i =
            sunk.fixed n (omega arith) ∙ ground (arith, addr_at-swap x i n v h (omega arith) n) in
          let both = Moves-trans m n (omega arith) first sunk in
          elim (Bool-cases (ltb i (down (n + 1) (swap x i n) i n).1)) [
            | inl moved ↦ rw moved (both, at)
            | inr stayed ↦ rw stayed (
                let rises =
                  up-Moves (i + 1) (down (n + 1) (swap x i n) i n).0 i both.is_indexed
                    (omega (arith, both.same.size)) in
                (Moves-trans m (suc i) (omega arith) both rises, rises.fixed n (ground arith) ∙ at))
          ])
    ]

-- What heap.Remove leaves: the other entries.
pub record Removed (x : Expirations) (r : ℕ) (y : Expirations) : Type 0 where
  pub is_indexed : IsIndexed y
  pub same_map : y.map ≡ x.map
  pub fewer : suc (length y.heap) ≡ length x.heap
  pub key : (a : ℕ) → (entry y a).key ≡ (entry x a).key
  pub expires_at : (a : ℕ) → (entry y a).expires_at ≡ (entry x a).expires_at
  pub others : (a : ℕ) → OnHeap x a → a ≢ r → OnHeap y a
  pub back : (a : ℕ) → OnHeap y a → OnHeap x a × (a ≢ r)

module _ (x : Expirations) (n : ℕ) (v : IsIndexed x) (size : length x.heap ≡ suc n) where
  abbrev cut : Expirations
  cut = record x { heap = take n x.heap }

  addr_at-pop : (i : ℕ) → i < n → addr_at (pop x) i ≡ addr_at x i
  unfolding pop
  addr_at-pop i h = ground (arith, get_or-take (length x.heap - 1) x.heap i 0)

  size-pop : length (pop x).heap ≡ n
  unfolding pop
  size-pop = omega (arith, length-take_le (length x.heap - 1) x.heap)

  entry-pop :
      (b : ℕ)
      → entry (pop x) b
        ≡ (if addr_at x n == b then record (entry x (addr_at x n)) { index = none } else entry x b)
  unfolding pop
  entry-pop b =
      let e : length x.heap - 1 ≡ n = omega arith in
      ground (
        arith,
        e,
        entry-set_index (record x { heap = take (length x.heap - 1) x.heap })
            (addr_at x (length x.heap - 1)) b none (v.stored (length x.heap - 1) (omega arith)),
      )

  store_size-pop : length (pop x).store ≡ length x.store
  unfolding pop
  store_size-pop =
      length-set x.store (addr_at x (length x.heap - 1))
        (record (entry x (addr_at x (length x.heap - 1))) { index = none })

  unique : (i : ℕ) → i < n → addr_at x i ≢ addr_at x n
  unique i h e = ground (arith, v.indexed i, v.indexed n)

  pop-Removed : Removed x (addr_at x n) (pop x)
  pop-Removed = record {
    is_indexed = record {
      stored = λ i h. ground (arith, addr_at-pop i, size-pop, store_size-pop, v.stored i);
      indexed = λ i h.
          ground (
            arith,
            addr_at-pop i,
            size-pop,
            entry-pop (addr_at (pop x) i),
            v.indexed i,
            v.indexed n,
          );
    };
    same_map = (unfold pop in refl);
    fewer = omega (arith, size-pop, size);
    key = λ a. ground (arith, entry-pop a);
    expires_at = λ a. ground (arith, entry-pop a);
    others = λ a o ne.
        let below : o.0 < n = ground (arith, o.1, o.2, ne) in
        (o.0, omega (arith, size-pop), addr_at-pop o.0 below ∙ o.2);
    back = λ a o.
        let below : o.0 < n = omega (arith, size-pop, o.1) in
        (
          (o.0, omega arith, sym (addr_at-pop o.0 below) ∙ o.2),
          λ e. unique o.0 below (sym (addr_at-pop o.0 below) ∙ o.2 ∙ e),
        );
  }

-- heap.Remove at the index of an entry that is on the heap takes that entry off, and no other.
pub heap_remove-Removed :
    (x : Expirations) (i : ℕ)
    → IsIndexed x
    → i < length x.heap
    → Removed x (addr_at x i) (heap_remove x (some i))
unfolding heap_remove
heap_remove-Removed x i v h =
    let (m, last) = detach-Moves x i v h in
    let n = length x.heap - 1 in
    let p = pop-Removed (detach x i) n m.is_indexed (omega (arith, m.same.size)) in
    let inside : ltb i (length x.heap) ≡ true = ground arith in
    rw inside (record {
      is_indexed = p.is_indexed;
      same_map = p.same_map ∙ m.same.map;
      fewer = p.fewer ∙ m.same.size;
      key = λ a. p.key a ∙ m.same.key a;
      expires_at = λ a. p.expires_at a ∙ m.same.expires_at a;
      others = λ a o ne. p.others a (m.onto a o) (λ e. ne (e ∙ last));
      back = λ a o. let (o', ne) = p.back a o in (m.back a o', λ e. ne (e ∙ sym last));
    })
