-- ===== src/Expirations/Push.antt =====
-- heap.Push of the expiration heap (pkg/storage/heap.go): one more entry on the heap.
use gomembase.Prelude.{
  ℕ, suc, ◌-◌, ◌<◌, ◌≡◌, ◌⊎◌, refl, ◌∙◌, [], ◌∷◌, some, Str, inl, inr, Bool-cases, length,
  length-append, get_or-snoc, arith, ltb, ◌==◌, if◌then◌else◌,
}
use gomembase.Expirations.{ExpirationEntry, no_entry, Expirations, entry, addr_at, push, heap_push}
use gomembase.Expirations.Swap.{IsIndexed}
use gomembase.Expirations.Loops.{OnHeap, up-Moves}

module _ (x : Expirations) (k : Str) (t : ℕ) (v : IsIndexed x) where
  abbrev fresh : ExpirationEntry
  fresh = record { key = k; expires_at = t; index = some (length x.heap) }

  entry-push :
      (a : ℕ)
      → entry (push x k t) a ≡ (
          if ltb a (length x.store)
          then entry x a
          else if a == length x.store
          then fresh
          else no_entry)
  unfolding push
  entry-push a = get_or-snoc x.store fresh no_entry a

  addr_at-push :
      (i : ℕ)
      → addr_at (push x k t) i ≡ (
          if ltb i (length x.heap)
          then addr_at x i
          else if i == length x.heap
          then length x.store
          else 0)
  unfolding push
  addr_at-push i = get_or-snoc x.heap (length x.store) 0 i

  size-push : length (push x k t).heap ≡ suc (length x.heap)
  unfolding push
  size-push = omega (arith, length-append x.heap (length x.store ∷ []))

  store_size-push : length (push x k t).store ≡ suc (length x.store)
  unfolding push
  store_size-push = omega (arith, length-append x.store (fresh ∷ []))

  push-IsIndexed : IsIndexed (push x k t)
  push-IsIndexed = record {
    stored = λ i h. ground (arith, addr_at-push i, size-push, store_size-push, v.stored i);
    indexed = λ i h. ground (
      arith,
      addr_at-push i,
      size-push,
      entry-push (addr_at (push x k t) i),
      v.stored i,
      v.indexed i,
    );
  }

  -- What heap.Push leaves: the entries of before at their addresses, and the new one at the next.
  pub record Pushed (y : Expirations) : Type 0 where
    pub is_indexed : IsIndexed y
    pub map : y.map ≡ x.map
    pub old_key : (a : ℕ) → a < length x.store → (entry y a).key ≡ (entry x a).key
    pub old_expires_at :
        (a : ℕ) → a < length x.store → (entry y a).expires_at ≡ (entry x a).expires_at
    pub new_key : (entry y (length x.store)).key ≡ k
    pub new_expires_at : (entry y (length x.store)).expires_at ≡ t
    pub new_on : OnHeap y (length x.store)
    pub old_on : (a : ℕ) → OnHeap x a → OnHeap y a
    pub back : (a : ℕ) → OnHeap y a → OnHeap x a ⊎ (a ≡ length x.store)

  back-push : (a : ℕ) → OnHeap (push x k t) a → OnHeap x a ⊎ (a ≡ length x.store)
  back-push a (i, h, e) = elim (Bool-cases (ltb i (length x.heap))) [
    | inl old ↦ inl (i, ground arith, ground (arith, addr_at-push i, e))
    | inr new ↦ inr (ground (arith, addr_at-push i, size-push, h, e))
  ]

  pub heap_push-Pushed : Pushed (heap_push x k t)
  unfolding heap_push
  heap_push-Pushed =
      let p = push x k t in
      let m =
        up-Moves (length p.heap) p (length p.heap - 1) push-IsIndexed (omega (arith, size-push)) in
      let n = length x.heap in
      record {
        is_indexed = m.is_indexed;
        map = m.same.map ∙ (unfold push in refl);
        old_key = λ a h. ground (arith, m.same.key a, entry-push a);
        old_expires_at = λ a h. ground (arith, m.same.expires_at a, entry-push a);
        new_key = ground (arith, m.same.key (length x.store), entry-push (length x.store));
        new_expires_at =
            ground (arith, m.same.expires_at (length x.store), entry-push (length x.store));
        new_on =
            m.onto (length x.store) (n, omega (arith, size-push), ground (arith, addr_at-push n));
        old_on = λ a o. m.onto a (o.0, omega (arith, size-push), ground (arith, addr_at-push o.0));
        back = λ a o. back-push a (m.back a o);
      }
