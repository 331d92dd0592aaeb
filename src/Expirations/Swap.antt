-- ===== src/Expirations/Swap.antt =====
-- One swap of the expiration heap (pkg/storage/heap.go): what it moves and what it leaves alone.
use gomembase.Prelude.{
  ℕ, ◌<◌, ◌≡◌, refl, ◌∙◌, Option, some, length, set, length-set, get_or-set, arith, ◌==◌,
  if◌then◌else◌,
}
use gomembase.Expirations.{no_entry, Expirations, entry, addr_at, entry_at, set_index, swap}

-- The entry at each place of the heap knows its place.
pub record IsIndexed (x : Expirations) : Type 0 where
  pub stored : (i : ℕ) → i < length x.heap → addr_at x i < length x.store
  pub indexed : (i : ℕ) → i < length x.heap → (entry_at x i).index ≡ some i

-- The same entries, up to their indices, with the same map, in heaps of one size.
pub record SameEntries (x y : Expirations) : Type 0 where
  pub map : y.map ≡ x.map
  pub size : length y.heap ≡ length x.heap
  pub store_size : length y.store ≡ length x.store
  pub key : (a : ℕ) → (entry y a).key ≡ (entry x a).key
  pub expires_at : (a : ℕ) → (entry y a).expires_at ≡ (entry x a).expires_at

pub SameEntries-refl : (x : Expirations) → SameEntries x x
SameEntries-refl x = record {
  map = refl;
  size = refl;
  store_size = refl;
  key = λ a. refl;
  expires_at = λ a. refl;
}

pub SameEntries-trans : {x y z : Expirations} → SameEntries x y → SameEntries y z → SameEntries x z
SameEntries-trans p q = record {
  map = q.map ∙ p.map;
  size = q.size ∙ p.size;
  store_size = q.store_size ∙ p.store_size;
  key = λ a. q.key a ∙ p.key a;
  expires_at = λ a. q.expires_at a ∙ p.expires_at a;
}

pub entry-set_index :
    (x : Expirations) (a b : ℕ) (i : Option ℕ)
    → a < length x.store
    → entry (set_index x a i) b ≡ (if a == b then record (entry x a) { index = i } else entry x b)
entry-set_index x a b i h = get_or-set x.store a b (record (entry x a) { index = i }) no_entry h

index-set_index :
    (x : Expirations) (a b : ℕ) (i : Option ℕ)
    → a < length x.store
    → (entry (set_index x a i) b).index ≡ (if a == b then i else (entry x b).index)
index-set_index x a b i h = ground (arith, entry-set_index x a b i h)

pub set_index-SameEntries :
    (x : Expirations) (a : ℕ) (i : Option ℕ) → a < length x.store → SameEntries x (set_index x a i)
set_index-SameEntries x a i h = record {
  map = refl;
  size = refl;
  store_size = length-set x.store a (record (entry x a) { index = i });
  key = λ b. ground (arith, entry-set_index x a b i h);
  expires_at = λ b. ground (arith, entry-set_index x a b i h);
}

module _ (x : Expirations) (i j : ℕ) (v : IsIndexed x) (hi : i < length x.heap)
    (hj : j < length x.heap) where
  -- The state between the two writes of an index.
  abbrev moved : Expirations
  moved = record x { heap = set (set x.heap i (addr_at x j)) j (addr_at x i) }

  abbrev half : Expirations
  half = set_index moved (addr_at x j) (some i)

  half_size : length half.store ≡ length x.store
  half_size = length-set x.store (addr_at x j) (record (entry x (addr_at x j)) { index = some i })

  pub addr_at-swap :
      (k : ℕ)
      → addr_at (swap x i j) k
        ≡ (if j == k then addr_at x i else if i == k then addr_at x j else addr_at x k)
  unfolding swap
  addr_at-swap k = ground (
    arith,
    get_or-set (set x.heap i (addr_at x j)) j k (addr_at x i) 0,
    get_or-set x.heap i k (addr_at x j) 0,
    length-set x.heap i (addr_at x j),
  )

  index-swap :
      (c : ℕ)
      → (entry (swap x i j) c).index ≡ (
          if addr_at x i == c
          then some j
          else if addr_at x j == c
          then some i
          else (entry x c).index)
  unfolding swap
  index-swap c = ground (
    arith,
    index-set_index half (addr_at x i) c (some j),
    index-set_index moved (addr_at x j) c (some i),
    half_size,
    v.stored i,
    v.stored j,
  )

  moved-SameEntries : SameEntries x moved
  moved-SameEntries = record {
    map = refl;
    size =
        length-set (set x.heap i (addr_at x j)) j (addr_at x i) ∙ length-set x.heap i (addr_at x j);
    store_size = refl;
    key = λ a. refl;
    expires_at = λ a. refl;
  }

  pub swap-SameEntries : SameEntries x (swap x i j)
  unfolding swap
  swap-SameEntries = SameEntries-trans moved-SameEntries (
      SameEntries-trans (set_index-SameEntries moved (addr_at x j) (some i) (v.stored j hj)) (
        set_index-SameEntries half (addr_at x i) (some j)
          (omega (arith, half_size, v.stored i hi))))

  pub swap-IsIndexed : IsIndexed (swap x i j)
  swap-IsIndexed =
      let same = swap-SameEntries in
      record {
        stored = λ k h.
            ground (
              arith,
              addr_at-swap k,
              v.stored i,
              v.stored j,
              v.stored k,
              same.size,
              same.store_size,
            );
        indexed = λ k h. ground (
          arith,
          addr_at-swap k,
          index-swap (addr_at (swap x i j) k),
          same.size,
          v.indexed i,
          v.indexed j,
          v.indexed k,
        );
      }
