-- ===== src/Expirations/Queue.antt =====
-- Scheduling and cancelling expirations: the heap and the map of an engine (pkg/storage/heap.go and
-- the calls of pkg/storage/storage.go) stay two views of the same entries.
use gomembase.Prelude.{
  ℕ, suc, refl, ◌<◌, ◌≡◌, ◌∙◌, sym, ap, Option, none, some, Str, str_eq, str_eq_iff, inl, inr,
  Option-cases, Bool-cases, length, arith, if◌then◌else◌,
}
use gomembase.Prelude.Dict.{
  Dict, lookup, insert, delete, lookup-insert, lookup-delete, lookup-empty,
}
use gomembase.Expirations.{
  entry_at, addr_at, Expirations, no_expirations, reschedule, extend, entry, heap_push, heap_remove,
  cancel, schedule,
}
use gomembase.Expirations.Swap.{IsIndexed}
use gomembase.Expirations.Loops.{OnHeap}
use gomembase.Expirations.Push.{heap_push-Pushed}
use gomembase.Expirations.Remove.{Removed, heap_remove-Removed}

-- Heap and map hold the same entries, one for each key, and each entry knows its place.
pub record IsConsistent (x : Expirations) : Type 0 where
  pub is_indexed : IsIndexed x
  pub mapped_on : (k : Str) (a : ℕ) → lookup k x.map ≡ some a → OnHeap x a
  pub mapped_key : (k : Str) (a : ℕ) → lookup k x.map ≡ some a → (entry x a).key ≡ k
  pub on_mapped : (a : ℕ) → OnHeap x a → lookup (entry x a).key x.map ≡ some a

-- When a key is due to expire, by the map.
unfoldable pub due : Str → Expirations → Option ℕ
due k x = elim (lookup k x.map) [ none ↦ none | some a ↦ some (entry x a).expires_at ]

pub IsConsistent-empty : IsConsistent no_expirations
IsConsistent-empty = record {
  is_indexed = record {
    stored = λ i h. absurd (omega arith);
    indexed = λ i h. absurd (omega arith);
  };
  mapped_on = λ k a e. absurd (ground (arith, e, lookup-empty {V = ℕ} k));
  mapped_key = λ k a e. absurd (ground (arith, e, lookup-empty {V = ℕ} k));
  on_mapped = λ a o. absurd (omega (arith, o.1));
}

remap-IsIndexed : {y : Expirations} (m : Dict ℕ) → IsIndexed y → IsIndexed (record y { map = m })
remap-IsIndexed m v = record { stored = v.stored; indexed = v.indexed }

module _ (x : Expirations) (v : IsConsistent x) where
  stored_of_mapped : (k : Str) (a : ℕ) → lookup k x.map ≡ some a → a < length x.store
  stored_of_mapped k a e =
      let (i, h, at) = v.mapped_on k a e in omega (arith, at, v.is_indexed.stored i h)

  stored_of_on : (a : ℕ) → OnHeap x a → a < length x.store
  stored_of_on a (i, h, at) = omega (arith, at, v.is_indexed.stored i h)

  module _ (k : Str) (t : ℕ) (free : lookup k x.map ≡ none) where
    abbrev address : ℕ
    address = length x.store

    schedule-lookup :
        (j : Str)
        → lookup j (schedule k t x).map ≡ (if str_eq k j then some address else lookup j x.map)
    unfolding schedule
    schedule-lookup j =
        lookup-insert k j address (heap_push x k t).map
        ∙ rw (heap_push-Pushed x k t v.is_indexed).map

    -- After a key that had no expiration is scheduled, the two views agree again.
    pub schedule-IsConsistent : IsConsistent (schedule k t x)
    unfolding schedule
    schedule-IsConsistent =
        let p = heap_push-Pushed x k t v.is_indexed in
        let y = heap_push x k t in
        record {
          is_indexed = remap-IsIndexed (insert k address y.map) p.is_indexed;
          mapped_on = λ j a e. elim (Bool-cases (str_eq k j)) [
            | inl same ↦
                (p.new_on.0, p.new_on.1, p.new_on.2 ∙ ground (arith, schedule-lookup j, same, e))
            | inr other ↦ p.old_on a (v.mapped_on j a (ground (arith, schedule-lookup j, other, e)))
          ];
          mapped_key = λ j a e. elim (Bool-cases (str_eq k j)) [
            | inl same ↦ ground (arith, schedule-lookup j, same, e, p.new_key, str_eq_iff k j)
            | inr other ↦
                let e' : lookup j x.map ≡ some a = ground (arith, schedule-lookup j, other, e) in
                p.old_key a (stored_of_mapped j a e') ∙ v.mapped_key j a e'
          ];
          on_mapped = λ a o. elim (p.back a o) [
            | inr new ↦
                ground (arith, schedule-lookup (entry y a).key, new, p.new_key, str_eq_iff k k)
            | inl old ↦ ground (
              arith,
              schedule-lookup (entry x a).key,
              p.old_key a (stored_of_on a old),
              v.on_mapped a old,
              free,
              str_eq_iff k (entry x a).key,
            )
          ];
        }

    -- The key is then due at the time given, and the other keys when they were.
    pub due-schedule : (j : Str) → due j (schedule k t x) ≡ (if str_eq k j then some t else due j x)
    unfolding due schedule
    due-schedule j =
        let p = heap_push-Pushed x k t v.is_indexed in
        elim (Option-cases (lookup j x.map)) [
          | inl e ↦ ground (arith, schedule-lookup j, p.new_expires_at, e)
          | inr (a, e) ↦ ground (
            arith,
            schedule-lookup j,
            p.new_expires_at,
            e,
            p.old_expires_at a (stored_of_mapped j a e),
          )
        ]

  module _ (k : Str) (a : ℕ) (found : lookup k x.map ≡ some a) where
    abbrev taken : Expirations
    taken = heap_remove x (entry x a).index

    abbrev cleared : Expirations
    cleared = record taken { map = delete k taken.map }

    cancel-cleared : cancel k x ≡ cleared
    unfolding cancel
    cancel-cleared = rw found

    taken-Removed : Removed x a taken
    taken-Removed =
        let (i, h, at) = v.mapped_on k a found in
        let index : (entry x a).index ≡ some i =
          ap (λ b. (entry x b).index) (sym at) ∙ v.is_indexed.indexed i h in
        rw (index, ← at) (heap_remove-Removed x i v.is_indexed h)

    cleared-lookup :
        (j : Str) → lookup j cleared.map ≡ (if str_eq k j then none else lookup j x.map)
    cleared-lookup j = lookup-delete k j taken.map ∙ rw taken-Removed.same_map

    cleared-IsConsistent : IsConsistent cleared
    cleared-IsConsistent =
        let r = taken-Removed in
        record {
          is_indexed = remap-IsIndexed (delete k taken.map) r.is_indexed;
          mapped_on = λ j b e.
              let e' : lookup j x.map ≡ some b = ground (arith, cleared-lookup j, e) in
              r.others b (v.mapped_on j b e') (λ same. ground (
                arith,
                cleared-lookup j,
                e,
                same,
                v.mapped_key j b e',
                v.mapped_key k a found,
                str_eq_iff k j,
              ));
          mapped_key = λ j b e. r.key b ∙ v.mapped_key j b (ground (arith, cleared-lookup j, e));
          on_mapped = λ b o.
              let (o', ne) = r.back b o in
              ground (
                arith,
                cleared-lookup (entry x b).key,
                r.key b,
                v.on_mapped b o',
                ne,
                found,
                str_eq_iff k (entry x b).key,
              );
        }

    due-cleared : (j : Str) → due j cleared ≡ (if str_eq k j then none else due j x)
    unfolding due
    due-cleared j = elim (Option-cases (lookup j x.map)) [
      | inl e ↦ ground (arith, cleared-lookup j, e)
      | inr (b, e) ↦ ground (arith, cleared-lookup j, e, taken-Removed.expires_at b)
    ]

  cancel_unscheduled : (k : Str) → lookup k x.map ≡ none → cancel k x ≡ x
  unfolding cancel
  cancel_unscheduled k e = rw e

  -- Cancelling a key, scheduled or not, leaves the two views in agreement.
  pub cancel-IsConsistent : (k : Str) → IsConsistent (cancel k x)
  cancel-IsConsistent k = elim (Option-cases (lookup k x.map)) [
    | inl e ↦ rw (cancel_unscheduled k e) v
    | inr (a, e) ↦ rw (cancel-cleared k a e) (cleared-IsConsistent k a e)
  ]

  -- The key is then not due, and the other keys when they were.
  pub due-cancel : (k j : Str) → due j (cancel k x) ≡ (if str_eq k j then none else due j x)
  unfolding due
  due-cancel k j = elim (Option-cases (lookup k x.map)) [
    | inl e ↦ rw (cancel_unscheduled k e) (ground (arith, e, str_eq_iff k j))
    | inr (a, e) ↦ rw (cancel-cleared k a e) (due-cleared k a e j)
  ]

  pub cancel-free : (k : Str) → lookup k (cancel k x).map ≡ none
  cancel-free k = elim (Option-cases (lookup k x.map)) [
    | inl e ↦ rw (cancel_unscheduled k e) e
    | inr (a, e) ↦
        rw (cancel-cleared k a e) (ground (arith, cleared-lookup k a e k, str_eq_iff k k))
  ]

  -- Cancelling the key of the first entry takes one entry off the heap.
  pub cancel-first :
      0 < length x.heap → suc (length (cancel (entry_at x 0).key x).heap) ≡ length x.heap
  cancel-first h =
      let a = addr_at x 0 in
      let found = v.on_mapped a (0, h, refl) in
      rw (cancel-cleared (entry x a).key a found) (taken-Removed (entry x a).key a found).fewer

  -- The first entry is due for its key.
  pub due-first : 0 < length x.heap → due (entry_at x 0).key x ≡ some (entry_at x 0).expires_at
  unfolding due
  due-first h = let found = v.on_mapped (addr_at x 0) (0, h, refl) in ground (arith, found)

module _ (x : Expirations) (v : IsConsistent x) (k : Str) where
  pub reschedule-IsConsistent : (e : Option ℕ) → IsConsistent (reschedule k e x)
  reschedule-IsConsistent none = cancel-IsConsistent x v k
  reschedule-IsConsistent (some t) =
      schedule-IsConsistent (cancel k x) (cancel-IsConsistent x v k) k t (cancel-free x v k)

  pub due-reschedule :
      (e : Option ℕ) (j : Str) → due j (reschedule k e x) ≡ (if str_eq k j then e else due j x)
  due-reschedule none j = due-cancel x v k j
  due-reschedule (some t) j =
      due-schedule (cancel k x) (cancel-IsConsistent x v k) k t (cancel-free x v k) j
      ∙ ground (arith, due-cancel x v k j)

  pub extend-IsConsistent : (e : Option ℕ) → IsConsistent (extend k e x)
  extend-IsConsistent none = v
  extend-IsConsistent (some t) = reschedule-IsConsistent (some t)

  pub due-extend :
      (e : Option ℕ) (j : Str)
      → due j (extend k e x)
        ≡ elim e [ none ↦ due j x | some t ↦ if str_eq k j then some t else due j x ]
  due-extend none j = refl
  due-extend (some t) j = due-reschedule (some t) j
