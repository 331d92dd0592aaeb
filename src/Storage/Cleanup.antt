-- ===== src/Storage/Cleanup.antt =====
-- CleanupExpired of pkg/storage/storage.go: when it ends, and what it takes away.
use gomembase.Prelude.{
  ℕ, zero, suc, ◌≤◌, ◌<◌, ◌≡◌, refl, ◌∙◌, sym, ap, false, ◌⊎◌, inl, inr, Bool-cases, Option, none,
  some, Str, str_eq, str_eq_iff, length, ltb, arith, if◌then◌else◌,
}
use gomembase.Prelude.Dict.{lookup, lookup-delete}
use gomembase.Expirations.{entry_at}
use gomembase.Expirations.Queue.{cancel-first, due-first}
use gomembase.Storage.{Payload, Storage, delete_no_lock}
use gomembase.Storage.Ops.{cleanup_loop, cleanup_expired}
use gomembase.Storage.Invariant.{IsValid, expiry, delete_no_lock-IsValid}

-- The condition under which the loop goes on is false.
abbrev pub IsFinished : {L : Type 0} → ℕ → Storage L → Type 0
IsFinished now s = (length s.expirations.heap ≡ 0) ⊎ (now < (entry_at s.expirations 0).expires_at)

-- Under the key is what was there, or nothing in place of a payload that expires by `now`.
abbrev pub KeptOrDue : ℕ → Option Payload → Option Payload → Type 0
KeptOrDue now before after =
    (after ≡ before) ⊎ ((after ≡ none) × ((t : ℕ) × (expiry before ≡ some t) × (t ≤ now)))

KeptOrDue-trans :
    (now : ℕ) (a b c : Option Payload) → KeptOrDue now a b → KeptOrDue now b c → KeptOrDue now a c
unfolding expiry
KeptOrDue-trans now a b c (inl same) (inl same') = inl (same' ∙ same)
KeptOrDue-trans now a b c (inl same) (inr (gone, (t, at, by))) =
    inr (gone, (t, ap expiry (sym same) ∙ at, by))
KeptOrDue-trans now a b c (inr (gone, why)) (inl same') = inr (same' ∙ gone, why)
KeptOrDue-trans now a b c (inr (gone, why)) (inr (gone', why')) = inr (gone', why)

module _ {L : Type 0} where
  delete_no_lock-heap :
      (s : Storage L)
      → IsValid s
      → 0 < length s.expirations.heap
      → suc (length (delete_no_lock (entry_at s.expirations 0).key s).expirations.heap)
        ≡ length s.expirations.heap
  unfolding delete_no_lock
  delete_no_lock-heap s v h = cancel-first s.expirations v.consistent h

  lookup-delete_no_lock :
      (k j : Str) (s : Storage L)
      → lookup j (delete_no_lock k s).entries ≡ (if str_eq k j then none else lookup j s.entries)
  unfolding delete_no_lock
  lookup-delete_no_lock k j s = lookup-delete k j s.entries

  cleanup_loop-IsFinished :
      (fuel now : ℕ) (s : Storage L)
      → IsValid s
      → length s.expirations.heap ≤ fuel
      → IsFinished now (cleanup_loop fuel now s)
  unfolding cleanup_loop
  cleanup_loop-IsFinished zero now s v h = inl (omega arith)
  cleanup_loop-IsFinished (suc fuel) now s v h =
      let key = (entry_at s.expirations 0).key in
      elim (Bool-cases (ltb 0 (length s.expirations.heap))) [
        | inr empty ↦ rw empty (inl (ground (arith, empty)))
        | inl more ↦ rw more (elim (Bool-cases (ltb now (entry_at s.expirations 0).expires_at)) [
          | inl later ↦ rw later (inr (ground (arith, later)))
          | inr expired ↦ rw expired (
              cleanup_loop-IsFinished fuel now (delete_no_lock key s)
                (delete_no_lock-IsValid key s v)
                (omega (arith, h, delete_no_lock-heap s v (ground (arith, more)))))
        ])
      ]

  deleted-KeptOrDue :
      (now : ℕ) (s : Storage L) (j : Str)
      → IsValid s
      → 0 < length s.expirations.heap
      → ltb now (entry_at s.expirations 0).expires_at ≡ false
      → KeptOrDue now
          (lookup j s.entries)
          (lookup j (delete_no_lock (entry_at s.expirations 0).key s).entries)
  deleted-KeptOrDue now s j v more expired =
      let first = entry_at s.expirations 0 in
      elim (Bool-cases (str_eq first.key j)) [
        | inr other ↦ inl (ground (arith, other, lookup-delete_no_lock first.key j s))
        | inl same ↦ inr (
          ground (arith, same, lookup-delete_no_lock first.key j s),
          (
            first.expires_at,
            ground (
              arith,
              same,
              str_eq_iff first.key j,
              v.agree first.key,
              due-first s.expirations v.consistent more,
            ),
            ground (arith, expired),
          ),
        )
      ]

  cleanup_loop-KeptOrDue :
      (fuel now : ℕ) (s : Storage L) (j : Str)
      → IsValid s
      → KeptOrDue now (lookup j s.entries) (lookup j (cleanup_loop fuel now s).entries)
  unfolding cleanup_loop
  cleanup_loop-KeptOrDue zero now s j v = inl refl
  cleanup_loop-KeptOrDue (suc fuel) now s j v =
      let key = (entry_at s.expirations 0).key in
      elim (Bool-cases (ltb 0 (length s.expirations.heap))) [
        | inr empty ↦ rw empty (inl refl)
        | inl more ↦ rw more (elim (Bool-cases (ltb now (entry_at s.expirations 0).expires_at)) [
          | inl later ↦ rw later (inl refl)
          | inr expired ↦ rw expired (
              KeptOrDue-trans now (lookup j s.entries) (lookup j (delete_no_lock key s).entries)
                (lookup j (cleanup_loop fuel now (delete_no_lock key s)).entries)
                (deleted-KeptOrDue now s j v (ground (arith, more)) expired)
                (cleanup_loop-KeptOrDue fuel now (delete_no_lock key s) j
                  (delete_no_lock-IsValid key s v)))
        ])
      ]

  -- CleanupExpired on a state whose data and expirations agree ends with an empty heap or a first
  -- entry that expires later. Each key then has what it had, or nothing in place of a payload whose
  -- expiration is not later than the time of the call.
  pub cleanup_expired-IsFinished :
      (now : ℕ) (s : Storage L)
      → IsValid s
      → IsFinished now (cleanup_expired now s)
        × ((j : Str)
            → KeptOrDue now (lookup j s.entries) (lookup j (cleanup_expired now s).entries))
  unfolding cleanup_expired
  cleanup_expired-IsFinished now s v = (
    cleanup_loop-IsFinished (length s.expirations.heap) now s v (omega arith),
    λ j. cleanup_loop-KeptOrDue (length s.expirations.heap) now s j v,
  )
