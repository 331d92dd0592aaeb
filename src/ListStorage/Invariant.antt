-- ===== src/ListStorage/Invariant.antt =====
-- The data and the expirations of pkg/list_storage/list_storage.go agree after each operation, and
-- the operations that a live list allows do not panic.
use gomembase.Prelude.{
  ℕ, ◌≡◌, ◌≢◌, refl, sym, ap, Bool, true, false, List, [], ◌∷◌, Option, none, some, Str, if_intro,
  option_intro, arith,
}
use gomembase.Prelude.Int.{ℤ}
use gomembase.Prelude.Dict.{lookup}
use gomembase.Collection.{Value, is_expired, store}
use gomembase.Collection.Invariant.{IsValid, expiry, or_old, delete_no_lock-IsValid, store-IsValid}
use gomembase.Collection.Panic.{Returns, IfReturns, IfReturns_elim}
use gomembase.ListStorage.{
  ListStorage, ◌>>=◌, store_or_delete, pushed_value, moved_value, delete_if_expired,
  push_no_lock_and_no_wal, pop_no_lock_and_no_wal, move_no_lock_and_no_wal,
  replace_no_lock_and_no_wal, insert_no_lock_and_no_wal, remove_no_lock_and_no_wal,
}
use gomembase.ListStorage.Elements.{
  push_values, take_front, take_back, take_end, replace_loop, insert_loop, remove_elements,
}

pub bind-IfReturns :
    {A B : Type 0} (P : B → Type 0) (o : Option A) (f : A → Option B)
    → ((a : A) → o ≡ some a → IfReturns P (f a))
    → IfReturns P (o >>= f)
bind-IfReturns P none f k = tt
bind-IfReturns P (some a) f k = k a refl

take_back_some : (x : Str) (xs : List Str) → take_back (x ∷ xs) ≢ none
unfolding take_back
take_back_some x xs = ground arith

pub take_end_some : (left : Bool) (xs : List Str) → xs ≢ [] → take_end left xs ≢ none
unfolding take_end take_front
take_end_some left [] h = absurd (h refl)
take_end_some true (x ∷ xs) h = ground arith
take_end_some false (x ∷ xs) h = take_back_some x xs

expiry-pushed_value :
    (now : ℕ) (e : Option ℕ) (o : Option (Value (List Str)))
    → (pushed_value now e o).expires_at ≡ or_old e (expiry o)
unfolding pushed_value expiry
expiry-pushed_value now none none = refl
expiry-pushed_value now (some t) none = refl
expiry-pushed_value now none (some v) = refl
expiry-pushed_value now (some t) (some v) = refl

pub bind-Returns :
    {A B : Type 0} {P : A → Type 0} (Q : B → Type 0) (o : Option A) (f : A → Option B)
    → Returns P o
    → ((a : A) → P a → Returns Q (f a))
    → Returns Q (o >>= f)
bind-Returns Q none f h k = absurd h
bind-Returns Q (some a) f h k = k a h

pub bind_some :
    {A B : Type 0} (o : Option A) (f : A → Option B)
    → o ≢ none
    → ((a : A) → o ≡ some a → f a ≢ none)
    → (o >>= f) ≢ none
bind_some none f h k = absurd (h refl)
bind_some (some a) f h k = k a refl

expiry-moved_value :
    (now : ℕ) (o : Option (Value (List Str))) → (moved_value now o).expires_at ≡ expiry o
unfolding moved_value expiry
expiry-moved_value now none = refl
expiry-moved_value now (some v) = refl

module _ {L : Type 0} where
  delete_if_expired-IsValid :
      (now : ℕ) (k : Str) (s : ListStorage L) → IsValid s → IsValid (delete_if_expired now k s)
  unfolding delete_if_expired
  delete_if_expired-IsValid now k s v =
      option_intro IsValid (lookup k s.entries) v
        (λ x. if_intro IsValid (is_expired now x.expires_at) (delete_no_lock-IsValid k s v) v)

  pub push_no_lock_and_no_wal-IsValid :
      (now : ℕ) (k : Str) (values : List Str) (e : Option ℕ) (left : Bool) (s : ListStorage L)
      → IsValid s
      → IsValid (push_no_lock_and_no_wal now k values e left s)
  unfolding push_no_lock_and_no_wal
  push_no_lock_and_no_wal-IsValid now k values e left s v =
      let s' = delete_if_expired now k s in
      let x = pushed_value now e (lookup k s'.entries) in
      store-IsValid k (record x { value = push_values left values x.value }) e s'
        (expiry-pushed_value now e (lookup k s'.entries)) (delete_if_expired-IsValid now k s v)

  -- The same list with other elements.
  kept-IsValid :
      (k : Str) (v : Value (List Str)) (xs : List Str) (s : ListStorage L)
      → lookup k s.entries ≡ some v
      → IsValid s
      → IsValid (store k (record v { value = xs }) none s)
  unfolding expiry
  kept-IsValid k v xs s h = store-IsValid k (record v { value = xs }) none s (sym (ap expiry h))

  store_or_delete-IsValid :
      (k : Str) (v : Value (List Str)) (xs : List Str) (s : ListStorage L)
      → lookup k s.entries ≡ some v
      → IsValid s
      → IsValid (store_or_delete k v xs s)
  unfolding store_or_delete
  store_or_delete-IsValid k v [] s h = delete_no_lock-IsValid k s
  store_or_delete-IsValid k v (x ∷ xs) s h = kept-IsValid k v (x ∷ xs) s h

  pub pop_no_lock_and_no_wal-IsValid :
      (k : Str) (left : Bool) (s : ListStorage L)
      → IsValid s
      → IfReturns (λ r. IsValid r.1) (pop_no_lock_and_no_wal k left s)
  unfolding pop_no_lock_and_no_wal
  pop_no_lock_and_no_wal-IsValid k left s h = bind-IfReturns _ (lookup k s.entries) _ (λ v found.
      bind-IfReturns _ (take_end left v.value) _
        (λ taken _. store_or_delete-IsValid k v taken.1 s found h))

  pub move_no_lock_and_no_wal-IsValid :
      (now : ℕ) (from to : Str) (src_left dst_left : Bool) (s : ListStorage L)
      → IsValid s
      → IfReturns (λ r. IsValid r.1) (move_no_lock_and_no_wal now from to src_left dst_left s)
  unfolding move_no_lock_and_no_wal
  move_no_lock_and_no_wal-IsValid now from to src_left dst_left s h =
      bind-IfReturns _ (pop_no_lock_and_no_wal from src_left s) _ (λ popped found.
        let old = lookup to popped.1.entries in
        let v = moved_value now old in
        store-IsValid to (record v { value = push_values dst_left (popped.0 ∷ []) v.value }) none
          popped.1 (expiry-moved_value now old)
          (IfReturns_elim (λ r. IsValid r.1) (pop_no_lock_and_no_wal from src_left s)
            (pop_no_lock_and_no_wal-IsValid from src_left s h) found))

  pub replace_no_lock_and_no_wal-IsValid :
      (k : Str) (i : ℤ) (value : Str) (s : ListStorage L)
      → IsValid s
      → IfReturns IsValid (replace_no_lock_and_no_wal k i value s)
  unfolding replace_no_lock_and_no_wal
  replace_no_lock_and_no_wal-IsValid k i value s h =
      bind-IfReturns _ (lookup k s.entries) _
        (λ v found. kept-IsValid k v (replace_loop 0 i value v.value) s found h)

  pub insert_no_lock_and_no_wal-IsValid :
      (k pivot value : Str) (before : Bool) (s : ListStorage L)
      → IsValid s
      → IfReturns (λ r. IsValid r.1) (insert_no_lock_and_no_wal k pivot value before s)
  unfolding insert_no_lock_and_no_wal
  insert_no_lock_and_no_wal-IsValid k pivot value before s h =
      bind-IfReturns _ (lookup k s.entries) _ (λ v found.
        option_intro (IfReturns (λ r. IsValid r.1)) (insert_loop pivot value before v.value) h
          (λ xs. kept-IsValid k v xs s found h))

  pub remove_no_lock_and_no_wal-IsValid :
      (k : Str) (count : ℤ) (element : Str) (s : ListStorage L)
      → IsValid s
      → IfReturns (λ r. IsValid r.1) (remove_no_lock_and_no_wal k count element s)
  unfolding remove_no_lock_and_no_wal
  remove_no_lock_and_no_wal-IsValid k count element s h =
      bind-IfReturns _ (lookup k s.entries) _
        (λ v found. store_or_delete-IsValid k v (remove_elements count element v.value).1 s found h)
