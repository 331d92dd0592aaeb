-- ===== src/SetStorage/Membership.antt =====
-- What the operations without lock and line of pkg/set_storage/set_storage.go do to the members of
-- each set.
use gomembase.Prelude.{
  ℕ, ◌≡◌, refl, ap, ◌∙◌, fun_ext, Bool, true, false, List, [], ◌∷◌, Option, none, some, Str, str_eq,
  str_eq_iff, option_split, arith, if◌then◌else◌,
}
use gomembase.Prelude.Dict.{lookup}
use gomembase.Collection.{Value, is_expired}
use gomembase.Collection.Live.{live, lookup-delete_no_lock, lookup-store}
use gomembase.Collection.Contents.{
  contents-elements, elements, contents, update, view_of, contents-store, contents-delete_no_lock,
}
use gomembase.SetStorage.{
  SetStorage, added_value, store_or_delete, s_add_no_lock_and_no_wal, s_rem_no_lock_and_no_wal,
  s_move_no_lock_and_no_wal,
}
use gomembase.SetStorage.Members.{mem, add_loop, remove_loop}
use gomembase.SetStorage.Laws.{mem-add_loop, mem-remove_loop}

-- Which members the set under each key has.
abbrev pub Membership : Type 0
Membership = Str → Str → Bool

abbrev pub has : {L : Type 0} → ℕ → SetStorage L → Membership
has now s k m = mem m (contents now k s)

-- With members added, and with members taken away.
unfoldable pub with_members : Str → List Str → Membership → Membership
unfolding mem
with_members key members h k m =
    if str_eq key k then (if mem m members then true else h k m) else h k m

unfoldable pub without_members : Str → List Str → Membership → Membership
unfolding mem
without_members key members h k m =
    if str_eq key k then (if mem m members then false else h k m) else h k m

-- With the members under a key replaced.
unfoldable pub replaced : Str → (Str → Bool) → Membership → Membership
replaced key ms h k m = if str_eq key k then ms m else h k m

fresh-added_value :
    (now : ℕ) (e : Option ℕ) (o : Option (Value (List Str)))
    → is_expired now e ≡ false
    → live now o ≡ o
    → is_expired now (added_value now e o).expires_at ≡ false
unfolding live added_value is_expired
fresh-added_value now none none h g = h
fresh-added_value now (some t) none h g = h
fresh-added_value now none (some v) h g = ground (arith, g)
fresh-added_value now (some t) (some v) h g = h

value-added_value :
    (now : ℕ) (e : Option ℕ) (o : Option (Value (List Str)))
    → (added_value now e o).value ≡ elements o
unfolding added_value elements
value-added_value now none none = refl
value-added_value now (some t) none = refl
value-added_value now none (some v) = refl
value-added_value now (some t) (some v) = refl

pub elements-none : elements none ≡ []
unfolding elements
elements-none = refl

pub elements-some : (v : Value (List Str)) → elements (some v) ≡ v.value
unfolding elements
elements-some v = refl

pub mem_nil : (m : Str) → mem m [] ≡ false
unfolding mem
mem_nil m = refl

pub never : (now : ℕ) → is_expired now none ≡ false
unfolding is_expired
never now = refl

pub unexpired :
    (now : ℕ) (o : Option (Value (List Str))) (v : Value (List Str))
    → live now o ≡ o
    → o ≡ some v
    → is_expired now v.expires_at ≡ false
unfolding live
unexpired now o v h found = ground (arith, h, found)

module _ {L : Type 0} where
  pub s_add_no_lock_and_no_wal-has :
      (now : ℕ) (key k m : Str) (members : List Str) (e : Option ℕ) (s : SetStorage L)
      → is_expired now e ≡ false
      → live now (lookup key s.entries) ≡ lookup key s.entries
      → has now (s_add_no_lock_and_no_wal now key members e s).1 k m
        ≡ with_members key members (has now s) k m
  unfolding s_add_no_lock_and_no_wal with_members update
  s_add_no_lock_and_no_wal-has now key k m members e s h fresh =
      let o = lookup key s.entries in
      let v = added_value now e o in
      let ms = (add_loop members v.value 0).0 in
      ground (
        arith,
        contents-store now key k (record v { value = ms }) e s (fresh-added_value now e o h fresh),
        mem-add_loop m members v.value 0,
        value-added_value now e o,
        contents-elements now key s fresh,
        str_eq_iff key k,
      )

  contents-store_or_delete :
      (now : ℕ) (k j : Str) (v : Value (List Str)) (ms : List Str) (s : SetStorage L)
      → is_expired now v.expires_at ≡ false
      → contents now j (store_or_delete k v ms s) ≡ update k ms (view_of now s) j
  unfolding store_or_delete
  contents-store_or_delete now k j v [] s h = contents-delete_no_lock now k j s
  contents-store_or_delete now k j v (m ∷ ms) s h =
      contents-store now k j (record v { value = m ∷ ms }) none s h

  store_or_delete-Unexpired :
      (now : ℕ) (k j : Str) (v : Value (List Str)) (ms : List Str) (s : SetStorage L)
      → is_expired now v.expires_at ≡ false
      → live now (lookup j s.entries) ≡ lookup j s.entries
      → live now (lookup j (store_or_delete k v ms s).entries)
        ≡ lookup j (store_or_delete k v ms s).entries
  unfolding store_or_delete live
  store_or_delete-Unexpired now k j v [] s fresh h = ground (arith, lookup-delete_no_lock k j s, h)
  store_or_delete-Unexpired now k j v (m ∷ ms) s fresh h =
      ground (arith, lookup-store k j (record v { value = m ∷ ms }) none s, h, fresh)

  s_rem_no_lock_and_no_wal-Unexpired :
      (now : ℕ) (key k : Str) (members : List Str) (s : SetStorage L)
      → live now (lookup key s.entries) ≡ lookup key s.entries
      → live now (lookup k s.entries) ≡ lookup k s.entries
      → live now (lookup k (s_rem_no_lock_and_no_wal key members s).1.entries)
        ≡ lookup k (s_rem_no_lock_and_no_wal key members s).1.entries
  unfolding s_rem_no_lock_and_no_wal
  s_rem_no_lock_and_no_wal-Unexpired now key k members s fresh h =
      let Q : ℕ × SetStorage L → Type 0 =
        λ r. live now (lookup k r.1.entries) ≡ lookup k r.1.entries in
      option_split Q (lookup key s.entries)
        (λ missing. unfold live in ground (arith, lookup-delete_no_lock key k s, h))
        (λ v found.
          store_or_delete-Unexpired now key k v (remove_loop members v.value 0).0 s
            (unexpired now (lookup key s.entries) v fresh found) h)

  pub s_rem_no_lock_and_no_wal-has :
      (now : ℕ) (key k m : Str) (members : List Str) (s : SetStorage L)
      → live now (lookup key s.entries) ≡ lookup key s.entries
      → has now (s_rem_no_lock_and_no_wal key members s).1 k m
        ≡ without_members key members (has now s) k m
  unfolding s_rem_no_lock_and_no_wal without_members update
  s_rem_no_lock_and_no_wal-has now key k m members s fresh =
      let Q : ℕ × SetStorage L → Type 0 =
        λ r. has now r.1 k m ≡ without_members key members (has now s) k m in
      option_split Q (lookup key s.entries)
        (λ missing. ground (
          arith,
          contents-delete_no_lock now key k s,
          contents-elements now key s fresh,
          missing,
          elements-none,
          mem_nil m,
          str_eq_iff key k,
        ))
        (λ v found. ground (
          arith,
          mem-remove_loop m members v.value 0,
          contents-elements now key s fresh,
          found,
          elements-some v,
          str_eq_iff key k,
          contents-store_or_delete now key k v (remove_loop members v.value 0).0 s
              (unexpired now (lookup key s.entries) v fresh found),
        ))

  -- Moving a member that is not taken from the destination.
  pub s_move_no_lock_and_no_wal-has :
      (now : ℕ) (src dst k m member : Str) (s : SetStorage L)
      → live now (lookup src s.entries) ≡ lookup src s.entries
      → live now (lookup dst s.entries) ≡ lookup dst s.entries
      → has now (s_move_no_lock_and_no_wal now src dst member s) k m
        ≡ with_members dst (member ∷ []) (without_members src (member ∷ []) (has now s)) k m
  unfolding s_move_no_lock_and_no_wal
  s_move_no_lock_and_no_wal-has now src dst k m member s fresh fresh' =
      let s' = (s_rem_no_lock_and_no_wal src (member ∷ []) s).1 in
      s_add_no_lock_and_no_wal-has now dst k m (member ∷ []) none s' (never now)
        (s_rem_no_lock_and_no_wal-Unexpired now src dst (member ∷ []) s fresh fresh')
      ∙ ap (λ h. with_members dst (member ∷ []) h k m)
          (fun_ext (λ k'.
            fun_ext (λ m'. s_rem_no_lock_and_no_wal-has now src k' m' (member ∷ []) s fresh)))
