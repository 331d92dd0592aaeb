-- ===== src/Collection/Live.antt =====
-- What the engines of pkg/list_storage, pkg/set_storage and pkg/zset_storage store under a key once
-- an expired value has been dropped.
use gomembase.Prelude.{
  ℕ, ◌≡◌, refl, Option, none, some, Str, str_eq, str_eq_iff, arith, if◌then◌else◌,
}
use gomembase.Prelude.Dict.{lookup, lookup-insert, lookup-delete}
use gomembase.Logger.{WalLogger}
use gomembase.Stdlib.{GoText}
use gomembase.Collection.{
  Value, Collection, is_expired, delete_no_lock, store, log, drop, drop_expired, read_value,
}

-- A stored value that has not expired.
unfoldable pub live : {A : Type 0} → ℕ → Option (Value A) → Option (Value A)
unfolding is_expired
live now none = none
live now (some v) = if is_expired now v.expires_at then none else some v

pub live_idempotent :
    {A : Type 0} (now : ℕ) (o : Option (Value A)) → live now (live now o) ≡ live now o
unfolding live is_expired
live_idempotent now none = refl
live_idempotent now (some v) = ground arith

module _ {A L : Type 0} where
  pub lookup-delete_no_lock :
      (k j : Str) (s : Collection A L)
      → lookup j (delete_no_lock k s).entries ≡ (if str_eq k j then none else lookup j s.entries)
  unfolding delete_no_lock
  lookup-delete_no_lock k j s = lookup-delete k j s.entries

  pub lookup-store :
      (k j : Str) (x : Value A) (e : Option ℕ) (s : Collection A L)
      → lookup j (store k x e s).entries ≡ (if str_eq k j then some x else lookup j s.entries)
  unfolding store
  lookup-store k j x e s = lookup-insert k j x s.entries

  module _ ⦃w : WalLogger L⦄ ⦃g : GoText⦄ (id : Str) where
    pub lookup-drop :
        (k j : Str) (s : Collection A L)
        → lookup j (drop id k s).entries ≡ (if str_eq k j then none else lookup j s.entries)
    unfolding drop log
    lookup-drop k j s = lookup-delete_no_lock k j s

    pub lookup-drop_expired :
        (now : ℕ) (k j : Str) (s : Collection A L)
        → lookup j (drop_expired id now k s).entries
          ≡ (if str_eq k j then live now (lookup k s.entries) else lookup j s.entries)
    unfolding drop_expired live
    lookup-drop_expired now k j s = ground (arith, lookup-drop k j s, str_eq_iff k j)

    pub read_value-live :
        {R : Type 0} (now : ℕ) (k : Str) (missing : R) (f : A → R) (s : Collection A L)
        → read_value id now k missing f s ≡ (
          elim (live now (lookup k s.entries)) [ none ↦ missing | some v ↦ f v.value ],
          drop_expired id now k s,
        )
    unfolding read_value drop_expired live
    read_value-live now k missing f s = ground arith
