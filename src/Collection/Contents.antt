-- ===== src/Collection/Contents.antt =====
-- What the list and set engines (pkg/list_storage, pkg/set_storage) show under each key: the view that
-- forgets creation times, expirations, the heap and whether an empty list is stored.
use gomembase.Prelude.{
  ℕ, ◌≡◌, ap, false, List, [], Option, none, some, Str, str_eq, str_eq_iff, arith, if◌then◌else◌,
}
use gomembase.Prelude.Dict.{lookup}
use gomembase.Logger.{WalLogger}
use gomembase.Stdlib.{GoText}
use gomembase.Collection.{Value, Collection, is_expired, drop_expired, delete_no_lock, store}
use gomembase.Collection.Live.{
  live, lookup-delete_no_lock, lookup-store, lookup-drop_expired, live_idempotent,
}

-- The elements or members of what is there, and none otherwise.
unfoldable pub elements : Option (Value (List Str)) → List Str
elements none = []
elements (some v) = v.value

unfoldable pub contents : {L : Type 0} → ℕ → Str → Collection (List Str) L → List Str
unfolding live elements
contents now k s = elements (live now (lookup k s.entries))

abbrev pub View : Type 0
View = Str → List Str

unfoldable pub update : Str → List Str → View → View
update k xs view j = if str_eq k j then xs else view j

abbrev pub view_of : {L : Type 0} → ℕ → Collection (List Str) L → View
view_of now s k = contents now k s

module _ {L : Type 0} where
  pub contents-store :
      (now : ℕ) (k j : Str) (x : Value (List Str)) (e : Option ℕ) (s : Collection (List Str) L)
      → is_expired now x.expires_at ≡ false
      → contents now j (store k x e s) ≡ update k x.value (view_of now s) j
  unfolding contents update elements live
  contents-store now k j x e s h = ground (arith, h, lookup-store k j x e s)

  pub contents-delete_no_lock :
      (now : ℕ) (k j : Str) (s : Collection (List Str) L)
      → contents now j (delete_no_lock k s) ≡ update k [] (view_of now s) j
  unfolding contents update elements live
  contents-delete_no_lock now k j s = ground (arith, lookup-delete_no_lock k j s)

  pub contents-drop_expired :
      ⦃w : WalLogger L⦄ ⦃g : GoText⦄ (id : Str) (now : ℕ) (k j : Str) (s : Collection (List Str) L)
      → contents now j (drop_expired id now k s) ≡ contents now j s
  unfolding contents
  contents-drop_expired id now k j s = ground (
    arith,
    lookup-drop_expired id now k j s,
    live_idempotent now (lookup k s.entries),
    str_eq_iff k j,
  )

pub live-view :
    {L : Type 0} (now : ℕ) (k : Str) (s : Collection (List Str) L) (v : Value (List Str))
    → lookup k s.entries ≡ some v
    → is_expired now v.expires_at ≡ false
    → view_of now s k ≡ v.value
unfolding contents live elements
live-view now k s v found fresh = ground (arith, found, fresh)

pub contents-elements :
    {L : Type 0} (now : ℕ) (k : Str) (s : Collection (List Str) L)
    → live now (lookup k s.entries) ≡ lookup k s.entries
    → contents now k s ≡ elements (lookup k s.entries)
unfolding contents
contents-elements now k s h = ap elements h
