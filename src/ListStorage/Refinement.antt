-- ===== src/ListStorage/Refinement.antt =====
-- The list engine (pkg/list_storage/list_storage.go) as a map from keys to lists: the view that
-- forgets creation times, expirations, the heap and whether an empty list is stored.
use gomembase.Prelude.{
  ℕ, ◌≡◌, Bool, false, List, [], ◌∷◌, none, some, Str, str_eq_iff, str_eq_refl, length, arith,
}
use gomembase.Prelude.Int.{ℤ, pos}
use gomembase.Prelude.Dict.{lookup}
use gomembase.Collection.{Value, is_expired}
use gomembase.Collection.Live.{live, lookup-delete_no_lock}
use gomembase.Collection.Contents.{
  elements, contents, View, update, view_of, contents-store, contents-delete_no_lock,
}
use gomembase.ListStorage.{ListStorage, store_or_delete, delete_if_expired}
use gomembase.ListStorage.Elements.{
  push_values, take_end, resolve_index, replace_loop, insert_loop, remove_elements,
}

-- What a pop and a move make of a view.
unfoldable pub popped_view : Bool → Str → View → View
unfolding take_end update
popped_view left k view = elim (take_end left (view k)) [ none ↦ view | some t ↦ update k t.1 view ]

unfoldable pub moved_view : Str → Str → Bool → Bool → View → View
unfolding take_end update push_values
moved_view from to src_left dst_left view = elim (take_end src_left (view from)) [
  | none ↦ view
  | some t ↦
      let rest = update from t.1 view in update to (push_values dst_left (t.0 ∷ []) (rest to)) rest
]

-- What a replacement, an insertion and a removal make of a view.
unfoldable pub replaced_view : Str → ℤ → Str → View → View
unfolding resolve_index replace_loop update
replaced_view k i value view = elim (resolve_index (length (view k)) i) [
  | none ↦ view
  | some n ↦ update k (replace_loop 0 (pos n) value (view k)) view
]

unfoldable pub inserted_view : Str → Str → Str → Bool → View → View
unfolding insert_loop update
inserted_view k pivot value before view = elim (insert_loop pivot value before (view k)) [
  | none ↦ view
  | some xs ↦ update k xs view
]

unfoldable pub removed_view : Str → ℤ → Str → View → View
unfolding remove_elements update
removed_view k count element view = update k (remove_elements count element (view k)).1 view

module _ {L : Type 0} where
  pub contents-store_or_delete :
      (now : ℕ) (k j : Str) (v : Value (List Str)) (xs : List Str) (s : ListStorage L)
      → is_expired now v.expires_at ≡ false
      → contents now j (store_or_delete k v xs s) ≡ update k xs (view_of now s) j
  unfolding store_or_delete
  contents-store_or_delete now k j v [] s h = contents-delete_no_lock now k j s
  contents-store_or_delete now k j v (x ∷ xs) s h =
      contents-store now k j (record v { value = x ∷ xs }) none s h

  pub contents-delete_if_expired :
      (now : ℕ) (k j : Str) (s : ListStorage L)
      → contents now j (delete_if_expired now k s) ≡ contents now j s
  unfolding contents delete_if_expired live elements
  contents-delete_if_expired now k j s = ground (arith, lookup-delete_no_lock k j s, str_eq_iff k j)

  -- After the head of a push no expired list is left under the key.
  pub live-delete_if_expired :
      (now : ℕ) (k : Str) (s : ListStorage L)
      → lookup k (delete_if_expired now k s).entries ≡ live now (lookup k s.entries)
  unfolding delete_if_expired live
  live-delete_if_expired now k s = ground (arith, lookup-delete_no_lock k k s, str_eq_refl k)
