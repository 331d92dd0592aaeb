-- ===== src/Prelude/Dict.antt =====
-- Go maps with string keys, as association lists: `m[k]`, `m[k] = v`, `delete(m, k)`, `len(m)`.
-- Iteration (`range m`) follows the list; Go leaves the order open.
use mathlib.Core.Path.{◌≡◌, refl}
use mathlib.Core.List.{List, [], ◌∷◌}
use mathlib.Core.Option.{Option, none, some}
use native.Mathlib.Omega.{arith}
use gomembase.Prelude.Tests.{if◌then◌else◌}
use gomembase.Prelude.Text.{Str, str_eq, str_eq_iff}

abbrev pub Dict {ℓ} : Type ℓ → Type ℓ
Dict V = List (Str × V)

module _ {ℓ} {V : Type ℓ} where
  unfoldable pub lookup : Str → Dict V → Option V
  lookup k [] = none
  lookup k ((j, v) ∷ d) = if str_eq j k then some v else lookup k d

  unfoldable pub delete : Str → Dict V → Dict V
  delete k [] = []
  delete k ((j, v) ∷ d) = let rest = delete k d in if str_eq j k then rest else (j, v) ∷ rest

  unfoldable pub insert : Str → V → Dict V → Dict V
  unfolding delete
  insert k v d = (k, v) ∷ delete k d

  pub lookup-delete :
      (k j : Str) (d : Dict V) → lookup j (delete k d) ≡ (if str_eq k j then none else lookup j d)
  unfolding lookup delete
  lookup-delete k j [] = ground arith
  lookup-delete k j ((i, v) ∷ d) =
      ground (arith, lookup-delete k j d, str_eq_iff i k, str_eq_iff i j, str_eq_iff k j)

  pub lookup-insert :
      (k j : Str) (v : V) (d : Dict V)
      → lookup j (insert k v d) ≡ (if str_eq k j then some v else lookup j d)
  unfolding insert lookup
  lookup-insert k j v d = ground (arith, lookup-delete k j d)

pub lookup-empty {ℓ} : {V : Type ℓ} (k : Str) → lookup {V = V} k [] ≡ none
unfolding lookup
lookup-empty k = refl

pub ruleset dict_laws = (lookup-empty, lookup-delete, lookup-insert)
