-- ===== src/SetStorage/Intersection.antt =====
-- SInter of pkg/set_storage/set_storage.go by the members of its result.
use gomembase.Prelude.{
  ℕ, ◌≡◌, ◌≢◌, refl, sym, ap, ◌∙◌, fun_ext, Bool, true, false, List, [], ◌∷◌, Option, none, some,
  Str, Option-cases, Bool-cases, inl, inr, arith, if◌then◌else◌,
}
use mathlib.Core.Path.{subst}
use gomembase.Prelude.Dict.{lookup}
use gomembase.Logger.{WalLogger}
use gomembase.Stdlib.{GoText}
use gomembase.Collection.{is_expired}
use gomembase.Collection.Panic.{Returns}
use gomembase.SetStorage.{SetStorage}
use gomembase.SetStorage.Members.{mem, inter_of}
use gomembase.SetStorage.Algebra.{inter_sets, s_inter}
use gomembase.SetStorage.Laws.{in_all, inter_of-in_all}
use gomembase.SetStorage.Panics.{inter_missing, inter_found, inter_expired, head_live}
use gomembase.SetStorage.Membership.{Membership, has, mem_nil}
use gomembase.SetStorage.Combined.Folds.{has-expired, has-live, has-missing}

-- Whether all the sets have the member.
unfoldable pub all_have : List Str → Str → Membership → Bool
all_have [] m h = true
all_have (k ∷ ks) m h = if h k m then all_have ks m h else false

-- What SInter knows of the member from the sets that it found.
unfoldable pub found_in_all : Str → Option (List (List Str) × List Str) → Bool
unfolding in_all
found_in_all m none = false
found_in_all m (some (sets, [])) = in_all m sets
found_in_all m (some (sets, e ∷ es)) = false

full_inter :
    (sets : List (List Str))
    → sets ≢ []
    → Returns (λ ms. (m : Str) → mem m ms ≡ in_all m sets) (inter_of sets)
full_inter [] h = absurd (h refl)
full_inter (x ∷ xs) h =
    let (ms, e, members) = inter_of-in_all x xs in
    subst (Returns (λ ms. (m : Str) → mem m ms ≡ in_all m (x ∷ xs))) (sym e) members

module _ {L : Type 0} where
  all_have-found_in_all :
      (now : ℕ) (m : Str) (keys : List Str) (s : SetStorage L)
      → all_have keys m (has now s) ≡ found_in_all m (inter_sets now keys s)
  unfolding all_have found_in_all inter_sets
  all_have-found_in_all now m [] s = refl
  all_have-found_in_all now m (k ∷ ks) s = elim (Option-cases (lookup k s.entries)) [
    | inl e ↦ ground (arith, e, has-missing now k m s e)
    | inr (v, e) ↦ elim (Bool-cases (is_expired now v.expires_at)) [
      | inl old ↦ elim (Option-cases (inter_sets now ks s)) [
        | inl none_found ↦ ground (arith, e, old, none_found, has-expired now k m s v e old)
        | inr ((sets, []), found) ↦ ground (arith, e, old, found, has-expired now k m s v e old)
        | inr ((sets, j ∷ js), found) ↦ ground (arith, e, old, found, has-expired now k m s v e old)
      ]
      | inr fresh ↦ elim (Option-cases (inter_sets now ks s)) [
        | inl none_found ↦ ground (
          arith,
          e,
          fresh,
          none_found,
          has-live now k m s v e fresh,
          all_have-found_in_all now m ks s,
        )
        | inr ((sets, []), found) ↦
            ground (
              arith,
              e,
              fresh,
              found,
              has-live now k m s v e fresh,
              all_have-found_in_all now m ks s,
            )
        | inr ((sets, j ∷ js), found) ↦
            ground (
              arith,
              e,
              fresh,
              found,
              has-live now k m s v e fresh,
              all_have-found_in_all now m ks s,
            )
      ]
    ]
  ]

-- SInter of one key or more does not panic, and answers exactly the members that the sets under all
-- the keys have, none if one of them is missing or has expired.
pub s_inter-all_have :
    {L : Type 0} ⦃w : WalLogger L⦄ ⦃g : GoText⦄ (now : ℕ) (k : Str) (ks : List Str)
    (s : SetStorage L)
    → Returns
        (λ ms. (m : Str) → mem m ms ≡ all_have (k ∷ ks) m (has now s))
        (s_inter now (k ∷ ks) s).0
unfolding found_in_all
s_inter-all_have {L = L} now k ks s =
    let keys = k ∷ ks in
    let Q : Option (List Str) × SetStorage L → Type 0 =
      λ r. Returns (λ ms. (m : Str) → mem m ms ≡ all_have keys m (has now s)) r.0 in
    elim (Option-cases (inter_sets now keys s)) [
      | inl h ↦
          subst Q (sym (inter_missing now k ks s h))
            (λ m. mem_nil m ∙ sym (all_have-found_in_all now m keys s ∙ ap (found_in_all m) h))
      | inr ((sets, []), h) ↦ subst Q (sym (inter_found now k ks s sets h)) (
          subst (λ f. Returns (λ ms. (m : Str) → mem m ms ≡ f m) (inter_of sets))
            (fun_ext (λ m. sym (all_have-found_in_all now m keys s ∙ ap (found_in_all m) h)))
            (full_inter sets (head_live now k ks s sets h).1))
      | inr ((sets, e ∷ es), h) ↦
          subst Q (sym (inter_expired now k ks s sets e es h))
            (λ m. mem_nil m ∙ sym (all_have-found_in_all now m keys s ∙ ap (found_in_all m) h))
    ]
