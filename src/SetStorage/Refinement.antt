-- ===== src/SetStorage/Refinement.antt =====
-- SAdd, SRem and SMove of pkg/set_storage/set_storage.go as operations on the members of each set.
use gomembase.Prelude.{
  ℕ, ◌≡◌, refl, sym, ap, ◌∙◌, fun_ext, Bool, false, List, [], ◌∷◌, Option, none, some, Str, bytes,
  str_eq_iff, if_intro, if_intro_eq, ltb, option_split, arith, if◌then◌else◌,
}
use gomembase.Prelude.Dict.{lookup}
use gomembase.Collection.{Value, is_expired, log, drop_expired}
use gomembase.Collection.Live.{live, read_value-live}
use gomembase.Collection.Contents.{contents-elements, elements, contents, contents-drop_expired}
use gomembase.SetStorage.{
  SetStorage, engine_id, s_add_no_lock_and_no_wal, s_rem_no_lock_and_no_wal,
  s_move_no_lock_and_no_wal,
}
use gomembase.Logger.{WalLogger}
use gomembase.Stdlib.{GoText}
use gomembase.Errors.{Result}
use gomembase.SetStorage.Ops.{
  s_add, s_rem, s_move, s_is_member, s_add_args, s_move_args, member_args, logged_expiry,
}
use gomembase.SetStorage.Panics.{dropped-Unexpired, drop_expired-Unexpired}
use gomembase.SetStorage.Membership.{
  Membership, has, with_members, without_members, s_add_no_lock_and_no_wal-has,
  s_rem_no_lock_and_no_wal-has, s_move_no_lock_and_no_wal-has,
}
use gomembase.SetStorage.Members.{mem}

pub has-log :
    {L : Type 0} ⦃w : WalLogger L⦄ (now : ℕ) (action : Str) (args : List Str) (s : SetStorage L)
    → has now (log engine_id action args s).1 ≡ has now s
unfolding contents log
has-log now action args s = refl

mem-elements :
    (m : Str) (o : Option (Value (List Str)))
    → (elim o [ none ↦ false | some v ↦ mem m v.value ]) ≡ mem m (elements o)
unfolding elements mem
mem-elements m none = refl
mem-elements m (some v) = refl

-- What SMove makes of the members: nothing where the source does not have the member.
unfoldable pub moved_member : Str → Str → Str → Membership → Membership
unfolding with_members without_members
moved_member src dst member h =
    if h src member then with_members dst (member ∷ []) (without_members src (member ∷ []) h) else h

module _ {L : Type 0} ⦃w : WalLogger L⦄ ⦃g : GoText⦄ where
  pub has-drop_expired :
      (now : ℕ) (key : Str) (s : SetStorage L)
      → has now (drop_expired engine_id now key s) ≡ has now s
  has-drop_expired now key s =
      fun_ext (λ k. fun_ext (λ m. ap (mem m) (contents-drop_expired engine_id now key k s)))

  held_dropped :
      (now : ℕ) (key m : Str) (s : SetStorage L)
      → has now s key m ≡ mem m (elements (lookup key (drop_expired engine_id now key s).entries))
  held_dropped now key m s =
      sym (ap (λ h. h key m) (has-drop_expired now key s))
      ∙ ap (mem m) (
          contents-elements now key (drop_expired engine_id now key s)
            (dropped-Unexpired now key s))

  held_missing :
      (now : ℕ) (key m : Str) (s : SetStorage L)
      → lookup key (drop_expired engine_id now key s).entries ≡ none
      → has now s key m ≡ false
  unfolding elements mem
  held_missing now key m s h = held_dropped now key m s ∙ ap (λ o. mem m (elements o)) h

  held_found :
      (now : ℕ) (key m : Str) (s : SetStorage L) (v : Value (List Str))
      → lookup key (drop_expired engine_id now key s).entries ≡ some v
      → has now s key m ≡ mem m v.value
  unfolding elements
  held_found now key m s v h = held_dropped now key m s ∙ ap (λ o. mem m (elements o)) h

  -- SIsMember answers whether the set under the key is there, has not expired and has the member.
  s_is_member-has :
      (now : ℕ) (key m : Str) (s : SetStorage L) → (s_is_member now key m s).0 ≡ has now s key m
  unfolding s_is_member contents
  s_is_member-has now key m s =
      ap (λ r. r.0) (read_value-live engine_id now key false (mem m) s)
      ∙ mem-elements m (live now (lookup key s.entries))

  -- After SAdd, with an expiration that has not passed or none, the set has its old members and the
  -- new ones, and all other sets are as before.
  pub s_add-has :
      (now : ℕ) (key : Str) (members : List Str) (e : Option ℕ) (s : SetStorage L)
      → is_expired now e ≡ false
      → has now (s_add now key members e s).1 ≡ with_members key members (has now s)
  unfolding s_add
  s_add-has now key members e s h =
      let s0 = drop_expired engine_id now key s in
      let s' = (s_add_no_lock_and_no_wal now key members e s0).1 in
      has-log now (bytes "SADD") (s_add_args key members (logged_expiry e (lookup key s'.entries)))
        s'
      ∙ fun_ext (λ k. fun_ext (λ m.
        s_add_no_lock_and_no_wal-has now key k m members e s0 h (dropped-Unexpired now key s)))
      ∙ ap (with_members key members) (has-drop_expired now key s)

  pub s_rem-has :
      (now : ℕ) (key : Str) (members : List Str) (s : SetStorage L)
      → has now (s_rem now key members s).1 ≡ without_members key members (has now s)
  unfolding s_rem without_members
  s_rem-has now key members s =
      let s0 = drop_expired engine_id now key s in
      let r = s_rem_no_lock_and_no_wal key members s0 in
      let Q : Result ℕ × SetStorage L → Type 0 =
        λ x. has now x.1 ≡ without_members key members (has now s) in
      let gone : has now r.1 ≡ without_members key members (has now s) =
        fun_ext (λ k.
          fun_ext (λ m.
            s_rem_no_lock_and_no_wal-has now key k m members s0 (dropped-Unexpired now key s)))
        ∙ ap (without_members key members) (has-drop_expired now key s) in
      option_split Q (lookup key s0.entries)
        (λ missing.
          has-drop_expired now key s
          ∙ fun_ext (λ k.
            fun_ext (λ m. ground (arith, held_missing now key m s missing, str_eq_iff key k))))
        (λ v _.
          if_intro Q (ltb 0 r.0) (has-log now (bytes "SREM") (member_args key members) r.1 ∙ gone)
            gone)

  -- SMove takes the member from the source and adds it to the destination if the source has it, also
  -- where both are the same, and otherwise changes no set, whatever the logger answers.
  pub s_move-has :
      (now : ℕ) (src dst member : Str) (s : SetStorage L)
      → has now (s_move now src dst member s).1 ≡ moved_member src dst member (has now s)
  unfolding s_move moved_member
  s_move-has now src dst member s =
      let s1 = drop_expired engine_id now src s in
      let s2 = drop_expired engine_id now dst s1 in
      let s3 = s_move_no_lock_and_no_wal now src dst member s2 in
      let Q : Result Bool × SetStorage L → Type 0 =
        λ x. has now x.1 ≡ moved_member src dst member (has now s) in
      option_split Q (lookup src s1.entries)
        (λ missing.
          has-drop_expired now src s ∙ ground (arith, held_missing now src member s missing))
        (λ v found.
          if_intro_eq Q (mem member v.value)
            (λ held.
              has-log now (bytes "SMOVE") (s_move_args src dst member) s3
              ∙ fun_ext (λ k. fun_ext (λ m.
                s_move_no_lock_and_no_wal-has now src dst k m member s2
                  (drop_expired-Unexpired now dst src s1 (dropped-Unexpired now src s))
                  (dropped-Unexpired now dst s1)))
              ∙ ap (λ h. with_members dst (member ∷ []) (without_members src (member ∷ []) h))
                  (has-drop_expired now dst s1 ∙ has-drop_expired now src s)
              ∙ ground (arith, held_found now src member s v found, held))
            (λ not_held.
              has-drop_expired now src s
              ∙ ground (arith, held_found now src member s v found, not_held)))
