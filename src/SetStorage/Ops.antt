-- ===== src/SetStorage/Ops.antt =====
-- The methods of pkg/set_storage/set_storage.go on one or two given keys.
use gomembase.Prelude.{
  ℕ, suc, ◌^◌, Bool, true, false, List, [], ◌∷◌, map, Option, none, some, Str, bytes, length, take,
  drop, ltb, leb, if◌then◌else◌,
}
use gomembase.Prelude.Int.{ℤ, pos, negsuc, pos_part}
use gomembase.Prelude.Dict.{lookup}
use gomembase.Errors.{Error, Result, ok, err, key_error, sentinel, key_not_found}
use gomembase.Logger.{WalLogger}
use gomembase.Stdlib.{GoText}
use gomembase.Storage.{expires_str}
use gomembase.Collection.{
  Value, log, delete_no_lock, drop_expired, read_value, logged_delete, snapshot, store,
}
use gomembase.SetStorage.{
  SetStorage, engine_id, s_add_no_lock_and_no_wal, s_rem_no_lock_and_no_wal,
  s_move_no_lock_and_no_wal,
}
use gomembase.SetStorage.Members.{mem, rand_loop}

-- `if err := Log(…); err != nil { return …, err }`
abbrev pub result_of : {A : Type 0} → A → Option Error → Result A
result_of a none = ok a
result_of a (some e) = err e

-- The expiration that SAdd logs: that of the call, or that of the set.
abbrev pub logged_expiry : Option ℕ → Option (Value (List Str)) → Option ℕ
logged_expiry (some t) o = some t
logged_expiry none none = none
logged_expiry none (some v) = v.expires_at

-- What SPop leaves under the key: the map with the members gone, or no key.
unfoldable pub store_popped :
    {L : Type 0} → Str → Value (List Str) → List Str → SetStorage L → SetStorage L
store_popped key v [] s = delete_no_lock key s
store_popped key v (m ∷ ms) s = store key (record v { value = m ∷ ms }) none s

-- `limit := -count` for a count of -(n + 1); a negative limit is a panic of `make`.
abbrev pub rand_limit : ℕ → Option ℕ
rand_limit n = if ltb (suc n) (2 ^ 63) then some (suc n) else none

-- SRandMember on the members of a set. `clock i` is the time of the draw `i`.
unfoldable pub s_rand_of : (ℕ → ℕ) → ℤ → List Str → Option (List Str)
unfolding rand_loop
s_rand_of clock count [] = some []
s_rand_of clock (pos n) (m ∷ ms) = some (take n (m ∷ ms))
s_rand_of clock (negsuc n) (m ∷ ms) = elim (rand_limit n) [
  | none ↦ none
  | some limit ↦ some (rand_loop clock limit 0 (m ∷ ms))
]

module _ ⦃g : GoText⦄ where
  abbrev pub member_args : Str → List Str → List Str
  member_args key members = g.path_escape key ∷ map g.base64_encode members

  abbrev pub s_add_args : Str → List Str → Option ℕ → List Str
  s_add_args key members e = g.path_escape key ∷ expires_str e ∷ map g.base64_encode members

  abbrev pub s_move_args : Str → Str → Str → List Str
  s_move_args src_key dst_key member =
      g.path_escape src_key ∷ g.path_escape dst_key ∷ g.base64_encode member ∷ []

module _ {L : Type 0} ⦃w : WalLogger L⦄ ⦃g : GoText⦄ where
  unfoldable pub s_add : ℕ → Str → List Str → Option ℕ → SetStorage L → Result ℕ × SetStorage L
  s_add now key members expires_at s =
      let (added, s') =
        s_add_no_lock_and_no_wal now key members expires_at (drop_expired engine_id now key s) in
      let e = logged_expiry expires_at (lookup key s'.entries) in
      let r = log engine_id (bytes "SADD") (s_add_args key members e) s' in
      (result_of added r.0, r.1)

  unfoldable pub s_rem : ℕ → Str → List Str → SetStorage L → Result ℕ × SetStorage L
  s_rem now key members s =
      let s0 = drop_expired engine_id now key s in
      let (removed, s') = s_rem_no_lock_and_no_wal key members s0 in
      let r = log engine_id (bytes "SREM") (member_args key members) s' in
      elim (lookup key s0.entries) [
        | none ↦ (ok 0, s0)
        | some v ↦ if ltb 0 removed then (result_of removed r.0, r.1) else (ok removed, s')
      ]

  -- What is popped are the first members of the iteration.
  unfoldable pub s_pop : ℕ → Str → ℤ → SetStorage L → Result (List Str) × SetStorage L
  unfolding store_popped
  s_pop now key count s =
      let s0 = drop_expired engine_id now key s in
      let missing : Result (List Str) × SetStorage L =
        (err (key_error key (sentinel key_not_found) [] (bytes "SPOP")), s0) in
      elim (lookup key s0.entries) [
        | none ↦ missing
        | some v ↦
            let n = pos_part count in
            let popped = take n v.value in
            let s' = store_popped key v (drop n v.value) s0 in
            let r = log engine_id (bytes "SPOP") (member_args key popped) s' in
            if leb (length v.value) 0
            then missing
            else if leb n 0
            then (ok [], s0)
            else (result_of popped r.0, r.1)
      ]

  unfoldable pub s_move : ℕ → Str → Str → Str → SetStorage L → Result Bool × SetStorage L
  s_move now src_key dst_key member s =
      let s1 = drop_expired engine_id now src_key s in
      let s2 = drop_expired engine_id now dst_key s1 in
      let s3 = s_move_no_lock_and_no_wal now src_key dst_key member s2 in
      let r = log engine_id (bytes "SMOVE") (s_move_args src_key dst_key member) s3 in
      elim (lookup src_key s1.entries) [
        | none ↦ (ok false, s1)
        | some v ↦ if mem member v.value then (result_of true r.0, r.1) else (ok false, s1)
      ]

  unfoldable pub s_is_member : ℕ → Str → Str → SetStorage L → Bool × SetStorage L
  s_is_member now key member s = read_value engine_id now key false (mem member) s

  unfoldable pub s_m_is_member : ℕ → Str → List Str → SetStorage L → List Bool × SetStorage L
  s_m_is_member now key members s =
      read_value engine_id now key (map (λ m. false) members) (λ ms. map (λ m. mem m ms) members) s

  unfoldable pub s_members : ℕ → Str → SetStorage L → List Str × SetStorage L
  s_members now key s = read_value engine_id now key [] (λ ms. ms) s

  unfoldable pub s_card : ℕ → Str → SetStorage L → ℕ × SetStorage L
  s_card now key s = read_value engine_id now key 0 length s

  unfoldable pub s_rand_member :
      (ℕ → ℕ) → ℕ → Str → ℤ → SetStorage L → Option (List Str) × SetStorage L
  unfolding s_rand_of
  s_rand_member clock now key count s =
      read_value engine_id now key (some []) (s_rand_of clock count) s

  unfoldable pub delete : Str → SetStorage L → Option Error × SetStorage L
  delete key s = logged_delete engine_id key s

unfoldable pub snapshot_members : {L : Type 0} → ℕ → Str → SetStorage L → Option (List Str)
snapshot_members now key s = snapshot now key s
