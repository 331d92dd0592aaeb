-- ===== src/Collection/Invariant.antt =====
-- The data and the expirations of an engine agree (pkg/list_storage, pkg/set_storage,
-- pkg/zset_storage), and the operations that the engines share keep it so.
use gomembase.Prelude.{
  ℕ, zero, suc, ◌≡◌, refl, ◌∙◌, Bool, List, [], ◌∷◌, Option, none, some, Str, bytes, str_eq_iff,
  length, ltb, arith, if_intro, option_intro,
}
use gomembase.Prelude.Dict.{Dict, lookup, lookup-insert, lookup-delete}
use gomembase.Errors.{Error, Result, ok, err}
use gomembase.Logger.{WalLogger}
use gomembase.Expirations.{entry_at}
use gomembase.Expirations.Queue.{
  IsConsistent, due, IsConsistent-empty, cancel-IsConsistent, due-cancel, extend-IsConsistent,
  due-extend,
}
use gomembase.Stdlib.{GoText}
use gomembase.Collection.{
  Value, Collection, is_expired, new_collection, delete_no_lock, store, clear, log, drop,
  logged_delete, drop_expired, read_value, delete_expired_keys, cleanup_loop, cleanup_expired,
}
use gomembase.Collection.Patterns.{count_by, count_loop, find_by, find_loop, delete_loop, delete_by}

-- The expiration of what is stored under a key.
unfoldable pub expiry : {A : Type 0} → Option (Value A) → Option ℕ
expiry none = none
expiry (some v) = v.expires_at

-- Each key is due on the heap at the expiration of its value, and only then.
pub record IsValid {A L : Type 0} (s : Collection A L) : Type 0 where
  pub consistent : IsConsistent s.expirations
  pub agree : (k : Str) → due k s.expirations ≡ expiry (lookup k s.entries)

-- A call leaves a valid state beside its result.
abbrev pub Leaves : {A L R : Type 0} → R × Collection A L → Type 0
Leaves r = IsValid r.1

-- The expiration of a value that is added to.
abbrev pub or_old : Option ℕ → Option ℕ → Option ℕ
or_old none old = old
or_old (some t) old = some t

pub result_intro :
    {A B : Type 0} (P : B → Type 0) (r : Result A) {f : A → B} {k : Error → B}
    → ((a : A) → P (f a))
    → ((e : Error) → P (k e))
    → P (elim r [ ok a ↦ f a | err e ↦ k e ])
result_intro P (ok a) h h' = h a
result_intro P (err e) h h' = h' e

module _ {A L : Type 0} where
  pub new_collection-IsValid : (l : L) → IsValid (new_collection {A = A} l)
  unfolding new_collection due expiry lookup
  new_collection-IsValid l = record { consistent = IsConsistent-empty; agree = λ k. refl }

  pub clear-IsValid : (s : Collection A L) → IsValid (clear s)
  unfolding clear due expiry lookup
  clear-IsValid s = record { consistent = IsConsistent-empty; agree = λ k. refl }

  pub delete_no_lock-IsValid :
      (k : Str) (s : Collection A L) → IsValid s → IsValid (delete_no_lock k s)
  unfolding delete_no_lock expiry
  delete_no_lock-IsValid k s v = record {
    consistent = cancel-IsConsistent s.expirations v.consistent k;
    agree = λ j.
        due-cancel s.expirations v.consistent k j
        ∙ ground (arith, v.agree j, lookup-delete k j s.entries);
  }

  -- A value whose expiration is the one that the call brings, or else the old one.
  pub store-IsValid :
      (k : Str) (x : Value A) (e : Option ℕ) (s : Collection A L)
      → x.expires_at ≡ or_old e (expiry (lookup k s.entries))
      → IsValid s
      → IsValid (store k x e s)
  unfolding store expiry
  store-IsValid k x none s old v = record {
    consistent = v.consistent;
    agree = λ j. v.agree j ∙ ground (arith, old, lookup-insert k j x s.entries, str_eq_iff k j);
  }
  store-IsValid k x (some t) s new v = record {
    consistent = extend-IsConsistent s.expirations v.consistent k (some t);
    agree = λ j.
        due-extend s.expirations v.consistent k (some t) j
        ∙ ground (arith, new, v.agree j, lookup-insert k j x s.entries);
  }

  module _ ⦃w : WalLogger L⦄ (id : Str) where
    pub log-IsValid :
        (action : Str) (args : List Str) (s : Collection A L)
        → IsValid s
        → Leaves (log id action args s)
    unfolding log
    log-IsValid action args s v = record { consistent = v.consistent; agree = v.agree }

    module _ ⦃g : GoText⦄ where
      pub drop-IsValid : (k : Str) (s : Collection A L) → IsValid s → IsValid (drop id k s)
      unfolding drop
      drop-IsValid k s v =
          log-IsValid (bytes "DELETE") (g.path_escape k ∷ []) (delete_no_lock k s)
            (delete_no_lock-IsValid k s v)

      pub logged_delete-IsValid :
          (k : Str) (s : Collection A L) → IsValid s → Leaves (logged_delete id k s)
      unfolding logged_delete
      logged_delete-IsValid k s v =
          let args = g.path_escape k ∷ [] in
          let s' = (log id (bytes "DELETE") args s).1 in
          let kept = log-IsValid (bytes "DELETE") args s v in
          option_intro IsValid (log id (bytes "DELETE") args s).0 (delete_no_lock-IsValid k s' kept)
            (λ e. kept)

      pub drop_expired-IsValid :
          (now : ℕ) (k : Str) (s : Collection A L) → IsValid s → IsValid (drop_expired id now k s)
      unfolding drop_expired
      drop_expired-IsValid now k s v =
          option_intro IsValid (lookup k s.entries) v
            (λ x. if_intro IsValid (is_expired now x.expires_at) (drop-IsValid k s v) v)

      pub read_value-IsValid :
          {R : Type 0} (now : ℕ) (k : Str) (missing : R) (f : A → R) (s : Collection A L)
          → IsValid s
          → Leaves (read_value id now k missing f s)
      unfolding read_value
      read_value-IsValid now k missing f s v =
          option_intro Leaves (lookup k s.entries) v
            (λ x. if_intro Leaves (is_expired now x.expires_at) (drop-IsValid k s v) v)

      pub delete_expired_keys-IsValid :
          (now : ℕ) (keys : List Str) (s : Collection A L)
          → IsValid s
          → IsValid (delete_expired_keys id now keys s)
      unfolding delete_expired_keys
      delete_expired_keys-IsValid now [] s v = v
      delete_expired_keys-IsValid now (k ∷ keys) s v =
          delete_expired_keys-IsValid now keys (drop_expired id now k s)
            (drop_expired-IsValid now k s v)

      cleanup_loop-IsValid :
          (fuel now : ℕ) (s : Collection A L) → IsValid s → IsValid (cleanup_loop id fuel now s)
      unfolding cleanup_loop
      cleanup_loop-IsValid zero now s v = v
      cleanup_loop-IsValid (suc fuel) now s v =
          let first = entry_at s.expirations 0 in
          if_intro IsValid (ltb 0 (length s.expirations.heap))
            (if_intro IsValid (ltb now first.expires_at) v
              (cleanup_loop-IsValid fuel now (drop id first.key s) (drop-IsValid first.key s v)))
            v

      pub cleanup_expired-IsValid :
          (now : ℕ) (s : Collection A L) → IsValid s → IsValid (cleanup_expired id now s)
      unfolding cleanup_expired
      cleanup_expired-IsValid now s v = cleanup_loop-IsValid (length s.expirations.heap) now s v

      pub count_by-IsValid :
          (now : ℕ) (fits : Str → Bool) (s : Collection A L)
          → IsValid s
          → Leaves (count_by id now fits s)
      unfolding count_by
      count_by-IsValid now fits s v =
          delete_expired_keys-IsValid now (count_loop now fits s.entries).1 s v

      pub find_by-IsValid :
          {R : Type 0} (now : ℕ) (f : A → R) (fits : Str → Bool) (s : Collection A L)
          → IsValid s
          → Leaves (find_by id now f fits s)
      unfolding find_by
      find_by-IsValid now f fits s v =
          delete_expired_keys-IsValid now (find_loop now f fits s.entries []).1 s v

      delete_loop-IsValid :
          (now : ℕ) (fits : Str → Bool) (d : Dict (Value A)) (n : ℕ) (s : Collection A L)
          → IsValid s
          → Leaves (delete_loop id now fits d n s)
      unfolding delete_loop
      delete_loop-IsValid now fits [] n s v = v
      delete_loop-IsValid now fits ((k, x) ∷ rest) n s v =
          let s' = (logged_delete id k s).1 in
          let v' = logged_delete-IsValid k s v in
          if_intro Leaves (is_expired now x.expires_at) (delete_loop-IsValid now fits rest n s' v')
            (if_intro Leaves (fits k)
              (option_intro Leaves (logged_delete id k s).0
                (delete_loop-IsValid now fits rest (suc n) s' v') (λ e. v'))
              (delete_loop-IsValid now fits rest n s v))

      pub delete_by-IsValid :
          (now : ℕ) (fits : Str → Bool) (s : Collection A L)
          → IsValid s
          → Leaves (delete_by id now fits s)
      unfolding delete_by
      delete_by-IsValid now fits s v = delete_loop-IsValid now fits s.entries 0 s v
