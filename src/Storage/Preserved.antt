-- ===== src/Storage/Preserved.antt =====
-- Each operation of pkg/storage/storage.go keeps the data and the expirations in agreement.
use gomembase.Prelude.{
  if_intro, option_intro, option_intro_eq, ℕ, suc, zero, ◌≡◌, refl, Bool, List, [], ◌∷◌, Option,
  none, some, Str, bytes, length, ltb, str_eq,
}
use gomembase.Prelude.Int.{ℤ, ◌+ℤ◌, wrap64}
use gomembase.Prelude.Dict.{Dict, lookup, insert}
use gomembase.Logger.{WalLogger}
use gomembase.Expirations.{entry_at}
use gomembase.Stdlib.{GoText}
use gomembase.Storage.{
  PayloadMetadata, Payload, is_expired, Storage, new_storage, delete_no_lock, log, put,
  logged_delete, set_args,
}
use gomembase.Storage.Ops.{
  set_no_lock, mset_no_lock, mset_with_ttl_no_lock, get, exists, increment_by_no_lock, delete,
  delete_if_expired, delete_expired_keys, clear, cleanup_loop, cleanup_expired,
}
use gomembase.Storage.Patterns.{delete_loop}
use gomembase.Storage.Wal.{
  process_wal_entry, apply_set, process_set, process_delete, replayed_expiry, or_raw,
}
use gomembase.Storage.Invariant.{
  IsValid, new_storage-IsValid, put-IsValid, delete_no_lock-IsValid, replace-IsValid, log-IsValid,
  logged_delete-IsValid,
}

-- A call returns a valid state beside its result.
abbrev pub Leaves : {L R : Type 0} → R × Storage L → Type 0
Leaves r = IsValid r.1

module _ {L : Type 0} ⦃w : WalLogger L⦄ ⦃g : GoText⦄ where
  pub set_no_lock-IsValid :
      (k v : Str) (m : PayloadMetadata) (s : Storage L) → IsValid s → Leaves (set_no_lock k v m s)
  unfolding set_no_lock
  set_no_lock-IsValid k v m s h =
      let p : Payload = record { value = v; metadata = m } in
      log-IsValid (bytes "SET") (set_args k p) (put k p s) (put-IsValid k p s h)

  pub mset_no_lock-IsValid :
      (batch : Dict Payload) (s : Storage L) → IsValid s → Leaves (mset_no_lock batch s)
  unfolding mset_no_lock
  mset_no_lock-IsValid [] s h = h
  mset_no_lock-IsValid ((k, v) ∷ batch) s h =
      let s' = (set_no_lock k v.value v.metadata s).1 in
      let h' = set_no_lock-IsValid k v.value v.metadata s h in
      option_intro Leaves (set_no_lock k v.value v.metadata s).0 (mset_no_lock-IsValid batch s' h')
        (λ e. h')

  pub mset_with_ttl_no_lock-IsValid :
      (m : PayloadMetadata) (batch : Dict Payload) (s : Storage L)
      → IsValid s
      → Leaves (mset_with_ttl_no_lock m batch s)
  unfolding mset_with_ttl_no_lock
  mset_with_ttl_no_lock-IsValid m [] s h = h
  mset_with_ttl_no_lock-IsValid m ((k, v) ∷ batch) s h =
      let s' = (set_no_lock k v.value m s).1 in
      let h' = set_no_lock-IsValid k v.value m s h in
      option_intro Leaves (set_no_lock k v.value m s).0
        (mset_with_ttl_no_lock-IsValid m batch s' h') (λ e. h')

  pub get-IsValid : (now : ℕ) (k : Str) (s : Storage L) → IsValid s → Leaves (get now k s)
  unfolding get delete
  get-IsValid now k s h =
      option_intro Leaves (lookup k s.entries) h
        (λ p. if_intro Leaves (is_expired now p.metadata) (logged_delete-IsValid k s h) h)

  pub exists-IsValid : (now : ℕ) (k : Str) (s : Storage L) → IsValid s → Leaves (exists now k s)
  unfolding exists delete
  exists-IsValid now k s h =
      option_intro Leaves (lookup k s.entries) h
        (λ p. if_intro Leaves (is_expired now p.metadata) (logged_delete-IsValid k s h) h)

  -- The write of an increment.
  added-IsValid :
      (k : Str) (p : Payload) (v : Str) (s : Storage L)
      → lookup k s.entries ≡ some p
      → IsValid s
      → (let p' : Payload = record { value = v; metadata = p.metadata } in
          IsValid
            (log (bytes "SET") (set_args k p') (record s { entries = insert k p' s.entries })).1)
  added-IsValid k p v s found h =
      let p' : Payload = record { value = v; metadata = p.metadata } in
      log-IsValid (bytes "SET") (set_args k p') (record s { entries = insert k p' s.entries })
        (replace-IsValid k p p' s found refl h)

  pub increment_by_no_lock-IsValid :
      (now : ℕ) (k : Str) (a : ℤ) (s : Storage L)
      → IsValid s
      → Leaves (increment_by_no_lock now k a s)
  unfolding increment_by_no_lock
  increment_by_no_lock-IsValid now k a s h =
      option_intro_eq Leaves (lookup k s.entries) h (λ p found.
        if_intro Leaves (is_expired now p.metadata) (logged_delete-IsValid k s h) (
          option_intro Leaves (g.parse_int p.value) h
            (λ n. added-IsValid k p (g.format_int (wrap64 (n +ℤ a))) s found h)))

  delete_if_expired-IsValid :
      (now : ℕ) (k : Str) (p : Option Payload) (s : Storage L)
      → IsValid s
      → IsValid (delete_if_expired now k p s)
  unfolding delete_if_expired
  delete_if_expired-IsValid now k none s h = h
  delete_if_expired-IsValid now k (some p) s h =
      if_intro IsValid (is_expired now p.metadata) (logged_delete-IsValid k s h) h

  pub delete_expired_keys-IsValid :
      (now : ℕ) (keys : List Str) (s : Storage L)
      → IsValid s
      → IsValid (delete_expired_keys now keys s)
  unfolding delete_expired_keys
  delete_expired_keys-IsValid now [] s h = h
  delete_expired_keys-IsValid now (k ∷ keys) s h =
      delete_expired_keys-IsValid now keys (delete_if_expired now k (lookup k s.entries) s)
        (delete_if_expired-IsValid now k (lookup k s.entries) s h)

  pub delete_loop-IsValid :
      (now : ℕ) (fits : Str → Bool) (d : Dict Payload) (n : ℕ) (s : Storage L)
      → IsValid s
      → Leaves (delete_loop now fits d n s)
  unfolding delete_loop
  delete_loop-IsValid now fits [] n s h = h
  delete_loop-IsValid now fits ((k, v) ∷ rest) n s h =
      let s' = (logged_delete k s).1 in
      let h' = logged_delete-IsValid k s h in
      if_intro Leaves (is_expired now v.metadata) (delete_loop-IsValid now fits rest n s' h') (
        if_intro Leaves (fits k)
          (option_intro Leaves (logged_delete k s).0
            (delete_loop-IsValid now fits rest (suc n) s' h') (λ e. h'))
          (delete_loop-IsValid now fits rest n s h))

module _ {L : Type 0} where
  pub clear-IsValid : (s : Storage L) → IsValid (clear s)
  unfolding clear
  clear-IsValid s =
      let v = new_storage-IsValid s.wal_logger in
      unfold new_storage in record { consistent = v.consistent; agree = v.agree }

  cleanup_loop-IsValid :
      (fuel now : ℕ) (s : Storage L) → IsValid s → IsValid (cleanup_loop fuel now s)
  unfolding cleanup_loop
  cleanup_loop-IsValid zero now s h = h
  cleanup_loop-IsValid (suc fuel) now s h =
      let first = entry_at s.expirations 0 in
      if_intro IsValid (ltb 0 (length s.expirations.heap))
        (if_intro IsValid (ltb now first.expires_at) h (
          cleanup_loop-IsValid fuel now (delete_no_lock first.key s)
            (delete_no_lock-IsValid first.key s h)))
        h

  pub cleanup_expired-IsValid :
      (now : ℕ) (s : Storage L) → IsValid s → IsValid (cleanup_expired now s)
  unfolding cleanup_expired
  cleanup_expired-IsValid now s h = cleanup_loop-IsValid (length s.expirations.heap) now s h

  module _ ⦃g : GoText⦄ where
    apply_set-IsValid :
        (now : ℕ) (k v : Str) (e : Option (Option ℕ)) (s : Storage L)
        → IsValid s
        → IsValid (apply_set now k v e s)
    unfolding apply_set
    apply_set-IsValid now k v none s h = h
    apply_set-IsValid now k v (some e) s h =
        put-IsValid k (record { value = v; metadata = record { created_at = now; expires_at = e } })
          s h

    process_set-IsValid :
        (now : ℕ) (args : List Str) (s : Storage L) → IsValid s → IsValid (process_set now args s)
    unfolding process_set
    process_set-IsValid now [] s h = h
    process_set-IsValid now (a ∷ []) s h = h
    process_set-IsValid now (a ∷ b ∷ []) s h = h
    process_set-IsValid now (k ∷ v ∷ e ∷ rest) s h =
        apply_set-IsValid now (or_raw (g.path_unescape k) k) (or_raw (g.base64_decode v) v)
          (replayed_expiry now e) s h

    process_delete-IsValid :
        (args : List Str) (s : Storage L) → IsValid s → IsValid (process_delete args s)
    unfolding process_delete
    process_delete-IsValid [] s h = h
    process_delete-IsValid (k ∷ rest) s h =
        delete_no_lock-IsValid (or_raw (g.path_unescape k) k) s h

    pub process_wal_entry-IsValid :
        (now : ℕ) (action : Str) (args : List Str) (s : Storage L)
        → IsValid s
        → IsValid (process_wal_entry now action args s)
    unfolding process_wal_entry
    process_wal_entry-IsValid now action args s h =
        if_intro IsValid (str_eq action (bytes "DELETE")) (process_delete-IsValid args s h)
          (if_intro IsValid (str_eq action (bytes "SET")) (process_set-IsValid now args s h) h)
