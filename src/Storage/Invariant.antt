-- ===== src/Storage/Invariant.antt =====
-- The data and the expirations of the key-value engine agree (pkg/storage/storage.go).
use gomembase.Prelude.{
  option_intro, ℕ, ◌≡◌, refl, ◌∙◌, List, [], ◌∷◌, Option, none, some, Str, bytes, str_eq_iff, arith,
}
use gomembase.Prelude.Dict.{lookup, insert, lookup-insert, lookup-delete}
use gomembase.Logger.{WalLogger}
use gomembase.Expirations.Queue.{
  IsConsistent, due, IsConsistent-empty, cancel-IsConsistent, due-cancel, reschedule-IsConsistent,
  due-reschedule,
}
use gomembase.Stdlib.{GoText}
use gomembase.Storage.{Payload, Storage, new_storage, delete_no_lock, log, put, logged_delete}

-- The expiration of what is stored under a key.
unfoldable pub expiry : Option Payload → Option ℕ
expiry none = none
expiry (some p) = p.metadata.expires_at

-- Each key is due on the heap at the expiration of its payload, and only then.
pub record IsValid {L : Type 0} (s : Storage L) : Type 0 where
  pub consistent : IsConsistent s.expirations
  pub agree : (k : Str) → due k s.expirations ≡ expiry (lookup k s.entries)

module _ {L : Type 0} where
  pub new_storage-IsValid : (l : L) → IsValid (new_storage l)
  unfolding new_storage due expiry lookup
  new_storage-IsValid l = record { consistent = IsConsistent-empty; agree = λ k. refl }

  pub put-IsValid : (k : Str) (p : Payload) (s : Storage L) → IsValid s → IsValid (put k p s)
  unfolding put expiry
  put-IsValid k p s v = record {
    consistent = reschedule-IsConsistent s.expirations v.consistent k p.metadata.expires_at;
    agree = λ j.
        due-reschedule s.expirations v.consistent k p.metadata.expires_at j
        ∙ ground (arith, v.agree j, lookup-insert k j p s.entries);
  }

  pub delete_no_lock-IsValid : (k : Str) (s : Storage L) → IsValid s → IsValid (delete_no_lock k s)
  unfolding delete_no_lock expiry
  delete_no_lock-IsValid k s v = record {
    consistent = cancel-IsConsistent s.expirations v.consistent k;
    agree = λ j.
        due-cancel s.expirations v.consistent k j
        ∙ ground (arith, v.agree j, lookup-delete k j s.entries);
  }

  -- Writing a value in place, as the increments do, with the metadata of the old payload.
  pub replace-IsValid :
      (k : Str) (p p' : Payload) (s : Storage L)
      → lookup k s.entries ≡ some p
      → p'.metadata ≡ p.metadata
      → IsValid s
      → IsValid (record s { entries = insert k p' s.entries })
  unfolding expiry
  replace-IsValid k p p' s found same v = record {
    consistent = v.consistent;
    agree = λ j.
        v.agree j ∙ ground (arith, found, same, lookup-insert k j p' s.entries, str_eq_iff k j);
  }

  module _ ⦃w : WalLogger L⦄ where
    pub log-IsValid :
        (action : Str) (args : List Str) (s : Storage L) → IsValid s → IsValid (log action args s).1
    unfolding log
    log-IsValid action args s v = record { consistent = v.consistent; agree = v.agree }

    pub logged_delete-IsValid :
        ⦃g : GoText⦄ (k : Str) (s : Storage L) → IsValid s → IsValid (logged_delete k s).1
    unfolding logged_delete
    logged_delete-IsValid ⦃g⦄ k s v =
        let args = g.path_escape k ∷ [] in
        let s' = (log (bytes "DELETE") args s).1 in
        let kept = log-IsValid (bytes "DELETE") args s v in
        option_intro IsValid (log (bytes "DELETE") args s).0 (delete_no_lock-IsValid k s' kept)
          (λ e. kept)
