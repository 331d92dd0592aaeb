-- ===== src/Storage/Wal/Laws.antt =====
-- What the replay of a logged SET or DELETE does (pkg/storage/storage.go).
use gomembase.Prelude.{
  ℕ, ◌/◌, ◌*◌, ◌<◌, ◌≡◌, refl, ◌∙◌, ap, true, false, [], Option, none, some, Str, bytes, str_eq,
  str_eq_iff, str_eq_refl, ltb, arith, if◌then◌else◌,
}
use gomembase.Prelude.Dict.{lookup, lookup-insert}
use gomembase.Errors.{ok, err, key_error, sentinel, key_expired}
use gomembase.Logger.{WalLogger}
use gomembase.Stdlib.{GoText, GoTextLaws, second}
use gomembase.Storage.{Payload, is_expired, Storage, put, expires_str, set_args}
use gomembase.Storage.Ops.{set, get}
use gomembase.Storage.Reads.{reading, get-reading, get-set}
use gomembase.Storage.Wal.{replayed_expiry, process_wal_entry}

-- What a replay at `now` makes of a time.
abbrev pub whole_second : ℕ → ℕ
whole_second t = t / second * second

-- A logged payload as a replay at `now` writes it, with the expiration that it keeps.
abbrev pub replayed : ℕ → Payload → Option ℕ → Payload
replayed now p e = record {
  value = p.value;
  metadata = record { created_at = now; expires_at = e };
}

-- What a replay at `now` writes for a logged payload, if it writes anything.
abbrev pub survivor : ℕ → Payload → Option Payload
survivor now p = elim p.metadata.expires_at [
  | none ↦ some (replayed now p none)
  | some t ↦
      if ltb (whole_second t) now then none else some (replayed now p (some (whole_second t)))
]

set-ne-delete : str_eq (bytes "SET") (bytes "DELETE") ≡ false
unfolding str_eq
set-ne-delete = refl

module _ ⦃g : GoText⦄ (laws : GoTextLaws g) where
  format-ne-persistent : (t : ℕ) → str_eq (g.format_rfc3339 t) (bytes "PERSISTENT") ≡ false
  format-ne-persistent t =
      ground
        (arith, str_eq_iff (g.format_rfc3339 t) (bytes "PERSISTENT"), laws.format_not_persistent t)

  replayed_expiry-expires_str :
      (now : ℕ) (e : Option ℕ)
      → replayed_expiry now (expires_str e) ≡ elim e [
        | none ↦ some none
        | some t ↦ if ltb (whole_second t) now then none else some (some (whole_second t))
      ]
  unfolding replayed_expiry
  replayed_expiry-expires_str now none = rw (str_eq_refl (bytes "PERSISTENT"))
  replayed_expiry-expires_str now (some t) =
      ground (arith, format-ne-persistent t, laws.parse-format t)

  -- Replaying the line of a Set writes the same value under the same key, created at the time of the
  -- replay, with the expiration cut to the second; but where that lies before the replay, the line
  -- is passed over and the state is the one before.
  pub process_wal_entry-set :
      {L : Type 0} (now : ℕ) (key : Str) (p : Payload) (s : Storage L)
      → process_wal_entry now (bytes "SET") (set_args key p) s
        ≡ elim (survivor now p) [ none ↦ s | some p' ↦ put key p' s ]
  unfolding process_wal_entry
  process_wal_entry-set now key p s =
      rw
        (
          set-ne-delete,
          str_eq_refl (bytes "SET"),
          laws.unescape-escape key,
          laws.decode-encode p.value,
          replayed_expiry-expires_str now p.metadata.expires_at,
        )
        (ground arith)

  lookup-put :
      {L : Type 0} (key : Str) (p : Payload) (s : Storage L)
      → lookup key (put key p s).entries ≡ some p
  unfolding put
  lookup-put key p s = ground (arith, lookup-insert key key p s.entries, str_eq_refl key)

  survivor_persistent :
      (now : ℕ) (p : Payload)
      → p.metadata.expires_at ≡ none
      → survivor now p ≡ some (replayed now p none)
  survivor_persistent now p persistent = rw persistent

  survivor_past :
      (now : ℕ) (q : Payload) (t : ℕ)
      → q.metadata.expires_at ≡ some t
      → t < now
      → survivor now q ≡ none
  survivor_past now q t expires past =
      let cut : ltb (whole_second t) now ≡ true = ground arith in rw (expires, cut)

  -- A key that was set with no expiration and then set again with one, whose second lies before the
  -- replay: the running engine answers that the key has expired, and after a replay of both lines
  -- Get returns the first value again.
  pub replay_resurrects :
      {L : Type 0} ⦃w : WalLogger L⦄ (now : ℕ) (key : Str) (p q : Payload) (t : ℕ) (s r : Storage L)
      → p.metadata.expires_at ≡ none
      → q.metadata.expires_at ≡ some t
      → t < now
      → (let line = λ (x : Payload) (y : Storage L).
            process_wal_entry now (bytes "SET") (set_args key x) y in
          (get now key (line q (line p r))).0 ≡ ok p.value)
        × ((get now key (set key q.value q.metadata (set key p.value p.metadata s).1).1).0
            ≡ err (key_error key (sentinel key_expired) [] (bytes "GET")))
  replay_resurrects {L = L} now key p q t s r persistent expires past =
      let line =
        λ (x : Payload) (y : Storage L). process_wal_entry now (bytes "SET") (set_args key x) y in
      let p' = replayed now p none in
      let first : line p r ≡ put key p' r =
        process_wal_entry-set now key p r ∙ rw (survivor_persistent now p persistent) in
      let both : line q (line p r) ≡ put key p' r =
        process_wal_entry-set now key q (line p r)
        ∙ rw (survivor_past now q t expires past) first in
      let gone : is_expired now q.metadata ≡ true =
        (unfold is_expired in ground (arith, expires)) in
      (
        ap (λ y. (get now key y).0) both
            ∙ get-reading now key (put key p' r)
            ∙ ap (reading now key) (lookup-put key p' r)
            ∙ unfold reading is_expired in refl,
        get-set now key key q.value q.metadata (set key p.value p.metadata s).1
            ∙ rw (str_eq_refl key, gone),
      )
