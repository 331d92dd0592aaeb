-- ===== src/ListStorage/Replay.antt =====
-- ProcessWalEntry of pkg/list_storage/list_storage.go on the lines that the list methods log.
use gomembase.Prelude.{
  ℕ, ◌≡◌, refl, Bool, true, false, List, [], ◌∷◌, map, Option, none, some, Str, bytes, str_eq,
  str_eq_iff, ◌/◌, ◌*◌, arith,
}
use gomembase.Stdlib.{GoText, GoTextLaws, second}
use gomembase.Storage.{expires_str}
use gomembase.Storage.Wal.{or_raw}
use gomembase.Collection.Replay.{unescaped, decoded, replayed_expiry}
use gomembase.ListStorage.{
  ListStorage, ◌>>=◌, push_no_lock_and_no_wal, pop_no_lock_and_no_wal, move_no_lock_and_no_wal,
  replace_no_lock_and_no_wal, insert_no_lock_and_no_wal, remove_no_lock_and_no_wal,
}
use gomembase.ListStorage.Ops.{
  push_action, push_args, pop_action, move_args, replace_args, insert_args, remove_args, bool_str,
}
use gomembase.ListStorage.Wal.{
  decoded_or_raw, process_push, process_pop, process_move, process_replace, process_insert,
  process_remove, process_wal_entry,
}
use gomembase.ListStorage.Edits.{
  Edit, edit_left_push, edit_right_push, edit_left_pop, edit_right_pop, edit_move, edit_replace,
  edit_insert, edit_remove, state_of,
}

-- An expiration in a line has whole seconds.
abbrev pub whole_seconds : Option ℕ → Option ℕ
whole_seconds none = none
whole_seconds (some t) = some (t / second * second)

-- The edit without its lock and its line.
unfoldable pub applied : {L : Type 0} → ℕ → Edit → ListStorage L → Option (ListStorage L)
applied now (edit_left_push key values e) s =
    some (push_no_lock_and_no_wal now key values (whole_seconds e) true s)
applied now (edit_right_push key values e) s =
    some (push_no_lock_and_no_wal now key values (whole_seconds e) false s)
applied now (edit_left_pop key) s = state_of (pop_no_lock_and_no_wal key true s)
applied now (edit_right_pop key) s = state_of (pop_no_lock_and_no_wal key false s)
applied now (edit_move from to src_left dst_left) s =
    state_of (move_no_lock_and_no_wal now from to src_left dst_left s)
applied now (edit_replace key i value) s = replace_no_lock_and_no_wal key i value s
applied now (edit_insert key pivot value before) s =
    state_of (insert_no_lock_and_no_wal key pivot value before s)
applied now (edit_remove key count element) s =
    state_of (remove_no_lock_and_no_wal key count element s)

bind_state : {L R : Type 0} (o : Option (R × ListStorage L)) → (o >>= (λ r. some r.1)) ≡ state_of o
bind_state none = refl
bind_state (some r) = refl

module _ ⦃g : GoText⦄ where
  -- The line of an edit.
  abbrev pub line_of : Edit → Str × List Str
  line_of (edit_left_push key values e) = (push_action true, push_args key values e)
  line_of (edit_right_push key values e) = (push_action false, push_args key values e)
  line_of (edit_left_pop key) = (pop_action true, g.path_escape key ∷ [])
  line_of (edit_right_pop key) = (pop_action false, g.path_escape key ∷ [])
  line_of (edit_move from to src_left dst_left) =
      (bytes "MOVE", move_args from to src_left dst_left)
  line_of (edit_replace key i value) = (bytes "REPLACE", replace_args key i value)
  line_of (edit_insert key pivot value before) =
      (bytes "INSERT", insert_args key pivot value before)
  line_of (edit_remove key count element) = (bytes "REMOVE", remove_args key count element)

  -- The number in the line, if there is one, is read back.
  abbrev pub Parses : Edit → Type 0
  Parses (edit_replace key i value) = g.parse_int (g.format_int i) ≡ some i
  Parses (edit_remove key count element) = g.parse_int (g.format_int count) ≡ some count
  Parses edit = Unit

  module _ (laws : GoTextLaws g) where
    unescaped-escape : (k : Str) → unescaped (g.path_escape k) ≡ k
    unescaped-escape k = ground (arith, laws.unescape-escape k)

    decoded-encode : (v : Str) → decoded (g.base64_encode v) ≡ v
    decoded-encode v = ground (arith, laws.decode-encode v)

    decoded_or_raw-encode : (v : Str) → decoded_or_raw (g.base64_encode v) ≡ v
    decoded_or_raw-encode v = ground (arith, laws.decode-encode v)

    or_raw-escape : (k : Str) → or_raw (g.path_unescape (g.path_escape k)) (g.path_escape k) ≡ k
    or_raw-escape k = ground (arith, laws.unescape-escape k)

    decoded_values : (values : List Str) → map decoded_or_raw (map g.base64_encode values) ≡ values
    decoded_values [] = refl
    decoded_values (v ∷ vs) = ground (arith, decoded_or_raw-encode v, decoded_values vs)

    pub replayed_expiry-expires_str :
        (e : Option ℕ) → replayed_expiry (expires_str e) ≡ whole_seconds e
    unfolding replayed_expiry str_eq
    replayed_expiry-expires_str none = refl
    replayed_expiry-expires_str (some t) = ground (
      arith,
      laws.parse-format t,
      laws.format_not_persistent t,
      str_eq_iff (g.format_rfc3339 t) (bytes "PERSISTENT"),
    )

    bool_read : (b : Bool) → str_eq (bool_str b) (bytes "true") ≡ b
    unfolding str_eq
    bool_read true = refl
    bool_read false = refl

    -- The replay of the line of an edit is the method's function without lock and line, on the same
    -- arguments.
    pub process_wal_entry-line_of :
        {L : Type 0} (now : ℕ) (edit : Edit) (s : ListStorage L)
        → Parses edit
        → process_wal_entry now (line_of edit).0 (line_of edit).1 s ≡ applied now edit s
    unfolding process_wal_entry applied str_eq process_push process_pop process_move process_replace
        process_insert process_remove
    process_wal_entry-line_of now (edit_left_push key values e) s h =
        ground (arith, or_raw-escape key, decoded_values values, replayed_expiry-expires_str e)
    process_wal_entry-line_of now (edit_right_push key values e) s h =
        ground (arith, or_raw-escape key, decoded_values values, replayed_expiry-expires_str e)
    process_wal_entry-line_of now (edit_left_pop key) s h =
        ground (arith, or_raw-escape key, bind_state (pop_no_lock_and_no_wal key true s))
    process_wal_entry-line_of now (edit_right_pop key) s h =
        ground (arith, or_raw-escape key, bind_state (pop_no_lock_and_no_wal key false s))
    process_wal_entry-line_of now (edit_move from to src_left dst_left) s h = ground (
      arith,
      unescaped-escape from,
      unescaped-escape to,
      bool_read src_left,
      bool_read dst_left,
      bind_state (move_no_lock_and_no_wal now from to src_left dst_left s),
    )
    process_wal_entry-line_of now (edit_replace key i value) s h =
        ground (arith, h, unescaped-escape key, decoded_or_raw-encode value)
    process_wal_entry-line_of now (edit_insert key pivot value before) s h = ground (
      arith,
      unescaped-escape key,
      decoded-encode pivot,
      decoded-encode value,
      bool_read before,
      bind_state (insert_no_lock_and_no_wal key pivot value before s),
    )
    process_wal_entry-line_of now (edit_remove key count element) s h = ground (
      arith,
      h,
      unescaped-escape key,
      decoded-encode element,
      bind_state (remove_no_lock_and_no_wal key count element s),
    )
