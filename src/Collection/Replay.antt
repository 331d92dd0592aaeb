-- ===== src/Collection/Replay.antt =====
-- How ProcessWalEntry of pkg/list_storage, pkg/set_storage and pkg/zset_storage reads the arguments
-- of a line.
use gomembase.Prelude.{ℕ, [], Option, none, some, Str, bytes, str_eq, if◌then◌else◌}
use gomembase.Stdlib.{GoText}

module _ ⦃g : GoText⦄ where
  -- `key, _ := url.PathUnescape(s)`: the empty text beside an error.
  abbrev pub unescaped : Str → Str
  unescaped s = elim (g.path_unescape s) [ none ↦ [] | some t ↦ t ]

  -- `value, _ := base64.StdEncoding.DecodeString(s)`
  abbrev pub decoded : Str → Str
  decoded s = elim (g.base64_decode s) [ none ↦ g.base64_beside_error s | some t ↦ t ]

  -- An expiration that does not parse is left out, and one in the past is kept.
  unfoldable pub replayed_expiry : Str → Option ℕ
  replayed_expiry s = if str_eq s (bytes "PERSISTENT") then none else g.parse_rfc3339 s
