-- ===== src/Stdlib.antt =====
-- What the engines use of Go's standard library on texts: url.PathEscape and PathUnescape, base64,
-- time.RFC3339, strconv and regexp. The operations are a parameter; `GoTextLaws` is their documented
-- behaviour. A time.Time is the number of nanoseconds since January 1 of year 1, UTC, and a
-- time.Duration an integer of nanoseconds.
use gomembase.Prelude.{ℕ, suc, ◌+◌, ◌-◌, ◌*◌, ◌/◌, ◌≡◌, ◌≢◌, Bool, Option, some, Str, bytes}
use gomembase.Prelude.Int.{ℤ, pos, negsuc, sub_ℕ}
use gomembase.Errors.{Result}

pub record GoText : Type 0 where
  pub path_escape : Str → Str
  pub path_unescape : Str → Option Str
  pub base64_encode : Str → Str
  pub base64_decode : Str → Option Str
  -- the bytes that DecodeString returns beside an error
  pub base64_beside_error : Str → Str
  -- Format and Parse with the layout time.RFC3339
  pub format_rfc3339 : ℕ → Str
  pub parse_rfc3339 : Str → Option ℕ
  -- strconv.FormatInt and ParseInt, base 10 and 64 bits; Itoa and Atoi
  pub format_int : ℤ → Str
  pub parse_int : Str → Option ℤ
  -- the number that Atoi returns beside an error
  pub atoi_beside_error : Str → ℤ
  -- regexp.Compile, with the MatchString of its result
  pub regexp_compile : Str → Result (Str → Bool)

abbrev pub second : ℕ
second = 1_000_000_000

pub record GoTextLaws (g : GoText) : Type 0 where
  pub unescape-escape : (s : Str) → g.path_unescape (g.path_escape s) ≡ some s
  pub decode-encode : (s : Str) → g.base64_decode (g.base64_encode s) ≡ some s
  -- the layout has whole seconds
  pub parse-format : (t : ℕ) → g.parse_rfc3339 (g.format_rfc3339 t) ≡ some (t / second * second)
  pub format_not_persistent : (t : ℕ) → g.format_rfc3339 t ≢ bytes "PERSISTENT"

-- t.Add(d). The year 1 is further back than any duration, so the difference does not stop at 0.
abbrev pub add_duration : ℕ → ℤ → ℕ
add_duration t (pos n) = t + n
add_duration t (negsuc n) = t - suc n

-- The Unix epoch on this scale, t.UnixNano() and time.Unix(0, n).
abbrev pub unix_epoch : ℕ
unix_epoch = 62_135_596_800 * second

unfoldable pub unix_nano : ℕ → ℤ
unix_nano t = sub_ℕ t unix_epoch

unfoldable pub time_unix : ℤ → ℕ
time_unix z = add_duration unix_epoch z
