-- ===== src/Collection/Samples.antt =====
-- A logger and encodings for the tests of the list and set engines.
use gomembase.Prelude.{ℕ, ◌/◌, ◌*◌, refl, List, [], ◌∷◌, ◌++◌, Option, none, some, Str, str_eq}
use gomembase.Prelude.Int.{ℤ, pos, negsuc}
use gomembase.Errors.{ok}
use gomembase.Logger.{WalEntry, WalLogger}
use gomembase.Stdlib.{GoText, GoTextLaws, second}

-- A logger that keeps its lines.
instance abbrev pub sample_log : WalLogger (List WalEntry)
sample_log = record { log = λ l e. (none, l ++ e ∷ []) }

abbrev parse_single : Str → Option ℕ
parse_single (n ∷ []) = some n
parse_single _ = none

abbrev format_signed : ℤ → Str
format_signed (pos n) = n ∷ []
format_signed (negsuc n) = 45 ∷ n ∷ []

abbrev parse_signed : Str → Option ℤ
parse_signed (n ∷ []) = some (pos n)
parse_signed (s ∷ n ∷ []) = some (negsuc n)
parse_signed _ = none

-- Numbers as single characters, and names with no character to escape.
instance abbrev pub sample_text : GoText
sample_text = record {
  path_escape = λ s. s;
  path_unescape = λ s. some s;
  base64_encode = λ s. s;
  base64_decode = λ s. some s;
  base64_beside_error = λ s. [];
  format_rfc3339 = λ t. t / second * second ∷ [];
  parse_rfc3339 = parse_single;
  format_int = format_signed;
  parse_int = parse_signed;
  atoi_beside_error = λ s. pos 0;
  regexp_compile = λ r. ok (λ k. str_eq k r);
}

pub sample_text-GoTextLaws : GoTextLaws sample_text
sample_text-GoTextLaws = record {
  unescape-escape = λ s. refl;
  decode-encode = λ s. refl;
  parse-format = λ t. refl;
  format_not_persistent = λ t e. cc e;
}
