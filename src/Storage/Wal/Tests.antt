-- ===== src/Storage/Wal/Tests.antt =====
-- A logged Set at a concrete input, with encodings that avoid the bar.
use gomembase.Prelude.{
  ℕ, ◌+◌, ◌-◌, ◌/◌, ◌*◌, ◌≡◌, refl, ap, [], ◌∷◌, Option, none, some, Str, bytes, str_eq, arith,
}
use gomembase.Prelude.Int.{ℤ, pos, negsuc}
use gomembase.Errors.{ok}
use gomembase.Stdlib.{GoText, GoTextLaws, second}
use gomembase.Persistence.{replay_line}
use gomembase.Persistence.Replay.{NoBar, line_of}
use gomembase.Storage.{Payload, Storage, new_storage, put}
use gomembase.Storage.Wal.Laws.{survivor}
use gomembase.Storage.Wal.Line.{HasNoBar, kv_engines, set_entry, replay_line-set}

-- Every character moved past the bar.
abbrev shift : Str → Str
shift [] = []
shift (c ∷ s) = (c + 125) ∷ shift s

abbrev unshift : Str → Str
unshift [] = []
unshift (c ∷ s) = (c - 125) ∷ unshift s

unshift-shift : (s : Str) → unshift (shift s) ≡ s
unshift-shift [] = refl
unshift-shift (c ∷ s) = ground (arith, unshift-shift s)

shift-NoBar : (s : Str) → NoBar (shift s)
shift-NoBar [] = tt
shift-NoBar (c ∷ s) = (ground arith, shift-NoBar s)

abbrev unshift_single : Str → Option ℕ
unshift_single (n ∷ []) = some (n - 125)
unshift_single _ = none

abbrev format_signed : ℤ → Str
format_signed (pos n) = n ∷ []
format_signed (negsuc n) = 45 ∷ n ∷ []

abbrev parse_signed : Str → Option ℤ
parse_signed (n ∷ []) = some (pos n)
parse_signed (s ∷ n ∷ []) = some (negsuc n)
parse_signed _ = none

instance abbrev shifted_text : GoText
shifted_text = record {
  path_escape = shift;
  path_unescape = λ s. some (unshift s);
  base64_encode = shift;
  base64_decode = λ s. some (unshift s);
  base64_beside_error = λ s. [];
  format_rfc3339 = λ t. (t / second * second + 125) ∷ [];
  parse_rfc3339 = unshift_single;
  format_int = format_signed;
  parse_int = parse_signed;
  atoi_beside_error = λ s. pos 0;
  regexp_compile = λ r. ok (λ k. str_eq k r);
}

shifted_text-GoTextLaws : GoTextLaws shifted_text
shifted_text-GoTextLaws = record {
  unescape-escape = λ s. ap some (unshift-shift s);
  decode-encode = λ s. ap some (unshift-shift s);
  parse-format = λ t. ap some (omega arith);
  format_not_persistent = λ t e. cc e;
}

shifted_text-HasNoBar : HasNoBar shifted_text
shifted_text-HasNoBar = record {
  path_escape = shift-NoBar;
  base64_encode = shift-NoBar;
  format_rfc3339 = λ t. (ground arith, tt);
}

abbrev lasting : Payload
lasting = record { value = bytes "v|w"; metadata = record { created_at = 5; expires_at = none } }

abbrev empty_storage : Storage ℕ
empty_storage = new_storage 0

replay_line-set_example :
    replay_line (kv_engines 9) [] [] (line_of (set_entry (bytes "k|") lasting)) ([], empty_storage)
    ≡ (
      none,
      (
        [],
        elim (survivor 9 lasting) [
          | none ↦ empty_storage
          | some p' ↦ put (bytes "k|") p' empty_storage
        ],
      ),
    )
replay_line-set_example =
    replay_line-set shifted_text-GoTextLaws shifted_text-HasNoBar 9 [] (bytes "k|") lasting
      empty_storage
