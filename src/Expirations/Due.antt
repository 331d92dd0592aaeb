-- ===== src/Expirations/Due.antt =====
-- What scheduling and cancelling (the calls of pkg/storage/storage.go on pkg/storage/heap.go) change
-- for each key, on the heap and in the map.
use gomembase.Prelude.{ℕ, ◌≡◌, Option, none, some, Str, str_eq, if◌then◌else◌}
use gomembase.Prelude.Dict.{lookup}
use gomembase.Expirations.{Expirations, cancel, schedule}
use gomembase.Expirations.Queue.{
  IsConsistent, due, schedule-IsConsistent, due-schedule, cancel-IsConsistent, due-cancel,
}

-- Heap and map hold the same entries, one for each key, at the times that `times` gives.
abbrev pub DueAs : (Str → Option ℕ) → Expirations → Type 0
DueAs times x = IsConsistent x × ((j : Str) → due j x ≡ times j)

-- Where heap and map hold the same entries, one for each key, each of which knows its place on the
-- heap: after a key that had no expiration is scheduled, they still do, the key is due at the time
-- given, and the other keys when they were.
pub schedule-DueAs :
    (x : Expirations) (k : Str) (t : ℕ)
    → IsConsistent x
    → lookup k x.map ≡ none
    → DueAs (λ j. if str_eq k j then some t else due j x) (schedule k t x)
schedule-DueAs x k t v free = (schedule-IsConsistent x v k t free, due-schedule x v k t free)

-- Where heap and map hold the same entries, one for each key, each of which knows its place on the
-- heap: after a key is cancelled, scheduled or not, they still do, the key is not due, and the
-- other keys are due when they were.
pub cancel-DueAs :
    (x : Expirations) (k : Str)
    → IsConsistent x
    → DueAs (λ j. if str_eq k j then none else due j x) (cancel k x)
cancel-DueAs x k v = (cancel-IsConsistent x v k, due-cancel x v k)
