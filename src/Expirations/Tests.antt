-- ===== src/Expirations/Tests.antt =====
-- The expiration heap at concrete inputs.
use gomembase.Prelude.{◌≡◌, refl, none, some, bytes, str_eq, if◌then◌else◌}
use gomembase.Prelude.Dict.{lookup, insert, delete, lookup-empty}
use gomembase.Expirations.{Expirations, no_expirations, cancel, schedule, heap_push, push, up, swap}
use gomembase.Expirations.Queue.{IsConsistent, due, IsConsistent-empty, schedule-IsConsistent}
use gomembase.Expirations.Due.{DueAs, schedule-DueAs, cancel-DueAs}

abbrev one : Expirations
one = schedule (bytes "a") 5 no_expirations

one-IsConsistent : IsConsistent one
one-IsConsistent =
    schedule-IsConsistent no_expirations IsConsistent-empty (bytes "a") 5 (lookup-empty (bytes "a"))

b_free : lookup (bytes "b") one.map ≡ none
unfolding lookup schedule insert delete str_eq heap_push push up swap
b_free = refl

schedule-DueAs_example :
    DueAs (λ j. if str_eq (bytes "b") j then some 3 else due j one) (schedule (bytes "b") 3 one)
schedule-DueAs_example = schedule-DueAs one (bytes "b") 3 one-IsConsistent b_free

cancel-DueAs_example :
    DueAs (λ j. if str_eq (bytes "a") j then none else due j one) (cancel (bytes "a") one)
cancel-DueAs_example = cancel-DueAs one (bytes "a") one-IsConsistent
