-- ===== src/ListStorage/Negative.antt =====
-- ReplaceAtIndex of pkg/list_storage/list_storage.go at a negative index, and ProcessWalEntry on the
-- line that it logs.
use gomembase.Prelude.{ℕ, List, none, Str}
use gomembase.Prelude.Int.{pos}
use gomembase.Collection.{Value, store}
use gomembase.ListStorage.{ListStorage}
use gomembase.ListStorage.Elements.{replace_loop}

-- The state with the element at an index from the front replaced.
abbrev pub with_element :
    {L : Type 0} → Str → ℕ → Str → Value (List Str) → ListStorage L → ListStorage L
with_element k i value v s =
    store k (record v { value = replace_loop 0 (pos i) value v.value }) none s
