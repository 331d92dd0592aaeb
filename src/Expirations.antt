-- ===== src/Expirations.antt =====
-- The expiration heap of a storage engine with its map from keys: pkg/storage/heap.go (the same code
-- as in the three other engines), container/heap of Go's library over it, and the pair of calls by
-- which an engine schedules and cancels the expiration of a key.
pub mod Swap
pub mod Loops
pub mod Push
pub mod Remove
pub mod Queue
pub mod Due
pub mod Fuel
mod Tests
use gomembase.Prelude.{
  ℕ, zero, suc, ◌+◌, ◌-◌, ◌*◌, ◌/◌, Bool, true, false, ◌&&◌, List, [], ◌∷◌, ◌++◌, Option, none,
  some, Str, length, get_or, set, take, ltb, leb, ◌==◌, if◌then◌else◌,
}
use gomembase.Prelude.Dict.{Dict, lookup, insert, delete}

-- An entry is shared by the heap and the map: both hold its address. `index` is -1 (here `none`)
-- when Pop has taken it off the heap.
pub record ExpirationEntry : Type 0 where
  pub key : Str
  pub expires_at : ℕ
  pub index : Option ℕ

abbrev pub no_entry : ExpirationEntry
no_entry = record { key = []; expires_at = 0; index = none }

-- `expirations` and `expirationMap` of an engine, with the entries at their addresses.
pub record Expirations : Type 0 where
  pub store : List ExpirationEntry
  pub heap : List ℕ
  pub map : Dict ℕ

abbrev pub no_expirations : Expirations
no_expirations = record { store = []; heap = []; map = [] }

-- The entry at an address, and at a place of the heap.
abbrev pub entry : Expirations → ℕ → ExpirationEntry
entry x a = get_or x.store a no_entry

abbrev pub addr_at : Expirations → ℕ → ℕ
addr_at x i = get_or x.heap i 0

abbrev pub entry_at : Expirations → ℕ → ExpirationEntry
entry_at x i = entry x (addr_at x i)

abbrev pub set_index : Expirations → ℕ → Option ℕ → Expirations
set_index x a i = record x { store = set x.store a (record (entry x a) { index = i }) }

unfoldable pub less : Expirations → ℕ → ℕ → Bool
less x i j = ltb (entry_at x i).expires_at (entry_at x j).expires_at

-- `eh[i], eh[j] = eh[j], eh[i]`, then both indices, in the order of the source.
unfoldable pub swap : Expirations → ℕ → ℕ → Expirations
swap x i j =
    let a = addr_at x i in
    let b = addr_at x j in
    let moved : Expirations = record x { heap = set (set x.heap i b) j a } in
    set_index (set_index moved b (some i)) a (some j)

-- Push of heap.go, for a new entry, whose address is the next one.
unfoldable pub push : Expirations → Str → ℕ → Expirations
push x key expires_at = record x {
  store =
      x.store ++ record { key = key; expires_at = expires_at; index = some (length x.heap) } ∷ [];
  heap = x.heap ++ length x.store ∷ [];
}

-- Pop of heap.go on a heap that is not empty.
unfoldable pub pop : Expirations → Expirations
pop x =
    let last = length x.heap - 1 in
    set_index (record x { heap = take last x.heap }) (addr_at x last) none

-- up of container/heap; `fuel` above `j` is enough, as `j` falls.
unfoldable pub up : ℕ → Expirations → ℕ → Expirations
up zero x j = x
up (suc fuel) x j =
    let i = (j - 1) / 2 in
    let rest = up fuel (swap x i j) i in if i == j then x else if less x j i then rest else x

-- The child that down compares with.
unfoldable pub smaller_child : Expirations → ℕ → ℕ → ℕ
smaller_child x i n =
    let j1 = 2 * i + 1 in if ltb (j1 + 1) n && less x (j1 + 1) j1 then j1 + 1 else j1

-- down of container/heap: the heap, and where the entry came to rest. `fuel` above `n - i` is enough.
unfoldable pub down : ℕ → Expirations → ℕ → ℕ → Expirations × ℕ
down zero x i n = (x, i)
down (suc fuel) x i n =
    let j = smaller_child x i n in
    let rest = down fuel (swap x i j) j n in
    if leb n (2 * i + 1) then (x, i) else if less x j i then rest else (x, i)

-- heap.Push
unfoldable pub heap_push : Expirations → Str → ℕ → Expirations
unfolding push
heap_push x key expires_at =
    let x' = push x key expires_at in up (length x'.heap) x' (length x'.heap - 1)

-- The first part of heap.Remove: the entry at `i` changes places with the last one, which is sifted.
unfoldable pub detach : Expirations → ℕ → Expirations
detach x i =
    let n = length x.heap - 1 in
    let (sunk, place) = down (n + 1) (swap x i n) i n in
    if n == i then x else if ltb i place then sunk else up (i + 1) sunk i

-- heap.Remove. An index that is -1 or out of range would panic in Go; here it changes nothing.
unfoldable pub heap_remove : Expirations → Option ℕ → Expirations
heap_remove x none = x
heap_remove x (some i) = if ltb i (length x.heap) then pop (detach x i) else x

remove_found : Option ℕ → Str → Expirations → Expirations
remove_found none key x = x
remove_found (some a) key x =
    let x' = heap_remove x (entry x a).index in record x' { map = delete key x'.map }

-- `if entry, ok := expirationMap[key]; ok { heap.Remove(…, entry.index); delete(…) }`
unfoldable pub cancel : Str → Expirations → Expirations
unfolding remove_found
cancel key x = remove_found (lookup key x.map) key x

-- `entry := &ExpirationEntry{…}; heap.Push(…); expirationMap[key] = entry`
unfoldable pub schedule : Str → ℕ → Expirations → Expirations
schedule key expires_at x =
    let x' = heap_push x key expires_at in record x' { map = insert key (length x.store) x'.map }

-- The expiration of a key that is written anew, in place of the old one.
abbrev pub reschedule : Str → Option ℕ → Expirations → Expirations
reschedule key none x = cancel key x
reschedule key (some t) x = schedule key t (cancel key x)

-- The expiration of a key that is added to: without a new one the old one stays. The source cuts the
-- old entry off the heap alone, since its place in the map is overwritten at once.
abbrev pub extend : Str → Option ℕ → Expirations → Expirations
extend key none x = x
extend key (some t) x = schedule key t (cancel key x)
