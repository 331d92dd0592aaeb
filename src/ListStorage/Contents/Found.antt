-- ===== src/ListStorage/Contents/Found.antt =====
-- What the decisions of pkg/list_storage/list_storage.go say of the list that is found under a key.
use gomembase.Prelude.{
  ℕ, ◌≡◌, ◌≢◌, refl, Bool, true, false, List, [], Option, none, some, Str, arith,
}
use mathlib.Core.Path.{subst}
use gomembase.Logger.{WalLogger}
use gomembase.Collection.{Value, is_expired, log}
use gomembase.Collection.Live.{live}
use gomembase.ListStorage.{ListStorage, engine_id, ◌>>=◌, pushed_value, moved_value}
use gomembase.ListStorage.Elements.{take_end, take_front, take_back}
use gomembase.ListStorage.Ops.{is_empty_list}
use gomembase.Collection.Panic.{Returns}
use gomembase.Collection.Contents.{elements, contents, View}
use gomembase.ListStorage.Refinement.{popped_view, moved_view}

live-pushed_value :
    (now : ℕ) (e : Option ℕ) (o : Option (Value (List Str)))
    → is_expired now e ≡ false
    → is_expired now (pushed_value now e (live now o)).expires_at ≡ false
unfolding live pushed_value is_expired
live-pushed_value now none none h = h
live-pushed_value now (some t) none h = h
live-pushed_value now none (some v) h = ground (arith, h)
live-pushed_value now (some t) (some v) h = ground (arith, h)

value-pushed_value :
    (now : ℕ) (e : Option ℕ) (o : Option (Value (List Str)))
    → (pushed_value now e o).value ≡ elements o
unfolding pushed_value elements
value-pushed_value now none none = refl
value-pushed_value now (some t) none = refl
value-pushed_value now none (some v) = refl
value-pushed_value now (some t) (some v) = refl

pub contents-log :
    {L : Type 0} ⦃w : WalLogger L⦄ (now : ℕ) (j action : Str) (args : List Str) (s : ListStorage L)
    → contents now j (log engine_id action args s).1 ≡ contents now j s
unfolding contents log
contents-log now j action args s = refl

pub bind_found :
    {A B : Type 0} (P : B → Type 0) (o : Option A) (f : A → Option B) {a : A}
    → o ≡ some a
    → Returns P (f a)
    → Returns P (o >>= f)
bind_found P none f e h = absurd (ground (arith, e))
bind_found P (some b) f {a = a} e h =
    subst (λ x. Returns P (f x)) (let same : a ≡ b = ground (arith, e) in same) h

pub option_rec : {A P : Type 0} (o : Option A) → (o ≡ none → P) → ((a : A) → o ≡ some a → P) → P
option_rec none h k = h refl
option_rec (some a) h k = k a refl

pub live_fresh :
    (now : ℕ) (o : Option (Value (List Str))) {v : Value (List Str)}
    → live now o ≡ some v
    → is_expired now v.expires_at ≡ false
unfolding live is_expired
live_fresh now none e = absurd (ground (arith, e))
live_fresh now (some v) e = ground (arith, e)

pub empty_elements : (o : Option (Value (List Str))) → is_empty_list o ≡ true → elements o ≡ []
unfolding elements
empty_elements none h = refl
empty_elements (some v) h = ground (arith, h)

pub popped_none :
    (left : Bool) (k j : Str) (view : View) → view k ≡ [] → popped_view left k view j ≡ view j
unfolding popped_view take_end take_front take_back
popped_none true k j view h = ground (arith, h)
popped_none false k j view h = ground (arith, h)

pub moved_none :
    (src_left dst_left : Bool) (from to j : Str) (view : View)
    → view from ≡ []
    → moved_view from to src_left dst_left view j ≡ view j
unfolding moved_view take_end take_front take_back
moved_none true dst_left from to j view h = ground (arith, h)
moved_none false dst_left from to j view h = ground (arith, h)

pub full_list :
    (o : Option (Value (List Str)))
    → is_empty_list o ≡ false
    → (v : Value (List Str)) × (o ≡ some v) × (v.value ≢ [])
full_list none h = absurd (ground (arith, h))
full_list (some v) h = (v, refl, λ e. absurd (ground (arith, e, h)))

pub fresh-moved_value :
    (now : ℕ) (o : Option (Value (List Str)))
    → live now o ≡ o
    → is_expired now (moved_value now o).expires_at ≡ false
unfolding moved_value live is_expired
fresh-moved_value now none h = refl
fresh-moved_value now (some v) h = ground (arith, h)

pub value-moved_value :
    (now : ℕ) (o : Option (Value (List Str))) → (moved_value now o).value ≡ elements o
unfolding moved_value elements
value-moved_value now none = refl
value-moved_value now (some v) = refl
