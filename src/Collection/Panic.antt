-- ===== src/Collection/Panic.antt =====
-- Results of the list and set engines (pkg/list_storage, pkg/set_storage) that may be a panic of Go.
use gomembase.Prelude.{◌≡◌, ◌≢◌, refl, Option, none, some, arith}
use mathlib.Core.Path.{subst}

-- A result that is not a panic, with a property.
abbrev pub Returns : {B : Type 0} → (B → Type 0) → Option B → Type 0
Returns P none = ⊥
Returns P (some b) = P b

-- A result that, where it is not a panic, has a property.
abbrev pub IfReturns : {B : Type 0} → (B → Type 0) → Option B → Type 0
IfReturns P none = Unit
IfReturns P (some b) = P b

pub panic_free :
    {B : Type 0} (P : B → Type 0) (o : Option B) → o ≢ none → IfReturns P o → Returns P o
panic_free P none h k = absurd (h refl)
panic_free P (some b) h k = k

pub IfReturns_elim :
    {B : Type 0} (P : B → Type 0) (o : Option B) → IfReturns P o → {b : B} → o ≡ some b → P b
IfReturns_elim P none h e = absurd (ground (arith, e))
IfReturns_elim P (some a) h {b = b} e = subst P (ground (arith, e)) h

pub defined : {B : Type 0} (b : B) → some b ≢ none
defined b = ground arith

pub then-Returns :
    {A B : Type 0} {P : A → Type 0} (Q : B → Type 0) (o : Option A) (f : A → Option B)
    → Returns P o
    → ((a : A) → P a → Returns Q (f a))
    → Returns Q (elim o [ none ↦ none | some a ↦ f a ])
then-Returns Q none f h k = absurd h
then-Returns Q (some a) f h k = k a h
