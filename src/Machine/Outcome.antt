-- ===== src/Machine/Outcome.antt =====
-- How a command may end, with a rule for the sequence of two. `strict` asks that it returns; without
-- it a command may also stop by an assert or an abort, or wait for ever. Neither allows a fault.
use trusty_lk_nxp.Common.{◌≡◌, refl, Bool, true, false, if◌then◌else◌}
use trusty_lk_nxp.Machine.{Run, ok, aborted, fault, hang, and_then}

pub data Ensures {S A : Type 0} (strict : Bool) (P : A → S → Type 0) : Run S A → Type 0 where
  returned : {a : A} {s : S} → P a s → Ensures strict P (ok a s)
  stopped : {s : S} → strict ≡ false → Ensures strict P (aborted s)
  waiting : {s : S} → strict ≡ false → Ensures strict P (hang s)

-- what holds of a command that has returned
abbrev pub Returned : {S A : Type 0} → (A → S → Type 0) → Run S A → Type 0
Returned P (ok a s) = P a s
Returned P _ = ⊥

pub of_Returned :
    {S A : Type 0} {strict : Bool} (P : A → S → Type 0) (r : Run S A)
    → Returned P r
    → Ensures strict P r
of_Returned P (ok a s) h = returned h
of_Returned P (aborted s) h = absurd h
of_Returned P (fault s) h = absurd h
of_Returned P (hang s) h = absurd h

module _ {S A : Type 0} {strict : Bool} {P : A → S → Type 0} where
  pub bind :
      {B : Type 0} {Q : B → S → Type 0} {r : Run S A} {k : A → S → Run S B}
      → Ensures strict P r
      → ((a : A) (s : S) → P a s → Ensures strict Q (k a s))
      → Ensures strict Q (and_then r k)
  bind (returned h) next = next _ _ h
  bind (stopped e) next = stopped e
  bind (waiting e) next = waiting e

  pub mono :
      {Q : A → S → Type 0} {r : Run S A}
      → Ensures strict P r
      → ((a : A) (s : S) → P a s → Q a s)
      → Ensures strict Q r
  mono (returned h) weaken = returned (weaken _ _ h)
  mono (stopped e) weaken = stopped e
  mono (waiting e) weaken = waiting e

-- A command stops, or waits for ever, only where nothing asks that it returns.
pub Ensures-aborted :
    {S A : Type 0} {strict : Bool} {P : A → S → Type 0} {s : S}
    → (strict ≡ true → ⊥)
    → Ensures strict P (aborted s)
Ensures-aborted {strict = false} h = stopped refl
Ensures-aborted {strict = true} h = absurd (h refl)

pub Ensures-hang :
    {S A : Type 0} {strict : Bool} {P : A → S → Type 0} {s : S}
    → (strict ≡ true → ⊥)
    → Ensures strict P (hang s)
Ensures-hang {strict = false} h = waiting refl
Ensures-hang {strict = true} h = absurd (h refl)

-- a command that must return, and one that at least does no harm
abbrev pub Returns : {S A : Type 0} → (A → S → Type 0) → Run S A → Type 0
Returns = Ensures true

abbrev pub Safely : {S A : Type 0} → (A → S → Type 0) → Run S A → Type 0
Safely = Ensures false

-- A test that the command makes on the way, by cases.
pub Ensures-if :
    {S A : Type 0} {strict : Bool} {P : A → S → Type 0} (b : Bool) (x y : S → Run S A) (s : S)
    → (b ≡ true → Ensures strict P (x s))
    → (b ≡ false → Ensures strict P (y s))
    → Ensures strict P ((if b then x else y) s)
Ensures-if true x y s hx hy = hx refl
Ensures-if false x y s hx hy = hy refl

-- Two things that hold of one command.
pub both :
    {S A : Type 0} {strict : Bool} {P Q : A → S → Type 0} {r : Run S A}
    → Ensures strict P r
    → Ensures strict Q r
    → Ensures strict (λ a s. P a s × Q a s) r
both (returned h) (returned h') = returned (h, h')
both (stopped e) h = stopped e
both (waiting e) h = waiting e

-- what holds of a command if it returns
pub data Partial {S A : Type 0} (P : A → S → Type 0) : Run S A → Type 0 where
  if_returned : {a : A} {s : S} → P a s → Partial P (ok a s)
  if_aborted : {s : S} → Partial P (aborted s)
  if_fault : {s : S} → Partial P (fault s)
  if_hang : {s : S} → Partial P (hang s)

pub Partial-bind :
    {S A B : Type 0} {P : A → S → Type 0} {Q : B → S → Type 0} {r : Run S A} {k : A → S → Run S B}
    → Partial P r
    → ((a : A) (s : S) → P a s → Partial Q (k a s))
    → Partial Q (and_then r k)
Partial-bind (if_returned h) next = next _ _ h
Partial-bind if_aborted next = if_aborted
Partial-bind if_fault next = if_fault
Partial-bind if_hang next = if_hang

pub Partial-Ensures :
    {S A : Type 0} {strict : Bool} {P : A → S → Type 0} {r : Run S A}
    → Ensures strict P r
    → Partial P r
Partial-Ensures (returned h) = if_returned h
Partial-Ensures (stopped e) = if_aborted
Partial-Ensures (waiting e) = if_hang

pub Partial-mono :
    {S A : Type 0} {P Q : A → S → Type 0} {r : Run S A}
    → Partial P r
    → ((a : A) (s : S) → P a s → Q a s)
    → Partial Q r
Partial-mono (if_returned h) weaken = if_returned (weaken _ _ h)
Partial-mono if_aborted weaken = if_aborted
Partial-mono if_fault weaken = if_fault
Partial-mono if_hang weaken = if_hang

pub Ensures-Partial :
    {S A : Type 0} {strict : Bool} {P Q : A → S → Type 0} {r : Run S A}
    → Ensures strict P r
    → Partial Q r
    → Ensures strict (λ a s. P a s × Q a s) r
Ensures-Partial (returned h) (if_returned h') = returned (h, h')
Ensures-Partial (stopped e) h' = stopped e
Ensures-Partial (waiting e) h' = waiting e

-- The run that ends so.
pub Ensures-run :
    {S A : Type 0} {strict : Bool} {P : A → S → Type 0} {r : Run S A}
    → Ensures strict P r
    → Ensures strict (λ a s. P a s × (r ≡ ok a s)) r
Ensures-run (returned h) = returned (h, refl)
Ensures-run (stopped e) = stopped e
Ensures-run (waiting e) = waiting e

pub returned_lem :
    {S A : Type 0} {strict : Bool} {P : A → S → Type 0} {a : A} {s : S}
    → Ensures strict P (ok a s)
    → P a s
returned_lem (returned h) = h

pub and_then_assoc :
    {S A B C : Type 0} (r : Run S A) (f : A → S → Run S B) (g : B → S → Run S C)
    → and_then (and_then r f) g ≡ and_then r (λ a s. and_then (f a s) g)
and_then_assoc (ok a s) f g = refl
and_then_assoc (aborted s) f g = refl
and_then_assoc (fault s) f g = refl
and_then_assoc (hang s) f g = refl
