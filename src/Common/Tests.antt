-- ===== src/Common/Tests.antt =====
-- Boolean tests on the native numbers, the conditional, and case lemmas.
use Prim.Native.Nat.{ℕ, ◌<◌, compare, Ordering}
use mathlib.Core.Path.{◌≡◌, refl, sym, ◌∙◌, subst}
use mathlib.Core.Logic.{◌≢◌, ◌↔◌, ◌⊎◌, inl, inr}
use mathlib.Core.Bool.{Bool, true, false}
use mathlib.Core.Option.{Option, none, some}
use mathlib.Core.List.{List, [], ◌∷◌}
use native.Mathlib.Omega.{arith}

abbrev pub ltb : ℕ → ℕ → Bool
ltb a b = elim (compare a b) [ Ordering.lt ↦ true | _ ↦ false ]

abbrev pub leb : ℕ → ℕ → Bool
leb a b = elim (compare a b) [ Ordering.gt ↦ false | _ ↦ true ]

infix 50 ◌==◌
abbrev pub ◌==◌ : ℕ → ℕ → Bool
a == b = elim (compare a b) [ Ordering.eq ↦ true | _ ↦ false ]

infix 1 if◌then◌else◌
abbrev pub if◌then◌else◌ {ℓ} : {A : Type ℓ} → Bool → A → A → A
if true then x else y = x
if false then x else y = y

pub lt→ltb : (a b : ℕ) → a < b → ltb a b ≡ true
lt→ltb a b h = ground arith

pub ==_iff : (a b : ℕ) → ((a == b) ≡ true) ↔ (a ≡ b)
==_iff a b = ground arith

pub Bool-cases : (b : Bool) → (b ≡ true) ⊎ (b ≡ false)
Bool-cases true = inl refl
Bool-cases false = inr refl

pub Option-cases {ℓ} : {A : Type ℓ} (o : Option A) → (o ≡ none) ⊎ ((a : A) × (o ≡ some a))
Option-cases none = inl refl
Option-cases (some a) = inr (a, refl)

-- Equality of byte strings, as by `strcmp` or `memcmp` against 0.
abbrev pub bytes_eq : List ℕ → List ℕ → Bool
bytes_eq [] [] = true
bytes_eq (a ∷ as') (b ∷ bs) = if a == b then bytes_eq as' bs else false
bytes_eq _ _ = false

pub bytes_eq_refl : (l : List ℕ) → bytes_eq l l ≡ true
bytes_eq_refl [] = refl
bytes_eq_refl (a ∷ l) = ground (arith, bytes_eq_refl l)

pub eq_of_bytes_eq : (k l : List ℕ) → bytes_eq k l ≡ true → k ≡ l
eq_of_bytes_eq [] [] h = refl
eq_of_bytes_eq [] (b ∷ l) h = ground arith
eq_of_bytes_eq (a ∷ k) [] h = ground arith
eq_of_bytes_eq (a ∷ k) (b ∷ l) h = ground (arith, eq_of_bytes_eq k l)

-- The entry that was set, and another one.
pub if_same : {A : Type 0} (a : ℕ) (x y : A) → (if a == a then x else y) ≡ x
if_same a x y = ground arith

pub if_other : {A : Type 0} (a b : ℕ) (x y : A) → b ≢ a → (if b == a then x else y) ≡ y
if_other a b x y h = ground arith

-- What holds of every entry of a map holds of every entry after one was set, or taken out.
pub set-All :
    {A : Type 0} (P : ℕ → A → Type 0) (a : ℕ) (c : Option A) (f : ℕ → Option A)
    → ((b : ℕ) (x : A) → f b ≡ some x → P b x)
    → ((x : A) → c ≡ some x → P a x)
    → (b : ℕ) (x : A) → (if b == a then c else f b) ≡ some x
    → P b x
set-All P a c f before here b x e = elim (Bool-cases (b == a)) [
  | inl same ↦
      let e' : b ≡ a = ground arith in
      subst (λ y. P y x) (sym e')
        (here x (sym (if_same a c (f a)) ∙ subst (λ y. (if y == a then c else f y) ≡ some x) e' e))
  | inr other ↦ before b x (sym (if_other a b _ _ (λ e'. ground arith)) ∙ e)
]
