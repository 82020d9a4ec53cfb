-- ===== src/Hwrng/Links.antt =====
-- What app/hwcrypto/hwrng_srv.c relies on in lk/list.h: a list is the sequence of its entries, with
-- no entry twice.
use trusty_lk_nxp.Common.{
  ℕ, ◌≡◌, ◌≢◌, refl, ◌⊎◌, inl, inr, arith, Bool-cases, Bool, true, false, List, [], ◌∷◌, ◌++◌, ◌==◌,
  if◌then◌else◌,
}
use trusty_lk_nxp.Platform.{Platform}

abbrev pub contains : ℕ → List ℕ → Bool
contains a [] = false
contains a (b ∷ l) = if a == b then true else contains a l

abbrev pub remove : ℕ → List ℕ → List ℕ
remove a [] = []
remove a (b ∷ l) = if a == b then l else b ∷ remove a l

-- no entry twice
abbrev pub Unique : List ℕ → Type 0
Unique [] = Unit
Unique (a ∷ l) = (contains a l ≡ false) × Unique l

pub contains-remove : (a b : ℕ) (l : List ℕ) → contains b (remove a l) ≡ true → contains b l ≡ true
contains-remove a b [] h = h
contains-remove a b (c ∷ l) h = ground (arith, contains-remove a b l)

pub contains-remove_other :
    (a b : ℕ) (l : List ℕ) → b ≢ a → contains b l ≡ true → contains b (remove a l) ≡ true
contains-remove_other a b [] ne h = h
contains-remove_other a b (c ∷ l) ne h = ground (arith, contains-remove_other a b l ne)

pub not_contains-remove :
    (a b : ℕ) (l : List ℕ) → contains b l ≡ false → contains b (remove a l) ≡ false
not_contains-remove a b [] h = h
not_contains-remove a b (c ∷ l) h = ground (arith, not_contains-remove a b l)

pub contains-remove_self : (a : ℕ) (l : List ℕ) → Unique l → contains a (remove a l) ≡ false
contains-remove_self a [] u = refl
contains-remove_self a (c ∷ l) (h, u) = ground (arith, contains-remove_self a l u)

pub remove-Unique : (a : ℕ) (l : List ℕ) → Unique l → Unique (remove a l)
remove-Unique a [] u = tt
remove-Unique a (c ∷ l) (h, u) = elim (Bool-cases (a == c)) [
  | inl same ↦ rw same u
  | inr other ↦ rw other (not_contains-remove a c l h, remove-Unique a l u)
]

pub contains-append :
    (a b : ℕ) (l : List ℕ) → contains b (l ++ a ∷ []) ≡ true → (contains b l ≡ true) ⊎ (b ≡ a)
contains-append a b [] h = inr (ground arith)
contains-append a b (c ∷ l) h = ground (arith, contains-append a b l)

not_contains-append :
    (a b : ℕ) (l : List ℕ) → contains b l ≡ false → b ≢ a → contains b (l ++ a ∷ []) ≡ false
not_contains-append a b [] h ne = ground arith
not_contains-append a b (c ∷ l) h ne = ground (arith, not_contains-append a b l)

pub append-Unique : (a : ℕ) (l : List ℕ) → Unique l → contains a l ≡ false → Unique (l ++ a ∷ [])
append-Unique a [] u h = (refl, tt)
append-Unique a (c ∷ l) (h', u) h =
    (not_contains-append a c l h' (λ e. ground arith), append-Unique a l u (ground arith))

module _ ⦃p : Platform⦄ where
  open p use {Links, list_entries, list_in_list, list_add_tail, list_delete}

  pub record ListLaws : Type 0 where
    pub in_list : (a : ℕ) (l : Links) → list_in_list a l ≡ contains a (list_entries l)
    pub added :
        (a : ℕ) (l : Links)
        → contains a (list_entries l) ≡ false
        → list_entries (list_add_tail a l) ≡ list_entries l ++ a ∷ []
    pub deleted :
        (a : ℕ) (l : Links)
        → contains a (list_entries l) ≡ true
        → list_entries (list_delete a l) ≡ remove a (list_entries l)
