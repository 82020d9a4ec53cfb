-- ===== src/Hwrng/Shares.antt =====
-- What the service of some entries of the queue of app/hwcrypto/hwrng_srv.c does for every client, put
-- together from the service of one entry.
use trusty_lk_nxp.Common.{
  ℕ, ◌-◌, ◌<◌, ◌≡◌, ◌≢◌, refl, sym, ap, ◌∙◌, ◌⊎◌, inl, inr, Bool, true, false, List, ◌∷◌, arith,
  Bool-cases, ◌==◌, if◌then◌else◌,
}
use mathlib.Core.Path.{subst}
use trusty_lk_nxp.Platform.{Platform}
use trusty_lk_nxp.Machine.{State, HwrngChanCtx}
use trusty_lk_nxp.Hwrng.Links.{
  contains, remove, Unique, contains-remove, contains-remove_self, contains-remove_other,
}
use trusty_lk_nxp.Hwrng.Queue.{entries}
use trusty_lk_nxp.Hwrng.Accounts.{Sends}
use trusty_lk_nxp.Hwrng.Asked.{owed}

clash : {x : Bool} → x ≡ true → x ≡ false → ⊥
clash h h' = cc

contains-remove_ne : (a b : ℕ) (l : List ℕ) → b ≢ a → contains b (remove a l) ≡ contains b l
contains-remove_ne a b l ne = elim (Bool-cases (contains b l)) [
  | inl here ↦ contains-remove_other a b l ne here ∙ sym here
  | inr out ↦ elim (Bool-cases (contains b (remove a l))) [
    | inr gone ↦ gone ∙ sym out
    | inl still ↦ absurd (clash (contains-remove a b l still) out)
  ]
]

module _ ⦃p : Platform⦄ where
  -- what the client that was served is owed now, and what the others are
  pub owed_served :
      (b : ℕ) (ctx : HwrngChanCtx) (m left : ℕ) (s t : State)
      → Unique (entries s)
      → contains b (entries s) ≡ true
      → Sends b ctx m left s t
      → (owed b t ≡ left) × ((c : ℕ) → c ≢ b → owed c t ≡ owed c s)
  owed_served b ctx m left s t unique here (others, new, bytes, inl l) =
      ((rw (ap (contains b) l ∙ here, new) refl), λ c h. rw (ap (contains c) l, others c h) refl)
  owed_served b ctx m left s t unique here (others, new, bytes, inr (l, done)) = (
    (rw (ap (contains b) l ∙ contains-remove_self b (entries s) unique) (sym done)),
    λ c h. rw (ap (contains c) l ∙ contains-remove_ne b c (entries s) h, others c h) refl,
  )

  -- What the service of the entries `rest` does: each of their clients is owed 4096 bytes less, or
  -- nothing; nobody else is owed more or less; and the result says whether one of them is owed more.
  abbrev pub Shares : (rest : List ℕ) → Bool → State → Bool → State → Type 0
  Shares rest more s more' t =
      ((c : ℕ) → owed c t ≡ (if contains c rest then owed c s - 4096 else owed c s))
      × (more' ≡ true
          → (more ≡ true) ⊎ ((c : ℕ) × (contains c rest ≡ true) × (0 < owed c s - 4096)))
      × (more' ≡ false → (more ≡ false) × ((c : ℕ) → contains c rest ≡ true → owed c s - 4096 ≡ 0))

  -- one entry first, and then the others
  pub Shares-first :
      (b : ℕ) (rest : List ℕ) (more : Bool) (s : State) (more₁ : Bool) (t : State) (more' : Bool)
      (u : State)
      → contains b rest ≡ false
      → owed b t ≡ owed b s - 4096
      → ((c : ℕ) → c ≢ b → owed c t ≡ owed c s)
      → more₁ ≡ (if owed b s - 4096 == 0 then more else true)
      → Shares rest more₁ t more' u
      → Shares (b ∷ rest) more s more' u
  Shares-first b rest more s more₁ t more' u out mine others flag (shares, more_left, none_left) =
      (shares', more_left', none_left')
    where
      self : contains b (b ∷ rest) ≡ true
      self = ground arith

      behind : (c : ℕ) → contains c rest ≡ true → (c ≢ b) × (contains c (b ∷ rest) ≡ true)
      behind c h = (not_first c h, ground arith)
        where
          not_first : (c : ℕ) → contains c rest ≡ true → c ≢ b
          not_first c h e =
              let h' : contains b rest ≡ true = subst (λ x. contains x rest ≡ true) e h in cc

      shares' : (c : ℕ) → owed c u ≡ (if contains c (b ∷ rest) then owed c s - 4096 else owed c s)
      shares' c = elim (Bool-cases (c == b)) [
        | inl same ↦
            let q : c ≡ b = ground arith in
            subst (λ x. owed x u ≡ (if contains x (b ∷ rest) then owed x s - 4096 else owed x s))
              (sym q)
              (shares b
                ∙ ap (λ x. if x then owed b t - 4096 else owed b t) out
                ∙ mine
                ∙ ap (λ x. if x then owed b s - 4096 else owed b s) (sym self))
        | inr other ↦ rw other (
            shares c
            ∙ ap (λ n. if contains c rest then n - 4096 else n) (others c (λ q. ground arith)))
      ]

      more_left' :
          more' ≡ true
          → (more ≡ true) ⊎ ((c : ℕ) × (contains c (b ∷ rest) ≡ true) × (0 < owed c s - 4096))
      more_left' e = elim (more_left e) [
        | inl already ↦ elim (Bool-cases (owed b s - 4096 == 0)) [
          | inl done ↦ inl (sym (flag ∙ ap (λ x. if x then more else true) done) ∙ already)
          | inr part ↦ inr (b, self, ground arith)
        ]
        | inr (c, h, lt) ↦
            let (ne, h') = behind c h in inr (c, h', subst (λ n. 0 < n - 4096) (others c ne) lt)
      ]

      none_left' :
          more' ≡ false
          → (more ≡ false) × ((c : ℕ) → contains c (b ∷ rest) ≡ true → owed c s - 4096 ≡ 0)
      none_left' e =
          let (no_more, zeros) = none_left e in
          elim (Bool-cases (owed b s - 4096 == 0)) [
            | inr part ↦ absurd (clash (flag ∙ ap (λ x. if x then more else true) part) no_more)
            | inl done ↦ (
              sym (flag ∙ ap (λ x. if x then more else true) done) ∙ no_more,
              λ c h. elim (Bool-cases (c == b)) [
                | inl same ↦
                    let q : c ≡ b = ground arith in
                    subst (λ x. owed x s - 4096 ≡ 0) (sym q) (ground arith)
                | inr other ↦
                    let h' : contains c rest ≡ true = rw other at h in
                    subst (λ n. n - 4096 ≡ 0) (others c (behind c h').0) (zeros c h')
              ],
            )
          ]
