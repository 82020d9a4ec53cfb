-- ===== src/Hwrng/Accounts.antt =====
-- What one client of app/hwcrypto/hwrng_srv.c was sent, and what is left of its request, over the
-- service of one request.
use trusty_lk_nxp.Common.{
  ℕ, ◌+◌, ◌≡◌, sym, ap, ◌∙◌, ◌⊎◌, inl, inr, true, Option, none, some, arith, Bool-cases, ◌==◌,
  if◌then◌else◌,
}
use mathlib.Core.Path.{subst}
use trusty_lk_nxp.Common.Int.{ℤ, int_eq}
use trusty_lk_nxp.Platform.{Platform}
use trusty_lk_nxp.Machine.{State, HwrngChanCtx}
use trusty_lk_nxp.Machine.Sent.{messages, bytes_sent}
use trusty_lk_nxp.Hwrng.Links.{contains, remove, contains-remove_other}
use trusty_lk_nxp.Hwrng.Fate.{OthersKept}
use trusty_lk_nxp.Hwrng.Queue.{entries}

abbrev pub left_of : Option HwrngChanCtx → ℕ
left_of none = 0
left_of (some ctx) = ctx.req_size

module _ ⦃p : Platform⦄ where
  open p use {rng_data, list_entries, list_delete}

  -- what is left of the request of the context at `a`
  abbrev pub remaining : ℕ → State → ℕ
  remaining a s = left_of (s.hwrng_ctxs a)

  -- `chan` is the channel of the context at `a`, and of no other one
  abbrev pub IsOwnChan : ℤ → ℕ → State → Type 0
  IsOwnChan chan a s =
      (b : ℕ) (ctx : HwrngChanCtx) → s.hwrng_ctxs b ≡ some ctx → int_eq ctx.chan chan ≡ (b == a)

  -- What was sent and what is left make `n`, and a request that is not queued is served.
  abbrev pub Account : ℤ → (a n : ℕ) → State → Type 0
  Account chan a n s =
      IsOwnChan chan a s
      × (bytes_sent chan (messages s.calls) + remaining a s ≡ n)
      × ((contains a (entries s) ≡ true) ⊎ (remaining a s ≡ 0))

  -- the context at `b` is sent `m` bytes, and `left` are left of its request
  abbrev pub Sends : (b : ℕ) → HwrngChanCtx → (m left : ℕ) → State → State → Type 0
  Sends b ctx m left s t =
      OthersKept b s t
      × (t.hwrng_ctxs b ≡ some (record ctx { req_size = left }))
      × ((chan : ℤ)
          → bytes_sent chan (messages t.calls)
            ≡ (if int_eq ctx.chan chan then m else 0) + bytes_sent chan (messages s.calls))
      × ((entries t ≡ entries s) ⊎ ((entries t ≡ remove b (entries s)) × (left ≡ 0)))

  abbrev chan_of : HwrngChanCtx → Option HwrngChanCtx → ℤ
  chan_of ctx none = ctx.chan
  chan_of ctx (some x) = x.chan

  module _ (chan : ℤ) (a b : ℕ) (ctx : HwrngChanCtx) (m left : ℕ) (s t : State)
      (own : IsOwnChan chan a s) (e : s.hwrng_ctxs b ≡ some ctx)
      (sends : Sends b ctx m left s t) where
    own_chan : IsOwnChan chan a t
    own_chan c d e' = elim (Bool-cases (c == b)) [
      | inl same ↦
          let q : c ≡ b = ground arith in
          let h : some d ≡ some (record ctx { req_size = left }) =
            sym e' ∙ ap t.hwrng_ctxs q ∙ sends.1 in
          ap (λ o. int_eq (chan_of ctx o) chan) h ∙ own b ctx e ∙ ap (λ x. x == a) (sym q)
      | inr other ↦ own c d (sym (sends.0 c (λ q. ground arith)) ∙ e')
    ]

    -- what was sent and what is left, of the client that is served and of another one
    total :
        m + left ≡ ctx.req_size
        → bytes_sent chan (messages t.calls) + remaining a t
          ≡ bytes_sent chan (messages s.calls) + remaining a s
    total size = elim (Bool-cases (b == a)) [
      | inl same ↦
          let q : b ≡ a = ground arith in
          let was : remaining a s ≡ ctx.req_size = ap left_of (ap s.hwrng_ctxs (sym q) ∙ e) in
          let is : remaining a t ≡ left = ap left_of (ap t.hwrng_ctxs (sym q) ∙ sends.1) in
          let more : bytes_sent chan (messages t.calls) ≡ m + bytes_sent chan (messages s.calls) =
            sends.2 chan
            ∙ ap (λ x. (if x then m else 0) + bytes_sent chan (messages s.calls))
                (own b ctx e ∙ same) in
          omega (arith, was, is, more, size)
      | inr other ↦
          let same : remaining a t ≡ remaining a s = ap left_of (sends.0 a (λ q. ground arith)) in
          let nothing : bytes_sent chan (messages t.calls)
              ≡ 0 + bytes_sent chan (messages s.calls) =
            sends.2 chan
            ∙ ap (λ x. (if x then m else 0) + bytes_sent chan (messages s.calls))
                (own b ctx e ∙ other) in
          omega (arith, same, nothing)
    ]

    -- a request that is not queued is served
    queued :
        contains b (entries s) ≡ true
        → (contains a (entries s) ≡ true) ⊎ (remaining a s ≡ 0)
        → (contains a (entries t) ≡ true) ⊎ (remaining a t ≡ 0)
    queued live was = elim (Bool-cases (b == a)) [
      | inl same ↦
          let q : b ≡ a = ground arith in
          let is : remaining a t ≡ left = ap left_of (ap t.hwrng_ctxs (sym q) ∙ sends.1) in
          elim sends.3 [
            | inl l ↦ inl (
                subst (λ q. contains a q ≡ true) (sym l)
                  (ap (λ c. contains c (entries s)) (sym q) ∙ live))
            | inr (l, done) ↦ inr (is ∙ done)
          ]
      | inr other ↦ elim was [
        | inr served ↦ inr (ap left_of (sends.0 a (λ q. ground arith)) ∙ served)
        | inl here ↦ elim sends.3 [
          | inl l ↦ inl (subst (λ q. contains a q ≡ true) (sym l) here)
          | inr (l, done) ↦ inl (
              subst (λ q. contains a q ≡ true) (sym l)
                (contains-remove_other b a (entries s) (λ q. ground arith) here))
        ]
      ]
    ]

    pub Account-Sends :
        (n : ℕ)
        → contains b (entries s) ≡ true
        → m + left ≡ ctx.req_size
        → Account chan a n s
        → Account chan a n t
    Account-Sends n live size (own', sum, was) = (own_chan, total size ∙ sum, queued live was)
