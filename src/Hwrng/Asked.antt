-- ===== src/Hwrng/Asked.antt =====
-- What is queued for a client that asks for more bytes (queue_request of app/hwcrypto/hwrng_srv.c).
use trusty_lk_nxp.Common.{
  List, ℕ, ◌+◌, ◌%◌, ◌^◌, ◌<◌, ◌≡◌, ◌≢◌, refl, sym, ap, ◌∙◌, inl, inr, Bool, true, false, some, [],
  ◌∷◌, ◌++◌, arith, Bool-cases, ◌==◌, if_same, if_other, if◌then◌else◌,
}
use trusty_lk_nxp.Platform.{Platform}
use trusty_lk_nxp.Machine.{State, HwrngChanCtx}
use trusty_lk_nxp.Machine.Outcome.{Ensures, of_Returned}
use trusty_lk_nxp.Caam.Frame.{kept}
use trusty_lk_nxp.Caam.Ring.{u32}
use trusty_lk_nxp.Hwrng.Links.{contains, ListLaws}
use trusty_lk_nxp.Hwrng.Server.{queue_request}
use trusty_lk_nxp.Hwrng.Queue.{entries}
use trusty_lk_nxp.Hwrng.Fate.{OthersKept}
use trusty_lk_nxp.Hwrng.Accounts.{left_of, remaining}

-- one entry more at the end of a list
contains-append_one :
    (a b : ℕ) (l : List ℕ) → contains b (l ++ a ∷ []) ≡ (if contains b l then true else b == a)
contains-append_one a b [] = ground arith
contains-append_one a b (c ∷ l) = ground (arith, contains-append_one a b l)

module _ ⦃p : Platform⦄ where
  open p use {hwrng_req_size, hwrng_req_len, list_entries, list_in_list, list_add_tail}

  -- how many bytes the client with the context at `a` has still to be sent
  abbrev pub owed : ℕ → State → ℕ
  owed a s = if contains a (entries s) then remaining a s else 0

  -- What a client is owed grows by `len`, modulo 2^32; what the others are owed does not change.
  abbrev pub Grown : (a len : ℕ) → State → State → Type 0
  Grown a len s t = (owed a t ≡ (owed a s + len) % 2 ^ 32) × ((b : ℕ) → b ≢ a → owed b t ≡ owed b s)

  -- what a client is owed after it has asked for `len` bytes
  abbrev pub asked_total : (a len : ℕ) → State → ℕ
  asked_total a len s = (owed a s + len) % 2 ^ 32

  -- The request of the client at `a` is now of `n` bytes, and in the queue; the others are as before.
  abbrev pub Requested : (a : ℕ) → HwrngChanCtx → (n : ℕ) → State → State → Type 0
  Requested a ctx n s t =
      (t.hwrng_ctxs a ≡ some (record ctx { req_size = n }))
      × (contains a (entries t) ≡ true)
      × OthersKept a s t
      × ((b : ℕ) → b ≢ a → contains b (entries t) ≡ contains b (entries s))

  pub Requested-Grown :
      (a len : ℕ) (ctx : HwrngChanCtx) (s t : State)
      → Requested a ctx (asked_total a len s) s t
      → Grown a len s t
  Requested-Grown a len ctx s t (e, here, others, queue) =
      ((rw (here, e) refl), λ b h. rw (queue b h, others b h) refl)

  pub Requested-kept :
      (a len : ℕ) (ctx : HwrngChanCtx) (s t u : State)
      → kept t ≡ kept s
      → Requested a ctx (asked_total a len t) t u
      → Requested a ctx (asked_total a len s) s u
  Requested-kept a len ctx s t u k (e, here, others, queue) = (
    e ∙ ap (λ n. some (record ctx { req_size = (n + len) % 2 ^ 32 })) owed_kept,
    here,
    (λ b h. others b h ∙ ap (λ k. k.hwrng_ctxs b) k),
    (λ b h. queue b h ∙ ap (λ k. contains b (list_entries k.hwrng_req_list)) k),
  )
    where
      owed_kept : owed a t ≡ owed a s
      owed_kept =
          ap
            (λ k.
              if contains a (list_entries k.hwrng_req_list) then left_of (k.hwrng_ctxs a) else 0)
            k

  -- the context of a client whose request is extended, or new
  abbrev extended : (len : ℕ) → HwrngChanCtx → HwrngChanCtx
  extended len ctx = record ctx { req_size = u32 (ctx.req_size + len) }

  abbrev asked : (len : ℕ) → HwrngChanCtx → HwrngChanCtx
  asked len ctx = record ctx { req_size = len }

  abbrev joined : ℕ → State → State
  joined a s = record s { hwrng_req_list = list_add_tail a s.hwrng_req_list }

  pub queue_request-Requested :
      {strict : Bool} (lists : ListLaws) (a : ℕ) (ctx : HwrngChanCtx) (len : ℕ) (s : State)
      → s.hwrng_ctxs a ≡ some ctx
      → len < 2 ^ 32
      → Ensures strict
          (λ _ t. Requested a ctx (asked_total a len s) s t × (t.calls ≡ s.calls))
          (queue_request a ctx len s)
  unfolding queue_request
  queue_request-Requested lists a ctx len s e small =
      elim (Bool-cases (list_in_list a s.hwrng_req_list)) [
        | inl old ↦
            let queued : contains a (entries s) ≡ true =
              sym (lists.in_list a s.hwrng_req_list) ∙ old in
            let size : u32 (ctx.req_size + len) ≡ asked_total a len s = rw (queued, e) refl in
            rw old (
              of_Returned _ _ (
                (
                  if_same a (some (extended len ctx)) (s.hwrng_ctxs a)
                      ∙ ap (λ n. some (record ctx { req_size = n })) size,
                  queued,
                  (λ b h. if_other a b _ _ h),
                  (λ b h. refl),
                ),
                refl,
              ))
        | inr new ↦
            let idle : contains a (entries s) ≡ false =
              sym (lists.in_list a s.hwrng_req_list) ∙ new in
            let join : list_entries (list_add_tail a s.hwrng_req_list) ≡ entries s ++ a ∷ [] =
              lists.added a s.hwrng_req_list idle in
            let size : len ≡ asked_total a len s = rw idle (omega arith) in
            rw new (
              of_Returned _ _ (
                (
                  if_same a (some (asked len ctx)) (s.hwrng_ctxs a)
                      ∙ ap (λ n. some (record ctx { req_size = n })) size,
                  ap (contains a) join ∙ contains-append_one a a (entries s) ∙ self idle,
                  (λ b h. if_other a b _ _ h),
                  (λ b h. ap (contains b) join ∙ contains-append_one a b (entries s) ∙ other b h),
                ),
                refl,
              ))
      ]
    where
      self :
          contains a (entries s) ≡ false → (if contains a (entries s) then true else a == a) ≡ true
      self h = rw h (ground arith)

      other :
          (b : ℕ)
          → b ≢ a
          → (if contains b (entries s) then true else b == a) ≡ contains b (entries s)
      other b h = ground arith
