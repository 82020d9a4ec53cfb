-- ===== src/Hwrng/Contexts.antt =====
-- A change of one context or entry keeps the queue of app/hwcrypto/hwrng_srv.c well formed.
use trusty_lk_nxp.Common.{
  if_same, if_other, ℕ, ◌^◌, ◌<◌, ◌≡◌, refl, sym, ap, ◌∙◌, inl, inr, true, false, Option, none,
  some, [], ◌∷◌, ◌++◌, arith, ◌==◌, if◌then◌else◌,
}
use mathlib.Core.Path.{subst}
use trusty_lk_nxp.Platform.{Platform}
use trusty_lk_nxp.Machine.{State, HwrngChanCtx}
use trusty_lk_nxp.Caam.Frame.{kept}
use trusty_lk_nxp.Hwrng.Links.{contains, Unique, ListLaws, contains-append, append-Unique}
use trusty_lk_nxp.Hwrng.Queue.{entries, IsLive, QueueOk, Step-QueueOk}

module _ ⦃p : Platform⦄ where
  open p use {list_entries, list_in_list, list_delete, list_add_tail}

  -- the queue is well formed, and there is still a context at `a`
  abbrev pub Open : ℕ → State → Type 0
  Open a s = QueueOk s × IsLive a s

  -- one context, set to another one
  abbrev pub with_ctx : ℕ → Option HwrngChanCtx → State → State
  with_ctx a c s = record s { hwrng_ctxs = λ b. if b == a then c else s.hwrng_ctxs b }

  of_some : (c d : HwrngChanCtx) → some c ≡ some d → d.req_size < 2 ^ 32 → c.req_size < 2 ^ 32
  of_some c d e h = grind arith

  pub with_ctx-Open :
      (a : ℕ) (c : HwrngChanCtx) (s : State)
      → QueueOk s
      → c.req_size < 2 ^ 32
      → Open a (with_ctx a (some c) s)
  with_ctx-Open a c s fine small = (
    Step-QueueOk a s (with_ctx a (some c) s) fine (
      (λ b h. if_other a b _ _ h),
      (λ d e. of_some d c (sym e ∙ if_same a _ _) small),
      inl (refl, (c, if_same a _ _)),
    ),
    (c, if_same a _ _),
  )

  pub kept-Open : (a : ℕ) (s t : State) → kept t ≡ kept s → Open a s → Open a t
  kept-Open a s t k (fine, (ctx, e)) = (
    Step-QueueOk a s t fine (
      (λ b h. ap (λ k. k.hwrng_ctxs b) k),
      (λ d e'. fine.0 a d (sym (ap (λ k. k.hwrng_ctxs a) k) ∙ e')),
      inl (ap (λ k. list_entries k.hwrng_req_list) k, here),
    ),
    here,
  )
    where
      here : IsLive a t
      here = (ctx, ap (λ k. k.hwrng_ctxs a) k ∙ e)

  no_ctx : (d : HwrngChanCtx) → none ≡ some d → d.req_size < 2 ^ 32
  no_ctx d e = cc

  -- the context freed, and the queue without it
  pub freed-QueueOk :
      (laws : ListLaws) (a : ℕ) (s : State)
      → QueueOk s
      → list_in_list a s.hwrng_req_list ≡ true
      → QueueOk (record (with_ctx a none s) { hwrng_req_list = list_delete a s.hwrng_req_list })
  freed-QueueOk laws a s fine queued =
      Step-QueueOk a s
        (record (with_ctx a none s) { hwrng_req_list = list_delete a s.hwrng_req_list }) fine
        (
          (λ b h. if_other a b _ _ h),
          (λ d e. no_ctx d (sym (if_same a _ _) ∙ e)),
          inr (
              inl
                (laws.deleted a s.hwrng_req_list (sym (laws.in_list a s.hwrng_req_list) ∙ queued))),
        )

  pub idle-QueueOk :
      (laws : ListLaws) (a : ℕ) (s : State)
      → QueueOk s
      → list_in_list a s.hwrng_req_list ≡ false
      → QueueOk (with_ctx a none s)
  idle-QueueOk laws a s fine idle = Step-QueueOk a s (with_ctx a none s) fine (
    (λ b h. if_other a b _ _ h),
    (λ d e. no_ctx d (sym (if_same a _ _) ∙ e)),
    inr (inr (refl, sym (laws.in_list a s.hwrng_req_list) ∙ idle)),
  )

  -- a channel that is not in the queue yet joins it
  pub added-Open :
      (laws : ListLaws) (a : ℕ) (s : State)
      → Open a s
      → list_in_list a s.hwrng_req_list ≡ false
      → Open a (record s { hwrng_req_list = list_add_tail a s.hwrng_req_list })
  added-Open laws a s ((sized, live, unique), here) idle =
      ((sized, live', subst Unique (sym join) (append-Unique a (entries s) unique out)), here)
    where
      out : contains a (entries s) ≡ false
      out = sym (laws.in_list a s.hwrng_req_list) ∙ idle

      join : list_entries (list_add_tail a s.hwrng_req_list) ≡ entries s ++ a ∷ []
      join = laws.added a s.hwrng_req_list out

      live' :
          (b : ℕ) → contains b (list_entries (list_add_tail a s.hwrng_req_list)) ≡ true → IsLive b s
      live' b h = elim (contains-append a b (entries s) (subst (λ l. contains b l ≡ true) join h)) [
        | inl old ↦ live b old
        | inr new ↦ subst (λ c. IsLive c s) (sym new) here
      ]
