-- ===== src/Hwrng/Queue.antt =====
-- The passes over the queue of app/hwcrypto/hwrng_srv.c (hwrng_handle_req_queue), which free
-- contexts as they go.
use trusty_lk_nxp.Common.{
  ℕ, ◌^◌, ◌<◌, ◌≡◌, ◌≢◌, refl, sym, ap, ◌∙◌, ◌⊎◌, inl, inr, Bool, true, false, some, List, [], ◌∷◌,
  arith, Bool-cases, ◌==◌,
}
use mathlib.Core.Path.{subst}
use trusty_lk_nxp.Platform.{Platform}
use trusty_lk_nxp.Machine.{ok, State, HwrngChanCtx}
use trusty_lk_nxp.Machine.Outcome.{Ensures, returned, bind, mono}
use trusty_lk_nxp.Caam.Device.{DeviceLaws, WithinBuffer}
use trusty_lk_nxp.Hwrng.Links.{
  contains, remove, Unique, ListLaws, contains-remove, contains-remove_self, contains-remove_other,
  remove-Unique,
}
use trusty_lk_nxp.Hwrng.Server.{serve_request, serve_requests, hwrng_handle_req_queue}
use trusty_lk_nxp.Hwrng.Serve.{serve_request-Served}
use trusty_lk_nxp.Hwrng.Fate.{
  OthersKept, Fate, Served, served_in_part, served, blocked, dropped, without,
}

module _ ⦃p : Platform⦄ where
  open p use {list_entries, list_in_list, Links}

  abbrev pub entries : State → List ℕ
  entries s = list_entries s.hwrng_req_list

  -- there is a context at `a`
  abbrev pub IsLive : ℕ → State → Type 0
  IsLive a s = (ctx : HwrngChanCtx) × (s.hwrng_ctxs a ≡ some ctx)

  -- The size of every request fits 32 bits.
  abbrev pub Sized : State → Type 0
  Sized s = (a : ℕ) (ctx : HwrngChanCtx) → s.hwrng_ctxs a ≡ some ctx → ctx.req_size < 2 ^ 32

  abbrev pub QueueOk : State → Type 0
  QueueOk s = Sized s × ((a : ℕ) → contains a (entries s) ≡ true → IsLive a s) × Unique (entries s)

  -- One context changes or is freed: it leaves the queue, or it is still live.
  abbrev pub Step : ℕ → State → State → Type 0
  Step a s t =
      OthersKept a s t
      × ((ctx : HwrngChanCtx) → t.hwrng_ctxs a ≡ some ctx → ctx.req_size < 2 ^ 32)
      × (((entries t ≡ entries s) × IsLive a t)
          ⊎ (entries t ≡ remove a (entries s))
          ⊎ ((entries t ≡ entries s) × (contains a (entries s) ≡ false)))

  Sized-Step : (a : ℕ) (s t : State) → Sized s → Step a s t → Sized t
  Sized-Step a s t sized (others, small, _) b ctx e = elim (Bool-cases (b == a)) [
    | inl same ↦ small ctx (subst (λ c. t.hwrng_ctxs c ≡ some ctx) (ground arith) e)
    | inr other ↦ sized b ctx (sym (others b (ground arith)) ∙ e)
  ]

  not_self : (a b : ℕ) (l : List ℕ) → contains a l ≡ false → contains b l ≡ true → b ≢ a
  not_self a b l h h' e = cc

  IsLive-elsewhere : (a b : ℕ) (s t : State) → OthersKept a s t → b ≢ a → IsLive b s → IsLive b t
  IsLive-elsewhere a b s t others ne (ctx, e) = (ctx, others b ne ∙ e)

  IsLive-Step :
      (a : ℕ) (s t : State)
      → QueueOk s
      → Step a s t
      → (b : ℕ) → contains b (entries t) ≡ true
      → IsLive b t
  IsLive-Step a s t (sized, live, unique) (others, small, inl (e, here)) b h =
      elim (Bool-cases (b == a)) [
        | inl same ↦ subst (λ c. IsLive c t) (ground arith) here
        | inr other ↦
            IsLive-elsewhere a b s t others (ground arith)
              (live b (subst (λ l. contains b l ≡ true) e h))
      ]
  IsLive-Step a s t (sized, live, unique) (others, small, inr (inl e)) b h =
      let h' : contains b (remove a (entries s)) ≡ true = subst (λ l. contains b l ≡ true) e h in
      IsLive-elsewhere a b s t others
        (not_self a b _ (contains-remove_self a (entries s) unique) h')
        (live b (contains-remove a b (entries s) h'))
  IsLive-Step a s t (sized, live, unique) (others, small, inr (inr (e, out))) b h =
      let h' : contains b (entries s) ≡ true = subst (λ l. contains b l ≡ true) e h in
      IsLive-elsewhere a b s t others (not_self a b _ out h') (live b h')

  pub Step-QueueOk : (a : ℕ) (s t : State) → QueueOk s → Step a s t → QueueOk t
  Step-QueueOk a s t fine step =
      (Sized-Step a s t fine.0 step, IsLive-Step a s t fine step, unique step.2)
    where
      unique :
          ((entries t ≡ entries s) × IsLive a t)
            ⊎ (entries t ≡ remove a (entries s))
            ⊎ ((entries t ≡ entries s) × (contains a (entries s) ≡ false))
          → Unique (entries t)
      unique (inl (e, h)) = subst Unique (sym e) fine.2
      unique (inr (inl e)) = subst Unique (sym e) (remove-Unique a (entries s) fine.2)
      unique (inr (inr (e, h))) = subst Unique (sym e) fine.2

  without-Step :
      (laws : ListLaws) (a : ℕ) (l : Links)
      → (list_entries (without a l) ≡ remove a (list_entries l))
        ⊎ ((list_entries (without a l) ≡ list_entries l) × (contains a (list_entries l) ≡ false))
  without-Step laws a l = elim (Bool-cases (list_in_list a l)) [
    | inl h ↦ rw h (inl (laws.deleted a l (sym (laws.in_list a l) ∙ h)))
    | inr h ↦ rw h (inr (refl, sym (laws.in_list a l) ∙ h))
  ]

  -- whatever becomes of a request of the queue, only its own context and entry change
  pub Served-Step :
      (laws : ListLaws) (a : ℕ) (ctx : HwrngChanCtx) (more : Bool) (s : State) (more' : Bool)
      (t : State)
      → ctx.req_size < 2 ^ 32
      → contains a (entries s) ≡ true
      → Served a ctx more s more' t
      → Step a s t
  Served-Step laws a ctx more s more' t small here (others, (msg, len, bytes, fate)) =
      (others, size fate, queue fate)
    where
      of_some : (c d : HwrngChanCtx) → some c ≡ some d → d.req_size < 2 ^ 32 → c.req_size < 2 ^ 32
      of_some c d e h = grind arith

      size :
          Fate a ctx msg more s more' t
          → (c : HwrngChanCtx) → t.hwrng_ctxs a ≡ some c
          → c.req_size < 2 ^ 32
      size (served_in_part h m e l cs) c e' = of_some c _ (sym e' ∙ e) (omega arith)
      size (served h m e l cs) c e' = of_some c _ (sym e' ∙ e) (omega arith)
      size (blocked m e l cs) c e' = of_some c _ (sym e' ∙ e) small
      size (dropped m e l cs) c e' = cc

      queue :
          Fate a ctx msg more s more' t
          → ((entries t ≡ entries s) × IsLive a t)
            ⊎ (entries t ≡ remove a (entries s))
            ⊎ ((entries t ≡ entries s) × (contains a (entries s) ≡ false))
      queue (served_in_part h m e l cs) = inl (ap list_entries l, (_, e))
      queue (served h m e l cs) =
          inr (inl (ap list_entries l ∙ laws.deleted a s.hwrng_req_list here))
      queue (blocked m e l cs) = inl (ap list_entries l, (_, e))
      queue (dropped m e l cs) = elim (without-Step laws a s.hwrng_req_list) [
        | inl gone ↦ inr (inl (ap list_entries l ∙ gone))
        | inr (same, out) ↦ inr (inr (ap list_entries l ∙ same, out))
      ]

  -- the entries that a pass has still to visit are in the queue
  abbrev pub Ahead : List ℕ → State → Type 0
  Ahead rest s = (b : ℕ) → contains b rest ≡ true → contains b (entries s) ≡ true

  pub Ahead-Step :
      (a : ℕ) (rest : List ℕ) (s t : State)
      → contains a rest ≡ false
      → Ahead rest s
      → Step a s t
      → Ahead rest t
  Ahead-Step a rest s t out ahead (others, small, q) b h =
      let here : contains b (entries s) ≡ true = ahead b h in
      elim q [
        | inl (e, live) ↦ subst (λ l. contains b l ≡ true) (sym e) here
        | inr (inl e) ↦
            subst (λ l. contains b l ≡ true) (sym e)
              (contains-remove_other a b (entries s) (not_self a b rest out h) here)
        | inr (inr (e, o)) ↦ subst (λ l. contains b l ≡ true) (sym e) here
      ]

  module _ (within : WithinBuffer) (list_laws : ListLaws) {strict : Bool}
      (laws : strict ≡ true → DeviceLaws) where
    serve_request-Step :
        (a : ℕ) (more : Bool) (s : State)
        → QueueOk s
        → contains a (entries s) ≡ true
        → Ensures strict (λ _ t. Step a s t) (serve_request a more s)
    unfolding serve_request
    serve_request-Step a more s (sized, live, unique) here =
        let (ctx, e) = live a here in
        elim (Bool-cases ctx.send_blocked) [
          | inl waits ↦
              subst (λ r. Ensures strict (λ _ t. Step a s t) r) (sym (still ctx e waits))
                (returned ((λ b h. refl), sized a, inl (refl, (ctx, e))))
          | inr unblocked ↦
              mono (serve_request-Served within laws a ctx more s e unblocked (sized a ctx e))
                λ more' t done. Served-Step list_laws a ctx more s more' t (sized a ctx e) here done
        ]
      where
        still :
            (ctx : HwrngChanCtx)
            → s.hwrng_ctxs a ≡ some ctx
            → ctx.send_blocked ≡ true
            → serve_request a more s ≡ ok more s
        still ctx e waits = rw (e, waits) refl

    serve_requests-QueueOk :
        (rest : List ℕ) (more : Bool) (s : State)
        → Unique rest
        → Ahead rest s
        → QueueOk s
        → Ensures strict (λ _ t. QueueOk t) (serve_requests rest more s)
    unfolding serve_requests
    serve_requests-QueueOk [] more s unique ahead fine = returned fine
    serve_requests-QueueOk (a ∷ rest) more s (out, unique) ahead fine =
        bind (serve_request-Step a more s fine (ahead a (ground arith))) λ more' t step.
          serve_requests-QueueOk rest more' t unique
            (Ahead-Step a rest s t out (λ b h. ahead b (ground arith)) step)
            (Step-QueueOk a s t fine step)

    -- A pass over a queue of allocated contexts, none twice, with sizes of 32 bits, uses no context
    -- that is freed, whatever the sends answer and however many channels they make it close, and
    -- leaves such a queue, where the list library keeps its laws and prepare_dma finds ranges
    -- within the buffer. Under the laws of the device it ends; without them it may also stop by an
    -- assert or wait for ever.
    pub hwrng_handle_req_queue-QueueOk :
        (s : State) → QueueOk s → Ensures strict (λ _ t. QueueOk t) (hwrng_handle_req_queue s)
    unfolding hwrng_handle_req_queue
    hwrng_handle_req_queue-QueueOk s fine =
        serve_requests-QueueOk (entries s) false s fine.2 (λ b h. h) fine
