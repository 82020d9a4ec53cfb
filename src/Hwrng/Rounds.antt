-- ===== src/Hwrng/Rounds.antt =====
-- The service of the requests of one pass over the queue of app/hwcrypto/hwrng_srv.c, while the
-- messages get through.
use trusty_lk_nxp.Common.{
  ℕ, suc, ◌*◌, ◌≤◌, ◌<◌, min, ◌≡◌, refl, sym, ap, ◌∙◌, inl, inr, Bool, true, false, some, none,
  List, [], ◌∷◌, arith, Bool-cases, ◌==◌, if_same,
}
use mathlib.Core.Path.{subst}
use trusty_lk_nxp.Common.Int.{ℤ, is_negative}
use trusty_lk_nxp.Common.Memory.{load_bytes}
use trusty_lk_nxp.Platform.{Platform}
use trusty_lk_nxp.Machine.{State, HwrngChanCtx}
use trusty_lk_nxp.Machine.Outcome.{
  Ensures, returned, bind, mono, Partial, if_returned, Partial-bind, Partial-Ensures,
  Ensures-Partial,
}
use trusty_lk_nxp.Caam.Device.{DeviceLaws, WithinBuffer}
use trusty_lk_nxp.Caam.Rng.{sub_size}
use trusty_lk_nxp.Tipc.{tipc_send_single_buf}
use trusty_lk_nxp.Hwrng.Links.{contains, Unique, ListLaws, contains-remove, contains-remove_self}
use trusty_lk_nxp.Hwrng.Server.{serve_request, serve_requests, after_reply}
use trusty_lk_nxp.Hwrng.Serve.{hwrng_dev_get_rng_data-Ensures, serve_request-Served}
use trusty_lk_nxp.Hwrng.Fate.{
  Fate, Served, served_in_part, served, blocked, dropped, left_over, reply, piece_min,
}
use trusty_lk_nxp.Hwrng.Queue.{entries, QueueOk, Step, Step-QueueOk, Served-Step, Ahead, Ahead-Step}

module _ ⦃p : Platform⦄ where
  open p use {World, send_msg, rng_data, list_entries, list_delete}

  -- There is room for every message.
  abbrev pub SendsSucceed : Type 0
  SendsSucceed = (chan : ℤ) (msg : List ℕ) (w : World) → is_negative (send_msg chan msg w).0 ≡ false

  -- the context at `a`, which does not wait for room
  abbrev pub IsFree : ℕ → State → Type 0
  IsFree a s = (ctx : HwrngChanCtx) × (s.hwrng_ctxs a ≡ some ctx) × (ctx.send_blocked ≡ false)

  -- Every request of the queue can be served within `k` passes.
  abbrev pub Due : ℕ → State → Type 0
  Due k s =
      QueueOk s
      × ((b : ℕ) (ctx : HwrngChanCtx)
          → contains b (entries s) ≡ true
          → s.hwrng_ctxs b ≡ some ctx
          → (ctx.send_blocked ≡ false) × (0 < k) × (ctx.req_size ≤ 4096 * k))

  -- what is left for a request that a pass has still to visit, and for another one
  abbrev pub Rounds : ℕ → Bool → HwrngChanCtx → Type 0
  Rounds k true ctx = ctx.req_size ≤ 4096 * suc k
  Rounds k false ctx = (0 < k) × (ctx.req_size ≤ 4096 * k)

  -- in the middle of a pass, with the entries `rest` to visit
  abbrev pub Half : ℕ → List ℕ → State → Type 0
  Half k rest s =
      QueueOk s
      × Ahead rest s
      × ((b : ℕ) (ctx : HwrngChanCtx)
          → contains b (entries s) ≡ true
          → s.hwrng_ctxs b ≡ some ctx
          → (ctx.send_blocked ≡ false) × Rounds k (contains b rest) ctx)

  module _ (sends : SendsSucceed) where
    reply-IsFree :
        (a : ℕ) (ctx : HwrngChanCtx) (len : ℕ) (more : Bool) (u : State)
        → ctx.send_blocked ≡ false
        → Partial (λ _ t. IsFree a t) (reply a ctx len more u)
    unfolding tipc_send_single_buf after_reply
    reply-IsFree a ctx len more u free =
        rw (sends ctx.chan (load_bytes rng_data len u.mem) u.world)
          (elim (Bool-cases (sub_size ctx.req_size len == 0)) [
            | inl done ↦ rw done (if_returned (record ctx { req_size = _ }, if_same a _ _, free))
            | inr part ↦ rw part (if_returned (record ctx { req_size = _ }, if_same a _ _, free))
          ])

    module _ (within : WithinBuffer) {strict : Bool} (laws : strict ≡ true → DeviceLaws) where
      serve_request-IsFree :
          (a : ℕ) (ctx : HwrngChanCtx) (more : Bool) (s : State)
          → s.hwrng_ctxs a ≡ some ctx
          → ctx.send_blocked ≡ false
          → Partial (λ _ t. IsFree a t) (serve_request a more s)
      unfolding serve_request
      serve_request-IsFree a ctx more s e free =
          rw (e, free, piece_min ctx.req_size)
            (Partial-bind
              (Partial-Ensures (
                hwrng_dev_get_rng_data-Ensures within laws (min 4096 ctx.req_size) s (omega arith)))
              λ _ u done. reply-IsFree a (record ctx { send_blocked = false }) _ more u refl)

  -- the context that was served: it has left the queue, or a pass less is left for it
  own_rounds :
      (lists : ListLaws) (k a : ℕ) (ctx : HwrngChanCtx) (msg : List ℕ) (more : Bool) (s : State)
      (more' : Bool) (t : State) (d : HwrngChanCtx)
      → Unique (entries s)
      → contains a (entries s) ≡ true
      → ctx.req_size ≤ 4096 * suc k
      → Fate a ctx msg more s more' t
      → IsFree a t
      → contains a (entries t) ≡ true
      → t.hwrng_ctxs a ≡ some d
      → (d.send_blocked ≡ false) × (0 < k) × (d.req_size ≤ 4096 * k)
  own_rounds lists k a ctx msg more s more' t d unique here due fate (c, e, free) queued e' =
      elim fate [
        | served_in_part left m own l calls ↦
            let size : left_over ctx ≡ d.req_size =
              ap (λ o. elim o [ none ↦ 0 | some x ↦ x.req_size ]) (sym own ∙ e') in
            (
              free_of c d (sym e ∙ e') free,
              omega (arith, left, due),
              omega (arith, size, due, left),
            )
        | served done m own l calls ↦ absurd (gone l)
        | blocked m own l calls ↦ absurd (waits c (sym own ∙ e) free)
        | dropped m own l calls ↦ absurd (lost c (sym own ∙ e))
      ]
    where
      free_of :
          (c d : HwrngChanCtx) → some c ≡ some d → c.send_blocked ≡ false → d.send_blocked ≡ false
      free_of c d h h' = cc

      waits :
          (c : HwrngChanCtx)
          → some (record ctx { send_blocked = true }) ≡ some c
          → c.send_blocked ≡ false
          → ⊥
      waits c h h' =
          let b : true ≡ c.send_blocked =
            ap (λ o. elim o [ none ↦ true | some x ↦ x.send_blocked ]) h in
          cc

      lost : (c : HwrngChanCtx) → none ≡ some c → ⊥
      lost c h = cc

      gone : t.hwrng_req_list ≡ list_delete a s.hwrng_req_list → ⊥
      gone l =
          let out : contains a (entries t) ≡ false =
            subst (λ q. contains a q ≡ false)
              (sym (ap list_entries l ∙ lists.deleted a s.hwrng_req_list here))
              (contains-remove_self a (entries s) unique) in
          cc

  -- an entry behind one step was an entry before
  queued_before :
      (a b : ℕ) (s t : State)
      → Step a s t
      → contains b (entries t) ≡ true
      → contains b (entries s) ≡ true
  queued_before a b s t (others, small, q) h = elim q [
    | inl (e, live) ↦ subst (λ l. contains b l ≡ true) e h
    | inr (inl e) ↦ contains-remove a b (entries s) (subst (λ l. contains b l ≡ true) e h)
    | inr (inr (e, out)) ↦ subst (λ l. contains b l ≡ true) e h
  ]

  -- one request of a pass is served
  Half-Served :
      (lists : ListLaws) (k a : ℕ) (rest : List ℕ) (ctx : HwrngChanCtx) (more : Bool) (s : State)
      (more' : Bool) (t : State)
      → contains a rest ≡ false
      → s.hwrng_ctxs a ≡ some ctx
      → Half k (a ∷ rest) s
      → Served a ctx more s more' t
      → IsFree a t
      → Half k rest t
  Half-Served lists k a rest ctx more s more' t out e (fine, ahead, due) done free = (
    Step-QueueOk a s t fine step,
    Ahead-Step a rest s t out (λ b h. ahead b (ground arith)) step,
    due',
  )
    where
      here : contains a (entries s) ≡ true
      here = ahead a (ground arith)

      step : Step a s t
      step = Served-Step lists a ctx more s more' t (fine.0 a ctx e) here done

      size : ctx.req_size ≤ 4096 * suc k
      size =
          let first : contains a (a ∷ rest) ≡ true = ground arith in
          subst (λ b. Rounds k b ctx) first (due a ctx here e).1

      due' :
          (b : ℕ) (d : HwrngChanCtx)
          → contains b (entries t) ≡ true
          → t.hwrng_ctxs b ≡ some d
          → (d.send_blocked ≡ false) × Rounds k (contains b rest) d
      due' b d h e' = elim (Bool-cases (b == a)) [
        | inl same ↦
            let q : b ≡ a = ground arith in
            let r : (d.send_blocked ≡ false) × (0 < k) × (d.req_size ≤ 4096 * k) =
              own_rounds lists k a ctx done.1.0 more s more' t d fine.2 here size done.1.3 free
                (subst (λ c. contains c (entries t) ≡ true) q h)
                (subst (λ c. t.hwrng_ctxs c ≡ some d) q e') in
            let out' : contains b rest ≡ false = subst (λ c. contains c rest ≡ false) (sym q) out in
            (r.0, subst (λ c. Rounds k c d) (sym out') (r.1, r.2))
        | inr other ↦
            let old =
              due b d (queued_before a b s t step h) (sym (done.0 b (λ q. ground arith)) ∙ e') in
            let same : contains b (a ∷ rest) ≡ contains b rest = rw other refl in
            (old.0, subst (λ c. Rounds k c d) same old.1)
      ]

  module _ (sends : SendsSucceed) (lists : ListLaws) (within : WithinBuffer) {strict : Bool}
      (laws : strict ≡ true → DeviceLaws) where
    pub serve_request-Half :
        (k a : ℕ) (rest : List ℕ) (more : Bool) (s : State)
        → contains a rest ≡ false
        → Half k (a ∷ rest) s
        → Ensures strict (λ _ t. Half k rest t) (serve_request a more s)
    serve_request-Half k a rest more s out (fine, ahead, due) =
        let here : contains a (entries s) ≡ true = ahead a (ground arith) in
        let (ctx, e) = fine.1 a here in
        let (free, size) = due a ctx here e in
        mono
          (Ensures-Partial (serve_request-Served within laws a ctx more s e free (fine.0 a ctx e))
            (serve_request-IsFree sends within laws a ctx more s e free))
          λ more' t (done, free').
            Half-Served lists k a rest ctx more s more' t out e (fine, ahead, due) done free'

    pub serve_requests-Half :
        (k : ℕ) (rest : List ℕ) (more : Bool) (s : State)
        → Unique rest
        → Half k rest s
        → Ensures strict (λ _ t. Half k [] t) (serve_requests rest more s)
    unfolding serve_requests
    serve_requests-Half k [] more s unique half = returned half
    serve_requests-Half k (a ∷ rest) more s (out, unique) half =
        bind (serve_request-Half k a rest more s out half)
          λ more' t half'. serve_requests-Half k rest more' t unique half'
