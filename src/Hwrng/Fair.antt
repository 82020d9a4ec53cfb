-- ===== src/Hwrng/Fair.antt =====
-- What one pass over the queue of app/hwcrypto/hwrng_srv.c (hwrng_handle_req_queue) does for every client,
-- while the messages get through.
use trusty_lk_nxp.Common.{
  ℕ, suc, ◌-◌, min, ◌<◌, ◌≡◌, refl, sym, ap, ◌∙◌, ◌⊎◌, inl, inr, Bool, true, false, some, List, [],
  ◌∷◌, arith, Bool-cases, ◌==◌, if◌then◌else◌,
}
use mathlib.Core.Path.{subst}
use trusty_lk_nxp.Platform.{Platform}
use trusty_lk_nxp.Machine.{State, HwrngChanCtx}
use trusty_lk_nxp.Machine.Outcome.{Ensures, returned, bind, mono, Ensures-Partial}
use trusty_lk_nxp.Caam.Device.{DeviceLaws, WithinBuffer}
use trusty_lk_nxp.Hwrng.Links.{contains, Unique, ListLaws}
use trusty_lk_nxp.Hwrng.Server.{serve_requests, hwrng_handle_req_queue}
use trusty_lk_nxp.Hwrng.Queue.{entries, QueueOk}
use trusty_lk_nxp.Hwrng.Reply.{after_piece, serve_request-Sends}
use trusty_lk_nxp.Hwrng.Asked.{owed}
use trusty_lk_nxp.Hwrng.Rounds.{SendsSucceed, Due, Half, serve_request-Half}
use trusty_lk_nxp.Hwrng.Progress.{Due-Half}
use trusty_lk_nxp.Hwrng.Shares.{owed_served, Shares-first, Shares}

module _ ⦃p : Platform⦄ where
  -- no channel of the queue waits for room
  abbrev pub NoneWaits : State → Type 0
  NoneWaits s =
      (b : ℕ) (ctx : HwrngChanCtx)
      → contains b (entries s) ≡ true
      → s.hwrng_ctxs b ≡ some ctx
      → ctx.send_blocked ≡ false

  -- what a pass does for the clients, and what its result says
  abbrev pub Fair : State → Bool → State → Type 0
  Fair s more t =
      ((c : ℕ) → owed c t ≡ owed c s - 4096)
      × (more ≡ true → (c : ℕ) × (0 < owed c t))
      × (more ≡ false → (c : ℕ) → owed c t ≡ 0)

  -- a client that is not queued is owed nothing
  unqueued :
      (c : ℕ) (s : State)
      → (if contains c (entries s) then owed c s - 4096 else owed c s) ≡ owed c s - 4096
  unqueued c s = elim (Bool-cases (contains c (entries s))) [
    | inl here ↦ rw here refl
    | inr out ↦ rw out refl
  ]

  some_left :
      (s t : State)
      → ((c : ℕ) → owed c t ≡ owed c s - 4096)
      → (false ≡ true) ⊎ ((c : ℕ) × (contains c (entries s) ≡ true) × (0 < owed c s - 4096))
      → (c : ℕ) × (0 < owed c t)
  some_left s t less (inl e) = absurd cc
  some_left s t less (inr (c, h, lt)) = (c, subst (λ n. 0 < n) (sym (less c)) lt)

  nothing_left :
      (s t : State)
      → ((c : ℕ) → owed c t ≡ owed c s - 4096)
      → ((c : ℕ) → contains c (entries s) ≡ true → owed c s - 4096 ≡ 0)
      → (c : ℕ) → owed c t ≡ 0
  nothing_left s t less zeros c = elim (Bool-cases (contains c (entries s))) [
    | inl here ↦ less c ∙ zeros c here
    | inr out ↦ less c ∙ (rw out refl)
  ]

  module _ (sends : SendsSucceed) (lists : ListLaws) (within : WithinBuffer) {strict : Bool}
      (laws : strict ≡ true → DeviceLaws) where
    serve_requests-Shares :
        (k : ℕ) (rest : List ℕ) (more : Bool) (s : State)
        → Unique rest
        → Half k rest s
        → Ensures strict (Shares rest more s) (serve_requests rest more s)
    unfolding serve_requests
    serve_requests-Shares k [] more s unique half =
        returned ((λ c. refl), inl, λ e. (e, λ c h. absurd cc))
    serve_requests-Shares k (b ∷ rest) more s (out, unique) half =
        let here : contains b (entries s) ≡ true = half.1 b (ground arith) in
        let (ctx, e) = half.0.1 b here in
        let size : owed b s ≡ ctx.req_size = rw (here, e) refl in
        bind
          (Ensures-Partial (serve_request-Half sends lists within laws k b rest more s out half) (
            serve_request-Sends sends lists within b ctx more s e (half.2 b ctx here e).0
              (half.0.0 b ctx e) here))
          λ more₁ t (half', (sent, flag)).
            let left : after_piece ctx ≡ owed b s - 4096 = omega (arith, size, half.0.0 b ctx e) in
            let (mine, others) =
              owed_served b (record ctx { send_blocked = false }) (min 4096 ctx.req_size)
                (after_piece ctx) s t half.0.2 here sent in
            mono (serve_requests-Shares k rest more₁ t unique half') λ more' u shares.
              Shares-first b rest more s more₁ t more' u out (mine ∙ left) others
                (flag ∙ ap (λ n. if n == 0 then more else true) left) shares

    -- no request is of more than 2^20 pieces
    free-Due : (s : State) → QueueOk s → NoneWaits s → Due (suc 0xFFFFF) s
    free-Due s fine free =
        (fine, λ b ctx h e. (free b ctx h e, omega arith, omega (arith, fine.0 b ctx e)))

    -- A pass over a well-formed queue, where there is room for every message and no channel waits for
    -- room, serves every client alike: each is owed 4096 bytes less than before, or nothing if it
    -- was owed no more than that; and the result says whether one of them is owed more. Under the
    -- laws of the device the pass comes to its end; without them it may also stop by an assert or
    -- wait for ever.
    pub hwrng_handle_req_queue-Fair :
        (s : State) → QueueOk s → NoneWaits s → Ensures strict (Fair s) (hwrng_handle_req_queue s)
    unfolding hwrng_handle_req_queue
    hwrng_handle_req_queue-Fair s fine free =
        mono
          (serve_requests-Shares 0xFFFFF (entries s) false s fine.2
            (Due-Half 0xFFFFF s (free-Due s fine free)))
          λ more t (shares, more_left, none_left).
            let less : (c : ℕ) → owed c t ≡ owed c s - 4096 = λ c. shares c ∙ unqueued c s in
            (
              less,
              (λ e. some_left s t less (more_left e)),
              λ e c. nothing_left s t less (none_left e).1 c,
            )
