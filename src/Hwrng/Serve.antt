-- ===== src/Hwrng/Serve.antt =====
-- The service of one request of the queue (the loop body of hwrng_handle_req_queue of
-- app/hwcrypto/hwrng_srv.c).
use trusty_lk_nxp.Common.{ℕ, ◌^◌, ◌<◌, min, ◌≡◌, ap, ◌∙◌, inl, inr, Bool, true, false, some, arith}
use trusty_lk_nxp.Common.Memory.{length-load_bytes}
use trusty_lk_nxp.Platform.{Platform}
use trusty_lk_nxp.Machine.{State, HwrngChanCtx}
use trusty_lk_nxp.Machine.Outcome.{Ensures, of_Returned, bind, mono, Ensures-aborted}
use trusty_lk_nxp.Caam.Device.{DeviceLaws, WithinBuffer}
use trusty_lk_nxp.Caam.Frame.{Frame, kept}
use trusty_lk_nxp.Caam.Fill.{FromDevice, caam_hwrng-Filled}
use trusty_lk_nxp.Hwrng.Server.{hwrng_dev_get_rng_data, serve_request}
use trusty_lk_nxp.Hwrng.Fate.{
  message, Served, reply-Fate, piece_min, load_bytes-IsDeviceByte, reply,
}

module _ ⦃p : Platform⦄ where
  open p use {rng_data}

  module _ (within : WithinBuffer) {strict : Bool} (laws : strict ≡ true → DeviceLaws) where
    pub hwrng_dev_get_rng_data-Ensures :
        (len : ℕ) (s : State)
        → len < 2 ^ 16
        → Ensures strict
            (λ _ t. Frame rng_data len s t × FromDevice rng_data len t.mem)
            (hwrng_dev_get_rng_data rng_data len s)
    unfolding hwrng_dev_get_rng_data
    hwrng_dev_get_rng_data-Ensures len s small =
        bind (caam_hwrng-Filled within laws rng_data len s small) λ res t (f, good, end). elim end [
          | inl (fine, dev) ↦ rw fine (of_Returned _ _ (f, dev))
          | inr bad ↦ rw bad (Ensures-aborted λ e. absurd (omega (arith, good e, bad)))
        ]

    reply-Served :
        (a : ℕ) (ctx : HwrngChanCtx) (more : Bool) (s u : State)
        → s.hwrng_ctxs a ≡ some ctx
        → kept u ≡ kept s
        → FromDevice rng_data (min 4096 ctx.req_size) u.mem
        → ctx.req_size < 2 ^ 32
        → Ensures strict (Served a ctx more s) (reply a ctx (min 4096 ctx.req_size) more u)
    reply-Served a ctx more s u live k dev small =
        mono (reply-Fate a ctx more s u live k small) λ more' t (others, fate). (
          others,
          (
            message (min 4096 ctx.req_size) u,
            length-load_bytes rng_data (min 4096 ctx.req_size) u.mem,
            load_bytes-IsDeviceByte rng_data (min 4096 ctx.req_size) u.mem dev,
            fate,
          ),
        )

    pub serve_request-Served :
        (a : ℕ) (ctx : HwrngChanCtx) (more : Bool) (s : State)
        → s.hwrng_ctxs a ≡ some ctx
        → ctx.send_blocked ≡ false
        → ctx.req_size < 2 ^ 32
        → Ensures strict (Served a ctx more s) (serve_request a more s)
    unfolding serve_request
    serve_request-Served a ctx more s live unblocked small =
        rw (live, unblocked, piece_min ctx.req_size)
          (bind (hwrng_dev_get_rng_data-Ensures (min 4096 ctx.req_size) s (omega arith))
            λ _ u ((same, k), dev).
              reply-Served a (record ctx { send_blocked = false }) more s u
                (live ∙ ap (λ b. some (record ctx { send_blocked = b })) unblocked) k dev small)
