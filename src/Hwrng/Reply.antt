-- ===== src/Hwrng/Reply.antt =====
-- One request of the queue of app/hwcrypto/hwrng_srv.c, while the messages get through: what its client
-- is sent, and what is left of it.
use trusty_lk_nxp.Common.{
  ℕ, ◌+◌, ◌^◌, ◌<◌, min, ◌≡◌, ◌≢◌, refl, ap, ◌∙◌, inl, inr, Bool, true, some, arith, Bool-cases,
  ◌==◌, if_same, if_other, if◌then◌else◌, length, false,
}
use trusty_lk_nxp.Common.Int.{ℤ, int_eq}
use trusty_lk_nxp.Common.Memory.{load_bytes, length-load_bytes}
use trusty_lk_nxp.Platform.{Platform}
use trusty_lk_nxp.Machine.{State, HwrngChanCtx}
use trusty_lk_nxp.Machine.Outcome.{
  Partial, if_returned, if_aborted, Partial-bind, Partial-Ensures, Ensures-Partial,
}
use trusty_lk_nxp.Machine.Sent.{messages, bytes_sent, IsSilent}
use trusty_lk_nxp.Caam.Frame.{kept}
use trusty_lk_nxp.Caam.Rng.{sub_size}
use trusty_lk_nxp.Tipc.{tipc_send_single_buf}
use trusty_lk_nxp.Hwrng.Links.{contains, ListLaws}
use trusty_lk_nxp.Hwrng.Server.{after_reply, serve_request, hwrng_dev_get_rng_data}
use trusty_lk_nxp.Hwrng.Fate.{reply, piece_min}
use trusty_lk_nxp.Hwrng.Queue.{entries}
use trusty_lk_nxp.Hwrng.Rounds.{SendsSucceed}
use trusty_lk_nxp.Caam.Device.{WithinBuffer}
use trusty_lk_nxp.Hwrng.Serve.{hwrng_dev_get_rng_data-Ensures}
use trusty_lk_nxp.Caam.Silent.{caam_hwrng-IsSilent}
use trusty_lk_nxp.Caam.Regs.{caam_success}
use trusty_lk_nxp.Hwrng.Accounts.{Sends}

module _ ⦃p : Platform⦄ where
  open p use {rng_data, list_entries, list_delete}

  -- No message is sent while random bytes are made.
  hwrng_dev_get_rng_data-IsSilent :
      (buf len : ℕ) (s : State) → Partial (λ _ t. IsSilent s t) (hwrng_dev_get_rng_data buf len s)
  unfolding hwrng_dev_get_rng_data
  hwrng_dev_get_rng_data-IsSilent buf len s =
      Partial-bind (caam_hwrng-IsSilent buf len s) λ res t silent.
        elim (Bool-cases (res == caam_success)) [
          | inl fine ↦ rw fine (if_returned silent)
          | inr bad ↦ rw bad if_aborted
        ]

  -- what a piece leaves of a request
  abbrev pub after_piece : HwrngChanCtx → ℕ
  after_piece ctx = sub_size ctx.req_size (min 4096 ctx.req_size)

  -- the reply to the request of the context at `b`
  pub reply-Sends :
      (sends : SendsSucceed) (lists : ListLaws) (b : ℕ) (ctx : HwrngChanCtx) (more : Bool)
      (s u : State)
      → kept u ≡ kept s
      → IsSilent s u
      → contains b (entries s) ≡ true
      → ctx.req_size < 2 ^ 32
      → Partial
          (λ more' t.
            Sends b ctx (min 4096 ctx.req_size) (after_piece ctx) s t
            × (more' ≡ (if after_piece ctx == 0 then more else true)))
          (reply b ctx (min 4096 ctx.req_size) more u)
  unfolding tipc_send_single_buf after_reply
  reply-Sends sends lists b ctx more s u k silent here small =
      rw (sends ctx.chan (load_bytes rng_data (min 4096 ctx.req_size) u.mem) u.world)
        (elim (Bool-cases (sub_size ctx.req_size (min 4096 ctx.req_size) == 0)) [
          | inl done ↦ rw done (
              if_returned (
                (
                  others,
                  if_same b _ _,
                  bytes,
                  inr (
                    ap (λ l. list_entries (list_delete b l)) list
                        ∙ lists.deleted b s.hwrng_req_list here,
                    ground arith,
                  ),
                ),
                refl,
              ))
          | inr part ↦
              rw part
                (if_returned ((others, if_same b _ _, bytes, inl (ap list_entries list)), refl))
        ])
    where
      n : ℕ
      n = min 4096 ctx.req_size

      list : u.hwrng_req_list ≡ s.hwrng_req_list
      list = ap (λ k. k.hwrng_req_list) k

      bytes :
          (chan : ℤ)
          → (if int_eq ctx.chan chan then length (load_bytes rng_data n u.mem) else 0)
              + bytes_sent chan (messages u.calls)
            ≡ (if int_eq ctx.chan chan then n else 0) + bytes_sent chan (messages s.calls)
      bytes chan = rw (length-load_bytes rng_data n u.mem, silent) refl

      others :
          (c : ℕ)
          → c ≢ b
          → (if c == b
              then some (record ctx { req_size = sub_size ctx.req_size n })
              else u.hwrng_ctxs c)
            ≡ s.hwrng_ctxs c
      others c h = if_other b c _ _ h ∙ ap (λ k. k.hwrng_ctxs c) k

  -- the service of the request of a context that does not wait for room
  pub serve_request-Sends :
      (sends : SendsSucceed) (lists : ListLaws) (within : WithinBuffer) (b : ℕ) (ctx : HwrngChanCtx)
      (more : Bool) (s : State)
      → s.hwrng_ctxs b ≡ some ctx
      → ctx.send_blocked ≡ false
      → ctx.req_size < 2 ^ 32
      → contains b (entries s) ≡ true
      → Partial
          (λ more' t.
            Sends b
              (record ctx { send_blocked = false })
              (min 4096 ctx.req_size)
              (after_piece ctx)
              s
              t
            × (more' ≡ (if after_piece ctx == 0 then more else true)))
          (serve_request b more s)
  unfolding serve_request
  serve_request-Sends sends lists within b ctx more s e free small here =
      rw (e, free, piece_min ctx.req_size)
        (Partial-bind
          (Partial-Ensures (
            Ensures-Partial
              (hwrng_dev_get_rng_data-Ensures within {strict = false} (λ h. absurd cc)
                (min 4096 ctx.req_size) s (omega arith))
              (hwrng_dev_get_rng_data-IsSilent rng_data (min 4096 ctx.req_size) s)))
          λ _ u done.
            reply-Sends sends lists b (record ctx { send_blocked = false }) more s u done.0.0.1
              done.1 here small)
