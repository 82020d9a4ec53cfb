-- ===== src/Main/RandomSide.antt =====
-- What the handlers of app/hwcrypto/hwrng_srv.c leave alone of the rest of the server, and the handlers
-- that its contexts name. A command that uses a freed context is the business of Hwrng: here it counts
-- as one that does not return.
pub mod Handlers
use trusty_lk_nxp.Common.{
  ℕ, ◌+◌, ◌^◌, ◌≤◌, ◌<◌, min, ◌≡◌, refl, sym, ◌∙◌, ap, ◌⊎◌, inl, inr, Bool, true, false, not,
  Option, none, some, List, [], ◌∷◌, arith, Bool-cases, Option-cases, ◌==◌, ◌||◌, if◌then◌else◌,
  if_same, if_other, set-All, ltb,
}
use mathlib.Core.Path.{subst}
use trusty_lk_nxp.Common.Int.{ℤ, pos, is_negative, int_eq}
use trusty_lk_nxp.Common.Memory.{SameOutside, load_bytes}
use trusty_lk_nxp.Platform.{
  Platform, Uevent, Proc, hwrng_chan_proc, hwrng_chan_cookie, TipcEventHandler,
}
use trusty_lk_nxp.Machine.{State, HwrngChanCtx, Cmd}
use trusty_lk_nxp.Machine.Outcome.{
  Partial, if_returned, if_aborted, if_fault, Partial-bind, Partial-mono, Partial-Ensures, Ensures,
  mono,
}
use trusty_lk_nxp.Caam.Device.{WithinBuffer}
use trusty_lk_nxp.Caam.Frame.{kept, Frame, Frame-widen}
use trusty_lk_nxp.Tipc.{
  has_flag, tipc_handle_chan_errors, tipc_send_single_buf, tipc_recv_single_buf,
}
use trusty_lk_nxp.Caam.Rng.{sub_size}
use trusty_lk_nxp.Hwrng.Server.{
  set_hwrng_ctx, hwrng_dev_get_rng_data, after_reply, serve_request, serve_requests,
  hwrng_close_chan, hwrng_handle_req_queue, queue_request, hwrng_chan_handle_msg, handle_chan_event,
  hwrng_kick_req_queue, hwrng_chan_handler, open_hwrng_chan, sizeof_hwrng_chan_ctx,
}
use trusty_lk_nxp.Hwrng.Channels.{take_message, tipc_recv_single_buf-kept}
use trusty_lk_nxp.Hwrng.Ports.{fresh, new_ctx}
use trusty_lk_nxp.Hwrng.Serve.{hwrng_dev_get_rng_data-Ensures}
use trusty_lk_nxp.Hwrng.Fate.{piece_min, reply}

module _ ⦃p : Platform⦄ where
  open p use {rng_data, list_in_list, send_msg, err_not_enough_buffer}

  -- the handler of a channel whose context is at `a`
  abbrev pub handler_at : Proc → ℕ → TipcEventHandler
  handler_at proc a = record { proc = some proc; priv = a }

  -- Every context names the service's own handler, and itself as its argument.
  abbrev pub RngHandlers : State → Type 0
  RngHandlers s =
      (a : ℕ) (ctx : HwrngChanCtx)
      → s.hwrng_ctxs a ≡ some ctx
      → ctx.evt_handler ≡ handler_at hwrng_chan_proc a

  -- the key service as it was, with all memory but the buffer of random bytes
  abbrev pub SameKeys : State → State → Type 0
  SameKeys s t =
      (t.hwkey_ctxs ≡ s.hwkey_ctxs)
      × (t.key_slots ≡ s.key_slots)
      × (t.key_slot_cnt ≡ s.key_slot_cnt)
      × SameOutside rng_data 4096 s.mem t.mem

  pub SameKeys-refl : (s : State) → SameKeys s s
  SameKeys-refl s = (refl, refl, refl, (λ i out. refl))

  -- the same where a command leaves `kept` and all memory but that buffer alone
  pub SameKeys-kept :
      (s t u : State)
      → SameKeys s t
      → kept u ≡ kept t
      → SameOutside rng_data 4096 t.mem u.mem
      → SameKeys s u
  SameKeys-kept s t u (ctxs, slots, count, mem) k mem' = (
    ap (λ k. k.hwkey_ctxs) k ∙ ctxs,
    ap (λ k. k.key_slots) k ∙ slots,
    ap (λ k. k.key_slot_cnt) k ∙ count,
    (λ i out. mem' i out ∙ mem i out),
  )

  abbrev pub Apartly : State → State → Type 0
  Apartly s t = SameKeys s t × RngHandlers t

  -- a context that is freed, or replaced by one with the same handler
  pub RngHandlers-set :
      (a : ℕ) (c : Option HwrngChanCtx) (s : State)
      → RngHandlers s
      → ((d : HwrngChanCtx) → c ≡ some d → d.evt_handler ≡ handler_at hwrng_chan_proc a)
      → RngHandlers (record s { hwrng_ctxs = λ b. if b == a then c else s.hwrng_ctxs b })
  RngHandlers-set a c s fine here =
      set-All (λ b d. d.evt_handler ≡ handler_at hwrng_chan_proc b) a c s.hwrng_ctxs fine here

  pub freed_handler :
      (a : ℕ) (d : HwrngChanCtx) → none ≡ some d → d.evt_handler ≡ handler_at hwrng_chan_proc a
  freed_handler a d e = cc

  -- the handler of a context whose other fields change
  same_handler :
      (a : ℕ) (c d : HwrngChanCtx)
      → c.evt_handler ≡ handler_at hwrng_chan_proc a
      → some c ≡ some d
      → d.evt_handler ≡ handler_at hwrng_chan_proc a
  same_handler a c d h e = cc

  module _ (s : State) where
    pub hwrng_close_chan-Apartly :
        (a : ℕ) (t : State) → Apartly s t → Partial (λ _ u. Apartly s u) (hwrng_close_chan a t)
    unfolding hwrng_close_chan
    hwrng_close_chan-Apartly a t (same, fine) = elim (Option-cases (t.hwrng_ctxs a)) [
      | inl gone ↦ rw gone if_fault
      | inr (ctx, e) ↦ rw e (elim (Bool-cases (list_in_list a t.hwrng_req_list)) [
        | inl queued ↦
            rw queued (if_returned (same, RngHandlers-set a none t fine (freed_handler a)))
        | inr idle ↦ rw idle (if_returned (same, RngHandlers-set a none t fine (freed_handler a)))
      ])
    ]

    -- the context at `a`, replaced by one of the same handler, on the way
    pub set_ctx_Apartly :
        (a : ℕ) (c : HwrngChanCtx) (t : State)
        → Apartly s t
        → c.evt_handler ≡ handler_at hwrng_chan_proc a
        → Apartly s (record t { hwrng_ctxs = λ b. if b == a then some c else t.hwrng_ctxs b })
    set_ctx_Apartly a c t (same, fine) h =
        (same, RngHandlers-set a (some c) t fine (λ d e. same_handler a c d h e))

    pub queue_request-Apartly :
        (a : ℕ) (ctx : HwrngChanCtx) (len : ℕ) (t : State)
        → ctx.evt_handler ≡ handler_at hwrng_chan_proc a
        → Apartly s t
        → Partial (λ _ u. Apartly s u) (queue_request a ctx len t)
    unfolding queue_request
    queue_request-Apartly a ctx len t h fine = elim (Bool-cases (list_in_list a t.hwrng_req_list)) [
      | inl queued ↦
          rw queued (if_returned (set_ctx_Apartly a (record ctx { req_size = _ }) t fine h))
      | inr idle ↦
          rw idle (if_returned (set_ctx_Apartly a (record ctx { req_size = len }) t fine h))
    ]

    after_reply-Apartly :
        (a : ℕ) (ctx : HwrngChanCtx) (len : ℕ) (more : Bool) (t : State)
        → ctx.evt_handler ≡ handler_at hwrng_chan_proc a
        → Apartly s t
        → Partial (λ _ u. Apartly s u) (after_reply a ctx len more t)
    unfolding after_reply
    after_reply-Apartly a ctx len more t h fine =
        elim (Bool-cases (sub_size ctx.req_size len == 0)) [
          | inl done ↦
              rw done (if_returned (set_ctx_Apartly a (record ctx { req_size = _ }) t fine h))
          | inr part ↦
              rw part (if_returned (set_ctx_Apartly a (record ctx { req_size = _ }) t fine h))
        ]

    pub reply-Apartly :
        (a : ℕ) (ctx : HwrngChanCtx) (len : ℕ) (more : Bool) (t : State)
        → ctx.evt_handler ≡ handler_at hwrng_chan_proc a
        → Apartly s t
        → Partial (λ _ u. Apartly s u) (reply a ctx len more t)
    unfolding tipc_send_single_buf
    reply-Apartly a ctx len more t h fine =
        elim (Bool-cases
          (is_negative (send_msg ctx.chan (load_bytes rng_data len t.mem) t.world).0)) [
            | inr good ↦ rw good (after_reply-Apartly a ctx len more _ h fine)
            | inl bad ↦
                rw bad
                  (elim (Bool-cases (
                    int_eq (send_msg ctx.chan (load_bytes rng_data len t.mem) t.world).0
                      err_not_enough_buffer)) [
                        | inl full ↦ rw full (
                            if_returned
                              (set_ctx_Apartly a (record ctx { send_blocked = true }) t fine h))
                        | inr lost ↦ rw lost (
                            Partial-bind (hwrng_close_chan-Apartly a _ fine)
                              λ _ u fine'. if_returned fine')
                      ])
          ]
