-- ===== src/Main/RandomSide/Handlers.antt =====
-- The same through the handlers of app/hwcrypto/hwrng_srv.c.
use trusty_lk_nxp.Common.{
  ℕ, min, refl, sym, ◌∙◌, ap, inl, inr, Bool, false, none, some, List, [], ◌∷◌, arith, Bool-cases,
  Option-cases, ◌==◌, ◌||◌, if◌then◌else◌,
}
use trusty_lk_nxp.Common.Int.{ℤ, pos, int_eq}
use trusty_lk_nxp.Platform.{Platform, Uevent, hwrng_chan_cookie}
use trusty_lk_nxp.Machine.{State, HwrngChanCtx}
use trusty_lk_nxp.Machine.Outcome.{
  Partial, if_returned, if_aborted, if_fault, Partial-bind, Partial-Ensures, Ensures, mono,
}
use trusty_lk_nxp.Caam.Device.{WithinBuffer}
use trusty_lk_nxp.Caam.Frame.{Frame, Frame-widen}
use trusty_lk_nxp.Tipc.{has_flag, tipc_handle_chan_errors, tipc_recv_single_buf}
use trusty_lk_nxp.Hwrng.Server.{
  hwrng_dev_get_rng_data, serve_request, serve_requests, hwrng_handle_req_queue,
  hwrng_chan_handle_msg, handle_chan_event, hwrng_kick_req_queue, hwrng_chan_handler,
  open_hwrng_chan, sizeof_hwrng_chan_ctx,
}
use trusty_lk_nxp.Hwrng.Channels.{take_message}
use trusty_lk_nxp.Hwrng.Ports.{fresh, new_ctx}
use trusty_lk_nxp.Hwrng.Serve.{hwrng_dev_get_rng_data-Ensures}
use trusty_lk_nxp.Hwrng.Fate.{piece_min}
use trusty_lk_nxp.Main.RandomSide.{
  SameKeys-kept, Apartly, RngHandlers-set, freed_handler, hwrng_close_chan-Apartly, set_ctx_Apartly,
  queue_request-Apartly, reply-Apartly,
}

module _ ⦃p : Platform⦄ where
  open p use {
    rng_data, poll_msg, poll_hup, poll_send_unblocked, poll_error, poll_ready, hwrng_req_size,
    hwrng_req_len, get_msg, list_entries, calloc, set_cookie,
  }

  module _ (s : State) where
    tipc_recv_single_buf-Apartly :
        (chan : ℤ) (len : ℕ) (t : State)
        → Apartly s t
        → Partial (λ _ u. Apartly s u) (tipc_recv_single_buf chan len t)
    unfolding tipc_recv_single_buf
    tipc_recv_single_buf-Apartly chan len t fine =
        elim (Bool-cases (int_eq (get_msg chan t.world).0.0 (pos 0))) [
          | inr bad ↦ rw bad (if_returned fine)
          | inl got ↦ rw got (elim (Bool-cases ((get_msg chan t.world).0.1.len == len)) [
            | inl fits ↦ rw fits (if_returned fine)
            | inr other ↦ rw other (if_returned fine)
          ])
        ]

    hwrng_chan_handle_msg-Apartly :
        (a : ℕ) (t : State) → Apartly s t → Partial (λ _ u. Apartly s u) (hwrng_chan_handle_msg a t)
    unfolding hwrng_chan_handle_msg
    hwrng_chan_handle_msg-Apartly a t (same, fine) = elim (Option-cases (t.hwrng_ctxs a)) [
      | inl gone ↦ rw gone if_fault
      | inr (ctx, e) ↦ rw e (
          Partial-bind
            (tipc_recv_single_buf-Apartly ctx.chan hwrng_req_size t (same, λ b d. fine b d))
            λ (rc, req) u fine'. elim (Bool-cases (int_eq rc (pos hwrng_req_size))) [
              | inr bad ↦ rw bad (if_returned fine')
              | inl got ↦ rw got (
                  Partial-bind
                    (queue_request-Apartly s a ctx (hwrng_req_len req) u (fine a ctx e) fine')
                    λ _ v fine''. if_returned fine'')
            ])
    ]

    take_message-Apartly :
        (ev : Uevent) (a : ℕ) (t : State)
        → Apartly s t
        → Partial (λ _ u. Apartly s u) (take_message ev a t)
    take_message-Apartly ev a t fine = elim (Bool-cases (has_flag ev poll_msg)) [
      | inr idle ↦ rw idle (if_returned fine)
      | inl msg ↦ rw msg (
          Partial-bind (hwrng_chan_handle_msg-Apartly a t fine) λ rc u fine'.
            elim (Bool-cases (int_eq rc (pos 0))) [
              | inl good ↦ rw good (if_returned fine')
              | inr bad ↦ rw bad (hwrng_close_chan-Apartly s a u fine')
            ])
    ]

    handle_chan_event-Apartly :
        (ev : Uevent) (a : ℕ) (t : State)
        → Apartly s t
        → Partial (λ _ u. Apartly s u) (handle_chan_event ev a t)
    unfolding handle_chan_event
    handle_chan_event-Apartly ev a t (same, fine) = elim (Bool-cases (has_flag ev poll_hup)) [
      | inl hup ↦ rw hup (hwrng_close_chan-Apartly s a t (same, fine))
      | inr up ↦ rw up (elim (Option-cases (t.hwrng_ctxs a)) [
        | inl gone ↦ rw gone if_fault
        | inr (ctx, e) ↦ rw e (elim (Bool-cases (has_flag ev poll_send_unblocked)) [
          | inl room ↦ rw room (
              take_message-Apartly ev a _ (
                set_ctx_Apartly s a (record ctx { send_blocked = false }) t (same, fine)
                  (fine a ctx e)))
          | inr full ↦ rw full (take_message-Apartly ev a t (same, fine))
        ])
      ])
    ]

    module _ (within : WithinBuffer) where
      serve_request-Apartly :
          (a : ℕ) (more : Bool) (t : State)
          → Apartly s t
          → Partial (λ _ u. Apartly s u) (serve_request a more t)
      unfolding serve_request
      serve_request-Apartly a more t (same, fine) = elim (Option-cases (t.hwrng_ctxs a)) [
        | inl gone ↦ rw gone if_fault
        | inr (ctx, e) ↦ rw e (elim (Bool-cases ctx.send_blocked) [
          | inl waits ↦ rw waits (if_returned (same, fine))
          | inr free ↦
              rw (free, piece_min ctx.req_size)
                (Partial-bind (Partial-Ensures (got ctx)) λ _ u (mem, k).
                  reply-Apartly s a (record ctx { send_blocked = false }) _ more u (fine a ctx e)
                    (
                      SameKeys-kept s t u same k mem,
                      (λ b d e'. fine b d (sym (ap (λ k. k.hwrng_ctxs b) k) ∙ e')),
                    ))
        ])
      ]
        where
          got :
              (ctx : HwrngChanCtx)
              → Ensures false
                  (λ _ u. Frame rng_data 4096 t u)
                  (hwrng_dev_get_rng_data rng_data (min 4096 ctx.req_size) t)
          got ctx =
              mono
                (hwrng_dev_get_rng_data-Ensures within {strict = false} (λ e. absurd cc)
                  (min 4096 ctx.req_size) t (omega arith))
                λ _ u (frame, dev).
                  Frame-widen rng_data (min 4096 ctx.req_size) rng_data 4096 t u
                    (λ i out. omega (arith, out)) frame

      serve_requests-Apartly :
          (rest : List ℕ) (more : Bool) (t : State)
          → Apartly s t
          → Partial (λ _ u. Apartly s u) (serve_requests rest more t)
      unfolding serve_requests
      serve_requests-Apartly [] more t fine = if_returned fine
      serve_requests-Apartly (a ∷ rest) more t fine =
          Partial-bind (serve_request-Apartly a more t fine) (serve_requests-Apartly rest)

      -- What the handler of a channel leaves alone: the key service, all memory but the buffer of random
      -- bytes, and the handlers of the contexts.
      pub hwrng_chan_handler-Apartly :
          (ev : Uevent) (a : ℕ) (t : State)
          → Apartly s t
          → Partial (λ _ u. Apartly s u) (hwrng_chan_handler ev a t)
      unfolding hwrng_chan_handler tipc_handle_chan_errors hwrng_kick_req_queue
          hwrng_handle_req_queue
      hwrng_chan_handler-Apartly ev a t (same, fine) = elim (Bool-cases (a == 0)) [
        | inl null ↦ rw null if_aborted
        | inr there ↦ rw there (elim (Option-cases (t.hwrng_ctxs a)) [
          | inl gone ↦ rw gone if_fault
          | inr (ctx, e) ↦ rw e (elim (Bool-cases (int_eq ev.handle ctx.chan)) [
            | inr other ↦ rw other if_aborted
            | inl mine ↦
                rw mine (elim (Bool-cases (has_flag ev poll_error || has_flag ev poll_ready)) [
                  | inl bad ↦ rw bad if_aborted
                  | inr good ↦ rw good (
                      Partial-bind (handle_chan_event-Apartly ev a t (same, fine)) λ _ u fine'.
                        Partial-bind
                          (serve_requests-Apartly (list_entries u.hwrng_req_list) false u fine')
                          λ more v fine''. if_returned fine'')
                ])
          ])
        ])
      ]

    pub open_hwrng_chan-Apartly :
        (chan : ℤ) (t : State) → Apartly s t → Partial (λ _ u. Apartly s u) (open_hwrng_chan chan t)
    unfolding open_hwrng_chan
    open_hwrng_chan-Apartly chan t (same, fine) = elim (Bool-cases (fresh t == 0)) [
      | inl none_left ↦ rw none_left (if_returned (same, λ b d. fine b d))
      | inr there ↦
          rw there
            (elim (Bool-cases (
              int_eq
                (set_cookie chan (hwrng_chan_cookie (fresh t))
                  (calloc sizeof_hwrng_chan_ctx t.world).1).0
                (pos 0))) [
                  | inl done ↦ rw done (
                      if_returned
                        (set_ctx_Apartly s (fresh t) (new_ctx (fresh t) chan) t (same, fine) refl))
                  | inr failed ↦ rw failed (
                      if_returned (
                        same,
                        RngHandlers-set (fresh t) none
                            (record t {
                              hwrng_ctxs = λ b.
                                  if b == fresh t
                                  then some (new_ctx (fresh t) chan)
                                  else t.hwrng_ctxs b;
                            })
                            (set_ctx_Apartly s (fresh t) (new_ctx (fresh t) chan) t (same, fine)
                              refl).1
                            (freed_handler (fresh t)),
                      ))
                ])
    ]
