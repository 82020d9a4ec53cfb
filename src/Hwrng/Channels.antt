-- ===== src/Hwrng/Channels.antt =====
-- The events of a channel of app/hwcrypto/hwrng_srv.c (hwrng_chan_handler).
use trusty_lk_nxp.Common.{
  ℕ, ◌^◌, ◌<◌, ◌≡◌, refl, inl, inr, Bool, false, not, ◌||◌, some, List, arith, Bool-cases, ◌==◌,
  if◌then◌else◌,
}
use trusty_lk_nxp.Common.Int.{ℤ, pos, int_eq}
use trusty_lk_nxp.Platform.{Platform, Uevent}
use trusty_lk_nxp.Machine.{and_then, Cmd, skip, ◌>>=◌, State, HwrngChanCtx}
use trusty_lk_nxp.Machine.Outcome.{Ensures, Safely, returned, stopped, of_Returned, bind}
use trusty_lk_nxp.Caam.Device.{WithinBuffer}
use trusty_lk_nxp.Caam.Frame.{kept}
use trusty_lk_nxp.Tipc.{has_flag, tipc_recv_single_buf, tipc_handle_chan_errors}
use trusty_lk_nxp.Hwrng.Links.{ListLaws}
use trusty_lk_nxp.Hwrng.Server.{
  hwrng_close_chan, queue_request, hwrng_chan_handle_msg, handle_chan_event, hwrng_kick_req_queue,
  hwrng_chan_handler,
}
use trusty_lk_nxp.Hwrng.Queue.{IsLive, QueueOk, hwrng_handle_req_queue-QueueOk}
use trusty_lk_nxp.Hwrng.Contexts.{
  with_ctx, added-Open, kept-Open, freed-QueueOk, Open, with_ctx-Open, idle-QueueOk,
}

module _ ⦃p : Platform⦄ where
  open p use {
    get_msg, list_in_list, hwrng_req_len, hwrng_req_size, poll_hup, poll_msg, poll_send_unblocked,
    poll_error, poll_ready,
  }

  -- the length of a request, which is a `uint32_t`
  abbrev pub ReqLenFits : Type 0
  ReqLenFits = (req : List ℕ) → hwrng_req_len req < 2 ^ 32

  -- the part of an event that reads a message
  abbrev pub take_message : Uevent → (ctx : ℕ) → Cmd (Unit {0})
  take_message ev a =
      if not (has_flag ev poll_msg)
      then skip
      else hwrng_chan_handle_msg a >>= λ rc.
          if not (int_eq rc (pos 0)) then hwrng_close_chan a else skip

  module _ {strict : Bool} where
    pub tipc_recv_single_buf-kept :
        (chan : ℤ) (len : ℕ) (s : State)
        → Ensures strict (λ _ t. kept t ≡ kept s) (tipc_recv_single_buf chan len s)
    unfolding tipc_recv_single_buf
    tipc_recv_single_buf-kept chan len s =
        elim (Bool-cases (int_eq (get_msg chan s.world).0.0 (pos 0))) [
          | inr bad ↦ rw bad (of_Returned _ _ refl)
          | inl got ↦ rw got (elim (Bool-cases ((get_msg chan s.world).0.1.len == len)) [
            | inl fits ↦ rw fits (of_Returned _ _ refl)
            | inr other ↦ rw other (of_Returned _ _ refl)
          ])
        ]

    hwrng_close_chan-QueueOk :
        (laws : ListLaws) (a : ℕ) (s : State)
        → Open a s
        → Ensures strict (λ _ t. QueueOk t) (hwrng_close_chan a s)
    unfolding hwrng_close_chan
    hwrng_close_chan-QueueOk laws a s (fine, (ctx, e)) =
        elim (Bool-cases (list_in_list a s.hwrng_req_list)) [
          | inl queued ↦ rw (e, queued) (of_Returned _ _ (freed-QueueOk laws a s fine queued))
          | inr idle ↦ rw (e, idle) (of_Returned _ _ (idle-QueueOk laws a s fine idle))
        ]

    queue_request-Open :
        (laws : ListLaws) (a : ℕ) (ctx : HwrngChanCtx) (len : ℕ) (s : State)
        → Open a s
        → len < 2 ^ 32
        → Ensures strict (λ _ t. Open a t) (queue_request a ctx len s)
    unfolding queue_request
    queue_request-Open laws a ctx len s fine small =
        elim (Bool-cases (list_in_list a s.hwrng_req_list)) [
          | inl queued ↦ rw queued (of_Returned _ _ (with_ctx-Open a _ s fine.0 (omega arith)))
          | inr idle ↦ rw idle (
              of_Returned _ _ (
                added-Open laws a (with_ctx a (some (record ctx { req_size = len })) s)
                  (with_ctx-Open a (record ctx { req_size = len }) s fine.0 small) idle))
        ]

    pub hwrng_chan_handle_msg-Open :
        (laws : ListLaws) (fits : ReqLenFits) (a : ℕ) (s : State)
        → Open a s
        → Ensures strict (λ _ t. Open a t) (hwrng_chan_handle_msg a s)
    unfolding hwrng_chan_handle_msg
    hwrng_chan_handle_msg-Open laws fits a s fine =
        let (ctx, e) = fine.1 in
        rw e (
          bind (tipc_recv_single_buf-kept ctx.chan hwrng_req_size s) λ (rc, req) t k.
            elim (Bool-cases (int_eq rc (pos hwrng_req_size))) [
              | inr bad ↦ rw bad (of_Returned _ _ (kept-Open a s t k fine))
              | inl got ↦ rw got (
                  bind
                    (queue_request-Open laws a ctx (hwrng_req_len req) t (kept-Open a s t k fine)
                      (fits req))
                    λ _ u h. of_Returned _ _ h)
            ])

    take_message-QueueOk :
        (laws : ListLaws) (fits : ReqLenFits) (ev : Uevent) (a : ℕ) (s : State)
        → Open a s
        → Ensures strict (λ _ t. QueueOk t) (take_message ev a s)
    take_message-QueueOk laws fits ev a s fine = elim (Bool-cases (has_flag ev poll_msg)) [
      | inr none_there ↦ rw none_there (of_Returned _ _ fine.0)
      | inl msg ↦ rw msg (
          bind (hwrng_chan_handle_msg-Open laws fits a s fine) λ rc t fine'.
            elim (Bool-cases (int_eq rc (pos 0))) [
              | inl good ↦ rw good (of_Returned _ _ fine'.0)
              | inr bad ↦ rw bad (hwrng_close_chan-QueueOk laws a t fine')
            ])
    ]

    handle_chan_event-QueueOk :
        (laws : ListLaws) (fits : ReqLenFits) (ev : Uevent) (a : ℕ) (s : State)
        → Open a s
        → Ensures strict (λ _ t. QueueOk t) (handle_chan_event ev a s)
    unfolding handle_chan_event
    handle_chan_event-QueueOk laws fits ev a s fine = elim (Bool-cases (has_flag ev poll_hup)) [
      | inl hup ↦ rw hup (hwrng_close_chan-QueueOk laws a s fine)
      | inr up ↦
          let (ctx, e) = fine.1 in
          rw (up, e)
            (elim (Bool-cases (has_flag ev poll_send_unblocked)) [
              | inl room ↦ rw room (
                  take_message-QueueOk laws fits ev a
                    (with_ctx a (some (record ctx { send_blocked = false })) s)
                    (with_ctx-Open a (record ctx { send_blocked = false }) s fine.0
                      (fine.0.0 a ctx e)))
              | inr full ↦ rw full (take_message-QueueOk laws fits ev a s fine)
            ])
    ]

  module _ (within : WithinBuffer) (laws : ListLaws) (fits : ReqLenFits) where
    handled :
        (ev : Uevent) (a : ℕ) (s : State)
        → Open a s
        → Safely
            (λ _ t. QueueOk t)
            (and_then (handle_chan_event ev a s) λ _ t. hwrng_kick_req_queue t)
    unfolding hwrng_kick_req_queue
    handled ev a s fine = bind (handle_chan_event-QueueOk laws fits ev a s fine) λ _ t fine'.
        bind (hwrng_handle_req_queue-QueueOk within laws (λ e. absurd cc) t fine')
          λ more u fine''. returned fine''

    -- Whatever event comes for a channel with a context, and whatever its messages and the sends
    -- answer, the handler uses no context that is freed, and leaves a queue of allocated contexts,
    -- none twice, with sizes of 32 bits, where it found such a queue, the list library keeps its
    -- laws, prepare_dma finds ranges within the buffer and the length in a request is of 32 bits.
    -- It may stop by an assert or an abort, or wait for the device.
    pub hwrng_chan_handler-QueueOk :
        (ev : Uevent) (a : ℕ) (s : State)
        → QueueOk s
        → IsLive a s
        → Safely (λ _ t. QueueOk t) (hwrng_chan_handler ev a s)
    unfolding hwrng_chan_handler tipc_handle_chan_errors
    hwrng_chan_handler-QueueOk ev a s fine (ctx, e) = elim (Bool-cases (a == 0)) [
      | inl null ↦ rw null (stopped refl)
      | inr there ↦
          rw (there, e)
            (elim (Bool-cases (int_eq ev.handle ctx.chan)) [
              | inr other ↦ rw other (stopped refl)
              | inl same ↦
                  rw same (elim (Bool-cases (has_flag ev poll_error || has_flag ev poll_ready)) [
                    | inl bad ↦ rw bad (stopped refl)
                    | inr good ↦ rw good (handled ev a s (fine, (ctx, e)))
                  ])
            ])
    ]
