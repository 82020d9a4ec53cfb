-- ===== src/Hwrng/Delivery.antt =====
-- A request from its message to its last byte: hwrng_chan_handler of app/hwcrypto/hwrng_srv.c, and the
-- passes over the queue that follow it.
use trusty_lk_nxp.Common.{
  ℕ, suc, ◌+◌, ◌*◌, ◌≤◌, ◌≡◌, refl, Bool, true, false, some, [], arith, ◌==◌,
}
use mathlib.Core.Path.{subst}
use trusty_lk_nxp.Common.Int.{ℤ}
use trusty_lk_nxp.Platform.{Platform, Uevent}
use trusty_lk_nxp.Machine.{State, HwrngChanCtx, ◌>>=◌}
use trusty_lk_nxp.Machine.Outcome.{Ensures, returned, bind, both}
use trusty_lk_nxp.Machine.Sent.{messages, bytes_sent}
use trusty_lk_nxp.Caam.Device.{DeviceLaws, WithinBuffer}
use trusty_lk_nxp.Tipc.{has_flag}
use trusty_lk_nxp.Tipc.Receive.{IpcLaws}
use trusty_lk_nxp.Tipc.Whole.{HasMessage}
use trusty_lk_nxp.Hwrng.Links.{ListLaws}
use trusty_lk_nxp.Hwrng.Server.{handle_chan_event, hwrng_chan_handler}
use trusty_lk_nxp.Hwrng.Queue.{entries, QueueOk}
use trusty_lk_nxp.Hwrng.Channels.{ReqLenFits, hwrng_chan_handle_msg-Open}
use trusty_lk_nxp.Hwrng.Rounds.{SendsSucceed}
use trusty_lk_nxp.Hwrng.Progress.{passes}
use trusty_lk_nxp.Hwrng.Accounts.{IsOwnChan}
use trusty_lk_nxp.Hwrng.Asked.{Requested}
use trusty_lk_nxp.Hwrng.Requests.{new_total, hwrng_chan_handle_msg-Requested}
use trusty_lk_nxp.Hwrng.Owed.{
  IsProper, OthersDue, Requested-Due, Requested-Account, Owes, hwrng_chan_handler-delivered,
}

module _ ⦃p : Platform⦄ where
  open p use {hwrng_req_size, poll_hup, poll_msg, poll_send_unblocked}

  -- The event tells of a message on the channel, and of nothing else.
  abbrev pub IsMessage : ℤ → Uevent → Type 0
  IsMessage chan ev =
      IsProper chan ev
      × (has_flag ev poll_msg ≡ true)
      × (has_flag ev poll_hup ≡ false)
      × (has_flag ev poll_send_unblocked ≡ false)

  -- A message asks for bytes: the pass that its event starts and `k` more can serve every request.
  abbrev pub Asks : ℕ → Uevent → ℕ → HwrngChanCtx → State → Type 0
  Asks k ev a ctx s =
      IsMessage ctx.chan ev
      × HasMessage ctx.chan hwrng_req_size s
      × (s.hwrng_ctxs a ≡ some ctx)
      × (ctx.send_blocked ≡ false)
      × IsOwnChan ctx.chan a s
      × QueueOk s
      × OthersDue (suc k) a s
      × (new_total a ctx s ≤ 4096 * suc k)

  module _ (ipc : IpcLaws) (lists : ListLaws) (fits : ReqLenFits) where
    message-Owes :
        {strict : Bool} (k : ℕ) (ev : Uevent) (a n : ℕ) (ctx : HwrngChanCtx) (s : State)
        → Asks k ev a ctx s
        → new_total a ctx s ≡ n
        → Ensures strict
            (λ _ t. Owes (suc k) ctx.chan a (bytes_sent ctx.chan (messages s.calls) + n) t)
            (handle_chan_event ev a s)
    unfolding handle_chan_event
    message-Owes k ev a n ctx s (event, there, e, free, own, fine, due, size) total =
        let (proper, msg, up, room) = event in
        rw (up, e)
          (rw room (
            rw msg (
              bind
                (both (hwrng_chan_handle_msg-Requested ipc lists fits a ctx s e there)
                  (hwrng_chan_handle_msg-Open lists fits a s (fine, (ctx, e))))
                λ rc t ((ok, silent, requested), fine').
                  let requested' : Requested a ctx n s t =
                    subst (λ m. Requested a ctx m s t) total requested in
                  rw ok (
                    returned {s = t} (
                      Requested-Due a n ctx s t requested' k fine'.0 due free
                          (omega (arith, total, size)),
                      Requested-Account a n ctx s t requested' silent (own a ctx e) own,
                    )))))

    module _ (sends : SendsSucceed) (within : WithinBuffer) {strict : Bool}
        (laws : strict ≡ true → DeviceLaws) where
      -- A message that asks for random bytes, where its event tells of nothing else, is answered in
      -- full: by the pass that the event starts and k passes more the client is sent exactly what it was
      -- owed before and the length that it asks for, together modulo 2^32, and the queue is empty. This
      -- is where the context of the client is allocated, does not wait for room and is the only one
      -- with its channel, no queued channel waits for room, the requests of the well-formed queue and
      -- the new one are of at most 4096 (k + 1) bytes each, there is room for every message, the IPC
      -- calls, the list library and prepare_dma keep their laws, and the length in a request is of 32
      -- bits. Under the laws of the device the passes come to their end; without them they may also stop
      -- by an assert or wait for ever.
      pub hwrng_chan_handler-Delivered :
          (k : ℕ) (ev : Uevent) (a : ℕ) (ctx : HwrngChanCtx) (s : State)
          → (a == 0) ≡ false
          → Asks k ev a ctx s
          → Ensures strict
              (λ _ t.
                (bytes_sent ctx.chan (messages t.calls)
                  ≡ bytes_sent ctx.chan (messages s.calls) + new_total a ctx s)
                × (entries t ≡ []))
              ((hwrng_chan_handler ev a >>= λ _. passes k) s)
      hwrng_chan_handler-Delivered k ev a ctx s nonnull asks =
          hwrng_chan_handler-delivered sends lists within laws k ev a
            (bytes_sent ctx.chan (messages s.calls) + new_total a ctx s) ctx s nonnull asks.2
            asks.0.0 (message-Owes k ev a (new_total a ctx s) ctx s asks refl)
