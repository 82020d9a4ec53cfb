-- ===== src/Hwrng/Resume.antt =====
-- A client of app/hwcrypto/hwrng_srv.c whose channel has room again (hwrng_chan_handler).
use trusty_lk_nxp.Common.{
  if_same, if_other, ℕ, suc, ◌+◌, ◌*◌, ◌≤◌, ◌≡◌, refl, Bool, true, false, some, [], ◌==◌,
}
use trusty_lk_nxp.Common.Int.{ℤ}
use trusty_lk_nxp.Platform.{Platform, Uevent}
use trusty_lk_nxp.Machine.{State, HwrngChanCtx, ◌>>=◌}
use trusty_lk_nxp.Machine.Outcome.{Ensures, returned}
use trusty_lk_nxp.Machine.Sent.{messages, bytes_sent}
use trusty_lk_nxp.Caam.Device.{DeviceLaws, WithinBuffer}
use trusty_lk_nxp.Tipc.{has_flag}
use trusty_lk_nxp.Hwrng.Links.{contains, ListLaws}
use trusty_lk_nxp.Hwrng.Server.{handle_chan_event, hwrng_chan_handler}
use trusty_lk_nxp.Hwrng.Queue.{entries, QueueOk}
use trusty_lk_nxp.Hwrng.Contexts.{with_ctx, with_ctx-Open}
use trusty_lk_nxp.Hwrng.Rounds.{SendsSucceed}
use trusty_lk_nxp.Hwrng.Progress.{passes}
use trusty_lk_nxp.Hwrng.Accounts.{IsOwnChan}
use trusty_lk_nxp.Hwrng.Asked.{Requested}
use trusty_lk_nxp.Hwrng.Owed.{
  IsProper, OthersDue, Requested-Due, Requested-Account, Owes, hwrng_chan_handler-delivered,
}

module _ ⦃p : Platform⦄ where
  open p use {poll_hup, poll_msg, poll_send_unblocked}

  -- The event tells of room on the channel, and of nothing else.
  abbrev pub IsRoom : ℤ → Uevent → Type 0
  IsRoom chan ev =
      IsProper chan ev
      × (has_flag ev poll_send_unblocked ≡ true)
      × (has_flag ev poll_hup ≡ false)
      × (has_flag ev poll_msg ≡ false)

  -- A queued client has room again: the pass that its event starts and `k` more can serve every request.
  abbrev pub Resumes : ℕ → Uevent → ℕ → HwrngChanCtx → State → Type 0
  Resumes k ev a ctx s =
      IsRoom ctx.chan ev
      × (contains a (entries s) ≡ true)
      × (s.hwrng_ctxs a ≡ some ctx)
      × IsOwnChan ctx.chan a s
      × QueueOk s
      × OthersDue (suc k) a s
      × (ctx.req_size ≤ 4096 * suc k)

  -- the context that waits no more, and the state with it
  abbrev resumed : HwrngChanCtx → HwrngChanCtx
  resumed ctx = record ctx { send_blocked = false }

  abbrev with_room : ℕ → HwrngChanCtx → State → State
  with_room a ctx s = with_ctx a (some (resumed ctx)) s

  room-Requested :
      (a : ℕ) (ctx : HwrngChanCtx) (s : State)
      → contains a (entries s) ≡ true
      → Requested a (resumed ctx) ctx.req_size s (with_room a ctx s)
  room-Requested a ctx s here = (if_same a _ _, here, (λ b h. if_other a b _ _ h), λ b h. refl)

  room-Owes :
      {strict : Bool} (k : ℕ) (ev : Uevent) (a : ℕ) (ctx : HwrngChanCtx) (s : State)
      → Resumes k ev a ctx s
      → Ensures strict
          (λ _ t. Owes (suc k) ctx.chan a (bytes_sent ctx.chan (messages s.calls) + ctx.req_size) t)
          (handle_chan_event ev a s)
  unfolding handle_chan_event
  room-Owes k ev a ctx s (event, here, e, own, fine, due, size) =
      let (proper, room, up, none_there) = event in
      let requested : Requested a (resumed ctx) ctx.req_size s (with_room a ctx s) =
        room-Requested a ctx s here in
      rw (up, e)
        (rw room (
          rw none_there (
            returned {s = with_room a ctx s} (
              Requested-Due a ctx.req_size (resumed ctx) s (with_room a ctx s) requested k
                  (with_ctx-Open a (resumed ctx) s fine (fine.0 a ctx e)).0 due refl size,
              Requested-Account a ctx.req_size (resumed ctx) s (with_room a ctx s) requested refl
                  (own a ctx e) own,
            ))))

  module _ (sends : SendsSucceed) (lists : ListLaws) (within : WithinBuffer) {strict : Bool}
      (laws : strict ≡ true → DeviceLaws) where
    -- A queued client that waits for room is not forgotten: the event that tells of room on its channel,
    -- and of nothing else, starts a pass with which, and with k passes more, it is sent exactly what is
    -- left of its request, and the queue is empty. This is where its context is allocated and is the
    -- only one with its channel, no other queued channel waits for room, the requests of the
    -- well-formed queue are of at most 4096 (k + 1) bytes each, every message is sent, and the list
    -- library and prepare_dma keep their laws. Under the laws of the device the passes come to their
    -- end; without them they may also stop by an assert or wait for ever.
    pub hwrng_chan_handler-resumed :
        (k : ℕ) (ev : Uevent) (a : ℕ) (ctx : HwrngChanCtx) (s : State)
        → (a == 0) ≡ false
        → Resumes k ev a ctx s
        → Ensures strict
            (λ _ t.
              (bytes_sent ctx.chan (messages t.calls)
                ≡ bytes_sent ctx.chan (messages s.calls) + ctx.req_size)
              × (entries t ≡ []))
            ((hwrng_chan_handler ev a >>= λ _. passes k) s)
    hwrng_chan_handler-resumed k ev a ctx s nonnull resumes =
        hwrng_chan_handler-delivered sends lists within laws k ev a
          (bytes_sent ctx.chan (messages s.calls) + ctx.req_size) ctx s nonnull resumes.2
          resumes.0.0 (room-Owes k ev a ctx s resumes)
