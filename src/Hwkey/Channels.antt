-- ===== src/Hwkey/Channels.antt =====
-- The events of a channel of app/hwcrypto/hwkey_srv.c (hwkey_chan_handler, hwkey_ctx_close).
use trusty_lk_nxp.Common.{
  ℕ, ◌≡◌, ◌≢◌, refl, ap, ◌∙◌, ◌⊎◌, inl, inr, Bool, ◌||◌, none, some, List, ◌∷◌, Bool-cases, ◌==◌,
  if_same, if_other, if◌then◌else◌,
}
use trusty_lk_nxp.Common.Int.{is_negative, int_eq}
use trusty_lk_nxp.Platform.{Platform, Uevent}
use trusty_lk_nxp.Machine.{and_then, skip, Call, closed, freed, State, HwkeyChanCtx}
use trusty_lk_nxp.Machine.Outcome.{Ensures, Safely, stopped, of_Returned, bind}
use trusty_lk_nxp.Tipc.{has_flag, tipc_handle_chan_errors}
use trusty_lk_nxp.Tipc.Receive.{IpcLaws}
use trusty_lk_nxp.Hwkey.Lookup.{SlotsCounted}
use trusty_lk_nxp.Hwkey.Clean.{KeyLayout, IsClean}
use trusty_lk_nxp.Hwkey.Messages.{SlotsCounted-kept, hwkey_chan_handle_msg-LeftClean}
use trusty_lk_nxp.Hwkey.Server.{hwkey_ctx_close, hwkey_chan_handle_msg, hwkey_chan_handler}

module _ ⦃p : Platform⦄ where
  open p use {poll_error, poll_ready, poll_hup, poll_msg}

  -- The channel goes on, or it was closed and its context freed with the last two calls.
  abbrev pub GoesOnOrCloses : (a : ℕ) → HwkeyChanCtx → State → Type 0
  GoesOnOrCloses a ctx t =
      (t.hwkey_ctxs a ≡ some ctx)
      ⊎ ((t.hwkey_ctxs a ≡ none) × ((cs : List Call) × (t.calls ≡ freed a ∷ closed ctx.chan ∷ cs)))

  -- what an event of the channel of `ctx` leaves
  abbrev pub ChannelAfter : (a : ℕ) → HwkeyChanCtx → State → Unit {0} → State → Type 0
  ChannelAfter a ctx s _ t =
      IsClean t
      × SlotsCounted t
      × ((b : ℕ) → b ≢ a → t.hwkey_ctxs b ≡ s.hwkey_ctxs b)
      × GoesOnOrCloses a ctx t

  hwkey_ctx_close-ChannelAfter :
      {strict : Bool} (a : ℕ) (ctx : HwkeyChanCtx) (s t : State)
      → IsClean t
      → SlotsCounted t
      → t.hwkey_ctxs ≡ s.hwkey_ctxs
      → s.hwkey_ctxs a ≡ some ctx
      → Ensures strict (ChannelAfter a ctx s) (hwkey_ctx_close a t)
  unfolding hwkey_ctx_close
  hwkey_ctx_close-ChannelAfter a ctx s t clean counted same e = rw (ap (λ f. f a) same ∙ e) (
      of_Returned _ _ (
        clean,
        counted,
        (λ b h. if_other a b _ _ h ∙ ap (λ f. f b) same),
        inr (if_same a _ _, (_, refl)),
      ))

  -- a message that is handled, with what follows
  answered-ChannelAfter :
      (layout : KeyLayout) (ipc : IpcLaws) (a : ℕ) (ctx : HwkeyChanCtx) (s : State)
      → SlotsCounted s
      → IsClean s
      → s.hwkey_ctxs a ≡ some ctx
      → Safely (ChannelAfter a ctx s) (
          and_then
            (hwkey_chan_handle_msg ctx s)
            λ rc. if is_negative rc then hwkey_ctx_close a else skip)
  answered-ChannelAfter layout ipc a ctx s counted clean e =
      bind (hwkey_chan_handle_msg-LeftClean (λ h. absurd cc) layout ipc ctx s counted clean)
        λ rc t (clean', k). elim (Bool-cases (is_negative rc)) [
          | inl bad ↦ rw bad (
              hwkey_ctx_close-ChannelAfter a ctx s t clean' (SlotsCounted-kept s t k counted)
                (ap (λ k. k.hwkey_ctxs) k) e)
          | inr fine ↦ rw fine (
              of_Returned _ _ (
                clean',
                SlotsCounted-kept s t k counted,
                (λ b h. ap (λ k. k.hwkey_ctxs b) k),
                inl (ap (λ k. k.hwkey_ctxs a) k ∙ e),
              ))
        ]

  -- Whatever event comes for a channel with a context, and whatever its message asks for, the handler
  -- uses no context that is freed, leaves no byte of a key in the key buffer, and touches no other
  -- channel's context; its own context is as before, or the channel was closed and then the context
  -- freed. This is where the key buffer was clean, the key slots are as many as are counted, requests are
  -- read apart from the key buffer, and the IPC calls keep their laws. The handler may stop by an assert
  -- or an abort, or wait for the device.
  pub hwkey_chan_handler-ChannelAfter :
      (layout : KeyLayout) (ipc : IpcLaws) (ev : Uevent) (a : ℕ) (ctx : HwkeyChanCtx) (s : State)
      → SlotsCounted s
      → IsClean s
      → s.hwkey_ctxs a ≡ some ctx
      → Safely (ChannelAfter a ctx s) (hwkey_chan_handler ev a s)
  unfolding hwkey_chan_handler tipc_handle_chan_errors
  hwkey_chan_handler-ChannelAfter layout ipc ev a ctx s counted clean e =
      elim (Bool-cases (a == 0)) [
        | inl null ↦ rw null (stopped refl)
        | inr there ↦
            rw (there, e)
              (elim (Bool-cases (int_eq ev.handle ctx.chan)) [
                | inr other ↦ rw other (stopped refl)
                | inl mine ↦
                    rw mine (elim (Bool-cases (has_flag ev poll_error || has_flag ev poll_ready)) [
                      | inl bad ↦ rw bad (stopped refl)
                      | inr good ↦ rw good (elim (Bool-cases (has_flag ev poll_hup)) [
                        | inl hup ↦
                            rw hup (hwkey_ctx_close-ChannelAfter a ctx s s clean counted refl e)
                        | inr up ↦ rw up (elim (Bool-cases (has_flag ev poll_msg)) [
                          | inr idle ↦
                              rw idle (of_Returned _ _ (clean, counted, (λ b h. refl), inl e))
                          | inl msg ↦
                              rw msg (answered-ChannelAfter layout ipc a ctx s counted clean e)
                        ])
                      ])
                    ])
              ])
      ]
