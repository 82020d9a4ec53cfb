-- ===== src/Main/KeySide.antt =====
-- What the handlers of app/hwcrypto/hwkey_srv.c leave behind, for the invariant of the whole server.
use trusty_lk_nxp.Common.{
  ℕ, ◌≡◌, refl, sym, ◌∙◌, ap, inl, inr, Bool, false, Option, none, some, List, arith, Bool-cases,
  Option-cases, ◌==◌, ◌||◌, if◌then◌else◌, if_same, set-All,
}
use mathlib.Core.Path.{subst}
use trusty_lk_nxp.Common.Int.{ℤ, is_negative, int_eq}
use trusty_lk_nxp.Platform.{Platform, Uevent, hwkey_chan_proc, hwkey_chan_cookie}
use trusty_lk_nxp.Machine.{State, HwkeyChanCtx, and_then, skip}
use trusty_lk_nxp.Machine.Outcome.{
  Ensures, Safely, of_Returned, stopped, mono, Partial, if_returned, if_aborted, if_fault,
  Partial-bind, Partial-Ensures, Ensures-Partial,
}
use trusty_lk_nxp.Tipc.{has_flag, tipc_handle_chan_errors, tipc_handle_port_errors}
use trusty_lk_nxp.Tipc.Receive.{IpcLaws}
use trusty_lk_nxp.Hwkey.Lookup.{SlotsCounted}
use trusty_lk_nxp.Hwkey.Clean.{KeyLayout, IsClean}
use trusty_lk_nxp.Hwkey.Messages.{hwkey_chan_handle_msg-LeftClean}
use trusty_lk_nxp.Hwkey.Channels.{ChannelAfter, hwkey_chan_handler-ChannelAfter}
use trusty_lk_nxp.Hwkey.Server.{
  hwkey_ctx_close, hwkey_chan_handle_msg, hwkey_chan_handler, open_hwkey_chan, hwkey_port_handler,
  sizeof_hwkey_chan_ctx,
}
use trusty_lk_nxp.Main.RandomSide.{handler_at}

module _ ⦃p : Platform⦄ where
  open p use {
    calloc, set_cookie, accept, poll_error, poll_ready, poll_hup, poll_msg, poll_send_unblocked,
  }

  -- the queue and the contexts of the other service as they were
  abbrev pub SameRng : State → State → Type 0
  SameRng s t = (t.hwrng_ctxs ≡ s.hwrng_ctxs) × (t.hwrng_req_list ≡ s.hwrng_req_list)

  abbrev pub KeyHandlers : State → Type 0
  KeyHandlers s =
      (a : ℕ) (ctx : HwkeyChanCtx)
      → s.hwkey_ctxs a ≡ some ctx
      → ctx.evt_handler ≡ handler_at hwkey_chan_proc a

  -- what an event of the key service leaves
  abbrev pub KeyEvent : State → Unit {0} → State → Type 0
  KeyEvent s _ t = SameRng s t × IsClean t × SlotsCounted t × KeyHandlers t

  hwkey_ctx_close-SameRng :
      (a : ℕ) (s t : State) → SameRng s t → Partial (λ _ u. SameRng s u) (hwkey_ctx_close a t)
  unfolding hwkey_ctx_close
  hwkey_ctx_close-SameRng a s t same = elim (Option-cases (t.hwkey_ctxs a)) [
    | inl gone ↦ rw gone if_fault
    | inr (ctx, e) ↦ rw e (if_returned same)
  ]

  KeyHandlers-freed :
      (a : ℕ) (ctx : HwkeyChanCtx) (s t : State)
      → KeyHandlers s
      → s.hwkey_ctxs a ≡ some ctx
      → ChannelAfter a ctx s tt t
      → KeyHandlers t
  KeyHandlers-freed a ctx s t fine e (_, _, others, own) b d e' = elim (Bool-cases (b == a)) [
    | inr other ↦ fine b d (sym (others b (λ h. ground arith)) ∙ e')
    | inl same ↦
        let h : b ≡ a = ground arith in
        let e'' : t.hwkey_ctxs a ≡ some d = subst (λ x. t.hwkey_ctxs x ≡ some d) h e' in
        fine b d (elim own [
          | inl on ↦ subst (λ x. s.hwkey_ctxs x ≡ some d) (sym h) (e ∙ sym on ∙ e'')
          | inr (gone, _) ↦ absurd cc
        ])
  ]

  module _ (layout : KeyLayout) (ipc : IpcLaws) where
    hwkey_chan_handler-SameRng :
        (ev : Uevent) (a : ℕ) (ctx : HwkeyChanCtx) (s : State)
        → SlotsCounted s
        → IsClean s
        → s.hwkey_ctxs a ≡ some ctx
        → Partial (λ _ t. SameRng s t) (hwkey_chan_handler ev a s)
    unfolding hwkey_chan_handler tipc_handle_chan_errors
    hwkey_chan_handler-SameRng ev a ctx s counted clean e = elim (Bool-cases (a == 0)) [
      | inl null ↦ rw null if_aborted
      | inr there ↦
          rw (there, e)
            (elim (Bool-cases (int_eq ev.handle ctx.chan)) [
              | inr other ↦ rw other if_aborted
              | inl mine ↦
                  rw mine (elim (Bool-cases (has_flag ev poll_error || has_flag ev poll_ready)) [
                    | inl bad ↦ rw bad if_aborted
                    | inr good ↦ rw good (elim (Bool-cases (has_flag ev poll_hup)) [
                      | inl hup ↦ rw hup (hwkey_ctx_close-SameRng a s s (refl, refl))
                      | inr up ↦ rw up (elim (Bool-cases (has_flag ev poll_msg)) [
                        | inr idle ↦ rw idle (if_returned (refl, refl))
                        | inl msg ↦ rw msg answered
                      ])
                    ])
                  ])
            ])
    ]
      where
        answered :
            Partial
              (λ _ t. SameRng s t)
              (and_then
                (hwkey_chan_handle_msg ctx s)
                λ rc. if is_negative rc then hwkey_ctx_close a else skip)
        answered =
            Partial-bind
              (Partial-Ensures (
                hwkey_chan_handle_msg-LeftClean {strict = false} (λ h. absurd cc) layout ipc ctx s
                  counted clean))
              λ rc t (_, k).
                let same : SameRng s t = (ap (λ k. k.hwrng_ctxs) k, ap (λ k. k.hwrng_req_list) k) in
                elim (Bool-cases (is_negative rc)) [
                  | inl bad ↦ rw bad (hwkey_ctx_close-SameRng a s t same)
                  | inr fine ↦ rw fine (if_returned same)
                ]

    pub hwkey_chan_handler-KeyEvent :
        (ev : Uevent) (a : ℕ) (ctx : HwkeyChanCtx) (s : State)
        → SlotsCounted s
        → IsClean s
        → KeyHandlers s
        → s.hwkey_ctxs a ≡ some ctx
        → Safely (KeyEvent s) (hwkey_chan_handler ev a s)
    hwkey_chan_handler-KeyEvent ev a ctx s counted clean fine e =
        mono
          (Ensures-Partial (hwkey_chan_handler-ChannelAfter layout ipc ev a ctx s counted clean e)
            (hwkey_chan_handler-SameRng ev a ctx s counted clean e))
          λ _ t (after, same). (same, after.0, after.1, KeyHandlers-freed a ctx s t fine e after)

  -- a context that is freed, or a new one with the service's own handler
  KeyHandlers-set :
      (a : ℕ) (c : Option HwkeyChanCtx) (s : State)
      → KeyHandlers s
      → ((d : HwkeyChanCtx) → c ≡ some d → d.evt_handler ≡ handler_at hwkey_chan_proc a)
      → KeyHandlers (record s { hwkey_ctxs = λ b. if b == a then c else s.hwkey_ctxs b })
  KeyHandlers-set a c s fine here =
      set-All (λ b d. d.evt_handler ≡ handler_at hwkey_chan_proc b) a c s.hwkey_ctxs fine here

  -- the address that the allocator gives, and the context that is put there
  abbrev fresh_key : State → ℕ
  fresh_key s = (calloc sizeof_hwkey_chan_ctx s.world).0

  abbrev new_client : (a : ℕ) → (chan : ℤ) → List ℕ → HwkeyChanCtx
  new_client a chan uuid = record {
    evt_handler = handler_at hwkey_chan_proc a;
    chan = chan;
    uuid = uuid;
  }

  new_client_handler :
      (a : ℕ) (chan : ℤ) (uuid : List ℕ) (d : HwkeyChanCtx)
      → some (new_client a chan uuid) ≡ some d
      → d.evt_handler ≡ handler_at hwkey_chan_proc a
  new_client_handler a chan uuid d e = cc

  open_hwkey_chan-KeyEvent :
      {strict : Bool} (chan : ℤ) (uuid : List ℕ) (s : State)
      → SlotsCounted s
      → IsClean s
      → KeyHandlers s
      → Ensures strict (KeyEvent s) (open_hwkey_chan chan uuid s)
  unfolding open_hwkey_chan hwkey_ctx_close
  open_hwkey_chan-KeyEvent chan uuid s counted clean fine = elim (Bool-cases (fresh_key s == 0)) [
    | inl none_left ↦ rw none_left (of_Returned _ _ ((refl, refl), clean, counted, fine))
    | inr there ↦
        rw there
          (elim (Bool-cases (
            is_negative
              (set_cookie chan (hwkey_chan_cookie (fresh_key s))
                (calloc sizeof_hwkey_chan_ctx s.world).1).0)) [
                  | inr done ↦ rw done (of_Returned _ _ ((refl, refl), clean, counted, opened))
                  | inl failed ↦
                      rw
                        (
                          failed,
                          if_same (fresh_key s) (some (new_client (fresh_key s) chan uuid))
                              (s.hwkey_ctxs (fresh_key s)),
                        )
                        (of_Returned _ _ (
                          (refl, refl),
                          clean,
                          counted,
                          KeyHandlers-set (fresh_key s) none after opened (λ d e. cc),
                        ))
                ])
  ]
    where
      after : State
      after = record s {
        hwkey_ctxs = λ b.
            if b == fresh_key s then some (new_client (fresh_key s) chan uuid) else s.hwkey_ctxs b;
      }

      opened : KeyHandlers after
      opened =
          KeyHandlers-set (fresh_key s) (some (new_client (fresh_key s) chan uuid)) s fine
            (new_client_handler (fresh_key s) chan uuid)

  pub hwkey_port_handler-KeyEvent :
      (ev : Uevent) (s : State)
      → SlotsCounted s
      → IsClean s
      → KeyHandlers s
      → Safely (KeyEvent s) (hwkey_port_handler ev s)
  unfolding hwkey_port_handler tipc_handle_port_errors
  hwkey_port_handler-KeyEvent ev s counted clean fine =
      elim (Bool-cases (
        has_flag ev poll_error
        || (has_flag ev poll_hup || (has_flag ev poll_msg || has_flag ev poll_send_unblocked)))) [
          | inl bad ↦ rw bad (stopped refl)
          | inr good ↦ rw good (elim (Bool-cases (has_flag ev poll_ready)) [
            | inr idle ↦ rw idle (of_Returned _ _ ((refl, refl), clean, counted, fine))
            | inl ready ↦ rw ready (elim (Bool-cases (is_negative (accept ev.handle s.world).0.0)) [
              | inl bad ↦ rw bad (of_Returned _ _ ((refl, refl), clean, counted, fine))
              | inr got ↦ rw got (open_hwkey_chan-KeyEvent _ _ _ counted clean fine)
            ])
          ])
        ]
