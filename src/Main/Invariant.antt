-- ===== src/Main/Invariant.antt =====
-- The invariant of the whole server over the events of both services (dispatch_event of
-- app/hwcrypto/main.c).
use trusty_lk_nxp.Common.{
  ℕ, ◌^◌, ◌<◌, ◌≡◌, refl, sym, ◌∙◌, ap, inl, inr, true, false, none, some, List, arith, Bool-cases,
  ◌==◌, ◌||◌, length,
}
use mathlib.Core.Path.{subst}
use trusty_lk_nxp.Common.Int.{ℤ, is_negative}
use trusty_lk_nxp.Platform.{
  Platform, Uevent, Cookie, null_cookie, hwrng_port_cookie, hwkey_port_cookie, hwrng_chan_cookie,
  hwkey_chan_cookie,
}
use trusty_lk_nxp.Machine.{State, HwkeyChanCtx, HwrngChanCtx, and_then, Call}
use trusty_lk_nxp.Machine.Outcome.{Safely, of_Returned, stopped, mono, Ensures-Partial}
use trusty_lk_nxp.Caam.Device.{WithinBuffer}
use trusty_lk_nxp.Tipc.{has_flag, tipc_handle_port_errors}
use trusty_lk_nxp.Tipc.Receive.{IpcLaws}
use trusty_lk_nxp.Hwkey.Lookup.{SlotsCounted, installed}
use trusty_lk_nxp.Hwkey.Clean.{KeyLayout, IsClean}
use trusty_lk_nxp.Hwkey.KeyBox.{Apart}
use trusty_lk_nxp.Hwrng.Links.{ListLaws, Unique, contains}
use trusty_lk_nxp.Hwrng.Queue.{IsLive, QueueOk, Step-QueueOk, entries}
use trusty_lk_nxp.Hwrng.Channels.{ReqLenFits, hwrng_chan_handler-QueueOk}
use trusty_lk_nxp.Hwrng.Ports.{
  OpenedOrClosed-ctx, fresh, OpenedOrClosed, open_hwrng_chan-OpenedOrClosed,
}
use trusty_lk_nxp.Hwrng.Server.{hwrng_chan_handler, open_hwrng_chan, hwrng_port_handler}
use trusty_lk_nxp.Main.{load_handler, invoke, call_proc, dispatch_event}
use trusty_lk_nxp.Main.RandomSide.{RngHandlers, SameKeys-refl, Apartly}
use trusty_lk_nxp.Main.RandomSide.Handlers.{hwrng_chan_handler-Apartly, open_hwrng_chan-Apartly}
use trusty_lk_nxp.Main.KeySide.{
  KeyHandlers, KeyEvent, hwkey_chan_handler-KeyEvent, hwkey_port_handler-KeyEvent,
}

module _ ⦃p : Platform⦄ where
  open p use {
    World, key_data, rng_data, stack, accept, list_entries, poll_none, poll_error, poll_hup,
    poll_msg, poll_ready, poll_send_unblocked,
  }

  -- what holds of the server whenever it waits for an event
  pub record ServerOk (s : State) : Type 0 where
    pub queue : QueueOk s
    pub rng_handlers : RngHandlers s
    pub clean : IsClean s
    pub counted : SlotsCounted s
    pub key_handlers : KeyHandlers s

  -- The buffers of the two services lie apart.
  pub record ServerLayout : Type 0 where
    pub keys : KeyLayout
    pub random : Apart rng_data 4096 key_data 2048
    pub frame : Apart stack 1024 key_data 2048

  -- What an event may name: a channel that is open, or a port; and where a channel of the random number
  -- service is about to open, the allocator gives an address that is not in use.
  abbrev pub Names : Cookie → Uevent → State → Type 0
  Names null_cookie ev s = Unit
  Names hwrng_port_cookie ev s =
      s.hwrng_ctxs (fresh (record s { world = (accept ev.handle s.world).1 })) ≡ none
  Names hwkey_port_cookie ev s = Unit
  Names (hwrng_chan_cookie a) ev s = IsLive a s
  Names (hwkey_chan_cookie a) ev s = (ctx : HwkeyChanCtx) × (s.hwkey_ctxs a ≡ some ctx)

  abbrev pub Comes : Uevent → State → Type 0
  Comes ev s = Names ev.cookie ev s

  -- the invariant behind a command of the random number service
  ServerOk-SameKeys :
      (layout : ServerLayout) (s t : State) → ServerOk s → QueueOk t → Apartly s t → ServerOk t
  ServerOk-SameKeys layout s t fine queue ((ctxs, slots, count, mem), handlers) = record {
    queue = queue;
    rng_handlers = handlers;
    clean = λ i lo hi. mem i (ground (arith, layout.random)) ∙ fine.clean i lo hi;
    counted = count ∙ fine.counted ∙ sym (ap (λ l. length (installed l)) slots);
    key_handlers = λ a ctx e. fine.key_handlers a ctx (sym (ap (λ f. f a) ctxs) ∙ e);
  }

  -- the invariant behind a command of the key service
  ServerOk-KeyEvent : (s t : State) → ServerOk s → KeyEvent s tt t → ServerOk t
  ServerOk-KeyEvent s t fine ((ctxs, list), clean, counted, handlers) = record {
    queue = (
      (λ a ctx e. fine.queue.0 a ctx (sym (ap (λ f. f a) ctxs) ∙ e)),
      (λ a h.
          let (ctx, e) = fine.queue.1 a (subst (λ l. contains a (list_entries l) ≡ true) list h) in
          (ctx, ap (λ f. f a) ctxs ∙ e)),
      subst (λ l. Unique (list_entries l)) (sym list) fine.queue.2,
    );
    rng_handlers = λ a ctx e. fine.rng_handlers a ctx (sym (ap (λ f. f a) ctxs) ∙ e);
    clean = clean;
    counted = counted;
    key_handlers = handlers;
  }

  not_queued :
      (a : ℕ) (s : State) → QueueOk s → s.hwrng_ctxs a ≡ none → contains a (entries s) ≡ false
  not_queued a s fine e = elim (Bool-cases (contains a (entries s))) [
    | inr out ↦ out
    | inl queued ↦ let (ctx, e') = fine.1 a queued in absurd cc
  ]

  OpenedOrClosed-QueueOk :
      (chan : ℤ) (s t : State)
      → QueueOk s
      → s.hwrng_ctxs (fresh s) ≡ none
      → OpenedOrClosed chan s tt t
      → QueueOk t
  OpenedOrClosed-QueueOk chan s t fine unused done =
      Step-QueueOk (fresh s) s t fine
        (done.0, small, inr (inr (ap list_entries done.1, not_queued (fresh s) s fine unused)))
    where
      small : (ctx : HwrngChanCtx) → t.hwrng_ctxs (fresh s) ≡ some ctx → ctx.req_size < 2 ^ 32
      small ctx e = elim (OpenedOrClosed-ctx chan s t done) [
        | inl opened ↦
            let h : 0 ≡ ctx.req_size =
              ap (λ o. elim o [ none ↦ 0 | some c ↦ c.req_size ]) (sym opened ∙ e) in
            omega (arith, h)
        | inr closed ↦ absurd cc
      ]

  -- the invariant reads neither the outside world nor the calls
  pub outside_ServerOk :
      (s : State) (w : World) (cs : List Call)
      → ServerOk s
      → ServerOk (record s { world = w; calls = cs })
  outside_ServerOk s w cs fine = record {
    queue = fine.queue;
    rng_handlers = fine.rng_handlers;
    clean = fine.clean;
    counted = fine.counted;
    key_handlers = fine.key_handlers;
  }

  module _ (layout : ServerLayout) (within : WithinBuffer) (lists : ListLaws) (fits : ReqLenFits)
      (ipc : IpcLaws) where
    hwrng_chan_handler-ServerOk :
        (ev : Uevent) (a : ℕ) (s : State)
        → ServerOk s
        → IsLive a s
        → Safely (λ _ t. ServerOk t) (hwrng_chan_handler ev a s)
    hwrng_chan_handler-ServerOk ev a s fine live =
        mono
          (Ensures-Partial (hwrng_chan_handler-QueueOk within lists fits ev a s fine.queue live)
            (hwrng_chan_handler-Apartly s within ev a s (SameKeys-refl s, fine.rng_handlers)))
          λ _ t (queue, apart). ServerOk-SameKeys layout s t fine queue apart

    open_hwrng_chan-ServerOk :
        (chan : ℤ) (s : State)
        → ServerOk s
        → s.hwrng_ctxs (fresh s) ≡ none
        → Safely (λ _ t. ServerOk t) (open_hwrng_chan chan s)
    open_hwrng_chan-ServerOk chan s fine unused =
        mono
          (Ensures-Partial (open_hwrng_chan-OpenedOrClosed chan s unused)
            (open_hwrng_chan-Apartly s chan s (SameKeys-refl s, fine.rng_handlers)))
          λ _ t (end, apart).
            ServerOk-SameKeys layout s t fine
              (OpenedOrClosed-QueueOk chan s t fine.queue unused end) apart

    hwrng_port_handler-ServerOk :
        (ev : Uevent) (s : State)
        → ServerOk s
        → Names hwrng_port_cookie ev s
        → Safely (λ _ t. ServerOk t) (hwrng_port_handler ev s)
    unfolding hwrng_port_handler tipc_handle_port_errors
    hwrng_port_handler-ServerOk ev s fine unused =
        elim (Bool-cases (
          has_flag ev poll_error
          || (has_flag ev poll_hup || (has_flag ev poll_msg || has_flag ev poll_send_unblocked)))) [
            | inl bad ↦ rw bad (stopped refl)
            | inr good ↦ rw good (elim (Bool-cases (has_flag ev poll_ready)) [
              | inr idle ↦ rw idle (of_Returned _ _ fine)
              | inl ready ↦
                  rw ready (elim (Bool-cases (is_negative (accept ev.handle s.world).0.0)) [
                    | inl bad ↦ rw bad (of_Returned _ _ (outside_ServerOk s _ _ fine))
                    | inr got ↦
                        rw got (open_hwrng_chan-ServerOk _ _ (outside_ServerOk s _ _ fine) unused)
                  ])
            ])
          ]

    -- The dispatch of an event, to a port or to a channel of either service, keeps the invariant of the
    -- server, and uses no context that is freed and no slot behind the last: the queue of requests holds
    -- allocated contexts, none twice, with sizes of 32 bits; every context names the handler of its own
    -- service; no byte of a key stands in the key buffer; the slots are as many as are counted. This is
    -- where the event names a channel that is open, the allocator gives an address not in use, the
    -- buffers lie apart, and the library and the system calls keep their laws. It may stop by an
    -- assert or an abort, or wait for the device.
    pub dispatch_event-ServerOk :
        (ev : Uevent) (s : State)
        → ServerOk s
        → Comes ev s
        → Safely (λ _ t. ServerOk t) (dispatch_event ev s)
    unfolding dispatch_event load_handler invoke call_proc
    dispatch_event-ServerOk ev s fine comes = elim (Bool-cases (ev.event == poll_none)) [
      | inl nothing ↦ rw nothing (of_Returned _ _ fine)
      | inr something ↦ rw something (named ev.cookie comes)
    ]
      where
        named :
            (c : Cookie)
            → Names c ev s
            → Safely (λ _ t. ServerOk t) (and_then (load_handler c s) λ h t. invoke h ev t)
        named null_cookie h = of_Returned _ _ (outside_ServerOk s _ _ fine)
        named hwrng_port_cookie unused = hwrng_port_handler-ServerOk ev s fine unused
        named hwkey_port_cookie h =
            mono (hwkey_port_handler-KeyEvent ev s fine.counted fine.clean fine.key_handlers)
              λ _ t after. ServerOk-KeyEvent s t fine after
        named (hwrng_chan_cookie a) (ctx, e) = rw e (
            subst (λ h. Safely (λ _ t. ServerOk t) (invoke (some h) ev s))
              (sym (fine.rng_handlers a ctx e)) (hwrng_chan_handler-ServerOk ev a s fine (ctx, e)))
        named (hwkey_chan_cookie a) (ctx, e) = rw e (
            subst (λ h. Safely (λ _ t. ServerOk t) (invoke (some h) ev s))
              (sym (fine.key_handlers a ctx e))
              (mono
                (hwkey_chan_handler-KeyEvent layout.keys ipc ev a ctx s fine.counted fine.clean
                  fine.key_handlers e)
                λ _ t after. ServerOk-KeyEvent s t fine after))
