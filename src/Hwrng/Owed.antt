-- ===== src/Hwrng/Owed.antt =====
-- What app/hwcrypto/hwrng_srv.c still owes a client, over an event of its channel (hwrng_chan_handler) and the
-- passes over the queue that follow it.
use trusty_lk_nxp.Common.{
  ℕ, suc, ◌+◌, ◌*◌, ◌≤◌, ◌<◌, ◌≡◌, ◌≢◌, sym, ap, ◌∙◌, inl, inr, Bool, true, false, some, ◌||◌, [],
  arith, Bool-cases, ◌==◌,
}
use trusty_lk_nxp.Common.Int.{ℤ, int_eq}
use trusty_lk_nxp.Platform.{Platform, Uevent}
use trusty_lk_nxp.Machine.{State, HwrngChanCtx, ◌>>=◌}
use trusty_lk_nxp.Machine.Outcome.{Ensures, returned, bind, mono, both}
use trusty_lk_nxp.Machine.Sent.{messages, bytes_sent, IsSilent}
use trusty_lk_nxp.Caam.Device.{DeviceLaws, WithinBuffer}
use trusty_lk_nxp.Tipc.{has_flag, tipc_handle_chan_errors}
use trusty_lk_nxp.Hwrng.Links.{contains, ListLaws}
use trusty_lk_nxp.Hwrng.Server.{handle_chan_event, hwrng_kick_req_queue, hwrng_chan_handler}
use trusty_lk_nxp.Hwrng.Queue.{entries, QueueOk}
use trusty_lk_nxp.Hwrng.Rounds.{SendsSucceed, Due}
use trusty_lk_nxp.Hwrng.Progress.{passes, hwrng_handle_req_queue-Due, entries-passes}
use trusty_lk_nxp.Hwrng.Accounts.{left_of, IsOwnChan, Account}
use trusty_lk_nxp.Hwrng.Asked.{Requested}
use trusty_lk_nxp.Hwrng.Totals.{hwrng_handle_req_queue-Account, passes-Account, served_in_full}

module _ ⦃p : Platform⦄ where
  open p use {poll_error, poll_ready}

  -- The event is one of the channel, and no error.
  abbrev pub IsProper : ℤ → Uevent → Type 0
  IsProper chan ev =
      (int_eq ev.handle chan ≡ true) × ((has_flag ev poll_error || has_flag ev poll_ready) ≡ false)

  same_fields :
      (ctx d : HwrngChanCtx) (n : ℕ)
      → some (record ctx { req_size = n }) ≡ some d
      → (d.chan ≡ ctx.chan) × (d.send_blocked ≡ ctx.send_blocked) × (d.req_size ≡ n)
  same_fields ctx d n e = (cc, cc, cc)

  -- Every request of the queue but that of the client at `a` can be served within `k` passes.
  abbrev pub OthersDue : (k a : ℕ) → State → Type 0
  OthersDue k a s =
      (b : ℕ) (ctx : HwrngChanCtx)
      → b ≢ a
      → contains b (entries s) ≡ true
      → s.hwrng_ctxs b ≡ some ctx
      → (ctx.send_blocked ≡ false) × (0 < k) × (ctx.req_size ≤ 4096 * k)

  module _ (a n : ℕ) (ctx : HwrngChanCtx) (s t : State) (requested : Requested a ctx n s t) where
    pub Requested-Due :
        (k : ℕ)
        → QueueOk t
        → OthersDue (suc k) a s
        → ctx.send_blocked ≡ false
        → n ≤ 4096 * suc k
        → Due (suc k) t
    Requested-Due k fine due free size = (
      fine,
      λ b d here e. elim (Bool-cases (b == a)) [
        | inl same ↦
            let q : b ≡ a = ground arith in
            let (chan, flag, left) =
              same_fields ctx d n (sym requested.0 ∙ ap t.hwrng_ctxs (sym q) ∙ e) in
            (flag ∙ free, omega arith, omega (arith, left, size))
        | inr other ↦
            let h : b ≢ a = λ q. ground arith in
            due b d h (sym (requested.3 b h) ∙ here) (sym (requested.2 b h) ∙ e)
      ],
    )

    Requested-IsOwnChan :
        int_eq ctx.chan ctx.chan ≡ (a == a) → IsOwnChan ctx.chan a s → IsOwnChan ctx.chan a t
    Requested-IsOwnChan self own b d e' = elim (Bool-cases (b == a)) [
      | inl same ↦
          let q : b ≡ a = ground arith in
          let (chan, flag, left) =
            same_fields ctx d n (sym requested.0 ∙ ap t.hwrng_ctxs (sym q) ∙ e') in
          ap (λ c. int_eq c ctx.chan) chan ∙ self ∙ ap (λ x. x == a) (sym q)
      | inr other ↦ own b d (sym (requested.2 b (λ q. ground arith)) ∙ e')
    ]

    pub Requested-Account :
        IsSilent s t
        → int_eq ctx.chan ctx.chan ≡ (a == a)
        → IsOwnChan ctx.chan a s
        → Account ctx.chan a (bytes_sent ctx.chan (messages s.calls) + n) t
    Requested-Account silent self own = (
      Requested-IsOwnChan self own,
      (rw silent (ap (λ o. bytes_sent ctx.chan (messages s.calls) + left_of o) requested.0)),
      inl requested.1,
    )

  -- The queue is served in `k` passes, and the client is to be sent `n` bytes in all.
  abbrev pub Owes : ℕ → ℤ → (a n : ℕ) → State → Type 0
  Owes k chan a n t = Due k t × Account chan a n t

  module _ (sends : SendsSucceed) (lists : ListLaws) (within : WithinBuffer) {strict : Bool}
      (laws : strict ≡ true → DeviceLaws) where
    kick-Owes :
        (k : ℕ) (chan : ℤ) (a n : ℕ) (s : State)
        → Owes (suc k) chan a n s
        → Ensures strict (λ _ t. Owes k chan a n t) (hwrng_kick_req_queue s)
    unfolding hwrng_kick_req_queue
    kick-Owes k chan a n s (due, account) =
        bind
          (both (hwrng_handle_req_queue-Due sends lists within laws k s due)
            (hwrng_handle_req_queue-Account sends lists within laws chan a n k s due account))
          λ more t h. returned h

    -- the checks before an event, and the pass behind it
    hwrng_chan_handler-Owes :
        (k : ℕ) (ev : Uevent) (a n : ℕ) (ctx : HwrngChanCtx) (s : State)
        → (a == 0) ≡ false
        → s.hwrng_ctxs a ≡ some ctx
        → IsProper ctx.chan ev
        → Ensures strict (λ _ t. Owes (suc k) ctx.chan a n t) (handle_chan_event ev a s)
        → Ensures strict (λ _ t. Owes k ctx.chan a n t) (hwrng_chan_handler ev a s)
    unfolding hwrng_chan_handler tipc_handle_chan_errors
    hwrng_chan_handler-Owes k ev a n ctx s nonnull e (chan, good) event =
        rw (nonnull, e) (rw chan (rw good (bind event λ _ t owes. kick-Owes k ctx.chan a n t owes)))

    -- What is owed behind the event goes out.
    pub hwrng_chan_handler-delivered :
        (k : ℕ) (ev : Uevent) (a n : ℕ) (ctx : HwrngChanCtx) (s : State)
        → (a == 0) ≡ false
        → s.hwrng_ctxs a ≡ some ctx
        → IsProper ctx.chan ev
        → Ensures strict (λ _ t. Owes (suc k) ctx.chan a n t) (handle_chan_event ev a s)
        → Ensures strict
            (λ _ t. (bytes_sent ctx.chan (messages t.calls) ≡ n) × (entries t ≡ []))
            ((hwrng_chan_handler ev a >>= λ _. passes k) s)
    hwrng_chan_handler-delivered k ev a n ctx s nonnull e proper event =
        bind (hwrng_chan_handler-Owes k ev a n ctx s nonnull e proper event) λ _ t (due, account).
          mono
            (both (entries-passes sends lists within laws k t due)
              (passes-Account sends lists within laws ctx.chan a n k t due account))
            λ _ u (done, account').
              (served_in_full sends lists within ctx.chan a n u done account', done)
