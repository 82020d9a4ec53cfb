-- ===== src/Main/Loop.antt =====
-- The event loop (`main` of app/hwcrypto/main.c): the states that the server reaches.
use trusty_lk_nxp.Common.{ℕ, zero, suc, ◌≡◌, refl, inl, inr, true, false, Bool-cases}
use mathlib.Core.Path.{subst}
use trusty_lk_nxp.Common.Int.{ℤ, pos, negsuc, is_negative, int_eq}
use trusty_lk_nxp.Platform.{Platform, Uevent}
use trusty_lk_nxp.Machine.{ok, State}
use trusty_lk_nxp.Machine.Outcome.{Ensures, Safely, of_Returned, bind, Ensures-run, returned_lem}
use trusty_lk_nxp.Caam.Device.{WithinBuffer}
use trusty_lk_nxp.Tipc.Receive.{IpcLaws}
use trusty_lk_nxp.Hwrng.Links.{ListLaws}
use trusty_lk_nxp.Hwrng.Channels.{ReqLenFits}
use trusty_lk_nxp.Main.{dispatch_event, event_loop}
use trusty_lk_nxp.Main.Invariant.{
  ServerOk, ServerLayout, Comes, outside_ServerOk, dispatch_event-ServerOk,
}

negative-int_eq : (rc : ℤ) → is_negative rc ≡ true → int_eq rc (pos 0) ≡ false
negative-int_eq (pos n) h = cc
negative-int_eq (negsuc n) h = refl

module _ ⦃p : Platform⦄ where
  open p use {wait_any}

  -- what the next wait gives: its result, the event, and the state behind it
  abbrev pub result : State → ℤ
  result s = (wait_any s.world).0.0

  abbrev pub event_of : State → Uevent
  event_of s = (wait_any s.world).0.1

  abbrev pub woken : State → State
  woken s = record s { world = (wait_any s.world).1 }

  -- The states that the server passes through from `s` on: a wait without an event changes the outside
  -- only, and an event is dispatched.
  pub data Reachable (s : State) : State → Type 0 where
    start : Reachable s s
    waited : {t : State} → Reachable s t → int_eq (result t) (pos 0) ≡ false → Reachable s (woken t)
    dispatched :
        {t u : State}
        → Reachable s t
        → int_eq (result t) (pos 0) ≡ true
        → dispatch_event (event_of t) (woken t) ≡ ok tt u
        → Reachable s u

  -- Every event that a wait gives names a port, or a channel that is open.
  abbrev pub Attentive : State → Type 0
  Attentive s =
      (t : State) → Reachable s t → int_eq (result t) (pos 0) ≡ true → Comes (event_of t) (woken t)

  module _ (layout : ServerLayout) (within : WithinBuffer) (lists : ListLaws) (fits : ReqLenFits)
      (ipc : IpcLaws) (s : State) (attentive : Attentive s) where
    -- In every state that the server reaches, however its clients interleave their messages, the invariant
    -- holds, where it held at the start and the events name ports and open channels.
    pub Reachable-ServerOk : (t : State) → ServerOk s → Reachable s t → ServerOk t
    Reachable-ServerOk t fine start = fine
    Reachable-ServerOk _ fine (waited {t = t} reach e) =
        outside_ServerOk t _ _ (Reachable-ServerOk t fine reach)
    Reachable-ServerOk u fine (dispatched {t = t} reach e run) = returned_lem (
        subst (Ensures false (λ _ v. ServerOk v)) run (
          dispatch_event-ServerOk layout within lists fits ipc (event_of t) (woken t)
            (outside_ServerOk t _ _ (Reachable-ServerOk t fine reach)) (attentive t reach e)))

    -- The event loop, over any number of events, uses no context that is freed, and ends in a state that
    -- the server reaches and in which the invariant holds, where it held at the start and the events name
    -- ports and open channels. It may stop by an assert or an abort, or wait for the device.
    pub event_loop-ServerOk :
        (k : ℕ) → ServerOk s → Safely (λ _ u. Reachable s u × ServerOk u) (event_loop k s)
    unfolding event_loop
    event_loop-ServerOk k fine = onward k s fine start
      where
        onward :
            (k : ℕ) (t : State)
            → ServerOk t
            → Reachable s t
            → Safely (λ _ u. Reachable s u × ServerOk u) (event_loop k t)
        onward zero t fine reach = of_Returned _ _ (reach, fine)
        onward (suc k) t fine reach = elim (Bool-cases (is_negative (result t))) [
          | inl bad ↦ rw bad (
              of_Returned _ _
                (waited reach (negative-int_eq (result t) bad), outside_ServerOk t _ _ fine))
          | inr good ↦ rw good (elim (Bool-cases (int_eq (result t) (pos 0))) [
            | inr none_yet ↦
                rw none_yet
                  (onward k (woken t) (outside_ServerOk t _ _ fine) (waited reach none_yet))
            | inl event ↦ rw event (
                bind
                  (Ensures-run (
                    dispatch_event-ServerOk layout within lists fits ipc (event_of t) (woken t)
                      (outside_ServerOk t _ _ fine) (attentive t reach event)))
                  λ _ u (fine', run). onward k u fine' (dispatched reach event run))
          ])
        ]
