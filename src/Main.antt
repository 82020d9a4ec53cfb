-- ===== src/Main.antt =====
-- app/hwcrypto/main.c: the dispatch of events to the handlers, and the start of the server.
pub mod RandomSide
pub mod KeySide
pub mod Invariant
pub mod Loop
pub mod Start
pub mod Program
use trusty_lk_nxp.Common.{ℕ, zero, suc, not, Option, none, some, ◌==◌, if◌then◌else◌}
use trusty_lk_nxp.Common.Int.{ℤ, pos, is_negative, int_eq}
use trusty_lk_nxp.Platform.{
  Platform, Uevent, Cookie, null_cookie, hwrng_port_cookie, hwkey_port_cookie, hwrng_chan_cookie,
  hwkey_chan_cookie, Proc, hwrng_port_proc, hwrng_chan_proc, hwkey_port_proc, hwkey_chan_proc,
  TipcEventHandler,
}
use trusty_lk_nxp.Machine.{closed, Cmd, pure, skip, ask, tell, ◌>>=◌, ◌>>◌}
use trusty_lk_nxp.Caam.Init.{init_caam_env}
use trusty_lk_nxp.Hwrng.Server.{
  get_hwrng_ctx, hwrng_chan_handler, hwrng_port_handler, hwrng_init_srv_provider,
}
use trusty_lk_nxp.Hwkey.Server.{
  get_hwkey_ctx, hwkey_chan_handler, hwkey_port_handler, hwkey_init_srv_provider,
}

module _ ⦃p : Platform⦄ where
  open p use {close, wait_any, poll_none}

  abbrev pub hwrng_port_evt_handler : TipcEventHandler
  hwrng_port_evt_handler = record { proc = some hwrng_port_proc; priv = 0 }

  abbrev pub hwkey_port_evt_handler : TipcEventHandler
  hwkey_port_evt_handler = record { proc = some hwkey_port_proc; priv = 0 }

  -- `ev->cookie`, and what it points to
  unfoldable pub load_handler : Cookie → Cmd (Option TipcEventHandler)
  load_handler null_cookie = pure none
  load_handler hwrng_port_cookie = pure (some hwrng_port_evt_handler)
  load_handler hwkey_port_cookie = pure (some hwkey_port_evt_handler)
  load_handler (hwrng_chan_cookie a) = do ctx ← get_hwrng_ctx a; pure (some ctx.evt_handler)
  load_handler (hwkey_chan_cookie a) = do ctx ← get_hwkey_ctx a; pure (some ctx.evt_handler)

  -- a call through the function pointer of a handler
  unfoldable pub call_proc : Proc → Uevent → (priv : ℕ) → Cmd (Unit {0})
  call_proc hwrng_port_proc ev priv = hwrng_port_handler ev
  call_proc hwrng_chan_proc ev priv = hwrng_chan_handler ev priv
  call_proc hwkey_port_proc ev priv = hwkey_port_handler ev
  call_proc hwkey_chan_proc ev priv = hwkey_chan_handler ev priv

  -- no handler, or one with no function: close the handle
  unfoldable pub invoke : Option TipcEventHandler → Uevent → Cmd (Unit {0})
  unfolding call_proc
  invoke none ev = tell (closed ev.handle) (close ev.handle)
  invoke (some h) ev = elim h.proc [
    | none ↦ tell (closed ev.handle) (close ev.handle)
    | some proc ↦ call_proc proc ev h.priv
  ]

  unfoldable pub dispatch_event : Uevent → Cmd (Unit {0})
  unfolding invoke
  dispatch_event ev =
      if ev.event == poll_none then skip else do handler ← load_handler ev.cookie; invoke handler ev

  -- `while (true)`, followed for a number of events; `none` means that the loop goes on
  unfoldable pub event_loop : ℕ → Cmd (Option ℤ)
  event_loop zero = pure none
  event_loop (suc k) = do
    (rc, ev) ← ask wait_any
    if is_negative rc
        then pure (some rc)
        else do if int_eq rc (pos 0) then dispatch_event ev else skip; event_loop k

  -- `main`, up to a number of events
  unfoldable pub main : ℕ → Cmd (Option ℤ)
  unfolding event_loop
  main events = do
    rc ← init_caam_env
    if not (int_eq rc (pos 0))
        then pure (some rc)
        else do hwrng_init_srv_provider; hwkey_init_srv_provider; event_loop events
