-- ===== src/Examples/Serving.antt =====
-- A state of the server on the concrete platform, with a request in the queue.
use trusty_lk_nxp.Common.{
  ap, Bool, Bool-cases, ℕ, true, false, refl, sym, ◌≡◌, inl, inr, none, some, [], ◌∷◌, arith, ◌==◌,
  if◌then◌else◌,
}
use mathlib.Core.Path.{subst}
use trusty_lk_nxp.Common.Int.{pos}
use trusty_lk_nxp.Platform.{hwrng_chan_proc, Uevent, hwrng_chan_cookie}
use trusty_lk_nxp.Machine.{State, HwrngChanCtx}
use trusty_lk_nxp.Hwkey.Slots.{provider_keys}
use trusty_lk_nxp.Hwrng.Links.{contains}
use trusty_lk_nxp.Hwrng.Queue.{IsLive, Sized}
use trusty_lk_nxp.Main.RandomSide.{RngHandlers, handler_at}
use trusty_lk_nxp.Main.Invariant.{ServerOk}
use trusty_lk_nxp.Examples.Sim.{sim, sim_state}

-- a client of the random number service waits for 5000 bytes
abbrev pub request : HwrngChanCtx
request = record {
  evt_handler = record { proc = some hwrng_chan_proc; priv = 64 };
  chan = pos 6;
  req_size = 5000;
  send_blocked = false;
}

abbrev pub serving : State ⦃p = sim⦄
serving = record (sim_state (0 ∷ 0 ∷ [])) {
  key_slots = some provider_keys;
  key_slot_cnt = 1;
  hwrng_ctxs = λ a. if a == 64 then some request else none;
  hwrng_req_list = 64 ∷ [];
}

pub request_of :
    (b : Bool) (ctx : HwrngChanCtx)
    → (if b then some request else none) ≡ some ctx
    → (b ≡ true) × (request ≡ ctx)
request_of true ctx e = (refl, cc)
request_of false ctx e = absurd cc

pub serving-Sized : Sized ⦃p = sim⦄ serving
serving-Sized a ctx e =
    let h : 5000 ≡ ctx.req_size = ap {B = ℕ} (λ c. c.req_size) (request_of (a == 64) ctx e).1 in
    omega (arith, h)

pub serving-RngHandlers : RngHandlers ⦃p = sim⦄ serving
serving-RngHandlers a ctx e =
    let (same, r) = request_of (a == 64) ctx e in
    let h : 64 ≡ a = ground arith in
    subst (λ x. ctx.evt_handler ≡ handler_at ⦃p = sim⦄ hwrng_chan_proc x) h
      (ap (λ c. c.evt_handler) (sym r))

pub serving-IsLive : (a : ℕ) → contains a (64 ∷ []) ≡ true → IsLive ⦃p = sim⦄ a serving
serving-IsLive a h = elim (Bool-cases (a == 64)) [
  | inl e ↦ rw e (request, refl)
  | inr e ↦ absurd (ground arith)
]

pub serving-ServerOk : ServerOk ⦃p = sim⦄ serving
serving-ServerOk = record {
  queue = (serving-Sized, serving-IsLive, (refl, tt));
  rng_handlers = serving-RngHandlers;
  clean = λ i lo hi. refl;
  counted = refl;
  key_handlers = λ a ctx e. absurd cc;
}

-- the other end of the channel has closed it
abbrev pub closing : Uevent
closing = record { handle = pos 6; event = 16; cookie = hwrng_chan_cookie 64 }
