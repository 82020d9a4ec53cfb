-- ===== src/Hwrng/Ports.antt =====
-- New channels of app/hwcrypto/hwrng_srv.c (the part of hwrng_port_handler behind accept).
use trusty_lk_nxp.Common.{
  ℕ, ◌≡◌, ◌≢◌, refl, ap, ◌∙◌, ◌⊎◌, inl, inr, Bool, true, false, arith, none, some, ◌∷◌, Bool-cases,
  ◌==◌, if_same, if_other,
}
use trusty_lk_nxp.Common.Int.{ℤ, pos, negsuc, int_eq}
use trusty_lk_nxp.Platform.{Platform, hwrng_chan_proc, hwrng_chan_cookie}
use trusty_lk_nxp.Machine.{closed, freed, State, HwrngChanCtx}
use trusty_lk_nxp.Machine.Outcome.{Ensures, of_Returned}
use trusty_lk_nxp.Hwrng.Server.{open_hwrng_chan, sizeof_hwrng_chan_ctx}

module _ ⦃p : Platform⦄ where
  open p use {calloc, set_cookie}

  -- the context of a new channel at `a`
  abbrev pub new_ctx : (a : ℕ) → (chan : ℤ) → HwrngChanCtx
  new_ctx a chan = record {
    evt_handler = record { proc = some hwrng_chan_proc; priv = a };
    chan = chan;
    req_size = 0;
    send_blocked = false;
  }

  -- the address that the allocator gives
  abbrev pub fresh : State → ℕ
  fresh s = (calloc sizeof_hwrng_chan_ctx s.world).0

  -- the result of giving the channel its cookie
  abbrev pub cookie_result : (chan : ℤ) → State → ℤ
  cookie_result chan s =
      (set_cookie chan (hwrng_chan_cookie (fresh s)) (calloc sizeof_hwrng_chan_ctx s.world).1).0

  -- A channel with memory and its cookie is open with its context; without memory it is closed, and
  -- without its cookie the context is given back and it is closed: then no context is new.
  abbrev pub OpenedOrClosed : (chan : ℤ) → State → Unit {0} → State → Type 0
  OpenedOrClosed chan s _ t =
      ((b : ℕ) → b ≢ fresh s → t.hwrng_ctxs b ≡ s.hwrng_ctxs b)
      × (t.hwrng_req_list ≡ s.hwrng_req_list)
      × (fresh s ≡ 0 → (t.hwrng_ctxs (fresh s) ≡ none) × (t.calls ≡ closed chan ∷ s.calls))
      × (fresh s ≢ 0
          → cookie_result chan s ≡ pos 0
          → (t.hwrng_ctxs (fresh s) ≡ some (new_ctx (fresh s) chan)) × (t.calls ≡ s.calls))
      × (fresh s ≢ 0
          → cookie_result chan s ≢ pos 0
          → (t.hwrng_ctxs (fresh s) ≡ none) × (t.calls ≡ closed chan ∷ freed (fresh s) ∷ s.calls))

  is_zero : (rc : ℤ) → int_eq rc (pos 0) ≡ true → rc ≡ pos 0
  is_zero (pos n) h = ap pos (ground arith)
  is_zero (negsuc n) h = absurd cc

  not_zero : (rc : ℤ) → int_eq rc (pos 0) ≡ false → rc ≢ pos 0
  not_zero rc h e = clash (ap (λ r. int_eq r (pos 0)) e) h
    where
      clash : int_eq rc (pos 0) ≡ true → int_eq rc (pos 0) ≡ false → ⊥
      clash h h' = cc

  -- a new channel has its own context, or none
  pub OpenedOrClosed-ctx :
      (chan : ℤ) (s t : State)
      → OpenedOrClosed chan s tt t
      → (t.hwrng_ctxs (fresh s) ≡ some (new_ctx (fresh s) chan)) ⊎ (t.hwrng_ctxs (fresh s) ≡ none)
  OpenedOrClosed-ctx chan s t (others, list, null, opened, failed) =
      elim (Bool-cases (fresh s == 0)) [
        | inl z ↦ inr (null (ground arith)).0
        | inr there ↦
            let nz : fresh s ≢ 0 = λ z. ground arith in
            elim (Bool-cases (int_eq (cookie_result chan s) (pos 0))) [
              | inl done ↦ inl (opened nz (is_zero _ done)).0
              | inr bad ↦ inr (failed nz (not_zero _ bad)).0
            ]
      ]

  -- Where the allocator gives an address that no context has, a new channel that gets memory and its
  -- cookie has a context there, with no request and room to send, and no call is made to it; without
  -- memory it is closed, and without its cookie the context is given back and it is closed, so that there
  -- is no context. The queue and the other contexts do not change.
  pub open_hwrng_chan-OpenedOrClosed :
      {strict : Bool} (chan : ℤ) (s : State)
      → s.hwrng_ctxs (fresh s) ≡ none
      → Ensures strict (OpenedOrClosed chan s) (open_hwrng_chan chan s)
  unfolding open_hwrng_chan
  open_hwrng_chan-OpenedOrClosed chan s unused = elim (Bool-cases (fresh s == 0)) [
    | inl none_left ↦ rw none_left (
        of_Returned _ _ (
          (λ b h. refl),
          refl,
          (λ z. (unused, refl)),
          (λ nz. absurd (nz (ground arith))),
          (λ nz. absurd (nz (ground arith))),
        ))
    | inr there ↦ rw there (elim (Bool-cases (int_eq (cookie_result chan s) (pos 0))) [
      | inl done ↦ rw done (
          of_Returned _ _ (
            (λ b h. if_other (fresh s) b _ _ h),
            refl,
            (λ z. absurd (ground arith)),
            (λ nz e. (if_same (fresh s) _ _, refl)),
            (λ nz e. absurd (e (is_zero _ done))),
          ))
      | inr failed ↦ rw failed (
          of_Returned _ _ (
            (λ b h. if_other (fresh s) b _ _ h ∙ if_other (fresh s) b _ _ h),
            refl,
            (λ z. absurd (ground arith)),
            (λ nz e. absurd (not_zero _ failed e)),
            (λ nz e. (if_same (fresh s) _ _, refl)),
          ))
    ])
  ]
