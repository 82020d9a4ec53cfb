-- ===== src/Caam/Fill.antt =====
-- The buffer of caam_hwrng of app/hwcrypto/caam.c, which is filled piece by piece.
use trusty_lk_nxp.Common.{
  ℕ, zero, suc, ◌+◌, ◌-◌, ◌^◌, ◌≤◌, ◌<◌, ◌≡◌, refl, ◌∙◌, ◌⊎◌, inl, inr, Bool, true, Option, none,
  some, List, arith, Bool-cases, ◌==◌, ltb,
}
use mathlib.Core.Path.{subst}
use trusty_lk_nxp.Common.Memory.{Memory, overlay, load_bytes}
use trusty_lk_nxp.Platform.{Platform, DmaPmem}
use trusty_lk_nxp.Machine.{State}
use trusty_lk_nxp.Machine.Outcome.{Ensures, of_Returned, bind, mono, Ensures-hang}
use trusty_lk_nxp.Caam.Regs.{caam_success, caam_failure}
use trusty_lk_nxp.Caam.Ring.{is_one, fill_job, finish_buffer, filled_by, SameOutside-filled_by}
use trusty_lk_nxp.Caam.Descriptors.{rng_dsc-stores}
use trusty_lk_nxp.Caam.Jobs.{job_failed}
use trusty_lk_nxp.Caam.Rng.{
  rng_dsc, sub_size, partial_flags, fill_piece, hwrng_round, or_failure, hwrng_loop, caam_hwrng,
}
use trusty_lk_nxp.Caam.Device.{DeviceLaws, WithinBuffer}
use trusty_lk_nxp.Caam.Frame.{Frame, Frame-refl, Frame-widen, Frame-trans}
use trusty_lk_nxp.Caam.Protocol.{run_job-Ensures}
use trusty_lk_nxp.Caam.Results.{with_job, handed_over, prepared_state}

module _ ⦃p : Platform⦄ where
  open p use {World, prepare_dma, dma_byte, job_stores}

  -- every byte of the range is one that a job of the device has stored there
  abbrev pub FromDevice : (out len : ℕ) → Memory → Type 0
  FromDevice out len m = (i : ℕ) → out ≤ i → i < out + len → (w : World) × (m i ≡ dma_byte w i)

  FromDevice-filled_by :
      (dsc : List ℕ) (out z : ℕ) (w : World) (m : Memory)
      → job_stores dsc ≡ z
      → FromDevice out z (filled_by dsc out z w m)
  unfolding overlay
  FromDevice-filled_by dsc out z w m e i lo hi = (w, ground arith)

  -- a first piece that a later write leaves alone, and the rest
  FromDevice-join :
      (out z len : ℕ) (m m' : Memory)
      → z ≤ len
      → FromDevice out z m
      → ((i : ℕ) → (i < out + z) ⊎ (out + z + (len - z) ≤ i) → m' i ≡ m i)
      → FromDevice (out + z) (len - z) m'
      → FromDevice out len m'
  FromDevice-join out z len m m' h first same rest i lo hi = elim (Bool-cases (ltb i (out + z))) [
    | inl early ↦ let (w, e) = first i lo (ground arith) in (w, same i (inl (ground arith)) ∙ e)
    | inr late ↦ rest i (ground arith) (omega arith)
  ]

  module _ (within : WithinBuffer) {strict : Bool} (laws : strict ≡ true → DeviceLaws) where
    -- what one round does: a failure, or a piece of the buffer
    abbrev Piece : (out len : ℕ) → State → Option ℕ → State → Type 0
    Piece out len s none t = Frame out len s t × (strict ≡ true → ⊥)
    Piece out len s (some z) t =
        (z ≤ len) × (strict ≡ true → 0 < z) × Frame out z s t × FromDevice out z t.mem

    -- the range that the round finds
    abbrev range : (out len : ℕ) → State → DmaPmem × World
    range out len s = prepare_dma out len partial_flags (load_bytes out len s.mem) s.world

    fill_piece-Ensures :
        (out len z pa : ℕ) (s u : State)
        → Frame out z s u
        → z ≤ len
        → z < 2 ^ 16
        → (strict ≡ true → 0 < z)
        → Ensures strict (Piece out len s) (fill_piece out z pa u)
    unfolding fill_piece fill_job finish_buffer
    fill_piece-Ensures out len z pa s u g h small pos =
        bind (run_job-Ensures laws (with_job (rng_dsc z pa) u)) λ _ t (f, good, calls).
          elim (Bool-cases (job_failed t.caam.job.status)) [
            | inl bad ↦ rw bad (
                of_Returned _ _ (
                  Frame-widen out z out len s t (λ i o. ground arith)
                      (Frame-trans out z s u t g (widen u t f)),
                  λ e. cc (good e),
                ))
            | inr fine ↦ rw fine (
                of_Returned _ _ (
                  h,
                  pos,
                  Frame-trans out z s u (handed_over dsc out z t) g (
                      Frame-trans out z u t (handed_over dsc out z t) (widen u t f) (
                        SameOutside-filled_by dsc out z z (handed_over dsc out z t).world t.mem
                            (omega arith) (omega (arith, all_stored)),
                        refl,
                      )),
                  FromDevice-filled_by dsc out z (handed_over dsc out z t).world t.mem all_stored,
                ))
          ]
      where
        dsc : List ℕ
        dsc = rng_dsc z pa

        all_stored : job_stores dsc ≡ z
        all_stored = rng_dsc-stores z pa small

        widen : (s t : State) → Frame 0 0 s t → Frame out z s t
        widen s t f = Frame-widen 0 0 out z s t (λ i o. inr (omega arith)) f

    hwrng_round-Ensures :
        (out len : ℕ) (s : State)
        → 0 < len
        → len < 2 ^ 16
        → Ensures strict (Piece out len s) (hwrng_round out len s)
    unfolding hwrng_round
    hwrng_round-Ensures out len s some_left small =
        elim (Bool-cases (is_one (range out len s).0.ret)) [
          | inl one ↦ rw one (
              fill_piece-Ensures out len (range out len s).0.size (range out len s).0.paddr s
                (prepared_state out len partial_flags (range out len s).1 s) (Frame-refl _ _ s)
                (within out len partial_flags (load_bytes out len s.mem) s.world one)
                (omega (
                  arith,
                  small,
                  within out len partial_flags (load_bytes out len s.mem) s.world one,
                ))
                (λ e.
                  (laws e).some_bytes out len partial_flags (load_bytes out len s.mem) s.world
                    some_left))
          | inr bad ↦ rw bad (
              of_Returned _ _ (
                Frame-refl out len s,
                λ e. ground (
                  arith,
                  (laws e).one_range out len partial_flags (load_bytes out len s.mem) s.world,
                ),
              ))
        ]

    -- what a run of the loop over `len` bytes from `out` on does
    abbrev pub Filled : (out len : ℕ) → State → ℕ → State → Type 0
    Filled out len s res t =
        Frame out len s t
        × (strict ≡ true → res ≡ caam_success)
        × (((res ≡ caam_success) × FromDevice out len t.mem) ⊎ (res ≡ caam_failure))

    Filled-step :
        (out z len : ℕ) (s u : State) (res : ℕ) (t : State)
        → z ≤ len
        → Frame out z s u
        → FromDevice out z u.mem
        → Filled (out + z) (len - z) u res t
        → Filled out len s res t
    Filled-step out z len s u res t h f first (g, good, end) = (
      Frame-trans out len s u t (Frame-widen out z out len s u (λ i o. ground arith) f)
          (Frame-widen (out + z) (len - z) out len u t (λ i o. ground arith) g),
      good,
      outcome end,
    )
      where
        outcome :
            ((res ≡ caam_success) × FromDevice (out + z) (len - z) t.mem) ⊎ (res ≡ caam_failure)
            → ((res ≡ caam_success) × FromDevice out len t.mem) ⊎ (res ≡ caam_failure)
        outcome (inl (ok, rest)) = inl (ok, FromDevice-join out z len u.mem t.mem h first g.0 rest)
        outcome (inr bad) = inr bad

    -- the rest of the loop behind one round
    rest-Filled :
        (k out len : ℕ) (s : State) (piece : Option ℕ) (t : State)
        → ((z : ℕ)
            → z ≤ len
            → (strict ≡ true → 0 < z)
            → Ensures strict
                (Filled (out + z) (sub_size len z) t)
                (hwrng_loop k (out + z) (sub_size len z) t))
        → len < 2 ^ 16
        → Piece out len s piece t
        → Ensures strict
            (Filled out len s)
            (or_failure piece (λ z. hwrng_loop k (out + z) (sub_size len z)) t)
    rest-Filled k out len s none t rest small (f, never) =
        of_Returned _ _ (f, (λ e. absurd (never e)), inr refl)
    rest-Filled k out len s (some z) t rest small (h, pos, f, first) =
        let e : sub_size len z ≡ len - z = omega arith in
        mono (rest z h pos) λ res u g.
          Filled-step out z len s t res u h f first (subst (λ n. Filled (out + z) n t res u) e g)

    hwrng_loop-Filled :
        (k out len : ℕ) (s : State)
        → (strict ≡ true → len < k)
        → len < 2 ^ 16
        → Ensures strict (Filled out len s) (hwrng_loop k out len s)
    unfolding hwrng_loop
    hwrng_loop-Filled zero out len s fuel small = Ensures-hang λ e. omega (arith, fuel e)
    hwrng_loop-Filled (suc k) out len s fuel small = elim (Bool-cases (len == 0)) [
      | inl done ↦ rw done (
          of_Returned _ _
            (Frame-refl out len s, (λ e. refl), inl (refl, λ i lo hi. absurd (ground arith))))
      | inr more ↦ rw more (
          bind (hwrng_round-Ensures out len s (ground arith) small) λ piece t.
            rest-Filled k out len s piece t
              (λ z h pos.
                hwrng_loop-Filled k (out + z) (sub_size len z) t (λ e. omega (arith, fuel e, pos e))
                  (omega arith))
              small)
    ]

    pub caam_hwrng-Filled :
        (out len : ℕ) (s : State)
        → len < 2 ^ 16
        → Ensures strict (Filled out len s) (caam_hwrng out len s)
    unfolding caam_hwrng
    caam_hwrng-Filled out len s small =
        hwrng_loop-Filled (len + 1) out len s (λ e. omega arith) small
