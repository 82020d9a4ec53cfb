-- ===== src/Caam/Ready.antt =====
-- The start of the device (caam_open of app/hwcrypto/caam.c).
use trusty_lk_nxp.Common.{
  ℕ, ◌+◌, ◌≡◌, refl, ap, inl, inr, true, false, ◌∷◌, [], ◌++◌, arith, Bool-cases, bit_and, bit_or,
  ◌==◌, drop, length,
}
use mathlib.Core.Path.{subst}
use trusty_lk_nxp.Platform.{Platform}
use trusty_lk_nxp.Machine.{State}
use trusty_lk_nxp.Machine.Outcome.{Safely, of_Returned, stopped, bind, mono}
use trusty_lk_nxp.Caam.Regs.{
  caam_jrcfgr0_ls, jrcfg_ls_imsk, caam_rdsta, rdsta_if0, rdsta_skvn, rng_inst_dsc,
}
use trusty_lk_nxp.Caam.Ring.{is_one, sizeof_g_rings, caam_clk_get, setup_job_rings, fill_job}
use trusty_lk_nxp.Caam.Jobs.{job_failed}
use trusty_lk_nxp.Caam.Frame.{Frame, Frame-refl, Frame-trans}
use trusty_lk_nxp.Caam.Protocol.{run_job-Ensures}
use trusty_lk_nxp.Caam.Init.{program_trng, instantiate_rng, caam_open}

module _ ⦃p : Platform⦄ where
  open p use {World, readl, writel, prepare_dma, dma_flag_to_device}

  -- The status register was read with the flag of an instantiated generator.
  abbrev pub RngReady : (caam_base : ℕ) → Type 0
  RngReady base = (w : World) × (bit_and (readl (caam_rdsta + base) w).0 rdsta_if0 ≡ rdsta_if0)

  setup_job_rings-Frame : (s : State) → Safely (λ _ t. Frame 0 0 s t) (setup_job_rings s)
  unfolding setup_job_rings
  setup_job_rings-Frame s =
      elim (Bool-cases (
        is_one
          (prepare_dma s.caam.g_rings sizeof_g_rings dma_flag_to_device (0 ∷ []) s.world).0.ret)) [
            | inl one ↦ rw one (of_Returned _ _ (Frame-refl 0 0 s))
            | inr bad ↦ rw bad (stopped refl)
          ]

  program_trng-Frame : (base : ℕ) (s : State) → Safely (λ _ t. Frame 0 0 s t) (program_trng base s)
  unfolding program_trng
  program_trng-Frame base s = of_Returned _ _ (Frame-refl 0 0 s)

  -- the state with the job of the instantiation
  abbrev with_inst : State → State
  with_inst s = record s {
    caam = record s.caam {
      job = record s.caam.job {
        dsc = rng_inst_dsc ++ drop (length rng_inst_dsc) s.caam.job.dsc;
        dsc_used = length rng_inst_dsc;
      };
    };
  }

  instantiate_rng-Ready :
      (base : ℕ) (s : State)
      → Safely (λ _ t. Frame 0 0 s t × RngReady base) (instantiate_rng base s)
  unfolding instantiate_rng fill_job
  instantiate_rng-Ready base s =
      bind (run_job-Ensures {strict = false} (λ e. absurd cc) (with_inst s)) λ _ t (frame, _, _).
        elim (Bool-cases (job_failed t.caam.job.status)) [
          | inl failed ↦ rw failed (stopped refl)
          | inr fine ↦
              rw fine
                (elim (Bool-cases
                  ((readl (caam_rdsta + base) t.world).0 == bit_or rdsta_if0 rdsta_skvn)) [
                    | inr bad ↦ rw bad (stopped refl)
                    | inl good ↦ rw good (of_Returned _ _ (frame, (t.world, ready t good)))
                  ])
        ]
    where
      ready :
          (t : State)
          → ((readl (caam_rdsta + base) t.world).0 == bit_or rdsta_if0 rdsta_skvn) ≡ true
          → bit_and (readl (caam_rdsta + base) t.world).0 rdsta_if0 ≡ rdsta_if0
      ready t h =
          let e : (readl (caam_rdsta + base) t.world).0 ≡ bit_or rdsta_if0 rdsta_skvn =
            ground arith in
          rw e refl

  -- the read of the generator's status, behind the masking of the interrupts
  abbrev masked : State → World
  masked t =
      let base = t.caam.caam_base in
      let (cfg, w) = readl (caam_jrcfgr0_ls + base) t.world in
      writel (bit_or cfg jrcfg_ls_imsk) (caam_jrcfgr0_ls + base) w

  abbrev rng_status : State → ℕ
  rng_status t = (readl (caam_rdsta + t.caam.caam_base) (masked t)).0

  -- The start of the device leaves all buffers and the state of the services alone, and returns only with
  -- an instantiated generator; it may also stop by an abort, or wait for the device.
  pub caam_open-Ready :
      (s : State) → Safely (λ _ t. Frame 0 0 s t × RngReady s.caam.caam_base) (caam_open s)
  unfolding caam_open caam_clk_get
  caam_open-Ready s = bind (setup_job_rings-Frame _) λ _ t frame.
      elim (Bool-cases (bit_and (rng_status t) rdsta_if0 == rdsta_if0)) [
        | inl ready ↦ rw ready (of_Returned _ _ (frame, same_base t frame (masked t, ground arith)))
        | inr fresh ↦ rw fresh (
            bind (program_trng-Frame t.caam.caam_base _) λ _ u frame'.
              mono (instantiate_rng-Ready t.caam.caam_base u) λ _ v (frame'', ready). (
                Frame-trans 0 0 s t v frame (Frame-trans 0 0 t u v frame' frame''),
                same_base t frame ready,
              ))
      ]
    where
      same_base :
          (t : State) → Frame 0 0 s t → RngReady t.caam.caam_base → RngReady s.caam.caam_base
      same_base t frame = subst RngReady (ap (λ k. k.caam_base) frame.1)
