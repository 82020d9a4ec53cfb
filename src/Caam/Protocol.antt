-- ===== src/Caam/Protocol.antt =====
-- The run of one job (run_job of app/hwcrypto/caam.c): the calls of the driver, and their order.
use trusty_lk_nxp.Common.{
  ℕ, zero, suc, ◌+◌, ◌*◌, ◌≡◌, refl, ◌∙◌, inl, inr, Bool, true, false, List, [], ◌∷◌, arith,
  Bool-cases, ◌==◌, take,
}
use trusty_lk_nxp.Platform.{Platform, DmaPmem}
use trusty_lk_nxp.Machine.{Call, wrote, prepared, finished, State}
use trusty_lk_nxp.Machine.Outcome.{Ensures, of_Returned, bind, mono, Ensures-aborted, Ensures-hang}
use trusty_lk_nxp.Caam.Regs.{caam_irjar0, caam_orsfr0, caam_orjrr0, ccm_caam_ccgr_offset}
use trusty_lk_nxp.Caam.Ring.{
  is_one, u32, sizeof_g_rings, clk_value, wait_output, caam_clk_get, submit_job, start_job,
  collect_job, run_job,
}
use trusty_lk_nxp.Caam.Jobs.{job_failed}
use trusty_lk_nxp.Caam.Device.{DeviceLaws, ReadsOne}
use trusty_lk_nxp.Caam.Frame.{kept, Frame, Frame-refl, Frame-trans}

module _ ⦃p : Platform⦄ where
  open p use {
    World, mach, readl, writel, prepare_dma, finish_dma, dma_word, dma_flag_to_device,
    dma_flag_from_device, poll_rounds,
  }

  abbrev ccgr : State → ℕ
  ccgr s = s.caam.ccm_base + ccm_caam_ccgr_offset mach

  -- the calls of the three parts, the latest first
  abbrev pub submit_calls : State → (job_pa : ℕ) → List Call → List Call
  submit_calls s pa cs =
      prepared s.caam.g_rings sizeof_g_rings dma_flag_to_device (pa ∷ [])
      ∷ prepared s.caam.g_job (s.caam.job.dsc_used * 4) dma_flag_to_device
          (take s.caam.job.dsc_used s.caam.job.dsc)
      ∷ cs

  abbrev pub start_calls : State → (clk : ℕ) → List Call → List Call
  start_calls s clk cs =
      wrote 1 (caam_irjar0 + s.caam.caam_base) ∷ wrote (clk_value mach clk) (ccgr s) ∷ cs

  abbrev pub collect_calls : State → List Call → List Call
  collect_calls s cs =
      wrote 1 (caam_orjrr0 + s.caam.caam_base)
      ∷ finished (s.caam.g_rings + 4) 8 dma_flag_from_device
      ∷ cs

  module _ {strict : Bool} (laws : strict ≡ true → DeviceLaws) where
    abbrev EntryIs : State → ℕ → Type 0
    EntryIs s pa = (e : strict ≡ true) → (laws e).ring_entry s.world ≡ pa

    -- the two calls of `prepare_dma` of a submission
    abbrev dsc_dma : State → DmaPmem × World
    dsc_dma s =
        prepare_dma s.caam.g_job (s.caam.job.dsc_used * 4) dma_flag_to_device
          (take s.caam.job.dsc_used s.caam.job.dsc) s.world

    abbrev ring_dma : State → DmaPmem × World
    ring_dma s =
        prepare_dma s.caam.g_rings 4 dma_flag_to_device (u32 (dsc_dma s).0.paddr ∷ []) (dsc_dma s).1

    one_range_fails :
        (a n f : ℕ) (d : List ℕ) (w : World)
        → is_one (prepare_dma a n f d w).0.ret ≡ false
        → strict ≡ true
        → ⊥
    one_range_fails a n f d w bad e = ground (arith, (laws e).one_range a n f d w)

    submit_job-Ensures :
        (s : State)
        → Ensures strict
            (λ pa t. Frame 0 0 s t × EntryIs t pa × (t.calls ≡ submit_calls s pa s.calls))
            (submit_job s)
    unfolding submit_job
    submit_job-Ensures s = elim (Bool-cases (is_one (dsc_dma s).0.ret)) [
      | inl one ↦ rw one (elim (Bool-cases (is_one (ring_dma s).0.ret)) [
        | inl two ↦ rw two (
            of_Returned _ _ (
              Frame-refl 0 0 s,
              λ e. (laws e).entry_handed_in s.caam.g_rings (u32 (dsc_dma s).0.paddr) (dsc_dma s).1,
              refl,
            ))
        | inr bad ↦ rw bad (Ensures-aborted (one_range_fails _ _ _ _ _ bad))
      ])
      | inr bad ↦ rw bad (Ensures-aborted (one_range_fails _ _ _ _ _ bad))
    ]

    abbrev after_read : ℕ → State → State
    after_read a s = record s { world = (readl a s.world).1 }

    reads_on :
        (k a : ℕ) (s : State)
        → ReadsOne (suc k) a s.world
        → ((readl a s.world).0 == 1) ≡ false
        → ReadsOne k a (readl a s.world).1
    reads_on k a s (inl one) more = absurd (ground arith)
    reads_on k a s (inr later) more = later

    wait_output-Ensures :
        (k a : ℕ) (s : State)
        → (strict ≡ true → ReadsOne k a s.world)
        → Ensures strict
            (λ _ t.
              Frame 0 0 s t
              × ((e : strict ≡ true) → (laws e).ring_entry t.world ≡ (laws e).ring_entry s.world)
              × (t.calls ≡ s.calls))
            (wait_output k a s)
    unfolding wait_output
    wait_output-Ensures zero a s ends = Ensures-hang ends
    wait_output-Ensures (suc k) a s ends = elim (Bool-cases ((readl a s.world).0 == 1)) [
      | inl done ↦
          rw done (of_Returned _ _ (Frame-refl 0 0 s, (λ e. (laws e).entry_readl a s.world), refl))
      | inr more ↦ rw more (
          mono (wait_output-Ensures k a (after_read a s) (λ e. reads_on k a s (ends e) more))
            λ _ t (same, entry, calls).
              (same, λ e. entry e ∙ (laws e).entry_readl a s.world, calls))
    ]

    -- the state in which the driver begins to wait
    abbrev started : State → State
    started s =
        let (val, w) = readl (ccgr s) s.world in
        record s {
          world =
              writel 1 (caam_irjar0 + s.caam.caam_base) (writel (clk_value mach val) (ccgr s) w);
          calls = start_calls s val s.calls;
        }

    start_job-Ensures :
        (s : State)
        → Ensures strict
            (λ _ t.
              Frame 0 0 s t
              × ((e : strict ≡ true) → (laws e).ring_entry t.world ≡ (laws e).ring_entry s.world)
              × ((clk : ℕ) × (t.calls ≡ start_calls s clk s.calls)))
            (start_job s)
    unfolding start_job caam_clk_get
    start_job-Ensures s =
        mono
          (wait_output-Ensures poll_rounds (caam_orsfr0 + s.caam.caam_base) (started s)
            (λ e. (laws e).completes _ _ _))
          λ _ t (same, entry, calls). (
            same,
            (λ e.
                entry e
                ∙ (laws e).entry_writel _ _ _
                ∙ (laws e).entry_writel _ _ _
                ∙ (laws e).entry_readl _ _),
            ((readl (ccgr s) s.world).0, calls),
          )

    abbrev out_word : State → ℕ → ℕ
    out_word s a = dma_word (finish_dma (s.caam.g_rings + 4) 8 dma_flag_from_device s.world) a

    collect_job-Ensures :
        (s : State) (pa : ℕ)
        → EntryIs s pa
        → Ensures strict
            (λ _ t.
              Frame 0 0 s t
              × (strict ≡ true → job_failed t.caam.job.status ≡ false)
              × (t.calls ≡ collect_calls s s.calls))
            (collect_job pa s)
    unfolding collect_job
    collect_job-Ensures s pa entry = elim (Bool-cases (out_word s (s.caam.g_rings + 4) == pa)) [
      | inl echo ↦ rw echo (
          of_Returned _ _
            (Frame-refl 0 0 s, (λ e. (laws e).no_error _ _ s.world (omega arith)), refl))
      | inr bad ↦ rw bad (
          Ensures-aborted
            λ e. ground (arith, (laws e).entry_echoed (s.caam.g_rings + 4) s.world, entry e))
    ]

    same_calls :
        (pa clk : ℕ) (s t u v : State)
        → (kept t ≡ kept s) × (kept u ≡ kept t)
        → t.calls ≡ submit_calls s pa s.calls
        → u.calls ≡ start_calls t clk t.calls
        → v.calls ≡ collect_calls u u.calls
        → v.calls ≡ collect_calls s (start_calls s clk (submit_calls s pa s.calls))
    same_calls pa clk s t u v (e, e') c c' c'' = cc

    -- what the run of a job in state `s` does
    abbrev pub JobDone : State → Unit {0} → State → Type 0
    JobDone s _ t =
        Frame 0 0 s t
        × (strict ≡ true → job_failed t.caam.job.status ≡ false)
        × ((pa : ℕ) × (clk : ℕ) × (t.calls
              ≡ collect_calls s (start_calls s clk (submit_calls s pa s.calls))))

    -- The run of a job leaves all buffers alone and uses no freed context. Where it ends, the
    -- driver has, in this order, prepared the descriptors and the ring, switched the clock on,
    -- started the job, taken the result over and removed the job. Under the laws of the device it
    -- ends, with no error in the job's status; without them it may also stop by an assert or wait
    -- for ever.
    pub run_job-Ensures : (s : State) → Ensures strict (JobDone s) (run_job s)
    unfolding run_job
    run_job-Ensures s = bind (submit_job-Ensures s) λ pa t (f, entry, calls).
        bind (start_job-Ensures t) λ _ u (g, kept, (clk, calls')).
          mono (collect_job-Ensures u pa (λ e. kept e ∙ entry e)) λ _ v (h, good, calls''). (
            Frame-trans 0 0 s t v f (Frame-trans 0 0 t u v g h),
            good,
            (pa, clk, same_calls pa clk s t u v (f.1, g.1) calls calls' calls''),
          )
