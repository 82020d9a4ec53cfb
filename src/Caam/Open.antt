-- ===== src/Caam/Open.antt =====
-- The start of the CAAM (caam_open and init_caam_env of app/hwcrypto/caam.c).
use trusty_lk_nxp.Common.{
  ◌∙◌, if◌then◌else◌, replicate, ℕ, ◌+◌, ◌*◌, ◌<◌, ◌≡◌, refl, sym, ap, ◌⊎◌, inl, inr, true, false,
  Option, none, some, arith, Bool-cases, Option-cases, ◌==◌,
}
use mathlib.Core.Path.{subst}
use trusty_lk_nxp.Common.Memory.{SameOutside}
use trusty_lk_nxp.Common.Int.{ℤ, pos}
use trusty_lk_nxp.Platform.{Platform}
use trusty_lk_nxp.Machine.{State, skip}
use trusty_lk_nxp.Machine.Outcome.{Safely, returned, of_Returned, bind, mono, Ensures-if}
use trusty_lk_nxp.Caam.Regs.{
  max_dsc_num, caam_reg_size, caam_sec_ram_size, ccm_reg_size, caam_mmio_id, caam_sec_ram_mmio_id,
  ccm_mmio_id,
}
use trusty_lk_nxp.Caam.Ring.{zero_rings}
use trusty_lk_nxp.Caam.Frame.{Kept, kept, Frame-refl}
use trusty_lk_nxp.Caam.Device.{WithinBuffer}
use trusty_lk_nxp.Caam.SelfTest.{caam_test}
use trusty_lk_nxp.Caam.SelfTest.Buffers.{StackLayout, InStack, caam_test-InStack}
use trusty_lk_nxp.Caam.Init.{allocate_rings, init_caam_env}
use trusty_lk_nxp.Caam.Ready.{caam_open-Ready, RngReady}

module _ ⦃p : Platform⦄ where
  open p use {World, mach, mmap, memalign, err_generic, err_no_memory, stack, with_caam_self_test}

  -- what the start keeps: all of the program but the driver's own variables
  abbrev pub no_driver : Kept → Kept
  no_driver k = record k { caam_base = 0; ccm_base = 0; sram_base = 0; g_rings = 0; g_job = 0 }

  abbrev pub services : State → Kept
  services s = no_driver (kept s)

  abbrev pub Untouched : State → State → Type 0
  Untouched s t = SameOutside stack 1024 s.mem t.mem × (services t ≡ services s)

  -- the ring and the job are allocated, the secure RAM is mapped, and the generator is ready
  abbrev pub Running : State → Type 0
  Running t =
      (0 < t.caam.g_rings)
      × (0 < t.caam.g_job)
      × RngReady t.caam.caam_base
      × ((w : World) × ((mmap (caam_sec_ram_size mach) caam_sec_ram_mmio_id w).0
            ≡ some t.caam.sram_base))

  -- the three mappings
  abbrev caam_map : World → Option ℕ × World
  caam_map w = mmap (caam_reg_size mach) caam_mmio_id w

  abbrev sram_map : World → Option ℕ × World
  sram_map w = mmap (caam_sec_ram_size mach) caam_sec_ram_mmio_id (caam_map w).1

  abbrev ccm_map : World → Option ℕ × World
  ccm_map w = mmap (ccm_reg_size mach) ccm_mmio_id (sram_map w).1

  -- the addresses of the ring and of the job, behind the mappings
  abbrev ring_at : World → ℕ × World
  ring_at w = memalign 16 12 w

  abbrev job_at : World → ℕ × World
  job_at w = memalign (max_dsc_num * 4) (max_dsc_num * 4 + 8) (ring_at w).1

  -- One of the three mappings fails.
  abbrev pub MapFails : State → Type 0
  MapFails s =
      ((caam_map s.world).0 ≡ none) ⊎ ((sram_map s.world).0 ≡ none) ⊎ ((ccm_map s.world).0 ≡ none)

  -- There is no memory for the ring, or none for the job.
  abbrev OutOfMemory : World → Type 0
  OutOfMemory w = ((ring_at w).0 ≡ 0) ⊎ ((job_at w).0 ≡ 0)

  -- how a start ends whose mappings have led to the world `w`
  abbrev Allocated : World → State → ℤ → State → Type 0
  Allocated w s rc t =
      Untouched s t
      × (((rc ≡ pos 0) × Running t) ⊎ ((rc ≡ err_no_memory) × OutOfMemory w × (t.calls ≡ s.calls)))

  -- an error by its cause, and no register written
  abbrev pub Unopened : State → ℤ → State → Type 0
  Unopened s rc t =
      ((rc ≡ err_no_memory) × OutOfMemory (ccm_map s.world).1 × (t.calls ≡ s.calls))
      ⊎ ((rc ≡ err_generic) × MapFails s × (t.calls ≡ s.calls))

  -- what the start of the driver ends with: success or an error
  abbrev pub Opened : State → ℤ → State → Type 0
  Opened s rc t = Untouched s t × (((rc ≡ pos 0) × Running t) ⊎ Unopened s rc t)

  pub Unopened-error :
      (s : State) (rc : ℤ) (t : State)
      → Unopened s rc t
      → ((rc ≡ err_generic) ⊎ (rc ≡ err_no_memory)) × (t.calls ≡ s.calls)
  Unopened-error s rc t (inl (e, out, calls)) = (inr e, calls)
  Unopened-error s rc t (inr (e, fails, calls)) = (inl e, calls)

  nonzero : (a : ℕ) → (a == 0) ≡ false → 0 < a
  nonzero a h = ground arith

  null : (a : ℕ) → (a == 0) ≡ true → a ≡ 0
  null a h = ground arith

  -- the state with the ring and the job
  abbrev allocated : State → State
  allocated s = record s {
    world = (job_at s.world).1;
    caam = record s.caam {
      g_rings = (ring_at s.world).0;
      rings = zero_rings;
      g_job = (job_at s.world).0;
      job = record { dsc = replicate max_dsc_num 0; dsc_used = 0; status = 0 };
    };
  }

  -- what was allocated and mapped is so behind the start of the device and the self tests
  Running-Frame :
      (s t : State)
      → kept t ≡ kept (allocated s)
      → ((ring_at s.world).0 == 0) ≡ false
      → ((job_at s.world).0 == 0) ≡ false
      → RngReady s.caam.caam_base
      → ((w : World) × ((mmap (caam_sec_ram_size mach) caam_sec_ram_mmio_id w).0
            ≡ some s.caam.sram_base))
      → Running t
  Running-Frame s t k ring job ready sram = (
    subst (λ n. 0 < n) (sym (ap (λ k. k.g_rings) k)) (nonzero _ ring),
    subst (λ n. 0 < n) (sym (ap (λ k. k.g_job) k)) (nonzero _ job),
    subst RngReady (sym (ap (λ k. k.caam_base) k)) ready,
    subst (λ n. (w : World) × ((mmap (caam_sec_ram_size mach) caam_sec_ram_mmio_id w).0 ≡ some n))
        (sym (ap (λ k. k.sram_base) k)) sram,
  )

  -- the state with the mappings
  abbrev mapped : (caam sram ccm : ℕ) → State → State
  mapped caam sram ccm s = record s {
    world = (ccm_map s.world).1;
    caam = record s.caam { caam_base = caam; sram_base = sram; ccm_base = ccm };
  }

  module _ (within : WithinBuffer) (layout : StackLayout) where
    self_tested-InStack :
        (t : State)
        → Safely (λ _ u. InStack t u) ((if with_caam_self_test then caam_test else skip) t)
    self_tested-InStack t =
        Ensures-if with_caam_self_test caam_test skip t
          (λ on. caam_test-InStack within (λ e. absurd cc) layout t)
          (λ off. returned (Frame-refl stack 1024 t))

    allocate_rings-Allocated :
        (s : State)
        → ((w : World) × ((mmap (caam_sec_ram_size mach) caam_sec_ram_mmio_id w).0
              ≡ some s.caam.sram_base))
        → Safely (Allocated s.world s) (allocate_rings s)
    unfolding allocate_rings
    allocate_rings-Allocated s sram = elim (Bool-cases ((ring_at s.world).0 == 0)) [
      | inl out ↦
          rw out (of_Returned _ _ (((λ i out. refl), refl), inr (refl, inl (null _ out), refl)))
      | inr ring ↦ rw ring (elim (Bool-cases ((job_at s.world).0 == 0)) [
        | inl out ↦
            rw out (of_Returned _ _ (((λ i out. refl), refl), inr (refl, inr (null _ out), refl)))
        | inr job ↦ rw job (
            bind (caam_open-Ready (allocated s)) λ _ t ((mem, k), ready).
              bind (self_tested-InStack t) λ _ u (mem', k'). of_Returned _ _ (
                ((λ i out. mem' i out ∙ mem i (inr (omega arith))), ap no_driver (k' ∙ k)),
                inl (refl, Running-Frame s u (k' ∙ k) ring job ready sram),
              ))
      ])
    ]

    -- The start of the driver changes no buffer but those of the self tests, and nothing of the services,
    -- and ends with success, or with an error before any register is written: the generic one only where
    -- a mapping fails, and the one for the lack of memory only where the ring or the job gets none. With success the ring and the job are allocated, the
    -- secure RAM is mapped, and the generator was seen to be instantiated. This is where the self
    -- tests' buffers lie in their stack frame and prepare_dma finds ranges within a buffer. It may also
    -- stop by an assert or an abort, or wait for the device.
    pub init_caam_env-Opened : (s : State) → Safely (Opened s) (init_caam_env s)
    unfolding init_caam_env
    init_caam_env-Opened s = elim (Option-cases (caam_map s.world).0) [
      | inl failed ↦
          rw failed (of_Returned _ _ (((λ i out. refl), refl), inr (inr (refl, inl failed, refl))))
      | inr (caam, e) ↦ rw e (elim (Option-cases (sram_map s.world).0) [
        | inl failed ↦
            rw failed
              (of_Returned _ _ (((λ i out. refl), refl), inr (inr (refl, inr (inl failed), refl))))
        | inr (sram, e') ↦ rw e' (elim (Option-cases (ccm_map s.world).0) [
          | inl failed ↦
              rw failed (
                of_Returned _ _ (((λ i out. refl), refl), inr (inr (refl, inr (inr failed), refl))))
          | inr (ccm, e'') ↦ rw e'' (
              mono (allocate_rings-Allocated (mapped caam sram ccm s) ((caam_map s.world).1, e'))
                λ rc t (same, end).
                  (same, elim end [ inl done ↦ inl done | inr out ↦ inr (inl out) ]))
        ])
      ])
    ]
