-- ===== src/Caam/Ring.antt =====
-- app/hwcrypto/caam.c: the clock, the job ring, and the run of one job. Pointers and `size_t` are 32
-- bits wide on the two SoCs. The contents that a range has when it is prepared are handed to the
-- device; `finish_dma` makes visible what the device has left there.
use trusty_lk_nxp.Common.{
  ℕ, zero, suc, ◌+◌, ◌*◌, ◌%◌, ◌^◌, ◌++◌, Bool, not, List, [], ◌∷◌, bit_or, ltb, ◌==◌, ◌≤◌, arith,
  if◌then◌else◌, take, drop, length,
}
use trusty_lk_nxp.Common.Int.{ℤ, pos, int_eq}
use trusty_lk_nxp.Common.Memory.{Memory, SameOutside, load_bytes, overlay}
use trusty_lk_nxp.Platform.{Platform, Mach, imx6, imx7, DmaPmem}
use trusty_lk_nxp.Machine.{
  wrote, prepared, finished, CaamJobRings, Caam, ok, hang, Cmd, pure, assert, abort, get, modify,
  ask, tell, ask_tell, ◌>>=◌, ◌>>◌,
}
use trusty_lk_nxp.Caam.Regs.{
  caam_irbar0, caam_irsr0, caam_irjar0, caam_orbar0, caam_orsr0, caam_orjrr0, caam_orsfr0,
  ccm_caam_ccgr_offset,
}

-- a value as a `uint32_t`
abbrev pub u32 : ℕ → ℕ
u32 n = n % 2 ^ 32

-- sizeof(g_rings): of the pointer, not of the rings
abbrev pub sizeof_g_rings : ℕ
sizeof_g_rings = 4

-- `3 < 10` is the comparison that stands in the source
unfoldable pub clk_value : Mach → ℕ → ℕ
clk_value imx6 val =
    bit_or val (bit_or (bit_or (3 * 2 ^ 8) (if ltb 3 10 then 1 else 0)) (3 * 2 ^ 12))
clk_value imx7 val = 3

-- a job that ended with an error has one of the JOB_RING_STS bits set
abbrev pub is_one : ℤ → Bool
is_one ret = int_eq ret (pos 1)

module _ ⦃p : Platform⦄ where
  open p use {
    World, mach, readl, writel, prepare_dma, finish_dma, dma_byte, ram_byte, job_stores, dma_word,
    dma_flag_to_device, dma_flag_from_device, poll_rounds,
  }

  abbrev pub read_reg : ℕ → Cmd ℕ
  read_reg a = ask (readl a)

  abbrev pub write_reg : (val addr : ℕ) → Cmd (Unit {0})
  write_reg v a = tell (wrote v a) (writel v a)

  -- `prepare_dma` of a range that holds `content`
  abbrev pub prepare : (addr size flags : ℕ) → List ℕ → Cmd DmaPmem
  prepare a n f content = ask_tell (prepared a n f content) (prepare_dma a n f content)

  -- `prepare_dma` of a byte buffer
  abbrev pub prepare_buffer : (addr size flags : ℕ) → Cmd DmaPmem
  prepare_buffer a n f s = prepare a n f (load_bytes a n s.mem) s

  -- the memory behind a job, from `a` on: the bytes that the job on `dsc` has stored, be they inside the
  -- range of `n` bytes or past it, and in the rest of the range what the memory holds
  abbrev pub filled_by : (dsc : List ℕ) → (a n : ℕ) → World → Memory → Memory
  filled_by dsc a n w m = overlay a (job_stores dsc) (dma_byte w) (overlay a n (ram_byte w) m)

  -- `finish_dma` of the output buffer of the job on `dsc`
  unfoldable pub finish_buffer : (dsc : List ℕ) → (addr size flags : ℕ) → Cmd (Unit {0})
  finish_buffer dsc a n f = do
    tell (finished a n f) (finish_dma a n f)
    modify (λ s. record s { mem = filled_by dsc a n s.world s.mem })

  pub SameOutside-filled_by :
      (dsc : List ℕ) (a n r : ℕ) (w : World) (m : Memory)
      → n ≤ r
      → job_stores dsc ≤ r
      → SameOutside a r m (filled_by dsc a n w m)
  unfolding overlay
  SameOutside-filled_by dsc a n r w m h h' i out = ground arith

  abbrev pub modify_caam : (Caam → Caam) → Cmd (Unit {0})
  modify_caam f = modify (λ s. record s { caam = f s.caam })

  unfoldable pub caam_clk_get : Cmd (Unit {0})
  caam_clk_get = do
    s ← get
    val ← read_reg (s.caam.ccm_base + ccm_caam_ccgr_offset mach)
    write_reg (clk_value mach val) (s.caam.ccm_base + ccm_caam_ccgr_offset mach)

  -- what `memset(g_rings, 0, sizeof(*g_rings))` leaves
  abbrev pub zero_rings : CaamJobRings
  zero_rings = record { in0 = 0; out0 = 0; out1 = 0 }

  unfoldable pub setup_job_rings : Cmd (Unit {0})
  setup_job_rings = do
    modify_caam (λ c. record c { rings = zero_rings })
    s ← get
    pmem ← prepare s.caam.g_rings sizeof_g_rings dma_flag_to_device (0 ∷ [])
    if not (is_one pmem.ret) then abort else do
      write_reg (u32 (u32 pmem.paddr + 0)) (caam_irbar0 + s.caam.caam_base)
      write_reg (u32 (u32 pmem.paddr + 4)) (caam_orbar0 + s.caam.caam_base)
      write_reg 1 (caam_irsr0 + s.caam.caam_base)
      write_reg 1 (caam_orsr0 + s.caam.caam_base)

  -- `while (readl(CAAM_ORSFR0) != 1) ;`
  unfoldable pub wait_output : ℕ → ℕ → Cmd (Unit {0})
  wait_output zero addr s = hang s
  wait_output (suc k) addr s =
      let (v, w) = readl addr s.world in
      let rest = wait_output k addr (record s { world = w }) in
      if v == 1 then ok tt (record s { world = w }) else rest

  -- the two output words, as `finish_dma` makes them visible
  abbrev pub visible_out : Caam → World → Caam
  visible_out c w = record c {
    rings = record c.rings { out0 = dma_word w (c.g_rings + 4); out1 = dma_word w (c.g_rings + 8) };
  }

  -- The parts of `run_job(g_job)`, the only job there is: the descriptors and the input ring are
  -- prepared; the job is started and waited for; its result is taken out of the output ring.
  unfoldable pub submit_job : Cmd ℕ
  submit_job = do
    s ← get
    let job = s.caam.job
    pmem ← prepare s.caam.g_job (job.dsc_used * 4) dma_flag_to_device (take job.dsc_used job.dsc)
    assert (is_one pmem.ret)
    let job_pa = u32 pmem.paddr
    modify_caam (λ c. record c { rings = record { in0 = job_pa; out0 = 0; out1 = 0 } })
    ring ← prepare s.caam.g_rings sizeof_g_rings dma_flag_to_device (job_pa ∷ [])
    assert (is_one ring.ret)
    pure job_pa

  unfoldable pub start_job : Cmd (Unit {0})
  start_job = do
    s ← get
    caam_clk_get
    write_reg 1 (caam_irjar0 + s.caam.caam_base)
    wait_output poll_rounds (caam_orsfr0 + s.caam.caam_base)

  unfoldable pub collect_job : (job_pa : ℕ) → Cmd (Unit {0})
  collect_job job_pa = do
    s ← get
    tell (finished (s.caam.g_rings + 4) 8 dma_flag_from_device)
        (finish_dma (s.caam.g_rings + 4) 8 dma_flag_from_device)
    modify (λ t. record t { caam = visible_out t.caam t.world })
    t ← get
    assert (t.caam.rings.out0 == job_pa)
    modify_caam (λ c. record c { job = record c.job { status = c.rings.out1 } })
    write_reg 1 (caam_orjrr0 + s.caam.caam_base)

  unfoldable pub run_job : Cmd (Unit {0})
  run_job = do job_pa ← submit_job; start_job; collect_job job_pa

  -- the assignments to `g_job->dsc[0]` and on, and to `g_job->dsc_used`
  unfoldable pub fill_job : List ℕ → Cmd (Unit {0})
  fill_job ws = modify_caam (λ c. record c {
    job = record c.job { dsc = ws ++ drop (length ws) c.job.dsc; dsc_used = length ws };
  })
