-- ===== src/Caam/Init.antt =====
-- app/hwcrypto/caam.c: the mapping of the registers, the allocation of the ring and the job, and the
-- start of the random number generator.
use Prim.Native.Nat.{bit_xor}
use trusty_lk_nxp.Common.{
  ℕ, ◌+◌, ◌*◌, ◌/◌, ◌^◌, not, Option, none, some, bit_and, bit_or, ◌==◌, leb, if◌then◌else◌, length,
  replicate,
}
use trusty_lk_nxp.Common.Int.{ℤ, pos}
use trusty_lk_nxp.Platform.{Platform}
use trusty_lk_nxp.Machine.{Cmd, pure, skip, assert, abort, get, ask, ◌>>=◌, ◌>>◌}
use trusty_lk_nxp.Caam.Regs.{
  caam_rtmctl, caam_rtsdctl, caam_rtfrqmin, caam_rtfrqmax, caam_rdsta, caam_jrcfgr0_ls,
  jrcfg_ls_imsk, rng_trim_osc_div, rng_trim_ent_dly, rtmctl_pgm, rtmctl_err, rdsta_if0, rdsta_skvn,
  rng_inst_dsc, max_dsc_num, caam_reg_size, caam_sec_ram_size, ccm_reg_size, caam_mmio_id,
  caam_sec_ram_mmio_id, ccm_mmio_id,
}
use trusty_lk_nxp.Caam.Ring.{
  zero_rings, read_reg, write_reg, modify_caam, caam_clk_get, setup_job_rings, run_job, fill_job,
}
use trusty_lk_nxp.Caam.Jobs.{job_failed}
use trusty_lk_nxp.Caam.SelfTest.{caam_test}

module _ ⦃p : Platform⦄ where
  open p use {mach, mmap, map_failed, memalign, err_generic, err_no_memory, with_caam_self_test}

  -- the TRNG program mode, its oscillator, delay and frequency limits, and back to run mode
  unfoldable pub program_trng : (caam_base : ℕ) → Cmd (Unit {0})
  program_trng base = do
    write_reg rtmctl_pgm (caam_rtmctl + base)
    osc ← read_reg (caam_rtmctl + base)
    write_reg (bit_or osc (rng_trim_osc_div * 2 ^ 2)) (caam_rtmctl + base)
    write_reg (bit_or (rng_trim_ent_dly * 2 ^ 16) 0x09C4) (caam_rtsdctl + base)
    write_reg (rng_trim_ent_dly / 2) (caam_rtfrqmin + base)
    write_reg (rng_trim_ent_dly * 2 ^ 4) (caam_rtfrqmax + base)
    run ← read_reg (caam_rtmctl + base)
    write_reg (bit_xor run rtmctl_pgm) (caam_rtmctl + base)
    err ← read_reg (caam_rtmctl + base)
    write_reg (bit_or err rtmctl_err) (caam_rtmctl + base)

  -- the job that instantiates the generator, with the check of its result
  unfoldable pub instantiate_rng : (caam_base : ℕ) → Cmd (Unit {0})
  instantiate_rng base = do
    assert (leb (length rng_inst_dsc) max_dsc_num)
    fill_job rng_inst_dsc
    run_job
    s ← get
    if job_failed s.caam.job.status then abort else do
      state ← read_reg (caam_rdsta + base)
      if not (state == bit_or rdsta_if0 rdsta_skvn) then abort else skip

  unfoldable pub caam_open : Cmd (Unit {0})
  caam_open = do
    caam_clk_get
    setup_job_rings
    s ← get
    let base = s.caam.caam_base
    cfg ← read_reg (caam_jrcfgr0_ls + base)
    write_reg (bit_or cfg jrcfg_ls_imsk) (caam_jrcfgr0_ls + base)
    state ← read_reg (caam_rdsta + base)
    if not (bit_and state rdsta_if0 == rdsta_if0)
        then program_trng base >> instantiate_rng base
        else skip

  -- what `mmap` returns: the address, or MAP_FAILED
  abbrev pub pointer : Option ℕ → ℕ
  pointer none = map_failed
  pointer (some a) = a

  -- the return with an error, where the call has failed
  abbrev pub or_fail : Option ℕ → ℤ → Cmd ℤ → Cmd ℤ
  or_fail none e k = pure e
  or_fail (some a) e k = k

  -- The allocations and the start, once the registers are mapped. What `memalign` gives is not cleared:
  -- here it is zero, and nothing reads it before it is set.
  unfoldable pub allocate_rings : Cmd ℤ
  allocate_rings = do
    assert (leb 12 16)
    g_rings ← ask (memalign 16 12)
    modify_caam (λ c. record c { g_rings = g_rings; rings = zero_rings })
    if g_rings == 0 then pure err_no_memory else do
      g_job ← ask (memalign (max_dsc_num * 4) (max_dsc_num * 4 + 8))
      modify_caam (λ c. record c {
        g_job = g_job;
        job = record { dsc = replicate max_dsc_num 0; dsc_used = 0; status = 0 };
      })
      if g_job == 0
          then pure err_no_memory
          else do caam_open; if with_caam_self_test then caam_test else skip; pure (pos 0)

  unfoldable pub init_caam_env : Cmd ℤ
  unfolding allocate_rings
  init_caam_env = do
    caam ← ask (mmap (caam_reg_size mach) caam_mmio_id)
    modify_caam (λ c. record c { caam_base = pointer caam })
    or_fail caam err_generic do
      sram ← ask (mmap (caam_sec_ram_size mach) caam_sec_ram_mmio_id)
      modify_caam (λ c. record c { sram_base = pointer sram })
      or_fail sram err_generic do
        ccm ← ask (mmap (ccm_reg_size mach) ccm_mmio_id)
        modify_caam (λ c. record c { ccm_base = pointer ccm })
        or_fail ccm err_generic allocate_rings
