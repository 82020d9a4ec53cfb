-- ===== src/Caam/Rng.antt =====
-- app/hwcrypto/caam.c: random numbers in as many jobs as the buffer has physical pieces.
use trusty_lk_nxp.Common.{
  ℕ, zero, suc, ◌+◌, ◌-◌, ◌%◌, ◌^◌, Option, none, some, List, [], ◌∷◌, bit_or, ◌==◌, if◌then◌else◌,
}
use trusty_lk_nxp.Platform.{Platform}
use trusty_lk_nxp.Machine.{hang, Cmd, pure, get, ◌>>=◌, ◌>>◌}
use trusty_lk_nxp.Caam.Regs.{caam_success, caam_failure}
use trusty_lk_nxp.Caam.Ring.{u32, prepare_buffer, finish_buffer, run_job, fill_job}
use trusty_lk_nxp.Caam.Jobs.{low16, dma_failed, job_failed}

unfoldable pub rng_dsc : (size paddr : ℕ) → List ℕ
rng_dsc size paddr = 0xB0800004 ∷ 0x82500000 ∷ bit_or 0x60340000 (low16 size) ∷ u32 paddr ∷ []

-- `len - size` as a `size_t`
abbrev pub sub_size : ℕ → ℕ → ℕ
sub_size len size = (len + 2 ^ 32 - size) % 2 ^ 32

module _ ⦃p : Platform⦄ where
  open p use {dma_flag_from_device, dma_flag_allow_partial}

  -- DMA_FLAG_FROM_DEVICE | DMA_FLAG_ALLOW_PARTIAL
  abbrev pub partial_flags : ℕ
  partial_flags = bit_or dma_flag_from_device dma_flag_allow_partial

  -- the job on one range, with the hand-over of what it has filled
  unfoldable pub fill_piece : (out size paddr : ℕ) → Cmd (Option ℕ)
  fill_piece out size paddr = do
    let dsc = rng_dsc size paddr
    fill_job dsc
    run_job
    s ← get
    if job_failed s.caam.job.status
        then pure none
        else do finish_buffer dsc out size dma_flag_from_device; pure (some size)

  -- one round of the loop: how many bytes it has filled, or a failure
  unfoldable pub hwrng_round : (out len : ℕ) → Cmd (Option ℕ)
  hwrng_round out len = do
    pmem ← prepare_buffer out len partial_flags
    if dma_failed pmem then pure none else fill_piece out pmem.size pmem.paddr

  -- the rest of the loop, unless a round has failed
  abbrev pub or_failure : Option ℕ → (ℕ → Cmd ℕ) → Cmd ℕ
  or_failure none rest = pure caam_failure
  or_failure (some size) rest = rest size

  -- `while (len)`, for a number of rounds
  unfoldable pub hwrng_loop : (rounds out len : ℕ) → Cmd ℕ
  hwrng_loop zero out len = hang
  hwrng_loop (suc k) out len = if len == 0 then pure caam_success else do
    piece ← hwrng_round out len
    or_failure piece (λ size. hwrng_loop k (out + size) (sub_size len size))

  -- Each round that goes on has filled at least a byte, so `len + 1` rounds are enough.
  unfoldable pub caam_hwrng : (out len : ℕ) → Cmd ℕ
  unfolding hwrng_loop
  caam_hwrng out len = hwrng_loop (len + 1) out len
