-- ===== src/Caam/Device.antt =====
-- What the driver relies on in the CAAM and in the DMA calls, for the theorems that say that a job is
-- done: `prepare_dma` finds one range, the job ring reports a job within the rounds that the model
-- waits, names the job's descriptor in the output ring, and reports no error.
use trusty_lk_nxp.Common.{ℕ, zero, suc, ◌+◌, ◌≤◌, ◌<◌, ◌≡◌, ◌⊎◌, true, false, List, [], ◌∷◌}
use trusty_lk_nxp.Common.Int.{pos}
use trusty_lk_nxp.Platform.{Platform}
use trusty_lk_nxp.Caam.Ring.{is_one}
use trusty_lk_nxp.Caam.Jobs.{job_failed}

module _ ⦃p : Platform⦄ where
  open p use {
    World, readl, writel, prepare_dma, finish_dma, dma_word, poll_rounds, dma_flag_from_device,
    dma_flag_to_device,
  }

  -- The register at `a` reads 1 within `k` reads.
  abbrev pub ReadsOne : ℕ → ℕ → World → Type 0
  ReadsOne zero a w = ⊥
  ReadsOne (suc k) a w = ((readl a w).0 ≡ 1) ⊎ ReadsOne k a (readl a w).1

  -- A range that `prepare_dma` finds lies within the buffer.
  abbrev pub WithinBuffer : Type 0
  WithinBuffer =
      (a n f : ℕ) (d : List ℕ) (w : World)
      → is_one (prepare_dma a n f d w).0.ret ≡ true
      → (prepare_dma a n f d w).0.size ≤ n

  pub record DeviceLaws : Type 0 where
    -- the address that was last handed in through the one entry of the input ring
    pub ring_entry : World → ℕ
    pub one_range : (a n f : ℕ) (d : List ℕ) (w : World) → (prepare_dma a n f d w).0.ret ≡ pos 1
    pub some_bytes :
        (a n f : ℕ) (d : List ℕ) (w : World) → 0 < n → 0 < (prepare_dma a n f d w).0.size
    pub completes : (start done : ℕ) (w : World) → ReadsOne poll_rounds done (writel 1 start w)
    pub entry_handed_in :
        (a pa : ℕ) (w : World) → ring_entry (prepare_dma a 4 dma_flag_to_device (pa ∷ []) w).1 ≡ pa
    pub entry_readl : (a : ℕ) (w : World) → ring_entry (readl a w).1 ≡ ring_entry w
    pub entry_writel : (v a : ℕ) (w : World) → ring_entry (writel v a w) ≡ ring_entry w
    pub entry_echoed :
        (a : ℕ) (w : World) → dma_word (finish_dma a 8 dma_flag_from_device w) a ≡ ring_entry w
    pub no_error :
        (a b : ℕ) (w : World)
        → b ≡ a + 4
        → job_failed (dma_word (finish_dma a 8 dma_flag_from_device w) b) ≡ false
