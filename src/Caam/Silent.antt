-- ===== src/Caam/Silent.antt =====
-- The driver sends no message to anyone (run_job, caam_hwrng and caam_decap_blob of app/hwcrypto/caam.c).
use trusty_lk_nxp.Common.{
  ℕ, zero, suc, ◌+◌, refl, ap, inl, inr, false, Option, none, some, List, ltb, Bool-cases, ◌==◌,
}
use trusty_lk_nxp.Platform.{Platform, DmaPmem}
use trusty_lk_nxp.Machine.{State, Cmd}
use trusty_lk_nxp.Machine.Outcome.{
  Partial, if_returned, if_aborted, if_hang, Partial-bind, Partial-mono, Partial-Ensures,
}
use trusty_lk_nxp.Machine.Sent.{messages, IsSilent, IsSilent-trans}
use trusty_lk_nxp.Caam.Regs.{caam_kb_header_len}
use trusty_lk_nxp.Caam.Ring.{u32, fill_job, finish_buffer, run_job}
use trusty_lk_nxp.Caam.Jobs.{dma_failed, job_failed, run_to_buffer, with_buffer, caam_decap_blob}
use trusty_lk_nxp.Caam.Rng.{
  rng_dsc, sub_size, partial_flags, fill_piece, hwrng_round, or_failure, hwrng_loop, caam_hwrng,
}
use trusty_lk_nxp.Caam.Protocol.{run_job-Ensures}
use trusty_lk_nxp.Caam.Results.{with_job, prepared_state}
use trusty_lk_nxp.Common.Memory.{load_bytes}

module _ ⦃p : Platform⦄ where
  open p use {prepare_dma}

  run_job-IsSilent : (s : State) → Partial (λ _ t. IsSilent s t) (run_job s)
  run_job-IsSilent s =
      Partial-mono (Partial-Ensures (run_job-Ensures {strict = false} (λ e. absurd cc) s))
        λ _ t (f, good, (pa, clk, calls)). ap messages calls

  fill_piece-IsSilent :
      (out size pa : ℕ) (s : State) → Partial (λ _ t. IsSilent s t) (fill_piece out size pa s)
  unfolding fill_piece fill_job finish_buffer
  fill_piece-IsSilent out size pa s =
      Partial-bind (run_job-IsSilent (with_job (rng_dsc size pa) s)) λ _ t silent.
        elim (Bool-cases (job_failed t.caam.job.status)) [
          | inl bad ↦ rw bad (if_returned silent)
          | inr fine ↦ rw fine (if_returned silent)
        ]

  hwrng_round-IsSilent :
      (out len : ℕ) (s : State) → Partial (λ _ t. IsSilent s t) (hwrng_round out len s)
  unfolding hwrng_round
  hwrng_round-IsSilent out len s =
      let (pmem, w) = prepare_dma out len partial_flags (load_bytes out len s.mem) s.world in
      elim (Bool-cases (dma_failed pmem)) [
        | inl bad ↦ rw bad (if_returned refl)
        | inr fine ↦ rw fine (
            fill_piece-IsSilent out pmem.size pmem.paddr (prepared_state out len partial_flags w s))
      ]

  -- the rest of the loop behind one round
  rest-IsSilent :
      (s : State) (rest : ℕ → Cmd ℕ)
      → ((z : ℕ) (t : State) → Partial (λ _ u. IsSilent t u) (rest z t))
      → (piece : Option ℕ) (t : State) → IsSilent s t
      → Partial (λ _ u. IsSilent s u) (or_failure piece rest t)
  rest-IsSilent s rest quiet none t silent = if_returned silent
  rest-IsSilent s rest quiet (some z) t silent =
      Partial-mono (quiet z t) λ _ u silent'. IsSilent-trans s t u silent silent'

  hwrng_loop-IsSilent :
      (k out len : ℕ) (s : State) → Partial (λ _ t. IsSilent s t) (hwrng_loop k out len s)
  unfolding hwrng_loop
  hwrng_loop-IsSilent zero out len s = if_hang
  hwrng_loop-IsSilent (suc k) out len s = elim (Bool-cases (len == 0)) [
    | inl done ↦ rw done (if_returned refl)
    | inr more ↦ rw more (
        Partial-bind (hwrng_round-IsSilent out len s) (
          rest-IsSilent s (λ z. hwrng_loop k (out + z) (sub_size len z))
            λ z t. hwrng_loop-IsSilent k (out + z) (sub_size len z) t))
  ]

  pub caam_hwrng-IsSilent :
      (out len : ℕ) (s : State) → Partial (λ _ t. IsSilent s t) (caam_hwrng out len s)
  unfolding caam_hwrng
  caam_hwrng-IsSilent out len s = hwrng_loop-IsSilent (len + 1) out len s

  run_to_buffer-IsSilent :
      (dsc : List ℕ) (out size : ℕ) (s : State)
      → Partial (λ _ t. IsSilent s t) (run_to_buffer dsc out size s)
  unfolding run_to_buffer fill_job finish_buffer
  run_to_buffer-IsSilent dsc out size s =
      Partial-bind (run_job-IsSilent (with_job dsc s)) λ _ t silent.
        elim (Bool-cases (job_failed t.caam.job.status)) [
          | inl bad ↦ rw bad (if_returned silent)
          | inr fine ↦ rw fine (if_returned silent)
        ]

  with_buffer-IsSilent :
      (a n f : ℕ) (cont : DmaPmem → Cmd ℕ) (s₀ s : State)
      → IsSilent s₀ s
      → ((pmem : DmaPmem) (t : State)
          → IsSilent s₀ t
          → Partial (λ _ u. IsSilent s₀ u) (cont pmem t))
      → Partial (λ _ u. IsSilent s₀ u) (with_buffer a n f cont s)
  unfolding with_buffer
  with_buffer-IsSilent a n f cont s₀ s silent next =
      let (pmem, w) = prepare_dma a n f (load_bytes a n s.mem) s.world in
      elim (Bool-cases (dma_failed pmem)) [
        | inl bad ↦ rw bad (if_returned silent)
        | inr fine ↦ rw fine (next pmem (prepared_state a n f w s) silent)
      ]

  pub caam_decap_blob-IsSilent :
      (kmod plain blob size : ℕ) (s : State)
      → Partial (λ _ t. IsSilent s t) (caam_decap_blob kmod 16 plain blob size s)
  unfolding caam_decap_blob
  caam_decap_blob-IsSilent kmod plain blob size s =
      elim (Bool-cases (ltb (u32 (size + caam_kb_header_len)) 0xFFFF)) [
        | inr long ↦ rw long if_aborted
        | inl short ↦ rw short (
            with_buffer-IsSilent _ _ _ _ s s refl λ k t silent.
              with_buffer-IsSilent _ _ _ _ s t silent λ b u silent'.
                with_buffer-IsSilent _ _ _ _ s u silent' λ o v silent''.
                  Partial-mono (run_to_buffer-IsSilent _ plain size v)
                    λ _ w last. IsSilent-trans s v w silent'' last)
      ]
