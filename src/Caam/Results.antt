-- ===== src/Caam/Results.antt =====
-- How the jobs of app/hwcrypto/caam.c on a fixed number of buffers end, on every branch.
use trusty_lk_nxp.Common.{
  ℕ, ◌++◌, ◌*◌, ◌≤◌, ◌≡◌, refl, ◌∙◌, ap, ◌⊎◌, inl, inr, Bool, true, List, [], ◌∷◌, arith,
  Bool-cases, length, take-append, drop,
}
use trusty_lk_nxp.Common.Memory.{load_bytes}
use trusty_lk_nxp.Platform.{Platform, DmaPmem}
use trusty_lk_nxp.Machine.{Call, prepared, finished, State, Cmd}
use trusty_lk_nxp.Machine.Outcome.{Ensures, of_Returned, bind, mono}
use trusty_lk_nxp.Caam.Regs.{caam_success, caam_failure}
use trusty_lk_nxp.Caam.Ring.{is_one, finish_buffer, fill_job, filled_by, SameOutside-filled_by}
use trusty_lk_nxp.Caam.Jobs.{with_buffer, job_failed, run_to_buffer}
use trusty_lk_nxp.Caam.Device.{DeviceLaws}
use trusty_lk_nxp.Caam.Frame.{Frame, Frame-widen, Frame-trans}
use trusty_lk_nxp.Caam.Protocol.{start_calls, collect_calls, run_job-Ensures}

module _ ⦃p : Platform⦄ where
  open p use {World, prepare_dma, finish_dma, job_stores, dma_flag_to_device, dma_flag_from_device}

  -- a state whose job is to run the descriptors `dsc`
  abbrev pub with_job : List ℕ → State → State
  with_job dsc s = record s {
    caam = record s.caam {
      job = record s.caam.job {
        dsc = dsc ++ drop (length dsc) s.caam.job.dsc;
        dsc_used = length dsc;
      };
    };
  }

  -- the calls of a job on `dsc`, the latest first
  abbrev pub job_calls : State → List ℕ → (pa clk : ℕ) → List Call → List Call
  job_calls s dsc pa clk cs = collect_calls s (
      start_calls s clk (
        prepared s.caam.g_rings 4 dma_flag_to_device (pa ∷ [])
        ∷ prepared s.caam.g_job (length dsc * 4) dma_flag_to_device dsc
        ∷ cs))

  -- a state with the output buffer as `finish_dma` leaves it
  abbrev pub handed_over : (dsc : List ℕ) → (out size : ℕ) → State → State
  handed_over dsc out size t =
      let w = finish_dma out size dma_flag_from_device t.world in
      record t {
        world = w;
        calls = finished out size dma_flag_from_device ∷ t.calls;
        mem = filled_by dsc out size w t.mem;
      }

  -- The outcome of a job whose result goes to a buffer: only `reach` bytes from its start on change;
  -- success is reported only after the whole job has run on the descriptors `dsc` and the buffer was
  -- handed over.
  pub record JobResult (strict : Bool) (dsc : List ℕ) (out size reach : ℕ) (s : State) (res : ℕ)
      (t : State) : Type 0 where
    pub frame : Frame out reach s t
    pub succeeds : strict ≡ true → res ≡ caam_success
    pub outcome :
        ((res ≡ caam_success)
          × ((pa : ℕ) × (clk : ℕ) × (t.calls
                ≡ finished out size dma_flag_from_device ∷ job_calls s dsc pa clk s.calls)))
        ⊎ ((res ≡ caam_failure)
            × ((pa : ℕ) × (clk : ℕ) × (t.calls ≡ job_calls s dsc pa clk s.calls)))

  -- a state in which one more buffer is prepared
  abbrev pub prepared_state : (a n f : ℕ) → World → State → State
  prepared_state a n f w s = record s {
    world = w;
    calls = prepared a n f (load_bytes a n s.mem) ∷ s.calls;
  }

  module _ {strict : Bool} (laws : strict ≡ true → DeviceLaws) where
    pub run_to_buffer-Ensures :
        (dsc : List ℕ) (out size reach : ℕ) (s : State)
        → size ≤ reach
        → job_stores dsc ≤ reach
        → Ensures strict (JobResult strict dsc out size reach s) (run_to_buffer dsc out size s)
    unfolding run_to_buffer fill_job finish_buffer
    run_to_buffer-Ensures dsc out size reach s h h' =
        bind (run_job-Ensures laws (with_job dsc s)) λ _ t (f, good, (pa, clk, calls)).
          let exact : t.calls ≡ job_calls s dsc pa clk s.calls =
            calls
            ∙ ap
                (λ d. collect_calls s (
                  start_calls s clk (
                    prepared s.caam.g_rings 4 dma_flag_to_device (pa ∷ [])
                    ∷ prepared s.caam.g_job (length dsc * 4) dma_flag_to_device d
                    ∷ s.calls)))
                (take-append dsc (drop (length dsc) s.caam.job.dsc)) in
          elim (Bool-cases (job_failed t.caam.job.status)) [
            | inl bad ↦ rw bad (
                of_Returned _ _ (record {
                  frame = widen s t f;
                  succeeds = λ e. cc (good e);
                  outcome = inr (refl, (pa, clk, exact));
                }))
            | inr fine ↦ rw fine (
                of_Returned _ _ (record {
                  frame = Frame-trans out reach s t (handed_over dsc out size t) (widen s t f) (
                    SameOutside-filled_by dsc out size reach (handed_over dsc out size t).world
                        t.mem h h',
                    refl,
                  );
                  succeeds = λ e. refl;
                  outcome =
                      inl
                        (refl, (pa, clk, ap (◌∷◌ (finished out size dma_flag_from_device)) exact));
                }))
          ]
      where
        widen : (s t : State) → Frame 0 0 s t → Frame out reach s t
        widen s t f = Frame-widen 0 0 out reach s t (λ i o. inr (omega arith)) f

    -- A buffer operation leaves all but `size` bytes from `out` on alone, and reports success or failure: success
    -- under the laws of the device, and only after the calls that `Done` names.
    abbrev pub BufferResult : (List Call → Type 0) → (out size : ℕ) → State → ℕ → State → Type 0
    BufferResult Done out size s res t =
        Frame out size s t
        × (strict ≡ true → res ≡ caam_success)
        × (((res ≡ caam_success) × Done t.calls) ⊎ (res ≡ caam_failure))

    -- One more buffer is prepared, or the operation ends with a failure.
    pub with_buffer-Ensures :
        (Done : List Call → Type 0) (out size a n f : ℕ) (s₀ s : State) (cont : DmaPmem → Cmd ℕ)
        → Frame out size s₀ s
        → ((pmem : DmaPmem) (w : World)
            → Frame out size s₀ (prepared_state a n f w s)
            → Ensures strict (BufferResult Done out size s₀) (cont pmem (prepared_state a n f w s)))
        → Ensures strict (BufferResult Done out size s₀) (with_buffer a n f cont s)
    unfolding with_buffer
    with_buffer-Ensures Done out size a n f s₀ s cont g next =
        elim (Bool-cases (is_one (prepare_dma a n f content s.world).0.ret)) [
          | inl one ↦ rw one (next _ _ g)
          | inr bad ↦ rw bad (
              of_Returned _ _
                (g, (λ e. ground (arith, (laws e).one_range a n f content s.world)), inr refl))
        ]
      where
        content : List ℕ
        content = load_bytes a n s.mem

    -- The last step of a buffer operation is its job.
    pub run_to_buffer-BufferResult :
        (Done : List Call → Type 0) (dsc words : List ℕ) (out size reach : ℕ) (s₀ s : State)
        → Frame out reach s₀ s
        → size ≤ reach
        → job_stores dsc ≤ reach
        → dsc ≡ words
        → ((pa clk : ℕ) (cs : List Call)
            → cs ≡ finished out size dma_flag_from_device ∷ job_calls s words pa clk s.calls
            → Done cs)
        → Ensures strict (BufferResult Done out reach s₀) (run_to_buffer dsc out size s)
    run_to_buffer-BufferResult Done dsc words out size reach s₀ s g h h' same done =
        mono (run_to_buffer-Ensures dsc out size reach s h h')
          λ res t r. (Frame-trans out reach s₀ s t g r.frame, r.succeeds, outcome t.calls r.outcome)
      where
        outcome :
            {res : ℕ} (cs : List Call)
            → ((res ≡ caam_success)
                × ((pa : ℕ) × (clk : ℕ) × (cs
                      ≡ finished out size dma_flag_from_device ∷ job_calls s dsc pa clk s.calls)))
              ⊎ ((res ≡ caam_failure)
                  × ((pa : ℕ) × (clk : ℕ) × (cs ≡ job_calls s dsc pa clk s.calls)))
            → ((res ≡ caam_success) × Done cs) ⊎ (res ≡ caam_failure)
        outcome cs (inl (good, (pa, clk, e))) = inl (
          good,
          done pa clk cs (
              e
              ∙ ap (λ d. finished out size dma_flag_from_device ∷ job_calls s d pa clk s.calls)
                  same),
        )
        outcome cs (inr (bad, more)) = inr bad
