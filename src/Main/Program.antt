-- ===== src/Main/Program.antt =====
-- The whole program (`main` of app/hwcrypto/main.c), from its first state on.
use trusty_lk_nxp.Common.{
  arith, ℕ, ◌≡◌, ◌≢◌, sym, ◌∙◌, ap, ◌⊎◌, inl, inr, true, false, Option, some, Bool-cases,
}
use mathlib.Core.Path.{subst}
use trusty_lk_nxp.Common.Int.{ℤ, pos, negsuc, int_eq}
use trusty_lk_nxp.Platform.{Platform}
use trusty_lk_nxp.Machine.{ok, State, ◌>>◌}
use trusty_lk_nxp.Machine.Outcome.{
  Ensures, Safely, of_Returned, bind, mono, Ensures-run, and_then_assoc,
}
use trusty_lk_nxp.Caam.Device.{WithinBuffer}
use trusty_lk_nxp.Caam.Regs.{caam_sec_ram_size, caam_sec_ram_mmio_id}
use trusty_lk_nxp.Caam.Init.{init_caam_env}
use trusty_lk_nxp.Caam.SelfTest.Buffers.{StackLayout}
use trusty_lk_nxp.Caam.Open.{Untouched, Running, Unopened-error, init_caam_env-Opened}
use trusty_lk_nxp.Tipc.Receive.{IpcLaws}
use trusty_lk_nxp.Hwrng.Links.{ListLaws}
use trusty_lk_nxp.Hwrng.Channels.{ReqLenFits}
use trusty_lk_nxp.Hwrng.Server.{hwrng_init_srv_provider}
use trusty_lk_nxp.Hwkey.Server.{hwkey_init_srv_provider}
use trusty_lk_nxp.Main.{event_loop, main}
use trusty_lk_nxp.Main.Invariant.{ServerOk, ServerLayout}
use trusty_lk_nxp.Main.Loop.{Attentive, event_loop-ServerOk}
use trusty_lk_nxp.Main.Start.{Initial, StartLayout, start_services-ServerOk}

int_eq_zero : (rc : ℤ) → int_eq rc (pos 0) ≡ true → rc ≡ pos 0
int_eq_zero (pos n) h = ap pos (ground arith)
int_eq_zero (negsuc n) h = cc

module _ ⦃p : Platform⦄ where
  open p use {World, mach, mmap, err_generic, err_no_memory, list_entries}

  -- The secure RAM is mapped apart from the program's key buffer, wherever it is mapped.
  abbrev pub MappedApart : Type 0
  MappedApart =
      (w : World) (a : ℕ)
      → (mmap (caam_sec_ram_size mach) caam_sec_ram_mmio_id w).0 ≡ some a
      → StartLayout a

  pub record ErrorLaws : Type 0 where
    pub generic : err_generic ≢ pos 0
    pub no_memory : err_no_memory ≢ pos 0

  -- The driver and the services were started from `s` on, up to `t`.
  abbrev pub StartedUp : State → State → Type 0
  StartedUp s t =
      (u : State) × (init_caam_env s ≡ ok (pos 0) u)
      × ((hwrng_init_srv_provider >> hwkey_init_srv_provider) u ≡ ok tt t)

  -- how the program ends, as far as it is followed: in the loop, with the invariant, or with an error of
  -- the driver's start, before any call
  abbrev pub Ended : State → Option ℤ → State → Type 0
  Ended s r t =
      ServerOk t ⊎ (((r ≡ some err_generic) ⊎ (r ≡ some err_no_memory)) × (t.calls ≡ s.calls))

  Initial-Untouched : (layout : ServerLayout) (s t : State) → Initial s → Untouched s t → Initial t
  Initial-Untouched layout s t fine (mem, k) = record {
    no_rng_ctx = λ a. ap (λ k. k.hwrng_ctxs a) k ∙ fine.no_rng_ctx a;
    no_key_ctx = λ a. ap (λ k. k.hwkey_ctxs a) k ∙ fine.no_key_ctx a;
    no_request = ap (λ k. list_entries k.hwrng_req_list) k ∙ fine.no_request;
    no_key = λ i lo hi. mem i (ground (arith, layout.frame)) ∙ fine.no_key i lo hi;
  }

  -- no error of the driver is taken for a success
  failed_lem :
      (errors : ErrorLaws) (rc : ℤ)
      → (rc ≡ err_generic) ⊎ (rc ≡ err_no_memory)
      → int_eq rc (pos 0) ≡ true
      → ⊥
  failed_lem errors rc (inl e) h = errors.generic (sym e ∙ int_eq_zero rc h)
  failed_lem errors rc (inr e) h = errors.no_memory (sym e ∙ int_eq_zero rc h)

  some_error :
      (rc : ℤ)
      → (rc ≡ err_generic) ⊎ (rc ≡ err_no_memory)
      → (some rc ≡ some err_generic) ⊎ (some rc ≡ some err_no_memory)
  some_error rc (inl e) = inl (ap some e)
  some_error rc (inr e) = inr (ap some e)

  module _ (layout : ServerLayout) (within : WithinBuffer) (lists : ListLaws) (fits : ReqLenFits)
      (ipc : IpcLaws) (errors : ErrorLaws) (apart : MappedApart) (local_layout : StackLayout) where
    -- The program, from its static variables on and over any number of events, uses no context that is
    -- freed: it ends in the event loop with the invariant of the server, or with an error of the start of
    -- the driver, before any register is written. This is where the secure RAM is mapped apart from
    -- the key buffer, the buffers lie apart and those of the self tests in their frame, errors are not 0, the events name ports and open channels,
    -- and the library and the system calls keep their laws. It may stop by an assert or an abort, or
    -- wait for the device.
    pub main-Ended :
        (k : ℕ) (s : State)
        → Initial s
        → ((t : State) → StartedUp s t → Attentive t)
        → Safely (Ended s) (main k s)
    unfolding main
    main-Ended k s first attentive =
        bind (Ensures-run (init_caam_env-Opened within local_layout s))
          λ rc u ((untouched, end), run). elim (Bool-cases (int_eq rc (pos 0))) [
            | inl fine ↦ rw fine (elim end [
              | inl (e, running) ↦
                  served u (Initial-Untouched layout s u first untouched) running
                    (run ∙ ap (λ r. ok r u) e)
              | inr failed ↦ absurd (failed_lem errors rc (Unopened-error s rc u failed).0 fine)
            ])
            | inr bad ↦ rw bad (elim end [
              | inl (e, running) ↦ absurd (zero_lem rc e bad)
              | inr failed ↦
                  let (error, calls) = Unopened-error s rc u failed in
                  of_Returned _ _ (inr (some_error rc error, calls))
            ])
          ]
      where
        zero_lem : (rc : ℤ) → rc ≡ pos 0 → int_eq rc (pos 0) ≡ false → ⊥
        zero_lem rc e h =
            let h' : int_eq (pos 0) (pos 0) ≡ false = subst (λ r. int_eq r (pos 0) ≡ false) e h in
            cc

        served :
            (u : State)
            → Initial u
            → Running u
            → init_caam_env s ≡ ok (pos 0) u
            → Safely
                (Ended s)
                ((hwrng_init_srv_provider >> (hwkey_init_srv_provider >> event_loop k)) u)
        served u fine (_, _, _, (w, e)) run =
            subst (Ensures false (Ended s))
              (and_then_assoc (hwrng_init_srv_provider u) (λ _. hwkey_init_srv_provider)
                (λ _. event_loop k))
              (bind (Ensures-run (start_services-ServerOk u (apart w u.caam.sram_base e) fine))
                λ _ t (ready, run').
                  mono
                    (event_loop-ServerOk layout within lists fits ipc t (attentive t (u, run, run'))
                      k ready)
                    λ r v (reach, done). inl done)
