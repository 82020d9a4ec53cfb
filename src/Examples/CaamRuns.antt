-- ===== src/Examples/CaamRuns.antt =====
-- Runs of the CAAM driver on the concrete platform.
use trusty_lk_nxp.Common.{true, ◌≡◌, [], ◌∷◌, arith}
use trusty_lk_nxp.Machine.{State}
use trusty_lk_nxp.Machine.Outcome.{Ensures}
use trusty_lk_nxp.Caam.Ring.{run_job}
use trusty_lk_nxp.Caam.Jobs.{decap_dsc, gen_dsc}
use trusty_lk_nxp.Caam.Protocol.{JobDone, run_job-Ensures}
use trusty_lk_nxp.Caam.Descriptors.{blob_dsc_lengths}
use trusty_lk_nxp.Examples.Sim.{sim, sim_laws, sim_state}

abbrev start : State ⦃p = sim⦄
start = sim_state []

run_job-Ensures_example :
    Ensures true (JobDone {strict = true} (λ e. sim_laws) start) (run_job start)
run_job-Ensures_example = run_job-Ensures {strict = true} (λ e. sim_laws) start

blob_dsc_lengths_example :
    (decap_dsc 0x1000 0x2000 0x3000 32
      ≡ 0xB0800008 ∷ 0x14400010 ∷ 0x1000 ∷ 0xF0000050 ∷ 0x2000 ∷ 0xF8000020 ∷ 0x3000 ∷ 0x860D0000
        ∷ [])
    × (gen_dsc 0x1000 0x2000 0x3000 32
        ≡ 0xB0800008 ∷ 0x14400010 ∷ 0x1000 ∷ 0xF0000020 ∷ 0x2000 ∷ 0xF8000050 ∷ 0x3000 ∷ 0x870D0000
          ∷ [])
blob_dsc_lengths_example = blob_dsc_lengths 0x1000 0x2000 0x3000 32 (omega arith)
