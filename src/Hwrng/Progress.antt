-- ===== src/Hwrng/Progress.antt =====
-- Passes over the queue of app/hwcrypto/hwrng_srv.c while the messages get through: every request is
-- served to its end.
use trusty_lk_nxp.Common.{ℕ, zero, suc, ◌≡◌, refl, sym, Bool, true, false, List, [], ◌∷◌, arith}
use mathlib.Core.Path.{subst}
use trusty_lk_nxp.Platform.{Platform}
use trusty_lk_nxp.Machine.{State, Cmd, skip, ◌>>=◌}
use trusty_lk_nxp.Machine.Outcome.{Ensures, returned, bind, mono}
use trusty_lk_nxp.Caam.Device.{DeviceLaws, WithinBuffer}
use trusty_lk_nxp.Hwrng.Links.{contains, ListLaws}
use trusty_lk_nxp.Hwrng.Server.{hwrng_handle_req_queue}
use trusty_lk_nxp.Hwrng.Queue.{entries}
use trusty_lk_nxp.Hwrng.Rounds.{SendsSucceed, Due, Half, Rounds, serve_requests-Half}

module _ ⦃p : Platform⦄ where
  -- `k` passes over the queue, one for each event that comes
  abbrev pub passes : ℕ → Cmd (Unit {0})
  passes zero = skip
  passes (suc k) = hwrng_handle_req_queue >>= λ more. passes k

  -- the start of a pass
  pub Due-Half : (k : ℕ) (s : State) → Due (suc k) s → Half k (entries s) s
  Due-Half k s (fine, due) = (
    fine,
    (λ b h. h),
    λ b ctx h e.
        let (free, some_left, size) = due b ctx h e in
        (free, subst (λ c. Rounds k c ctx) (sym h) size),
  )

  no_entry : (l : List ℕ) → ((b : ℕ) → contains b l ≡ true → ⊥) → l ≡ []
  no_entry [] h = refl
  no_entry (a ∷ l) h = absurd (h a (ground arith))

  module _ (sends : SendsSucceed) (lists : ListLaws) (within : WithinBuffer) {strict : Bool}
      (laws : strict ≡ true → DeviceLaws) where
    pub hwrng_handle_req_queue-Due :
        (k : ℕ) (s : State)
        → Due (suc k) s
        → Ensures strict (λ _ t. Due k t) (hwrng_handle_req_queue s)
    unfolding hwrng_handle_req_queue
    hwrng_handle_req_queue-Due k s due =
        mono
          (serve_requests-Half sends lists within laws k (entries s) false s due.0.2
            (Due-Half k s due))
          λ more t (fine', ahead, due').
            (fine', λ b ctx h e. let r = due' b ctx h e in (r.0, r.1.0, r.1.1))

    -- Where there is room for every message and no channel waits for room, k passes over a well-formed
    -- queue whose requests are of at most 4096 k bytes each serve them all: the queue is empty then, and
    -- still every pass uses no freed context. Under the laws of the device the passes come to their
    -- end; without them they may also stop by an assert or wait for ever.
    pub entries-passes :
        (k : ℕ) (s : State) → Due k s → Ensures strict (λ _ t. entries t ≡ []) (passes k s)
    entries-passes zero s (fine, due) = returned (
        no_entry (entries s) λ b h.
          let (ctx, e) = fine.1 b h in
          let (free, some_left, size) = due b ctx h e in omega (arith, some_left))
    entries-passes (suc k) s due =
        bind (hwrng_handle_req_queue-Due k s due) λ more t due'. entries-passes k t due'
