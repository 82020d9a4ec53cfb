-- ===== src/Caam/Frame.antt =====
-- What the functions of app/hwcrypto/caam.c leave alone.
use trusty_lk_nxp.Common.{ℕ, ◌+◌, ◌≤◌, ◌<◌, ◌≡◌, refl, ◌∙◌, ◌⊎◌, Option, List}
use trusty_lk_nxp.Common.Int.{ℤ}
use trusty_lk_nxp.Common.Memory.{SameOutside}
use trusty_lk_nxp.Platform.{Platform}
use trusty_lk_nxp.Machine.{State, HwrngChanCtx, HwkeyChanCtx, HwkeyKeyslot}

module _ ⦃p : Platform⦄ where
  open p use {Links}

  -- what the driver's functions do not change once the server is up
  pub record Kept : Type 0 where
    pub caam_base : ℕ
    pub ccm_base : ℕ
    pub sram_base : ℕ
    pub g_rings : ℕ
    pub g_job : ℕ
    pub hwrng_ctxs : ℕ → Option HwrngChanCtx
    pub hwrng_req_list : Links
    pub hwrng_port : ℤ
    pub hwkey_ctxs : ℕ → Option HwkeyChanCtx
    pub key_slots : Option (List HwkeyKeyslot)
    pub key_slot_cnt : ℕ
    pub rpmb_keyblob_len : ℕ

  abbrev pub kept : State → Kept
  kept s = record {
    caam_base = s.caam.caam_base;
    ccm_base = s.caam.ccm_base;
    sram_base = s.caam.sram_base;
    g_rings = s.caam.g_rings;
    g_job = s.caam.g_job;
    hwrng_ctxs = s.hwrng_ctxs;
    hwrng_req_list = s.hwrng_req_list;
    hwrng_port = s.hwrng_port;
    hwkey_ctxs = s.hwkey_ctxs;
    key_slots = s.key_slots;
    key_slot_cnt = s.key_slot_cnt;
    rpmb_keyblob_len = s.rpmb_keyblob_len;
  }

  -- Two states differ at most in the driver's ring and job, in the outside world and the calls made to
  -- it, and in the bytes of one buffer.
  abbrev pub Frame : (a n : ℕ) (s t : State) → Type 0
  Frame a n s t = SameOutside a n s.mem t.mem × (kept t ≡ kept s)

  pub Frame-refl : (a n : ℕ) (s : State) → Frame a n s s
  Frame-refl a n s = (λ i out. refl, refl)

  -- A frame of a range is one of any larger range.
  pub Frame-widen :
      (a n b m : ℕ) (s t : State)
      → ((i : ℕ) → (i < b) ⊎ (b + m ≤ i) → (i < a) ⊎ (a + n ≤ i))
      → Frame a n s t
      → Frame b m s t
  Frame-widen a n b m s t out f = (λ i o. f.0 i (out i o), f.1)

  pub Frame-trans : (a n : ℕ) (s t u : State) → Frame a n s t → Frame a n t u → Frame a n s u
  Frame-trans a n s t u f g = (λ i o. g.0 i o ∙ f.0 i o, g.1 ∙ f.1)
