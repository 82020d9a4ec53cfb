-- ===== src/Hwkey/Clean.antt =====
-- The key buffer of app/hwcrypto/hwkey_srv.c, and the reply that is followed by its clearing.
use trusty_lk_nxp.Common.{ℕ, ◌+◌, ◌≤◌, ◌<◌, ◌≡◌, ◌∙◌, ◌⊎◌, inl, inr, Bool, arith, Bool-cases, ◌==◌}
use trusty_lk_nxp.Common.Int.{ℤ}
use trusty_lk_nxp.Common.Memory.{IsZeroed, SameOutside, memset}
use trusty_lk_nxp.Tipc.{tipc_send_two_segments}
use trusty_lk_nxp.Platform.{Platform, HwkeyMsg}
use trusty_lk_nxp.Machine.{and_then, ok, State, HwkeyChanCtx}
use trusty_lk_nxp.Machine.Outcome.{Ensures, of_Returned}
use trusty_lk_nxp.Caam.Frame.{kept}
use trusty_lk_nxp.Hwkey.Server.{sanitize_key_data, hwkey_send_rsp}

module _ ⦃p : Platform⦄ where
  open p use {hwkey_no_error, key_data, req_data}

  -- The key buffer is zero behind its first `n` bytes.
  abbrev pub ZeroFrom : ℕ → State → Type 0
  ZeroFrom n s = (i : ℕ) → key_data + n ≤ i → i < key_data + 2048 → s.mem i ≡ 0

  -- No key stands in the key buffer.
  abbrev pub IsClean : State → Type 0
  IsClean s = IsZeroed key_data 2048 s.mem

  -- The buffer is not at address 0, and no request is read into it.
  pub record KeyLayout : Type 0 where
    pub not_null : 0 < key_data
    pub apart : (key_data + 2048 ≤ req_data) ⊎ (req_data + 2049 ≤ key_data)

  -- What a handler promises of its status and of the length of its key: that is within the buffer,
  -- which is zero behind it, and a status that is not a success comes with no key.
  abbrev pub KeyWritten : State → ℕ × ℕ → State → Type 0
  KeyWritten s (status, klen) t =
      (klen ≤ 2048) × ZeroFrom klen t × ((klen ≡ 0) ⊎ (status ≡ hwkey_no_error)) × (kept t ≡ kept s)

  abbrev pub cleared : State → ℕ → State
  cleared s n = record s { mem = memset key_data 0 n s.mem }

  -- what is written to the front of a clean buffer leaves the rest of it clean
  pub ZeroFrom-SameOutside :
      (n : ℕ) (s t : State) → IsClean s → SameOutside key_data n s.mem t.mem → ZeroFrom n t
  ZeroFrom-SameOutside n s t clean same i lo hi = same i (inr lo) ∙ clean i (omega arith) hi

  pub IsClean-cleared : (n : ℕ) (s : State) → n ≤ 2048 → ZeroFrom n s → IsClean (cleared s n)
  unfolding memset
  IsClean-cleared n s h rest i lo hi = ground (arith, rest i)

  -- what a command leaves: a clean key buffer, and all else but the outside world and the buffers
  abbrev pub LeftClean : State → ℤ → State → Type 0
  LeftClean s rc t = IsClean t × (kept t ≡ kept s)

  -- the reply from the key buffer, with the clearing that follows it
  pub reply-LeftClean :
      {strict : Bool} (ctx : HwkeyChanCtx) (hdr : HwkeyMsg) (n : ℕ) (s t : State)
      → n ≤ 2048
      → ZeroFrom n t
      → kept t ≡ kept s
      → Ensures strict (LeftClean s) (
          and_then
            (hwkey_send_rsp ctx hdr key_data n t)
            λ rc u. and_then (sanitize_key_data n u) λ _ v. ok rc v)
  unfolding hwkey_send_rsp tipc_send_two_segments
  reply-LeftClean ctx hdr n s t h zero k = elim (Bool-cases (n == 0)) [
    | inl none_there ↦ rw none_there (of_Returned _ _ ((λ i lo hi. zero i (ground arith) hi), k))
    | inr some_there ↦ rw some_there (of_Returned _ _ (IsClean-cleared n t h zero, k))
  ]
