-- ===== src/Hwkey/Messages.antt =====
-- The messages of app/hwcrypto/hwkey_srv.c (hwkey_chan_handle_msg and hwkey_handle_derive_key_cmd)
-- and the key buffer.
use trusty_lk_nxp.Common.{
  ℕ, ◌+◌, ◌-◌, ◌%◌, ◌^◌, ◌≤◌, ◌<◌, ◌≡◌, refl, sym, ap, ◌∙◌, length, inl, inr, Bool, true, false,
  List, arith, Bool-cases, ◌==◌, if◌then◌else◌,
}
use trusty_lk_nxp.Common.Int.{ℤ, pos, negsuc, is_negative, to_size}
use trusty_lk_nxp.Common.Memory.{
  memset, SameOutside-memset, store_bytes, store_bytes_outside, load_bytes,
}
use trusty_lk_nxp.Platform.{Platform, HwkeyMsg, Uuid}
use trusty_lk_nxp.Machine.{State, HwkeyChanCtx}
use trusty_lk_nxp.Machine.Outcome.{Ensures, of_Returned, bind, mono}
use trusty_lk_nxp.Caam.Device.{DeviceLaws}
use trusty_lk_nxp.Caam.Frame.{kept}
use trusty_lk_nxp.Tipc.{tipc_send_two_segments}
use trusty_lk_nxp.Tipc.Receive.{IpcLaws, CountWithin, tipc_recv_two_segments-Ensures}
use trusty_lk_nxp.Hwkey.Provider.{derive_key_v1}
use trusty_lk_nxp.Hwkey.Lookup.{installed, SlotsCounted}
use trusty_lk_nxp.Hwkey.Sanitize.{hwkey_handle_get_keyslot_cmd-LeftClean}
use trusty_lk_nxp.Hwkey.Clean.{
  KeyLayout, IsClean, KeyWritten, LeftClean, IsClean-cleared, reply-LeftClean,
}
use trusty_lk_nxp.Hwkey.Server.{
  derive_key, hwkey_handle_derive_key_cmd, hwkey_send_rsp, hwkey_dispatch, hwkey_chan_handle_msg,
}

module _ ⦃p : Platform⦄ where
  open p use {
    hkdf, hkdf_length, kdfv1_key, key_data, req_data, hwkey_msg_size, hwkey_get_keyslot,
    hwkey_derive, hwkey_kdf_version_1, hwkey_kdf_version_best,
  }

  -- the bytes that HKDF derives
  abbrev pub derived : Uuid → (ikm_data ikm_len : ℕ) → State → List ℕ
  derived uuid ikm n s =
      (hkdf n (load_bytes kdfv1_key 32 s.mem) uuid (load_bytes ikm n s.mem) s.world).0.1

  abbrev pub stored : Uuid → (ikm_data ikm_len : ℕ) → State → State
  stored uuid ikm n s = record s { mem = store_bytes key_data (derived uuid ikm n s) s.mem }

  -- the bytes that HKDF derives, and nothing else, are stored
  derived_outside :
      (uuid : Uuid) (ikm n : ℕ) (s : State) (i : ℕ)
      → key_data + n ≤ i
      → store_bytes key_data (derived uuid ikm n s) s.mem i ≡ s.mem i
  derived_outside uuid ikm n s i h = store_bytes_outside key_data (derived uuid ikm n s) s.mem i (
      inr (
        omega (
          arith,
          h,
          hkdf_length n (load_bytes kdfv1_key 32 s.mem) uuid (load_bytes ikm n s.mem) s.world,
        )))

  -- the version of the derivation that is used
  abbrev pub version : HwkeyMsg → ℕ
  version hdr = if hdr.arg1 == hwkey_kdf_version_best then hwkey_kdf_version_1 else hdr.arg1

  module _ {strict : Bool} where
    derive_key_v1-KeyWritten :
        (uuid : Uuid) (ikm n : ℕ) (s : State)
        → n ≤ 2048
        → IsClean s
        → Ensures strict (KeyWritten s) (derive_key_v1 uuid ikm n key_data s)
    unfolding derive_key_v1
    derive_key_v1-KeyWritten uuid ikm n s h clean = elim (Bool-cases (n == 0)) [
      | inl empty ↦
          rw empty
            (of_Returned _ _ (omega arith, (λ i lo hi. clean i (omega arith) hi), inl refl, refl))
      | inr some_there ↦
          rw some_there
            (elim (Bool-cases
              (hkdf n (load_bytes kdfv1_key 32 s.mem) uuid (load_bytes ikm n s.mem) s.world).0.0) [
                | inl fine ↦ rw fine (of_Returned _ _ (h, rest, inr refl, refl))
                | inr bad ↦ rw bad (
                    of_Returned _ _ (
                      omega arith,
                      (λ i lo hi.
                          IsClean-cleared n (stored uuid ikm n s) h rest i (omega arith) hi),
                      inl refl,
                      refl,
                    ))
              ])
    ]
      where
        rest :
            (i : ℕ)
            → key_data + n ≤ i
            → i < key_data + 2048
            → store_bytes key_data (derived uuid ikm n s) s.mem i ≡ 0
        rest i lo hi = derived_outside uuid ikm n s i lo ∙ clean i (omega arith) hi

    derive_key-KeyWritten :
        (ctx : HwkeyChanCtx) (hdr : HwkeyMsg) (ikm n : ℕ) (s : State)
        → n ≤ 2048
        → IsClean s
        → Ensures strict
            (λ (hdr', klen) t. KeyWritten s (hdr'.status, klen) t)
            (derive_key ctx hdr ikm n s)
    unfolding derive_key
    derive_key-KeyWritten ctx hdr ikm n s h clean =
        elim (Bool-cases (version hdr == hwkey_kdf_version_1)) [
          | inl known ↦ rw known (
              bind (derive_key_v1-KeyWritten ctx.uuid ikm n s h clean)
                λ r t written. of_Returned _ _ written)
          | inr other ↦
              rw other (
                of_Returned _ _
                  (omega arith, (λ i lo hi. clean i (omega arith) hi), inl refl, refl))
        ]

    -- The answer to a request for a derived key leaves no byte of the key behind.
    pub hwkey_handle_derive_key_cmd-LeftClean :
        (ctx : HwkeyChanCtx) (hdr : HwkeyMsg) (ikm n : ℕ) (s : State)
        → n ≤ 2048
        → IsClean s
        → Ensures strict (LeftClean s) (hwkey_handle_derive_key_cmd ctx hdr ikm n s)
    unfolding hwkey_handle_derive_key_cmd
    hwkey_handle_derive_key_cmd-LeftClean ctx hdr ikm n s h clean =
        bind (derive_key-KeyWritten ctx hdr ikm n s h clean)
          λ (hdr', klen) t (h', zero, kind, k). reply-LeftClean ctx hdr' klen s t h' zero k

  -- bytes of the request buffer that are set do not touch the key buffer
  IsClean-request :
      (a n : ℕ) (s : State)
      → KeyLayout
      → req_data ≤ a
      → a + n ≤ req_data + 2049
      → IsClean s
      → IsClean (record s { mem = memset a 0 n s.mem })
  IsClean-request a n s layout lo' hi' clean i lo hi =
      SameOutside-memset a 0 n s.mem i (ground (arith, layout.apart)) ∙ clean i lo hi

  pub SlotsCounted-kept : (s t : State) → kept t ≡ kept s → SlotsCounted s → SlotsCounted t
  SlotsCounted-kept s t e counted =
      ap (λ k. k.key_slot_cnt) e ∙ counted ∙ sym (ap (λ k. length (installed k.key_slots)) e)

  pub payload_length :
      (rc : ℤ) (size : ℕ)
      → CountWithin size (size + 2048) rc
      → is_negative rc ≡ false
      → (to_size rc + 2 ^ 32 - size) % 2 ^ 32 ≤ 2048
  payload_length (pos k) size (lo, hi) h = omega arith
  payload_length (negsuc k) size within h = cc

  module _ {strict : Bool} (laws : strict ≡ true → DeviceLaws) (layout : KeyLayout) where
    pub hwkey_dispatch-LeftClean :
        (ctx : HwkeyChanCtx) (hdr : HwkeyMsg) (n : ℕ) (s : State)
        → n ≤ 2048
        → SlotsCounted s
        → IsClean s
        → Ensures strict (LeftClean s) (hwkey_dispatch ctx hdr n s)
    unfolding hwkey_dispatch hwkey_send_rsp tipc_send_two_segments
    hwkey_dispatch-LeftClean ctx hdr n s h counted clean =
        elim (Bool-cases (hdr.cmd == hwkey_get_keyslot)) [
          | inl slot ↦ rw slot (
              hwkey_handle_get_keyslot_cmd-LeftClean laws layout ctx hdr _
                (record s { mem = memset (req_data + n) 0 1 s.mem }) counted
                (IsClean-request (req_data + n) 1 s layout (omega arith) (omega arith) clean))
          | inr other ↦ rw other (elim (Bool-cases (hdr.cmd == hwkey_derive)) [
            | inl derive ↦ rw derive (
                bind (hwkey_handle_derive_key_cmd-LeftClean ctx hdr req_data n s h clean)
                  λ rc t (clean', k).
                    of_Returned _ _
                      (IsClean-request req_data n t layout (omega arith) (omega arith) clean', k))
            | inr unknown ↦ rw unknown (of_Returned _ _ (clean, refl))
          ])
        ]

    -- A message of a client, whatever it asks for and however it is answered, leaves the key buffer
    -- with no byte of a key in it, and changes nothing that is kept from message to message, where
    -- the buffer was clean before, the key slots are as many as are counted, requests are read
    -- apart from the key buffer, and the IPC calls keep their laws. Under the laws of the device it
    -- is handled to its end; without them it may also stop by an assert or wait for ever.
    pub hwkey_chan_handle_msg-LeftClean :
        (ipc : IpcLaws) (ctx : HwkeyChanCtx) (s : State)
        → SlotsCounted s
        → IsClean s
        → Ensures strict (LeftClean s) (hwkey_chan_handle_msg ctx s)
    unfolding hwkey_chan_handle_msg
    hwkey_chan_handle_msg-LeftClean ipc ctx s counted clean =
        bind (tipc_recv_two_segments-Ensures ipc ctx.chan hwkey_msg_size req_data 2048 s)
          λ (rc, hdr) t ((same, k), count, back).
            let clean' : IsClean t =
              λ i lo hi. same i (ground (arith, layout.apart)) ∙ clean i lo hi in
            elim (Bool-cases (is_negative rc)) [
              | inl bad ↦ rw bad (of_Returned _ _ (clean', k))
              | inr got ↦ rw got (
                  mono
                    (hwkey_dispatch-LeftClean ctx _ _ t (payload_length rc hwkey_msg_size count got)
                      (SlotsCounted-kept s t k counted) clean')
                    λ rc' u (clean'', k'). (clean'', k' ∙ k))
            ]
