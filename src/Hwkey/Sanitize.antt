-- ===== src/Hwkey/Sanitize.antt =====
-- The key buffer of app/hwcrypto/hwkey_srv.c while a request for a key slot is answered
-- (_handle_slots, hwkey_handle_get_keyslot_cmd).
use trusty_lk_nxp.Common.{
  ℕ, ◌≡◌, refl, sym, ◌∙◌, ◌⊎◌, inl, inr, Bool, true, false, Option, none, some, List, arith,
  Bool-cases, ◌==◌, ◌&&◌, length,
}
use trusty_lk_nxp.Common.Memory.{store_bytes_outside}
use mathlib.Core.Path.{subst}
use trusty_lk_nxp.Platform.{Platform, HwkeyMsg}
use trusty_lk_nxp.Machine.{
  State, HwkeyKeyslot, HwkeyChanCtx, SlotHandler, get_rpmb_ss_auth_key_handler,
  get_unittest_key32_handler,
}
use trusty_lk_nxp.Machine.Outcome.{Ensures, returned, of_Returned, bind, mono}
use trusty_lk_nxp.Caam.Regs.{caam_success}
use trusty_lk_nxp.Caam.Device.{DeviceLaws}
use trusty_lk_nxp.Caam.Frame.{kept}
use trusty_lk_nxp.Caam.Operations.{caam_decap_blob-Ensures}
use trusty_lk_nxp.Hwkey.Provider.{get_rpmb_ss_auth_key}
use trusty_lk_nxp.Hwkey.Slots.{
  call_handler, get_unittest_key32, unittest_key32, handle_slots, test_key_slots,
}
use trusty_lk_nxp.Hwkey.Lookup.{
  installed, granted, and-right, answer, handle_slots-granted, SlotsCounted,
}
use trusty_lk_nxp.Hwkey.Server.{find_key, hwkey_handle_get_keyslot_cmd}
use trusty_lk_nxp.Hwkey.Clean.{
  ZeroFrom-SameOutside, ZeroFrom, reply-LeftClean, IsClean, IsClean-cleared, LeftClean, KeyLayout,
  KeyWritten,
}

module _ ⦃p : Platform⦄ where
  open p use {
    hwkey_no_error, hwkey_err_not_found, key_data, rpmb_keyblob, skeymod, with_hwcrypto_unittest,
    found_ne_not_found,
  }

  module _ {strict : Bool} (laws : strict ≡ true → DeviceLaws) (layout : KeyLayout) where
    get_rpmb_ss_auth_key-KeyWritten :
        (s : State)
        → IsClean s
        → Ensures strict (KeyWritten s) (get_rpmb_ss_auth_key key_data 2048 0 s)
    unfolding get_rpmb_ss_auth_key
    get_rpmb_ss_auth_key-KeyWritten s clean = elim (Bool-cases (s.rpmb_keyblob_len == 80)) [
      | inr none_there ↦
          rw none_there
            (of_Returned _ _ (omega arith, (λ i lo hi. clean i (omega arith) hi), inl refl, refl))
      | inl there ↦ rw there (
          bind (caam_decap_blob-Ensures laws skeymod key_data rpmb_keyblob 32 s (omega arith))
            λ res t ((same, k), _, _). elim (Bool-cases (res == caam_success)) [
              | inl fine ↦ rw fine (
                  of_Returned _ _
                    (omega arith, ZeroFrom-SameOutside 32 s t clean same, inr refl, k))
              | inr bad ↦ rw bad (
                  of_Returned _ _ (
                    omega arith,
                    λ i lo hi.
                        IsClean-cleared 32 t (omega arith) (ZeroFrom-SameOutside 32 s t clean same)
                          i (omega arith) hi,
                    inl refl,
                    k,
                  ))
            ])
    ]

    get_unittest_key32-KeyWritten :
        (s : State)
        → IsClean s
        → Ensures strict (KeyWritten s) (get_unittest_key32 key_data 2048 0 s)
    unfolding get_unittest_key32
    get_unittest_key32-KeyWritten s clean =
        let h : (key_data == 0) ≡ false = ground (arith, layout.not_null) in
        rw h (
          of_Returned _ _ (
            omega arith,
            (λ i lo hi.
                store_bytes_outside key_data unittest_key32 s.mem i (inr lo)
                ∙ clean i (omega arith) hi),
            inr refl,
            refl,
          ))

    -- Every handler that a key slot may name keeps the promise.
    pub call_handler-KeyWritten :
        (h : SlotHandler) (s : State)
        → IsClean s
        → Ensures strict (KeyWritten s) (call_handler h key_data 2048 0 s)
    unfolding call_handler
    call_handler-KeyWritten get_rpmb_ss_auth_key_handler s clean =
        get_rpmb_ss_auth_key-KeyWritten s clean
    call_handler-KeyWritten get_unittest_key32_handler s clean =
        get_unittest_key32-KeyWritten s clean

    answer-KeyWritten :
        (o : Option SlotHandler) (s : State)
        → IsClean s
        → Ensures strict (KeyWritten s) (answer o key_data 2048 0 s)
    answer-KeyWritten none s clean =
        returned (omega arith, (λ i lo hi. clean i (omega arith) hi), inl refl, refl)
    answer-KeyWritten (some h) s clean = call_handler-KeyWritten h s clean

    handle_slots-KeyWritten :
        (ctx : HwkeyChanCtx) (slot_id : List ℕ) (slots : Option (List HwkeyKeyslot)) (s : State)
        → IsClean s
        → Ensures strict
            (KeyWritten s)
            (handle_slots ctx slot_id slots (length (installed slots)) key_data 2048 0 s)
    handle_slots-KeyWritten ctx slot_id slots s clean =
        rw (handle_slots-granted ctx slot_id slots key_data 2048 0 s)
          (answer-KeyWritten (granted ctx.uuid slot_id (installed slots)) s clean)

    no_key :
        (n status : ℕ)
        → (n ≡ 0) ⊎ (status ≡ hwkey_no_error)
        → (status == hwkey_err_not_found) ≡ true
        → n ≡ 0
    no_key n status (inl e) h = e
    no_key n status (inr e) h = absurd (found_ne_not_found (ground arith))

    find_key-KeyWritten :
        (ctx : HwkeyChanCtx) (slot_id : List ℕ) (s : State)
        → SlotsCounted s
        → IsClean s
        → Ensures strict (KeyWritten s) (find_key ctx slot_id s)
    unfolding find_key
    find_key-KeyWritten ctx slot_id s counted clean = bind first λ (status, n) t (h, zero, kind, k).
        elim (Bool-cases (with_hwcrypto_unittest && (status == hwkey_err_not_found))) [
          | inr other ↦ rw other (of_Returned _ _ (h, zero, kind, k))
          | inl again ↦
              rw again (second status n t zero (no_key n status kind (and-right _ _ again)) k)
        ]
      where
        first :
            Ensures strict
              (KeyWritten s)
              (handle_slots ctx slot_id s.key_slots s.key_slot_cnt key_data 2048 0 s)
        first =
            subst
              (λ n.
                Ensures strict (KeyWritten s)
                  (handle_slots ctx slot_id s.key_slots n key_data 2048 0 s))
              (sym counted) (handle_slots-KeyWritten ctx slot_id s.key_slots s clean)

        second :
            (status n : ℕ) (t : State)
            → ZeroFrom n t
            → n ≡ 0
            → kept t ≡ kept s
            → Ensures strict
                (KeyWritten s)
                (handle_slots ctx slot_id (some test_key_slots) 1 key_data 2048 n t)
        second status n t zero e k =
            subst
              (λ m.
                Ensures strict (KeyWritten s)
                  (handle_slots ctx slot_id (some test_key_slots) 1 key_data 2048 m t))
              (sym e)
              (mono
                (handle_slots-KeyWritten ctx slot_id (some test_key_slots) t
                  (λ i lo hi. zero i (omega arith) hi))
                λ r u (h, z, kind, k'). (h, z, kind, k' ∙ k))

    -- The answer to a request for a key slot leaves no byte of the key behind, whichever handler has
    -- run, and whether or not the reply was sent.
    pub hwkey_handle_get_keyslot_cmd-LeftClean :
        (ctx : HwkeyChanCtx) (hdr : HwkeyMsg) (slot_id : List ℕ) (s : State)
        → SlotsCounted s
        → IsClean s
        → Ensures strict (LeftClean s) (hwkey_handle_get_keyslot_cmd ctx hdr slot_id s)
    unfolding hwkey_handle_get_keyslot_cmd
    hwkey_handle_get_keyslot_cmd-LeftClean ctx hdr slot_id s counted clean =
        bind (find_key-KeyWritten ctx slot_id s counted clean) λ (status, n) t (h, zero, kind, k).
          reply-LeftClean ctx (record hdr { status = status }) n s t h zero k
