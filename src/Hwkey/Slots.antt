-- ===== src/Hwkey/Slots.antt =====
-- The key slots of app/hwcrypto/hwkey_srv.c, with the handlers that a slot may name.
use trusty_lk_nxp.Common.{
  ℕ, zero, suc, not, Option, none, some, List, [], ◌∷◌, leb, ◌==◌, if◌then◌else◌, bytes_eq, codes,
}
use trusty_lk_nxp.Common.Memory.{store_bytes}
use trusty_lk_nxp.Platform.{Platform}
use trusty_lk_nxp.Machine.{
  SlotHandler, get_rpmb_ss_auth_key_handler, get_unittest_key32_handler, HwkeyKeyslot, HwkeyChanCtx,
  fault, Cmd, pure, assert, modify, ◌>>◌,
}
use trusty_lk_nxp.Hwkey.Provider.{get_rpmb_ss_auth_key}

abbrev pub unittest_key32 : List ℕ
unittest_key32 = codes "unittestkeyslotunittestkeyslotun"

module _ ⦃p : Platform⦄ where
  open p use {
    hwkey_no_error, hwkey_err_not_found, hwcrypto_unittest_app_uuid, secure_storage_server_app_uuid,
  }

  unfoldable pub get_unittest_key32 : (kbuf kbuf_len klen : ℕ) → Cmd (ℕ × ℕ)
  get_unittest_key32 kbuf kbuf_len klen = do
    assert (not (kbuf == 0))
    assert (leb 32 kbuf_len)
    modify (λ s. record s { mem = store_bytes kbuf unittest_key32 s.mem })
    pure (hwkey_no_error, 32)

  abbrev pub test_key_slots : List HwkeyKeyslot
  test_key_slots =
      record {
        key_id = codes "com.android.trusty.hwcrypto.unittest.key32";
        uuid = hwcrypto_unittest_app_uuid;
        handler = some get_unittest_key32_handler;
      }
      ∷ []

  -- _keys of hwkey_srv_provider.c
  abbrev pub provider_keys : List HwkeyKeyslot
  provider_keys =
      record {
        key_id = codes "com.android.trusty.storage_auth.rpmb";
        uuid = secure_storage_server_app_uuid;
        handler = some get_rpmb_ss_auth_key_handler;
      }
      ∷ []

  -- a call through the function pointer of a slot
  unfoldable pub call_handler : SlotHandler → (kbuf kbuf_len klen : ℕ) → Cmd (ℕ × ℕ)
  call_handler get_rpmb_ss_auth_key_handler = get_rpmb_ss_auth_key
  call_handler get_unittest_key32_handler = get_unittest_key32

  -- The loop of `_handle_slots` over `slot_cnt` slots; a count past the array is a bad access.
  unfoldable pub handle_slots_loop :
      HwkeyChanCtx
      → (slot_id : List ℕ) → (slot_cnt : ℕ) → List HwkeyKeyslot
      → (kbuf kbuf_len klen : ℕ) → Cmd (ℕ × ℕ)
  handle_slots_loop ctx slot_id zero slots kbuf kbuf_len klen = pure (hwkey_err_not_found, klen)
  handle_slots_loop ctx slot_id (suc n) [] kbuf kbuf_len klen = fault
  handle_slots_loop ctx slot_id (suc n) (slot ∷ slots) kbuf kbuf_len klen =
      let next = handle_slots_loop ctx slot_id n slots kbuf kbuf_len klen in
      if not (bytes_eq slot.key_id slot_id)
      then next
      else if bytes_eq ctx.uuid slot.uuid
      then elim slot.handler [ none ↦ next | some h ↦ call_handler h kbuf kbuf_len klen ]
      else next

  -- The results are the status and `*klen`.
  unfoldable pub handle_slots :
      HwkeyChanCtx
      → (slot_id : List ℕ) → Option (List HwkeyKeyslot)
      → (slot_cnt : ℕ) → (kbuf kbuf_len klen : ℕ) → Cmd (ℕ × ℕ)
  unfolding handle_slots_loop
  handle_slots ctx slot_id none slot_cnt kbuf kbuf_len klen = pure (hwkey_err_not_found, klen)
  handle_slots ctx slot_id (some slots) slot_cnt kbuf kbuf_len klen =
      handle_slots_loop ctx slot_id slot_cnt slots kbuf kbuf_len klen
