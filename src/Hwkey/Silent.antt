-- ===== src/Hwkey/Silent.antt =====
-- Nothing is sent while a key is looked up or derived (app/hwcrypto/hwkey_srv.c and
-- app/hwcrypto/hwkey_srv_provider.c).
use trusty_lk_nxp.Common.{
  ℕ, zero, suc, ◌≡◌, refl, inl, inr, Option, none, some, List, [], ◌∷◌, Bool-cases, Option-cases,
  ◌==◌, ◌&&◌, leb, bytes_eq, length, if◌then◌else◌,
}
use trusty_lk_nxp.Common.Memory.{load_bytes}
use trusty_lk_nxp.Platform.{Platform, HwkeyMsg, Uuid}
use trusty_lk_nxp.Machine.{
  State, HwkeyChanCtx, HwkeyKeyslot, SlotHandler, get_rpmb_ss_auth_key_handler,
  get_unittest_key32_handler,
}
use trusty_lk_nxp.Machine.Outcome.{
  Partial, if_returned, if_aborted, if_fault, Partial-bind, Partial-mono,
}
use trusty_lk_nxp.Machine.Sent.{IsSilent, IsSilent-trans}
use trusty_lk_nxp.Caam.Regs.{caam_success}
use trusty_lk_nxp.Caam.Silent.{caam_decap_blob-IsSilent}
use trusty_lk_nxp.Hwkey.Provider.{
  rpmb_ss_auth_key_size, rpmbkey_len, get_rpmb_ss_auth_key, derive_key_v1,
}
use trusty_lk_nxp.Hwkey.Slots.{
  get_unittest_key32, call_handler, handle_slots_loop, handle_slots, test_key_slots,
}
use trusty_lk_nxp.Hwkey.Server.{find_key, derive_key}

module _ ⦃p : Platform⦄ where
  open p use {
    with_hwcrypto_unittest, hkdf, kdfv1_key, skeymod, rpmb_keyblob, hwkey_err_not_found, key_data,
    hwkey_kdf_version_best, hwkey_kdf_version_1,
  }

  get_rpmb_ss_auth_key-IsSilent :
      (kbuf kbuf_len klen : ℕ) (s : State)
      → Partial (λ _ t. IsSilent s t) (get_rpmb_ss_auth_key kbuf kbuf_len klen s)
  unfolding get_rpmb_ss_auth_key
  get_rpmb_ss_auth_key-IsSilent kbuf kbuf_len klen s = elim (Bool-cases (leb 32 kbuf_len)) [
    | inr short ↦ rw short if_aborted
    | inl room ↦ rw room (elim (Bool-cases (s.rpmb_keyblob_len == rpmbkey_len)) [
      | inr missing ↦ rw missing (if_returned refl)
      | inl there ↦ rw there (
          Partial-bind (caam_decap_blob-IsSilent skeymod kbuf rpmb_keyblob rpmb_ss_auth_key_size s)
            λ res t silent. elim (Bool-cases (res == caam_success)) [
              | inl fine ↦ rw fine (if_returned silent)
              | inr bad ↦ rw bad (if_returned silent)
            ])
    ])
  ]

  call_handler-IsSilent :
      (h : SlotHandler) (kbuf kbuf_len klen : ℕ) (s : State)
      → Partial (λ _ t. IsSilent s t) (call_handler h kbuf kbuf_len klen s)
  unfolding call_handler get_unittest_key32
  call_handler-IsSilent get_rpmb_ss_auth_key_handler kbuf kbuf_len klen s =
      get_rpmb_ss_auth_key-IsSilent kbuf kbuf_len klen s
  call_handler-IsSilent get_unittest_key32_handler kbuf kbuf_len klen s =
      elim (Bool-cases (kbuf == 0)) [
        | inl null ↦ rw null if_aborted
        | inr there ↦ rw there (elim (Bool-cases (leb 32 kbuf_len)) [
          | inr short ↦ rw short if_aborted
          | inl room ↦ rw room (if_returned refl)
        ])
      ]

  module _ (ctx : HwkeyChanCtx) (slot_id : List ℕ) (kbuf kbuf_len klen : ℕ) where
    handle_slots_loop-IsSilent :
        (n : ℕ) (slots : List HwkeyKeyslot) (s : State)
        → Partial (λ _ t. IsSilent s t) (handle_slots_loop ctx slot_id n slots kbuf kbuf_len klen s)
    unfolding handle_slots_loop
    handle_slots_loop-IsSilent zero slots s = if_returned refl
    handle_slots_loop-IsSilent (suc n) [] s = if_fault
    handle_slots_loop-IsSilent (suc n) (slot ∷ slots) s =
        elim (Bool-cases (bytes_eq slot.key_id slot_id)) [
          | inr other ↦ rw other (handle_slots_loop-IsSilent n slots s)
          | inl this ↦ rw this (elim (Bool-cases (bytes_eq ctx.uuid slot.uuid)) [
            | inr foreign ↦ rw foreign (handle_slots_loop-IsSilent n slots s)
            | inl own ↦ rw own (elim (Option-cases slot.handler) [
              | inl empty ↦ rw empty (handle_slots_loop-IsSilent n slots s)
              | inr (h, e) ↦ rw e (call_handler-IsSilent h kbuf kbuf_len klen s)
            ])
          ])
        ]

    handle_slots-IsSilent :
        (slots : Option (List HwkeyKeyslot)) (n : ℕ) (s : State)
        → Partial (λ _ t. IsSilent s t) (handle_slots ctx slot_id slots n kbuf kbuf_len klen s)
    unfolding handle_slots
    handle_slots-IsSilent none n s = if_returned refl
    handle_slots-IsSilent (some slots) n s = handle_slots_loop-IsSilent n slots s

  pub find_key-IsSilent :
      (ctx : HwkeyChanCtx) (slot_id : List ℕ) (s : State)
      → Partial (λ _ t. IsSilent s t) (find_key ctx slot_id s)
  unfolding find_key
  find_key-IsSilent ctx slot_id s =
      Partial-bind (handle_slots-IsSilent ctx slot_id key_data 2048 0 s.key_slots s.key_slot_cnt s)
        λ (status, klen) t silent.
          elim (Bool-cases (with_hwcrypto_unittest && (status == hwkey_err_not_found))) [
            | inr found ↦ rw found (if_returned silent)
            | inl search ↦ rw search (
                Partial-mono
                  (handle_slots-IsSilent ctx slot_id key_data 2048 klen (some test_key_slots)
                    (length test_key_slots) t)
                  λ _ u silent'. IsSilent-trans s t u silent silent')
          ]

  derive_key_v1-IsSilent :
      (uuid : Uuid) (ikm n buf : ℕ) (s : State)
      → Partial (λ _ t. IsSilent s t) (derive_key_v1 uuid ikm n buf s)
  unfolding derive_key_v1
  derive_key_v1-IsSilent uuid ikm n buf s = elim (Bool-cases (n == 0)) [
    | inl empty ↦ rw empty (if_returned refl)
    | inr some_there ↦
        rw some_there
          (elim (Bool-cases
            (hkdf n (load_bytes kdfv1_key 32 s.mem) uuid (load_bytes ikm n s.mem) s.world).0.0) [
              | inl fine ↦ rw fine (if_returned refl)
              | inr bad ↦ rw bad (if_returned refl)
            ])
  ]

  -- The choice of the derivation keeps the command of the header.
  pub derive_key-IsSilent :
      (ctx : HwkeyChanCtx) (hdr : HwkeyMsg) (ikm n : ℕ) (s : State)
      → Partial (λ (h, _) t. (h.cmd ≡ hdr.cmd) × IsSilent s t) (derive_key ctx hdr ikm n s)
  unfolding derive_key
  derive_key-IsSilent ctx hdr ikm n s =
      elim (Bool-cases (
        (if hdr.arg1 == hwkey_kdf_version_best then hwkey_kdf_version_1 else hdr.arg1)
        == hwkey_kdf_version_1)) [
          | inl v1 ↦ rw v1 (
              Partial-bind (derive_key_v1-IsSilent ctx.uuid ikm n key_data s)
                λ r t silent. if_returned (refl, silent))
          | inr other ↦ rw other (if_returned (refl, refl))
        ]
