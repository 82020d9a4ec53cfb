-- ===== src/Main/Start.antt =====
-- The start of the two services (hwrng_init_srv_provider, hwkey_init_srv_provider), which makes the
-- invariant of the server hold.
use trusty_lk_nxp.Common.{
  ℕ, ◌+◌, ◌≡◌, refl, sym, ◌∙◌, ap, inl, inr, true, false, none, some, [], arith, Bool-cases, ◌==◌,
  bytes_eq,
}
use mathlib.Core.Path.{subst}
use trusty_lk_nxp.Common.Int.{ℤ, pos, is_negative, int_eq}
use trusty_lk_nxp.Common.Memory.{
  SameOutside-memset, load_bytes, store_bytes_outside, length-load_bytes,
}
use trusty_lk_nxp.Platform.{Platform, hwkey_port_cookie}
use trusty_lk_nxp.Machine.{State, HwrngChanCtx, HwkeyChanCtx, ◌>>◌}
use trusty_lk_nxp.Machine.Outcome.{Safely, of_Returned, stopped, bind, mono}
use trusty_lk_nxp.Hwkey.Clean.{IsClean}
use trusty_lk_nxp.Hwkey.Provider.{keypack_magic, load_u32, copy_rpmb_blob, unpack_kbox}
use trusty_lk_nxp.Hwkey.KeyBox.{
  Apart, Sealed, seal-Sealed, copy_rpmb_blob-taken, copy_rpmb_blob-same,
}
use trusty_lk_nxp.Hwkey.Slots.{provider_keys}
use trusty_lk_nxp.Hwkey.Server.{
  is_null, hwkey_install_keys, hwkey_start_service, hwkey_init_srv_provider,
}
use trusty_lk_nxp.Hwrng.Server.{max_hwrng_msg_size, hwrng_start_service, hwrng_init_srv_provider}
use trusty_lk_nxp.Main.Invariant.{ServerOk, outside_ServerOk}
use trusty_lk_nxp.Hwrng.Links.{contains, Unique}

module _ ⦃p : Platform⦄ where
  open p use {
    World, key_data, kdfv1_key, rpmb_keyblob, list_entries, port_create, set_cookie,
    hwrng_port_name, hwkey_port_name, ipc_port_allow_ta_connect, hwkey_msg_size,
  }

  -- the static variables of the services as the program starts with them
  pub record Initial (s : State) : Type 0 where
    pub no_rng_ctx : (a : ℕ) → s.hwrng_ctxs a ≡ none
    pub no_key_ctx : (a : ℕ) → s.hwkey_ctxs a ≡ none
    pub no_request : list_entries s.hwrng_req_list ≡ []
    pub no_key : IsClean s

  -- The buffers that the start fills and clears lie apart from the key buffer, the root key with the 48
  -- bytes that its job has room for.
  pub record StartLayout (kbox : ℕ) : Type 0 where
    pub box_apart : Apart kbox 1172 key_data 2048
    pub root_apart : Apart kdfv1_key 48 key_data 2048
    pub blob_apart : Apart rpmb_keyblob 80 key_data 2048

  copy_rpmb_blob-Initial :
      (kbox : ℕ) (s : State) → StartLayout kbox → Initial s → Initial (copy_rpmb_blob kbox s)
  copy_rpmb_blob-Initial kbox s layout fine = elim (Bool-cases (load_u32 (kbox + 4) s.mem == 80)) [
    | inr other ↦ subst Initial (sym (copy_rpmb_blob-same kbox s other)) fine
    | inl fits ↦ subst Initial (sym (copy_rpmb_blob-taken kbox s fits)) (record {
      no_rng_ctx = fine.no_rng_ctx;
      no_key_ctx = fine.no_key_ctx;
      no_request = fine.no_request;
      no_key = λ i lo hi.
          store_bytes_outside rpmb_keyblob (load_bytes (kbox + 8) 80 s.mem) s.mem i
            (ground (arith, layout.blob_apart, length-load_bytes (kbox + 8) 80 s.mem))
          ∙ fine.no_key i lo hi;
    })
  ]

  Sealed-Initial :
      (kbox : ℕ) (s t : State) → StartLayout kbox → Initial s → Sealed kbox s tt t → Initial t
  Sealed-Initial kbox s t layout fine (m, same, e, k) = record {
    no_rng_ctx = λ a. ap (λ k. k.hwrng_ctxs a) k ∙ fine.no_rng_ctx a;
    no_key_ctx = λ a. ap (λ k. k.hwkey_ctxs a) k ∙ fine.no_key_ctx a;
    no_request = ap (λ k. list_entries k.hwrng_req_list) k ∙ fine.no_request;
    no_key = λ i lo hi.
        ap (λ f. f i) e
        ∙ SameOutside-memset kbox 0 1172 m i (ground (arith, layout.box_apart))
        ∙ same i (ground (arith, layout.root_apart))
        ∙ fine.no_key i lo hi;
  }

  unpack_kbox-Initial :
      (s : State)
      → StartLayout s.caam.sram_base
      → Initial s
      → Safely (λ _ t. Initial t) (unpack_kbox s)
  unfolding unpack_kbox
  unpack_kbox-Initial s layout fine =
      elim (Bool-cases (bytes_eq (load_bytes s.caam.sram_base 4 s.mem) keypack_magic)) [
        | inr other ↦ rw other (stopped refl)
        | inl magic ↦ rw magic (elim (Bool-cases (s.rpmb_keyblob_len == 0)) [
          | inr twice ↦ rw twice (stopped refl)
          | inl once ↦ rw once (
              mono
                (seal-Sealed {strict = false} (λ e. absurd cc) s.caam.sram_base
                  (copy_rpmb_blob s.caam.sram_base s))
                λ _ t sealed.
                  Sealed-Initial s.caam.sram_base (copy_rpmb_blob s.caam.sram_base s) t layout
                    (copy_rpmb_blob-Initial s.caam.sram_base s layout fine) sealed)
        ])
      ]

  -- the state once the keys of the provider are installed
  abbrev with_keys : State → State
  with_keys s = record s { key_slots = some provider_keys; key_slot_cnt = 1 }

  with_keys-ServerOk : (s : State) → Initial s → ServerOk (with_keys s)
  with_keys-ServerOk s fine = record {
    queue = (
      (λ a ctx e. absurd (no_ctx a ctx e)),
      (λ a h. absurd (no_entry a h)),
      subst Unique (sym fine.no_request) tt,
    );
    rng_handlers = λ a ctx e. absurd (no_ctx a ctx e);
    clean = fine.no_key;
    counted = refl;
    key_handlers = λ a ctx e. absurd (no_client a ctx e);
  }
    where
      no_ctx : (a : ℕ) (ctx : HwrngChanCtx) → s.hwrng_ctxs a ≡ some ctx → ⊥
      no_ctx a ctx e = let h : s.hwrng_ctxs a ≡ none = fine.no_rng_ctx a in cc

      no_client : (a : ℕ) (ctx : HwkeyChanCtx) → s.hwkey_ctxs a ≡ some ctx → ⊥
      no_client a ctx e = let h : s.hwkey_ctxs a ≡ none = fine.no_key_ctx a in cc

      no_entry : (a : ℕ) → contains a (list_entries s.hwrng_req_list) ≡ true → ⊥
      no_entry a h =
          let h' : false ≡ true = subst (λ l. contains a l ≡ true) fine.no_request h in cc

  hwkey_start_service-ServerOk :
      (s : State) → ServerOk s → Safely (λ _ t. ServerOk t) (hwkey_start_service s)
  unfolding hwkey_start_service
  hwkey_start_service-ServerOk s fine = elim (Bool-cases (is_negative port)) [
    | inl bad ↦ rw bad (of_Returned _ _ (outside_ServerOk s _ _ fine))
    | inr good ↦ rw good (elim (Bool-cases (int_eq cookie (pos 0))) [
      | inl done ↦ rw done (of_Returned _ _ (outside_ServerOk s _ _ fine))
      | inr failed ↦ rw failed (of_Returned _ _ (outside_ServerOk s _ _ fine))
    ])
  ]
    where
      created : ℤ × World
      created =
          port_create hwkey_port_name 1 (hwkey_msg_size + 2048) ipc_port_allow_ta_connect s.world

      port : ℤ
      port = created.0

      cookie : ℤ
      cookie = (set_cookie port hwkey_port_cookie created.1).0

  hwkey_init_srv_provider-ServerOk :
      (s : State)
      → StartLayout s.caam.sram_base
      → Initial s
      → Safely (λ _ t. ServerOk t) (hwkey_init_srv_provider s)
  unfolding hwkey_init_srv_provider hwkey_install_keys
  hwkey_init_srv_provider-ServerOk s layout fine =
      bind (unpack_kbox-Initial s layout fine) λ _ t fine'.
        elim (Bool-cases (is_null t.key_slots)) [
          | inr twice ↦ rw twice (stopped refl)
          | inl first ↦ rw first (elim (Bool-cases (t.key_slot_cnt == 0)) [
            | inr counted ↦ rw counted (stopped refl)
            | inl none_yet ↦ rw none_yet (
                bind (hwkey_start_service-ServerOk (with_keys t) (with_keys-ServerOk t fine'))
                  λ rc u fine''. of_Returned _ _ fine'')
          ])
        ]

  hwrng_init_srv_provider-Initial :
      (s : State)
      → Initial s
      → Safely
          (λ _ t. Initial t × (t.caam.sram_base ≡ s.caam.sram_base))
          (hwrng_init_srv_provider s)
  unfolding hwrng_init_srv_provider hwrng_start_service
  hwrng_init_srv_provider-Initial s fine =
      elim (Bool-cases (
        is_negative
          (port_create hwrng_port_name 1 max_hwrng_msg_size ipc_port_allow_ta_connect s.world).0)) [
            | inl bad ↦ rw bad (of_Returned _ _ (outside_Initial, refl))
            | inr good ↦ rw good (of_Returned _ _ (outside_Initial, refl))
          ]
    where
      outside_Initial : {w : World} {port : ℤ} → Initial (record s { world = w; hwrng_port = port })
      outside_Initial = record {
        no_rng_ctx = fine.no_rng_ctx;
        no_key_ctx = fine.no_key_ctx;
        no_request = fine.no_request;
        no_key = fine.no_key;
      }

  -- The start of the two services from the program's first state, where the key box and the buffers that
  -- the start fills lie apart from the key buffer, makes the invariant of the server hold. It may stop
  -- by an abort or an assert, as for a key box without the magic, or wait for the device.
  pub start_services-ServerOk :
      (s : State)
      → StartLayout s.caam.sram_base
      → Initial s
      → Safely (λ _ t. ServerOk t) ((hwrng_init_srv_provider >> hwkey_init_srv_provider) s)
  start_services-ServerOk s layout fine =
      bind (hwrng_init_srv_provider-Initial s fine) λ _ t (fine', e).
        hwkey_init_srv_provider-ServerOk t (subst StartLayout (sym e) layout) fine'
