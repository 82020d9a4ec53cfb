-- ===== src/Hwkey/Derive.antt =====
-- What a client gets that asks for a derived key (hwkey_handle_derive_key_cmd of
-- app/hwcrypto/hwkey_srv.c with derive_key_v1 of app/hwcrypto/hwkey_srv_provider.c).
use trusty_lk_nxp.Common.{
  ℕ, ◌≡◌, refl, ap, ◌∙◌, inl, inr, Bool, List, [], ◌∷◌, ◌++◌, Bool-cases, ◌==◌, if◌then◌else◌,
  bit_or,
}
use trusty_lk_nxp.Common.Int.{ℤ}
use trusty_lk_nxp.Common.Memory.{load_bytes, store_bytes, load_bytes-store_bytes}
use mathlib.Core.Path.{subst}
use trusty_lk_nxp.Platform.{Platform, HwkeyMsg}
use trusty_lk_nxp.Machine.{sent, State, HwkeyChanCtx, and_then, ok}
use trusty_lk_nxp.Machine.Outcome.{Ensures, of_Returned, bind}
use trusty_lk_nxp.Tipc.{tipc_send_two_segments}
use trusty_lk_nxp.Hwkey.Provider.{derive_key_v1}
use trusty_lk_nxp.Hwkey.Messages.{derived, version}
use trusty_lk_nxp.Hwkey.Server.{
  derive_key, hwkey_handle_derive_key_cmd, hwkey_send_rsp, sanitize_key_data,
}

module _ ⦃p : Platform⦄ where
  open p use {
    hkdf, hkdf_length, kdfv1_key, key_data, hwkey_kdf_version_1, hwkey_no_error, hwkey_err_generic,
    hwkey_err_bad_len, hwkey_err_not_implemented, hwkey_msg_bytes, hwkey_resp_bit,
  }

  -- HKDF does its work on the client's UUID and its data.
  abbrev pub derives : HwkeyChanCtx → (ikm_data ikm_len : ℕ) → State → Bool
  derives ctx ikm n s =
      (hkdf n (load_bytes kdfv1_key 32 s.mem) ctx.uuid (load_bytes ikm n s.mem) s.world).0.0

  -- the status and the key that a request is to be answered with
  abbrev pub derivation : HwkeyChanCtx → HwkeyMsg → (ikm_data ikm_len : ℕ) → State → ℕ × List ℕ
  derivation ctx hdr ikm n s =
      if version hdr == hwkey_kdf_version_1
      then if n == 0
        then (hwkey_err_bad_len, [])
        else if derives ctx ikm n s
        then (hwkey_no_error, derived ctx.uuid ikm n s)
        else (hwkey_err_generic, [])
      else (hwkey_err_not_implemented, [])

  -- the reply of that status with that key
  abbrev pub derivation_reply : HwkeyMsg → ℕ × List ℕ → List ℕ
  derivation_reply hdr (status, key) =
      hwkey_msg_bytes
        (record hdr { cmd = bit_or hdr.cmd hwkey_resp_bit; arg1 = version hdr; status = status })
      ++ key

  -- The one call is the sending of this reply.
  abbrev pub Replied : HwkeyChanCtx → (reply : List ℕ) → State → ℤ → State → Type 0
  Replied ctx reply s rc t = t.calls ≡ sent ctx.chan reply ∷ s.calls

  -- a key that is ready to be sent from the key buffer
  abbrev KeyReady : HwkeyMsg → State → ℕ × List ℕ → HwkeyMsg × ℕ → State → Type 0
  KeyReady hdr s (status, key) (hdr', klen) t =
      (hdr' ≡ record hdr { arg1 = version hdr; status = status })
      × (load_bytes key_data klen t.mem ≡ key)
      × (t.calls ≡ s.calls)

  derived_stored :
      (ctx : HwkeyChanCtx) (ikm n : ℕ) (s : State)
      → load_bytes key_data n (store_bytes key_data (derived ctx.uuid ikm n s) s.mem)
        ≡ derived ctx.uuid ikm n s
  derived_stored ctx ikm n s =
      subst
        (λ k.
          load_bytes key_data k (store_bytes key_data (derived ctx.uuid ikm n s) s.mem)
          ≡ derived ctx.uuid ikm n s)
        (hkdf_length n (load_bytes kdfv1_key 32 s.mem) ctx.uuid (load_bytes ikm n s.mem) s.world)
        (load_bytes-store_bytes key_data (derived ctx.uuid ikm n s) s.mem)

  module _ {strict : Bool} where
    derive_key-KeyReady :
        (ctx : HwkeyChanCtx) (hdr : HwkeyMsg) (ikm n : ℕ) (s : State)
        → Ensures strict (KeyReady hdr s (derivation ctx hdr ikm n s)) (derive_key ctx hdr ikm n s)
    unfolding derive_key derive_key_v1 load_bytes
    derive_key-KeyReady ctx hdr ikm n s = elim (Bool-cases (version hdr == hwkey_kdf_version_1)) [
      | inr other ↦ rw other (of_Returned _ _ (refl, refl, refl))
      | inl known ↦ rw known (elim (Bool-cases (n == 0)) [
        | inl empty ↦ rw empty (of_Returned _ _ (refl, refl, refl))
        | inr some_there ↦ rw some_there (elim (Bool-cases (derives ctx ikm n s)) [
          | inl fine ↦ rw fine (of_Returned _ _ (refl, derived_stored ctx ikm n s, refl))
          | inr bad ↦ rw bad (of_Returned _ _ (refl, refl, refl))
        ])
      ])
    ]

    reply-sent :
        (ctx : HwkeyChanCtx) (hdr : HwkeyMsg) (s : State) (r : ℕ × List ℕ) (a : HwkeyMsg × ℕ)
        (t : State)
        → KeyReady hdr s r a t
        → Ensures strict
            (λ rc u. u.calls ≡ sent ctx.chan (derivation_reply hdr r) ∷ s.calls)
            (and_then
              (hwkey_send_rsp ctx a.0 key_data a.1 t)
              λ rc u. and_then (sanitize_key_data a.1 u) λ _ v. ok rc v)
    unfolding hwkey_send_rsp tipc_send_two_segments
    reply-sent ctx hdr s (status, key) (hdr', klen) t (e, e', e'') = elim (Bool-cases (klen == 0)) [
      | inl none_there ↦ rw none_there (of_Returned _ _ same)
      | inr some_there ↦ rw some_there (of_Returned _ _ same)
    ]
      where
        message : HwkeyMsg → List ℕ → List ℕ
        message h k = hwkey_msg_bytes (record h { cmd = bit_or h.cmd hwkey_resp_bit }) ++ k

        same :
            sent ctx.chan (
                hwkey_msg_bytes (record hdr' { cmd = bit_or hdr'.cmd hwkey_resp_bit })
                ++ load_bytes key_data klen t.mem)
              ∷ t.calls
            ≡ sent ctx.chan (derivation_reply hdr (status, key)) ∷ s.calls
        same =
            ap (λ h. sent ctx.chan (message h (load_bytes key_data klen t.mem)) ∷ t.calls) e
            ∙ ap (λ k. sent ctx.chan (derivation_reply hdr (status, k)) ∷ t.calls) e'
            ∙ ap (λ cs. sent ctx.chan (derivation_reply hdr (status, key)) ∷ cs) e''

    -- A request for a derived key is answered by one message and by no other call: with the command's
    -- response bit, the version that was used, and then as `derivation` has it. A version that is not
    -- known, no data, and a failure of HKDF are answered by their own status and no key; else the key is
    -- what HKDF derives from the root key, the UUID of the client and the data, and is as long as these.
    pub hwkey_handle_derive_key_cmd-reply :
        (ctx : HwkeyChanCtx) (hdr : HwkeyMsg) (ikm n : ℕ) (s : State)
        → Ensures strict
            (Replied ctx (derivation_reply hdr (derivation ctx hdr ikm n s)) s)
            (hwkey_handle_derive_key_cmd ctx hdr ikm n s)
    unfolding hwkey_handle_derive_key_cmd
    hwkey_handle_derive_key_cmd-reply ctx hdr ikm n s =
        bind (derive_key-KeyReady ctx hdr ikm n s)
          λ a t ready. reply-sent ctx hdr s (derivation ctx hdr ikm n s) a t ready
