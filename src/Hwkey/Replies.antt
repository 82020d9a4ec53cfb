-- ===== src/Hwkey/Replies.antt =====
-- The answers to the requests of app/hwcrypto/hwkey_srv.c (hwkey_chan_handle_msg behind the receipt).
use trusty_lk_nxp.Common.{
  ℕ, ◌≤◌, ◌≡◌, refl, ap, inl, inr, Bool, true, false, List, [], ◌∷◌, ◌++◌, Bool-cases, bit_or, ◌==◌,
}
use trusty_lk_nxp.Common.Memory.{load_bytes}
use trusty_lk_nxp.Platform.{Platform, HwkeyMsg}
use trusty_lk_nxp.Machine.{and_then, ok, Call, sent, State, HwkeyChanCtx}
use trusty_lk_nxp.Machine.Outcome.{
  Ensures, Partial, if_returned, Partial-bind, Partial-mono, Ensures-Partial,
}
use trusty_lk_nxp.Machine.Sent.{messages, IsSilent}
use trusty_lk_nxp.Hwkey.Silent.{find_key-IsSilent, derive_key-IsSilent}
use trusty_lk_nxp.Caam.Device.{DeviceLaws}
use trusty_lk_nxp.Tipc.{tipc_send_two_segments}
use trusty_lk_nxp.Hwkey.Lookup.{SlotsCounted}
use trusty_lk_nxp.Hwkey.Clean.{KeyLayout, IsClean, LeftClean}
use trusty_lk_nxp.Hwkey.Messages.{hwkey_dispatch-LeftClean}
use trusty_lk_nxp.Hwkey.Server.{
  sanitize_key_data, hwkey_send_rsp, hwkey_handle_get_keyslot_cmd, hwkey_handle_derive_key_cmd,
  hwkey_dispatch,
}

no_truth : true ≡ false → ⊥
no_truth e = cc

module _ ⦃p : Platform⦄ where
  open p use {
    hwkey_msg_bytes, hwkey_resp_bit, hwkey_get_keyslot, hwkey_derive, hwkey_err_not_implemented,
    key_data, req_data,
  }

  -- the response to a request, with what the header says and a payload
  abbrev pub response : (request rsp : HwkeyMsg) → (payload : List ℕ) → List ℕ
  response request rsp payload =
      hwkey_msg_bytes (record rsp { cmd = bit_or request.cmd hwkey_resp_bit }) ++ payload

  -- The only message since `s` is the response of `rsp` and `payload`, and it is the last call.
  abbrev pub LastCall : HwkeyChanCtx → (request rsp : HwkeyMsg) → List ℕ → State → State → Type 0
  LastCall ctx request rsp payload s t =
      (cs : List Call) × (t.calls ≡ sent ctx.chan (response request rsp payload) ∷ cs)
      × (messages cs ≡ messages s.calls)

  -- a command that is not one of the protocol's
  abbrev pub IsUnknown : HwkeyMsg → Type 0
  IsUnknown request =
      ((request.cmd == hwkey_get_keyslot) ≡ false) × ((request.cmd == hwkey_derive) ≡ false)

  -- A request is answered with its own command; an unknown one by an error and no payload.
  abbrev pub Answered : HwkeyChanCtx → HwkeyMsg → State → State → Type 0
  Answered ctx request s t =
      (rsp : HwkeyMsg) × (payload : List ℕ) × LastCall ctx request rsp payload s t
      × (IsUnknown request → (rsp.status ≡ hwkey_err_not_implemented) × (payload ≡ []))

  abbrev Sent : HwkeyChanCtx → HwkeyMsg → State → State → Type 0
  Sent ctx request s t =
      (rsp : HwkeyMsg) × (payload : List ℕ) × LastCall ctx request rsp payload s t

  send_and_sanitize :
      (ctx : HwkeyChanCtx) (request rsp : HwkeyMsg) (n : ℕ) (s₀ s : State)
      → rsp.cmd ≡ request.cmd
      → IsSilent s₀ s
      → Partial
          (λ _ t. Sent ctx request s₀ t)
          (and_then
            (hwkey_send_rsp ctx rsp key_data n s)
            λ rc t. and_then (sanitize_key_data n t) λ _ u. ok rc u)
  unfolding hwkey_send_rsp tipc_send_two_segments
  send_and_sanitize ctx request rsp n s₀ s e silent = elim (Bool-cases (n == 0)) [
    | inl none_there ↦
        rw none_there (if_returned (rsp, load_bytes key_data n s.mem, (s.calls, same, silent)))
    | inr some_there ↦
        rw some_there (if_returned (rsp, load_bytes key_data n s.mem, (s.calls, same, silent)))
  ]
    where
      same :
          sent ctx.chan (response rsp rsp (load_bytes key_data n s.mem)) ∷ s.calls
          ≡ sent ctx.chan (response request rsp (load_bytes key_data n s.mem)) ∷ s.calls
      same = ap (λ c. sent ctx.chan (reply_of c) ∷ s.calls) e
        where
          reply_of : ℕ → List ℕ
          reply_of c =
              hwkey_msg_bytes (record rsp { cmd = bit_or c hwkey_resp_bit })
              ++ load_bytes key_data n s.mem

  hwkey_handle_get_keyslot_cmd-Sent :
      (ctx : HwkeyChanCtx) (hdr : HwkeyMsg) (slot_id : List ℕ) (s : State)
      → Partial (λ _ t. Sent ctx hdr s t) (hwkey_handle_get_keyslot_cmd ctx hdr slot_id s)
  unfolding hwkey_handle_get_keyslot_cmd
  hwkey_handle_get_keyslot_cmd-Sent ctx hdr slot_id s =
      Partial-bind (find_key-IsSilent ctx slot_id s) λ (status, klen) t silent.
        send_and_sanitize ctx hdr (record hdr { status = status }) klen s t refl silent

  hwkey_handle_derive_key_cmd-Sent :
      (ctx : HwkeyChanCtx) (hdr : HwkeyMsg) (ikm n : ℕ) (s : State)
      → Partial (λ _ t. Sent ctx hdr s t) (hwkey_handle_derive_key_cmd ctx hdr ikm n s)
  unfolding hwkey_handle_derive_key_cmd
  hwkey_handle_derive_key_cmd-Sent ctx hdr ikm n s =
      Partial-bind (derive_key-IsSilent ctx hdr ikm n s)
        λ (hdr', klen) t (e, silent). send_and_sanitize ctx hdr hdr' klen s t e silent

  hwkey_dispatch-Answered :
      (ctx : HwkeyChanCtx) (hdr : HwkeyMsg) (n : ℕ) (s : State)
      → Partial (λ _ t. Answered ctx hdr s t) (hwkey_dispatch ctx hdr n s)
  unfolding hwkey_dispatch hwkey_send_rsp tipc_send_two_segments load_bytes
  hwkey_dispatch-Answered ctx hdr n s = elim (Bool-cases (hdr.cmd == hwkey_get_keyslot)) [
    | inl slot ↦ rw slot (
        Partial-mono (hwkey_handle_get_keyslot_cmd-Sent ctx hdr _ _)
          λ rc t (rsp, payload, last). (rsp, payload, last, λ u. absurd (no_truth u.0)))
    | inr other ↦ rw other (elim (Bool-cases (hdr.cmd == hwkey_derive)) [
      | inl derive ↦ rw derive (
          Partial-bind (hwkey_handle_derive_key_cmd-Sent ctx hdr req_data n s)
            λ rc t (rsp, payload, last).
              if_returned (rsp, payload, last, λ u. absurd (no_truth u.1)))
      | inr unknown ↦ rw unknown (
          if_returned (
            record hdr { status = hwkey_err_not_implemented },
            [],
            (s.calls, refl, refl),
            λ u. (refl, refl),
          ))
    ])
  ]

  -- A request that was received, of whatever command and with up to 2048 bytes of data, is answered by
  -- one message to its client as the last call, and by no other message: the response to its own command,
  -- and to an unknown command an error with no payload. No byte of a key is left in the key buffer. This is where the buffer was
  -- clean, the slots are as many as are counted, and requests are read apart from the key buffer. Under
  -- the laws of the device every request is answered so; without them the handler may also stop by
  -- an assert or wait for ever.
  pub hwkey_dispatch-Ensures :
      {strict : Bool} (laws : strict ≡ true → DeviceLaws) (layout : KeyLayout) (ctx : HwkeyChanCtx)
      (hdr : HwkeyMsg) (n : ℕ) (s : State)
      → n ≤ 2048
      → SlotsCounted s
      → IsClean s
      → Ensures strict
          (λ rc t. LeftClean s rc t × Answered ctx hdr s t)
          (hwkey_dispatch ctx hdr n s)
  hwkey_dispatch-Ensures laws layout ctx hdr n s small counted clean =
      Ensures-Partial (hwkey_dispatch-LeftClean laws layout ctx hdr n s small counted clean)
        (hwkey_dispatch-Answered ctx hdr n s)
