-- ===== src/Hwkey/Exchange.antt =====
-- One message of a client and its answer (hwkey_chan_handle_msg of app/hwcrypto/hwkey_srv.c), from the
-- receipt to the response.
use trusty_lk_nxp.Common.{
  List, ℕ, ◌+◌, ◌≤◌, ◌<◌, ◌≡◌, refl, ◌∙◌, ◌⊎◌, inl, inr, Bool, true, false, arith, Bool-cases, ltb,
  take,
}
use mathlib.Core.Path.{subst}
use trusty_lk_nxp.Common.Int.{ℤ, pos, is_negative}
use trusty_lk_nxp.Platform.{Platform, HwkeyMsg}
use trusty_lk_nxp.Machine.{State, HwkeyChanCtx}
use trusty_lk_nxp.Machine.Outcome.{
  Ensures, Partial, if_returned, mono, bind, of_Returned, Ensures-Partial,
}
use trusty_lk_nxp.Machine.Sent.{IsSilent}
use trusty_lk_nxp.Caam.Device.{DeviceLaws}
use trusty_lk_nxp.Tipc.{tipc_recv_two_segments}
use trusty_lk_nxp.Tipc.Receive.{IpcLaws, negative_not_zero, tipc_recv_two_segments-Ensures}
use trusty_lk_nxp.Hwkey.Lookup.{SlotsCounted}
use trusty_lk_nxp.Hwkey.Clean.{KeyLayout, IsClean}
use trusty_lk_nxp.Hwkey.Messages.{SlotsCounted-kept, payload_length}
use trusty_lk_nxp.Hwkey.Replies.{Answered, hwkey_dispatch-Ensures}
use trusty_lk_nxp.Hwkey.Server.{hwkey_chan_handle_msg}

module _ ⦃p : Platform⦄ where
  open p use {get_msg, read_msg, err_bad_len_negative, hwkey_msg_size, hwkey_msg_read, req_data}

  module _ (chan : ℤ) (hdr_len payload_len : ℕ) (s : State) where
    -- what reading the pending message of the channel gives
    abbrev reading : ℤ × List ℕ
    reading =
        let ((rc, inf), w) = get_msg chan s.world in
        (read_msg chan inf.id 0 (hdr_len + payload_len) w).0

    -- There is a message with a whole header, and it can be read.
    abbrev pub HasRequest : Type 0
    HasRequest =
        ((get_msg chan s.world).0.0 ≡ pos 0)
        × (hdr_len ≤ (get_msg chan s.world).0.1.len)
        × (is_negative reading.0 ≡ false)

    -- There is no message, it is shorter than a header, or it cannot be read.
    abbrev pub NoRequest : Type 0
    NoRequest =
        (is_negative (get_msg chan s.world).0.0 ≡ true)
        ⊎ ((get_msg chan s.world).0.1.len < hdr_len)
        ⊎ (is_negative reading.0 ≡ true)

    -- how a receipt ends
    abbrev Receipt : ℤ × List ℕ → State → Type 0
    Receipt (rc, hdr) t =
        IsSilent s t
        × (((is_negative rc ≡ true) × NoRequest)
            ⊎ ((is_negative rc ≡ false) × HasRequest × (hdr ≡ take hdr_len reading.1)))

    tipc_recv_two_segments-Receipt :
        (ipc : IpcLaws) (payload : ℕ)
        → Partial Receipt (tipc_recv_two_segments chan hdr_len payload payload_len s)
    unfolding tipc_recv_two_segments
    tipc_recv_two_segments-Receipt ipc payload = elim (ipc.get_result chan s.world) [
      | inr bad ↦ rw (negative_not_zero _ bad) (if_returned (refl, inl (bad, inl bad)))
      | inl got ↦ rw got (elim (Bool-cases (ltb (get_msg chan s.world).0.1.len hdr_len)) [
        | inl short ↦
            rw short (if_returned (refl, inl (err_bad_len_negative, inr (inl (ground arith)))))
        | inr enough ↦ rw enough (elim (Bool-cases (is_negative reading.0)) [
          | inl bad ↦ if_returned (refl, inl (bad, inr (inr bad)))
          | inr fine ↦ if_returned (refl, inr (fine, (got, ground arith, fine), refl))
        ])
      ])
    ]

  -- the header of the request that waits in the channel
  abbrev pub request_of : HwkeyChanCtx → State → HwkeyMsg
  request_of ctx s = hwkey_msg_read (take hwkey_msg_size (reading ctx.chan hwkey_msg_size 2048 s).1)

  -- A request that can be read is answered by one message; without one nothing is sent to anyone, and
  -- the result is an error.
  abbrev pub Exchanged : HwkeyChanCtx → State → ℤ → State → Type 0
  Exchanged ctx s rc t =
      (NoRequest ctx.chan hwkey_msg_size 2048 s × (is_negative rc ≡ true) × IsSilent s t)
      ⊎ (HasRequest ctx.chan hwkey_msg_size 2048 s × Answered ctx (request_of ctx s) s t)

  -- what is answered after the receipt is answered before it, too
  Answered-earlier :
      (ctx : HwkeyChanCtx) (hdr : HwkeyMsg) (s t u : State)
      → IsSilent s t
      → Answered ctx hdr t u
      → Answered ctx hdr s u
  Answered-earlier ctx hdr s t u silent (rsp, payload, (cs, last, same), unknown) =
      (rsp, payload, (cs, last, same ∙ silent), unknown)

  -- A message of a client that has a whole header and can be read is answered by exactly one message,
  -- the last call, to that client: the response to the command of its header, and to an unknown
  -- command an error with no payload. Without a message, with one that is shorter than a header, or
  -- with one that cannot be read, nothing is sent to anyone, and the result is an error. This is
  -- where the key buffer was clean, the slots are as many as are counted, requests are read apart
  -- from the key buffer, and the IPC calls keep their laws. Under the laws of the device every message is handled to its end; without them the
  -- handler may also stop by an assert or wait for ever.
  pub hwkey_chan_handle_msg-Exchanged :
      {strict : Bool} (laws : strict ≡ true → DeviceLaws) (layout : KeyLayout) (ipc : IpcLaws)
      (ctx : HwkeyChanCtx) (s : State)
      → SlotsCounted s
      → IsClean s
      → Ensures strict (Exchanged ctx s) (hwkey_chan_handle_msg ctx s)
  unfolding hwkey_chan_handle_msg
  hwkey_chan_handle_msg-Exchanged laws layout ipc ctx s counted clean =
      bind
        (Ensures-Partial
          (tipc_recv_two_segments-Ensures ipc ctx.chan hwkey_msg_size req_data 2048 s)
          (tipc_recv_two_segments-Receipt ctx.chan hwkey_msg_size 2048 s ipc req_data))
        λ (rc, hdr) t (((same, k), count, back), (silent, end)).
          let clean' : IsClean t =
            λ i lo hi. same i (ground (arith, layout.apart)) ∙ clean i lo hi in
          elim end [
            | inl (bad, nothing) ↦ rw bad (of_Returned _ _ (inl (nothing, bad, silent)))
            | inr (got, request, e) ↦ rw got (
                mono
                  (hwkey_dispatch-Ensures laws layout ctx (hwkey_msg_read hdr) _ t
                    (payload_length rc hwkey_msg_size count got) (SlotsCounted-kept s t k counted)
                    clean')
                  λ rc' u (left, answered). inr (
                    request,
                    subst (λ h. Answered ctx (hwkey_msg_read h) s u) e
                        (Answered-earlier ctx (hwkey_msg_read hdr) s t u silent answered),
                  ))
          ]
