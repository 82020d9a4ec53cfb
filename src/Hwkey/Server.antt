-- ===== src/Hwkey/Server.antt =====
-- app/hwcrypto/hwkey_srv.c: the commands, the handlers of the port and of its channels.
use trusty_lk_nxp.Common.{
  ℕ, ◌+◌, ◌-◌, ◌%◌, ◌^◌, Bool, true, false, not, ◌&&◌, Option, none, some, List, bit_or, ◌==◌,
  if◌then◌else◌, length,
}
use trusty_lk_nxp.Common.Int.{ℤ, pos, is_negative, int_eq, to_size}
use trusty_lk_nxp.Common.Memory.{c_string}
use trusty_lk_nxp.Platform.{
  Platform, Uevent, HwkeyMsg, hwkey_chan_proc, hwkey_port_cookie, hwkey_chan_cookie,
}
use trusty_lk_nxp.Machine.{
  closed, freed, HwkeyChanCtx, HwkeyKeyslot, Cmd, pure, assert, skip, dereference, get, modify, ask,
  tell, ◌>>=◌, ◌>>◌,
}
use trusty_lk_nxp.Tipc.{
  has_flag, tipc_handle_port_errors, tipc_handle_chan_errors, tipc_send_two_segments,
  tipc_recv_two_segments,
}
use trusty_lk_nxp.Hwkey.Provider.{set_bytes, derive_key_v1, unpack_kbox}
use trusty_lk_nxp.Hwkey.Slots.{test_key_slots, provider_keys, handle_slots}

abbrev pub hwkey_max_payload_size : ℕ
hwkey_max_payload_size = 2048

-- sizeof(struct hwkey_chan_ctx): two words of handler, the channel and the UUID
abbrev pub sizeof_hwkey_chan_ctx : ℕ
sizeof_hwkey_chan_ctx = 28

-- the key slots are not installed yet
abbrev pub is_null : Option (List HwkeyKeyslot) → Bool
is_null none = true
is_null (some _) = false

module _ ⦃p : Platform⦄ where
  open p use {
    with_hwcrypto_unittest, close, accept, calloc, set_cookie, port_create,
    ipc_port_allow_ta_connect, poll_hup, poll_msg, poll_ready, hwkey_port_name, hwkey_msg_size,
    hwkey_msg_read, hwkey_msg_bytes, hwkey_resp_bit, hwkey_get_keyslot, hwkey_derive,
    hwkey_kdf_version_best, hwkey_kdf_version_1, hwkey_err_not_found, hwkey_err_not_implemented,
    key_data, req_data,
  }

  -- a context that is in use at `a` is replaced, or given back
  abbrev pub set_hwkey_ctx : ℕ → Option HwkeyChanCtx → Cmd (Unit {0})
  set_hwkey_ctx a c =
      modify (λ s. record s { hwkey_ctxs = λ b. if b == a then c else s.hwkey_ctxs b })

  abbrev pub get_hwkey_ctx : ℕ → Cmd HwkeyChanCtx
  get_hwkey_ctx a s = dereference (s.hwkey_ctxs a) s

  unfoldable pub hwkey_ctx_close : (ctx : ℕ) → Cmd (Unit {0})
  hwkey_ctx_close a = do
    ctx ← get_hwkey_ctx a
    tell (closed ctx.chan) (close ctx.chan)
    tell (freed a) (λ w. w)
    set_hwkey_ctx a none

  unfoldable pub hwkey_send_rsp : HwkeyChanCtx → HwkeyMsg → (rsp_data rsp_data_len : ℕ) → Cmd ℤ
  hwkey_send_rsp ctx rsp_hdr rsp_data rsp_data_len =
      tipc_send_two_segments ctx.chan
        (hwkey_msg_bytes (record rsp_hdr { cmd = bit_or rsp_hdr.cmd hwkey_resp_bit })) rsp_data
        rsp_data_len

  -- `if (len) memset(key_data, 0, len)`
  abbrev pub sanitize_key_data : ℕ → Cmd (Unit {0})
  sanitize_key_data n = if n == 0 then skip else set_bytes key_data 0 n

  -- the search of the installed slots, and then of the test slots in a build that has them
  unfoldable pub find_key : HwkeyChanCtx → (slot_id : List ℕ) → Cmd (ℕ × ℕ)
  find_key ctx slot_id = do
    s ← get
    (status, klen) ←
        handle_slots ctx slot_id s.key_slots s.key_slot_cnt key_data hwkey_max_payload_size 0
    if with_hwcrypto_unittest && (status == hwkey_err_not_found)
        then handle_slots ctx slot_id (some test_key_slots) (length test_key_slots) key_data
            hwkey_max_payload_size klen
        else pure (status, klen)

  unfoldable pub hwkey_handle_get_keyslot_cmd : HwkeyChanCtx → HwkeyMsg → (slot_id : List ℕ) → Cmd ℤ
  hwkey_handle_get_keyslot_cmd ctx hdr slot_id = do
    (status, klen) ← find_key ctx slot_id
    rc ← hwkey_send_rsp ctx (record hdr { status = status }) key_data klen
    sanitize_key_data klen
    pure rc

  -- the choice of the key derivation function: the header as changed, and the length of the key
  unfoldable pub derive_key : HwkeyChanCtx → HwkeyMsg → (ikm_data ikm_len : ℕ) → Cmd (HwkeyMsg × ℕ)
  derive_key ctx hdr ikm_data ikm_len =
      let arg1 = if hdr.arg1 == hwkey_kdf_version_best then hwkey_kdf_version_1 else hdr.arg1 in
      if arg1 == hwkey_kdf_version_1
      then (do
        (status, key_len) ← derive_key_v1 ctx.uuid ikm_data ikm_len key_data
        pure (record hdr { arg1 = arg1; status = status }, key_len))
      else pure (record hdr { arg1 = arg1; status = hwkey_err_not_implemented }, 0)

  unfoldable pub hwkey_handle_derive_key_cmd :
      HwkeyChanCtx → HwkeyMsg → (ikm_data ikm_len : ℕ) → Cmd ℤ
  hwkey_handle_derive_key_cmd ctx hdr ikm_data ikm_len = do
    (hdr', key_len) ← derive_key ctx hdr ikm_data ikm_len
    rc ← hwkey_send_rsp ctx hdr' key_data key_len
    sanitize_key_data key_len
    pure rc

  -- the `switch` on the command of a request
  unfoldable pub hwkey_dispatch : HwkeyChanCtx → HwkeyMsg → (req_data_len : ℕ) → Cmd ℤ
  hwkey_dispatch ctx hdr n =
      if hdr.cmd == hwkey_get_keyslot
      then (do
        set_bytes (req_data + n) 0 1
        s ← get
        hwkey_handle_get_keyslot_cmd ctx hdr (c_string req_data (hwkey_max_payload_size + 1) s.mem))
      else if hdr.cmd == hwkey_derive
      then (do rc ← hwkey_handle_derive_key_cmd ctx hdr req_data n; set_bytes req_data 0 n; pure rc)
      else hwkey_send_rsp ctx (record hdr { status = hwkey_err_not_implemented }) 0 0

  unfoldable pub hwkey_chan_handle_msg : HwkeyChanCtx → Cmd ℤ
  hwkey_chan_handle_msg ctx = do
    (rc, hdr) ← tipc_recv_two_segments ctx.chan hwkey_msg_size req_data hwkey_max_payload_size
    if is_negative rc
        then pure rc
        else hwkey_dispatch ctx (hwkey_msg_read hdr)
            ((to_size rc + 2 ^ 32 - hwkey_msg_size) % 2 ^ 32)

  unfoldable pub hwkey_chan_handler : Uevent → (priv : ℕ) → Cmd (Unit {0})
  hwkey_chan_handler ev a = do
    assert (not (a == 0))
    ctx ← get_hwkey_ctx a
    assert (int_eq ev.handle ctx.chan)
    tipc_handle_chan_errors ev
    if has_flag ev poll_hup
        then hwkey_ctx_close a
        else if not (has_flag ev poll_msg)
        then skip
        else do rc ← hwkey_chan_handle_msg ctx; if is_negative rc then hwkey_ctx_close a else skip

  -- the context of a new channel
  unfoldable pub open_hwkey_chan : (chan : ℤ) → (peer_uuid : List ℕ) → Cmd (Unit {0})
  open_hwkey_chan chan peer_uuid = do
    a ← ask (calloc sizeof_hwkey_chan_ctx)
    if a == 0 then tell (closed chan) (close chan) else do
      set_hwkey_ctx a (
          some (record {
            evt_handler = record { proc = some hwkey_chan_proc; priv = a };
            chan = chan;
            uuid = peer_uuid;
          }))
      rc ← ask (set_cookie chan (hwkey_chan_cookie a))
      if is_negative rc then hwkey_ctx_close a else skip

  unfoldable pub hwkey_port_handler : Uevent → Cmd (Unit {0})
  hwkey_port_handler ev = do
    tipc_handle_port_errors ev
    if not (has_flag ev poll_ready) then skip else do
      (rc, peer_uuid) ← ask (accept ev.handle)
      if is_negative rc then skip else open_hwkey_chan rc peer_uuid

  unfoldable pub hwkey_install_keys : List HwkeyKeyslot → (kcnt : ℕ) → Cmd (Unit {0})
  hwkey_install_keys keys kcnt = do
    s ← get
    assert (is_null s.key_slots)
    assert (s.key_slot_cnt == 0)
    assert (not (kcnt == 0))
    modify (λ t. record t { key_slots = some keys; key_slot_cnt = kcnt })

  unfoldable pub hwkey_start_service : Cmd ℤ
  hwkey_start_service = do
    port ← ask (
        port_create hwkey_port_name 1 (hwkey_msg_size + hwkey_max_payload_size)
          ipc_port_allow_ta_connect)
    if is_negative port then pure port else do
      rc ← ask (set_cookie port hwkey_port_cookie)
      if not (int_eq rc (pos 0)) then (tell (closed port) (close port) >> pure rc) else pure (pos 0)

  unfoldable pub hwkey_init_srv_provider : Cmd (Unit {0})
  hwkey_init_srv_provider = do
    unpack_kbox
    hwkey_install_keys provider_keys (length provider_keys)
    rc ← hwkey_start_service
    skip
