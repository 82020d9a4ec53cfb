-- ===== src/Examples/ServerRuns.antt =====
-- Runs of the key service, of the message helpers and of the dump on the concrete platform.
use trusty_lk_nxp.Common.{
  ℕ, true, false, refl, ◌≡◌, inl, inr, none, some, List, [], ◌∷◌, codes, arith, ◌==◌, if◌then◌else◌,
}
use trusty_lk_nxp.Common.Int.{pos}
use trusty_lk_nxp.Platform.{Uevent, hwkey_chan_cookie, HwkeyMsg, hwkey_chan_proc}
use trusty_lk_nxp.Machine.{State, HwkeyChanCtx}
use trusty_lk_nxp.Machine.Outcome.{Ensures}
use trusty_lk_nxp.Tipc.{tipc_recv_two_segments}
use trusty_lk_nxp.Tipc.Receive.{Received, tipc_recv_two_segments-Ensures}
use trusty_lk_nxp.Hwkey.Slots.{provider_keys, handle_slots}
use trusty_lk_nxp.Hwkey.Lookup.{
  granted, answer, handle_slots-granted, hwkey_handle_get_keyslot_cmd-denied,
}
use trusty_lk_nxp.Hwkey.Clean.{KeyLayout, LeftClean}
use trusty_lk_nxp.Hwkey.Messages.{hwkey_chan_handle_msg-LeftClean}
use trusty_lk_nxp.Common.Memory.{load_bytes}
use trusty_lk_nxp.Hwkey.Provider.{unpack_kbox}
use trusty_lk_nxp.Hwkey.KeyBox.{BoxLayout, Unpacked, unpack_kbox-Unpacked}
use trusty_lk_nxp.Hwkey.Channels.{ChannelAfter, hwkey_chan_handler-ChannelAfter}
use trusty_lk_nxp.Hwkey.Exchange.{Exchanged, hwkey_chan_handle_msg-Exchanged}
use trusty_lk_nxp.Hwkey.Derive.{
  derivation, derivation_reply, Replied, hwkey_handle_derive_key_cmd-reply,
}
use trusty_lk_nxp.Hwkey.Server.{
  hwkey_chan_handler, hwkey_handle_get_keyslot_cmd, hwkey_send_rsp, hwkey_chan_handle_msg,
  hwkey_handle_derive_key_cmd,
}
use trusty_lk_nxp.Dump.{Dumped, hexdump8, hexdump8-rows}
use trusty_lk_nxp.Examples.Sim.{sim, sim_laws, sim_ipc, sim_state}

-- a client of the key service
abbrev client : List ℕ → HwkeyChanCtx
client name = record {
  evt_handler = record { proc = some hwkey_chan_proc; priv = 64 };
  chan = pos 5;
  uuid = name;
}

abbrev rpmb_slot : List ℕ
rpmb_slot = codes "com.android.trusty.storage_auth.rpmb"

-- a request for the RPMB key waits
abbrev with_slots : State ⦃p = sim⦄
with_slots = record (sim_state (0 ∷ 0 ∷ 0 ∷ 0 ∷ rpmb_slot)) {
  key_slots = some provider_keys;
  key_slot_cnt = 1;
}

abbrev header : HwkeyMsg
header = record { cmd = 0; status = 0; arg1 = 0; other = 0 ∷ [] }

layout : KeyLayout ⦃p = sim⦄
layout = record { not_null = omega arith; apart = inl (omega arith) }

tipc_recv_two_segments-Ensures_example :
    Ensures true
      (Received (pos 5) 4 0x30000 2048 with_slots)
      (tipc_recv_two_segments (pos 5) 4 0x30000 2048 with_slots)
tipc_recv_two_segments-Ensures_example =
    tipc_recv_two_segments-Ensures sim_ipc (pos 5) 4 0x30000 2048 with_slots

handle_slots-granted_example :
    handle_slots
      (client (codes "storage"))
      rpmb_slot
      (some provider_keys)
      1
      0x20000
      2048
      0
      with_slots
    ≡ answer (granted (codes "storage") rpmb_slot provider_keys) 0x20000 2048 0 with_slots
handle_slots-granted_example =
    handle_slots-granted (client (codes "storage")) rpmb_slot (some provider_keys) 0x20000 2048 0
      with_slots

hwkey_handle_get_keyslot_cmd-denied_example :
    hwkey_handle_get_keyslot_cmd (client (codes "other")) header rpmb_slot with_slots
    ≡ hwkey_send_rsp (client (codes "other")) (record header { status = 5 }) 0x20000 0 with_slots
unfolding granted
hwkey_handle_get_keyslot_cmd-denied_example =
    hwkey_handle_get_keyslot_cmd-denied (client (codes "other")) header rpmb_slot with_slots refl
      refl (inr refl)

hwkey_handle_derive_key_cmd-reply_example :
    Ensures true
      (Replied
        (client (codes "other"))
        (derivation_reply header (derivation (client (codes "other")) header 0x30000 16 with_slots))
        with_slots)
      (hwkey_handle_derive_key_cmd (client (codes "other")) header 0x30000 16 with_slots)
hwkey_handle_derive_key_cmd-reply_example =
    hwkey_handle_derive_key_cmd-reply (client (codes "other")) header 0x30000 16 with_slots

hwkey_chan_handle_msg-LeftClean_example :
    Ensures true
      (LeftClean with_slots)
      (hwkey_chan_handle_msg (client (codes "storage")) with_slots)
hwkey_chan_handle_msg-LeftClean_example =
    hwkey_chan_handle_msg-LeftClean {strict = true} (λ e. sim_laws) layout sim_ipc
      (client (codes "storage")) with_slots refl (λ i lo hi. refl)

-- a key box with the magic and a blob of 80 bytes
abbrev with_box : State ⦃p = sim⦄
with_box = record (sim_state []) {
  mem = λ i.
      if i == 0x3000
      then 33
      else if i == 0x3001
      then 75
      else if i == 0x3002
      then 83
      else if i == 0x3004
      then 80
      else 0;
  rpmb_keyblob_len = 0;
}

box_layout : BoxLayout ⦃p = sim⦄ 0x3000
box_layout = record { box_blob = inl (omega arith); keys = inl (omega arith) }

unpack_kbox-Unpacked_example :
    Ensures true (Unpacked 0x3000 with_box) (unpack_kbox ⦃p = sim⦄ with_box)
unfolding load_bytes
unpack_kbox-Unpacked_example =
    unpack_kbox-Unpacked {strict = true} (λ e. sim_laws) with_box box_layout refl refl

-- the channel of a client of the key service, on which a request for the RPMB key waits
abbrev with_client : State ⦃p = sim⦄
with_client = record with_slots {
  hwkey_ctxs = λ a. if a == 64 then some (client (codes "storage")) else none;
}

abbrev message_waits : Uevent
message_waits = record { handle = pos 5; event = 4; cookie = hwkey_chan_cookie 64 }

hwkey_chan_handler-ChannelAfter_example :
    Ensures false
      (ChannelAfter 64 (client (codes "storage")) with_client)
      (hwkey_chan_handler message_waits 64 with_client)
hwkey_chan_handler-ChannelAfter_example =
    hwkey_chan_handler-ChannelAfter layout sim_ipc message_waits 64 (client (codes "storage"))
      with_client refl (λ i lo hi. refl) refl

hexdump8-rows_example : Dumped (hexdump8 0x1000 20 with_box.mem) 0x1000 20 with_box.mem
hexdump8-rows_example = hexdump8-rows 0x1000 20 with_box.mem (omega arith) (omega arith)

hwkey_chan_handle_msg-Exchanged_example :
    Ensures true
      (Exchanged (client (codes "storage")) with_slots)
      (hwkey_chan_handle_msg (client (codes "storage")) with_slots)
hwkey_chan_handle_msg-Exchanged_example =
    hwkey_chan_handle_msg-Exchanged {strict = true} (λ e. sim_laws) layout sim_ipc
      (client (codes "storage")) with_slots refl (λ i lo hi. refl)
