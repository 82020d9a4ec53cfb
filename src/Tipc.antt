-- ===== src/Tipc.antt =====
-- The message helpers of app/hwcrypto/main.c. A buffer is an address, but for a header that the
-- caller keeps on its stack: that comes and goes as a list of bytes.
pub mod Receive
pub mod Whole
use trusty_lk_nxp.Common.{
  ℕ, ◌+◌, ◌||◌, ◌++◌, Bool, not, List, [], bit_and, ltb, ◌==◌, if◌then◌else◌, take, drop,
}
use trusty_lk_nxp.Common.Int.{ℤ, pos, int_eq}
use trusty_lk_nxp.Common.Memory.{load_bytes, store_bytes}
use trusty_lk_nxp.Platform.{Platform, Uevent}
use trusty_lk_nxp.Machine.{
  sent, put, Cmd, pure, abort, skip, get, modify, ask, tell, ask_tell, ◌>>=◌, ◌>>◌,
}

-- `ev->event & flag`, as a condition
abbrev pub has_flag : Uevent → ℕ → Bool
has_flag ev flag = not (bit_and ev.event flag == 0)

module _ ⦃p : Platform⦄ where
  open p use {
    poll_error, poll_hup, poll_msg, poll_ready, poll_send_unblocked, get_msg, read_msg, put_msg,
    send_msg, err_bad_len,
  }

  unfoldable pub tipc_handle_port_errors : Uevent → Cmd (Unit {0})
  tipc_handle_port_errors ev =
      if has_flag ev poll_error
        || (has_flag ev poll_hup || (has_flag ev poll_msg || has_flag ev poll_send_unblocked))
      then abort
      else skip

  unfoldable pub tipc_handle_chan_errors : Uevent → Cmd (Unit {0})
  tipc_handle_chan_errors ev =
      if has_flag ev poll_error || has_flag ev poll_ready then abort else skip

  unfoldable pub tipc_send_single_buf : ℤ → (buf len : ℕ) → Cmd ℤ
  tipc_send_single_buf chan buf len = do
    s ← get
    let msg = load_bytes buf len s.mem
    ask_tell (sent chan msg) (send_msg chan msg)

  unfoldable pub tipc_recv_single_buf : ℤ → (len : ℕ) → Cmd (ℤ × List ℕ)
  tipc_recv_single_buf chan len = do
    (rc, msg_inf) ← ask (get_msg chan)
    if not (int_eq rc (pos 0)) then pure (rc, []) else do
      r ←
          if not (msg_inf.len == len)
          then pure (err_bad_len, [])
          else ask (read_msg chan msg_inf.id 0 len)
      tell (put chan msg_inf.id) (put_msg chan msg_inf.id)
      pure r

  unfoldable pub tipc_send_two_segments : ℤ → List ℕ → (payload payload_len : ℕ) → Cmd ℤ
  tipc_send_two_segments chan hdr payload payload_len = do
    s ← get
    let msg = hdr ++ load_bytes payload payload_len s.mem
    ask_tell (sent chan msg) (send_msg chan msg)

  -- The kernel fills the segments in order: the header's bytes are part of the result.
  unfoldable pub tipc_recv_two_segments : ℤ → (hdr_len payload payload_len : ℕ) → Cmd (ℤ × List ℕ)
  tipc_recv_two_segments chan hdr_len payload payload_len = do
    (rc, msg_inf) ← ask (get_msg chan)
    if not (int_eq rc (pos 0)) then pure (rc, []) else do
      r ← if ltb msg_inf.len hdr_len then pure (err_bad_len, []) else do
        (rc, msg) ← ask (read_msg chan msg_inf.id 0 (hdr_len + payload_len))
        modify (λ s. record s { mem = store_bytes payload (drop hdr_len msg) s.mem })
        pure (rc, take hdr_len msg)
      tell (put chan msg_inf.id) (put_msg chan msg_inf.id)
      pure r
