-- ===== src/Hwrng/Server.antt =====
-- app/hwcrypto/hwrng_srv.c with the provider: the queue of requests, the handlers of the port and of
-- its channels. The queue is the state of the list library's nodes; a loop over it visits the entries
-- that it had at the start, since the body takes out no entry but its own.
use trusty_lk_nxp.Common.{
  ℕ, ◌+◌, Bool, true, false, not, Option, none, some, List, [], ◌∷◌, ltb, ◌==◌, if◌then◌else◌,
}
use trusty_lk_nxp.Common.Int.{ℤ, pos, is_negative, int_eq}
use trusty_lk_nxp.Platform.{Platform, Uevent, hwrng_chan_proc, hwrng_port_cookie, hwrng_chan_cookie}
use trusty_lk_nxp.Machine.{
  closed, freed, HwrngChanCtx, Cmd, pure, assert, skip, dereference, get, modify, ask, tell, ◌>>=◌,
  ◌>>◌,
}
use trusty_lk_nxp.Tipc.{
  has_flag, tipc_handle_port_errors, tipc_handle_chan_errors, tipc_send_single_buf,
  tipc_recv_single_buf,
}
use trusty_lk_nxp.Caam.Regs.{caam_success}
use trusty_lk_nxp.Caam.Rng.{caam_hwrng, sub_size}
use trusty_lk_nxp.Caam.Ring.{u32}

abbrev pub max_hwrng_msg_size : ℕ
max_hwrng_msg_size = 4096

-- sizeof(struct hwrng_chan_ctx): the handler, the list node, the channel, the size and the flag
abbrev pub sizeof_hwrng_chan_ctx : ℕ
sizeof_hwrng_chan_ctx = 28

module _ ⦃p : Platform⦄ where
  open p use {
    close, accept, calloc, set_cookie, port_create, ipc_port_allow_ta_connect, poll_hup, poll_msg,
    poll_ready, poll_send_unblocked, err_not_enough_buffer, list_entries, list_in_list,
    list_add_tail, list_delete, hwrng_port_name, hwrng_req_size, hwrng_req_len, rng_data,
  }

  -- hwrng_srv_provider.c
  unfoldable pub hwrng_dev_get_rng_data : (buf buf_len : ℕ) → Cmd (Unit {0})
  hwrng_dev_get_rng_data buf buf_len = do res ← caam_hwrng buf buf_len; assert (res == caam_success)

  abbrev pub set_hwrng_ctx : ℕ → Option HwrngChanCtx → Cmd (Unit {0})
  set_hwrng_ctx a c =
      modify (λ s. record s { hwrng_ctxs = λ b. if b == a then c else s.hwrng_ctxs b })

  abbrev pub get_hwrng_ctx : ℕ → Cmd HwrngChanCtx
  get_hwrng_ctx a s = dereference (s.hwrng_ctxs a) s

  unfoldable pub hwrng_close_chan : (ctx : ℕ) → Cmd (Unit {0})
  hwrng_close_chan a = do
    ctx ← get_hwrng_ctx a
    tell (closed ctx.chan) (close ctx.chan)
    modify (λ s.
        if list_in_list a s.hwrng_req_list
        then record s { hwrng_req_list = list_delete a s.hwrng_req_list }
        else s)
    tell (freed a) (λ w. w)
    set_hwrng_ctx a none

  -- what follows the reply to a request: the rest of it, or the end of it
  unfoldable pub after_reply : (ctx : ℕ) → HwrngChanCtx → (len : ℕ) → Bool → Cmd Bool
  after_reply a ctx len need_more = do
    let left = sub_size ctx.req_size len
    set_hwrng_ctx a (some (record ctx { req_size = left }))
    if left == 0
        then (modify (λ s. record s { hwrng_req_list = list_delete a s.hwrng_req_list })
            >> pure need_more)
        else pure true

  -- the body of the loop of `hwrng_handle_req_queue`
  unfoldable pub serve_request : (ctx : ℕ) → Bool → Cmd Bool
  serve_request a need_more = do
    ctx ← get_hwrng_ctx a
    if ctx.send_blocked then pure need_more else do
      let len = if ltb max_hwrng_msg_size ctx.req_size then max_hwrng_msg_size else ctx.req_size
      hwrng_dev_get_rng_data rng_data len
      rc ← tipc_send_single_buf ctx.chan rng_data len
      if not (is_negative rc)
          then after_reply a ctx len need_more
          else if int_eq rc err_not_enough_buffer
          then (set_hwrng_ctx a (some (record ctx { send_blocked = true })) >> pure need_more)
          else (hwrng_close_chan a >> pure need_more)

  unfoldable pub serve_requests : List ℕ → Bool → Cmd Bool
  serve_requests [] need_more = pure need_more
  serve_requests (a ∷ rest) need_more = serve_request a need_more >>= serve_requests rest

  unfoldable pub hwrng_handle_req_queue : Cmd Bool
  unfolding serve_requests
  hwrng_handle_req_queue s = serve_requests (list_entries s.hwrng_req_list) false s

  unfoldable pub hwrng_kick_req_queue : Cmd (Unit {0})
  hwrng_kick_req_queue = do need_more ← hwrng_handle_req_queue; skip

  -- the extension of a request in progress, or a new entry of the queue
  unfoldable pub queue_request : (ctx : ℕ) → HwrngChanCtx → (len : ℕ) → Cmd (Unit {0})
  queue_request a ctx len = do
    s ← get
    if list_in_list a s.hwrng_req_list
        then set_hwrng_ctx a (some (record ctx { req_size = u32 (ctx.req_size + len) }))
        else (set_hwrng_ctx a (some (record ctx { req_size = len }))
            >> modify (λ t. record t { hwrng_req_list = list_add_tail a t.hwrng_req_list }))

  unfoldable pub hwrng_chan_handle_msg : (ctx : ℕ) → Cmd ℤ
  hwrng_chan_handle_msg a = do
    ctx ← get_hwrng_ctx a
    (rc, req) ← tipc_recv_single_buf ctx.chan hwrng_req_size
    if not (int_eq rc (pos hwrng_req_size))
        then pure rc
        else do queue_request a ctx (hwrng_req_len req); pure (pos 0)

  -- the events of a channel, less the kick of the queue that follows
  unfoldable pub handle_chan_event : Uevent → (ctx : ℕ) → Cmd (Unit {0})
  handle_chan_event ev a = if has_flag ev poll_hup then hwrng_close_chan a else do
    ctx ← get_hwrng_ctx a
    if has_flag ev poll_send_unblocked
        then set_hwrng_ctx a (some (record ctx { send_blocked = false }))
        else skip
    if not (has_flag ev poll_msg) then skip else do
      rc ← hwrng_chan_handle_msg a
      if not (int_eq rc (pos 0)) then hwrng_close_chan a else skip

  unfoldable pub hwrng_chan_handler : Uevent → (priv : ℕ) → Cmd (Unit {0})
  hwrng_chan_handler ev a = do
    assert (not (a == 0))
    ctx ← get_hwrng_ctx a
    assert (int_eq ev.handle ctx.chan)
    tipc_handle_chan_errors ev
    handle_chan_event ev a
    hwrng_kick_req_queue

  -- the context of a new channel
  unfoldable pub open_hwrng_chan : (chan : ℤ) → Cmd (Unit {0})
  open_hwrng_chan chan = do
    a ← ask (calloc sizeof_hwrng_chan_ctx)
    if a == 0 then tell (closed chan) (close chan) else do
      set_hwrng_ctx a (
          some (record {
            evt_handler = record { proc = some hwrng_chan_proc; priv = a };
            chan = chan;
            req_size = 0;
            send_blocked = false;
          }))
      rc ← ask (set_cookie chan (hwrng_chan_cookie a))
      if int_eq rc (pos 0)
          then skip
          else do tell (freed a) (λ w. w); set_hwrng_ctx a none; tell (closed chan) (close chan)

  unfoldable pub hwrng_port_handler : Uevent → Cmd (Unit {0})
  hwrng_port_handler ev = do
    tipc_handle_port_errors ev
    if not (has_flag ev poll_ready) then skip else do
      (rc, peer_uuid) ← ask (accept ev.handle)
      if is_negative rc then skip else open_hwrng_chan rc

  unfoldable pub hwrng_start_service : Cmd ℤ
  hwrng_start_service = do
    port ← ask (port_create hwrng_port_name 1 max_hwrng_msg_size ipc_port_allow_ta_connect)
    if is_negative port then pure port else do
      modify (λ s. record s { hwrng_port = port })
      rc ← ask (set_cookie port hwrng_port_cookie)
      pure (pos 0)

  unfoldable pub hwrng_init_srv_provider : Cmd (Unit {0})
  hwrng_init_srv_provider = do rc ← hwrng_start_service; skip
