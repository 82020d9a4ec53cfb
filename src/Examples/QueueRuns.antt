-- ===== src/Examples/QueueRuns.antt =====
-- Runs of the random number service on the concrete platform.
use trusty_lk_nxp.Common.{ap, true, refl, sym, ◌∙◌, ◌≡◌, [], arith, ◌==◌}
use trusty_lk_nxp.Common.Int.{pos, int_eq}
use trusty_lk_nxp.Machine.Outcome.{Ensures}
use trusty_lk_nxp.Hwrng.Queue.{entries}
use trusty_lk_nxp.Hwrng.Rounds.{Due}
use trusty_lk_nxp.Hwrng.Progress.{passes}
use trusty_lk_nxp.Hwrng.Totals.{bytes_sent-passes}
use trusty_lk_nxp.Examples.Sim.{sim, sim_lists, sim_WithinBuffer, sim_laws}
use trusty_lk_nxp.Examples.Serving.{request, serving, request_of, serving-ServerOk}
use trusty_lk_nxp.Examples.Sim.{sim_ipc}
use trusty_lk_nxp.Hwrng.Server.{hwrng_chan_handle_msg}
use trusty_lk_nxp.Hwrng.Requests.{new_total, Taken, hwrng_chan_handle_msg-Taken}
use trusty_lk_nxp.Machine.Sent.{messages, bytes_sent}
use trusty_lk_nxp.Hwrng.Fair.{Fair, hwrng_handle_req_queue-Fair}
use trusty_lk_nxp.Hwrng.Accounts.{IsOwnChan}
use trusty_lk_nxp.Hwrng.Resume.{Resumes, hwrng_chan_handler-resumed}
use trusty_lk_nxp.Hwrng.Contexts.{with_ctx, with_ctx-Open}
use trusty_lk_nxp.Common.{Bool, some, none, if◌then◌else◌}
use trusty_lk_nxp.Machine.{HwrngChanCtx}
use trusty_lk_nxp.Hwrng.Delivery.{Asks, hwrng_chan_handler-Delivered}
use trusty_lk_nxp.Machine.{State, ◌>>=◌}
use trusty_lk_nxp.Platform.{Uevent, hwrng_chan_cookie}
use trusty_lk_nxp.Common.{◌∷◌}
use trusty_lk_nxp.Common.{◌+◌}
use trusty_lk_nxp.Hwrng.Queue.{hwrng_handle_req_queue-QueueOk}
use trusty_lk_nxp.Hwrng.Queue.{QueueOk}
use trusty_lk_nxp.Hwrng.Channels.{hwrng_chan_handler-QueueOk}
use trusty_lk_nxp.Hwrng.Ports.{OpenedOrClosed}
use trusty_lk_nxp.Hwrng.Ports.{open_hwrng_chan-OpenedOrClosed}
use trusty_lk_nxp.Hwrng.Server.{hwrng_handle_req_queue, hwrng_chan_handler, open_hwrng_chan}
use trusty_lk_nxp.Examples.Serving.{closing}
use trusty_lk_nxp.Common.{false}

hwrng_handle_req_queue-QueueOk_example :
    Ensures true (λ _ t. QueueOk t) (hwrng_handle_req_queue serving)
hwrng_handle_req_queue-QueueOk_example =
    hwrng_handle_req_queue-QueueOk sim_WithinBuffer sim_lists {strict = true} (λ e. sim_laws)
      serving serving-ServerOk.queue

hwrng_chan_handler-QueueOk_example :
    Ensures false (λ _ t. QueueOk t) (hwrng_chan_handler closing 64 serving)
hwrng_chan_handler-QueueOk_example =
    hwrng_chan_handler-QueueOk sim_WithinBuffer sim_lists (λ req. omega arith) closing 64 serving
      serving-ServerOk.queue (request, refl)

open_hwrng_chan-OpenedOrClosed_example :
    Ensures true (OpenedOrClosed (pos 7) serving) (open_hwrng_chan (pos 7) serving)
open_hwrng_chan-OpenedOrClosed_example = open_hwrng_chan-OpenedOrClosed (pos 7) serving refl

-- the 5000 bytes of the request go out in two passes
serving-Due : Due ⦃p = sim⦄ 2 serving
serving-Due = (
  serving-ServerOk.queue,
  λ b ctx h e.
      let r = (request_of (b == 64) ctx e).1 in
      let size : 5000 ≡ ctx.req_size = ap (λ c. c.req_size) r in
      (sym (ap (λ c. c.send_blocked) r), omega arith, omega (arith, size)),
)

bytes_sent-passes_example :
    Ensures true
      (λ _ t.
        (bytes_sent (pos 6) (messages t.calls)
          ≡ bytes_sent (pos 6) (messages (serving).calls) + 5000)
        × (entries ⦃p = sim⦄ t ≡ []))
      (passes ⦃p = sim⦄ 2 serving)
bytes_sent-passes_example =
    bytes_sent-passes ⦃p = sim⦄ (λ chan msg w. refl) sim_lists sim_WithinBuffer {strict = true}
      (λ e. sim_laws) 2 64 request serving serving-Due refl refl
      λ b ctx e.
        let (same, r) = request_of (b == 64) ctx e in
        ap (λ c. int_eq c.chan (pos 6)) (sym r) ∙ sym same

hwrng_chan_handle_msg-Taken_example :
    Ensures true (Taken ⦃p = sim⦄ 64 request serving) (hwrng_chan_handle_msg ⦃p = sim⦄ 64 serving)
hwrng_chan_handle_msg-Taken_example =
    hwrng_chan_handle_msg-Taken ⦃p = sim⦄ {strict = true} sim_ipc sim_lists (λ req. omega arith) 64
      request serving refl

hwrng_handle_req_queue-Fair_example :
    Ensures true (Fair ⦃p = sim⦄ serving) (hwrng_handle_req_queue ⦃p = sim⦄ serving)
hwrng_handle_req_queue-Fair_example =
    hwrng_handle_req_queue-Fair ⦃p = sim⦄ (λ chan msg w. refl) sim_lists sim_WithinBuffer
      {strict = true} (λ e. sim_laws) serving serving-ServerOk.queue
      λ b ctx h e. sym (ap (λ c. c.send_blocked) (request_of (b == 64) ctx e).1)

-- the client asks for 10000 bytes more
abbrev asking : State ⦃p = sim⦄
asking = record serving { world = record serving.world { inbox = 16 ∷ 39 ∷ 0 ∷ 0 ∷ [] } }

abbrev asking_event : Uevent
asking_event = record { handle = pos 6; event = 4; cookie = hwrng_chan_cookie 64 }

asking-Due : Due ⦃p = sim⦄ 4 asking
asking-Due = (
  serving-ServerOk.queue,
  λ b ctx h e.
      let r = (request_of (b == 64) ctx e).1 in
      let size : 5000 ≡ ctx.req_size = ap (λ c. c.req_size) r in
      (sym (ap (λ c. c.send_blocked) r), omega arith, omega (arith, size)),
)

asking-IsOwnChan : IsOwnChan ⦃p = sim⦄ (pos 6) 64 asking
asking-IsOwnChan b ctx e =
    let (same, r) = request_of (b == 64) ctx e in ap (λ c. int_eq c.chan (pos 6)) (sym r) ∙ sym same

asking-Asks : Asks ⦃p = sim⦄ 3 asking_event 64 request asking
asking-Asks = (
  ((refl, refl), refl, refl, refl),
  (refl, refl, refl),
  refl,
  refl,
  asking-IsOwnChan,
  serving-ServerOk.queue,
  (λ b ctx other here e. asking-Due.1 b ctx here e),
  omega arith,
)

hwrng_chan_handler-Delivered_example :
    Ensures true
      (λ _ t.
        (bytes_sent (pos 6) (messages t.calls)
          ≡ bytes_sent (pos 6) (messages (asking).calls) + new_total ⦃p = sim⦄ 64 request asking)
        × (entries ⦃p = sim⦄ t ≡ []))
      ((◌>>=◌ ⦃p = sim⦄ (hwrng_chan_handler ⦃p = sim⦄ asking_event 64) λ _. passes ⦃p = sim⦄ 3)
        asking)
hwrng_chan_handler-Delivered_example =
    hwrng_chan_handler-Delivered ⦃p = sim⦄ sim_ipc sim_lists (λ req. omega arith)
      (λ chan msg w. refl) sim_WithinBuffer {strict = true} (λ e. sim_laws) 3 asking_event 64
      request asking refl asking-Asks

-- the client whose channel has room again
abbrev blocked_request : HwrngChanCtx
blocked_request = record request { send_blocked = true }

abbrev blocked_client : State ⦃p = sim⦄
blocked_client = with_ctx ⦃p = sim⦄ 64 (some blocked_request) serving

abbrev room_event : Uevent
room_event = record { handle = pos 6; event = 8; cookie = hwrng_chan_cookie 64 }

blocked_of :
    (b : Bool) (ctx : HwrngChanCtx)
    → (if b then some blocked_request else (if b then some request else none)) ≡ some ctx
    → (b ≡ true) × (blocked_request ≡ ctx)
blocked_of true ctx e = (refl, cc)
blocked_of false ctx e = absurd cc

blocked-IsOwnChan : IsOwnChan ⦃p = sim⦄ (pos 6) 64 blocked_client
blocked-IsOwnChan b ctx e =
    let (same, r) = blocked_of (b == 64) ctx e in ap (λ c. int_eq c.chan (pos 6)) (sym r) ∙ sym same

blocked-Resumes : Resumes ⦃p = sim⦄ 1 room_event 64 blocked_request blocked_client
blocked-Resumes = (
  ((refl, refl), refl, refl, refl),
  refl,
  refl,
  blocked-IsOwnChan,
  (with_ctx-Open ⦃p = sim⦄ 64 blocked_request serving serving-ServerOk.queue (omega arith)).0,
  (λ b ctx other here e.
      let same : (b == 64) ≡ true = (blocked_of (b == 64) ctx e).0 in
      absurd (other (ground arith))),
  omega arith,
)

hwrng_chan_handler-resumed_example :
    Ensures true
      (λ _ t.
        (bytes_sent (pos 6) (messages t.calls)
          ≡ bytes_sent (pos 6) (messages (blocked_client).calls) + 5000)
        × (entries ⦃p = sim⦄ t ≡ []))
      ((◌>>=◌ ⦃p = sim⦄ (hwrng_chan_handler ⦃p = sim⦄ room_event 64) λ _. passes ⦃p = sim⦄ 1)
        blocked_client)
hwrng_chan_handler-resumed_example =
    hwrng_chan_handler-resumed ⦃p = sim⦄ (λ chan msg w. refl) sim_lists sim_WithinBuffer
      {strict = true} (λ e. sim_laws) 1 room_event 64 blocked_request blocked_client refl
      blocked-Resumes
