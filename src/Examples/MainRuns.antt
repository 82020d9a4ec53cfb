-- ===== src/Examples/MainRuns.antt =====
-- Runs of the whole server on the concrete platform.
use trusty_lk_nxp.Common.{
  ap, false, refl, ◌≡◌, inl, inr, none, some, [], arith, length-take, ◌==◌, if◌then◌else◌,
}
use mathlib.Core.Path.{subst}
use trusty_lk_nxp.Common.Int.{pos}
use trusty_lk_nxp.Platform.{Platform, hwkey_port_cookie}
use trusty_lk_nxp.Machine.{State, ◌>>◌}
use trusty_lk_nxp.Machine.Outcome.{Ensures}
use trusty_lk_nxp.Hwkey.Clean.{KeyLayout}
use trusty_lk_nxp.Hwkey.Slots.{provider_keys}
use trusty_lk_nxp.Hwkey.Server.{hwkey_init_srv_provider}
use trusty_lk_nxp.Hwrng.Links.{ListLaws}
use trusty_lk_nxp.Hwrng.Server.{hwrng_init_srv_provider}
use trusty_lk_nxp.Tipc.Receive.{IpcLaws}
use trusty_lk_nxp.Caam.Init.{init_caam_env}
use trusty_lk_nxp.Caam.SelfTest.Buffers.{StackLayout}
use trusty_lk_nxp.Caam.Open.{Opened, init_caam_env-Opened}
use trusty_lk_nxp.Main.{dispatch_event, event_loop, main}
use trusty_lk_nxp.Main.Program.{Ended, ErrorLaws, MappedApart, main-Ended}
use trusty_lk_nxp.Main.Invariant.{ServerOk, ServerLayout, dispatch_event-ServerOk}
use trusty_lk_nxp.Main.Loop.{Reachable, event_loop-ServerOk}
use trusty_lk_nxp.Main.Start.{Initial, StartLayout, start_services-ServerOk}
use trusty_lk_nxp.Examples.Serving.{closing, request, serving, serving-ServerOk}
use trusty_lk_nxp.Examples.Sim.{sim, sim_lists, sim_WithinBuffer, sim_ipc, sim_state}

key_layout : KeyLayout ⦃p = sim⦄
key_layout = record { not_null = omega arith; apart = inl (omega arith) }

server_layout : ServerLayout ⦃p = sim⦄
server_layout = record { keys = key_layout; random = inl (omega arith); frame = inr (omega arith) }

dispatch_event-ServerOk_example : Ensures false (λ _ t. ServerOk t) (dispatch_event closing serving)
dispatch_event-ServerOk_example =
    dispatch_event-ServerOk server_layout sim_WithinBuffer sim_lists (λ req. omega arith) sim_ipc
      closing serving serving-ServerOk (request, refl)

-- The same platform with clients of the key service that come one after the other.
abbrev ports : Platform
ports = record sim {
  mmap = λ n id w. (some 0x3000, w);
  wait_any = λ w. ((pos 0, record { handle = pos 1; event = 1; cookie = hwkey_port_cookie }), w);
}

port_lists : ListLaws ⦃p = ports⦄
port_lists = record { in_list = λ a l. refl; added = λ a l h. refl; deleted = λ a l h. refl }

port_ipc : IpcLaws ⦃p = ports⦄
port_ipc = record {
  get_result = λ c w. inl refl;
  read_fits = λ c i o n w. omega (arith, length-take n w.inbox);
  read_count = λ c n w e. inl refl;
}

port_layout : ServerLayout ⦃p = ports⦄
port_layout = record {
  keys = record { not_null = omega arith; apart = inl (omega arith) };
  random = inl (omega arith);
  frame = inr (omega arith);
}

-- the server when it waits for its first client
abbrev waiting : State ⦃p = ports⦄
waiting = record {
  world = record { entry = 0; last = 0; next = 0x50000; inbox = [] };
  calls = [];
  mem = λ i. 0;
  caam = (sim_state []).caam;
  hwrng_ctxs = λ a. none;
  hwrng_req_list = [];
  hwrng_port = pos 1;
  hwkey_ctxs = λ a. none;
  key_slots = some provider_keys;
  key_slot_cnt = 1;
  rpmb_keyblob_len = 80;
}

waiting-ServerOk : ServerOk ⦃p = ports⦄ waiting
waiting-ServerOk = record {
  queue = ((λ a ctx e. absurd cc), (λ a h. absurd cc), tt);
  rng_handlers = λ a ctx e. absurd cc;
  clean = λ i lo hi. refl;
  counted = refl;
  key_handlers = λ a ctx e. absurd cc;
}

event_loop-ServerOk_example :
    Ensures false
      (λ _ u. Reachable ⦃p = ports⦄ waiting u × ServerOk ⦃p = ports⦄ u)
      (event_loop ⦃p = ports⦄ 3 waiting)
event_loop-ServerOk_example =
    event_loop-ServerOk ⦃p = ports⦄ port_layout (λ a n f d w one. omega arith) port_lists
      (λ req. omega arith) port_ipc waiting (λ t reach e. tt) 3 waiting-ServerOk

start_layout : StartLayout ⦃p = sim⦄ 0x3000
start_layout = record {
  box_apart = inl (omega arith);
  root_apart = inr (omega arith);
  blob_apart = inr (omega arith);
}

-- the program's first state, with a key box that has the magic
abbrev first : State ⦃p = sim⦄
first = record (sim_state []) {
  mem = λ i. if i == 0x3000 then 33 else if i == 0x3001 then 75 else if i == 0x3002 then 83 else 0;
  rpmb_keyblob_len = 0;
}

first-Initial : Initial ⦃p = sim⦄ first
first-Initial = record {
  no_rng_ctx = λ a. refl;
  no_key_ctx = λ a. refl;
  no_request = refl;
  no_key = λ i lo hi. ground arith;
}

start_services-ServerOk_example :
    Ensures false
      (λ _ t. ServerOk ⦃p = sim⦄ t)
      ((hwrng_init_srv_provider >> hwkey_init_srv_provider) first)
start_services-ServerOk_example = start_services-ServerOk ⦃p = sim⦄ first start_layout first-Initial

-- the same first state on the platform with the ports
abbrev first_of_ports : State ⦃p = ports⦄
first_of_ports = record waiting {
  mem = first.mem;
  key_slots = none;
  key_slot_cnt = 0;
  rpmb_keyblob_len = 0;
}

first_of_ports-Initial : Initial ⦃p = ports⦄ first_of_ports
first_of_ports-Initial = record {
  no_rng_ctx = λ a. refl;
  no_key_ctx = λ a. refl;
  no_request = refl;
  no_key = λ i lo hi. ground arith;
}

port_stack : StackLayout ⦃p = ports⦄
port_stack k h = (omega (arith, h), omega (arith, h))

errors : ErrorLaws ⦃p = ports⦄
errors = record { generic = λ e. cc; no_memory = λ e. cc }

ports-MappedApart : MappedApart ⦃p = ports⦄
ports-MappedApart w a e =
    let h : 0x3000 ≡ a = ap (λ o. elim o [ none ↦ 0 | some n ↦ n ]) e in
    subst (StartLayout ⦃p = ports⦄) h (record {
      box_apart = inl (omega arith);
      root_apart = inr (omega arith);
      blob_apart = inr (omega arith);
    })

main-Ended_example :
    Ensures false (Ended ⦃p = ports⦄ first_of_ports) (main ⦃p = ports⦄ 3 first_of_ports)
main-Ended_example =
    main-Ended ⦃p = ports⦄ port_layout (λ a n f d w one. omega arith) port_lists
      (λ req. omega arith) port_ipc errors ports-MappedApart port_stack 3 first_of_ports
      first_of_ports-Initial (λ t up u reach e. tt)

init_caam_env-Opened_example :
    Ensures false (Opened ⦃p = ports⦄ first_of_ports) (init_caam_env ⦃p = ports⦄ first_of_ports)
init_caam_env-Opened_example =
    init_caam_env-Opened ⦃p = ports⦄ (λ a n f d w one. omega arith) port_stack first_of_ports
