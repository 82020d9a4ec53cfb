-- ===== src/Examples/Sim.antt =====
-- A concrete platform: a CAAM whose registers read 1, which takes its job from the input ring and
-- reports it without an error, and a channel on which one message waits.
use trusty_lk_nxp.Common.{
  ◌++◌, ℕ, zero, suc, ◌+◌, ◌*◌, ◌%◌, ◌^◌, ◌≡◌, refl, inl, true, false, List, [], ◌∷◌, min, arith,
  ◌==◌, if◌then◌else◌, length, take, replicate, length-take, none, some, codes,
}
use trusty_lk_nxp.Common.Int.{pos, negsuc}
use trusty_lk_nxp.Platform.{Platform, imx7, hwrng_chan_cookie, HwkeyMsg}
use trusty_lk_nxp.Machine.{State}
use trusty_lk_nxp.Caam.Device.{DeviceLaws, WithinBuffer}
use trusty_lk_nxp.Hwrng.Links.{contains, remove, ListLaws}
use trusty_lk_nxp.Tipc.Receive.{IpcLaws}

pub record SimWorld : Type 0 where
  pub entry : ℕ  -- the job in the input ring
  pub last : ℕ  -- the range that was finished last
  pub next : ℕ  -- the next free address of the heap
  pub inbox : List ℕ  -- the message that waits

abbrev pub entry_of : List ℕ → ℕ → ℕ
entry_of (pa ∷ []) old = pa
entry_of _ old = old

-- a header of four bytes
abbrev pub msg_of : List ℕ → HwkeyMsg
msg_of (c ∷ st ∷ a ∷ other) = record { cmd = c; status = st; arg1 = a; other = other }
msg_of _ = record { cmd = 0; status = 0; arg1 = 0; other = [] }

abbrev pub value_of : List ℕ → ℕ
value_of [] = 0
value_of (b ∷ l) = b + 256 * value_of l

-- the length in the output command of a job
abbrev pub sim_stores : List ℕ → ℕ
sim_stores (h ∷ op ∷ n ∷ o ∷ []) = n % 2 ^ 16
sim_stores (h ∷ op ∷ a ∷ i ∷ n ∷ o ∷ []) = n % 2 ^ 16
sim_stores (h ∷ op ∷ k ∷ a ∷ b ∷ n ∷ m ∷ o ∷ []) = (if op == 0x14400010 then n else m) % 2 ^ 16
sim_stores (h ∷ op ∷ a ∷ b ∷ c ∷ d ∷ i ∷ l ∷ n ∷ o ∷ x ∷ []) = n % 2 ^ 16
sim_stores _ = 0

pub length-replicate : (n a : ℕ) → length (replicate n a) ≡ n
length-replicate zero a = refl
length-replicate (suc n) a = omega (arith, length-replicate n a)

instance abbrev pub sim : Platform
sim = record {
  mach = imx7;
  with_hwcrypto_unittest = true;
  World = SimWorld;
  readl = λ a w. (1, w);
  writel = λ v a w. w;
  prepare_dma = λ a n f d w.
      (record { ret = pos 1; paddr = a; size = n }, record w { entry = entry_of d w.entry });
  finish_dma = λ a n f w. record w { last = a };
  dma_byte = λ w i. 7;
  ram_byte = λ w i. 0;
  job_stores = sim_stores;
  blob_stores = λ k a i n o op h. omega arith;
  aes_stores = λ k op a i n o h. omega arith;
  hash_stores = λ a i n o h. omega arith;
  root_key_stores = λ a b c d n o op h. omega arith;
  rng_stores = λ n o h. omega arith;
  dma_word = λ w a. if a == w.last then w.entry else 0;
  map_failed = 0xFFFFFFFF;
  mmap = λ n id w. (some w.next, record w { next = w.next + n });
  memalign = λ a n w. (w.next, record w { next = w.next + n });
  calloc = λ n w. (w.next, record w { next = w.next + n });
  dma_flag_to_device = 1;
  dma_flag_from_device = 2;
  dma_flag_allow_partial = 8;
  poll_rounds = 1;
  port_create = λ name n size f w. (pos 1, w);
  accept = λ port w. ((pos 5, codes "storage"), w);
  close = λ c w. w;
  set_cookie = λ c k w. (pos 0, w);
  wait_any = λ w. ((pos 0, record { handle = pos 5; event = 4; cookie = hwrng_chan_cookie 64 }), w);
  get_msg = λ c w. ((pos 0, record { len = length w.inbox; id = 9 }), w);
  read_msg = λ c i o n w. ((pos (min (length w.inbox) n), take n w.inbox), w);
  put_msg = λ c i w. w;
  send_msg = λ c msg w. (pos (length msg), w);
  ipc_port_allow_ta_connect = 1;
  invalid_ipc_handle = negsuc 0;
  poll_none = 0;
  poll_ready = 1;
  poll_error = 2;
  poll_hup = 16;
  poll_msg = 4;
  poll_send_unblocked = 8;
  err_generic = negsuc 0;
  err_no_memory = negsuc 4;
  err_bad_len = negsuc 10;
  err_not_enough_buffer = negsuc 8;
  err_bad_len_negative = refl;
  Links = List ℕ;
  list_initial = [];
  list_entries = λ l. l;
  list_in_list = contains;
  list_add_tail = λ a l. l ++ a ∷ [];
  list_delete = remove;
  hwrng_port_name = codes "com.android.trusty.hwrng";
  hwrng_req_size = 4;
  hwrng_req_len = λ l. value_of l % 2 ^ 32;
  hwkey_port_name = codes "com.android.trusty.hwkey";
  hwkey_msg_size = 4;
  hwkey_msg_read = msg_of;
  hwkey_msg_bytes = λ m. m.cmd ∷ m.status ∷ m.arg1 ∷ m.other;
  hwkey_resp_bit = 1;
  hwkey_get_keyslot = 0;
  hwkey_derive = 2;
  hwkey_kdf_version_best = 0;
  hwkey_kdf_version_1 = 1;
  hwkey_no_error = 0;
  hwkey_err_generic = 1;
  hwkey_err_bad_len = 3;
  hwkey_err_not_found = 5;
  hwkey_err_not_implemented = 4;
  found_ne_not_found = λ e. omega arith;
  hkdf = λ n secret salt info w. ((true, replicate n 6), w);
  hkdf_length = λ n secret salt info w. length-replicate n 6;
  hwcrypto_unittest_app_uuid = codes "unittest";
  secure_storage_server_app_uuid = codes "storage";
  rng_data = 0x10000;
  key_data = 0x20000;
  req_data = 0x30000;
  kdfv1_key = 0x40000;
  rpmb_keyblob = 0x41000;
  skeymod = 0x42000;
  with_caam_self_test = true;
  stack = 0x60000;
  local_buf = λ n. 0x60000 + 128 * n;
}

-- The device does what the driver relies on.
pub sim_WithinBuffer : WithinBuffer ⦃p = sim⦄
sim_WithinBuffer a n f d w one = omega arith

pub sim_laws : DeviceLaws ⦃p = sim⦄
sim_laws = record {
  ring_entry = λ w. w.entry;
  one_range = λ a n f d w. refl;
  some_bytes = λ a n f d w h. h;
  completes = λ start done w. inl refl;
  entry_handed_in = λ a pa w. refl;
  entry_readl = λ a w. refl;
  entry_writel = λ v a w. refl;
  entry_echoed = λ a w. ground arith;
  no_error = λ a b w e. let h : (b == a) ≡ false = ground arith in rw h refl;
}

pub sim_ipc : IpcLaws ⦃p = sim⦄
sim_ipc = record {
  get_result = λ c w. inl refl;
  read_fits = λ c i o n w. omega (arith, length-take n w.inbox);
  read_count = λ c n w e. inl refl;
}

pub sim_lists : ListLaws ⦃p = sim⦄
sim_lists = record { in_list = λ a l. refl; added = λ a l h. refl; deleted = λ a l h. refl }

-- the server as it stands when it waits for events: two key slots, one open channel of each service
abbrev pub sim_state : List ℕ → State ⦃p = sim⦄
sim_state inbox = record {
  world = record { entry = 0; last = 0; next = 0x50000; inbox = inbox };
  calls = [];
  mem = λ i. 0;
  caam = record {
    caam_base = 0x1000;
    ccm_base = 0x2000;
    sram_base = 0x3000;
    g_rings = 0x100;
    rings = record { in0 = 0; out0 = 0; out1 = 0 };
    g_job = 0x200;
    job = record { dsc = replicate 64 0; dsc_used = 0; status = 0 };
  };
  hwrng_ctxs = λ a. none;
  hwrng_req_list = [];
  hwrng_port = pos 1;
  hwkey_ctxs = λ a. none;
  key_slots = none;
  key_slot_cnt = 0;
  rpmb_keyblob_len = 80;
}
