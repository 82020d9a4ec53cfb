-- ===== src/Platform.antt =====
-- What the program takes from outside the repository, as one interface: the Trusty system calls
-- (IPC, DMA, mmap), the registers of the hardware, the allocator, the list library lk/list.h, HKDF
-- of BoringSSL, and the constants and message layouts of the headers that the repository only
-- includes. Each operation takes the state of the outside world and returns the next one.
use trusty_lk_nxp.Common.{
  ℕ, ◌≡◌, ◌<◌, ◌≤◌, ◌+◌, ◌^◌, ◌∷◌, [], ◌≢◌, Bool, true, Option, List, length,
}
use trusty_lk_nxp.Common.Int.{ℤ, is_negative}
use trusty_lk_nxp.Common.Memory.{Memory}

-- a `uuid_t`, by its 16 bytes
abbrev pub Uuid : Type 0
Uuid = List ℕ

-- the four event handlers of the program, as values of `event_handler_proc_t`
pub data Proc : Type 0 where
  hwrng_port_proc hwrng_chan_proc hwkey_port_proc hwkey_chan_proc : Proc

-- struct tipc_event_handler; `none` is a NULL function
pub record TipcEventHandler : Type 0 where
  pub proc : Option Proc
  pub priv : ℕ

-- what a `void*` cookie points to: a static handler, or the one in a context at an address
pub data Cookie : Type 0 where
  null_cookie hwrng_port_cookie hwkey_port_cookie : Cookie
  hwrng_chan_cookie hwkey_chan_cookie : ℕ → Cookie

-- uevent_t
pub record Uevent : Type 0 where
  pub handle : ℤ
  pub event : ℕ
  pub cookie : Cookie

-- the fields of `struct hwkey_msg` that the program uses; `other` holds the bytes of the rest
pub record HwkeyMsg : Type 0 where
  pub cmd : ℕ
  pub status : ℕ
  pub arg1 : ℕ
  pub other : List ℕ

-- ipc_msg_info_t
pub record MsgInfo : Type 0 where
  pub len : ℕ
  pub id : ℕ

-- the result of `prepare_dma` with the first `struct dma_pmem`
pub record DmaPmem : Type 0 where
  pub ret : ℤ
  pub paddr : ℕ
  pub size : ℕ

-- which SoC the build is for (MACH_IMX6 or MACH_IMX7)
pub data Mach : Type 0 where
  imx6 imx7 : Mach

pub record Platform : Type 1 where
  pub mach : Mach
  -- WITH_HWCRYPTO_UNITTEST
  pub with_hwcrypto_unittest : Bool
  pub World : Type 0
  -- lk/reg.h, trusty/sys/mman.h, sys/mman.h: `dma_byte` and `dma_word` are what the device has left
  -- at an address, which `finish_dma` makes visible; `ram_byte` is what the memory holds where the device
  -- has stored nothing; `prepare_dma` is given the contents of the range
  pub readl : ℕ → World → ℕ × World
  pub writel : ℕ → ℕ → World → World
  pub prepare_dma : ℕ → ℕ → ℕ → List ℕ → World → DmaPmem × World
  pub finish_dma : ℕ → ℕ → ℕ → World → World
  pub dma_byte : World → Memory
  pub ram_byte : World → Memory
  -- how many bytes a job stores from its output address on: by the format of each job, what its last
  -- command with a length asks for, and for the outputs other than random numbers at most that
  pub job_stores : List ℕ → ℕ
  pub blob_stores :
      (k a i n o op : ℕ)
      → n < 2 ^ 16
      → job_stores (0xB0800008 ∷ 0x14400010 ∷ k ∷ a ∷ i ∷ (0xF8000000 + n) ∷ o ∷ op ∷ []) ≤ n
  pub aes_stores :
      (k op a i n o : ℕ)
      → n < 2 ^ 16
      → job_stores (0xB0800008 ∷ 0x02000010 ∷ k ∷ op ∷ a ∷ i ∷ (0x60300000 + n) ∷ o ∷ []) ≤ n
  pub hash_stores :
      (a i n o : ℕ)
      → n < 2 ^ 16
      → job_stores (0xB0800006 ∷ 0x8441000D ∷ a ∷ i ∷ (0x54200000 + n) ∷ o ∷ []) ≤ n
  pub root_key_stores :
      (a b c d n o op : ℕ)
      → n < 2 ^ 16
      → job_stores (
          0xB080000B ∷ 0x14C00010 ∷ a ∷ b ∷ c ∷ d ∷ 0xF0000000 ∷ 0 ∷ (0xF8000000 + n) ∷ o ∷ op ∷ [])
        ≤ n
  pub rng_stores :
      (n o : ℕ) → n < 2 ^ 16 → job_stores (0xB0800004 ∷ 0x82500000 ∷ (0x60340000 + n) ∷ o ∷ []) ≡ n
  pub dma_word : World → ℕ → ℕ
  pub mmap : ℕ → ℕ → World → Option ℕ × World
  pub map_failed : ℕ
  pub memalign : ℕ → ℕ → World → ℕ × World
  pub calloc : ℕ → World → ℕ × World
  pub dma_flag_to_device : ℕ
  pub dma_flag_from_device : ℕ
  pub dma_flag_allow_partial : ℕ
  -- how many rounds of a wait on a register the model follows
  pub poll_rounds : ℕ
  -- trusty_ipc.h
  pub port_create : List ℕ → ℕ → ℕ → ℕ → World → ℤ × World
  pub accept : ℤ → World → (ℤ × Uuid) × World
  pub close : ℤ → World → World
  pub set_cookie : ℤ → Cookie → World → ℤ × World
  pub wait_any : World → (ℤ × Uevent) × World
  pub get_msg : ℤ → World → (ℤ × MsgInfo) × World
  pub read_msg : ℤ → ℕ → ℕ → ℕ → World → (ℤ × List ℕ) × World
  pub put_msg : ℤ → ℕ → World → World
  pub send_msg : ℤ → List ℕ → World → ℤ × World
  pub ipc_port_allow_ta_connect : ℕ
  pub invalid_ipc_handle : ℤ
  pub poll_none : ℕ
  pub poll_ready : ℕ
  pub poll_error : ℕ
  pub poll_hup : ℕ
  pub poll_msg : ℕ
  pub poll_send_unblocked : ℕ
  -- uapi/err.h
  pub err_generic : ℤ
  pub err_no_memory : ℤ
  pub err_bad_len : ℤ
  pub err_not_enough_buffer : ℤ
  pub err_bad_len_negative : is_negative err_bad_len ≡ true
  -- lk/list.h: the state of one list and of the nodes that may stand in it
  pub Links : Type 0
  pub list_initial : Links
  pub list_entries : Links → List ℕ
  pub list_in_list : ℕ → Links → Bool
  pub list_add_tail : ℕ → Links → Links
  pub list_delete : ℕ → Links → Links
  -- interface/hwrng/hwrng.h and interface/hwkey/hwkey.h
  pub hwrng_port_name : List ℕ
  pub hwrng_req_size : ℕ
  pub hwrng_req_len : List ℕ → ℕ
  pub hwkey_port_name : List ℕ
  pub hwkey_msg_size : ℕ
  pub hwkey_msg_read : List ℕ → HwkeyMsg
  pub hwkey_msg_bytes : HwkeyMsg → List ℕ
  pub hwkey_resp_bit : ℕ
  pub hwkey_get_keyslot : ℕ
  pub hwkey_derive : ℕ
  pub hwkey_kdf_version_best : ℕ
  pub hwkey_kdf_version_1 : ℕ
  pub hwkey_no_error : ℕ
  pub hwkey_err_generic : ℕ
  pub hwkey_err_bad_len : ℕ
  pub hwkey_err_not_found : ℕ
  pub hwkey_err_not_implemented : ℕ
  pub found_ne_not_found : hwkey_no_error ≢ hwkey_err_not_found
  -- openssl/hkdf.h with SHA-256: the result is `false` on failure, with what was written so far
  pub hkdf : ℕ → List ℕ → List ℕ → List ℕ → World → (Bool × List ℕ) × World
  pub hkdf_length :
      (n : ℕ) (secret salt info : List ℕ) (w : World) → length (hkdf n secret salt info w).0.1 ≡ n
  -- the generated header nxp_hwcrypto_uuid_consts.h
  pub hwcrypto_unittest_app_uuid : Uuid
  pub secure_storage_server_app_uuid : Uuid
  -- where the linker put the static buffers
  pub rng_data : ℕ
  pub key_data : ℕ
  pub req_data : ℕ
  pub kdfv1_key : ℕ
  pub rpmb_keyblob : ℕ
  pub skeymod : ℕ
  -- WITH_CAAM_SELF_TEST, the stack frame of a self test, and the buffers in it
  pub with_caam_self_test : Bool
  pub stack : ℕ
  pub local_buf : ℕ → ℕ
