-- ===== src/Caam/Jobs.antt =====
-- app/hwcrypto/caam.c: the jobs on a fixed number of buffers (blobs, AES, SHA-1, the root key).
use trusty_lk_nxp.Common.{
  ℕ, ◌+◌, ◌%◌, Bool, not, List, [], ◌∷◌, bit_and, bit_or, ltb, leb, ◌==◌, if◌then◌else◌,
}
use trusty_lk_nxp.Platform.{Platform, DmaPmem}
use trusty_lk_nxp.Machine.{Cmd, pure, assert, get, ◌>>=◌, ◌>>◌}
use trusty_lk_nxp.Caam.Regs.{job_ring_sts, caam_kb_header_len, caam_success, caam_failure}
use trusty_lk_nxp.Caam.Ring.{u32, is_one, prepare_buffer, finish_buffer, run_job, fill_job}

-- `0x0000ffff & n`
abbrev pub low16 : ℕ → ℕ
low16 n = bit_and 0x0000ffff n

abbrev pub dma_failed : DmaPmem → Bool
dma_failed pmem = not (is_one pmem.ret)

abbrev pub job_failed : ℕ → Bool
job_failed status = not (bit_and status job_ring_sts == 0)

-- the assignments to `g_job->dsc` of each job, as functions of the physical addresses
unfoldable pub decap_dsc : (kmod_pa blob_pa plain_pa size : ℕ) → List ℕ
decap_dsc kmod_pa blob_pa plain_pa size =
    0xB0800008
    ∷ 0x14400010
    ∷ kmod_pa
    ∷ bit_or 0xF0000000 (low16 (u32 (size + caam_kb_header_len)))
    ∷ blob_pa
    ∷ bit_or 0xF8000000 (low16 size)
    ∷ plain_pa
    ∷ 0x860D0000
    ∷ []

unfoldable pub gen_dsc : (kmod_pa plain_pa blob_pa size : ℕ) → List ℕ
gen_dsc kmod_pa plain_pa blob_pa size =
    0xB0800008
    ∷ 0x14400010
    ∷ kmod_pa
    ∷ bit_or 0xF0000000 (low16 size)
    ∷ plain_pa
    ∷ bit_or 0xF8000000 (low16 (u32 (size + caam_kb_header_len)))
    ∷ blob_pa
    ∷ 0x870D0000
    ∷ []

unfoldable pub aes_dsc : (key_pa in_pa out_pa len : ℕ) → (enc : Bool) → List ℕ
aes_dsc key_pa in_pa out_pa len enc =
    0xb0800008
    ∷ 0x02000010
    ∷ key_pa
    ∷ (if enc then 0x8210020D else 0x8210020C)
    ∷ bit_or 0x22120000 (low16 len)
    ∷ in_pa
    ∷ bit_or 0x60300000 (low16 len)
    ∷ out_pa
    ∷ []

unfoldable pub hash_dsc : (in_pa out_pa len : ℕ) → List ℕ
hash_dsc in_pa out_pa len =
    0xB0800006
    ∷ 0x8441000D
    ∷ bit_or 0x24140000 (low16 len)
    ∷ in_pa
    ∷ bit_or 0x54200000 20
    ∷ out_pa
    ∷ []

unfoldable pub kdfv1_dsc : (pa : ℕ) → List ℕ
kdfv1_dsc pa =
    0xB080000B ∷ 0x14C00010 ∷ 0x7083A393 ∷ 0x2CC0C9F7 ∷ 0xFC5D2FC0 ∷ 0x2C4B04E7 ∷ 0xF0000000 ∷ 0
    ∷ 0xF8000030 ∷ pa ∷ 0x870D0002 ∷ []

module _ ⦃p : Platform⦄ where
  open p use {dma_flag_to_device, dma_flag_from_device}

  -- how each job ends: the run, the look at its status, and the hand-over of the output buffer
  unfoldable pub run_to_buffer : List ℕ → (out size : ℕ) → Cmd ℕ
  run_to_buffer dsc out size = do
    fill_job dsc
    run_job
    s ← get
    if job_failed s.caam.job.status
        then pure caam_failure
        else do finish_buffer dsc out size dma_flag_from_device; pure caam_success

  -- `prepare_dma` of a buffer, with the return of CAAM_FAILURE where it does not find one range
  unfoldable pub with_buffer : (addr size flags : ℕ) → (DmaPmem → Cmd ℕ) → Cmd ℕ
  with_buffer addr size flags use_buffer = do
    pmem ← prepare_buffer addr size flags
    if dma_failed pmem then pure caam_failure else use_buffer pmem

  -- the key box lies at the start of the secure RAM
  abbrev pub caam_get_keybox : Cmd ℕ
  caam_get_keybox = do s ← get; pure s.caam.sram_base

  unfoldable pub caam_decap_blob : (kmod kmod_size plain blob size : ℕ) → Cmd ℕ
  caam_decap_blob kmod kmod_size plain blob size = do
    assert (ltb (u32 (size + caam_kb_header_len)) 0xFFFF)
    assert (kmod_size == 16)
    with_buffer kmod kmod_size dma_flag_to_device λ k.
        with_buffer blob (u32 (size + caam_kb_header_len)) dma_flag_to_device λ b.
          with_buffer plain size dma_flag_from_device
            λ o. run_to_buffer (decap_dsc (u32 k.paddr) (u32 b.paddr) (u32 o.paddr) size) plain size

  unfoldable pub caam_gen_blob : (kmod kmod_size plain blob size : ℕ) → Cmd ℕ
  caam_gen_blob kmod kmod_size plain blob size = do
    assert (ltb (u32 (size + caam_kb_header_len)) 0xFFFF)
    assert (kmod_size == 16)
    with_buffer kmod kmod_size dma_flag_to_device λ k.
        with_buffer plain size dma_flag_to_device λ i.
          with_buffer blob (u32 (size + caam_kb_header_len)) dma_flag_from_device λ b.
            run_to_buffer (gen_dsc (u32 k.paddr) (u32 i.paddr) (u32 b.paddr) size) blob
              (u32 (size + caam_kb_header_len))

  unfoldable pub caam_aes_op : (key key_size input out len : ℕ) → (enc : Bool) → Cmd ℕ
  caam_aes_op key key_size input out len enc = do
    assert (key_size == 16)
    assert (leb len 0xFFFF)
    assert (len % 16 == 0)
    with_buffer key key_size dma_flag_to_device λ k. with_buffer input len dma_flag_to_device λ i.
        with_buffer out len dma_flag_from_device
          λ o. run_to_buffer (aes_dsc (u32 k.paddr) (u32 i.paddr) (u32 o.paddr) len enc) out len

  unfoldable pub caam_hash : (input out len : ℕ) → Cmd ℕ
  caam_hash input out len = do
    assert (leb len 0xFFFF)
    with_buffer input len dma_flag_to_device λ i.
        with_buffer out len dma_flag_from_device
          λ o. run_to_buffer (hash_dsc (u32 i.paddr) (u32 o.paddr) len) out len

  unfoldable pub caam_gen_kdfv1_root_key : (out size : ℕ) → Cmd ℕ
  caam_gen_kdfv1_root_key out size = do
    assert (size == 32)
    with_buffer out size dma_flag_from_device λ o. run_to_buffer (kdfv1_dsc (u32 o.paddr)) out size
