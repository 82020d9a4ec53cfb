-- ===== src/Caam/Operations.antt =====
-- The operations of app/hwcrypto/caam.c on a fixed number of buffers (caam_decap_blob,
-- caam_gen_blob, caam_aes_op, caam_hash, caam_gen_kdfv1_root_key).
use Prim.Native.Nat.{max}
use trusty_lk_nxp.Common.{
  ℕ, ◌+◌, ◌<◌, ◌%◌, ◌≡◌, Bool, true, List, ◌∷◌, arith, leb, lt→ltb, ap, ◌∙◌, if◌then◌else◌, false,
  refl, [], ◌^◌,
}
use trusty_lk_nxp.Caam.Descriptors.{
  decap_dsc-stores, gen_dsc-stores, aes_dsc-stores, hash_dsc-stores, kdfv1_dsc-stores,
  aes_dsc-words, hash_dsc-words,
}
use trusty_lk_nxp.Common.Memory.{load_bytes}
use trusty_lk_nxp.Platform.{Platform}
use trusty_lk_nxp.Machine.{Call, prepared, finished, State}
use trusty_lk_nxp.Machine.Outcome.{Ensures}
use trusty_lk_nxp.Caam.Ring.{u32}
use trusty_lk_nxp.Caam.Jobs.{
  decap_dsc, gen_dsc, kdfv1_dsc, caam_decap_blob, caam_gen_blob, caam_aes_op, caam_hash,
  caam_gen_kdfv1_root_key,
}
use trusty_lk_nxp.Caam.Device.{DeviceLaws}
use trusty_lk_nxp.Caam.Frame.{Frame-refl}
use trusty_lk_nxp.Caam.Results.{
  job_calls, BufferResult, with_buffer-Ensures, run_to_buffer-BufferResult,
}

-- the operation command of AES: its lowest bit asks for encryption
abbrev pub aes_command : (enc : Bool) → ℕ
aes_command true = 0x8210020D
aes_command false = 0x8210020C

command : (enc : Bool) → (if enc then 0x8210020D else 0x8210020C) ≡ aes_command enc
command true = refl
command false = refl

root_words :
    (o : ℕ)
    → kdfv1_dsc o
      ≡ 0xB080000B
        ∷ 0x14C00010
        ∷ 0x7083A393
        ∷ 0x2CC0C9F7
        ∷ 0xFC5D2FC0
        ∷ 0x2C4B04E7
        ∷ 0xF0000000
        ∷ 0
        ∷ (0xF8000000 + 48)
        ∷ o
        ∷ 0x870D0002
        ∷ []
unfolding kdfv1_dsc
root_words o = refl

small : (len : ℕ) → leb len 0xFFFF ≡ true → len < 2 ^ 16
small len h = ground arith

fits : (size : ℕ) → size + 48 < 0xFFFF → u32 (size + 48) ≡ size + 48
fits size h = omega arith

module _ ⦃p : Platform⦄ where
  open p use {dma_flag_to_device, dma_flag_from_device}

  -- the calls of an operation on `s` that succeeds: its buffers are prepared in the order of `buffers`
  -- (the latest first), the job on `dsc` is run, and the output buffer is handed over
  abbrev pub OperationCalls :
      (buffers : List Call) → (dsc : List ℕ) → (out size : ℕ) → State → List Call → Type 0
  OperationCalls buffers dsc out size s cs =
      (pa : ℕ) × (clk : ℕ) × (cs
        ≡ finished out size dma_flag_from_device ∷ job_calls s dsc pa clk (buffers))

  -- a buffer that is handed to the device, and one that the device fills
  abbrev pub to_device : (a n : ℕ) → State → Call
  to_device a n s = prepared a n dma_flag_to_device (load_bytes a n s.mem)

  abbrev pub from_device : (a n : ℕ) → State → Call
  from_device a n s = prepared a n dma_flag_from_device (load_bytes a n s.mem)

  abbrev pub DecapCalls : (kmod plain blob size : ℕ) → State → List Call → Type 0
  DecapCalls kmod plain blob size s cs =
      (k : ℕ) × (b : ℕ) × (o : ℕ) × OperationCalls
        (from_device plain size s ∷ to_device blob (size + 48) s ∷ to_device kmod 16 s ∷ s.calls)
        (decap_dsc (u32 k) (u32 b) (u32 o) size) plain size s cs

  abbrev pub GenCalls : (kmod plain blob size : ℕ) → State → List Call → Type 0
  GenCalls kmod plain blob size s cs =
      (k : ℕ) × (i : ℕ) × (b : ℕ) × OperationCalls
        (from_device blob (size + 48) s ∷ to_device plain size s ∷ to_device kmod 16 s ∷ s.calls)
        (gen_dsc (u32 k) (u32 i) (u32 b) size) blob (size + 48) s cs

  abbrev pub AesCalls : (key input out len : ℕ) → Bool → State → List Call → Type 0
  AesCalls key input out len enc s cs =
      (k : ℕ) × (i : ℕ) × (o : ℕ) × OperationCalls
        (from_device out len s ∷ to_device input len s ∷ to_device key 16 s ∷ s.calls)
        (0xB0800008
          ∷ 0x02000010
          ∷ u32 k
          ∷ aes_command enc
          ∷ (0x22120000 + len)
          ∷ u32 i
          ∷ (0x60300000 + len)
          ∷ u32 o
          ∷ [])
        out len s cs

  abbrev pub HashCalls : (input out len : ℕ) → State → List Call → Type 0
  HashCalls input out len s cs =
      (i : ℕ) × (o : ℕ) × OperationCalls (from_device out len s ∷ to_device input len s ∷ s.calls)
        (0xB0800006 ∷ 0x8441000D ∷ (0x24140000 + len) ∷ u32 i ∷ (0x54200000 + 20) ∷ u32 o ∷ []) out
        len s cs

  abbrev pub RootKeyCalls : (out : ℕ) → State → List Call → Type 0
  RootKeyCalls out s cs =
      (o : ℕ) × OperationCalls (from_device out 32 s ∷ s.calls)
        (0xB080000B
          ∷ 0x14C00010
          ∷ 0x7083A393
          ∷ 0x2CC0C9F7
          ∷ 0xFC5D2FC0
          ∷ 0x2C4B04E7
          ∷ 0xF0000000
          ∷ 0
          ∷ (0xF8000000 + 48)
          ∷ u32 o
          ∷ 0x870D0002
          ∷ [])
        out 32 s cs

  module _ {strict : Bool} (laws : strict ≡ true → DeviceLaws) where
    pub caam_decap_blob-Ensures :
        (kmod plain blob size : ℕ) (s : State)
        → size + 48 < 0xFFFF
        → Ensures strict
            (BufferResult laws (DecapCalls kmod plain blob size s) plain size s)
            (caam_decap_blob kmod 16 plain blob size s)
    unfolding caam_decap_blob
    caam_decap_blob-Ensures kmod plain blob size s h =
        rw (fits size h, lt→ltb _ _ h)
          (with_buffer-Ensures laws _ plain size _ _ _ s s _ (Frame-refl plain size s) λ k w g.
            with_buffer-Ensures laws _ plain size _ _ _ s _ _ g λ b w' g'.
              with_buffer-Ensures laws _ plain size _ _ _ s _ _ g' λ o w'' g''.
                run_to_buffer-BufferResult laws _ _ _ plain size size s _ g'' (omega arith)
                  (decap_dsc-stores (u32 k.paddr) (u32 b.paddr) (u32 o.paddr) size h) refl
                  λ pa clk cs c. (k.paddr, b.paddr, o.paddr, (pa, clk, c)))

    pub caam_gen_blob-Ensures :
        (kmod plain blob size : ℕ) (s : State)
        → size + 48 < 0xFFFF
        → Ensures strict
            (BufferResult laws (GenCalls kmod plain blob size s) blob (size + 48) s)
            (caam_gen_blob kmod 16 plain blob size s)
    unfolding caam_gen_blob
    caam_gen_blob-Ensures kmod plain blob size s h =
        rw (fits size h, lt→ltb _ _ h)
          (with_buffer-Ensures laws _ blob (size + 48) _ _ _ s s _ (Frame-refl _ _ s) λ k w g.
            with_buffer-Ensures laws _ blob (size + 48) _ _ _ s _ _ g λ i w' g'.
              with_buffer-Ensures laws _ blob (size + 48) _ _ _ s _ _ g' λ b w'' g''.
                run_to_buffer-BufferResult laws _ _ _ blob (size + 48) (size + 48) s _ g''
                  (omega arith) (gen_dsc-stores (u32 k.paddr) (u32 i.paddr) (u32 b.paddr) size h)
                  refl λ pa clk cs c. (k.paddr, i.paddr, b.paddr, (pa, clk, c)))

    pub caam_aes_op-Ensures :
        (key input out len : ℕ) (enc : Bool) (s : State)
        → leb len 0xFFFF ≡ true
        → len % 16 ≡ 0
        → Ensures strict
            (BufferResult laws (AesCalls key input out len enc s) out len s)
            (caam_aes_op key 16 input out len enc s)
    unfolding caam_aes_op
    caam_aes_op-Ensures key input out len enc s h blocks =
        rw (h, blocks)
          (with_buffer-Ensures laws _ out len _ _ _ s s _ (Frame-refl out len s) λ k w g.
            with_buffer-Ensures laws _ out len _ _ _ s _ _ g λ i w' g'.
              with_buffer-Ensures laws _ out len _ _ _ s _ _ g' λ o w'' g''.
                run_to_buffer-BufferResult laws _ _ _ out len len s _ g'' (omega arith)
                  (aes_dsc-stores (u32 k.paddr) (u32 i.paddr) (u32 o.paddr) len enc (small len h))
                  (aes_dsc-words (u32 k.paddr) (u32 i.paddr) (u32 o.paddr) len enc (small len h)
                    ∙ ap
                        (λ c.
                          0xB0800008
                          ∷ 0x02000010
                          ∷ u32 k.paddr
                          ∷ c
                          ∷ (0x22120000 + len)
                          ∷ u32 i.paddr
                          ∷ (0x60300000 + len)
                          ∷ u32 o.paddr
                          ∷ [])
                        (command enc))
                  λ pa clk cs c. (k.paddr, i.paddr, o.paddr, (pa, clk, c)))

    pub caam_hash-Ensures :
        (input out len : ℕ) (s : State)
        → leb len 0xFFFF ≡ true
        → Ensures strict
            (BufferResult laws (HashCalls input out len s) out (max 20 len) s)
            (caam_hash input out len s)
    unfolding caam_hash
    caam_hash-Ensures input out len s h = rw h (
        with_buffer-Ensures laws _ out (max 20 len) _ _ _ s s _ (Frame-refl out (max 20 len) s)
          λ i w g. with_buffer-Ensures laws _ out (max 20 len) _ _ _ s _ _ g λ o w' g'.
            run_to_buffer-BufferResult laws _ _ _ out len (max 20 len) s _ g' (omega arith)
              (omega (arith, hash_dsc-stores (u32 i.paddr) (u32 o.paddr) len (small len h)))
              (hash_dsc-words (u32 i.paddr) (u32 o.paddr) len (small len h))
              λ pa clk cs c. (i.paddr, o.paddr, (pa, clk, c)))

    pub caam_gen_kdfv1_root_key-Ensures :
        (out : ℕ) (s : State)
        → Ensures strict
            (BufferResult laws (RootKeyCalls out s) out 48 s)
            (caam_gen_kdfv1_root_key out 32 s)
    unfolding caam_gen_kdfv1_root_key
    caam_gen_kdfv1_root_key-Ensures out s =
        with_buffer-Ensures laws _ out 48 _ _ _ s s _ (Frame-refl out 48 s) λ o w g.
          run_to_buffer-BufferResult laws _ _ _ out 32 48 s _ g (omega arith)
            (kdfv1_dsc-stores (u32 o.paddr)) (root_words (u32 o.paddr))
            λ pa clk cs c. (o.paddr, (pa, clk, c))
