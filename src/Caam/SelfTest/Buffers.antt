-- ===== src/Caam/SelfTest/Buffers.antt =====
-- The self tests of app/hwcrypto/caam.c write into their stack frame, and nowhere else.
use trusty_lk_nxp.Common.{
  ℕ, zero, suc, ◌+◌, ◌%◌, ◌≤◌, ◌<◌, ◌≡◌, refl, ◌∙◌, ◌⊎◌, Bool, true, false, [], ◌∷◌, arith, length,
}
use trusty_lk_nxp.Common.Memory.{
  Memory, SameOutside, memset, SameOutside-memset, store_bytes, store_bytes_outside,
}
use trusty_lk_nxp.Platform.{Platform}
use trusty_lk_nxp.Machine.{State}
use trusty_lk_nxp.Machine.Outcome.{Ensures, of_Returned, bind, mono}
use trusty_lk_nxp.Caam.Device.{DeviceLaws, WithinBuffer}
use trusty_lk_nxp.Caam.Frame.{Frame, Frame-refl, Frame-widen, Frame-trans}
use trusty_lk_nxp.Caam.Fill.{caam_hwrng-Filled}
use trusty_lk_nxp.Caam.Operations.{
  caam_decap_blob-Ensures, caam_gen_blob-Ensures, caam_aes_op-Ensures, caam_hash-Ensures,
  caam_gen_kdfv1_root_key-Ensures,
}
use trusty_lk_nxp.Caam.Rng.{caam_hwrng}
use trusty_lk_nxp.Caam.SelfTest.{
  counting, fill_both, caam_hwrng_test, caam_blob_test, caam_aes_test, caam_hash_test,
  caam_kdfv1_root_key_test, caam_test,
}

length-counting : (c n : ℕ) → length (counting c n) ≡ n
length-counting c zero = refl
length-counting c (suc n) = omega (arith, length-counting (c + 1) n)

fill_both_outside :
    (n i plain bak : ℕ) (m : Memory) (j : ℕ)
    → (j < plain + i) ⊎ (plain + i + n ≤ j)
    → (j < bak + i) ⊎ (bak + i + n ≤ j)
    → fill_both n i plain bak m j ≡ m j
unfolding fill_both store_bytes
fill_both_outside zero i plain bak m j h h' = refl
fill_both_outside (suc n) i plain bak m j h h' = ground (
  arith,
  fill_both_outside n (suc i) plain bak
      (store_bytes (bak + i) (store_bytes (plain + i) ((i + 48) % 256 ∷ []) m (plain + i) ∷ [])
        (store_bytes (plain + i) ((i + 48) % 256 ∷ []) m))
      j,
)

module _ ⦃p : Platform⦄ where
  open p use {stack, local_buf}

  -- Four buffers of at most 128 bytes lie in the stack frame of 1024 bytes.
  abbrev pub StackLayout : Type 0
  StackLayout = (k : ℕ) → k < 4 → (stack ≤ local_buf k) × (local_buf k + 128 ≤ stack + 1024)

  abbrev pub InStack : State → State → Type 0
  InStack s t = Frame stack 1024 s t

  change-InStack :
      (s t : State) (m : Memory)
      → SameOutside stack 1024 t.mem m
      → InStack s t
      → InStack s (record t { mem = m })
  change-InStack s t m same (mem, k) = ((λ i out. same i out ∙ mem i out), k)

  -- the two ways in which a test sets up a buffer
  abbrev set_to : (k v : ℕ) → State → State
  set_to k v t = record t { mem = memset (local_buf k) v 32 t.mem }

  abbrev counted : (k c : ℕ) → State → State
  counted k c t = record t { mem = store_bytes (local_buf k) (counting c 32) t.mem }

  module _ (within : WithinBuffer) {strict : Bool} (laws : strict ≡ true → DeviceLaws)
      (layout : StackLayout) (s : State) where
    -- a range of one buffer, as one of the frame
    widened :
        (k n : ℕ) (t u : State)
        → k < 4
        → n ≤ 128
        → InStack s t
        → Frame (local_buf k) n t u
        → InStack s u
    widened k n t u one small f g =
        let (lo, hi) = layout k one in
        Frame-trans stack 1024 s t u f (
          Frame-widen (local_buf k) n stack 1024 t u (λ i out. omega (arith, out, lo, hi, small)) g)

    memset-InStack : (k v : ℕ) (t : State) → k < 4 → InStack s t → InStack s (set_to k v t)
    memset-InStack k v t one f =
        let (lo, hi) = layout k one in
        change-InStack s t _
          (λ i out. SameOutside-memset (local_buf k) v 32 t.mem i (omega (arith, out, lo, hi))) f

    counting-InStack : (k c : ℕ) (t : State) → k < 4 → InStack s t → InStack s (counted k c t)
    counting-InStack k c t one f =
        let (lo, hi) = layout k one in
        change-InStack s t _
          (λ i out.
            store_bytes_outside (local_buf k) (counting c 32) t.mem i
              (omega (arith, out, lo, hi, length-counting c 32)))
          f

    caam_hwrng-InStack :
        (k n : ℕ) (t : State)
        → k < 4
        → n ≤ 128
        → InStack s t
        → Ensures strict (λ _ u. InStack s u) (caam_hwrng (local_buf k) n t)
    caam_hwrng-InStack k n t one small f =
        mono (caam_hwrng-Filled within laws (local_buf k) n t (omega (arith, small)))
          λ r u done. widened k n t u one small f done.0

    caam_hwrng_test-InStack :
        (t : State) → InStack s t → Ensures strict (λ _ u. InStack s u) (caam_hwrng_test t)
    unfolding caam_hwrng_test
    caam_hwrng_test-InStack t f =
        bind (caam_hwrng-InStack 0 32 t (omega arith) (omega arith) f) λ r u f'.
          bind (caam_hwrng-InStack 1 32 u (omega arith) (omega arith) f')
            λ r' v f''. of_Returned _ _ f''

    caam_kdfv1_root_key_test-InStack :
        (t : State) → InStack s t → Ensures strict (λ _ u. InStack s u) (caam_kdfv1_root_key_test t)
    unfolding caam_kdfv1_root_key_test
    caam_kdfv1_root_key_test-InStack t f =
        bind (caam_gen_kdfv1_root_key-Ensures laws (local_buf 0) t) λ r u done.
          bind (caam_gen_kdfv1_root_key-Ensures laws (local_buf 1) u) λ r' v done'.
            of_Returned _ _ (
              widened 1 48 u v (omega arith) (omega arith)
                (widened 0 48 t u (omega arith) (omega arith) f done.0) done'.0)

    caam_hash_test-InStack :
        (t : State) → InStack s t → Ensures strict (λ _ u. InStack s u) (caam_hash_test t)
    unfolding caam_hash_test
    caam_hash_test-InStack t f =
        bind (caam_hash-Ensures laws (local_buf 0) (local_buf 1) 32 _ refl) λ r u done.
          bind (caam_hash-Ensures laws (local_buf 0) (local_buf 2) 32 u refl) λ r' v done'.
            of_Returned _ _ (
              widened 2 32 u v (omega arith) (omega arith)
                (widened 1 32 (set_to 2 0xAA (set_to 1 0x55 (counted 0 49 t))) u (omega arith)
                  (omega arith)
                  (memset-InStack 2 0xAA (set_to 1 0x55 (counted 0 49 t)) (omega arith) (
                    memset-InStack 1 0x55 (counted 0 49 t) (omega arith)
                      (counting-InStack 0 49 t (omega arith) f)))
                  done.0)
                done'.0)

    caam_aes_test-InStack :
        (t : State) → InStack s t → Ensures strict (λ _ u. InStack s u) (caam_aes_test t)
    unfolding caam_aes_test
    caam_aes_test-InStack t f =
        bind (caam_hwrng-InStack 0 16 t (omega arith) (omega arith) f) λ r u f'.
          bind
            (caam_aes_op-Ensures laws (local_buf 0) (local_buf 1) (local_buf 2) 32 true _ refl refl)
            λ e v done.
              bind
                (caam_aes_op-Ensures laws (local_buf 0) (local_buf 1) (local_buf 3) 32 true v refl
                  refl)
                λ e' w done'.
                  bind
                    (caam_aes_op-Ensures laws (local_buf 0) (local_buf 3) (local_buf 2) 32 false _
                      refl refl)
                    λ d x done''. of_Returned _ _ (
                      widened 2 32 w x (omega arith) (omega arith)
                        (widened 3 32 v w (omega arith) (omega arith)
                          (widened 2 32 (set_to 3 0xAA (set_to 2 0x55 (counted 1 48 u))) v
                            (omega arith) (omega arith)
                            (memset-InStack 3 0xAA (set_to 2 0x55 (counted 1 48 u)) (omega arith) (
                              memset-InStack 2 0x55 (counted 1 48 u) (omega arith)
                                (counting-InStack 1 48 u (omega arith) f')))
                            done.0)
                          done'.0)
                        done''.0)

    fill_both-InStack :
        (t : State)
        → InStack s t
        → InStack s (record t { mem = fill_both 32 0 (local_buf 1) (local_buf 2) t.mem })
    fill_both-InStack t f =
        let (lo, hi) = layout 1 (omega arith) in
        let (lo', hi') = layout 2 (omega arith) in
        change-InStack s t _
          (λ i out.
            fill_both_outside 32 0 (local_buf 1) (local_buf 2) t.mem i (omega (arith, out, lo, hi))
              (omega (arith, out, lo', hi')))
          f

    caam_blob_test-InStack :
        (t : State) → InStack s t → Ensures strict (λ _ u. InStack s u) (caam_blob_test t)
    unfolding caam_blob_test
    caam_blob_test-InStack t f =
        bind (caam_hwrng-InStack 0 16 t (omega arith) (omega arith) f) λ r u f'.
          let filled : State = record u {
            mem = fill_both 32 0 (local_buf 1) (local_buf 2) u.mem;
          } in
          bind
            (caam_gen_blob-Ensures laws (local_buf 0) (local_buf 1) (local_buf 3) 32 filled
              (omega arith))
            λ r' v done.
              bind
                (caam_decap_blob-Ensures laws (local_buf 0) (local_buf 1) (local_buf 3) 32
                  (set_to 1 0xff v) (omega arith))
                λ r'' w done'. of_Returned _ _ (
                  widened 1 32 (set_to 1 0xff v) w (omega arith) (omega arith)
                    (memset-InStack 1 0xff v (omega arith) (
                      widened 3 80 filled v (omega arith) (omega arith) (fill_both-InStack u f')
                        done.0))
                    done'.0)

  -- The self tests change no byte outside their stack frame, keep all that the driver and the services
  -- keep, and under the laws of the device come to their end; the buffers lie in the stack
  -- frame, and prepare_dma finds ranges within a buffer.
  pub caam_test-InStack :
      (within : WithinBuffer) {strict : Bool} (laws : strict ≡ true → DeviceLaws)
      (layout : StackLayout) (s : State)
      → Ensures strict (λ _ t. InStack s t) (caam_test s)
  unfolding caam_test
  caam_test-InStack within laws layout s =
      bind (caam_hwrng_test-InStack within laws layout s s (Frame-refl stack 1024 s)) λ _ t f1.
        bind (caam_blob_test-InStack within laws layout s t f1) λ _ u f2.
          bind (caam_kdfv1_root_key_test-InStack within laws layout s u f2) λ _ v f3.
            bind (caam_aes_test-InStack within laws layout s v f3)
              λ _ w f4. caam_hash_test-InStack within laws layout s w f4
