-- ===== src/Caam/Descriptors.antt =====
-- The words of the jobs of app/hwcrypto/caam.c (the assignments to g_job->dsc).
use trusty_lk_nxp.Common.{
  ℕ, ◌+◌, ◌*◌, ◌^◌, ◌<◌, ◌≤◌, ◌≡◌, refl, sym, ap, ◌∙◌, Bool, if◌then◌else◌, [], ◌∷◌, bit_or, arith,
}
use trusty_lk_nxp.Common.Bits.{bit_or_disjoint, bit_and_low16}
use mathlib.Core.Path.{subst}
use trusty_lk_nxp.Platform.{Platform}
use trusty_lk_nxp.Caam.Ring.{u32}
use trusty_lk_nxp.Caam.Jobs.{low16, decap_dsc, gen_dsc, aes_dsc, hash_dsc, kdfv1_dsc}
use trusty_lk_nxp.Caam.Rng.{rng_dsc}

-- a command in the upper half of a word, with a length in the lower half
length_word : (c n : ℕ) → n < 2 ^ 16 → bit_or (c * 2 ^ 16) (low16 n) ≡ c * 2 ^ 16 + n
length_word c n h =
    ap (bit_or (c * 2 ^ 16)) (bit_and_low16 n ∙ omega arith) ∙ bit_or_disjoint 16 c n h

-- The two blob jobs name the key modifier, then the input, then the output, each with its exact
-- length: that of the plain text, and 48 bytes more for the blob, as long as the blob stays below
-- 0xFFFF bytes. What one makes is as long as what the other opens.
pub blob_dsc_lengths :
    (k i o size : ℕ)
    → size + 48 < 0xFFFF
    → (decap_dsc k i o size
        ≡ 0xB0800008
          ∷ 0x14400010
          ∷ k
          ∷ (0xF0000000 + (size + 48))
          ∷ i
          ∷ (0xF8000000 + size)
          ∷ o
          ∷ 0x860D0000
          ∷ [])
      × (gen_dsc k i o size
          ≡ 0xB0800008
            ∷ 0x14400010
            ∷ k
            ∷ (0xF0000000 + size)
            ∷ i
            ∷ (0xF8000000 + (size + 48))
            ∷ o
            ∷ 0x870D0000
            ∷ [])
unfolding decap_dsc gen_dsc
blob_dsc_lengths k i o size h =
    let e : u32 (size + 48) ≡ size + 48 = omega arith in
    rw
      (
        e,
        length_word 0xF000 (size + 48) (omega arith),
        length_word 0xF800 size (omega arith),
        length_word 0xF000 size (omega arith),
        length_word 0xF800 (size + 48) (omega arith),
      )
      (refl, refl)

-- The other jobs name their input and their output with the exact number of bytes: AES and SHA-1 for
-- all lengths that they accept, the generator for each piece below 2^16 bytes.
pub aes_dsc-words :
    (k i o len : ℕ) (enc : Bool)
    → len < 2 ^ 16
    → aes_dsc k i o len enc
      ≡ 0xB0800008
        ∷ 0x02000010
        ∷ k
        ∷ (if enc then 0x8210020D else 0x8210020C)
        ∷ (0x22120000 + len)
        ∷ i
        ∷ (0x60300000 + len)
        ∷ o
        ∷ []
unfolding aes_dsc
aes_dsc-words k i o len enc h = rw (length_word 0x2212 len h, length_word 0x6030 len h) refl

pub hash_dsc-words :
    (i o len : ℕ)
    → len < 2 ^ 16
    → hash_dsc i o len
      ≡ 0xB0800006 ∷ 0x8441000D ∷ (0x24140000 + len) ∷ i ∷ (0x54200000 + 20) ∷ o ∷ []
unfolding hash_dsc
hash_dsc-words i o len h = rw (length_word 0x2414 len h) refl

pub rng_dsc-words :
    (len o : ℕ)
    → len < 2 ^ 16
    → rng_dsc len o ≡ 0xB0800004 ∷ 0x82500000 ∷ (0x60340000 + len) ∷ u32 o ∷ []
unfolding rng_dsc
rng_dsc-words len o h = rw (length_word 0x6034 len h) refl

-- how many bytes each job stores
module _ ⦃p : Platform⦄ where
  open p use {job_stores, blob_stores, aes_stores, hash_stores, root_key_stores, rng_stores}

  pub decap_dsc-stores :
      (k i o size : ℕ) → size + 48 < 0xFFFF → job_stores (decap_dsc k i o size) ≤ size
  decap_dsc-stores k i o size h =
      subst (λ d. job_stores d ≤ size) (sym (blob_dsc_lengths k i o size h).0)
        (blob_stores k (0xF0000000 + (size + 48)) i size o 0x860D0000 (omega arith))

  pub gen_dsc-stores :
      (k i o size : ℕ) → size + 48 < 0xFFFF → job_stores (gen_dsc k i o size) ≤ size + 48
  gen_dsc-stores k i o size h =
      subst (λ d. job_stores d ≤ size + 48) (sym (blob_dsc_lengths k i o size h).1)
        (blob_stores k (0xF0000000 + size) i (size + 48) o 0x870D0000 (omega arith))

  pub aes_dsc-stores :
      (k i o len : ℕ) (enc : Bool) → len < 2 ^ 16 → job_stores (aes_dsc k i o len enc) ≤ len
  aes_dsc-stores k i o len enc h =
      subst (λ d. job_stores d ≤ len) (sym (aes_dsc-words k i o len enc h))
        (aes_stores k (if enc then 0x8210020D else 0x8210020C) (0x22120000 + len) i len o h)

  pub hash_dsc-stores : (i o len : ℕ) → len < 2 ^ 16 → job_stores (hash_dsc i o len) ≤ 20
  hash_dsc-stores i o len h =
      subst (λ d. job_stores d ≤ 20) (sym (hash_dsc-words i o len h))
        (hash_stores (0x24140000 + len) i 20 o (omega arith))

  pub kdfv1_dsc-stores : (o : ℕ) → job_stores (kdfv1_dsc o) ≤ 48
  unfolding kdfv1_dsc
  kdfv1_dsc-stores o =
      root_key_stores 0x7083A393 0x2CC0C9F7 0xFC5D2FC0 0x2C4B04E7 48 o 0x870D0002 (omega arith)

  pub rng_dsc-stores : (len o : ℕ) → len < 2 ^ 16 → job_stores (rng_dsc len o) ≡ len
  rng_dsc-stores len o h = ap job_stores (rng_dsc-words len o h) ∙ rng_stores len (u32 o) h
