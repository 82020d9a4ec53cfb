-- ===== src/Caam/SelfTest.antt =====
-- The self tests of app/hwcrypto/caam.c, in a build with WITH_CAAM_SELF_TEST. The buffers that a test
-- declares on its stack are numbered in the order of their declarations.
pub mod Buffers
use trusty_lk_nxp.Common.{
  ℕ, zero, suc, ◌+◌, ◌%◌, Bool, true, false, not, List, [], ◌∷◌, ◌++◌, if◌then◌else◌, bytes_eq,
  codes,
}
use trusty_lk_nxp.Common.Memory.{Memory, memset, store_bytes, load_bytes}
use trusty_lk_nxp.Platform.{Platform}
use trusty_lk_nxp.Machine.{logged, Cmd, get, modify, tell, ◌>>=◌, ◌>>◌}
use trusty_lk_nxp.Caam.Jobs.{
  caam_decap_blob, caam_gen_blob, caam_aes_op, caam_hash, caam_gen_kdfv1_root_key,
}
use trusty_lk_nxp.Caam.Rng.{caam_hwrng}

-- the characters from `c` on, as `i + '0'` gives them
abbrev pub counting : (c n : ℕ) → List ℕ
counting c zero = []
counting c (suc n) = c % 256 ∷ counting (c + 1) n

-- memcmp(a, b, n) == 0
abbrev pub same_bytes : (a b n : ℕ) → Memory → Bool
same_bytes a b n m = bytes_eq (load_bytes a n m) (load_bytes b n m)

-- the line of the log on a test
abbrev pub verdict : List ℕ → Bool → List ℕ
verdict test pass = test ++ (if pass then codes " PASS!!!" else codes " FAILED!!!") ++ 10 ∷ []

-- the loop that fills `plain`, and copies each byte of it to `bak`, from `i` on
unfoldable pub fill_both : (n i plain bak : ℕ) → Memory → Memory
fill_both zero i plain bak m = m
fill_both (suc n) i plain bak m =
    let m' = store_bytes (plain + i) ((i + 48) % 256 ∷ []) m in
    fill_both n (suc i) plain bak (store_bytes (bak + i) (m' (plain + i) ∷ []) m')

module _ ⦃p : Platform⦄ where
  open p use {local_buf}

  abbrev pub change : (Memory → Memory) → Cmd (Unit {0})
  change f = modify (λ s. record s { mem = f s.mem })

  -- the message on the comparison of two buffers
  abbrev pub report : (test : List ℕ) → (pass : Memory → Bool) → Cmd (Unit {0})
  report test pass = do s ← get; tell (logged (verdict test (pass s.mem))) (λ w. w)

  unfoldable pub caam_hwrng_test : Cmd (Unit {0})
  caam_hwrng_test = do
    r ← caam_hwrng (local_buf 0) 32
    r' ← caam_hwrng (local_buf 1) 32
    report (codes "caam hwrng test") (λ m. not (same_bytes (local_buf 0) (local_buf 1) 32 m))

  -- the buffers are keymd, plain, plain_bak and blob
  unfoldable pub caam_blob_test : Cmd (Unit {0})
  caam_blob_test = do
    r ← caam_hwrng (local_buf 0) 16
    change (fill_both 32 0 (local_buf 1) (local_buf 2))
    r' ← caam_gen_blob (local_buf 0) 16 (local_buf 1) (local_buf 3) 32
    change (memset (local_buf 1) 0xff 32)
    r'' ← caam_decap_blob (local_buf 0) 16 (local_buf 1) (local_buf 3) 32
    report (codes "caam blob test") (same_bytes (local_buf 1) (local_buf 2) 32)

  -- the buffers are key, buf1, buf2 and buf3
  unfoldable pub caam_aes_test : Cmd (Unit {0})
  caam_aes_test = do
    r ← caam_hwrng (local_buf 0) 16
    change (store_bytes (local_buf 1) (counting 48 32))
    change (memset (local_buf 2) 0x55 32)
    change (memset (local_buf 3) 0xAA 32)
    e ← caam_aes_op (local_buf 0) 16 (local_buf 1) (local_buf 2) 32 true
    e' ← caam_aes_op (local_buf 0) 16 (local_buf 1) (local_buf 3) 32 true
    report (codes "caam AES enc test") (same_bytes (local_buf 2) (local_buf 3) 32)
    d ← caam_aes_op (local_buf 0) 16 (local_buf 3) (local_buf 2) 32 false
    report (codes "caam AES enc test") (same_bytes (local_buf 1) (local_buf 2) 32)

  -- the buffers are in, hash1 and hash2
  unfoldable pub caam_hash_test : Cmd (Unit {0})
  caam_hash_test = do
    change (store_bytes (local_buf 0) (counting 49 32))
    change (memset (local_buf 1) 0x55 32)
    change (memset (local_buf 2) 0xAA 32)
    r ← caam_hash (local_buf 0) (local_buf 1) 32
    r' ← caam_hash (local_buf 0) (local_buf 2) 32
    report (codes "caam hash test") (same_bytes (local_buf 1) (local_buf 2) 20)

  unfoldable pub caam_kdfv1_root_key_test : Cmd (Unit {0})
  caam_kdfv1_root_key_test = do
    r ← caam_gen_kdfv1_root_key (local_buf 0) 32
    r' ← caam_gen_kdfv1_root_key (local_buf 1) 32
    report (codes "caam gen kdf root key test") (same_bytes (local_buf 0) (local_buf 1) 32)

  unfoldable pub caam_test : Cmd (Unit {0})
  caam_test = do
    caam_hwrng_test
    caam_blob_test
    caam_kdfv1_root_key_test
    caam_aes_test
    caam_hash_test
