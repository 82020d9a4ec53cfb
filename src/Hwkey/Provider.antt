-- ===== src/Hwkey/Provider.antt =====
-- app/hwcrypto/hwkey_srv_provider.c: key derivation, the RPMB key and the unpacking of the key box.
use trusty_lk_nxp.Common.{
  ℕ, ◌+◌, ◌*◌, ◌^◌, not, List, [], ◌∷◌, ◌++◌, leb, ◌==◌, if◌then◌else◌, bytes_eq, codes,
}
use trusty_lk_nxp.Common.Memory.{Memory, memset, store_bytes, load_bytes}
use trusty_lk_nxp.Platform.{Platform, Uuid}
use trusty_lk_nxp.Machine.{State, Cmd, pure, assert, abort, get, modify, ask, ◌>>=◌, ◌>>◌}
use trusty_lk_nxp.Caam.Regs.{caam_kb_header_len, caam_success}
use trusty_lk_nxp.Caam.Jobs.{caam_decap_blob, caam_gen_kdfv1_root_key, caam_get_keybox}

abbrev pub rpmb_ss_auth_key_size : ℕ
rpmb_ss_auth_key_size = 32

-- RPMBKEY_LEN and PUBKEY_LEN of app/hwcrypto/hwkey_keyslots.h
abbrev pub rpmbkey_len : ℕ
rpmbkey_len = 32 + caam_kb_header_len

abbrev pub pubkey_len : ℕ
pubkey_len = 1032 + caam_kb_header_len

-- KEYPACK_MAGIC, with its terminating zero
abbrev pub keypack_magic : List ℕ
keypack_magic = codes "!KS" ++ 0 ∷ []

-- sizeof(struct keyslot_package): 4 + 4 + 80 + 4 + 1080
abbrev pub keyslot_package_size : ℕ
keyslot_package_size = 4 + 4 + rpmbkey_len + 4 + pubkey_len

-- an `unsigned int` in memory, the lowest byte first
unfoldable pub load_u32 : ℕ → Memory → ℕ
load_u32 a m = m a + m (a + 1) * 2 ^ 8 + m (a + 2) * 2 ^ 16 + m (a + 3) * 2 ^ 24

module _ ⦃p : Platform⦄ where
  open p use {
    hkdf, kdfv1_key, skeymod, rpmb_keyblob, hwkey_no_error, hwkey_err_generic, hwkey_err_bad_len,
    hwkey_err_not_found,
  }

  abbrev pub set_bytes : (addr val n : ℕ) → Cmd (Unit {0})
  set_bytes a v n = modify (λ s. record s { mem = memset a v n s.mem })

  -- The results are the status and `*key_len`.
  unfoldable pub derive_key_v1 : Uuid → (ikm_data ikm_len key_buf : ℕ) → Cmd (ℕ × ℕ)
  derive_key_v1 uuid ikm_data ikm_len key_buf =
      if ikm_len == 0 then pure (hwkey_err_bad_len, 0) else do
        s ← get
        (fine, out) ←
            ask (
              hkdf ikm_len (load_bytes kdfv1_key 32 s.mem) uuid (load_bytes ikm_data ikm_len s.mem))
        modify (λ t. record t { mem = store_bytes key_buf out t.mem })
        if not fine
            then (set_bytes key_buf 0 ikm_len >> pure (hwkey_err_generic, 0))
            else pure (hwkey_no_error, ikm_len)

  -- The results are the status and `*klen`, which is left alone on an error.
  unfoldable pub get_rpmb_ss_auth_key : (kbuf kbuf_len klen : ℕ) → Cmd (ℕ × ℕ)
  get_rpmb_ss_auth_key kbuf kbuf_len klen = do
    assert (leb rpmb_ss_auth_key_size kbuf_len)
    s ← get
    if not (s.rpmb_keyblob_len == rpmbkey_len) then pure (hwkey_err_not_found, klen) else do
      res ← caam_decap_blob skeymod 16 kbuf rpmb_keyblob rpmb_ss_auth_key_size
      if res == caam_success
          then pure (hwkey_no_error, rpmb_ss_auth_key_size)
          else (set_bytes kbuf 0 rpmb_ss_auth_key_size >> pure (hwkey_err_generic, klen))

  -- the copy of the RPMB blob out of the key box at `kbox`
  unfoldable pub copy_rpmb_blob : (kbox : ℕ) → State → State
  copy_rpmb_blob kbox s = if not (load_u32 (kbox + 4) s.mem == rpmbkey_len) then s else record s {
    mem = store_bytes rpmb_keyblob (load_bytes (kbox + 8) rpmbkey_len s.mem) s.mem;
    rpmb_keyblob_len = load_u32 (kbox + 4) s.mem;
  }

  unfoldable pub unpack_kbox : Cmd (Unit {0})
  unpack_kbox = do
    kbox ← caam_get_keybox
    s ← get
    if not (bytes_eq (load_bytes kbox 4 s.mem) keypack_magic) then abort else do
      assert (s.rpmb_keyblob_len == 0)
      modify (copy_rpmb_blob kbox)
      res ← caam_gen_kdfv1_root_key kdfv1_key 32
      assert (res == caam_success)
      set_bytes kbox 0 keyslot_package_size
