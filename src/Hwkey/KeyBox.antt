-- ===== src/Hwkey/KeyBox.antt =====
-- The key box (unpack_kbox of app/hwcrypto/hwkey_srv_provider.c), which the boot loader leaves in
-- the secure RAM.
use trusty_lk_nxp.Common.{
  ℕ, ◌+◌, ◌≤◌, ◌≡◌, refl, ap, ◌∙◌, ◌⊎◌, inl, inr, Bool, true, false, arith, Bool-cases, ◌==◌,
  bytes_eq,
}
use mathlib.Core.Path.{subst}
use trusty_lk_nxp.Common.Memory.{
  Memory, IsZeroed, SameOutside, memset, IsZeroed-memset, SameOutside-memset, load_bytes,
  store_bytes, load_bytes_ext, length-load_bytes, load_bytes-store_bytes,
}
use trusty_lk_nxp.Platform.{Platform}
use trusty_lk_nxp.Machine.{State, Cmd, and_then, assert, ◌>>◌}
use trusty_lk_nxp.Machine.Outcome.{Ensures, of_Returned, bind, mono, Ensures-aborted}
use trusty_lk_nxp.Caam.Regs.{caam_success}
use trusty_lk_nxp.Caam.Jobs.{caam_gen_kdfv1_root_key}
use trusty_lk_nxp.Caam.Device.{DeviceLaws}
use trusty_lk_nxp.Caam.Frame.{kept}
use trusty_lk_nxp.Caam.Operations.{caam_gen_kdfv1_root_key-Ensures}
use trusty_lk_nxp.Hwkey.Provider.{keypack_magic, load_u32, set_bytes, copy_rpmb_blob, unpack_kbox}

-- Two ranges do not meet.
abbrev pub Apart : (a n b m : ℕ) → Type 0
Apart a n b m = (a + n ≤ b) ⊎ (b + m ≤ a)

module _ ⦃p : Platform⦄ where
  open p use {kdfv1_key, rpmb_keyblob}

  -- The key box lies apart from the two buffers that are filled, and these from each other: the root key
  -- with the 48 bytes that its job has room for.
  pub record BoxLayout (kbox : ℕ) : Type 0 where
    pub box_blob : Apart kbox 1172 rpmb_keyblob 80
    pub keys : Apart kdfv1_key 48 rpmb_keyblob 80

  -- what the unpacking of the key box at `kbox` leaves
  abbrev pub Unpacked : (kbox : ℕ) → State → Unit {0} → State → Type 0
  Unpacked kbox s _ t =
      IsZeroed kbox 1172 t.mem
      × (((load_u32 (kbox + 4) s.mem == 80) ≡ true)
          → (t.rpmb_keyblob_len ≡ load_u32 (kbox + 4) s.mem)
            × (load_bytes rpmb_keyblob 80 t.mem ≡ load_bytes (kbox + 8) 80 s.mem))
      × (((load_u32 (kbox + 4) s.mem == 80) ≡ false) → t.rpmb_keyblob_len ≡ s.rpmb_keyblob_len)

  -- the root key is made, and the box cleared
  abbrev pub seal : (kbox : ℕ) → Cmd (Unit {0})
  seal kbox s =
      and_then (caam_gen_kdfv1_root_key kdfv1_key 32 s)
        λ res. assert (res == caam_success) >> set_bytes kbox 0 1172

  abbrev pub Sealed : (kbox : ℕ) → State → Unit {0} → State → Type 0
  Sealed kbox s _ t =
      (m : Memory) × SameOutside kdfv1_key 48 s.mem m
      × (t.mem ≡ memset kbox 0 1172 m)
      × (kept t ≡ kept s)

  -- the blob is read back as it was stored
  blob_kept :
      (kbox : ℕ) (s : State) (m : Memory)
      → BoxLayout kbox
      → SameOutside kdfv1_key 48 (store_bytes rpmb_keyblob (load_bytes (kbox + 8) 80 s.mem) s.mem) m
      → load_bytes rpmb_keyblob 80 (memset kbox 0 1172 m) ≡ load_bytes (kbox + 8) 80 s.mem
  blob_kept kbox s m layout same =
      load_bytes_ext rpmb_keyblob 80 m (memset kbox 0 1172 m)
        (λ i lo hi. SameOutside-memset kbox 0 1172 m i (ground (arith, layout.box_blob)))
      ∙ load_bytes_ext rpmb_keyblob 80
          (store_bytes rpmb_keyblob (load_bytes (kbox + 8) 80 s.mem) s.mem) m
          (λ i lo hi. same i (ground (arith, layout.keys)))
      ∙ subst
          (λ n.
            load_bytes rpmb_keyblob n
              (store_bytes rpmb_keyblob (load_bytes (kbox + 8) 80 s.mem) s.mem)
            ≡ load_bytes (kbox + 8) 80 s.mem)
          (length-load_bytes (kbox + 8) 80 s.mem)
          (load_bytes-store_bytes rpmb_keyblob (load_bytes (kbox + 8) 80 s.mem) s.mem)

  -- the state once the blob was taken over
  abbrev pub taken : (kbox : ℕ) → State → State
  taken kbox s = record s {
    mem = store_bytes rpmb_keyblob (load_bytes (kbox + 8) 80 s.mem) s.mem;
    rpmb_keyblob_len = load_u32 (kbox + 4) s.mem;
  }

  pub copy_rpmb_blob-taken :
      (kbox : ℕ) (s : State)
      → (load_u32 (kbox + 4) s.mem == 80) ≡ true
      → copy_rpmb_blob kbox s ≡ taken kbox s
  unfolding copy_rpmb_blob
  copy_rpmb_blob-taken kbox s h = rw h refl

  pub copy_rpmb_blob-same :
      (kbox : ℕ) (s : State) → (load_u32 (kbox + 4) s.mem == 80) ≡ false → copy_rpmb_blob kbox s ≡ s
  unfolding copy_rpmb_blob
  copy_rpmb_blob-same kbox s h = rw h refl

  Unpacked-Sealed :
      (kbox : ℕ) (s t : State)
      → BoxLayout kbox
      → Sealed kbox (copy_rpmb_blob kbox s) tt t
      → Unpacked kbox s tt t
  Unpacked-Sealed kbox s t layout (m, same, e, k) = (
    (λ i lo hi. ap (λ f. f i) e ∙ IsZeroed-memset kbox 1172 m i lo hi),
    (λ fits. (
      ap (λ k. k.rpmb_keyblob_len) k
          ∙ ap (λ u. u.rpmb_keyblob_len) (copy_rpmb_blob-taken kbox s fits),
      ap (load_bytes rpmb_keyblob 80) e
          ∙ blob_kept kbox s m layout (
              subst (λ u. SameOutside kdfv1_key 48 u.mem m) (copy_rpmb_blob-taken kbox s fits)
                same),
    )),
    λ other.
        ap (λ k. k.rpmb_keyblob_len) k
        ∙ ap (λ u. u.rpmb_keyblob_len) (copy_rpmb_blob-same kbox s other),
  )

  module _ {strict : Bool} (laws : strict ≡ true → DeviceLaws) where
    pub seal-Sealed : (kbox : ℕ) (s : State) → Ensures strict (Sealed kbox s) (seal kbox s)
    seal-Sealed kbox s =
        bind (caam_gen_kdfv1_root_key-Ensures laws kdfv1_key s) λ res t ((same, k), good, end).
          elim (Bool-cases (res == caam_success)) [
            | inl fine ↦ rw fine (of_Returned _ _ (t.mem, same, refl, k))
            | inr bad ↦ rw bad (Ensures-aborted λ e. ground (arith, good e))
          ]

    -- The unpacking of a key box with the magic, before any blob was taken, where the box lies
    -- apart from the blob's buffer, and that from the root key: the whole box is cleared; a blob
    -- whose length is the one expected is taken over byte for byte with its length, and without
    -- such a one there is no blob. Under the laws of the device it ends; without them it may also
    -- stop by an assert or wait for ever.
    pub unpack_kbox-Unpacked :
        (s : State)
        → BoxLayout s.caam.sram_base
        → bytes_eq (load_bytes s.caam.sram_base 4 s.mem) keypack_magic ≡ true
        → s.rpmb_keyblob_len ≡ 0
        → Ensures strict (Unpacked s.caam.sram_base s) (unpack_kbox s)
    unfolding unpack_kbox
    unpack_kbox-Unpacked s layout magic empty =
        let e : (s.rpmb_keyblob_len == 0) ≡ true = ground arith in
        rw (magic, e)
          (mono (seal-Sealed s.caam.sram_base (copy_rpmb_blob s.caam.sram_base s))
            λ _ t sealed. Unpacked-Sealed s.caam.sram_base s t layout sealed)
