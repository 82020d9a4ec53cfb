-- ===== src/Kernel/Tzasc/Regions.antt =====
-- What the table of regions of platform/imx/soc/*/include/tzasc_regions.h says: by the rule of the
-- controller, the region of the highest number that holds an address decides on it.
use trusty_lk_nxp.Common.{
  ℕ, ◌+◌, ◌*◌, ◌/◌, ◌%◌, ◌^◌, ◌<◌, ◌≡◌, ap, ◌∙◌, ◌&&◌, Bool, List, [], ◌∷◌, arith, ltb, leb, ◌==◌,
  if◌then◌else◌, bit_or,
}
use trusty_lk_nxp.Common.Bits.{bit_or_disjoint, bit_or-zero}
use trusty_lk_nxp.Kernel.Soc.{Soc}
use trusty_lk_nxp.Kernel.Tzasc.{
  TzascRegion, tz_attr, tzasc_regions, tz_sp_s_w, tz_sp_s_r, tz_sp_ns_w, tz_sp_ns_r,
}

-- the fields of the attributes of a region
abbrev pub permissions : ℕ → ℕ
permissions attr = attr / 2 ^ 28

abbrev pub size_code : ℕ → ℕ
size_code attr = attr / 2 % 2 ^ 6

abbrev pub is_enabled : ℕ → Bool
is_enabled attr = attr % 2 == 1

tz_attr-sum :
    (sp size en : ℕ)
    → sp < 2 ^ 4
    → size < 2 ^ 6
    → en < 2
    → tz_attr (sp * 2 ^ 28) 0 (size * 2) en ≡ sp * 2 ^ 28 + size * 2 + en
tz_attr-sum sp size en h₀ h h' = ap (λ n. n % 2 ^ 32) sum ∙ omega arith
  where
    regroup : sp * 2 ^ 28 + size * 2 ≡ (sp * 2 ^ 27 + size) * 2 ^ 1
    regroup = omega arith

    sum : bit_or (bit_or (bit_or (sp * 2 ^ 28) 0) (size * 2)) en ≡ (sp * 2 ^ 27 + size) * 2 ^ 1 + en
    sum =
        ap (λ n. bit_or (bit_or n (size * 2)) en) (bit_or-zero (sp * 2 ^ 28))
        ∙ ap (λ n. bit_or n en) (bit_or_disjoint 28 sp (size * 2) (omega arith) ∙ regroup)
        ∙ bit_or_disjoint 1 (sp * 2 ^ 27 + size) en (omega arith)

-- Attributes of 32 bits that are put together of four bits of permissions, a size code below 2^6 and an
-- enable bit are read back field by field: no field runs into another, and none is cut off.
pub tz_attr-fields :
    (sp size en : ℕ)
    → sp < 2 ^ 4
    → size < 2 ^ 6
    → en < 2
    → (permissions (tz_attr (sp * 2 ^ 28) 0 (size * 2) en) ≡ sp)
      × (size_code (tz_attr (sp * 2 ^ 28) 0 (size * 2) en) ≡ size)
      × (is_enabled (tz_attr (sp * 2 ^ 28) 0 (size * 2) en) ≡ (en == 1))
tz_attr-fields sp size en h₀ h h' =
    rw (tz_attr-sum sp size en h₀ h h') (omega arith, omega arith, ap (λ (n : ℕ). n == 1) low_bit)
  where
    low_bit : (sp * 2 ^ 28 + size * 2 + en) % 2 ≡ en
    low_bit = omega arith

-- A region of size code c holds 2^(c + 1) bytes.
abbrev pub covers : TzascRegion → ℕ → Bool
covers r a = is_enabled r.attr && (leb r.addr_l a && ltb a (r.addr_l + 2 ^ (size_code r.attr + 1)))

-- the permissions at an address, where `old` are those of the regions before
abbrev pub decided : List TzascRegion → (a old : ℕ) → ℕ
decided [] a old = old
decided (r ∷ rs) a old = decided rs a (if covers r a then permissions r.attr else old)

module _ ⦃k : Soc⦄ where
  open k use {membase}

  -- The table gives the 32 MB from MEMBASE on to the secure world only, to read and to write, and every
  -- other address of 32 bits to both worlds.
  pub tzasc_regions-decided :
      (a : ℕ)
      → a < 2 ^ 32
      → decided tzasc_regions a 0 ≡ (
          if leb membase a && ltb a (membase + 32 * 2 ^ 20)
          then bit_or tz_sp_s_w tz_sp_s_r
          else bit_or (bit_or tz_sp_s_w tz_sp_s_r) (bit_or tz_sp_ns_w tz_sp_ns_r))
  unfolding tzasc_regions
  tzasc_regions-decided a h = ground arith
