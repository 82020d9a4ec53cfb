-- ===== src/Kernel/Tzasc.antt =====
-- platform/imx/tzasc.c with tzasc.h and the regions of tzasc_regions.h: the memory that the normal
-- world may not touch.
pub mod Registers
pub mod Regions
use trusty_lk_nxp.Common.{◌%◌, ℕ, suc, ◌+◌, ◌*◌, ◌^◌, List, [], ◌∷◌, bit_or}
use trusty_lk_nxp.Kernel.Soc.{Soc, tz_base_virt}
use trusty_lk_nxp.Kernel.Exec.{Act, skip, write_reg, ◌>>=◌, ◌>>◌}

-- struct tzasc_region
pub record TzascRegion : Type 0 where
  pub addr_l : ℕ
  pub addr_h : ℕ
  pub attr : ℕ

abbrev pub tz_sp_ns_w : ℕ
tz_sp_ns_w = 2 ^ 0

abbrev pub tz_sp_ns_r : ℕ
tz_sp_ns_r = 2 ^ 1

abbrev pub tz_sp_s_w : ℕ
tz_sp_s_w = 2 ^ 2

abbrev pub tz_sp_s_r : ℕ
tz_sp_s_r = 2 ^ 3

abbrev pub tz_sp_shift : ℕ
tz_sp_shift = 28

abbrev pub tz_attr_sp_s_wr_onlr : ℕ
tz_attr_sp_s_wr_onlr = bit_or tz_sp_s_w tz_sp_s_r * 2 ^ tz_sp_shift

abbrev pub tz_attr_sp_all : ℕ
tz_attr_sp_all =
    bit_or (bit_or (bit_or tz_sp_s_w tz_sp_s_r) tz_sp_ns_r) tz_sp_ns_w * 2 ^ tz_sp_shift

abbrev pub tz_region_size_32m : ℕ
tz_region_size_32m = 0x18

abbrev pub tz_region_size_512m : ℕ
tz_region_size_512m = 0x1C

abbrev pub tz_region_size_4g : ℕ
tz_region_size_4g = 0x1F

abbrev pub tz_attr_region_size : ℕ → ℕ
tz_attr_region_size s = s * 2 ^ 1

abbrev pub tz_attr_disable_region : ℕ
tz_attr_disable_region = 0

abbrev pub tz_region_enable : ℕ
tz_region_enable = 1

-- a `uint32_t`
abbrev pub tz_attr : (sp sub_dis size en : ℕ) → ℕ
tz_attr sp sub_dis size en = bit_or (bit_or (bit_or sp sub_dis) size) en % 2 ^ 32

module _ ⦃k : Soc⦄ where
  open k use {soc, membase}

  abbrev pub tz_action : ℕ
  tz_action = tz_base_virt soc + 0x004

  abbrev pub tz_int_clear : ℕ
  tz_int_clear = tz_base_virt soc + 0x014

  abbrev pub tz_region_base : ℕ
  tz_region_base = tz_base_virt soc + 0x100

  abbrev pub tz_get_region_addr : ℕ → ℕ
  tz_get_region_addr n = tz_region_base + n * 0x10

  -- the same in both SoCs' tzasc_regions.h
  unfoldable pub tzasc_regions : List TzascRegion
  tzasc_regions =
      record {
        addr_l = 0;
        addr_h = 0;
        attr =
            tz_attr tz_attr_sp_all tz_attr_disable_region (tz_attr_region_size tz_region_size_4g)
              tz_region_enable;
      }
      ∷ record {
        addr_l = 0x80000000;
        addr_h = 0;
        attr =
            tz_attr tz_attr_sp_all tz_attr_disable_region (tz_attr_region_size tz_region_size_512m)
              tz_region_enable;
      }
      ∷ record {
        addr_l = membase;
        addr_h = 0;
        attr =
            tz_attr tz_attr_sp_s_wr_onlr tz_attr_disable_region
              (tz_attr_region_size tz_region_size_32m) tz_region_enable;
      }
      ∷ []

  -- the loop, from the region of number `i` on
  unfoldable pub config_regions : (i : ℕ) → List TzascRegion → Act (Unit {0})
  config_regions i [] = skip
  config_regions i (r ∷ rs) = do
    write_reg r.addr_l (tz_get_region_addr i)
    write_reg r.addr_h (tz_get_region_addr i + 0x4)
    write_reg r.attr (tz_get_region_addr i + 0x8)
    config_regions (suc i) rs

  -- the array and its length, as one list
  unfoldable pub initial_tzasc : List TzascRegion → Act (Unit {0})
  unfolding config_regions
  initial_tzasc rs = do write_reg 0x2 tz_action; config_regions 0 rs; write_reg 0 tz_int_clear
