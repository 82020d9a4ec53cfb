-- ===== src/Imx6ul.antt =====
-- The addresses and sizes of platform/imx/soc/imx6ul (imx-regs.h) that the server and the kernel's code use.
use trusty_lk_nxp.Common.{ℕ, ◌+◌}

abbrev pub gic_base_phy : ℕ
gic_base_phy = 0xa01000

abbrev pub gic_base_virt : ℕ
gic_base_virt = 0x70a01000

abbrev pub soc_regs_phy : ℕ
soc_regs_phy = 0x02000000

abbrev pub soc_regs_virt : ℕ
soc_regs_virt = 0x72000000

abbrev pub soc_regs_size : ℕ
soc_regs_size = 0x00400000

abbrev pub caam_reg_size : ℕ
caam_reg_size = 0x3C000

abbrev pub caam_sec_ram_size : ℕ
caam_sec_ram_size = 0x8000

abbrev pub ccm_reg_size : ℕ
ccm_reg_size = 0x4000

abbrev pub ccm_caam_ccgr_offset : ℕ
ccm_caam_ccgr_offset = 0x68

abbrev pub gic_reg_size : ℕ
gic_reg_size = 0x2000

abbrev pub tz_base : ℕ
tz_base = (0x02100000 + 0x80000) + 0x50000

abbrev pub tz_base_virt : ℕ
tz_base_virt = 0x70000000 + tz_base
