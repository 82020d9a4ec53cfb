-- ===== src/Caam/Regs.antt =====
-- The registers and bit fields of app/hwcrypto/fsl_caam_internal.h that the driver uses, with the
-- constants of app/hwcrypto/caam.h and of the two SoCs' imx-regs.h.
use trusty_lk_nxp.Common.{ℕ, ◌+◌, ◌*◌, ◌^◌, List, [], ◌∷◌}
use trusty_lk_nxp.Imx6ul
use trusty_lk_nxp.Platform.{Mach, imx6, imx7}

-- offsets from `caam_base`
abbrev pub caam_rtmctl : ℕ
caam_rtmctl = 0x0600

abbrev pub caam_rtsdctl : ℕ
caam_rtsdctl = 0x0610

abbrev pub caam_rtfrqmin : ℕ
caam_rtfrqmin = 0x0618

abbrev pub caam_rtfrqmax : ℕ
caam_rtfrqmax = 0x061C

abbrev pub caam_rdsta : ℕ
caam_rdsta = 0x06C0

abbrev pub caam_irbar0 : ℕ
caam_irbar0 = 0x1004

abbrev pub caam_irsr0 : ℕ
caam_irsr0 = 0x100c

abbrev pub caam_irjar0 : ℕ
caam_irjar0 = 0x101c

abbrev pub caam_orbar0 : ℕ
caam_orbar0 = 0x1024

abbrev pub caam_orsr0 : ℕ
caam_orsr0 = 0x102c

abbrev pub caam_orjrr0 : ℕ
caam_orjrr0 = 0x1034

abbrev pub caam_orsfr0 : ℕ
caam_orsfr0 = 0x103c

abbrev pub caam_jrcfgr0_ls : ℕ
caam_jrcfgr0_ls = 0x1054

abbrev pub jrcfg_ls_imsk : ℕ
jrcfg_ls_imsk = 0x00000001

-- 0xF << 28
abbrev pub job_ring_sts : ℕ
job_ring_sts = 0xF * 2 ^ 28

abbrev pub rng_trim_osc_div : ℕ
rng_trim_osc_div = 0

abbrev pub rng_trim_ent_dly : ℕ
rng_trim_ent_dly = 3200

abbrev pub rtmctl_pgm : ℕ
rtmctl_pgm = 2 ^ 16

abbrev pub rtmctl_err : ℕ
rtmctl_err = 2 ^ 12

abbrev pub rdsta_if0 : ℕ
rdsta_if0 = 1

abbrev pub rdsta_skvn : ℕ
rdsta_skvn = 2 ^ 30

-- the job that instantiates the random number generator
abbrev pub rng_inst_desc1 : ℕ
rng_inst_desc1 = 0xB0800009

abbrev pub rng_inst_desc2 : ℕ
rng_inst_desc2 = 0x12A00008

abbrev pub rng_inst_desc3 : ℕ
rng_inst_desc3 = 0x01020304

abbrev pub rng_inst_desc4 : ℕ
rng_inst_desc4 = 0x05060708

abbrev pub rng_inst_desc5 : ℕ
rng_inst_desc5 = 0x82500404

abbrev pub rng_inst_desc6 : ℕ
rng_inst_desc6 = 0xA2000001

abbrev pub rng_inst_desc7 : ℕ
rng_inst_desc7 = 0x10880004

abbrev pub rng_inst_desc8 : ℕ
rng_inst_desc8 = 0x00000001

abbrev pub rng_inst_desc9 : ℕ
rng_inst_desc9 = 0x82501000

-- rng_inst_dsc of caam.c
abbrev pub rng_inst_dsc : List ℕ
rng_inst_dsc =
    rng_inst_desc1 ∷ rng_inst_desc2 ∷ rng_inst_desc3 ∷ rng_inst_desc4 ∷ rng_inst_desc5
    ∷ rng_inst_desc6 ∷ rng_inst_desc7 ∷ rng_inst_desc8 ∷ rng_inst_desc9 ∷ []

abbrev pub caam_kb_header_len : ℕ
caam_kb_header_len = 48

abbrev pub caam_success : ℕ
caam_success = 0

abbrev pub caam_failure : ℕ
caam_failure = 1

abbrev pub max_dsc_num : ℕ
max_dsc_num = 64

abbrev pub caam_reg_size : Mach → ℕ
caam_reg_size imx6 = Imx6ul.caam_reg_size
caam_reg_size imx7 = 0x40000

abbrev pub caam_sec_ram_size : Mach → ℕ
caam_sec_ram_size imx6 = Imx6ul.caam_sec_ram_size
caam_sec_ram_size imx7 = 0x8000

abbrev pub ccm_reg_size : Mach → ℕ
ccm_reg_size imx6 = Imx6ul.ccm_reg_size
ccm_reg_size imx7 = 0x10000

abbrev pub ccm_caam_ccgr_offset : Mach → ℕ
ccm_caam_ccgr_offset imx6 = Imx6ul.ccm_caam_ccgr_offset
ccm_caam_ccgr_offset imx7 = 0x4000 + 16 * 36

-- nxp_hwcrypto_consts.json
abbrev pub caam_mmio_id : ℕ
caam_mmio_id = 8

abbrev pub caam_sec_ram_mmio_id : ℕ
caam_sec_ram_mmio_id = 9

abbrev pub ccm_mmio_id : ℕ
ccm_mmio_id = 10
