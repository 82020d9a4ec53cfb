-- ===== src/Kernel/Soc.antt =====
-- What the code of platform/imx takes from outside the repository: the registers, the memory manager,
-- the drivers of the interrupt controller and the timer, and the constants of the build and of the
-- kernel's headers. The addresses of platform/imx/soc are below.
use trusty_lk_nxp.Common.{ℕ, ◌+◌, Bool, Option, List}
use trusty_lk_nxp.Common.Int.{ℤ}
use trusty_lk_nxp.Imx6ul
use trusty_lk_nxp.Platform.{Mach, imx6, imx7}

-- struct mmu_initial_mapping; `none` is a NULL name
pub record InitialMapping : Type 0 where
  pub phys : ℕ
  pub virt : ℕ
  pub size : ℕ
  pub flags : ℕ
  pub name : Option (List ℕ)

-- pmm_arena_t, in the fields that the code sets
pub record PmmArena : Type 0 where
  pub name : List ℕ
  pub base : ℕ
  pub size : ℕ
  pub flags : ℕ

pub record Soc : Type 1 where
  pub soc : Mach
  pub with_tzasc : Bool
  pub World : Type 0
  -- volatile accesses to a register
  pub read32 : ℕ → World → ℕ × World
  pub write32 : ℕ → ℕ → World → World
  -- how many rounds of a wait on a register the model follows
  pub wait_rounds : ℕ
  -- kernel/vm.h
  pub pmm_add_arena : PmmArena → World → World
  pub vmm_alloc_physical : List ℕ → (size vaddr paddr vmm_flags arch_flags : ℕ) → World → ℤ × World
  pub vaddr_to_paddr : ℕ → World → ℕ × World
  pub mapping_flag_dynamic : ℕ
  pub mapping_flag_device : ℕ
  pub pmm_arena_flag_kmap : ℕ
  pub vmm_flag_valloc_specific : ℕ
  pub arch_mmu_flag_uncached_device : ℕ
  -- dev/interrupt/arm_gic.h, dev/timer/arm_generic.h, kernel/thread.h and vtimer.S
  pub arm_gic_init : World → World
  pub arm_generic_timer_init : (irq freq : ℕ) → World → World
  pub thread_sleep : ℕ → World → World
  pub virt_timer_init : World → World
  pub arm_generic_timer_int : ℕ
  -- MEMBASE, MEMSIZE, KERNEL_BASE, KERNEL_LOAD_OFFSET and CONFIG_CONSOLE_TTY_BASE of the build
  pub membase : ℕ
  pub memsize : ℕ
  pub kernel_base : ℕ
  pub kernel_load_offset : ℕ
  pub console_tty_base : ℕ
  -- where `platform_secondary_entry` of secondary_boot.S lies
  pub secondary_entry : ℕ

-- imx-regs.h of the two SoCs
abbrev pub gic_base_phy : Mach → ℕ
gic_base_phy imx6 = Imx6ul.gic_base_phy
gic_base_phy imx7 = 0x31001000

abbrev pub gic_base_virt : Mach → ℕ
gic_base_virt imx6 = Imx6ul.gic_base_virt
gic_base_virt imx7 = 0x71001000

abbrev pub gic_reg_size : Mach → ℕ
gic_reg_size imx6 = Imx6ul.gic_reg_size
gic_reg_size imx7 = 0x2000

abbrev pub soc_regs_phy : Mach → ℕ
soc_regs_phy imx6 = Imx6ul.soc_regs_phy
soc_regs_phy imx7 = 0x30000000

abbrev pub soc_regs_virt : Mach → ℕ
soc_regs_virt imx6 = Imx6ul.soc_regs_virt
soc_regs_virt imx7 = 0x70000000

abbrev pub soc_regs_size : Mach → ℕ
soc_regs_size imx6 = Imx6ul.soc_regs_size
soc_regs_size imx7 = 0x01000000

abbrev pub tz_base : Mach → ℕ
tz_base imx6 = Imx6ul.tz_base
tz_base imx7 = 0x30780000

abbrev pub tz_base_virt : Mach → ℕ
tz_base_virt imx6 = Imx6ul.tz_base_virt
tz_base_virt imx7 = 0x40000000 + tz_base imx7

-- of the i.MX7D only
abbrev pub src_gpr3 : ℕ
src_gpr3 = 0x40000000 + 0x3039007C
