-- ===== src/Examples/KernelSim.antt =====
-- A concrete machine for the kernel's code: an i.MX7D whose console is busy for one read of its status
-- behind each write, with 32 MB of memory for the kernel.
use trusty_lk_nxp.Common.{ℕ, ◌-◌, ◌==◌, if◌then◌else◌, true, [], inl, inr, refl}
use trusty_lk_nxp.Common.Int.{negsuc}
use trusty_lk_nxp.Platform.{imx7}
use trusty_lk_nxp.Kernel.Soc.{Soc}
use trusty_lk_nxp.Kernel.Exec.{KernelState}
use trusty_lk_nxp.Kernel.Boot.{mmu_initial_mappings, initial_arena}
use trusty_lk_nxp.Kernel.Uart.Transmit.{Transmits}

-- the reads of the status until the console is ready
instance abbrev pub machine : Soc
machine = record {
  soc = imx7;
  with_tzasc = true;
  World = ℕ;
  read32 = λ a w. (if w == 0 then 0x60 else 0x0, w - 1);
  write32 = λ v a w. 1;
  wait_rounds = 2;
  pmm_add_arena = λ a w. w;
  vmm_alloc_physical = λ name n va pa f g w. (negsuc 0, w);
  vaddr_to_paddr = λ a w. (a, w);
  mapping_flag_dynamic = 8;
  mapping_flag_device = 4;
  pmm_arena_flag_kmap = 1;
  vmm_flag_valloc_specific = 1;
  arch_mmu_flag_uncached_device = 2;
  arm_gic_init = λ w. w;
  arm_generic_timer_init = λ irq freq w. w;
  thread_sleep = λ n w. w;
  virt_timer_init = λ w. w;
  arm_generic_timer_int = 29;
  membase = 0x9e000000;
  memsize = 0x02000000;
  kernel_base = 0xc0000000;
  kernel_load_offset = 0;
  console_tty_base = 0x30860000;
  secondary_entry = 0xc0001000;
}

-- the kernel before its start
abbrev pub kernel : KernelState ⦃k = machine⦄
kernel = record {
  world = 1;
  effects = [];
  mappings = mmu_initial_mappings;
  ram_arena = initial_arena;
}

pub machine_Transmits : Transmits ⦃k = machine⦄
machine_Transmits c w = inr (inl refl)
