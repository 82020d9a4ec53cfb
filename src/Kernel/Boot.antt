-- ===== src/Kernel/Boot.antt =====
-- platform/imx/platform.c and platform/imx/soc/imx7d/secondary_init.c: the memory that the kernel is
-- given, and the start of the devices.
pub mod Arena
pub mod Devices
use trusty_lk_nxp.Common.{
  ℕ, ◌+◌, Bool, not, Option, none, some, List, [], ◌∷◌, bit_and, ◌==◌, if◌then◌else◌, bytes_eq,
  codes,
}
use trusty_lk_nxp.Machine.{fault}
use trusty_lk_nxp.Kernel.Soc.{
  Soc, InitialMapping, PmmArena, gic_base_phy, gic_base_virt, gic_reg_size, soc_regs_phy,
  soc_regs_virt, soc_regs_size, src_gpr3,
}
use trusty_lk_nxp.Kernel.Exec.{
  added_arena, mapped, started_gic, started_timer, started_virt_timer, KernelState, Act, pure, skip,
  get, ask, tell, write_reg, ◌>>=◌, ◌>>◌,
}
use trusty_lk_nxp.Kernel.Tzasc.{tzasc_regions, initial_tzasc}

module _ ⦃k : Soc⦄ where
  open k use {
    soc, with_tzasc, membase, memsize, kernel_base, kernel_load_offset, mapping_flag_dynamic,
    mapping_flag_device, pmm_arena_flag_kmap, pmm_add_arena, vmm_alloc_physical,
    vmm_flag_valloc_specific, arch_mmu_flag_uncached_device, arm_gic_init, arm_generic_timer_init,
    arm_generic_timer_int, virt_timer_init, vaddr_to_paddr, secondary_entry,
  }

  -- what the image starts with; start.S may change the entry of the RAM
  abbrev pub mmu_initial_mappings : List InitialMapping
  mmu_initial_mappings =
      record {
        phys = membase + kernel_load_offset;
        virt = kernel_base + kernel_load_offset;
        size = memsize;
        flags = mapping_flag_dynamic;
        name = some (codes "ram");
      }
      ∷ record {
        phys = soc_regs_phy soc;
        virt = soc_regs_virt soc;
        size = soc_regs_size soc;
        flags = mapping_flag_device;
        name = some (codes "soc");
      }
      ∷ record { phys = 0; virt = 0; size = 0; flags = 0; name = none }
      ∷ []

  abbrev pub initial_arena : PmmArena
  initial_arena = record {
    name = codes "ram";
    base = membase + kernel_load_offset;
    size = memsize;
    flags = pmm_arena_flag_kmap;
  }

  abbrev pub is_dynamic : InitialMapping → Bool
  is_dynamic m = not (bit_and m.flags mapping_flag_dynamic == 0)

  -- `ram_arena` as the entry `m` has it
  abbrev pub arena_of : InitialMapping → PmmArena → PmmArena
  arena_of m a = record a { base = m.phys; size = m.size; flags = pmm_arena_flag_kmap }

  abbrev pub set_arena : PmmArena → Act (Unit {0})
  set_arena a = λ s. pure tt (record s { ram_arena = a })

  -- the loop over the entries; the name of a dynamic one is read, and may not be NULL
  unfoldable pub update_arena : List InitialMapping → Act (Unit {0})
  update_arena [] = skip
  update_arena (m ∷ ms) =
      let rest = update_arena ms in
      if not (is_dynamic m) then rest else elim m.name [
        | none ↦ fault
        | some n ↦ λ s.
            if bytes_eq n s.ram_arena.name then set_arena (arena_of m s.ram_arena) s else rest s
      ]

  unfoldable pub platform_init_mmu_mappings : Act (Unit {0})
  platform_init_mmu_mappings = do
    s ← get
    update_arena s.mappings
    t ← get
    tell (added_arena t.ram_arena) (pmm_add_arena t.ram_arena)

  -- a failure is only printed
  unfoldable pub generic_arm64_map_regs : (name : List ℕ) → (vaddr paddr size : ℕ) → Act (Unit {0})
  generic_arm64_map_regs name vaddr paddr size = do
    tell (mapped name size vaddr paddr) (λ w. w)
    ret ← ask (
        vmm_alloc_physical name size vaddr paddr vmm_flag_valloc_specific
          arch_mmu_flag_uncached_device)
    skip

  unfoldable pub platform_after_vm_init : Act (Unit {0})
  platform_after_vm_init = do
    generic_arm64_map_regs (codes "gic") (gic_base_virt soc) (gic_base_phy soc) (gic_reg_size soc)
    tell started_gic arm_gic_init
    tell (started_timer arm_generic_timer_int) (arm_generic_timer_init arm_generic_timer_int 0)
    if with_tzasc then initial_tzasc tzasc_regions else skip

  unfoldable pub platform_per_cpu_virt_timer_init : Act (Unit {0})
  platform_per_cpu_virt_timer_init = tell started_virt_timer virt_timer_init

  -- of the i.MX7D
  unfoldable pub imx7d_smp_init : Act (Unit {0})
  imx7d_smp_init = do entry_pa ← ask (vaddr_to_paddr secondary_entry); write_reg entry_pa src_gpr3
