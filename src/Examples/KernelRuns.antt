-- ===== src/Examples/KernelRuns.antt =====
-- Runs of the kernel's platform code on the concrete machine.
use trusty_lk_nxp.Common.{◌*◌, ◌^◌, ◌≡◌, true, refl, inl, All, bit_or, arith}
use trusty_lk_nxp.Machine.Outcome.{Ensures}
use trusty_lk_nxp.Kernel.Uart.{uart_putc, uart_getc}
use trusty_lk_nxp.Kernel.Uart.Transmit.{Sent, line_ends, uart_putc-Sent}
use trusty_lk_nxp.Kernel.Uart.Receive.{Got, uart_getc-Got}
use trusty_lk_nxp.Kernel.Tzasc.{tz_attr, tzasc_regions, initial_tzasc, tz_sp_s_w, tz_sp_s_r}
use trusty_lk_nxp.Kernel.Tzasc.Registers.{RegistersOf, initial_tzasc-RegistersOf}
use trusty_lk_nxp.Kernel.Tzasc.Regions.{
  permissions, size_code, is_enabled, tz_attr-fields, decided, tzasc_regions-decided,
}
use trusty_lk_nxp.Kernel.Boot.{platform_init_mmu_mappings, platform_after_vm_init}
use trusty_lk_nxp.Kernel.Boot.Arena.{AddsArena, IsNamed, platform_init_mmu_mappings-AddsArena}
use trusty_lk_nxp.Kernel.Boot.Devices.{Started, platform_after_vm_init-Started}
use trusty_lk_nxp.Examples.KernelSim.{machine, kernel, machine_Transmits}

uart_putc-Sent_example : Ensures true (Sent (line_ends 10) kernel) (uart_putc 10 kernel)
uart_putc-Sent_example = uart_putc-Sent {strict = true} (λ e. machine_Transmits) 10 kernel

uart_getc-Got_example : Ensures true (Got true kernel) (uart_getc true kernel)
uart_getc-Got_example = uart_getc-Got {strict = true} true kernel (λ e e'. inl refl)

initial_tzasc-RegistersOf_example :
    Ensures true (RegistersOf tzasc_regions kernel) (initial_tzasc tzasc_regions kernel)
initial_tzasc-RegistersOf_example = initial_tzasc-RegistersOf {strict = true} tzasc_regions kernel

tz_attr-fields_example :
    (permissions (tz_attr (12 * 2 ^ 28) 0 (0x18 * 2) 1) ≡ 12)
    × (size_code (tz_attr (12 * 2 ^ 28) 0 (0x18 * 2) 1) ≡ 0x18)
    × (is_enabled (tz_attr (12 * 2 ^ 28) 0 (0x18 * 2) 1) ≡ true)
tz_attr-fields_example = tz_attr-fields 12 0x18 1 (omega arith) (omega arith) (omega arith)

tzasc_regions-decided_example : decided tzasc_regions 0x9e001000 0 ≡ bit_or tz_sp_s_w tz_sp_s_r
tzasc_regions-decided_example = tzasc_regions-decided ⦃k = machine⦄ 0x9e001000 (omega arith)

kernel_IsNamed : All (IsNamed ⦃k = machine⦄) kernel.mappings
kernel_IsNamed = ((λ e. (_, refl)), ((λ e. absurd cc), ((λ e. absurd cc), tt)))

platform_init_mmu_mappings-AddsArena_example :
    Ensures true (AddsArena kernel) (platform_init_mmu_mappings kernel)
platform_init_mmu_mappings-AddsArena_example =
    platform_init_mmu_mappings-AddsArena {strict = true} kernel kernel_IsNamed

platform_after_vm_init-Started_example :
    Ensures true (Started kernel) (platform_after_vm_init kernel)
platform_after_vm_init-Started_example = platform_after_vm_init-Started {strict = true} kernel
