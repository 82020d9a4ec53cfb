-- ===== src/Kernel.antt =====
-- The kernel's side of the platform: platform/imx.
pub mod Soc
pub mod Exec
pub mod Uart
pub mod Tzasc
pub mod Boot
