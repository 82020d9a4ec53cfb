-- ===== src/Kernel/Uart.antt =====
-- platform/imx/drivers/imx_uart.c and platform/imx/debug.c: the console.
pub mod Transmit
pub mod Receive
use trusty_lk_nxp.Common.{ℕ, zero, suc, ◌+◌, ◌-◌, ◌^◌, Bool, not, bit_and, ◌==◌, if◌then◌else◌}
use trusty_lk_nxp.Common.Int.{ℤ, pos, negsuc}
use trusty_lk_nxp.Machine.{ok, hang}
use trusty_lk_nxp.Kernel.Soc.{Soc, soc_regs_phy, soc_regs_virt}
use trusty_lk_nxp.Kernel.Exec.{slept, Act, pure, skip, tell, read_reg, write_reg, ◌>>=◌, ◌>>◌}

-- the registers, from UART_BASE
abbrev pub urxd : ℕ
urxd = 0x0

abbrev pub utxd : ℕ
utxd = 0x40

abbrev pub uts : ℕ
uts = 0xb4

abbrev pub urxd_rx_data : ℕ
urxd_rx_data = 0xFF

abbrev pub uts_txempty : ℕ
uts_txempty = 2 ^ 6

abbrev pub uts_rxempty : ℕ
uts_rxempty = 2 ^ 5

-- `value & flag`, as a condition
abbrev pub has_bit : ℕ → ℕ → Bool
has_bit v flag = not (bit_and v flag == 0)

module _ ⦃k : Soc⦄ where
  open k use {soc, read32, wait_rounds, thread_sleep, console_tty_base}

  abbrev pub uart_base : ℕ
  uart_base = soc_regs_virt soc + (console_tty_base - soc_regs_phy soc)

  -- `while (test(READ32(addr))) ;`
  unfoldable pub wait_while : (ℕ → Bool) → (rounds addr : ℕ) → Act (Unit {0})
  wait_while test zero a s = hang s
  wait_while test (suc n) a s =
      let (v, w) = read32 a s.world in
      let rest = wait_while test n a (record s { world = w }) in
      if test v then rest else ok tt (record s { world = w })

  unfoldable pub uart_flush_tx : Act (Unit {0})
  uart_flush_tx = wait_while (λ v. not (has_bit v uts_txempty)) wait_rounds (uart_base + uts)

  unfoldable pub receive : Act ℤ
  receive = do v ← read_reg (uart_base + urxd); pure (pos (bit_and v urxd_rx_data))

  unfoldable pub uart_getc : (wait : Bool) → Act ℤ
  uart_getc wait =
      if wait
      then wait_while (λ v. has_bit v uts_rxempty) wait_rounds (uart_base + uts) >> receive
      else do
        v ← read_reg (uart_base + uts)
        if not (has_bit v uts_rxempty) then pure (negsuc 0) else receive

  -- one character, with the wait until it is sent
  unfoldable pub put_char : ℕ → Act ℤ
  put_char c = do
    write_reg c (uart_base + utxd)
    wait_while (λ v. not (has_bit v uts_txempty)) wait_rounds (uart_base + uts)
    pure (pos 0)

  -- The call that sends '\r' before a '\n' makes no further one.
  unfoldable pub uart_putc : (c : ℕ) → Act ℤ
  uart_putc c = if c == 10 then (put_char 13 >>= λ _. put_char c) else put_char c

  unfoldable pub platform_dputc : (c : ℕ) → Act (Unit {0})
  platform_dputc c = uart_putc c >>= λ _. skip

  unfoldable pub platform_dgetc : (wait : Bool) → Act ℤ
  platform_dgetc wait =
      (if wait then tell (slept 100) (thread_sleep 100) else skip) >> pure (negsuc 0)
