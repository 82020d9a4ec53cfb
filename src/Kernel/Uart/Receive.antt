-- ===== src/Kernel/Uart/Receive.antt =====
-- Receiving a character (uart_getc and platform_dgetc of platform/imx).
use trusty_lk_nxp.Common.{ℕ, ◌+◌, ◌≡◌, refl, ◌⊎◌, inl, inr, Bool, true, false, Bool-cases, bit_and}
use trusty_lk_nxp.Common.Int.{ℤ, pos, negsuc}
use trusty_lk_nxp.Machine.Outcome.{Ensures, of_Returned, bind}
use trusty_lk_nxp.Kernel.Soc.{Soc}
use trusty_lk_nxp.Kernel.Exec.{KernelState}
use trusty_lk_nxp.Kernel.Uart.{
  urxd, uts, uts_rxempty, urxd_rx_data, has_bit, uart_base, receive, uart_getc,
}
use trusty_lk_nxp.Kernel.Uart.Transmit.{HasSettled, Settles, OnlyReads, wait_while-OnlyReads}

module _ ⦃k : Soc⦄ where
  open k use {World, read32, wait_rounds}

  -- the status that the call reads without a wait, and the world behind it
  abbrev pub status : KernelState → ℕ × World
  status s = read32 (uart_base + uts) s.world

  -- the byte that is read from the receiver in the world `w`, and the world behind it
  abbrev pub IsByteOf : World → ℤ → KernelState → Type 0
  IsByteOf w r t =
      (r ≡ pos (bit_and (read32 (uart_base + urxd) w).0 urxd_rx_data))
      × (t.world ≡ (read32 (uart_base + urxd) w).1)

  -- what the call does: with a wait it gives the byte that the receiver holds right behind a look at the
  -- status that says that it is not empty; without one it gives a byte where the flag of an empty receiver
  -- is set, and -1 where it is not
  abbrev pub Got : (wait : Bool) → KernelState → ℤ → KernelState → Type 0
  Got wait s r t =
      OnlyReads s t
      × (wait ≡ true
          → (w : World) × HasSettled (λ v. has_bit v uts_rxempty) (uart_base + uts) w
            × IsByteOf w r t)
      × (wait ≡ false
          → (((has_bit (status s).0 uts_rxempty ≡ true) × IsByteOf (status s).1 r t)
              ⊎ ((has_bit (status s).0 uts_rxempty ≡ false)
                  × (r ≡ negsuc 0)
                  × (t.world ≡ (status s).1))))

  -- Some character arrives within the rounds of the wait.
  abbrev pub Arrives : KernelState → Type 0
  Arrives s = Settles (λ v. has_bit v uts_rxempty) wait_rounds (uart_base + uts) s.world

  -- A call that waits returns the byte that it reads from the receiver right behind a look at the status
  -- that says that there is one; it ends where a character arrives. A call that does not
  -- wait always returns: -1, without a look at the receiver, where the status says that there is a
  -- character, and a byte of the receiver where the status says that it is empty, which is the wrong way
  -- round. Neither writes a register.
  pub uart_getc-Got :
      {strict : Bool} (wait : Bool) (s : KernelState)
      → (strict ≡ true → wait ≡ true → Arrives s)
      → Ensures strict (Got wait s) (uart_getc wait s)
  unfolding uart_getc receive
  uart_getc-Got true s arrives =
      bind
        (wait_while-OnlyReads (λ v. has_bit v uts_rxempty) wait_rounds (uart_base + uts) s
          (λ e. arrives e refl))
        λ _ t (reads, settled).
          of_Returned _ _ (reads, (λ e. (t.world, settled, (refl, refl))), (λ e. cc))
  uart_getc-Got false s arrives = elim (Bool-cases (has_bit (status s).0 uts_rxempty)) [
    | inl empty ↦
        rw empty (of_Returned _ _ ((refl, refl, refl), (λ e. cc), (λ e. inl (empty, (refl, refl)))))
    | inr full ↦
        rw full (of_Returned _ _ ((refl, refl, refl), (λ e. cc), (λ e. inr (full, refl, refl))))
  ]
