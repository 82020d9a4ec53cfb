-- ===== src/Kernel/Uart/Transmit.antt =====
-- Sending a character (uart_putc, uart_flush_tx and platform_dputc of platform/imx).
use trusty_lk_nxp.Common.{
  ℕ, zero, suc, ◌+◌, ◌≡◌, refl, ◌∙◌, ap, ◌⊎◌, inl, inr, Bool, true, false, not, List, [], ◌∷◌,
  arith, Bool-cases, ◌==◌, if◌then◌else◌,
}
use trusty_lk_nxp.Common.Int.{ℤ, pos}
use trusty_lk_nxp.Machine.Outcome.{Ensures, of_Returned, bind, mono, Ensures-hang}
use trusty_lk_nxp.Kernel.Soc.{Soc}
use trusty_lk_nxp.Kernel.Exec.{Effect, wrote32, KernelState}
use trusty_lk_nxp.Kernel.Uart.{
  utxd, uts, uts_txempty, has_bit, uart_base, wait_while, put_char, uart_putc,
}

module _ ⦃k : Soc⦄ where
  open k use {World, read32, write32, wait_rounds}

  -- A value that fails the test is read from `a` within `n` reads.
  abbrev pub Settles : (ℕ → Bool) → (n a : ℕ) → World → Type 0
  Settles test zero a w = ⊥
  Settles test (suc n) a w = (test (read32 a w).0 ≡ false) ⊎ Settles test n a (read32 a w).1

  -- Only reads were made.
  abbrev pub OnlyReads : KernelState → KernelState → Type 0
  OnlyReads s t = (t.effects ≡ s.effects) × (t.mappings ≡ s.mappings) × (t.ram_arena ≡ s.ram_arena)

  wait_again :
      (test : ℕ → Bool) (n a : ℕ) (w : World)
      → Settles test (suc n) a w
      → test (read32 a w).0 ≡ true
      → Settles test n a (read32 a w).1
  wait_again test n a w (inl e) h = cc
  wait_again test n a w (inr later) h = later

  -- the state behind one read
  abbrev after_read : ℕ → KernelState → KernelState
  after_read a s = record s { world = (read32 a s.world).1 }

  -- The last thing that was done is a read of the register at `a`, of a value that the test does not hold
  -- of.
  abbrev pub HasSettled : (ℕ → Bool) → (a : ℕ) → World → Type 0
  HasSettled test a w' = (w : World) × (test (read32 a w).0 ≡ false) × (w' ≡ (read32 a w).1)

  pub wait_while-OnlyReads :
      {strict : Bool} (test : ℕ → Bool) (n a : ℕ) (s : KernelState)
      → (strict ≡ true → Settles test n a s.world)
      → Ensures strict (λ _ t. OnlyReads s t × HasSettled test a t.world) (wait_while test n a s)
  unfolding wait_while
  wait_while-OnlyReads test zero a s ends = Ensures-hang ends
  wait_while-OnlyReads test (suc n) a s ends = elim (Bool-cases (test (read32 a s.world).0)) [
    | inr done ↦ rw done (of_Returned _ _ ((refl, refl, refl), (s.world, done, refl)))
    | inl more ↦ rw more (
        wait_while-OnlyReads test n a (after_read a s)
          λ e. wait_again test n a s.world (ends e) more)
  ]

  -- The transmitter reports an empty queue within the rounds of the wait, whenever a character was sent.
  abbrev pub Transmits : Type 0
  Transmits =
      (c : ℕ) (w : World)
      → Settles (λ v. not (has_bit v uts_txempty)) wait_rounds (uart_base + uts)
          (write32 c (uart_base + utxd) w)

  -- the characters that go out for one of the program
  abbrev pub line_ends : ℕ → List ℕ
  line_ends c = if c == 10 then 13 ∷ 10 ∷ [] else c ∷ []

  -- the writes of characters, the latest first
  abbrev pub sends : List ℕ → List Effect → List Effect
  sends [] es = es
  sends (c ∷ cs) es = sends cs (wrote32 c (uart_base + utxd) ∷ es)

  -- what the sending of `cs` does
  abbrev pub Sent : List ℕ → KernelState → ℤ → KernelState → Type 0
  Sent cs s r t =
      (r ≡ pos 0)
      × (t.effects ≡ sends cs s.effects)
      × (t.mappings ≡ s.mappings)
      × (t.ram_arena ≡ s.ram_arena)

  module _ {strict : Bool} (transmits : strict ≡ true → Transmits) where
    put_char-Sent : (c : ℕ) (s : KernelState) → Ensures strict (Sent (c ∷ []) s) (put_char c s)
    unfolding put_char
    put_char-Sent c s =
        bind
          (wait_while-OnlyReads (λ v. not (has_bit v uts_txempty)) wait_rounds (uart_base + uts)
            (record s {
              world = write32 c (uart_base + utxd) s.world;
              effects = wrote32 c (uart_base + utxd) ∷ s.effects;
            })
            (λ e. transmits e c s.world))
          λ _ t ((e, m, r), settled). of_Returned _ _ (refl, e, m, r)

    -- The sending of a character puts out that character, with a carriage return before a line feed,
    -- and nothing else, and returns 0; it ends where the transmitter empties.
    pub uart_putc-Sent :
        (c : ℕ) (s : KernelState) → Ensures strict (Sent (line_ends c) s) (uart_putc c s)
    unfolding uart_putc
    uart_putc-Sent c s = elim (Bool-cases (c == 10)) [
      | inr other ↦ rw other (put_char-Sent c s)
      | inl feed ↦
          let e : c ≡ 10 = ground arith in
          rw e (
            bind (put_char-Sent 13 s) λ _ t (z, f, m, r).
              mono (put_char-Sent 10 t) λ _ u (z', f', m', r').
                (z', f' ∙ ap (◌∷◌ (wrote32 10 (uart_base + utxd))) f, m' ∙ m, r' ∙ r))
    ]
