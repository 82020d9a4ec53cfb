-- ===== src/Kernel/Exec.antt =====
-- The kernel's platform code as commands: the state is that of the static variables, the outside world
-- and the calls that were made to it, and a command ends as those of the server do.
use trusty_lk_nxp.Common.{ℕ, List, ◌∷◌}
use trusty_lk_nxp.Machine.{Run, ok, and_then}
use trusty_lk_nxp.Kernel.Soc.{Soc, InitialMapping, PmmArena}

-- an effect on the outside; reads of registers are not recorded
pub data Effect : Type 0 where
  wrote32 : (value address : ℕ) → Effect
  added_arena : PmmArena → Effect
  mapped : List ℕ → (size vaddr paddr : ℕ) → Effect
  started_gic : Effect
  started_timer : (irq : ℕ) → Effect
  started_virt_timer : Effect
  slept : ℕ → Effect

module _ ⦃k : Soc⦄ where
  open k use {World, read32, write32}

  pub record KernelState : Type 0 where
    pub world : World
    pub effects : List Effect  -- the latest first
    pub mappings : List InitialMapping
    pub ram_arena : PmmArena

  abbrev pub Act : Type 0 → Type 0
  Act A = KernelState → Run KernelState A

  abbrev pub pure : {A : Type 0} → A → Act A
  pure = ok

  abbrev pub skip : Act (Unit {0})
  skip s = ok tt s

  infixl 5 ◌>>=◌ ◌>>◌
  abbrev pub ◌>>=◌ : {A B : Type 0} → Act A → (A → Act B) → Act B
  ◌>>=◌ m f s = and_then (m s) f

  abbrev pub ◌>>◌ : {B : Type 0} → Act (Unit {0}) → Act B → Act B
  m >> n = m >>= λ _. n

  abbrev pub get : Act KernelState
  get s = ok s s

  abbrev pub ask : {A : Type 0} → (World → A × World) → Act A
  ask f s = let (a, w) = f s.world in ok a (record s { world = w })

  abbrev pub tell : Effect → (World → World) → Act (Unit {0})
  tell e f s = ok tt (record s { world = f s.world; effects = e ∷ s.effects })

  -- READ32 and WRITE32, TZ_REG and writel
  abbrev pub read_reg : ℕ → Act ℕ
  read_reg a = ask (read32 a)

  abbrev pub write_reg : (val addr : ℕ) → Act (Unit {0})
  write_reg v a = tell (wrote32 v a) (write32 v a)
