-- ===== src/Kernel/Tzasc/Registers.antt =====
-- The registers of the address space controller behind initial_tzasc of platform/imx/tzasc.c.
use trusty_lk_nxp.Common.{
  ℕ, suc, ◌+◌, ◌<◌, ◌≡◌, refl, ap, ◌∙◌, Bool, Option, none, some, List, [], ◌∷◌, arith, ◌==◌,
  if◌then◌else◌,
}
use trusty_lk_nxp.Machine.Outcome.{Ensures, of_Returned, bind, mono}
use trusty_lk_nxp.Kernel.Soc.{Soc}
use trusty_lk_nxp.Kernel.Exec.{Effect, wrote32, KernelState}
use trusty_lk_nxp.Kernel.Tzasc.{
  TzascRegion, tz_action, tz_int_clear, tz_region_base, tz_get_region_addr, config_regions,
  initial_tzasc,
}

-- the value that was last written to a register
abbrev pub last_write : ℕ → List Effect → Option ℕ
last_write a [] = none
last_write a (wrote32 v b ∷ es) = let before = last_write a es in if a == b then some v else before
last_write a (_ ∷ es) = last_write a es

abbrev pub or_else : Option ℕ → Option ℕ → Option ℕ
or_else none d = d
or_else (some v) d = some v

-- what a table of regions puts into the register at `a`, where its first region stands at `b`
unfoldable pub table_entry : List TzascRegion → (b a : ℕ) → Option ℕ
table_entry [] b a = none
table_entry (r ∷ rs) b a =
    let rest = table_entry rs (b + 0x10) a in
    if a == b
    then some r.addr_l
    else if a == b + 4
    then some r.addr_h
    else if a == b + 8
    then some r.attr
    else rest

table_entry_below : (rs : List TzascRegion) (b a : ℕ) → a < b → table_entry rs b a ≡ none
unfolding table_entry
table_entry_below [] b a h = refl
table_entry_below (r ∷ rs) b a h = ground (arith, table_entry_below rs (b + 0x10) a)

module _ ⦃k : Soc⦄ where
  open k use {write32}

  -- every register, behind the configuration of `rs`
  abbrev pub RegistersOf : List TzascRegion → KernelState → Unit {0} → KernelState → Type 0
  RegistersOf rs s _ t =
      ((a : ℕ)
        → last_write a t.effects ≡ (
            if a == tz_int_clear
            then some 0
            else or_else (table_entry rs tz_region_base a)
                (if a == tz_action then some 2 else last_write a s.effects)))
      × (t.mappings ≡ s.mappings)
      × (t.ram_arena ≡ s.ram_arena)

  -- the same of the loop
  abbrev Configured : (i : ℕ) → List TzascRegion → KernelState → Unit {0} → KernelState → Type 0
  Configured i rs s _ t =
      ((a : ℕ)
        → last_write a t.effects
          ≡ or_else (table_entry rs (tz_get_region_addr i) a) (last_write a s.effects))
      × (t.mappings ≡ s.mappings)
      × (t.ram_arena ≡ s.ram_arena)

  table_step :
      (r : TzascRegion) (rs : List TzascRegion) (b a : ℕ) (d : Option ℕ)
      → or_else (table_entry rs (b + 0x10) a) (
          if a == b + 8
          then some r.attr
          else if a == b + 4
          then some r.addr_h
          else if a == b
          then some r.addr_l
          else d)
        ≡ or_else (table_entry (r ∷ rs) b a) d
  unfolding table_entry
  table_step r rs b a d = ground (arith, table_entry_below rs (b + 0x10) a)

  next_region : (i : ℕ) → tz_get_region_addr (suc i) ≡ tz_get_region_addr i + 0x10
  next_region i = omega arith

  -- the state behind the writes of one region
  abbrev with_region : (i : ℕ) → TzascRegion → KernelState → KernelState
  with_region i r s = record s {
    world = write32 r.attr (tz_get_region_addr i + 8) (
        write32 r.addr_h (tz_get_region_addr i + 4)
          (write32 r.addr_l (tz_get_region_addr i) s.world));
    effects =
        wrote32 r.attr (tz_get_region_addr i + 8)
        ∷ wrote32 r.addr_h (tz_get_region_addr i + 4)
        ∷ wrote32 r.addr_l (tz_get_region_addr i)
        ∷ s.effects;
  }

  config_regions-Configured :
      {strict : Bool} (i : ℕ) (rs : List TzascRegion) (s : KernelState)
      → Ensures strict (Configured i rs s) (config_regions i rs s)
  unfolding config_regions table_entry
  config_regions-Configured i [] s = of_Returned _ _ ((λ a. refl), refl, refl)
  config_regions-Configured i (r ∷ rs) s =
      mono (config_regions-Configured (suc i) rs (with_region i r s)) λ _ t (regs, m, ar). (
        (λ a.
            regs a
            ∙ ap (λ b. or_else (table_entry rs b a) (last_write a (with_region i r s).effects))
                (next_region i)
            ∙ table_step r rs (tz_get_region_addr i) a (last_write a s.effects)),
        m,
        ar,
      )

  first_region : tz_get_region_addr 0 ≡ tz_region_base
  first_region = omega arith

  -- The configuration of a table of regions returns, and leaves every register with the value that the
  -- table has for it: the two addresses and the attributes of each region in that region's own registers,
  -- 2 in the action register and 0 in the one that clears the interrupt; every other register keeps what
  -- was written to it last.
  pub initial_tzasc-RegistersOf :
      {strict : Bool} (rs : List TzascRegion) (s : KernelState)
      → Ensures strict (RegistersOf rs s) (initial_tzasc rs s)
  unfolding initial_tzasc
  initial_tzasc-RegistersOf rs s =
      bind
        (config_regions-Configured 0 rs (record s {
          world = write32 2 tz_action s.world;
          effects = wrote32 2 tz_action ∷ s.effects;
        }))
        λ _ t (regs, m, ar). of_Returned _ _ (
          (λ a.
              ap (λ (d : Option ℕ). if a == tz_int_clear then some 0 else d)
                (regs a
                  ∙ ap
                      (λ b.
                        or_else (table_entry rs b a)
                          (if a == tz_action then some 2 else last_write a s.effects))
                      first_region)),
          m,
          ar,
        )
