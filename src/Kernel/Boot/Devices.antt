-- ===== src/Kernel/Boot/Devices.antt =====
-- The start of the devices (platform_after_vm_init of platform/imx/platform.c).
use trusty_lk_nxp.Common.{
  ℕ, suc, ◌≡◌, refl, ◌∙◌, ap, sym, Bool, true, false, some, List, [], ◌∷◌, ◌++◌, ◌==◌,
  if◌then◌else◌, codes, append_assoc,
}
use trusty_lk_nxp.Machine.Outcome.{Ensures, of_Returned, bind, mono, both, Ensures-if}
use trusty_lk_nxp.Kernel.Soc.{Soc, gic_base_phy, gic_base_virt, gic_reg_size}
use trusty_lk_nxp.Kernel.Exec.{
  Effect, wrote32, mapped, started_gic, started_timer, KernelState, skip,
}
use trusty_lk_nxp.Kernel.Boot.{platform_after_vm_init, generic_arm64_map_regs}
use trusty_lk_nxp.Kernel.Tzasc.{
  TzascRegion, tz_region_base, tz_int_clear, tz_action, tzasc_regions, config_regions,
  initial_tzasc,
}
use trusty_lk_nxp.Kernel.Tzasc.Registers.{
  last_write, or_else, table_entry, initial_tzasc-RegistersOf,
}

module _ ⦃k : Soc⦄ where
  open k use {soc, with_tzasc, arm_generic_timer_int}

  -- the effects up to the start of the timer, the latest first
  abbrev pub devices : List Effect → List Effect
  devices es =
      started_timer arm_generic_timer_int
      ∷ started_gic
      ∷ mapped (codes "gic") (gic_reg_size soc) (gic_base_virt soc) (gic_base_phy soc)
      ∷ es

  -- Effects were added to those before.
  abbrev pub Adds : List Effect → Unit {0} → KernelState → Type 0
  Adds es _ t = (ws : List Effect) × (t.effects ≡ ws ++ es)

  config_regions-Adds :
      {strict : Bool} (i : ℕ) (rs : List TzascRegion) (s : KernelState)
      → Ensures strict (Adds s.effects) (config_regions i rs s)
  unfolding config_regions
  config_regions-Adds i [] s = of_Returned _ _ ([], refl)
  config_regions-Adds i (r ∷ rs) s =
      mono (config_regions-Adds (suc i) rs _)
        λ _ t (ws, e). (_, e ∙ sym (append_assoc ws (_ ∷ _ ∷ _ ∷ []) s.effects))

  initial_tzasc-Adds :
      {strict : Bool} (rs : List TzascRegion) (s : KernelState)
      → Ensures strict (Adds s.effects) (initial_tzasc rs s)
  unfolding initial_tzasc
  initial_tzasc-Adds rs s = bind (config_regions-Adds 0 rs _) λ _ t (ws, e). of_Returned _ _ (
    wrote32 0 tz_int_clear ∷ ws ++ wrote32 2 tz_action ∷ [],
    ap (◌∷◌ (wrote32 0 tz_int_clear))
        (e ∙ sym (append_assoc ws (wrote32 2 tz_action ∷ []) s.effects)),
  )

  -- the devices in their order, and behind them the registers of the address space controller
  abbrev pub Started : KernelState → Unit {0} → KernelState → Type 0
  Started s r t =
      Adds (devices s.effects) r t
      × (with_tzasc ≡ false → t.effects ≡ devices s.effects)
      × (with_tzasc ≡ true
          → (a : ℕ)
          → last_write a t.effects ≡ (
              if a == tz_int_clear
              then some 0
              else or_else (table_entry tzasc_regions tz_region_base a)
                  (if a == tz_action then some 2 else last_write a s.effects)))

  -- The start of the devices returns, also where the registers of the interrupt controller cannot be
  -- mapped: it asks for their mapping, starts the interrupt controller and then the timer. In a build
  -- with the address space controller that is configured last, and every register of it holds what the
  -- table of regions has for it; in another build nothing else happens.
  pub platform_after_vm_init-Started :
      {strict : Bool} (s : KernelState) → Ensures strict (Started s) (platform_after_vm_init s)
  unfolding platform_after_vm_init generic_arm64_map_regs
  platform_after_vm_init-Started s =
      Ensures-if with_tzasc (initial_tzasc tzasc_regions) skip _
        (λ with_it.
          mono
            (both (initial_tzasc-Adds tzasc_regions _) (initial_tzasc-RegistersOf tzasc_regions _))
            λ _ t (adds, (regs, _, _)). (adds, (λ e. cc), (λ e. regs)))
        (λ without. of_Returned _ _ (([], refl), (λ e. refl), (λ e. cc)))
