-- ===== src/Kernel/Boot/Arena.antt =====
-- The memory of the kernel (platform_init_mmu_mappings of platform/imx/platform.c).
use trusty_lk_nxp.Common.{
  ℕ, ◌≡◌, refl, ap, ◌⊎◌, inl, inr, Bool, true, false, some, List, [], ◌∷◌, All, Bool-cases,
  bytes_eq, eq_of_bytes_eq,
}
use trusty_lk_nxp.Machine.Outcome.{Ensures, of_Returned, bind, mono}
use trusty_lk_nxp.Kernel.Soc.{Soc, InitialMapping, PmmArena}
use trusty_lk_nxp.Kernel.Exec.{added_arena, KernelState}
use trusty_lk_nxp.Kernel.Boot.{is_dynamic, arena_of, update_arena, platform_init_mmu_mappings}

module _ ⦃k : Soc⦄ where
  open k use {membase}

  -- a dynamic entry has a name
  abbrev pub IsNamed : InitialMapping → Type 0
  IsNamed m = is_dynamic m ≡ true → (n : List ℕ) × (m.name ≡ some n)

  -- not a dynamic entry of this name
  abbrev pub IsOther : List ℕ → InitialMapping → Type 0
  IsOther n m = is_dynamic m ≡ true → (l : List ℕ) × (m.name ≡ some l) × (bytes_eq l n ≡ false)

  -- the first dynamic entry of the arena's name gives the arena, and without one it stays
  abbrev pub Chosen : List InitialMapping → (before after : PmmArena) → Type 0
  Chosen [] a b = b ≡ a
  Chosen (m ∷ ms) a b =
      ((is_dynamic m ≡ true) × (m.name ≡ some a.name) × (b ≡ arena_of m a))
      ⊎ (IsOther a.name m × Chosen ms a b)

  -- only the arena changes, to the one that is chosen
  abbrev Updated : List InitialMapping → KernelState → Unit {0} → KernelState → Type 0
  Updated ms s _ t =
      Chosen ms s.ram_arena t.ram_arena
      × (t.effects ≡ s.effects)
      × (t.mappings ≡ s.mappings)
      × (t.world ≡ s.world)

  fixed-IsOther : (n : List ℕ) (m : InitialMapping) → is_dynamic m ≡ false → IsOther n m
  fixed-IsOther n m e e' = cc

  some_entry :
      {strict : Bool} (m : InitialMapping) (ms : List InitialMapping) (s : KernelState) (n : List ℕ)
      → is_dynamic m ≡ true
      → m.name ≡ some n
      → Ensures strict (Updated ms s) (update_arena ms s)
      → Ensures strict (Updated (m ∷ ms) s) (update_arena (m ∷ ms) s)
  unfolding update_arena
  some_entry m ms s n dynamic e rest = elim (Bool-cases (bytes_eq n s.ram_arena.name)) [
    | inl same ↦
        rw (dynamic, e, same)
          (of_Returned _ _ (
            inl (dynamic, ap some (eq_of_bytes_eq n s.ram_arena.name same), refl),
            refl,
            refl,
            refl,
          ))
    | inr other ↦
        rw (dynamic, e, other)
          (mono rest λ _ t (chosen, e', m', w). (inr ((λ h. (n, refl, other)), chosen), e', m', w))
  ]

  update_arena-Updated :
      {strict : Bool} (ms : List InitialMapping) (s : KernelState)
      → All IsNamed ms
      → Ensures strict (Updated ms s) (update_arena ms s)
  unfolding update_arena
  update_arena-Updated [] s named = of_Returned _ _ (refl, refl, refl, refl)
  update_arena-Updated (m ∷ ms) s (named, more) = elim (Bool-cases (is_dynamic m)) [
    | inr fixed ↦ rw fixed (
        mono (update_arena-Updated ms s more) λ _ t (chosen, e, m', w).
          (inr (fixed-IsOther s.ram_arena.name m fixed, chosen), e, m', w))
    | inl dynamic ↦
        let (n, e) = named dynamic in some_entry m ms s n dynamic e (update_arena-Updated ms s more)
  ]

  -- The arena is chosen, and added with the last call.
  abbrev pub AddsArena : KernelState → Unit {0} → KernelState → Type 0
  AddsArena s _ t =
      Chosen s.mappings s.ram_arena t.ram_arena
      × (t.effects ≡ added_arena t.ram_arena ∷ s.effects)
      × (t.mappings ≡ s.mappings)

  -- The set-up of the memory, where every dynamic entry has a name, returns and adds one arena: the one
  -- of the first dynamic entry with the arena's name, and the arena as it was where there is none.
  pub platform_init_mmu_mappings-AddsArena :
      {strict : Bool} (s : KernelState)
      → All IsNamed s.mappings
      → Ensures strict (AddsArena s) (platform_init_mmu_mappings s)
  unfolding platform_init_mmu_mappings
  platform_init_mmu_mappings-AddsArena s named =
      bind (update_arena-Updated s.mappings s named)
        λ _ t (chosen, e, m, w). of_Returned _ _ (chosen, ap (◌∷◌ (added_arena t.ram_arena)) e, m)
