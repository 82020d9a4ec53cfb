-- ===== src/Common/Memory.antt =====
-- The bytes of the program's buffers by address, with `memset`, `memcpy` and the reading of a range.
use Prim.Native.Nat.{ℕ, zero, suc, ◌+◌, ◌≤◌, ◌<◌}
use mathlib.Core.Path.{◌≡◌, refl, ap₂, ◌∙◌}
use mathlib.Core.Logic.{◌⊎◌}
use mathlib.Core.Bool.{Bool, ◌&&◌}
use mathlib.Core.List.{List, [], ◌∷◌}
use native.Mathlib.Omega.{arith}
use trusty_lk_nxp.Common.Tests.{ltb, leb, ◌==◌, if◌then◌else◌}
use trusty_lk_nxp.Common.Lists.{length}

abbrev pub Memory : Type 0
Memory = ℕ → ℕ

abbrev pub in_range : ℕ → ℕ → ℕ → Bool
in_range a n i = leb a i && ltb i (a + n)

unfoldable pub memset : ℕ → ℕ → ℕ → Memory → Memory
memset a v n m i = if in_range a n i then v else m i

-- the bytes `bs` written from address `a` on
unfoldable pub store_bytes : ℕ → List ℕ → Memory → Memory
store_bytes a [] m i = m i
store_bytes a (b ∷ bs) m i = if i == a then b else store_bytes (a + 1) bs m i

unfoldable pub load_bytes : ℕ → ℕ → Memory → List ℕ
load_bytes a zero m = []
load_bytes a (suc n) m = m a ∷ load_bytes (a + 1) n m

-- the bytes of a range replaced by those of another memory
unfoldable pub overlay : ℕ → ℕ → Memory → Memory → Memory
overlay a n new m i = if in_range a n i then new i else m i

-- the C string at `a`, cut off behind `n` bytes
unfoldable pub c_string : ℕ → ℕ → Memory → List ℕ
c_string a zero m = []
c_string a (suc n) m = let rest = c_string (a + 1) n m in if m a == 0 then [] else m a ∷ rest

-- Every byte of a range is zero.
abbrev pub IsZeroed : ℕ → ℕ → Memory → Type 0
IsZeroed a n m = (i : ℕ) → a ≤ i → i < a + n → m i ≡ 0

-- Two memories agree outside a range.
abbrev pub SameOutside : ℕ → ℕ → Memory → Memory → Type 0
SameOutside a n m m' = (i : ℕ) → (i < a) ⊎ (a + n ≤ i) → m' i ≡ m i

pub IsZeroed-memset : (a n : ℕ) (m : Memory) → IsZeroed a n (memset a 0 n m)
unfolding memset
IsZeroed-memset a n m i lo hi = ground arith

pub SameOutside-memset : (a v n : ℕ) (m : Memory) → SameOutside a n m (memset a v n m)
unfolding memset
SameOutside-memset a v n m i out = ground arith

pub SameOutside-overlay : (a n : ℕ) (new m : Memory) → SameOutside a n m (overlay a n new m)
unfolding overlay
SameOutside-overlay a n new m i out = ground arith

pub store_bytes_outside :
    (a : ℕ) (bs : List ℕ) (m : Memory) (i : ℕ)
    → (i < a) ⊎ (a + length bs ≤ i)
    → store_bytes a bs m i ≡ m i
unfolding store_bytes
store_bytes_outside a [] m i out = refl
store_bytes_outside a (b ∷ bs) m i out = ground (arith, store_bytes_outside (a + 1) bs m i)

pub load_bytes_ext :
    (a n : ℕ) (m m' : Memory)
    → ((i : ℕ) → a ≤ i → i < a + n → m' i ≡ m i)
    → load_bytes a n m' ≡ load_bytes a n m
unfolding load_bytes
load_bytes_ext a zero m m' h = refl
load_bytes_ext a (suc n) m m' h =
    ap₂ ◌∷◌ (h a (omega arith) (omega arith))
      (load_bytes_ext (a + 1) n m m' (λ i lo hi. h i (omega arith) (omega arith)))

pub length-load_bytes : (a n : ℕ) (m : Memory) → length (load_bytes a n m) ≡ n
unfolding load_bytes
length-load_bytes a zero m = refl
length-load_bytes a (suc n) m = omega (arith, length-load_bytes (a + 1) n m)

pub load_bytes-store_bytes :
    (a : ℕ) (bs : List ℕ) (m : Memory) → load_bytes a (length bs) (store_bytes a bs m) ≡ bs
unfolding load_bytes store_bytes
load_bytes-store_bytes a [] m = refl
load_bytes-store_bytes a (b ∷ bs) m = ap₂ ◌∷◌ (ground arith) (
    load_bytes_ext (a + 1) (length bs) (store_bytes (a + 1) bs m) (store_bytes a (b ∷ bs) m)
      (λ i lo hi. ground arith)
    ∙ load_bytes-store_bytes (a + 1) bs m)
