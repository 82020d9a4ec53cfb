-- ===== src/Dump.antt =====
-- _hexdump8 of app/hwcrypto/main.c and of app/hwcrypto/hwrng_srv.c: what it prints, row by row.
use trusty_lk_nxp.Common.{
  ℕ, zero, suc, ◌+◌, ◌-◌, ◌%◌, ◌^◌, Option, none, some, ◌≤◌, ◌<◌, min, ◌≡◌, refl, ap, ◌∙◌, ◌⊎◌, inl,
  inr, true, false, List, [], ◌∷◌, ◌++◌, append-nil, arith, Bool-cases, ltb, if◌then◌else◌, length,
}
use mathlib.Core.Path.{subst}
use trusty_lk_nxp.Common.Memory.{Memory, load_bytes, length-load_bytes}

-- a row: the address that stands in front, and the bytes
pub record Row : Type 0 where
  pub address : ℕ
  pub bytes : List ℕ

-- the inner loop: MIN(len - count, 16) bytes from the address on
abbrev pub row_at : (address left : ℕ) → Memory → Row
row_at a left m = record { address = a; bytes = load_bytes a (min left 16) m }

-- a row in front of the others, if these come to an end
abbrev pub before : Row → Option (List Row) → Option (List Row)
before r none = none
before r (some rs) = some (r ∷ rs)

-- the loop `for (count = 0; count < len; count += 16)`, from `count` on: `none` where the rounds run out.
-- `count` and `address` are of 32 bits.
unfoldable pub dump_rows : (rounds address count len : ℕ) → Memory → Option (List Row)
dump_rows zero a count len m = none
dump_rows (suc k) a count len m =
    let rest = dump_rows k ((a + 16) % 2 ^ 32) ((count + 16) % 2 ^ 32) len m in
    if ltb count len then before (row_at a (len - count) m) rest else some []

unfoldable pub hexdump8 : (ptr len : ℕ) → Memory → Option (List Row)
hexdump8 a len m = dump_rows (len + 1) a 0 len m

-- all bytes, in the order in which they are printed
abbrev pub printed : List Row → List ℕ
printed [] = []
printed (r ∷ rs) = r.bytes ++ printed rs

-- Every row but the last has 16 bytes, the last has some, and the rows' addresses follow each other.
abbrev pub AreRows : (address : ℕ) → List Row → Type 0
AreRows a [] = Unit
AreRows a (r ∷ rs) =
    (r.address ≡ a)
    × (0 < length r.bytes)
    × (length r.bytes ≤ 16)
    × ((rs ≡ []) ⊎ (length r.bytes ≡ 16))
    × AreRows (a + 16) rs

load_bytes-append :
    (a n b k c : ℕ) (m : Memory)
    → b ≡ a + n
    → c ≡ n + k
    → load_bytes a n m ++ load_bytes b k m ≡ load_bytes a c m
unfolding load_bytes
load_bytes-append a zero b k c m e e' =
    ap (λ i. load_bytes i k m) (omega (arith, e)) ∙ ap (λ i. load_bytes a i m) (omega (arith, e'))
load_bytes-append a (suc n) b k c m e e' =
    ap (◌∷◌ (m a)) (load_bytes-append (a + 1) n b k (n + k) m (omega (arith, e)) refl)
    ∙ ap (λ i. load_bytes a i m) suc_eq
  where
    suc_eq : suc (n + k) ≡ c
    suc_eq = omega (arith, e')

dump_rows-none :
    (k a count len : ℕ) (m : Memory)
    → ltb count len ≡ false
    → dump_rows (suc k) a count len m ≡ some []
unfolding dump_rows
dump_rows-none k a count len m h = rw h refl

-- a dump that comes to its end, and prints the `n` bytes from `a` on in rows
abbrev pub Dumped : Option (List Row) → (a n : ℕ) → Memory → Type 0
Dumped rows a n m =
    (rs : List Row) × (rows ≡ some rs) × (printed rs ≡ load_bytes a n m) × AreRows a rs

-- the row of at most 16 bytes that is the last one
dump_rows-last :
    (k a count len : ℕ) (m : Memory)
    → ltb count len ≡ true
    → ltb (count + 16) len ≡ false
    → len + 16 ≤ 2 ^ 32
    → Dumped (dump_rows (suc (suc k)) a count len m) a (len - count) m
unfolding dump_rows
dump_rows-last k a count len m more last top =
    let e : (count + 16) % 2 ^ 32 ≡ count + 16 = ground arith in
    let all_left : min (len - count) 16 ≡ len - count = ground arith in
    rw (more, e, last)
      (
        row_at a (len - count) m ∷ [],
        refl,
        append-nil _ ∙ ap (λ n. load_bytes a n m) all_left,
        (refl, ground (arith, bytes), omega (arith, bytes), inl refl, tt),
      )
  where
    bytes : length (load_bytes a (min (len - count) 16) m) ≡ min (len - count) 16
    bytes = length-load_bytes a (min (len - count) 16) m

-- a full row in front of the rest of a dump
row-Dumped :
    (a left : ℕ) (m : Memory) (rest : Option (List Row))
    → 16 < left
    → Dumped rest (a + 16) (left - 16) m
    → Dumped (before (row_at a left m) rest) a left m
row-Dumped a left m rest h (rs, e, same, rows) = (
  row_at a left m ∷ rs,
  ap (before (row_at a left m)) e,
  ap (λ l. load_bytes a (min left 16) m ++ l) same
      ∙ load_bytes-append a (min left 16) (a + 16) (left - 16) left m (omega (arith, h))
          (omega (arith, h)),
  (refl, omega (arith, h, bytes), omega (arith, bytes), inr (omega (arith, h, bytes)), rows),
)
  where
    bytes : length (load_bytes a (min left 16) m) ≡ min left 16
    bytes = length-load_bytes a (min left 16) m

-- the rest of a dump, where there are enough rounds for what is left
dump_rows-Dumped :
    (k a count len : ℕ) (m : Memory)
    → len - count < k
    → len + 16 ≤ 2 ^ 32
    → a + (len - count) ≤ 2 ^ 32
    → Dumped (dump_rows k a count len m) a (len - count) m
unfolding dump_rows load_bytes
dump_rows-Dumped zero a count len m h top room = absurd (omega (arith, h))
dump_rows-Dumped (suc zero) a count len m h top room =
    let done : ltb count len ≡ false = ground arith in
    let e : len - count ≡ 0 = omega (arith, h) in rw (done, e) ([], refl, refl, tt)
dump_rows-Dumped (suc (suc k)) a count len m h top room = elim (Bool-cases (ltb count len)) [
  | inr done ↦ let e : len - count ≡ 0 = ground arith in rw (done, e) ([], refl, refl, tt)
  | inl more ↦ elim (Bool-cases (ltb (count + 16) len)) [
    | inr last ↦ dump_rows-last k a count len m more last top
    | inl on ↦
        let e : (count + 16) % 2 ^ 32 ≡ count + 16 = ground arith in
        let e' : (a + 16) % 2 ^ 32 ≡ a + 16 = ground arith in
        let full : 16 < len - count = ground arith in
        let less : len - (count + 16) ≡ len - count - 16 = omega arith in
        let rest : Dumped (dump_rows (suc k) (a + 16) (count + 16) len m) (a + 16)
            (len - count - 16) m =
          subst (λ n. Dumped (dump_rows (suc k) (a + 16) (count + 16) len m) (a + 16) n m) less
            (dump_rows-Dumped (suc k) (a + 16) (count + 16) len m (omega (arith, h, full)) top
              (omega (arith, room, full))) in
        rw (more, e, e')
          (row-Dumped a (len - count) m (dump_rows (suc k) (a + 16) (count + 16) len m) full rest)
  ]
]

-- The dump of a range that ends within the 32 bits of an address, and is at least 16 bytes shorter than
-- 2^32, comes to its end: it prints every byte of the range once, in the order of the addresses, in rows of
-- 16 bytes whose last may be shorter and is not empty, with the address of its first byte in front of each.
pub hexdump8-rows :
    (a len : ℕ) (m : Memory)
    → len + 16 ≤ 2 ^ 32
    → a + len ≤ 2 ^ 32
    → Dumped (hexdump8 a len m) a len m
unfolding hexdump8
hexdump8-rows a len m top room =
    let e : len - 0 ≡ len = omega arith in
    subst (λ n. Dumped (dump_rows (len + 1) a 0 len m) a n m) e
      (dump_rows-Dumped (len + 1) a 0 len m (omega arith) top (omega (arith, room)))
