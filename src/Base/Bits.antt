-- ===== src/Base/Bits.antt =====
-- `bit_and` with a power of two, and with a mask of four ones.
use Prim.Native.Nat.{ℕ, zero, suc, ◌+◌, ◌*◌, ◌/◌, ◌%◌, ◌≤◌, min, bit_and, digits, bit_and-bitwise}
use mathlib.Core.Path.{◌≡◌, refl, sym, ap, ◌∙◌}
use mathlib.Core.Logic.{inl, inr}
use native.Mathlib.Omega.{arith}
use envoy_wasm_filters.Base.Tests.{leb, leb→le, Bool-cases}

-- The digits of both numbers, joined by `min`, for a number of steps.
abbrev joined : (steps x mask : ℕ) → ℕ
joined steps x mask = digits (λ rest. zero) min steps x mask

-- A step past the last digit of x adds nothing.
one_more : (x mask steps : ℕ) → x ≤ steps → joined (suc steps) x mask ≡ joined steps x mask
one_more zero mask zero h = refl
one_more zero mask (suc steps) h = refl
one_more (suc x) mask zero h = absurd (omega arith)
one_more (suc x) mask (suc steps) h =
    let halves = one_more (suc x / 2) (mask / 2) steps (omega arith) in omega (arith, halves)

-- As many steps as x are enough.
joined-bit_and : (steps x mask : ℕ) → x ≤ steps → joined steps x mask ≡ bit_and x mask
joined-bit_and zero x mask h =
    let none : zero ≡ x = omega arith in
    ap (λ n. joined n x mask) none ∙ sym (bit_and-bitwise x mask)
joined-bit_and (suc steps) x mask h = elim (Bool-cases (leb x steps)) [
  | inl fewer ↦
      one_more x mask steps (leb→le x steps fewer)
      ∙ joined-bit_and steps x mask (leb→le x steps fewer)
  | inr whole ↦
      let all : suc steps ≡ x = ground arith in
      ap (λ n. joined n x mask) all ∙ sym (bit_and-bitwise x mask)
]

-- The lowest binary digit is split off both numbers.
pub bit_and_step :
    (x mask : ℕ) → bit_and x mask ≡ bit_and (x / 2) (mask / 2) * 2 + min (x % 2) (mask % 2)
bit_and_step zero mask =
    let whole = bit_and-bitwise 0 mask in let half = bit_and-bitwise 0 (mask / 2) in omega arith
bit_and_step (suc x) mask =
    let rest = joined-bit_and x (suc x / 2) (mask / 2) (omega arith) in
    omega (arith, rest, bit_and-bitwise (suc x) mask)

bit_and-zero_below : (bound x : ℕ) → x ≤ bound → bit_and x 0 ≡ 0
bit_and-zero_below zero x h = let none : x ≡ 0 = omega arith in ap (λ n. bit_and n 0) none
bit_and-zero_below (suc bound) x h =
    let half = bit_and-zero_below bound (x / 2) (omega arith) in
    omega (arith, half, bit_and_step x 0)

pub bit_and-one : (x : ℕ) → bit_and x 1 ≡ x % 2
bit_and-one x =
    let rest = bit_and-zero_below (x / 2) (x / 2) (omega arith) in
    omega (arith, rest, bit_and_step x 1)

-- `d & 0xf` is the low nibble.
pub bit_and_nibble : (d : ℕ) → bit_and d 15 ≡ d % 16
bit_and_nibble d = omega (
  arith,
  bit_and_step d 15,
  bit_and_step (d / 2) 7,
  bit_and_step (d / 2 / 2) 3,
  bit_and-one (d / 2 / 2 / 2),
)
