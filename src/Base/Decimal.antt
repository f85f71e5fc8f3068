-- ===== src/Base/Decimal.antt =====
-- `std::to_string` of an unsigned number, and the numbers of a formatted date.
use Prim.Native.Nat.{ℕ, zero, suc, ◌+◌, ◌-◌, ◌*◌, ◌/◌, ◌%◌, ◌≤◌, ◌<◌}
use mathlib.Core.Path.{◌≡◌, refl}
use mathlib.Core.Logic.{inl, inr}
use mathlib.Core.Bool.{true, false}
use mathlib.Core.List.{[], ◌∷◌, ◌++◌}
use native.Mathlib.Numerals.{add-one}
use native.Mathlib.Omega.{arith}
use envoy_wasm_filters.Base.Tests.{
  ltb, if◌then◌else◌, Bool-cases, ltb→lt, all_below, all_below_sound,
}
use envoy_wasm_filters.Base.Lists.{length, All, All-append, replicate}
use envoy_wasm_filters.Base.Strings.{Bytes, is_empty, bytes_eq, bytes_eq_iff}

-- The digits of n, on fuel.
decimal_from : ℕ → ℕ → Bytes
decimal_from zero n = []
decimal_from (suc fuel) n =
    let high = decimal_from fuel (n / 10) in
    if ltb n 10 then (48 + n) ∷ [] else high ++ (48 + n % 10) ∷ []

-- `n + 1` rounds are enough: each leaves a tenth.
unfoldable pub decimal : ℕ → Bytes
unfolding decimal_from
decimal n = decimal_from (n + 1) n

-- The number that a list of digits stands for, read from the left behind `acc`.
unfoldable pub decimal_value : ℕ → Bytes → ℕ
decimal_value acc [] = acc
decimal_value acc (c ∷ s) = decimal_value (acc * 10 + (c - 48)) s

decimal_value-append :
    (acc : ℕ) (s : Bytes) (c : ℕ)
    → decimal_value acc (s ++ c ∷ []) ≡ decimal_value acc s * 10 + (c - 48)
unfolding decimal_value
decimal_value-append acc [] c = refl
decimal_value-append acc (d ∷ s) c = decimal_value-append (acc * 10 + (d - 48)) s c

decimal_from-value : (fuel n : ℕ) → n < fuel → decimal_value 0 (decimal_from fuel n) ≡ n
unfolding decimal_from
decimal_from-value zero n h = absurd (omega arith)
decimal_from-value (suc fuel) n h = elim (Bool-cases (ltb n 10)) [
  | inl small ↦ rw small (unfold decimal_value in omega arith)
  | inr large ↦ rw large (
      omega (
        arith,
        decimal_value-append 0 (decimal_from fuel (n / 10)) (48 + n % 10),
        decimal_from-value fuel (n / 10) (ground arith),
      ))
]

-- Reading a decimal gives the number back.
pub decimal_value-decimal : (n : ℕ) → decimal_value 0 (decimal n) ≡ n
unfolding decimal
decimal_value-decimal n = decimal_from-value (n + 1) n (omega arith)

abbrev pub IsDigit : ℕ → Type 0
IsDigit c = (48 ≤ c) × (c ≤ 57)

decimal_from-digits : (fuel n : ℕ) → All IsDigit (decimal_from fuel n)
unfolding decimal_from
decimal_from-digits zero n = tt
decimal_from-digits (suc fuel) n = elim (Bool-cases (ltb n 10)) [
  | inl small ↦ rw small ((omega arith, omega (arith, ltb→lt n 10 small)), tt)
  | inr large ↦ rw large (
      All-append IsDigit (decimal_from fuel (n / 10)) ((48 + n % 10) ∷ [])
        (decimal_from-digits fuel (n / 10)) ((omega arith, omega arith), tt))
]

decimal_from-is_empty : (fuel n : ℕ) → is_empty (decimal_from (suc fuel) n) ≡ false
unfolding decimal_from
decimal_from-is_empty fuel n = elim (Bool-cases (ltb n 10)) [
  | inl small ↦ rw small refl
  | inr large ↦ rw large (append-is_empty (decimal_from fuel (n / 10)) (48 + n % 10))
]
  where
    append-is_empty : (s : Bytes) (c : ℕ) → is_empty (s ++ c ∷ []) ≡ false
    append-is_empty [] c = refl
    append-is_empty (d ∷ s) c = refl

pub decimal-is_empty : (n : ℕ) → is_empty (decimal n) ≡ false
unfolding decimal
decimal-is_empty n = rw (add-one n) (decimal_from-is_empty n n)

pub decimal-digits : (n : ℕ) → All IsDigit (decimal n)
unfolding decimal
decimal-digits n = decimal_from-digits (n + 1) n

-- A number in at least `width` digits, as `%02d` prints it.
unfoldable pub padded : ℕ → ℕ → Bytes
padded width n = replicate (width - length (decimal n)) 48 ++ decimal n

-- The two digits of a number below 100, checked at every such number.
padded_two_table :
    all_below 100 (λ n. bytes_eq (padded 2 n) ((48 + n / 10) ∷ (48 + n % 10) ∷ [])) ≡ true
unfolding padded decimal bytes_eq
padded_two_table = refl

pub padded_two : (n : ℕ) → n < 100 → padded 2 n ≡ (48 + n / 10) ∷ (48 + n % 10) ∷ []
padded_two n h = (bytes_eq_iff _ _).0 (
    all_below_sound 100 (λ n. bytes_eq (padded 2 n) ((48 + n / 10) ∷ (48 + n % 10) ∷ [])) n
      padded_two_table h)

decimal_from-small : (fuel n : ℕ) → n < 10 → decimal_from (suc fuel) n ≡ (48 + n) ∷ []
unfolding decimal_from
decimal_from-small fuel n h = ground arith

decimal_from-large :
    (fuel n : ℕ)
    → 10 ≤ n
    → decimal_from (suc fuel) n ≡ decimal_from fuel (n / 10) ++ (48 + n % 10) ∷ []
unfolding decimal_from
decimal_from-large fuel n h = ground arith

decimal_from_four :
    (fuel n : ℕ)
    → 1000 ≤ n
    → n < 10000
    → decimal_from (suc (suc (suc (suc fuel)))) n
      ≡ (48 + n / 10 / 10 / 10) ∷ (48 + n / 10 / 10 % 10) ∷ (48 + n / 10 % 10) ∷ (48 + n % 10) ∷ []
decimal_from_four fuel n lo hi =
    rw
      (
        decimal_from-large (suc (suc (suc fuel))) n (omega arith),
        decimal_from-large (suc (suc fuel)) (n / 10) (omega arith),
        decimal_from-large (suc fuel) (n / 10 / 10) (omega arith),
        decimal_from-small fuel (n / 10 / 10 / 10) (omega arith),
      )
      refl

-- A number of four digits.
pub padded_four :
    (n : ℕ)
    → 1000 ≤ n
    → n < 10000
    → padded 4 n
      ≡ (48 + n / 10 / 10 / 10) ∷ (48 + n / 10 / 10 % 10) ∷ (48 + n / 10 % 10) ∷ (48 + n % 10) ∷ []
unfolding padded decimal
padded_four n lo hi =
    let enough : n + 1 ≡ suc (suc (suc (suc (n - 3)))) = omega arith in
    rw (enough, decimal_from_four (n - 3) n lo hi) refl
