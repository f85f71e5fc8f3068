-- ===== src/Base/Maps.antt =====
-- Functions from numbers that are changed at one number.
use Prim.Native.Nat.{ℕ}
use mathlib.Core.Path.{◌≡◌, refl, sym}
use mathlib.Core.Logic.{◌≢◌, inl, inr}
use envoy_wasm_filters.Base.Tests.{◌==◌, ==_iff, if◌then◌else◌, Bool-cases}

abbrev pub update {ℓ} : {A : Type ℓ} → (ℕ → A) → ℕ → A → ℕ → A
update f i a j = if j == i then a else f j

pub update-all {ℓ} :
    {A : Type ℓ} (Q : A → Type 0) (f : ℕ → A) (i : ℕ) (a : A)
    → ((j : ℕ) → Q (f j))
    → Q a
    → (j : ℕ) → Q (update f i a j)
update-all Q f i a h k j = elim (Bool-cases (j == i)) [
  | inl same ↦ rw same k
  | inr other ↦ rw other (h j)
]

pub update-other {ℓ} :
    {A : Type ℓ} (f : ℕ → A) (i : ℕ) (a : A) (j : ℕ) → i ≢ j → update f i a j ≡ f j
update-other f i a j h = elim (Bool-cases (j == i)) [
  | inl same ↦ absurd (h (sym ((==_iff j i).0 same)))
  | inr other ↦ rw other refl
]

pub update-same {ℓ} : {A : Type ℓ} (f : ℕ → A) (i : ℕ) (a : A) → update f i a i ≡ a
update-same f i a = let same = (==_iff i i).1 refl in rw same refl
