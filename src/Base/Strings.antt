-- ===== src/Base/Strings.antt =====
-- `std::string` and `std::string_view` as lists of bytes.
use Prim.Native.Nat.{ℕ}
use Prim.Native.Char.{code}
use Prim.Native.String.{String}
use mathlib.Core.Path.{◌≡◌, refl}
use mathlib.Core.Logic.{◌↔◌, ◌≢◌, inl, inr}
use mathlib.Core.Bool.{Bool, true, false, ◌&&◌, ◌||◌}
use mathlib.Core.List.{List, [], ◌∷◌, ◌++◌}
use native.Mathlib.Omega.{arith}
use envoy_wasm_filters.Base.Tests.{Bool-cases, ◌==◌, ltb}

abbrev pub Bytes : Type 0
Bytes = List ℕ

-- The bytes of an ASCII literal.
abbrev pub text : String → Bytes
text String.[] = []
text (String.◌∷◌ c s) = code c ∷ text s

-- `empty()`.
abbrev pub is_empty : Bytes → Bool
is_empty [] = true
is_empty (c ∷ s) = false

-- `operator==` of two strings.
unfoldable pub bytes_eq : Bytes → Bytes → Bool
bytes_eq [] [] = true
bytes_eq (x ∷ xs) (y ∷ ys) = x == y && bytes_eq xs ys
bytes_eq _ _ = false

pub bytes_eq_refl : (xs : Bytes) → bytes_eq xs xs ≡ true
unfolding bytes_eq
bytes_eq_refl [] = refl
bytes_eq_refl (x ∷ xs) = ground (arith, bytes_eq_refl xs)

pub bytes_eq_iff : (xs ys : Bytes) → (bytes_eq xs ys ≡ true) ↔ (xs ≡ ys)
unfolding bytes_eq
bytes_eq_iff [] [] = (λ _. refl, λ _. refl)
bytes_eq_iff [] (y ∷ ys) = (λ h. cc, λ h. cc)
bytes_eq_iff (x ∷ xs) [] = (λ h. cc, λ h. cc)
bytes_eq_iff (x ∷ xs) (y ∷ ys) = ground (arith, bytes_eq_iff xs ys)

pub bytes_eq_ne : (xs ys : Bytes) → xs ≢ ys → bytes_eq xs ys ≡ false
bytes_eq_ne xs ys ne = elim (Bool-cases (bytes_eq xs ys)) [
  | inl same ↦ absurd (ne ((bytes_eq_iff xs ys).0 same))
  | inr other ↦ other
]

-- `operator<` of two strings compares byte by byte.
unfoldable pub bytes_lt : Bytes → Bytes → Bool
bytes_lt [] [] = false
bytes_lt [] (y ∷ ys) = true
bytes_lt (x ∷ xs) [] = false
bytes_lt (x ∷ xs) (y ∷ ys) = ltb x y || ((x == y) && bytes_lt xs ys)

pub bytes_lt_irrefl : (xs : Bytes) → bytes_lt xs xs ≡ false
unfolding bytes_lt
bytes_lt_irrefl [] = refl
bytes_lt_irrefl (x ∷ xs) = ground (arith, bytes_lt_irrefl xs)

pub bytes_lt_trans :
    (xs ys zs : Bytes) → bytes_lt xs ys ≡ true → bytes_lt ys zs ≡ true → bytes_lt xs zs ≡ true
unfolding bytes_lt
bytes_lt_trans [] [] zs h k = cc
bytes_lt_trans [] (y ∷ ys) [] h k = cc
bytes_lt_trans [] (y ∷ ys) (z ∷ zs) h k = refl
bytes_lt_trans (x ∷ xs) [] zs h k = cc
bytes_lt_trans (x ∷ xs) (y ∷ ys) [] h k = cc
bytes_lt_trans (x ∷ xs) (y ∷ ys) (z ∷ zs) h k = ground (arith, bytes_lt_trans xs ys zs)

pub bytes_lt_total : (xs ys : Bytes) → bytes_lt xs ys ≡ false → bytes_lt ys xs ≡ false → xs ≡ ys
unfolding bytes_lt
bytes_lt_total [] [] h k = refl
bytes_lt_total [] (y ∷ ys) h k = cc
bytes_lt_total (x ∷ xs) [] h k = cc
bytes_lt_total (x ∷ xs) (y ∷ ys) h k = ground (arith, bytes_lt_total xs ys)

-- The parts with a separator between them.
unfoldable pub join : Bytes → List Bytes → Bytes
join sep [] = []
join sep (x ∷ []) = x
join sep (x ∷ y ∷ ys) = x ++ sep ++ join sep (y ∷ ys)

-- The parts one after another.
unfoldable pub concat : List Bytes → Bytes
concat [] = []
concat (x ∷ xs) = x ++ concat xs
