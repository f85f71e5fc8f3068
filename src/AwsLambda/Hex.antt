-- ===== src/AwsLambda/Hex.antt =====
-- HexEncode of extensions/aws_lambda/aws_authenticator.cc, and the same digits by arithmetic.
use envoy_wasm_filters.Base.{
  ℕ, zero, suc, ◌+◌, ◌/◌, ◌%◌, ◌≤◌, ◌≡◌, refl, inl, inr, true, [], ◌∷◌, arith, ltb, ◌==◌, ==_iff,
  if◌then◌else◌, get_or, length, Bytes, text, bit_and, bit_and_nibble, all_below, all_below_sound,
  Bool-cases,
}

abbrev digits : Bytes
digits = text "0123456789abcdef"

-- Both indices are below 16 where the byte is below 256.
unfoldable pub hex_encode : Bytes → Bytes
hex_encode [] = []
hex_encode (d ∷ rest) = get_or digits (d / 16) 0 ∷ get_or digits (bit_and d 15) 0 ∷ hex_encode rest

-- The lower-case digit of a number below 16, by arithmetic.
abbrev digit : ℕ → ℕ
digit n = if ltb n 10 then n + 48 else if ltb n 16 then n + 87 else 0

-- Two digits for each byte, the high half first.
unfoldable pub hexadecimal : Bytes → Bytes
hexadecimal [] = []
hexadecimal (d ∷ rest) = digit (d / 16) ∷ digit (d % 16) ∷ hexadecimal rest

digit_table : all_below 16 (λ n. get_or digits n 0 == digit n) ≡ true
digit_table = refl

get_or-outside : (xs : Bytes) (n d : ℕ) → length xs ≤ n → get_or xs n d ≡ d
get_or-outside [] n d h = refl
get_or-outside (x ∷ xs) zero d h = absurd (omega arith)
get_or-outside (x ∷ xs) (suc n) d h = get_or-outside xs n d (omega arith)

digits_lem : (n : ℕ) → get_or digits n 0 ≡ digit n
digits_lem n = elim (Bool-cases (ltb n 16)) [
  | inl inside ↦
      (==_iff _ _).0
        (all_below_sound 16 (λ m. get_or digits m 0 == digit m) n digit_table (ground arith))
  | inr outside ↦
      let far : digit n ≡ 0 = ground arith in rw far (get_or-outside digits n 0 (ground arith))
]

-- The table and the masks give the digits.
pub hex_encode_lem : (bs : Bytes) → hex_encode bs ≡ hexadecimal bs
unfolding hex_encode hexadecimal
hex_encode_lem [] = refl
hex_encode_lem (d ∷ rest) =
    rw (bit_and_nibble d, digits_lem (d / 16), digits_lem (d % 16), hex_encode_lem rest)
