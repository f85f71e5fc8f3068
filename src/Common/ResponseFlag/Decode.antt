-- ===== src/Common/ResponseFlag/Decode.antt =====
-- No information is lost: the number can be read back from the text.
use mathlib.Core.List.{append_assoc, append-nil}
use envoy_wasm_filters.Base.{
  ℕ, ◌+◌, ◌*◌, ◌/◌, ◌%◌, ◌<◌, ◌≡◌, ◌≢◌, refl, sym, ap, ◌∙◌, inl, inr, Bool, true, false, ◌&&◌, List,
  [], ◌∷◌, ◌++◌, ◌==◌, leb, if◌then◌else◌, is_empty, Bytes, text, decimal, decimal_value,
  decimal_value-decimal, decimal-digits, decimal-is_empty, All-mono, not, IsDigit, join, arith, All,
  bytes_eq, Bool-cases,
}
use envoy_wasm_filters.Common.ResponseFlag.{flags_end, parse_response_flag}
use envoy_wasm_filters.Common.ResponseFlag.Names.{
  flag_names, selected, tokens, IsPart, tokens-IsPart, flag_text, parse_response_flag_lem,
}

-- Splitting at the commas.
unfoldable pub split_from : Bytes → Bytes → List Bytes
split_from cur [] = cur ∷ []
split_from cur (c ∷ s) =
    let cut = cur ∷ split_from [] s in
    let longer = split_from (cur ++ c ∷ []) s in if c == b',' then cut else longer

abbrev pub HasNoComma : Bytes → Type 0
HasNoComma t = All (λ c. c ≢ b',') t

split_from-plain :
    (cur t rest : Bytes) → HasNoComma t → split_from cur (t ++ rest) ≡ split_from (cur ++ t) rest
unfolding split_from
split_from-plain cur [] rest h = rw append-nil
split_from-plain cur (c ∷ t) rest (h, hs) = elim (Bool-cases (c == b',')) [
  | inl comma ↦ absurd (h (ground arith))
  | inr other ↦ rw other (split_from-plain (cur ++ c ∷ []) t rest hs ∙ simp append_assoc)
]

split_from-join :
    (t : Bytes) (ts : List Bytes)
    → All HasNoComma (t ∷ ts)
    → split_from [] (join (text ",") (t ∷ ts)) ≡ t ∷ ts
unfolding join split_from
split_from-join t [] (h, hs) = ap (split_from []) (sym (append-nil t)) ∙ split_from-plain [] t [] h
split_from-join t (u ∷ ts) (h, hs) =
    ap (split_from []) (append_assoc t (text ",") (join (text ",") (u ∷ ts)))
    ∙ split_from-plain [] t (text "," ++ join (text ",") (u ∷ ts)) h
    ∙ ap (λ r. t ∷ r) (split_from-join u ts hs)

-- The place of a name among the names, from `mask` on; 0 if it is none of them.
unfoldable pub mask_of : List Bytes → ℕ → Bytes → ℕ
mask_of [] mask t = 0
mask_of (n ∷ ns) mask t = if bytes_eq n t then mask else mask_of ns (mask * 2) t

abbrev starts_with_digit : Bytes → Bool
starts_with_digit [] = false
starts_with_digit (c ∷ s) = leb b'0' c && leb c b'9'

-- The sum of the names' masks, or the decimal if there is one.
unfoldable pub decode_tokens : ℕ → List Bytes → ℕ
decode_tokens sum [] = sum
decode_tokens sum (t ∷ ts) =
    let more = decode_tokens (sum + mask_of flag_names 1 t) ts in
    if starts_with_digit t then decimal_value 0 t else more

unfoldable pub decode_flags : Bytes → ℕ
unfolding decode_tokens mask_of split_from decimal_value bytes_eq
decode_flags s = decode_tokens 0 (split_from [] s)

-- The names of a suffix of the list stand for the powers of two from `mask` on.
is_masked : ℕ → List Bytes → Bool
is_masked mask [] = true
is_masked mask (n ∷ ns) =
    (mask_of flag_names 1 n == mask) && not (starts_with_digit n) && is_masked (mask * 2) ns

-- The digits of f that the names cover, and the first number that has more.
abbrev low_value : List Bytes → ℕ → ℕ
low_value [] f = 0
low_value (n ∷ ns) f = f % 2 + 2 * low_value ns (f / 2)

abbrev low_end : List Bytes → ℕ
low_end [] = 1
low_end (n ∷ ns) = 2 * low_end ns

low_value-eq : (ns : List Bytes) (f : ℕ) → f < low_end ns → low_value ns f ≡ f
low_value-eq [] f h = omega arith
low_value-eq (n ∷ ns) f h = omega (arith, low_value-eq ns (f / 2) (omega arith))

decode_tokens-selected :
    (ns : List Bytes) (mask f sum : ℕ) (rest : List Bytes)
    → is_masked mask ns ≡ true
    → decode_tokens sum (selected ns f ++ rest) ≡ decode_tokens (sum + mask * low_value ns f) rest
unfolding selected decode_tokens is_masked
decode_tokens-selected [] mask f sum rest h =
    let same : sum ≡ sum + mask * 0 = omega arith in ap (λ n. decode_tokens n rest) same
decode_tokens-selected (n ∷ ns) mask f sum rest h =
    let here : mask_of flag_names 1 n ≡ mask = ground arith in
    let word : starts_with_digit n ≡ false = ground arith in
    let masked : is_masked (mask * 2) ns ≡ true = ground arith in
    elim (Bool-cases (f % 2 == 1)) [
      | inl bit ↦
          let digit : f % 2 ≡ 1 = ground arith in
          let sum_is : sum + mask + mask * 2 * low_value ns (f / 2)
              ≡ sum + mask * (f % 2 + 2 * low_value ns (f / 2)) =
            omega (arith, ap (λ (t : ℕ). mask * t) digit) in
          rw (bit, word, here, ← sum_is)
            (decode_tokens-selected ns (mask * 2) (f / 2) (sum + mask) rest masked)
      | inr clear ↦
          let digit : f % 2 ≡ 0 = ground arith in
          let sum_is : sum + mask * 2 * low_value ns (f / 2)
              ≡ sum + mask * (f % 2 + 2 * low_value ns (f / 2)) =
            omega (arith, ap (λ (t : ℕ). mask * t) digit) in
          rw (clear, ← sum_is) (decode_tokens-selected ns (mask * 2) (f / 2) sum rest masked)
    ]

flag_names-is_masked : is_masked 1 flag_names ≡ true
unfolding is_masked mask_of bytes_eq
flag_names-is_masked = refl

starts_with_digit-decimal : (f : ℕ) → starts_with_digit (decimal f) ≡ true
starts_with_digit-decimal f = first_digit (decimal f) (decimal-is_empty f) (decimal-digits f)
  where
    first_digit : (s : Bytes) → is_empty s ≡ false → All IsDigit s → starts_with_digit s ≡ true
    first_digit [] h d = cc
    first_digit (c ∷ s) h (d, ds) = ground arith

decode_tokens-tokens : (f : ℕ) → decode_tokens 0 (tokens f) ≡ f
unfolding tokens
decode_tokens-tokens f = elim (Bool-cases (leb flags_end f)) [
  | inl long ↦ rw long (
      decode_tokens-selected flag_names 1 f 0 (decimal f ∷ []) flag_names-is_masked
      ∙ (unfold decode_tokens in rw (starts_with_digit-decimal f) (decimal_value-decimal f)))
  | inr short ↦ rw short (
      decode_tokens-selected flag_names 1 f 0 [] flag_names-is_masked
      ∙ (unfold decode_tokens in omega (arith, low_value-eq flag_names f (ground arith))))
]

decode_flags-flag_text :
    (ts : List Bytes) → All IsPart ts → decode_flags (flag_text ts) ≡ decode_tokens 0 ts
unfolding decode_flags
decode_flags-flag_text [] h = refl
decode_flags-flag_text (t ∷ ts) h =
    ap (decode_tokens 0) (split_from-join t ts (All-mono IsPart HasNoComma (t ∷ ts) (λ s p. p.1) h))

-- Decoding the text gives the response flag back, so that different flags have different texts.
pub decode_flags-parse_response_flag : (f : ℕ) → decode_flags (parse_response_flag f) ≡ f
decode_flags-parse_response_flag f =
    ap decode_flags (parse_response_flag_lem f)
    ∙ decode_flags-flag_text (tokens f) (tokens-IsPart f)
    ∙ decode_tokens-tokens f
