-- ===== src/Common/ResponseFlag/Names.antt =====
-- The text of a response flag: the names of its binary digits, with commas between them.
use mathlib.Core.List.{append_assoc}
use envoy_wasm_filters.Base.{
  ℕ, ◌*◌, ◌/◌, ◌%◌, ◌≡◌, ◌≢◌, refl, ap, ◌∙◌, inl, inr, Bool, true, false, List, [], ◌∷◌, ◌++◌, ◌==◌,
  leb, if◌then◌else◌, is_empty, Bytes, text, bit_and, bit_and_step, bit_and-one, decimal, join,
  arith, All, All-append, Bool-cases, test_all, All-test_all, All-mono, not, ◌&&◌, IsDigit,
  decimal-digits, decimal-is_empty,
}
use envoy_wasm_filters.Common.ResponseFlag.{
  no_flags, flags_end, append_string, append_if, parse_response_flag,
}

-- The names by the place of their bit.
abbrev pub flag_names : List Bytes
flag_names =
    text "LH"
    ∷ text "UH"
    ∷ text "UT"
    ∷ text "LR"
    ∷ text "UR"
    ∷ text "UF"
    ∷ text "UC"
    ∷ text "UO"
    ∷ text "NR"
    ∷ text "DI"
    ∷ text "FI"
    ∷ text "RL"
    ∷ text "UAEX"
    ∷ text "RLSE"
    ∷ text "DC"
    ∷ text "URX"
    ∷ text "SI"
    ∷ text "IH"
    ∷ text "DPE"
    ∷ []

-- The names whose binary digit is 1, from the lowest digit on.
unfoldable pub selected : List Bytes → ℕ → List Bytes
selected [] f = []
selected (n ∷ ns) f = let rest = selected ns (f / 2) in if f % 2 == 1 then n ∷ rest else rest

-- The parts of the text: the names, and the number itself where it has a further digit.
unfoldable pub tokens : ℕ → List Bytes
unfolding selected
tokens f = selected flag_names f ++ (if leb flags_end f then decimal f ∷ [] else [])

-- The tests for names in turn, with masks that double.
append_names : List Bytes → ℕ → ℕ → Bytes → Bytes
append_names [] mask f result = result
append_names (n ∷ ns) mask f result = append_names ns (mask * 2) f (append_if f mask n result)

append_each : Bytes → List Bytes → Bytes
append_each result [] = result
append_each result (t ∷ ts) = append_each (append_string result t) ts

append_if-double :
    (mask f : ℕ) (n result : Bytes)
    → append_if f (mask * 2) n result ≡ append_if (f / 2) mask n result
unfolding append_if
append_if-double mask f n result =
    let half : mask * 2 / 2 ≡ mask = omega arith in
    let even : mask * 2 % 2 ≡ 0 = omega arith in
    let step : bit_and f (mask * 2) ≡ bit_and (f / 2) mask * 2 =
      bit_and_step f (mask * 2) ∙ rw (half, even) (omega arith) in
    ground arith

append_if-one :
    (f : ℕ) (n result : Bytes)
    → append_if f 1 n result ≡ (if f % 2 == 1 then append_string result n else result)
unfolding append_if
append_if-one f n result = ground (arith, bit_and-one f)

append_names-double :
    (ns : List Bytes) (mask f : ℕ) (result : Bytes)
    → append_names ns (mask * 2) f result ≡ append_names ns mask (f / 2) result
unfolding append_names
append_names-double [] mask f result = refl
append_names-double (n ∷ ns) mask f result =
    append_names-double ns (mask * 2) f (append_if f (mask * 2) n result)
    ∙ ap (append_names ns (mask * 2) (f / 2)) (append_if-double mask f n result)

append_names-selected :
    (ns : List Bytes) (f : ℕ) (result : Bytes)
    → append_names ns 1 f result ≡ append_each result (selected ns f)
unfolding append_names append_each selected
append_names-selected [] f result = refl
append_names-selected (n ∷ ns) f result =
    append_names-double ns 1 f (append_if f 1 n result)
    ∙ append_names-selected ns (f / 2) (append_if f 1 n result)
    ∙ rw (append_if-one f n result) (selected_step (f % 2 == 1))
  where
    selected_step :
        (b : Bool)
        → append_each (if b then append_string result n else result) (selected ns (f / 2))
          ≡ append_each result (if b then n ∷ selected ns (f / 2) else selected ns (f / 2))
    selected_step true = refl
    selected_step false = refl

append_each-append :
    (result : Bytes) (ss ts : List Bytes)
    → append_each result (ss ++ ts) ≡ append_each (append_each result ss) ts
unfolding append_each
append_each-append result [] ts = refl
append_each-append result (s ∷ ss) ts = append_each-append (append_string result s) ss ts

append_each_cons :
    (c : ℕ) (result : Bytes) (t : Bytes) (ts : List Bytes)
    → append_each (c ∷ result) (t ∷ ts) ≡ (c ∷ result) ++ text "," ++ join (text ",") (t ∷ ts)
unfolding append_each append_string join
append_each_cons c result t [] = refl
append_each_cons c result t (u ∷ ts) =
    append_each_cons c (result ++ text "," ++ t) u ts ∙ simp append_assoc

parse_response_flag-each :
    (f : ℕ)
    → parse_response_flag f
      ≡ (let r = append_each [] (tokens f) in if is_empty r then no_flags else r)
unfolding parse_response_flag append_names tokens append_each
parse_response_flag-each f =
    let named = append_names-selected flag_names f [] in
    rw
      (
        append_each-append [] (selected flag_names f)
            (if leb flags_end f then decimal f ∷ [] else []),
        ← named,
      )
      (last_step (leb flags_end f))
  where
    last_step :
        (b : Bool)
        → (let r = append_names flag_names 1 f [] in
            let r = if b then append_string r (decimal f) else r in
            if is_empty r then no_flags else r)
          ≡ (let r =
                append_each (append_names flag_names 1 f []) (if b then decimal f ∷ [] else []) in
              if is_empty r then no_flags else r)
    last_step true = refl
    last_step false = refl

selected-All {κ} : (P : Bytes → Type κ) (ns : List Bytes) (f : ℕ) → All P ns → All P (selected ns f)
unfolding selected
selected-All P [] f h = h
selected-All P (n ∷ ns) f (h, hs) = elim (Bool-cases (f % 2 == 1)) [
  | inl bit ↦ rw bit (h, selected-All P ns (f / 2) hs)
  | inr clear ↦ rw clear (selected-All P ns (f / 2) hs)
]

-- What holds of every name and of the decimal holds of the parts.
tokens-All {κ} : (P : Bytes → Type κ) (f : ℕ) → All P flag_names → P (decimal f) → All P (tokens f)
unfolding tokens
tokens-All P f named number =
    All-append P (selected flag_names f) _ (selected-All P flag_names f named)
      (last_part (leb flags_end f))
  where
    last_part : (b : Bool) → All P (if b then decimal f ∷ [] else [])
    last_part true = (number, tt)
    last_part false = tt

-- A part that is neither empty nor broken by a comma.
abbrev has_no_comma : Bytes → Bool
has_no_comma t = test_all (λ c. not (c == b',')) t

abbrev pub IsPart : Bytes → Type 0
IsPart t = (is_empty t ≡ false) × All (λ c. c ≢ b',') t

names-IsPart : All IsPart flag_names
names-IsPart =
    All-mono (λ t. (not (is_empty t) && has_no_comma t) ≡ true) IsPart flag_names
      (λ t h. (
        ground arith,
        All-mono (λ c. not (c == b',') ≡ true) (λ c. c ≢ b',') t (λ c e. ground arith)
            (All-test_all (λ c. not (c == b',')) t (ground arith)),
      ))
      (All-test_all (λ t. not (is_empty t) && has_no_comma t) flag_names refl)

decimal-IsPart : (f : ℕ) → IsPart (decimal f)
decimal-IsPart f = (
  decimal-is_empty f,
  All-mono IsDigit (λ c. c ≢ b',') (decimal f) (λ c d e. omega arith) (decimal-digits f),
)

pub tokens-IsPart : (f : ℕ) → All IsPart (tokens f)
tokens-IsPart f = tokens-All IsPart f names-IsPart (decimal-IsPart f)

abbrev pub flag_text : List Bytes → Bytes
flag_text [] = no_flags
flag_text (t ∷ ts) = join (text ",") (t ∷ ts)

flag_text-each :
    (ts : List Bytes)
    → All IsPart ts
    → (let r = append_each [] ts in if is_empty r then no_flags else r) ≡ flag_text ts
unfolding append_each append_string join
flag_text-each [] h = refl
flag_text-each ([] ∷ ts) h = cc (h.0.0)
flag_text-each ((c ∷ t) ∷ []) h = refl
flag_text-each ((c ∷ t) ∷ u ∷ ts) h = rw (append_each_cons c t u ts) refl

-- The text is the list of the names of the digits that are 1, from the lowest on, with the number
-- itself behind them where it has a digit past the last flag; and a dash where there are none.
pub parse_response_flag_lem : (f : ℕ) → parse_response_flag f ≡ flag_text (tokens f)
parse_response_flag_lem f = parse_response_flag-each f ∙ flag_text-each (tokens f) (tokens-IsPart f)
