-- ===== src/Transformation/Matcher/Specifiers.antt =====
-- When a value fits a specifier.
use mathlib.Core.List.{append-nil}
use envoy_wasm_filters.Base.{
  ℕ, suc, zero, ◌-◌, ◌≤◌, ◌≡◌, refl, sym, ap, ◌∙◌, ◌↔◌, true, [], ◌∷◌, ◌++◌, leb→le, arith, length,
  take, drop, Bytes, bytes_eq_iff, bytes_eq_refl, length-append, take-append-drop,
  take-length-append, drop-length-append,
}
use envoy_wasm_filters.Transformation.Matcher.{
  Specifier, exact_match, prefix_match, suffix_match, present_match, not_set, matches, new_matcher,
}

-- What each specifier asks of a value.
abbrev pub Fits : Specifier → Bytes → Type 0
Fits (exact_match e) s = e ≡ s
Fits (prefix_match p) s = (rest : Bytes) × (s ≡ p ++ rest)
Fits (suffix_match p) s = (front : Bytes) × (s ≡ front ++ p)
Fits (present_match b) s = Unit
Fits not_set s = Unit

prefix_sound :
    (p s : Bytes) → matches (new_matcher (prefix_match p)) s ≡ true → Fits (prefix_match p) s
unfolding matches new_matcher
prefix_sound [] s h = (s, refl)
prefix_sound (c ∷ p) s h =
    let same : take (suc (length p)) s ≡ c ∷ p = (bytes_eq_iff _ _).0 (ground arith) in
    (
      drop (suc (length p)) s,
      sym (take-append-drop (suc (length p)) s) ∙ ap (λ t. t ++ drop (suc (length p)) s) same,
    )

prefix_complete : (p rest : Bytes) → matches (new_matcher (prefix_match p)) (p ++ rest) ≡ true
unfolding matches new_matcher
prefix_complete p rest = ground (
  arith,
  length-append p rest,
  take-length-append p rest,
  bytes_eq_iff (take (length p) (p ++ rest)) p,
)

take-length : (s : Bytes) (n : ℕ) → length s ≤ n → take n s ≡ s
take-length [] zero h = refl
take-length [] (suc n) h = refl
take-length (c ∷ s) zero h = absurd (omega arith)
take-length (c ∷ s) (suc n) h = ap (λ r. c ∷ r) (take-length s n (omega arith))

length-drop : (n : ℕ) (s : Bytes) → length (drop n s) ≡ length s - n
length-drop zero s = omega arith
length-drop (suc n) [] = omega arith
length-drop (suc n) (c ∷ s) = omega (arith, length-drop n s)

suffix_sound :
    (p s : Bytes) → matches (new_matcher (suffix_match p)) s ≡ true → Fits (suffix_match p) s
unfolding matches new_matcher
suffix_sound [] s h = (s, sym (append-nil s))
suffix_sound (c ∷ p) s h =
    let n = length s - suc (length p) in
    let fits : suc (length p) ≤ length s = leb→le _ _ (ground arith) in
    let taken : take (suc (length p)) (drop n s) ≡ c ∷ p = (bytes_eq_iff _ _).0 (ground arith) in
    let whole : take (suc (length p)) (drop n s) ≡ drop n s =
      take-length (drop n s) (suc (length p)) (omega (arith, length-drop n s)) in
    (take n s, sym (take-append-drop n s) ∙ ap (λ t. take n s ++ t) (sym whole ∙ taken))

suffix_complete : (p front : Bytes) → matches (new_matcher (suffix_match p)) (front ++ p) ≡ true
unfolding matches new_matcher
suffix_complete p front =
    let size : length (front ++ p) - length p ≡ length front =
      omega (arith, length-append front p) in
    let dropped : drop (length (front ++ p) - length p) (front ++ p) ≡ p =
      ap (λ n. drop n (front ++ p)) size ∙ drop-length-append front p in
    let taken : take (length p) p ≡ p = take-length p (length p) (omega arith) in
    ground (
      arith,
      length-append front p,
      dropped,
      taken,
      bytes_eq_refl p,
      ap (take (length p)) dropped,
      bytes_eq_iff (take (length p) (drop (length (front ++ p) - length p) (front ++ p))) p,
    )

-- A matcher accepts exactly the values that fit its specifier.
pub matches_iff : (sp : Specifier) (s : Bytes) → (matches (new_matcher sp) s ≡ true) ↔ Fits sp s
matches_iff (exact_match e) s = unfold matches new_matcher in bytes_eq_iff e s
matches_iff (prefix_match p) s = (prefix_sound p s, λ f. rw f.1 (prefix_complete p f.0))
matches_iff (suffix_match p) s = (suffix_sound p s, λ f. rw f.1 (suffix_complete p f.0))
matches_iff (present_match b) s = (λ _. tt, λ _. unfold matches new_matcher in refl)
matches_iff not_set s = (λ _. tt, λ _. unfold matches new_matcher in refl)
