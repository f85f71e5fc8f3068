-- ===== src/AwsLambda/Authenticator/HeaderSets.antt =====
-- The headers to sign as a set: neither the order nor the repetition of the given headers counts.
use mathlib.Core.Quot
use mathlib.Core.Quot.{Quot, Quot-set}
use envoy_wasm_filters.Base.{
  ◌≡◌, refl, sym, ap, ◌∙◌, ◌↔◌, inl, inr, true, false, ◌||◌, List, [], ◌∷◌, Bytes, bytes_eq,
  bytes_eq_iff, bytes_eq_refl, bytes_lt, bytes_lt_irrefl, bytes_lt_trans, bytes_lt_total,
  Bool-cases,
}
use envoy_wasm_filters.AwsLambda.Authenticator.{date_header, HeaderList, create_header_to_sign}
use envoy_wasm_filters.AwsLambda.Authenticator.Headers.{
  IsBelow, IsOrdered, contains, create_header_to_sign_lem,
}

abbrev pub SameHeaders : List Bytes → List Bytes → Type 0
SameHeaders xs ys = (z : Bytes) → contains xs z ≡ contains ys z

bytes_lt-ne : (x y : Bytes) → bytes_lt x y ≡ true → bytes_eq y x ≡ false
bytes_lt-ne x y h = elim (Bool-cases (bytes_eq y x)) [
  | inl same ↦
      let e : y ≡ x = (bytes_eq_iff y x).0 same in
      let irrefl : bytes_lt x x ≡ true = rw e at h in cc (irrefl, bytes_lt_irrefl x)
  | inr other ↦ other
]

IsBelow-trans : (x y : Bytes) (ys : HeaderList) → bytes_lt x y ≡ true → IsBelow y ys → IsBelow x ys
IsBelow-trans x y [] h k = tt
IsBelow-trans x y (z ∷ ys) h k = bytes_lt_trans x y z h k

-- What is below an ordered list is not in it.
contains-IsBelow :
    (x : Bytes) (ys : HeaderList) → IsOrdered ys → IsBelow x ys → contains ys x ≡ false
unfolding contains
contains-IsBelow x [] h k = refl
contains-IsBelow x (y ∷ ys) (below, h) k =
    rw (bytes_lt-ne x y k, contains-IsBelow x ys h (IsBelow-trans x y ys k below)) refl

contains-head : (x : Bytes) (xs : HeaderList) → contains (x ∷ xs) x ≡ true
unfolding contains
contains-head x xs = rw (bytes_eq_refl x) refl

-- The first headers of two ordered lists of the same headers are the same.
head_unique :
    (x y : Bytes) (xs ys : HeaderList)
    → IsOrdered (x ∷ xs)
    → IsOrdered (y ∷ ys)
    → SameHeaders (x ∷ xs) (y ∷ ys)
    → x ≡ y
head_unique x y xs ys h k same =
    bytes_lt_total x y (lowest x y xs ys k same) (lowest y x ys xs h (λ z. sym (same z)))
  where
    lowest :
        (a b : Bytes) (more rest : HeaderList)
        → IsOrdered (b ∷ rest)
        → SameHeaders (a ∷ more) (b ∷ rest)
        → bytes_lt a b ≡ false
    lowest a b more rest o s = elim (Bool-cases (bytes_lt a b)) [
      | inl less ↦ cc (contains-head a more, s a, contains-IsBelow a (b ∷ rest) o less)
      | inr other ↦ other
    ]

tail_same :
    (x : Bytes) (xs ys : HeaderList)
    → IsOrdered (x ∷ xs)
    → IsOrdered (x ∷ ys)
    → SameHeaders (x ∷ xs) (x ∷ ys)
    → SameHeaders xs ys
tail_same x xs ys (below, h) (under, k) same z =
    let s : (bytes_eq x z || contains xs z) ≡ (bytes_eq x z || contains ys z) =
      unfold contains in same z in
    elim (Bool-cases (bytes_eq x z)) [
      | inl equal ↦
          let e : x ≡ z = (bytes_eq_iff x z).0 equal in
          rw e at (contains-IsBelow x xs h below ∙ sym (contains-IsBelow x ys k under))
      | inr other ↦ rw other at s
    ]

-- An ordered list is determined by its headers.
IsOrdered-unique : (xs ys : HeaderList) → IsOrdered xs → IsOrdered ys → SameHeaders xs ys → xs ≡ ys
IsOrdered-unique [] [] h k same = refl
IsOrdered-unique [] (y ∷ ys) h k same = unfold contains in cc (same y, contains-head y ys)
IsOrdered-unique (x ∷ xs) [] h k same = unfold contains in cc (same x, contains-head x xs)
IsOrdered-unique (x ∷ xs) (y ∷ ys) h k same =
    let e = head_unique x y xs ys h k same in
    let k' : IsOrdered (x ∷ ys) = rw (← e) at k in
    let same' : SameHeaders (x ∷ xs) (x ∷ ys) = rw (← e) at same in
    ap (λ l. x ∷ l) (IsOrdered-unique xs ys h.1 k'.1 (tail_same x xs ys h k' same'))
    ∙ ap (λ z. z ∷ ys) e

-- Two lists of headers give the same set to sign exactly where they have the same headers, the date
-- header apart, which is always in the set: their order and their repetitions do not count.
pub create_header_to_sign-eq_iff :
    (xs ys : List Bytes)
    → (create_header_to_sign xs ≡ create_header_to_sign ys)
      ↔ SameHeaders (date_header ∷ xs) (date_header ∷ ys)
unfolding contains
create_header_to_sign-eq_iff xs ys = (
  λ e z.
      sym (create_header_to_sign_lem xs z).1
      ∙ ap (λ set. contains set z) e
      ∙ (create_header_to_sign_lem ys z).1,
  λ same.
      IsOrdered-unique (create_header_to_sign xs) (create_header_to_sign ys)
        (create_header_to_sign_lem xs []).0 (create_header_to_sign_lem ys []).0
        (λ z. (create_header_to_sign_lem xs z).1 ∙ same z ∙ sym (create_header_to_sign_lem ys z).1),
)

-- The given headers without their order and repetitions.
abbrev pub HeaderSet : Type 0
HeaderSet = Quot (λ (xs ys : List Bytes). SameHeaders (date_header ∷ xs) (date_header ∷ ys))

HeaderList_set : IsSet HeaderList
HeaderList_set = hlevel

-- The set to sign is a function of the set of headers.
pub to_sign : HeaderSet → HeaderList
to_sign =
    Quot.lift HeaderList_set create_header_to_sign (λ xs ys. (create_header_to_sign-eq_iff xs ys).1)

-- It forgets nothing else.
to_sign_injective : (s t : HeaderSet) → to_sign s ≡ to_sign t → s ≡ t
unfolding to_sign
to_sign_injective =
    Quot.ind (λ s. hlevel Quot-set)
      (λ xs.
        Quot.ind (λ t. hlevel Quot-set)
          (λ ys e. Quot.sound ((create_header_to_sign-eq_iff xs ys).0 e)))
