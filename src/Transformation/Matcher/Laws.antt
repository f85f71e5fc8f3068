-- ===== src/Transformation/Matcher/Laws.antt =====
-- When a request fits a matcher.
use envoy_wasm_filters.Base.{
  ◌≡◌, ◌≢◌, refl, sym, subst, ◌∙◌, ◌↔◌, inl, inr, Bool, true, false, Option, none, some, List, [],
  ◌∷◌, arith, Bytes, bytes_eq, bytes_eq_iff, bytes_eq_refl, Bool-cases, Option-cases, All, All-mono,
}
use envoy_wasm_filters.Transformation.Headers.{Headers, get_header}
use envoy_wasm_filters.Transformation.Headers.First.{HasFirst, get_header-some_iff}
use envoy_wasm_filters.Transformation.Matcher.{
  Specifier, HeaderMatch, StringMatcher, matches, new_matcher, MatcherImpl, add_matchers, construct,
  entry_matches, impl_matches,
}
use envoy_wasm_filters.Transformation.Matcher.Specifiers.{Fits, matches_iff}
use envoy_wasm_filters.Transformation.Matcher.Entries.{
  last_for, map_find, matcher_of, map_find-add_matchers, HasDistinctKeys,
  add_matchers-HasDistinctKeys,
}

-- Every name of the map has a header whose value its matcher accepts.
abbrev AcceptsAll : MatcherImpl → Headers → Type 0
AcceptsAll impl headers =
    (name : Bytes) (m : StringMatcher)
    → map_find name impl ≡ some m
    → (value : Bytes) × (get_header headers name ≡ some value) × (matches m value ≡ true)

entry_matches-true :
    (m : StringMatcher) (o : Option Bytes)
    → entry_matches m o ≡ true
    → (value : Bytes) × (o ≡ some value) × (matches m value ≡ true)
unfolding entry_matches
entry_matches-true m none h = cc
entry_matches-true m (some value) h = (value, refl, h)

impl_matches_sound :
    (impl : MatcherImpl) (headers : Headers)
    → impl_matches impl headers ≡ true
    → AcceptsAll impl headers
unfolding impl_matches map_find
impl_matches_sound [] headers h name m e = cc
impl_matches_sound ((k, v) ∷ entries) headers h name m e = elim (Bool-cases (bytes_eq k name)) [
  | inl same ↦
      let key : k ≡ name = (bytes_eq_iff k name).0 same in
      let held : v ≡ m = ground arith in
      rw (← key, ← held) (entry_matches-true v (get_header headers k) (ground arith))
  | inr other ↦ impl_matches_sound entries headers (ground arith) name m (rw other at e)
]

impl_matches_complete :
    (impl : MatcherImpl) (headers : Headers)
    → HasDistinctKeys impl
    → AcceptsAll impl headers
    → impl_matches impl headers ≡ true
unfolding impl_matches map_find
impl_matches_complete [] headers d h = refl
impl_matches_complete ((k, v) ∷ entries) headers (fresh, d) h =
    let (value, there, fits) = h k v (rw (bytes_eq_refl k)) in
    let here : entry_matches v (get_header headers k) ≡ true =
      rw there (unfold entry_matches in fits) in
    rw here (impl_matches_complete entries headers d (λ name m e. h name m (later name m e)))
  where
    later :
        (name : Bytes) (m : StringMatcher)
        → map_find name entries ≡ some m
        → map_find name ((k, v) ∷ entries) ≡ some m
    later name m e = elim (Bool-cases (bytes_eq k name)) [
      | inl same ↦ let key : k ≡ name = (bytes_eq_iff k name).0 same in absurd (cc (fresh, e, key))
      | inr other ↦ rw other e
    ]

-- The header is there, and its value fits.
abbrev pub HasFitting : Headers → Bytes → Option Specifier → Type 0
HasFitting headers name none = ⊥
HasFitting headers name (some sp) = (value : Bytes) × HasFirst headers name value × Fits sp value

last_for-All :
    (Q : Bytes → Type 0) (name : Bytes) (hs : List HeaderMatch) (sp : Specifier)
    → All (λ h. Q h.name) hs
    → last_for name hs none ≡ some sp
    → Q name
unfolding last_for
last_for-All Q name [] sp q e = cc
last_for-All Q name (h ∷ hs) sp (here, q) e = elim (Bool-cases (bytes_eq h.name name)) [
  | inl same ↦ subst Q ((bytes_eq_iff h.name name).0 same) here
  | inr other ↦ last_for-All Q name hs sp q (rw other at e)
]

last_for_found :
    (name : Bytes) (hs : List HeaderMatch) (sp : Specifier) → last_for name hs (some sp) ≢ none
unfolding last_for
last_for_found name [] sp e = cc
last_for_found name (h ∷ hs) sp e = elim (Bool-cases (bytes_eq h.name name)) [
  | inl same ↦ last_for_found name hs h.specifier (rw same at e)
  | inr other ↦ last_for_found name hs sp (rw other at e)
]

abbrev IsLooked : List HeaderMatch → HeaderMatch → Type 0
IsLooked hs x = (found : Option Specifier) → last_for x.name hs found ≢ none

-- Every name in the configuration has a last specifier.
last_for-IsLooked : (hs : List HeaderMatch) → All (IsLooked hs) hs
unfolding last_for
last_for-IsLooked [] = tt
last_for-IsLooked (h ∷ hs) = (
  λ found e. last_for_found h.name hs h.specifier (rw (bytes_eq_refl h.name) at e),
  All-mono (IsLooked hs) (IsLooked (h ∷ hs)) hs (λ x looked found. looked _) (last_for-IsLooked hs),
)

fitting :
    (hs : List HeaderMatch) (headers : Headers) (x : HeaderMatch)
    → AcceptsAll (construct hs) headers
    → IsLooked hs x
    → HasFitting headers x.name (last_for x.name hs none)
unfolding construct map_find
fitting hs headers x all looked = elim (Option-cases (last_for x.name hs none)) [
  | inl missing ↦ absurd (looked none missing)
  | inr (sp, last) ↦
      let held : map_find x.name (add_matchers hs []) ≡ some (new_matcher sp) =
        map_find-add_matchers x.name hs [] none refl ∙ rw last refl in
      let (value, there, fits) = all x.name (new_matcher sp) held in
      rw last
        (value, (get_header-some_iff headers x.name value).0 there, (matches_iff sp value).0 fits)
]

accepts :
    (hs : List HeaderMatch) (headers : Headers)
    → All (λ h. HasFitting headers h.name (last_for h.name hs none)) hs
    → AcceptsAll (construct hs) headers
unfolding construct map_find
accepts hs headers all name m e = elim (Option-cases (last_for name hs none)) [
  | inl missing ↦
      let empty : matcher_of (last_for name hs none) ≡ none = rw missing refl in
      absurd (cc (e, map_find-add_matchers name hs [] none refl, empty))
  | inr (sp, last) ↦
      let held : matcher_of (last_for name hs none) ≡ some m =
        sym (map_find-add_matchers name hs [] none refl) ∙ e in
      let same : new_matcher sp ≡ m = cc (rw last at held) in
      let fit = last_for-All (λ n. HasFitting headers n (last_for n hs none)) name hs sp all last in
      let (value, there, fits) = rw last at fit in
      (
        value,
        (get_header-some_iff headers name value).1 there,
        rw (← same) ((matches_iff sp value).1 fits),
      )
]

-- A request matches exactly when, for every name in the configuration, it has a header of that name
-- whose first value fits the last specifier given for it; the others given for it are not checked.
pub impl_matches-construct :
    (hs : List HeaderMatch) (headers : Headers)
    → (impl_matches (construct hs) headers ≡ true)
      ↔ All (λ h. HasFitting headers h.name (last_for h.name hs none)) hs
unfolding construct
impl_matches-construct hs headers = (
  λ h.
      All-mono (IsLooked hs) (λ x. HasFitting headers x.name (last_for x.name hs none)) hs
        (λ x looked. fitting hs headers x (impl_matches_sound (construct hs) headers h) looked)
        (last_for-IsLooked hs),
  λ all.
      impl_matches_complete (construct hs) headers (add_matchers-HasDistinctKeys hs [] tt)
        (accepts hs headers all),
)

bool_eq : (a b : Bool) → (a ≡ true → b ≡ true) → (b ≡ true → a ≡ true) → a ≡ b
bool_eq true b h k = sym (h refl)
bool_eq false true h k = k refl
bool_eq false false h k = refl

-- The answer of a map of matchers depends on what it holds for each name alone: every order in which
-- the entries of a constructed matcher may be iterated gives the same answer.
pub impl_matches_order :
    (hs : List HeaderMatch) (other : MatcherImpl) (headers : Headers)
    → HasDistinctKeys other
    → ((name : Bytes) → map_find name other ≡ map_find name (construct hs))
    → impl_matches other headers ≡ impl_matches (construct hs) headers
impl_matches_order hs other headers distinct same =
    let keys : HasDistinctKeys (construct hs) =
      unfold construct in add_matchers-HasDistinctKeys hs [] tt in
    bool_eq (impl_matches other headers) (impl_matches (construct hs) headers)
      (λ h.
        impl_matches_complete (construct hs) headers keys
          (λ name m e. impl_matches_sound other headers h name m (same name ∙ e)))
      (λ h.
        impl_matches_complete other headers distinct
          (λ name m e. impl_matches_sound (construct hs) headers h name m (sym (same name) ∙ e)))
