-- ===== src/Transformation/Matcher/Entries.antt =====
-- The entries of the map of matchers: one for each name, from the last specifier of the name.
use envoy_wasm_filters.Base.{
  ◌≡◌, refl, sym, ◌∙◌, inl, inr, Bool, true, false, Option, none, some, List, [], ◌∷◌, arith,
  if◌then◌else◌, Bytes, bytes_eq, bytes_eq_iff, Bool-cases,
}
use envoy_wasm_filters.Transformation.Matcher.{
  Specifier, HeaderMatch, StringMatcher, new_matcher, MatcherImpl, map_set, add_matchers,
}

-- The specifier that the configuration gives last for a name.
unfoldable pub last_for : Bytes → List HeaderMatch → Option Specifier → Option Specifier
last_for name [] found = found
last_for name (h ∷ hs) found =
    last_for name hs (if bytes_eq h.name name then some h.specifier else found)

-- The matcher that the map holds for a name.
unfoldable pub map_find : Bytes → MatcherImpl → Option StringMatcher
map_find name [] = none
map_find name ((k, m) ∷ entries) = if bytes_eq k name then some m else map_find name entries

abbrev pub matcher_of : Option Specifier → Option StringMatcher
matcher_of none = none
matcher_of (some sp) = some (new_matcher sp)

map_find-map_set :
    (name k : Bytes) (m : StringMatcher) (impl : MatcherImpl)
    → map_find name (map_set k m impl) ≡ (if bytes_eq k name then some m else map_find name impl)
unfolding map_find map_set
map_find-map_set name k m [] = refl
map_find-map_set name k m ((j, v) ∷ entries) = ground (
  arith,
  bytes_eq_iff j k,
  bytes_eq_iff k name,
  bytes_eq_iff j name,
  map_find-map_set name k m entries,
)

pub map_find-add_matchers :
    (name : Bytes) (hs : List HeaderMatch) (impl : MatcherImpl) (found : Option Specifier)
    → map_find name impl ≡ matcher_of found
    → map_find name (add_matchers hs impl) ≡ matcher_of (last_for name hs found)
unfolding add_matchers last_for
map_find-add_matchers name [] impl found e = e
map_find-add_matchers name (h ∷ hs) impl found e =
    map_find-add_matchers name hs (map_set h.name (new_matcher h.specifier) impl) _
      (map_find-map_set name h.name (new_matcher h.specifier) impl ∙ step (bytes_eq h.name name))
  where
    step :
        (b : Bool)
        → (if b then some (new_matcher h.specifier) else map_find name impl)
          ≡ matcher_of (if b then some h.specifier else found)
    step true = refl
    step false = e

-- The keys of the map are distinct.
abbrev pub IsFresh : Bytes → MatcherImpl → Type 0
IsFresh name impl = map_find name impl ≡ none

abbrev pub HasDistinctKeys : MatcherImpl → Type 0
HasDistinctKeys [] = Unit
HasDistinctKeys ((k, m) ∷ entries) = IsFresh k entries × HasDistinctKeys entries

bytes_eq-false_sym : (a b : Bytes) → bytes_eq a b ≡ false → bytes_eq b a ≡ false
bytes_eq-false_sym a b h = elim (Bool-cases (bytes_eq b a)) [
  | inl same ↦ let e : a ≡ b = sym ((bytes_eq_iff b a).0 same) in cc (h, (bytes_eq_iff a b).1 e)
  | inr other ↦ other
]

map_set-HasDistinctKeys :
    (k : Bytes) (m : StringMatcher) (impl : MatcherImpl)
    → HasDistinctKeys impl
    → HasDistinctKeys (map_set k m impl)
unfolding map_set
map_set-HasDistinctKeys k m [] h = (unfold map_find in refl, tt)
map_set-HasDistinctKeys k m ((j, v) ∷ entries) (fresh, h) = elim (Bool-cases (bytes_eq j k)) [
  | inl same ↦ rw same (fresh, h)
  | inr other ↦ rw other (
    map_find-map_set j k m entries ∙ rw (bytes_eq-false_sym j k other) fresh,
    map_set-HasDistinctKeys k m entries h,
  )
]

pub add_matchers-HasDistinctKeys :
    (hs : List HeaderMatch) (impl : MatcherImpl)
    → HasDistinctKeys impl
    → HasDistinctKeys (add_matchers hs impl)
unfolding add_matchers
add_matchers-HasDistinctKeys [] impl d = d
add_matchers-HasDistinctKeys (h ∷ hs) impl d =
    add_matchers-HasDistinctKeys hs (map_set h.name (new_matcher h.specifier) impl)
      (map_set-HasDistinctKeys h.name (new_matcher h.specifier) impl d)
