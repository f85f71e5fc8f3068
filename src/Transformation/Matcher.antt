-- ===== src/Transformation/Matcher.antt =====
-- extensions/transformation/matcher.{h,cc} and the messages of filter.proto that it reads. The map
-- of matchers is the list of its entries in the order of iteration, which the language leaves open:
-- `Matcher.Laws` states the answer without that order.
pub mod Specifiers
pub mod Entries
pub mod Laws
use envoy_wasm_filters.Base.{
  ℕ, ◌-◌, ◌≡◌, Bool, true, false, not, ◌&&◌, ◌||◌, Option, none, some, List, [], ◌∷◌, ◌++◌, leb,
  if◌then◌else◌, length, take, drop, is_empty, Bytes, bytes_eq,
}
use envoy_wasm_filters.Transformation.Headers.{Headers, get_header}

-- `oneof header_match_specifier`.
pub data Specifier : Type 0 where
  exact_match prefix_match suffix_match : Bytes → Specifier
  present_match : Bool → Specifier
  not_set : Specifier

pub record HeaderMatch : Type 0 where
  pub name : Bytes
  pub specifier : Specifier

-- The subclasses of `StringMatcher`.
pub data StringMatcher : Type 0 where
  prefix_matcher suffix_matcher exact_matcher : Bytes → StringMatcher
  present_matcher : StringMatcher

unfoldable pub matches : StringMatcher → Bytes → Bool
matches (prefix_matcher prefix) s =
    is_empty prefix || (leb (length prefix) (length s) && bytes_eq (take (length prefix) s) prefix)
matches (suffix_matcher suffix) s =
    is_empty suffix
    || (leb (length suffix) (length s)
        && bytes_eq (take (length suffix) (drop (length s - length suffix) s)) suffix)
matches (exact_matcher exact) s = bytes_eq exact s
matches present_matcher s = true

unfoldable pub new_matcher : Specifier → StringMatcher
new_matcher (exact_match e) = exact_matcher e
new_matcher (prefix_match p) = prefix_matcher p
new_matcher (suffix_match s) = suffix_matcher s
new_matcher (present_match b) = present_matcher
new_matcher not_set = present_matcher

abbrev pub MatcherImpl : Type 0
MatcherImpl = List (Bytes × StringMatcher)

-- `matchers_[name] = …` writes over an earlier matcher of the name.
unfoldable pub map_set : Bytes → StringMatcher → MatcherImpl → MatcherImpl
map_set name m [] = (name, m) ∷ []
map_set name m ((k, v) ∷ entries) =
    if bytes_eq k name then (k, m) ∷ entries else (k, v) ∷ map_set name m entries

unfoldable pub add_matchers : List HeaderMatch → MatcherImpl → MatcherImpl
unfolding map_set new_matcher
add_matchers [] impl = impl
add_matchers (h ∷ hs) impl = add_matchers hs (map_set h.name (new_matcher h.specifier) impl)

unfoldable pub construct : List HeaderMatch → MatcherImpl
unfolding add_matchers
construct header_matchers = add_matchers header_matchers []

-- The header is there and its value matches.
unfoldable pub entry_matches : StringMatcher → Option Bytes → Bool
unfolding matches
entry_matches m none = false
entry_matches m (some value) = matches m value

unfoldable pub impl_matches : MatcherImpl → Headers → Bool
unfolding entry_matches get_header
impl_matches [] headers = true
impl_matches ((name, m) ∷ entries) headers =
    if entry_matches m (get_header headers name) then impl_matches entries headers else false
