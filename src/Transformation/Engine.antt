-- ===== src/Transformation/Engine.antt =====
-- What the transformation filter calls and this repository does not implement: the regular
-- expressions of the standard library, the JSON values, the inja templates (a patched copy stands
-- in extensions/transformation/inja.hpp), and the proxy's header maps.
use envoy_wasm_filters.Base.{
  ℕ, ◌+◌, ◌≡◌, ◌≢◌, Bool, Option, none, some, List, [], ◌∷◌, length, Bytes, text,
}

-- A call returns, or throws an exception with a message.
pub data Result {ℓ} (A : Type ℓ) : Type ℓ where
  ok : A → Result A
  thrown : Bytes → Result A

infixl 5 ◌>>=◌
abbrev pub ◌>>=◌ {ℓ κ} : {A : Type ℓ} {B : Type κ} → Result A → (A → Result B) → Result B
ok a >>= f = f a
thrown e >>= f = thrown e

-- The strings of the sub-matches of a whole match; a group that took no part has the empty string.
-- Matching may throw `regex_error`, where an expression takes too many steps or too much memory.
pub record Regexes : Type 1 where
  pub Regex : Type 0
  pub compile : Bytes → Result Regex
  pub mark_count : Regex → ℕ
  pub regex_match : Bytes → Regex → Result (Option (List Bytes))

-- A match has one sub-match for the whole and one for each marked group.
pub record IsEcmaScript (R : Regexes) : Type 0 where
  pub match_size :
      (value : Bytes) (r : R.Regex) (subs : List Bytes)
      → R.regex_match value r ≡ ok (some subs)
      → length subs ≡ R.mark_count r + 1

-- `get_ref<const std::string&>()` throws on a value that is no string.
pub record Values : Type 1 where
  pub Json : Type 0
  pub of_string : Bytes → Json
  pub get_string : Json → Result Bytes
  pub is_object : Json → Bool
  pub null_value : Json

-- A value that is made of a string is that string.
pub record IsJson (V : Values) : Type 0 where
  pub get_string-of_string : (s : Bytes) → V.get_string (V.of_string s) ≡ ok s

pub record Callback (V : Values) : Type 0 where
  pub name : Bytes
  pub arity : ℕ
  pub call : List V.Json → Result V.Json

-- The parser, and an environment's `render` with the callbacks that were added to it.
pub record Templates (V : Values) : Type 1 where
  pub Template : Type 0
  pub parse : Bytes → Result Template
  pub render : List (Callback V) → Template → V.Json → Result Bytes

-- A template that is a call of `header` with one argument, such as {{header("x")}}, renders to the
-- string that the first callback of that name and of one argument returns for the name, or throws
-- what that throws.
pub record IsReading (V : Values) (T : Templates V) (t : T.Template) (name : Bytes) : Type 0 where
  pub render-header :
      (c : Callback V) (more : List (Callback V)) (context : V.Json)
      → c.name ≡ text "header"
      → c.arity ≡ 1
      → T.render (c ∷ more) t context ≡ (c.call (V.of_string name ∷ []) >>= V.get_string)

-- A template with no markup renders to its own text.
abbrev pub IsLiteral : (V : Values) (T : Templates V) → T.Template → Bytes → Type 0
IsLiteral V T t output =
    (callbacks : List (Callback V)) (context : V.Json) → T.render callbacks t context ≡ ok output

-- A header map of the proxy, and the two calls that the transformer is given. Names are lower case.
pub record HeaderMap : Type 1 where
  pub World : Type 0
  pub get : Bytes → World → Option Bytes
  pub add : Bytes → Bytes → World → World
  pub remove : Bytes → World → World

pub record IsHeaderMap (M : HeaderMap) : Type 0 where
  pub get-remove : (k : Bytes) (w : M.World) → M.get k (M.remove k w) ≡ none
  pub get-remove_other : (k j : Bytes) (w : M.World) → k ≢ j → M.get j (M.remove k w) ≡ M.get j w
  pub get-add_missing :
      (k v : Bytes) (w : M.World) → M.get k w ≡ none → M.get k (M.add k v w) ≡ some v
  pub get-add_other : (k j v : Bytes) (w : M.World) → k ≢ j → M.get j (M.add k v w) ≡ M.get j w
