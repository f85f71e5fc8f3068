-- ===== src/AwsLambda/Authenticator/Headers.antt =====
-- The set of headers to sign, and what `prepareHeaders` writes about it.
use mathlib.Core.List.{append_assoc, append-nil}
use envoy_wasm_filters.Base.{
  ◌≡◌, refl, ◌∙◌, Bool, true, false, ◌||◌, List, [], ◌∷◌, ◌++◌, map, arith, Bytes, text, bytes_eq,
  bytes_lt, bytes_lt_total, join, concat,
}
use envoy_wasm_filters.AwsLambda.Platform.{Host}
use envoy_wasm_filters.AwsLambda.Authenticator.{
  newline, date_header, HeaderList, lowercasecompare, set_insert, set_insert_all,
  create_header_to_sign,
}
use envoy_wasm_filters.AwsLambda.Authenticator.Signing.{prepare_from, prepare_headers}

-- Below `x` stands nothing of the list.
abbrev pub IsBelow : Bytes → HeaderList → Type 0
IsBelow x [] = Unit
IsBelow x (y ∷ ys) = bytes_lt x y ≡ true

-- In the order of the bytes, each header once.
abbrev pub IsOrdered : HeaderList → Type 0
IsOrdered [] = Unit
IsOrdered (x ∷ xs) = IsBelow x xs × IsOrdered xs

unfoldable pub contains : HeaderList → Bytes → Bool
contains [] x = false
contains (y ∷ ys) x = bytes_eq y x || contains ys x

set_insert-IsBelow :
    (x z : Bytes) (ys : HeaderList)
    → bytes_lt z x ≡ true
    → IsBelow z ys
    → IsBelow z (set_insert x ys)
unfolding set_insert lowercasecompare
set_insert-IsBelow x z [] h k = h
set_insert-IsBelow x z (y ∷ ys) h k = ground arith

set_insert-IsOrdered : (x : Bytes) (ys : HeaderList) → IsOrdered ys → IsOrdered (set_insert x ys)
unfolding set_insert lowercasecompare
set_insert-IsOrdered x [] h = (tt, tt)
set_insert-IsOrdered x (y ∷ ys) (h, hs) =
    ground (arith, set_insert-IsBelow x y ys, set_insert-IsOrdered x ys)

set_insert_all-IsOrdered :
    (xs : List Bytes) (ys : HeaderList) → IsOrdered ys → IsOrdered (set_insert_all xs ys)
unfolding set_insert_all
set_insert_all-IsOrdered [] ys h = h
set_insert_all-IsOrdered (x ∷ xs) ys h =
    set_insert_all-IsOrdered xs (set_insert x ys) (set_insert-IsOrdered x ys h)

contains-set_insert :
    (x z : Bytes) (ys : HeaderList) → contains (set_insert x ys) z ≡ bytes_eq x z || contains ys z
unfolding set_insert lowercasecompare contains
contains-set_insert x z [] = refl
contains-set_insert x z (y ∷ ys) = ground (arith, contains-set_insert x z ys, bytes_lt_total x y)

contains-set_insert_all :
    (xs : List Bytes) (z : Bytes) (ys : HeaderList)
    → contains (set_insert_all xs ys) z ≡ contains xs z || contains ys z
unfolding set_insert_all contains
contains-set_insert_all [] z ys = refl
contains-set_insert_all (x ∷ xs) z ys =
    ground (arith, contains-set_insert_all xs z (set_insert x ys), contains-set_insert x z ys)

-- The set that is signed is in order, and holds the given headers and the date header, no other.
pub create_header_to_sign_lem :
    (headers : List Bytes) (x : Bytes)
    → IsOrdered (create_header_to_sign headers)
      × (contains (create_header_to_sign headers) x ≡ bytes_eq date_header x || contains headers x)
unfolding create_header_to_sign contains
create_header_to_sign_lem headers x = (
  set_insert-IsOrdered date_header (set_insert_all headers [])
      (set_insert_all-IsOrdered headers [] tt),
  ground (
    arith,
    contains-set_insert date_header x (set_insert_all headers []),
    contains-set_insert_all headers x [],
  ),
)

module _ (W : Host) where
  -- A header's line in the canonical headers.
  abbrev pub header_line : W.World → Bytes → Bytes
  header_line w name = name ++ text ":" ++ W.get_request_header name w ++ newline

  prepare_from_lem :
      (canonical signed : Bytes) (names : HeaderList) (w : W.World)
      → prepare_from W canonical signed names w
        ≡ (canonical ++ concat (map (header_line w) names), signed ++ join (text ";") names)
  unfolding prepare_from join concat
  prepare_from_lem canonical signed [] w = simp append-nil
  prepare_from_lem canonical signed (name ∷ []) w = simp (append-nil, append_assoc)
  prepare_from_lem canonical signed (name ∷ next ∷ more) w =
      prepare_from_lem (canonical ++ name ++ text ":" ++ W.get_request_header name w ++ newline)
        (signed ++ name ++ text ";") (next ∷ more) w
      ∙ simp (append_assoc)

  -- `prepareHeaders` writes a line for each header, and the names with semicolons between them.
  pub prepare_headers_lem :
      (names : HeaderList) (w : W.World)
      → prepare_headers W names w ≡ (concat (map (header_line w) names), join (text ";") names)
  unfolding prepare_headers
  prepare_headers_lem names w = prepare_from_lem [] [] names w
