-- ===== src/AwsLambda/Instances.antt =====
-- A small hash, host and target that have the laws of `Platform`, and a request, to run the filter on.
use mathlib.Core.List.{append_assoc, append-nil}
use native.Mathlib.Nat.{mul-div_cancel, one-le-pow}
use envoy_wasm_filters.Base.{
  ℕ, ◌*◌, ◌/◌, ◌^◌, ◌<◌, refl, Bool, true, false, Option, none, some, List, [], ◌∷◌, ◌++◌, arith,
  if◌then◌else◌, take, drop, Bytes, text, bytes_eq, bytes_eq_refl, bytes_eq_ne,
}
use envoy_wasm_filters.AwsLambda.Platform.{Hashing, IsStreaming, Host, IsHeaderMap, Target, IsIeee}
use envoy_wasm_filters.AwsLambda.Authenticator.{HeaderList, date_header}

-- A hash that keeps its input, and a code that keeps the key before it.
abbrev pub echo : Hashing
echo = record {
  Sha = Bytes;
  sha256_init = [];
  sha256_update = λ c b. c ++ b;
  sha256_final = λ c. (c, c);
  Hmac = Bytes;
  hmac_uninitialised = [];
  hmac_sha256_init = λ c key. key;
  hmac_sha256_update = λ c b. c ++ b;
  hmac_sha256_final = λ c n. (c, take n c);
}

pub echo-IsStreaming : IsStreaming echo
echo-IsStreaming = record {
  sha256_update-append = λ c a b. append_assoc c a b;
  sha256_update-nil = λ c. append-nil c;
  hmac_sha256_update-append = λ c a b. append_assoc c a b;
  hmac_sha256_init_again = λ c d key. refl;
}

-- The headers as a list, the last added first, the clock and the body.
abbrev find_header : List (Bytes × Bytes) → Bytes → Option Bytes
find_header [] k = none
find_header ((j, v) ∷ headers) k = if bytes_eq j k then some v else find_header headers k

abbrev value_or_empty : Option Bytes → Bytes
value_or_empty none = []
value_or_empty (some v) = v

abbrev is_some : Option Bytes → Bool
is_some none = false
is_some (some v) = true

abbrev pub list_host : Host
list_host = record {
  World = List (Bytes × Bytes) × ℕ × Bytes;
  get_request_header = λ k w. value_or_empty (find_header w.0 k);
  add_request_header = λ k v w. ((k, v) ∷ w.0, w.1, w.2);
  is_present = λ k w. is_some (find_header w.0 k);
  get_request_body = λ start size w. take size (drop start w.2);
  current_time_nanoseconds = λ w. w.1;
}

pub list_host-IsHeaderMap : IsHeaderMap list_host
list_host-IsHeaderMap = record {
  get-add_missing = λ k v w h. rw (bytes_eq_refl k);
  get-add_other = λ k j v w ne. rw (bytes_eq_ne k j ne);
  is_present-add_other = λ k j v w ne. rw (bytes_eq_ne k j ne);
}

-- Exact arithmetic, a `time_t` of 32 bits, and freed memory that is not used again.
abbrev pub exact : Target
exact = record {
  Double = ℕ;
  of_u64 = λ n. n;
  to_u64 = λ d. d;
  div = λ a b. a / b;
  literal = λ m k. m * 10 ^ k;
  time_bits = 32;
  read_freed = λ b. some b;
}

scaled-pos : (d k : ℕ) → 0 < d → 0 < d * 2 ^ k
scaled-pos d k h = let size = one-le-pow k 2 (omega arith) in grind (arith, size)

pub exact-IsIeee : IsIeee exact
exact-IsIeee = record {
  literal_exact = λ m k h. refl;
  div_exact = λ q d k pos exact_bits range. mul-div_cancel q (scaled-pos d k pos);
}

-- A POST request, at 2020-01-01T00:00:00Z.
abbrev pub request : List (Bytes × Bytes) × ℕ × Bytes
request = (
  (text ":method", text "POST") ∷ (text ":path", text "/f?Qualifier=1") ∷ [],
  1577836800000000000,
  text "{}",
)

abbrev pub names : HeaderList
names = text "host" ∷ date_header ∷ []
