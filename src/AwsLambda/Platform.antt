-- ===== src/AwsLambda/Platform.antt =====
-- What the AWS Lambda filter calls and this repository does not implement: the SHA-256 library,
-- the proxy host, and the arithmetic and memory of the target. Each is a record of operations,
-- with the documented laws that the theorems use.
use envoy_wasm_filters.Base.{ℕ, ◌*◌, ◌^◌, ◌<◌, ◌≡◌, ◌≢◌, Bool, false, Option, [], ◌++◌, Bytes}

-- sha2.h and hmac_sha2.h. `sha256_final` and `hmac_sha256_final` also leave a context behind; the
-- second writes a code of the length that it is asked for.
pub record Hashing : Type 1 where
  pub Sha : Type 0
  pub sha256_init : Sha
  pub sha256_update : Sha → Bytes → Sha
  pub sha256_final : Sha → Sha × Bytes
  pub Hmac : Type 0
  pub hmac_uninitialised : Hmac
  pub hmac_sha256_init : Hmac → Bytes → Hmac
  pub hmac_sha256_update : Hmac → Bytes → Hmac
  pub hmac_sha256_final : Hmac → ℕ → Hmac × Bytes

-- Input may be fed in pieces, no input changes nothing, and a new key starts a new computation.
pub record IsStreaming (H : Hashing) : Type 0 where
  pub sha256_update-append :
      (c : H.Sha) (a b : Bytes)
      → H.sha256_update (H.sha256_update c a) b ≡ H.sha256_update c (a ++ b)
  pub sha256_update-nil : (c : H.Sha) → H.sha256_update c [] ≡ c
  pub hmac_sha256_update-append :
      (c : H.Hmac) (a b : Bytes)
      → H.hmac_sha256_update (H.hmac_sha256_update c a) b ≡ H.hmac_sha256_update c (a ++ b)
  pub hmac_sha256_init_again :
      (c d : H.Hmac) (key : Bytes) → H.hmac_sha256_init c key ≡ H.hmac_sha256_init d key

-- The request as the proxy holds it. `get_request_header` gives the bytes of the header, and no
-- bytes where it is missing; `is_present`, by which the laws are stated, tells these apart.
pub record Host : Type 1 where
  pub World : Type 0
  pub get_request_header : Bytes → World → Bytes
  pub add_request_header : Bytes → Bytes → World → World
  pub is_present : Bytes → World → Bool
  pub get_request_body : ℕ → ℕ → World → Bytes
  pub current_time_nanoseconds : World → ℕ

-- A header that is added where it was missing is found; other headers stay.
pub record IsHeaderMap (W : Host) : Type 0 where
  pub get-add_missing :
      (k v : Bytes) (w : W.World)
      → W.is_present k w ≡ false
      → W.get_request_header k (W.add_request_header k v w) ≡ v
  pub get-add_other :
      (k j v : Bytes) (w : W.World)
      → k ≢ j
      → W.get_request_header j (W.add_request_header k v w) ≡ W.get_request_header j w
  pub is_present-add_other :
      (k j v : Bytes) (w : W.World)
      → k ≢ j
      → W.is_present j (W.add_request_header k v w) ≡ W.is_present j w

-- Doubles, where `literal m k` is what `mek` is compiled to, and the width of `time_t`. Reading
-- through a `string_view` whose buffer, which held the given bytes, has been freed is undefined:
-- `read_freed` gives nothing where the program cannot go on, or the bytes that it goes on with.
pub record Target : Type 1 where
  pub Double : Type 0
  pub of_u64 : ℕ → Double
  pub to_u64 : Double → ℕ
  pub div : Double → Double → Double
  pub literal : ℕ → ℕ → Double
  pub time_bits : ℕ
  pub read_freed : Bytes → Option Bytes

-- Doubles have 53 significant bits. A literal m e k, which is m times ten to the k, is that number
-- if it has at most 53 bits, and a quotient is exact where both numbers, and it, are a number of at
-- most 53 bits times a power of two.
pub record IsIeee (P : Target) : Type 0 where
  pub literal_exact : (m k : ℕ) → m * 10 ^ k < 2 ^ 53 → P.literal m k ≡ P.of_u64 (m * 10 ^ k)
  pub div_exact :
      (q d k : ℕ)
      → 0 < d
      → q * d < 2 ^ 53
      → q * (d * 2 ^ k) < 2 ^ 64
      → P.to_u64 (P.div (P.of_u64 (q * (d * 2 ^ k))) (P.of_u64 (d * 2 ^ k))) ≡ q
