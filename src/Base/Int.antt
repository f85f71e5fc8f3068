-- ===== src/Base/Int.antt =====
-- Signed values: `negsuc n` is -(n + 1).
use Prim.Native.Nat.{ℕ, ◌-◌, ◌*◌, ◌%◌, ◌^◌}
use envoy_wasm_filters.Base.Tests.{ltb, if◌then◌else◌}

pub data ℤ : Type 0 where
  pos : ℕ → ℤ
  negsuc : ℕ → ℤ

-- The signed value of a bit pattern of w bits (two's complement).
unfoldable pub to_signed : ℕ → ℕ → ℤ
to_signed w n = let r = n % 2 ^ w in if ltb (2 * r) (2 ^ w) then pos r else negsuc (2 ^ w - 1 - r)
