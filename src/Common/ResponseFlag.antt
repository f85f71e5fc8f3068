-- ===== src/Common/ResponseFlag.antt =====
-- extensions/common/util.{h,cc}: `parseResponseFlag`. The flags are 64 bits wide, and the theorems
-- hold for every number.
pub mod Names
pub mod Decode
use envoy_wasm_filters.Base.{
  ℕ, ◌*◌, ◌≡◌, Bool, true, false, List, [], ◌∷◌, ◌++◌, ◌==◌, leb, if◌then◌else◌, is_empty, Bytes,
  text, bit_and, decimal,
}

abbrev pub no_flags : Bytes
no_flags = text "-"

-- `LastFlag << 1`.
abbrev pub flags_end : ℕ
flags_end = 0x40000 * 2

unfoldable pub append_string : Bytes → Bytes → Bytes
append_string result append = if is_empty result then append else result ++ text "," ++ append

-- `if (response_flag & flag) { appendString(result, name); }`
unfoldable pub append_if : ℕ → ℕ → Bytes → Bytes → Bytes
append_if response_flag flag name result =
    if bit_and response_flag flag == 0 then result else append_string result name

unfoldable pub parse_response_flag : ℕ → Bytes
parse_response_flag f =
    let result : Bytes = [] in
    let result = append_if f 0x1 (text "LH") result in
    let result = append_if f 0x2 (text "UH") result in
    let result = append_if f 0x4 (text "UT") result in
    let result = append_if f 0x8 (text "LR") result in
    let result = append_if f 0x10 (text "UR") result in
    let result = append_if f 0x20 (text "UF") result in
    let result = append_if f 0x40 (text "UC") result in
    let result = append_if f 0x80 (text "UO") result in
    let result = append_if f 0x100 (text "NR") result in
    let result = append_if f 0x200 (text "DI") result in
    let result = append_if f 0x400 (text "FI") result in
    let result = append_if f 0x800 (text "RL") result in
    let result = append_if f 0x1000 (text "UAEX") result in
    let result = append_if f 0x2000 (text "RLSE") result in
    let result = append_if f 0x4000 (text "DC") result in
    let result = append_if f 0x8000 (text "URX") result in
    let result = append_if f 0x10000 (text "SI") result in
    let result = append_if f 0x20000 (text "IH") result in
    let result = append_if f 0x40000 (text "DPE") result in
    let result = if leb flags_end f then append_string result (decimal f) else result in
    if is_empty result then no_flags else result
