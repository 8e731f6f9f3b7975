-- ===== src/Base/Words.antt =====
-- Rust's unsigned integers as numbers with their bounds, and the saturating operations.
use Prim.Native.Nat.{ℕ, ◌+◌, ◌-◌, ◌*◌, ◌^◌, ◌%◌, min}

abbrev pub u8_mod : ℕ
u8_mod = 2 ^ 8

abbrev pub u32_max : ℕ
u32_max = 2 ^ 32 - 1

abbrev pub u64_max : ℕ
u64_max = 2 ^ 64 - 1

abbrev pub u128_max : ℕ
u128_max = 2 ^ 128 - 1

-- `n as u8`
abbrev pub as_u8 : ℕ → ℕ
as_u8 n = n % u8_mod

-- `n as usize`: the contracts run on wasm32, where it has 32 bits.
abbrev pub as_usize : ℕ → ℕ
as_usize n = n % 2 ^ 32

-- `a.saturating_add(b)` at each width. `a.saturating_sub(b)` is `a - b`, which stops at 0.
abbrev pub add_u32 : ℕ → ℕ → ℕ
add_u32 a b = min (a + b) u32_max

abbrev pub add_u64 : ℕ → ℕ → ℕ
add_u64 a b = min (a + b) u64_max

abbrev pub add_u128 : ℕ → ℕ → ℕ
add_u128 a b = min (a + b) u128_max

abbrev pub mul_u128 : ℕ → ℕ → ℕ
mul_u128 a b = min (a * b) u128_max
