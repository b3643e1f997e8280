-- ===== src/Base/Word.antt =====
-- `u64` and `u32` arithmetic over the native numbers.
use Prim.Native.Nat.{ℕ, ◌+◌, ◌-◌, ◌%◌, ◌^◌}
use balances_watcher.Base.Tests.{ltb, if◌then◌else◌}

abbrev pub u64_modulus : ℕ
u64_modulus = 2 ^ 64

abbrev pub u32_max : ℕ
u32_max = 2 ^ 32 - 1

-- `+` and `-` of a release build, which wrap.
abbrev pub add_u64 : ℕ → ℕ → ℕ
add_u64 a b = (a + b) % u64_modulus

abbrev pub sub_u64 : ℕ → ℕ → ℕ
sub_u64 a b = (a + u64_modulus - b) % u64_modulus

abbrev pub saturating_sub : ℕ → ℕ → ℕ
saturating_sub a b = a - b

abbrev pub saturating_add_u32 : ℕ → ℕ → ℕ
saturating_add_u32 a b = if ltb u32_max (a + b) then u32_max else a + b
