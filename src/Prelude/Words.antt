-- ===== src/Prelude/Words.antt =====
-- Machine integers as native numbers: `u32` and `u128` with the operations that the pallets use.
-- A plain `+` wraps around, as the release build of the runtime does.
use Prim.Native.Nat.{ℕ, ◌+◌, ◌-◌, ◌%◌, min}
use mathlib.Core.Option.{Option, none, some}
use massbit_verification.Prelude.Tests.{leb, if◌then◌else◌}

abbrev pub u32_size : ℕ
u32_size = 0x1_0000_0000

abbrev pub u128_size : ℕ
u128_size = 0x1_0000_0000_0000_0000_0000_0000_0000_0000

-- `a + b` on `u32`
abbrev pub add_u32 : ℕ → ℕ → ℕ
add_u32 a b = (a + b) % u32_size

-- `a + b` on `u128`
abbrev pub add_u128 : ℕ → ℕ → ℕ
add_u128 a b = (a + b) % u128_size

-- `a.saturating_add(b)` on `u32`
abbrev pub saturating_add_u32 : ℕ → ℕ → ℕ
saturating_add_u32 a b = min (a + b) (u32_size - 1)

-- `a.saturating_add(b)` on `u128`
abbrev pub saturating_add_u128 : ℕ → ℕ → ℕ
saturating_add_u128 a b = min (a + b) (u128_size - 1)

-- `a.checked_add(b)` on `u128`
abbrev pub checked_add_u128 : ℕ → ℕ → Option ℕ
checked_add_u128 a b = if leb (a + b) (u128_size - 1) then some (a + b) else none

-- `a.checked_sub(b)`
abbrev pub checked_sub : ℕ → ℕ → Option ℕ
checked_sub a b = if leb b a then some (a - b) else none

abbrev pub u64_size : ℕ
u64_size = 0x1_0000_0000_0000_0000

-- `a + b` on `u64`
abbrev pub add_u64 : ℕ → ℕ → ℕ
add_u64 a b = (a + b) % u64_size

-- `a.saturating_add(b)` on `u64`
abbrev pub saturating_add_u64 : ℕ → ℕ → ℕ
saturating_add_u64 a b = min (a + b) (u64_size - 1)
