-- ===== src/Prelude/Words.antt =====
-- Machine words as native numbers, with the wrap of C's unsigned types written out.
use Prim.Native.Nat.{ℕ, ◌+◌, ◌-◌, ◌%◌, ◌<◌}

abbrev pub u8_max : ℕ
u8_max = 0xff

abbrev pub u16_max : ℕ
u16_max = 0xffff

abbrev pub u32_max : ℕ
u32_max = 0xffff_ffff

abbrev pub u64_max : ℕ
u64_max = 0xffff_ffff_ffff_ffff

-- `size_t` has 64 bits on the supported hosts.
abbrev pub size_max : ℕ
size_max = 0xffff_ffff_ffff_ffff

abbrev pub u8 : ℕ → ℕ
u8 n = n % 0x100

abbrev pub u16 : ℕ → ℕ
u16 n = n % 0x1_0000

abbrev pub u32 : ℕ → ℕ
u32 n = n % 0x1_0000_0000

abbrev pub u64 : ℕ → ℕ
u64 n = n % 0x1_0000_0000_0000_0000

-- `a - b` on unsigned words, for words within the width.
abbrev pub sub16 : ℕ → ℕ → ℕ
sub16 a b = u16 (a + 0x1_0000 - b)

abbrev pub sub32 : ℕ → ℕ → ℕ
sub32 a b = u32 (a + 0x1_0000_0000 - b)

abbrev pub sub64 : ℕ → ℕ → ℕ
sub64 a b = u64 (a + 0x1_0000_0000_0000_0000 - b)

abbrev pub IsU8 : ℕ → Type 0
IsU8 n = n < 0x100

abbrev pub IsU16 : ℕ → Type 0
IsU16 n = n < 0x1_0000

abbrev pub IsU32 : ℕ → Type 0
IsU32 n = n < 0x1_0000_0000

abbrev pub IsU64 : ℕ → Type 0
IsU64 n = n < 0x1_0000_0000_0000_0000
