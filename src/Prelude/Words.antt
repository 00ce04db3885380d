-- ===== src/Prelude/Words.antt =====
-- Fixed-width arithmetic of C, written out over the native numbers.
use Prim.Native.Nat.{ℕ, ◌+◌, ◌-◌, ◌*◌, ◌/◌, ◌%◌}

abbrev pub u8 : ℕ → ℕ
u8 n = n % 256

abbrev pub u16 : ℕ → ℕ
u16 n = n % 65536

abbrev pub u32 : ℕ → ℕ
u32 n = n % 4294967296

-- `a - b` on uint32_t.
abbrev pub sub32 : ℕ → ℕ → ℕ
sub32 a b = u32 (u32 a + 4294967296 - u32 b)

-- `x & 0x0F`
abbrev pub low_nibble : ℕ → ℕ
low_nibble x = x % 16

-- `x & 0xF0` on a byte
abbrev pub high_nibble : ℕ → ℕ
high_nibble x = x / 16 % 16 * 16

-- the bytes of a word, most significant first
abbrev pub byte1 : ℕ → ℕ
byte1 x = x / 256 % 256

abbrev pub byte2 : ℕ → ℕ
byte2 x = x / 65536 % 256

abbrev pub byte3 : ℕ → ℕ
byte3 x = x / 16777216 % 256

-- `a << 8 | b` and `a << 24 | b << 16 | c << 8 | d` of bytes
abbrev pub be16 : ℕ → ℕ → ℕ
be16 a b = a * 256 + b

abbrev pub be32 : ℕ → ℕ → ℕ → ℕ → ℕ
be32 a b c d = a * 16777216 + b * 65536 + c * 256 + d
