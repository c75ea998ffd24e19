-- ===== src/Base/Words.antt =====
-- Machine integers. A 32-bit `int` or `unsigned int` and a 64-bit `long long` are kept as their bit
-- patterns, so a conversion between the signed and the unsigned type is no operation.
use simple_cgate.Base.{ℕ, ◌+◌, ◌-◌, ◌%◌, Bool, ltb, leb}

abbrev pub u32 : ℕ → ℕ
u32 n = n % 4294967296

-- `a + b`, `a - b` and `-a` on 32 bits.
abbrev pub add_32 : ℕ → ℕ → ℕ
add_32 a b = u32 (a + b)

abbrev pub sub_32 : ℕ → ℕ → ℕ
sub_32 a b = u32 (a + 4294967296 - b)

abbrev pub neg_32 : ℕ → ℕ
neg_32 a = u32 (4294967296 - a)

-- `a < 0` on a signed 32-bit word.
abbrev pub is_negative : ℕ → Bool
is_negative a = leb 2147483648 a

-- `a < b` on signed 32-bit words: the order of the patterns with the sign bit turned over.
abbrev pub lt_i32 : ℕ → ℕ → Bool
lt_i32 a b = ltb (u32 (a + 2147483648)) (u32 (b + 2147483648))

-- `a < 0` on a signed 64-bit word.
abbrev pub is_negative64 : ℕ → Bool
is_negative64 a = leb 9223372036854775808 a
