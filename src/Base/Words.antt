-- ===== src/Base/Words.antt =====
-- Unsigned machine words: the moduli, wrapping and saturating operations of the source's integers.
use Prim.Native.Nat.{ℕ, ◌+◌, ◌-◌, ◌%◌, min}

abbrev pub u16_mod : ℕ
u16_mod = 65536

abbrev pub u32_max : ℕ
u32_max = 4294967295

abbrev pub u64_max : ℕ
u64_max = 18446744073709551615

-- `a + b` and `a - b` on u16, which wrap in a build without overflow checks.
abbrev pub add16 : ℕ → ℕ → ℕ
add16 a b = (a + b) % 65536

abbrev pub sub16 : ℕ → ℕ → ℕ
sub16 a b = (a + 65536 - b) % 65536

-- `saturating_add` on u32 and u64; `saturating_sub` is `-` on the native numbers.
abbrev pub sat_add32 : ℕ → ℕ → ℕ
sat_add32 a b = min (a + b) 4294967295

abbrev pub sat_add64 : ℕ → ℕ → ℕ
sat_add64 a b = min (a + b) 18446744073709551615
