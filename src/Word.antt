-- ===== src/Word.antt =====
-- The std::uint32_t masks of the C++ sources as native numbers: single bits, complement and the
-- reading of one bit. The bit operations | and & are the native `bit_or` and `bit_and`.
pub mod Bits
pub mod Fields
pub mod Laws
use xenomods.Base.{ℕ, zero, suc, ◌-◌, ◌/◌, ◌%◌, ◌^◌, Bool, ◌==◌}

-- The number of values of a std::uint32_t.
abbrev pub u32_size : ℕ
u32_size = 2 ^ 32

-- std::uint32_t {1} << index, for an index below 32.
abbrev pub bit : ℕ → ℕ
bit i = 2 ^ i

-- ~m of a std::uint32_t.
abbrev pub bit_not : ℕ → ℕ
bit_not m = 2 ^ 32 - 1 - m

-- The bit of weight 2 ^ i.
pub test_bit : ℕ → ℕ → Bool
test_bit zero m = m % 2 == 1
test_bit (suc i) m = test_bit i (m / 2)
