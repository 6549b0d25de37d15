-- ===== src/Float32.antt =====
-- The float values that the stick code compares: IEEE single precision bit patterns below 2 ^ 32,
-- with the comparisons, std::abs and std::clamp of the C++ standard library. No arithmetic is
-- done on them in the modelled code.
use xenomods.Base.{ℕ, ◌%◌, ◌^◌, Bool, false, not, ◌&&◌, ◌||◌, ltb, leb, ◌!=◌, if◌then◌else◌}

-- The sign bit.
abbrev pub is_negative : ℕ → Bool
is_negative x = leb (2 ^ 31) x

-- std::abs
abbrev pub abs : ℕ → ℕ
abs x = x % 2 ^ 31

abbrev pub is_nan : ℕ → Bool
is_nan x = ltb 0x7f800000 (abs x)

-- a < b of two ordered values: the patterns order the magnitudes, and both zeros are equal.
abbrev pub ordered_lt : ℕ → ℕ → Bool
ordered_lt a b =
    if is_negative a
    then (if is_negative b then ltb (abs b) (abs a) else abs a != 0 || abs b != 0)
    else (if is_negative b then false else ltb (abs a) (abs b))

-- a < b
abbrev pub lt : ℕ → ℕ → Bool
lt a b = not (is_nan a || is_nan b) && ordered_lt a b

-- a <= b
abbrev pub le : ℕ → ℕ → Bool
le a b = not (is_nan a || is_nan b) && not (ordered_lt b a)

-- 0.f, 1.f and -1.f
abbrev pub zero_f : ℕ
zero_f = 0

abbrev pub one_f : ℕ
one_f = 0x3f800000

abbrev pub minus_one_f : ℕ
minus_one_f = 0xbf800000

-- std::clamp(x, -1.f, 1.f)
abbrev pub clamp_unit : ℕ → ℕ
clamp_unit x = if lt x minus_one_f then minus_one_f else if lt one_f x then one_f else x
