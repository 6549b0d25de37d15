-- ===== src/Version.antt =====
-- Which game runs, and in which version: include/xenomods/Version.hpp and src/xenomods/Version.cpp. A
-- program's state is its function statics. The bits of a std::uint8_t are a number below 256.
pub mod Runtime
pub mod Order
mod Examples
use xenomods.Base.{
  ℕ, ◌*◌, ◌^◌, Bool, true, false, not, ◌&&◌, ◌||◌, ◌==◌, ◌!=◌, ltb, bit_or, if◌then◌else◌, Option,
  none, some,
}

-- enum class GameType
pub data GameType : Type 0 where
  invalid space_travel bf2 ira bfsw bf3 bf2_ira : GameType

-- The value of the enumerator.
abbrev pub game_value : GameType → ℕ
game_value invalid = 0
game_value space_travel = 2 ^ 0
game_value bf2 = 2 ^ 1
game_value ira = 2 ^ 2
game_value bfsw = 2 ^ 3
game_value bf3 = 2 ^ 4
game_value bf2_ira = bit_or (2 ^ 1) (2 ^ 2)

-- struct SemVer
pub record SemVer : Type 0 where
  pub major : ℕ
  pub minor : ℕ
  pub patch : ℕ

-- SemVer::IsValid
unfoldable pub is_valid : SemVer → Bool
is_valid v = v.major != 0 && v.minor != 0 && v.patch != 0

-- SemVer::AsInteger: the shifts are by sizes in bytes, 2 and 1.
unfoldable pub as_integer : SemVer → ℕ
as_integer v = bit_or (bit_or (v.major * 2 ^ 2) (v.minor * 2 ^ 1)) v.patch

-- The operators ==, !=, <, >, <= and >=.
unfoldable pub is_equal : SemVer → SemVer → Bool
is_equal v w = as_integer v == as_integer w

unfoldable pub is_different : SemVer → SemVer → Bool
is_different v w = not (is_equal v w)

unfoldable pub is_less : SemVer → SemVer → Bool
is_less v w = ltb (as_integer v) (as_integer w)

unfoldable pub is_greater : SemVer → SemVer → Bool
is_greater v w = is_less w v

unfoldable pub is_at_most : SemVer → SemVer → Bool
is_at_most v w = not (is_greater w v)

unfoldable pub is_at_least : SemVer → SemVer → Bool
is_at_least v w = not (is_less v w)
