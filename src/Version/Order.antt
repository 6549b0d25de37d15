-- ===== src/Version/Order.antt =====
-- What the comparisons of versions decide.
use xenomods.Base.{
  ℕ, ◌+◌, ◌*◌, ◌^◌, ◌<◌, Bool, true, false, not, ◌&&◌, ◌||◌, ◌==◌, ltb, bit_or, ◌≡◌, ap, ◌∙◌, arith,
}
use xenomods.Word.Fields.{bit_or_fields}
use xenomods.Word.Laws.{bit_or-zero}
use xenomods.Version.{SemVer, as_integer, is_equal, is_less, is_greater, is_at_most, is_at_least}

-- The order of versions: by major, then by minor, then by patch.
abbrev pub is_earlier : SemVer → SemVer → Bool
is_earlier v w =
    ltb v.major w.major
    || (v.major == w.major && (ltb v.minor w.minor || (v.minor == w.minor && ltb v.patch w.patch)))

-- A version whose minor and patch are 0 or 1.
pub record IsSmall (v : SemVer) : Type 0 where
  pub small_minor : v.minor < 2
  pub small_patch : v.patch < 2

as_integer-sum : (v : SemVer) → IsSmall v → as_integer v ≡ v.major * 4 + v.minor * 2 + v.patch
unfolding as_integer
as_integer-sum v s =
    let m = s.small_minor in
    let high : bit_or (v.major * 2 ^ 2) (v.minor * 2 ^ 1) ≡ (v.major * 2 + v.minor) * 2 ^ 1 =
      bit_or_fields 2 v.major (v.minor * 2 ^ 1) (omega (arith, m)) ∙ omega arith in
    ap (λ n. bit_or n v.patch) high
    ∙ bit_or_fields 1 (v.major * 2 + v.minor) v.patch s.small_patch
    ∙ omega arith

is_less-is_earlier : (v w : SemVer) → IsSmall v → IsSmall w → is_less v w ≡ is_earlier v w
unfolding is_less
is_less-is_earlier v w s t =
    let e = as_integer-sum v s in
    let f = as_integer-sum w t in
    let m = s.small_minor in
    let p = s.small_patch in
    let n = t.small_minor in let q = t.small_patch in ground (arith, e, f, m, p, n, q)

-- Between versions whose minor and patch are 0 or 1, < says that the first is earlier, > that it is
-- later, and >= that it is not earlier; <= says that it is not earlier too, instead of not later.
pub comparisons-is_earlier :
    (v w : SemVer)
    → IsSmall v
    → IsSmall w
    → (is_less v w ≡ is_earlier v w)
      × (is_greater v w ≡ is_earlier w v)
      × (is_at_least v w ≡ not (is_earlier v w))
      × (is_at_most v w ≡ not (is_earlier v w))
unfolding is_greater is_at_least is_at_most
comparisons-is_earlier v w s t = (
  is_less-is_earlier v w s t,
  is_less-is_earlier w v t s,
  ap not (is_less-is_earlier v w s t),
  ap not (is_less-is_earlier v w s t),
)

-- Every version M.0.2 compares as equal to M.1.0, and as not less, though it is earlier.
pub second_patch-first_minor :
    (m : ℕ)
    → let v : SemVer = record { major = m; minor = 0; patch = 2 } in
      let w : SemVer = record { major = m; minor = 1; patch = 0 } in
      (is_equal v w ≡ true) × (is_less v w ≡ false) × (is_earlier v w ≡ true)
unfolding is_equal is_less as_integer
second_patch-first_minor m =
    let e : bit_or (bit_or (m * 2 ^ 2) (0 * 2 ^ 1)) 2 ≡ m * 2 ^ 2 + 2 =
      ap (λ n. bit_or n 2) (bit_or-zero (m * 2 ^ 2)) ∙ bit_or_fields 2 m 2 (omega arith) in
    let f : bit_or (bit_or (m * 2 ^ 2) (1 * 2 ^ 1)) 0 ≡ m * 2 ^ 2 + 2 =
      bit_or-zero (bit_or (m * 2 ^ 2) (1 * 2 ^ 1)) ∙ bit_or_fields 2 m 2 (omega arith) in
    (ground (arith, e, f), ground (arith, e, f), ground arith)
