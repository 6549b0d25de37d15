-- ===== src/Word/Fields.antt =====
-- Fields of a mask: a number below 2 ^ k kept in the k lowest bits, another one above them.
use native.Mathlib.Nat.{pow-suc, one-le-pow, mod-lt, div-add-mod}
use xenomods.Base.{
  ℕ, zero, suc, ◌+◌, ◌-◌, ◌*◌, ◌/◌, ◌%◌, ◌^◌, ◌≤◌, ◌<◌, bit_and, bit_or, ◌≡◌, refl, arith, ap, ◌∙◌,
  true, false, ◌&&◌, ◌||◌, ◌⊎◌, inl, inr, Bool-cases, ltb, not,
}
use xenomods.Word.{test_bit}
use xenomods.Word.Bits.{
  test_bit-bit_or, test_bit-bit_and, test_bit-zero, test_bit-above, test_bit-complement, bits_ext,
}

-- Dropping the lowest bit narrows the lower field.
half-field : (k q r : ℕ) → (q * 2 ^ suc k + r) / 2 ≡ q * 2 ^ k + r / 2
half-field k q r = omega (arith, ap (λ p. q * p) (pow-suc 2 k))

-- Below the width a bit of the pair is a bit of the lower field.
field-low : (k i q r : ℕ) → i < k → test_bit i (q * 2 ^ k + r) ≡ test_bit i r
unfolding test_bit
field-low zero i q r h = elim h [ ]
field-low (suc k) zero q r h = ground (arith, ap (λ p. q * p) (pow-suc 2 k))
field-low (suc k) (suc i) q r h = rw (half-field k q r) (field-low k i q (r / 2) (omega arith))

-- From the width on it is a bit of the upper one.
field-high : (k i q r : ℕ) → r < 2 ^ k → k ≤ i → test_bit i (q * 2 ^ k + r) ≡ test_bit (i - k) q
unfolding test_bit
field-high zero i q r fits h =
    let e : q * 2 ^ 0 + r ≡ q = omega arith in let d : i - 0 ≡ i = omega arith in rw (e, d) refl
field-high (suc k) zero q r fits h = absurd (omega arith)
field-high (suc k) (suc i) q r fits h =
    let less : suc i - suc k ≡ i - k = omega arith in
    rw (half-field k q r, less)
      (field-high k i q (r / 2) (omega (arith, pow-suc 2 k)) (omega arith))

split_at : (i k : ℕ) → (i < k) ⊎ (k ≤ i)
split_at i k = elim (Bool-cases (ltb i k)) [
  | inl below ↦ inl (ground (arith, below))
  | inr above ↦ inr (ground (arith, above))
]

-- (q << k) | r is a sum when r fits k bits.
pub bit_or_fields : (k q r : ℕ) → r < 2 ^ k → bit_or (q * 2 ^ k) r ≡ q * 2 ^ k + r
bit_or_fields k q r fits = bits_ext _ _ (λ i. rw (test_bit-bit_or i (q * 2 ^ k) r) (at i))
  where
    alone : (i : ℕ) → test_bit i (q * 2 ^ k) ≡ test_bit i (q * 2 ^ k + 0)
    alone i = ap (test_bit i) (omega arith)

    at : (i : ℕ) → (test_bit i (q * 2 ^ k) || test_bit i r) ≡ test_bit i (q * 2 ^ k + r)
    at i = elim (split_at i k) [
      | inl low ↦
          let upper : test_bit i (q * 2 ^ k) ≡ false =
            alone i ∙ field-low k i q 0 low ∙ test_bit-zero i in
          rw (upper, field-low k i q r low) refl
      | inr high ↦
          let upper : test_bit i (q * 2 ^ k) ≡ test_bit (i - k) q =
            alone i ∙ field-high k i q 0 (omega (arith, one-le-pow k 2)) high in
          rw (upper, field-high k i q r fits high, test_bit-above k i r fits high) (ground arith)
    ]

-- A mask of k ones has its bits below k.
ones-low : (k i : ℕ) → i < k → test_bit i (2 ^ k - 1) ≡ true
ones-low k i low =
    ap (test_bit i) (omega arith)
    ∙ test_bit-complement k i 0 low (omega (arith, one-le-pow k 2))
    ∙ ap not (test_bit-zero i)

-- Masking with k ones is the remainder by 2 ^ k.
pub bit_and_ones : (k a : ℕ) → bit_and a (2 ^ k - 1) ≡ a % 2 ^ k
bit_and_ones k a = bits_ext _ _ (λ i. rw (test_bit-bit_and i a (2 ^ k - 1)) (at i))
  where
    small : a % 2 ^ k < 2 ^ k
    small = mod-lt a (one-le-pow k 2 (omega arith))

    parts : (i : ℕ) → test_bit i a ≡ test_bit i (a / 2 ^ k * 2 ^ k + a % 2 ^ k)
    parts i = ap (test_bit i) (omega (arith, div-add-mod a (2 ^ k)))

    at : (i : ℕ) → (test_bit i a && test_bit i (2 ^ k - 1)) ≡ test_bit i (a % 2 ^ k)
    at i = elim (split_at i k) [
      | inl low ↦
          let kept : test_bit i a ≡ test_bit i (a % 2 ^ k) =
            parts i ∙ field-low k i (a / 2 ^ k) (a % 2 ^ k) low in
          rw (kept, ones-low k i low) (ground arith)
      | inr high ↦
          rw
            (
              test_bit-above k i (a % 2 ^ k) small high,
              test_bit-above k i (2 ^ k - 1) (omega (arith, one-le-pow k 2)) high,
            )
            (ground arith)
    ]
