-- ===== src/Word/Bits.antt =====
-- How each mask operation acts on one bit.
use Prim.Native.Nat.{digits, bit_and-bitwise, bit_or-bitwise}
use native.Mathlib.Nat.{pow-suc, add-zero, add-suc, add_comm}
use xenomods.Base.{
  ℕ, zero, suc, ◌+◌, ◌-◌, ◌*◌, ◌/◌, ◌%◌, ◌^◌, ◌≤◌, ◌<◌, min, max, bit_and, bit_or, ◌≡◌, refl, Bool,
  true, false, not, ◌&&◌, ◌||◌, arith, ◌==◌, ◌∙◌,
}
use xenomods.Word.{test_bit}

pub test_bit-zero : (i : ℕ) → test_bit i 0 ≡ false
unfolding test_bit
test_bit-zero zero = refl
test_bit-zero (suc i) = test_bit-zero i

-- The value of a digit that a test stands for.
abbrev digit : Bool → ℕ
digit true = 1
digit false = 0

digit_read : (c : Bool) (x : ℕ) → ((x * 2 + digit c) % 2 == 1) ≡ c
digit_read true x = ground arith
digit_read false x = ground arith

digit_dropped : (c : Bool) (x : ℕ) → (x * 2 + digit c) / 2 ≡ x
digit_dropped true x = omega arith
digit_dropped false x = omega arith

max-digit : (x y : ℕ) → x < 2 → y < 2 → max x y ≡ digit (x == 1 || y == 1)
max-digit zero zero p q = refl
max-digit zero (suc zero) p q = refl
max-digit (suc zero) zero p q = refl
max-digit (suc zero) (suc zero) p q = refl
max-digit (suc (suc x)) y p q = absurd (omega arith)
max-digit x (suc (suc y)) p q = absurd (omega arith)

min-digit : (x y : ℕ) → x < 2 → y < 2 → min x y ≡ digit (x == 1 && y == 1)
min-digit zero zero p q = refl
min-digit zero (suc zero) p q = refl
min-digit (suc zero) zero p q = refl
min-digit (suc zero) (suc zero) p q = refl
min-digit (suc (suc x)) y p q = absurd (omega arith)
min-digit x (suc (suc y)) p q = absurd (omega arith)

-- A native operation on binary digits, read at one bit: `f` combines two digits as `op` combines
-- their tests, and `z` says what is left once the first number has run out of digits.
module _ (op : Bool → Bool → Bool) (z : ℕ → ℕ) (f : ℕ → ℕ → ℕ)
    (on_digits : (x y : ℕ) → x < 2 → y < 2 → f x y ≡ digit (op (x == 1) (y == 1)))
    (on_rest : (i b : ℕ) → test_bit i (z b) ≡ op false (test_bit i b)) where
  digits-test_bit :
      (fuel i a b : ℕ)
      → a ≤ fuel
      → test_bit i (digits z f fuel a b) ≡ op (test_bit i a) (test_bit i b)
  unfolding test_bit
  digits-test_bit zero i zero b h = rw test_bit-zero (on_rest i b)
  digits-test_bit zero i (suc a) b h = absurd (omega arith)
  digits-test_bit (suc fuel) i zero b h = rw test_bit-zero (on_rest i b)
  digits-test_bit (suc fuel) zero (suc a) b h =
      rw (on_digits (suc a % 2) (b % 2) (omega arith) (omega arith)) (digit_read _ _)
  digits-test_bit (suc fuel) (suc i) (suc a) b h =
      rw
        (
          on_digits (suc a % 2) (b % 2) (omega arith) (omega arith),
          digit_dropped (op (suc a % 2 == 1) (b % 2 == 1)) (digits z f fuel (suc a / 2) (b / 2)),
        )
        (digits-test_bit fuel i (suc a / 2) (b / 2) (omega arith))

pub test_bit-bit_or : (i a b : ℕ) → test_bit i (bit_or a b) ≡ (test_bit i a || test_bit i b)
test_bit-bit_or i a b =
    rw (bit_or-bitwise a b)
      (digits-test_bit ◌||◌ (λ y. y) max max-digit (λ i b. refl) a i a b (omega arith))

pub test_bit-bit_and : (i a b : ℕ) → test_bit i (bit_and a b) ≡ (test_bit i a && test_bit i b)
test_bit-bit_and i a b =
    rw (bit_and-bitwise a b)
      (digits-test_bit ◌&&◌ (λ _. 0) min min-digit (λ i b. test_bit-zero i) a i a b (omega arith))

half-complement : (w a : ℕ) → (2 ^ suc w - 1 - a) / 2 ≡ 2 ^ w - 1 - a / 2
half-complement w a = omega (arith, pow-suc 2 w)

pub test_bit-complement :
    (w i a : ℕ) → i < w → a < 2 ^ w → test_bit i (2 ^ w - 1 - a) ≡ not (test_bit i a)
unfolding test_bit
test_bit-complement zero i a h k = elim h [ ]
test_bit-complement (suc w) zero a h k = ground (arith, pow-suc 2 w)
test_bit-complement (suc w) (suc i) a h k =
    rw (half-complement w a)
      (test_bit-complement w i (a / 2) (omega arith) (omega (arith, pow-suc 2 w)))

-- A bit of ~m.
pub test_bit-bit_not :
    (i m : ℕ) → i < 32 → m < 2 ^ 32 → test_bit i (2 ^ 32 - 1 - m) ≡ not (test_bit i m)
test_bit-bit_not i m h k = test_bit-complement 32 i m h k

half-pow : (k : ℕ) → 2 ^ suc k / 2 ≡ 2 ^ k
half-pow k = omega (arith, pow-suc 2 k)

-- A power of two has one bit.
pub test_bit-bit : (i k : ℕ) → test_bit i (2 ^ k) ≡ (i == k)
unfolding test_bit
test_bit-bit zero zero = refl
test_bit-bit zero (suc k) = ground (arith, pow-suc 2 k)
test_bit-bit (suc i) zero = test_bit-zero i ∙ (ground arith)
test_bit-bit (suc i) (suc k) = rw (half-pow k) (test_bit-bit i k ∙ (ground arith))

-- Above its width a mask has no bit.
pub test_bit-above : (w i m : ℕ) → m < 2 ^ w → w ≤ i → test_bit i m ≡ false
unfolding test_bit
test_bit-above zero i m h k = let e : m ≡ 0 = omega arith in rw e (test_bit-zero i)
test_bit-above (suc w) zero m h k = absurd (omega arith)
test_bit-above (suc w) (suc i) m h k =
    test_bit-above w i (m / 2) (omega (arith, pow-suc 2 w)) (omega arith)

-- A mask is known by its bits.
pub mask_ext :
    (w a b : ℕ) → a < 2 ^ w → b < 2 ^ w → ((i : ℕ) → i < w → test_bit i a ≡ test_bit i b) → a ≡ b
unfolding test_bit
mask_ext zero a b p q h = omega arith
mask_ext (suc w) a b p q h = ground (
  arith,
  h 0 (omega arith),
  mask_ext w (a / 2) (b / 2) (omega (arith, pow-suc 2 w)) (omega (arith, pow-suc 2 w))
      (λ i k. h (suc i) (omega arith)),
)

lt-two_pow : (n : ℕ) → n < 2 ^ n
lt-two_pow zero = omega arith
lt-two_pow (suc n) = omega (arith, lt-two_pow n, pow-suc 2 n)

lt-two_pow-add : (w n : ℕ) → n < 2 ^ (n + w)
lt-two_pow-add zero n = rw add-zero (lt-two_pow n)
lt-two_pow-add (suc w) n = rw add-suc (omega (arith, lt-two_pow-add w n, pow-suc 2 (n + w)))

-- Two numbers with the same bits are equal.
pub bits_ext : (a b : ℕ) → ((i : ℕ) → test_bit i a ≡ test_bit i b) → a ≡ b
bits_ext a b h =
    mask_ext (a + b) a b (lt-two_pow-add b a) (rw (add_comm a b) (lt-two_pow-add a b)) (λ i _. h i)

-- A smaller exponent gives a smaller power.
pub pow-lt : (w i : ℕ) → i < w → 2 ^ i < 2 ^ w
pow-lt zero i h = elim h [ ]
pow-lt (suc w) zero h = omega (arith, lt-two_pow w, pow-suc 2 w)
pow-lt (suc w) (suc i) h = omega (arith, pow-lt w i (omega arith), pow-suc 2 w, pow-suc 2 i)
