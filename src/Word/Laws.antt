-- ===== src/Word/Laws.antt =====
-- Laws of | and & on masks, read off bit by bit.
use xenomods.Base.{
  ℕ, ◌^◌, bit_and, bit_or, ◌≡◌, refl, Bool, true, false, ◌&&◌, ◌||◌, arith, ◌==◌, ◌!=◌,
  if◌then◌else◌, sym, ap, ◌∙◌, ==_iff, Bool-cases, inl, inr,
}
use mathlib.Core.Bool.{false≢true}
use xenomods.Word.{test_bit}
use xenomods.Word.Bits.{test_bit-bit_or, test_bit-bit_and, test_bit-zero, test_bit-bit, bits_ext}

pub ruleset bits = (test_bit-bit_or, test_bit-bit_and, test_bit-zero, test_bit-bit)

and_or : (a b c : Bool) → (a && (b || c)) ≡ ((a && b) || (a && c))
and_or true b c = refl
and_or false b c = refl

and_comm_Bool : (a b : Bool) → (a && b) ≡ (b && a)
and_comm_Bool a b = ground arith

and_same : (a : Bool) → (a && a) ≡ a
and_same a = ground arith

and_assoc_Bool : (a b c : Bool) → ((a && b) && c) ≡ (a && (b && c))
and_assoc_Bool a b c = ground arith

or_false : (a : Bool) → (a || false) ≡ a
or_false a = ground arith

and_false : (a : Bool) → (a && false) ≡ false
and_false a = ground arith

pub bit_and-bit_or : (a b c : ℕ) → bit_and a (bit_or b c) ≡ bit_or (bit_and a b) (bit_and a c)
bit_and-bit_or a b c =
    bits_ext _ _ (λ i. simp bits (and_or (test_bit i a) (test_bit i b) (test_bit i c)))

pub bit_and_comm : (a b : ℕ) → bit_and a b ≡ bit_and b a
bit_and_comm a b = bits_ext _ _ (λ i. simp bits (and_comm_Bool (test_bit i a) (test_bit i b)))

pub bit_and_assoc : (a b c : ℕ) → bit_and (bit_and a b) c ≡ bit_and a (bit_and b c)
bit_and_assoc a b c =
    bits_ext _ _ (λ i. simp bits (and_assoc_Bool (test_bit i a) (test_bit i b) (test_bit i c)))

pub bit_and_same : (a : ℕ) → bit_and a a ≡ a
bit_and_same a = bits_ext _ _ (λ i. simp bits (and_same _))

pub bit_or-zero : (a : ℕ) → bit_or a 0 ≡ a
bit_or-zero a = bits_ext _ _ (λ i. simp bits (or_false _))

pub bit_and-zero : (a : ℕ) → bit_and a 0 ≡ 0
bit_and-zero a = bits_ext _ _ (λ i. simp bits (and_false _))

pub zero-bit_and : (a : ℕ) → bit_and 0 a ≡ 0
zero-bit_and a = bits_ext _ _ (λ i. simp bits refl)

pub zero-bit_or : (a : ℕ) → bit_or 0 a ≡ a
zero-bit_or a = bits_ext _ _ (λ i. simp bits refl)

-- A union of masks is empty exactly when both are.
pub bit_or-eq_zero : (a b : ℕ) → bit_or a b ≡ 0 → (a ≡ 0) × (b ≡ 0)
bit_or-eq_zero a b e = (
  bits_ext _ _ (λ i. rw test_bit-zero (left _ _ (at i))),
  bits_ext _ _ (λ i. rw test_bit-zero (right _ _ (at i))),
)
  where
    at : (i : ℕ) → (test_bit i a || test_bit i b) ≡ false
    at i = sym (test_bit-bit_or i a b) ∙ ap (test_bit i) e ∙ test_bit-zero i

    left : (x y : Bool) → (x || y) ≡ false → x ≡ false
    left x y h = ground arith

    right : (x y : Bool) → (x || y) ≡ false → y ≡ false
    right x y h = ground arith

-- Testing `mask & (1 << i)` reads one bit.
pub bit_and-bit : (m i : ℕ) → (bit_and m (2 ^ i) != 0) ≡ test_bit i m
bit_and-bit m i = elim (Bool-cases (test_bit i m)) [
  | inl on ↦ rw on (nonzero (λ e. false≢true (sym (at e) ∙ (simp bits (rw (on, ==_self i))))))
  | inr off ↦ rw (off, empty off)
]
  where
    nonzero : {k : ℕ} → (k ≡ 0 → ⊥) → (k != 0) ≡ true
    nonzero h = ground arith

    ==_self : (k : ℕ) → (k == k) ≡ true
    ==_self k = ground arith

    at : bit_and m (2 ^ i) ≡ 0 → test_bit i (bit_and m (2 ^ i)) ≡ false
    at e = ap (test_bit i) e ∙ test_bit-zero i

    empty : test_bit i m ≡ false → bit_and m (2 ^ i) ≡ 0
    empty off = bits_ext _ _ (λ j. simp bits (other j))
      where
        other : (j : ℕ) → (test_bit j m && (j == i)) ≡ false
        other j = elim (Bool-cases (j == i)) [
          | inl e ↦ rw ((==_iff j i).0 e, off)
          | inr e ↦ rw (e, and_false)
        ]

-- m & (1 << i) is that bit alone, or nothing.
pub bit_and-bit_value : (m i : ℕ) → bit_and m (2 ^ i) ≡ (if test_bit i m then 2 ^ i else 0)
bit_and-bit_value m i = bits_ext _ _ (λ j. simp bits (at j))
  where
    value : (j : ℕ) (on : Bool) → test_bit j (if on then 2 ^ i else 0) ≡ (on && (j == i))
    value j true = test_bit-bit j i
    value j false = test_bit-zero j

    at : (j : ℕ) → (test_bit j m && (j == i)) ≡ test_bit j (if test_bit i m then 2 ^ i else 0)
    at j = elim (Bool-cases (j == i)) [
      | inl e ↦ rw (value j (test_bit i m), (==_iff j i).0 e)
      | inr e ↦ rw (value j (test_bit i m), e) (ground arith)
    ]
