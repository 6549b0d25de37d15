-- ===== src/InputBuffer/Buttons/Loops.antt =====
-- What the three loops over the frame counters do to one button.
use native.Mathlib.Nat.{add-zero}
use xenomods.Base.{
  inr, inl, Bool-cases, ℕ, zero, suc, ◌+◌, ◌^◌, ◌≤◌, ◌<◌, bit_and, bit_or, Bool, true, false, not,
  ◌&&◌, ◌||◌, ◌==◌, ◌!=◌, List, [], ◌∷◌, ◌≡◌, refl, ◌∙◌, ap, arith, length, get_or, if◌then◌else◌,
}
use xenomods.Word.{test_bit, bit, bit_not}
use xenomods.Word.Bits.{pow-lt, test_bit-bit_or, test_bit-bit_and, test_bit-bit, test_bit-bit_not}
use xenomods.Word.Laws.{zero-bit_and, bit_and-bit}
use xenomods.InputBuffer.Buttons.{pending_from, consume_from, scan_from, scan_frame, scan_release}

-- Whether the counter of a button is set, the buttons counted from `index`.
abbrev pub frame_at : List ℕ → ℕ → ℕ
frame_at fs i = get_or fs i 0

test_bit-set :
    (i index result : ℕ) (on : Bool)
    → test_bit i (if on then bit_or result (bit index) else result)
      ≡ (test_bit i result || (on && (i == index)))
test_bit-set i index result true = rw (test_bit-bit_or i result (bit index), test_bit-bit i index)
test_bit-set i index result false = ground arith

above : (i index n : ℕ) → i < index → (i == index) ≡ false
above i index n h = ground arith

pub pending_from-below :
    (index i : ℕ) (fs : List ℕ) (result : ℕ)
    → i < index
    → test_bit i (pending_from index fs result) ≡ test_bit i result
unfolding pending_from
pending_from-below index i [] result h = refl
pending_from-below index i (f ∷ fs) result h =
    pending_from-below (suc index) i fs _ (omega arith)
    ∙ test_bit-set i index result (f != 0)
    ∙ ground (arith, above i index 0 h)

pub pending_from-test_bit :
    (index i : ℕ) (fs : List ℕ) (result : ℕ)
    → test_bit (index + i) (pending_from index fs result)
      ≡ (test_bit (index + i) result || frame_at fs i != 0)
unfolding pending_from
pending_from-test_bit index i [] result = ground arith
pending_from-test_bit index zero (f ∷ fs) result =
    pending_from-below (suc index) (index + 0) fs _ (omega arith)
    ∙ test_bit-set (index + 0) index result (f != 0)
    ∙ ground arith
pending_from-test_bit index (suc i) (f ∷ fs) result =
    let e : index + suc i ≡ suc index + i = omega arith in
    rw
      (
        e,
        pending_from-test_bit (suc index) i fs
            (if f != 0 then bit_or result (bit index) else result),
      )
      (rw (test_bit-set (suc index + i) index result (f != 0)) (ground arith))

bit_lt : (i : ℕ) → i < 32 → 2 ^ i < 2 ^ 32
bit_lt i h = pow-lt 32 i h

test_bit-mask : (m i : ℕ) → (bit_and m (bit i) == 0) ≡ not (test_bit i m)
test_bit-mask m i = rw (← bit_and-bit m i) (ground arith)

-- A button outside the mask keeps its counter, one inside loses it.
pub consume_from-frame :
    (mask index i : ℕ) (fs : List ℕ)
    → frame_at (consume_from mask index fs) i
      ≡ (if test_bit (index + i) mask then 0 else frame_at fs i)
unfolding consume_from
consume_from-frame mask index i [] = ground arith
consume_from-frame mask index zero (f ∷ fs) = rw (bit_and-bit mask index, add-zero) (ground arith)
consume_from-frame mask index (suc i) (f ∷ fs) =
    let e : index + suc i ≡ suc index + i = omega arith in
    rw e (consume_from-frame mask (suc index) i fs)

pub consume_from-length :
    (mask index : ℕ) (fs : List ℕ) → length (consume_from mask index fs) ≡ length fs
unfolding consume_from
consume_from-length mask index [] = refl
consume_from-length mask index (f ∷ fs) = ap suc (consume_from-length mask (suc index) fs)

pub scan_frame-bits :
    (o h n i f : ℕ)
    → scan_frame o h n i f
      ≡ (if test_bit i h then (if test_bit i o && not (test_bit i n) then 1 else f) else 0)
unfolding scan_frame
scan_frame-bits o h n i f =
    rw (test_bit-mask h i, bit_and-bit o i, test_bit-mask n i) (ground arith)

-- A round changes the release mask at its own button at most.
scan_release-bit :
    (h n k i : ℕ)
    → i < 32
    → k < 32
    → test_bit i (scan_release h n k) ≡ (test_bit i n && not (not (test_bit k h) && (i == k)))
unfolding scan_release
scan_release-bit h n k i p q = rw test_bit-mask (elim (Bool-cases (test_bit k h)) [
  | inl on ↦ rw on (ground arith)
  | inr off ↦
      rw
        (
          off,
          test_bit-bit_and i n (bit_not (bit k)),
          test_bit-bit_not i (bit k) p (bit_lt k q),
          test_bit-bit i k,
        )
        (ground arith)
])

pub scan_from-frame :
    (o h n index i : ℕ) (fs : List ℕ)
    → index + length fs ≤ 32
    → i < length fs
    → frame_at (scan_from o h n index fs).frames i ≡ scan_frame o h n (index + i) (frame_at fs i)
unfolding scan_from
scan_from-frame o h n index i [] p q = elim q [ ]
scan_from-frame o h n index zero (f ∷ fs) p q = rw add-zero
scan_from-frame o h n index (suc i) (f ∷ fs) p q =
    let e : index + suc i ≡ suc index + i = omega arith in
    rw
      (
        e,
        scan_from-frame o h (scan_release h n index) (suc index) i fs (omega arith) (omega arith),
        scan_frame-bits o h (scan_release h n index) (suc index + i) (frame_at fs i),
        scan_frame-bits o h n (suc index + i) (frame_at fs i),
        scan_release-bit h n index (suc index + i) (omega arith) (omega arith),
      )
      (ground arith)

pub scan_from-length :
    (o h n index : ℕ) (fs : List ℕ) → length (scan_from o h n index fs).frames ≡ length fs
unfolding scan_from
scan_from-length o h n index [] = refl
scan_from-length o h n index (f ∷ fs) =
    ap suc (scan_from-length o h (scan_release h n index) (suc index) fs)

-- No round adds to an empty release mask.
scan_release-zero : (h k : ℕ) → scan_release h 0 k ≡ 0
unfolding scan_release
scan_release-zero h k = ground (arith, zero-bit_and (bit_not (bit k)))

pub scan_from-release_zero :
    (o h index : ℕ) (fs : List ℕ) → (scan_from o h 0 index fs).needs_release ≡ 0
unfolding scan_from
scan_from-release_zero o h index [] = refl
scan_from-release_zero o h index (f ∷ fs) =
    rw (scan_release-zero h index) (scan_from-release_zero o h (suc index) fs)
