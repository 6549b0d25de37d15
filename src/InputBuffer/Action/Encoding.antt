-- ===== src/InputBuffer/Action/Encoding.antt =====
-- The encodings of an action word are told apart, and what is packed comes back.
use xenomods.Base.{
  ℕ, ◌+◌, ◌*◌, ◌/◌, ◌%◌, ◌^◌, ◌<◌, bit_and, bit_or, Bool, true, false, ◌&&◌, ◌||◌, ◌==◌, ◌!=◌, ◌≡◌,
  ◌∙◌, refl, ap, arith, if◌then◌else◌,
}
use xenomods.Word.{test_bit}
use xenomods.Word.Bits.{test_bit-bit, test_bit-bit_or, test_bit-above}
use xenomods.Word.Fields.{bit_or_fields, bit_and_ones}
use xenomods.Word.Laws.{bit_and-bit_or, bit_and-bit_value}
use xenomods.InputBuffer.Action.{
  encode_action, action_matches, is_encoded_action, is_ui_pad_action, ui_pad_action_flag,
  ui_pad_mask,
}

encode_action_sum : (t i : ℕ) → encode_action t i ≡ (8 + t % 8) * 2 ^ 28 + i % 2 ^ 28
unfolding encode_action
encode_action_sum t i = rw (
  bit_and_ones 3 t,
  bit_and_ones 28 i,
  flagged,
  bit_or_fields 28 (8 + t % 8) (i % 2 ^ 28) (omega arith),
)
  where
    flagged : bit_or 0x80000000 (t % 8 * 2 ^ 28) ≡ (8 + t % 8) * 2 ^ 28
    flagged = bit_or_fields 31 1 (t % 8 * 2 ^ 28) (omega arith) ∙ omega arith

-- An encoded action matches an input type and an index exactly when they are the low three bits of
-- its own type and the low 28 bits of its own index.
pub action_matches-encode_action :
    (t i t' i' : ℕ) → action_matches (encode_action t i) t' i' ≡ (t % 8 == t' && i % 2 ^ 28 == i')
unfolding action_matches
action_matches-encode_action t i t' i' = rw (
  encode_action_sum t i,
  bit_and_ones 3 (((8 + t % 8) * 2 ^ 28 + i % 2 ^ 28) / 2 ^ 28),
  bit_and_ones 28 ((8 + t % 8) * 2 ^ 28 + i % 2 ^ 28),
  type_part,
  index_part,
)
  where
    type_part : ((8 + t % 8) * 2 ^ 28 + i % 2 ^ 28) / 2 ^ 28 % 2 ^ 3 ≡ t % 8
    type_part = omega arith

    index_part : ((8 + t % 8) * 2 ^ 28 + i % 2 ^ 28) % 2 ^ 28 ≡ i % 2 ^ 28
    index_part = omega arith

-- The flag word that a UI pad action carries: 1 in bit 30 and 0 in bit 31.
top_bits : (a : ℕ) → bit_and a 0xc0000000 ≡ bit_or (bit_and a (2 ^ 31)) (bit_and a (2 ^ 30))
top_bits a = bit_and-bit_or a (2 ^ 31) (2 ^ 30)

-- No action word is both an encoded action and a UI pad action.
pub encoded-ui_pad_disjoint : (a : ℕ) → (is_encoded_action a && is_ui_pad_action a) ≡ false
encoded-ui_pad_disjoint a =
    rw (top_bits a, bit_and-bit_value a 31, bit_and-bit_value a 30)
      (split (test_bit 31 a) (test_bit 30 a))
  where
    split :
        (x y : Bool)
        → ((if x then 2 ^ 31 else 0) != 0
            && bit_or (if x then 2 ^ 31 else 0) (if y then 2 ^ 30 else 0) == 0x40000000)
          ≡ false
    split true true = refl
    split true false = refl
    split false y = refl

-- A mask of at most 30 bits under the UI pad flag is a UI pad action, is no encoded action, and
-- the mask is read back unchanged.
pub ui_pad_flag-mask :
    (m : ℕ)
    → m < 2 ^ 30
    → (is_ui_pad_action (bit_or ui_pad_action_flag m) ≡ true)
      × (is_encoded_action (bit_or ui_pad_action_flag m) ≡ false)
      × (bit_and (bit_or ui_pad_action_flag m) ui_pad_mask ≡ m)
ui_pad_flag-mask m h = (
  rw (top_bits (bit_or ui_pad_action_flag m), word, bit_and-bit_value (2 ^ 30 + m) 31, off)
      (rw (bit_and-bit_value (2 ^ 30 + m) 30, on)),
  rw (word, bit_and-bit_value (2 ^ 30 + m) 31, off),
  rw (word, bit_and_ones 30 (2 ^ 30 + m)) (omega arith),
)
  where
    word : bit_or ui_pad_action_flag m ≡ 2 ^ 30 + m
    word = bit_or_fields 30 1 m h

    off : test_bit 31 (2 ^ 30 + m) ≡ false
    off = test_bit-above 31 31 (2 ^ 30 + m) (omega arith) (omega arith)

    on : test_bit 30 (2 ^ 30 + m) ≡ true
    on =
        rw (← word, test_bit-bit_or 30 ui_pad_action_flag m)
          (ap (λ b. b || test_bit 30 m) (test_bit-bit 30 30))
