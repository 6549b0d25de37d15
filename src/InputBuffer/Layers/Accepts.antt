-- ===== src/InputBuffer/Layers/Accepts.antt =====
-- Two loops over a layer's entries agree: the mask test and the enabled mask.
use xenomods.Base.{
  ℕ, zero, suc, bit_and, bit_or, ◌||◌, ◌==◌, ◌!=◌, ◌≡◌, ◌∙◌, arith, Bool-cases, inl, inr,
}
use xenomods.Word.Laws.{
  bit_and-bit_or, bit_or-eq_zero, bit_or-zero, zero-bit_or, bit_and-zero, zero-bit_and,
}
use xenomods.InputBuffer.State.{InputState, LayerEntry}
use xenomods.InputBuffer.Layers.{
  input_layer_entry_count, enabled_from, input_layer_enabled_button_mask, accepts_from,
  input_layer_accepts_mask, fw_pad,
}

-- A union meets a mask exactly when one of its parts does.
meets-bit_or : (m a b : ℕ) → (bit_and m (bit_or a b) != 0) ≡ (bit_and m a != 0 || bit_and m b != 0)
meets-bit_or m a b = elim (Bool-cases (bit_or (bit_and m a) (bit_and m b) == 0)) [
  | inl e ↦
      let (x, y) = bit_or-eq_zero (bit_and m a) (bit_and m b) (ground arith) in
      rw (bit_and-bit_or m a b, x, y)
  | inr e ↦
      rw (bit_and-bit_or m a b)
        (ground (arith, bit_or-zero (bit_and m a), zero-bit_or (bit_and m b), bit_or-zero 0))
]

accepts-enabled :
    (entry : ℕ → LayerEntry) (m index left mask : ℕ)
    → (bit_and m (enabled_from entry index left mask) != 0)
      ≡ (bit_and m mask != 0 || accepts_from entry m index left)
unfolding enabled_from accepts_from
accepts-enabled entry m index zero mask = ground arith
accepts-enabled entry m index (suc left) mask =
    accepts-enabled entry m (suc index) left _
    ∙ ground (arith, meets-bit_or m mask (fw_pad (entry index).ui_pad))

-- A layer accepts a mask exactly when the mask meets the mask of the layer's enabled entries.
pub accepts_mask-enabled :
    (s : InputState) (layer m : ℕ)
    → input_layer_accepts_mask s layer m
      ≡ (bit_and m (input_layer_enabled_button_mask s layer) != 0)
unfolding input_layer_accepts_mask input_layer_enabled_button_mask
accepts_mask-enabled s layer m = ground (
  arith,
  accepts-enabled (s.layer_at layer).entry m 0 (input_layer_entry_count s layer) 0,
  bit_and-zero m,
  zero-bit_and (enabled_from (s.layer_at layer).entry 0 (input_layer_entry_count s layer) 0),
)
