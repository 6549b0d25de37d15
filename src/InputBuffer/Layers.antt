-- ===== src/InputBuffer/Layers.antt =====
-- The registered UI input layers: their handles, and what the hooks read of a layer's entry table.
pub mod Registry
pub mod Accepts
use xenomods.Base.{
  ℕ, zero, suc, ◌+◌, ◌-◌, bit_and, bit_or, Bool, false, true, ◌&&◌, ◌||◌, ◌==◌, ◌!=◌, ltb, leb,
  List, [], ◌∷◌, get_or, if◌then◌else◌,
}
use xenomods.InputBuffer.State.{
  InputState, InputLayer, LayerEntry, LayerRegistration, no_registration,
}
use xenomods.InputBuffer.Action.{is_ui_pad_action, ui_pad_mask, lr_button_mask}

-- The loop of RegisterInputLayer over the slots up to the first that holds the layer or the handle.
pub overwrite_match : (layer handle : ℕ) → List LayerRegistration → List LayerRegistration
overwrite_match layer handle [] = []
overwrite_match layer handle (r ∷ rs) =
    if r.layer == layer || r.handle == handle
    then record { layer = layer; handle = handle } ∷ rs
    else r ∷ overwrite_match layer handle rs

-- Whether that loop finds such a slot.
unfoldable pub has_match : (layer handle : ℕ) → List LayerRegistration → Bool
has_match layer handle [] = false
has_match layer handle (r ∷ rs) =
    r.layer == layer || r.handle == handle || has_match layer handle rs

-- The write to freeRegistration, the first slot without a layer.
pub fill_free : (layer handle : ℕ) → List LayerRegistration → List LayerRegistration
fill_free layer handle [] = []
fill_free layer handle (r ∷ rs) =
    if r.layer == 0
    then record { layer = layer; handle = handle } ∷ rs
    else r ∷ fill_free layer handle rs

-- RegisterInputLayer on the table.
pub register_in : (layer handle : ℕ) → List LayerRegistration → List LayerRegistration
register_in layer handle rs =
    if layer == 0 || handle == 0
    then rs
    else if has_match layer handle rs
    then overwrite_match layer handle rs
    else fill_free layer handle rs

-- ReleaseInputLayer on the table.
pub release_in : ℕ → List LayerRegistration → List LayerRegistration
release_in handle [] = []
release_in handle (r ∷ rs) =
    (if r.handle == handle then no_registration else r) ∷ release_in handle rs

-- InputLayerHandle on the table.
unfoldable pub handle_in : ℕ → List LayerRegistration → ℕ
handle_in layer [] = 0
handle_in layer (r ∷ rs) = if r.layer == layer then r.handle else handle_in layer rs

unfoldable pub register_input_layer : (layer handle : ℕ) → InputState → InputState
register_input_layer layer handle s = record s {
  layer_registrations = register_in layer handle s.layer_registrations;
}

unfoldable pub release_input_layer : ℕ → InputState → InputState
release_input_layer handle s = record s {
  layer_registrations = release_in handle s.layer_registrations;
}

unfoldable pub input_layer_handle : InputState → ℕ → ℕ
input_layer_handle s layer = handle_in layer s.layer_registrations

-- UIInputManagerRegisterHook, whose Orig returned `handle`.
pub register_hook : (handle layer : ℕ) → InputState → InputState × ℕ
unfolding register_input_layer
register_hook handle layer s = (register_input_layer layer handle s, handle)

-- UIInputManagerReleaseHook, after its Orig.
pub release_hook : ℕ → InputState → InputState
unfolding release_input_layer
release_hook handle s = release_input_layer handle s

-- UiPadToFwPad
abbrev pub ui_pad_to_fw_pad : List ℕ
ui_pad_to_fw_pad =
    0x00000000 ∷ 0x00000004 ∷ 0x00000002 ∷ 0x00000004 ∷ 0x00000002 ∷ 0x00000008 ∷ 0x00000001
    ∷ 0x00001000 ∷ 0x00004000 ∷ 0x00002000 ∷ 0x00008000 ∷ 0x00000010 ∷ 0x00000040 ∷ 0x00000400
    ∷ 0x00000020 ∷ 0x00000080 ∷ 0x00000800 ∷ 0x00000200 ∷ 0x00000100 ∷ 0x01000000 ∷ 0x04000000
    ∷ 0x02000000 ∷ 0x08000000 ∷ 0x10000000 ∷ 0x40000000 ∷ 0x20000000 ∷ 0x80000000 ∷ []

unfoldable pub fw_pad : ℕ → ℕ
fw_pad ui_pad = get_or ui_pad_to_fw_pad ui_pad 0

unfoldable pub input_layer_entry_count : InputState → ℕ → ℕ
input_layer_entry_count s layer =
    if layer == 0
    then 0
    else if leb (s.layer_at layer).count 27
    then (s.layer_at layer).count
    else 0

-- The loop of InputLayerEnabledButtonMask over `left` entries from `index` on.
unfoldable pub enabled_from : (ℕ → LayerEntry) → (index left mask : ℕ) → ℕ
enabled_from entry index zero mask = mask
enabled_from entry index (suc left) mask = enabled_from entry (suc index) left (
    if ltb (entry index).ui_pad 27 && (entry index).enabled != 0
    then bit_or mask (fw_pad (entry index).ui_pad)
    else mask)

unfoldable pub input_layer_enabled_button_mask : InputState → ℕ → ℕ
input_layer_enabled_button_mask s layer =
    let count = input_layer_entry_count s layer in
    if layer == 0 || count == 0 then 0 else enabled_from (s.layer_at layer).entry 0 count 0

-- The loop of InputLayerAcceptsMask.
unfoldable pub accepts_from : (ℕ → LayerEntry) → (input_mask index left : ℕ) → Bool
accepts_from entry input_mask index zero = false
accepts_from entry input_mask index (suc left) =
    ltb (entry index).ui_pad 27
      && (entry index).enabled != 0
      && bit_and input_mask (fw_pad (entry index).ui_pad) != 0
    || accepts_from entry input_mask (suc index) left

unfoldable pub input_layer_accepts_mask : InputState → (layer input_mask : ℕ) → Bool
input_layer_accepts_mask s layer input_mask =
    let count = input_layer_entry_count s layer in
    if layer == 0 || count == 0 || input_mask == 0
    then false
    else accepts_from (s.layer_at layer).entry input_mask 0 count

unfoldable pub input_layer_accepts_ui_pad_action : InputState → ℕ → Bool
unfolding input_layer_accepts_mask
input_layer_accepts_ui_pad_action s layer =
    is_ui_pad_action s.playback_action.input
    && input_layer_accepts_mask s layer (bit_and s.playback_action.input ui_pad_mask)

unfoldable pub input_layer_object : InputState → ℕ → ℕ
input_layer_object s layer = if layer == 0 then 0 else (s.layer_at layer).object

unfoldable pub playback_layer_matches : InputState → ℕ → Bool
unfolding input_layer_handle input_layer_object
playback_layer_matches s layer =
    if layer == 0
    then false
    else if input_layer_handle s layer != 0 && input_layer_handle s layer == s.playback_action.layer
    then true
    else s.aux_core_amount_menu_active
      && s.aux_core_amount_menu_object != 0
      && input_layer_object s layer == s.aux_core_amount_menu_object
      && is_ui_pad_action s.playback_action.input
      && bit_and (bit_and s.playback_action.input ui_pad_mask) lr_button_mask != 0
