-- ===== src/InputBuffer/Api/AuxCore.antt =====
-- The repeat limit of the Aux core amount counter.
use xenomods.Base.{ℕ, ◌+◌, ◌^◌, ◌≤◌, ◌<◌, true, ◌||◌, leb, ◌≡◌, ◌≢◌, arith}
use xenomods.InputBuffer.State.{InputState, no_frame}
use xenomods.InputBuffer.Api.{accept_aux_core_amount_input, set_frame_index}

-- While the limit applies, an input accepted at one frame lets the next one through exactly from
-- three frames later on, for any later frame index that a std::uint64_t holds.
pub accept_aux_core_amount_input-repeat :
    (s : InputState) (later : ℕ)
    → (s.enabled || s.playback_override_active) ≡ true
    → (accept_aux_core_amount_input s).1 ≡ true
    → s.current_frame_index ≢ no_frame
    → s.current_frame_index ≤ later
    → later < 2 ^ 64
    → (accept_aux_core_amount_input (set_frame_index later (accept_aux_core_amount_input s).0)).1
      ≡ leb (s.current_frame_index + 3) later
unfolding accept_aux_core_amount_input set_frame_index
accept_aux_core_amount_input-repeat s later on ok f le fits = ground arith
