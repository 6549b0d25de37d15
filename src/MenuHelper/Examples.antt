-- ===== src/MenuHelper/Examples.antt =====
-- Concrete runs of the helper: a menu recording is played back, and a sandbox begins and ends.
use xenomods.Base.{
  Bool, ◌-◌, ◌^◌, take, drop, map, Text, ◌++◌, ap, suc, zero, ◌∙◌, ◌≢◌, get_elem?, arith, ℕ, true,
  false, List, [], ◌∷◌, inl, inr, ◌≡◌, refl,
}
use xenomods.InputBuffer.State.{AcceptedAction, init, no_layers}
use mathlib.Core.Option.{none, some, none-ne-some, some_inj}
use xenomods.MenuHelper.Session.Rounds.{Going}
use xenomods.MenuHelper.Session.Progress.{accepting, play-accepting}
use xenomods.MenuHelper.{
  travel, menu, Recording, SandboxState, game_store, HelperData, start_helper, playing,
  waiting_for_shop_close,
}
use xenomods.MenuHelper.Repair.{name_key, repair_line, repair_recording_name_quotes, set_back}
use xenomods.MenuHelper.Repair.Reading.{literal_name, read_basic, repair_line-reads}
use xenomods.MenuHelper.Repair.Lines.{split_lines, join_lines, repair-lines}
use xenomods.MenuHelper.Hooks.{
  main_menu, main_menu_create_hook, main_menu_sequence_end_hook, sandbox_save_hook,
}
use xenomods.MenuHelper.Hooks.Agreement.{main_menu_create, hook_call, hook_call-IsConsistent}
use xenomods.MenuHelper.Hooks.Saves.{created-saves_nothing}
use xenomods.MenuHelper.Sandbox.{begin_sandbox_data, discard_sandbox_data}
use xenomods.MenuHelper.Sandbox.Isolation.{game_writes, frozen, sandbox_run, sandbox-restores}
use xenomods.MenuHelper.Session.{
  Event, playback_armed, menu_opening, menu_opened, menu_input_enabled, action_completed, frame,
  menu_closed, run,
}
use xenomods.MenuHelper.Session.Agreement.{IsConsistent}
use xenomods.MenuHelper.Session.Invariant.{run-IsConsistent}
use xenomods.MenuHelper.Session.Frames.{InPlay, Sends}
use xenomods.MenuHelper.Session.Order.{PlayEvent, play_frame, action_done, play, play-Sends}
-- The game's store is at the address 16.
use xenomods.Targeting.{pos}
use xenomods.MenuHelper.Files.{
  ActionNode, Document, menu_text, load_recordings, find_document, load_document, put_recordings,
  saved_document,
}
use xenomods.MenuHelper.Files.Loading.{IsLoaded, load_recordings-Outcome}
use xenomods.MenuHelper.Files.Saving.{load_document-saved_document}

abbrev game_memory : SandboxState
game_memory = record {
  singleton_found = true;
  singleton = game_store 16;
  game_stores = λ _. 5 ∷ 6 ∷ [];
  sandbox_data_store = [];
  real_data_store = game_store 0;
  sandbox_data_active = false;
}

sandbox-restores_example :
    let t =
      discard_sandbox_data
        (sandbox_run (game_writes (9 ∷ []) ∷ frozen ∷ []) (begin_sandbox_data game_memory).0) in
    (t.game_stores ≡ game_memory.game_stores)
    × (t.singleton ≡ game_store 16)
    × (t.sandbox_data_active ≡ false)
unfolding begin_sandbox_data
sandbox-restores_example =
    sandbox-restores game_memory (game_writes (9 ∷ []) ∷ frozen ∷ []) refl refl

abbrev press_down : AcceptedAction
press_down = record { input = 2; layer = 7; display = 0 }

abbrev press_a : AcceptedAction
press_a = record { input = 1; layer = 7; display = 0 }

abbrev menu_recording : Recording
menu_recording = record {
  name = 77 ∷ [];
  actions = press_down ∷ press_a ∷ [];
  last_playback_frames = 0;
  kind = menu;
}

abbrev fresh_helper : HelperData
fresh_helper = record (start_helper game_memory (init no_layers)) {
  recordings = menu_recording ∷ [];
}

abbrev full_run : List Event
full_run =
    playback_armed menu (77 ∷ [])
    ∷ menu_opening
    ∷ menu_opened
    ∷ menu_input_enabled
    ∷ action_completed
    ∷ frame 0
    ∷ action_completed
    ∷ menu_closed
    ∷ []

run-IsConsistent_example : IsConsistent (run (λ _. true) full_run fresh_helper)
run-IsConsistent_example =
    run-IsConsistent (λ _. true) full_run fresh_helper
      (record { override = refl; offer = inl refl })

-- The recording has just begun to play.
abbrev begun_playback : HelperData
begun_playback = record fresh_helper {
  state = playing;
  active_kind = menu;
  main_menu_open = true;
  playback_actions = press_down ∷ press_a ∷ [];
  input = record (init no_layers) {
    playback_override_active = true;
    playback_action = press_down;
    accepted_action_callback = true;
  };
}

begun_playback-InPlay : InPlay begun_playback
begun_playback-InPlay = record {
  agrees = record { override = refl; offer = inr refl };
  phase = inl refl;
  told = refl;
}

begun_playback-Going : Going begun_playback
begun_playback-Going = record { is_playing = refl; unblocked = refl; has_inputs = inputs }
  where
    nonzero : (n : ℕ) → suc n ≡ 0 → ⊥
    nonzero n e = ground (arith, e)

    inputs :
        (j : ℕ) (a : AcceptedAction)
        → get_elem? (press_down ∷ press_a ∷ []) j ≡ some a
        → a.input ≢ 0
    inputs zero a e z = nonzero 1 (ap (λ (x : AcceptedAction). x.input) (some_inj.0 e) ∙ z)
    inputs (suc zero) a e z = nonzero 0 (ap (λ (x : AcceptedAction). x.input) (some_inj.0 e) ∙ z)
    inputs (suc (suc j)) a e z = none-ne-some a e

play-accepting_example :
    ((play (accepting 7) begun_playback).0.state ≡ waiting_for_shop_close)
    × ((play (accepting 7) begun_playback).1 ≡ press_down ∷ press_a ∷ [])
play-accepting_example =
    play-accepting 7 begun_playback begun_playback-InPlay begun_playback-Going (omega arith)

abbrev two_rounds : List PlayEvent
two_rounds = action_done ∷ play_frame 0 refl ∷ action_done ∷ []

play-Sends_example :
    Sends begun_playback (play two_rounds begun_playback).0 (play two_rounds begun_playback).1
play-Sends_example = play-Sends two_rounds begun_playback begun_playback-InPlay

-- Tora's
abbrev quoted_name : Text
quoted_name = 84 ∷ 111 ∷ 114 ∷ 97 ∷ 39 ∷ 115 ∷ []

repair_line-reads_example :
    (take 8 (repair_line (literal_name quoted_name)) ≡ set_back name_key 34)
    × (read_basic (drop 8 (repair_line (literal_name quoted_name))) ≡ some (quoted_name, []))
repair_line-reads_example = repair_line-reads quoted_name refl

repair-lines_example :
    repair_recording_name_quotes (literal_name quoted_name ++ (10 ∷ 97 ∷ []))
    ≡ join_lines (map repair_line (split_lines (literal_name quoted_name ++ (10 ∷ 97 ∷ []))))
repair-lines_example = repair-lines (literal_name quoted_name ++ (10 ∷ 97 ∷ []))

-- A game's function that does nothing and returns true.
abbrev succeeds : HelperData → HelperData × Bool
succeeds h = (h, true)

hook_call-IsConsistent_example :
    IsConsistent (hook_call (λ _. true) succeeds (main_menu_create main_menu) begun_playback)
hook_call-IsConsistent_example =
    hook_call-IsConsistent (λ _. true) succeeds (λ _ c. c) (main_menu_create main_menu)
      begun_playback (record { override = refl; offer = inr refl })

abbrev sandbox_helper : HelperData
sandbox_helper = record fresh_helper { sandbox_mode = true }

-- A save that turns sandbox mode off and succeeds.
abbrev save_game : HelperData → HelperData × ℕ
save_game h = (record h { sandbox_mode = false }, 0)

created-saves_nothing_example :
    let opened = (main_menu_create_hook (λ _. true) succeeds main_menu sandbox_helper).0 in
    let ended = (main_menu_sequence_end_hook (λ _. true) succeeds opened).0 in
    (sandbox_save_hook save_game opened ≡ (opened, 2 ^ 32 - 1))
    × (sandbox_save_hook save_game ended ≡ save_game ended)
created-saves_nothing_example =
    created-saves_nothing (λ _. true) succeeds main_menu sandbox_helper
      (record { in_mode = refl; inactive = refl; found = refl; stored = refl })
      (λ _. record { same_sandbox = refl; same_mode = refl; created = refl }) succeeds (λ _. refl)
      save_game

-- A recordings file: one recording is kept, one entry is not a table, and one has no name.
abbrev press : ActionNode
press = record { input = some (pos 4); layer = some (pos 7); display = some (pos 4) }

abbrev stored : Document
stored = record {
  version = some (pos 11);
  recordings = some (
      some (record {
        name = some (65 ∷ []);
        kind = some menu_text;
        last_elapsed_frames = none;
        actions = some (some press ∷ none ∷ []);
      })
      ∷ none
      ∷ some (record { name = none; kind = none; last_elapsed_frames = none; actions = none })
      ∷ []);
}

load_recordings-Outcome_example :
    IsLoaded (load_recordings (λ _. none) (some stored) none fresh_helper).0
unfolding load_recordings find_document load_document
load_recordings-Outcome_example =
    load_recordings-Outcome (λ _. none) (some stored) none fresh_helper

abbrev one_recording : List Recording
one_recording =
    record {
      name = 65 ∷ [];
      actions = record { input = 4; layer = 7; display = 4 } ∷ [];
      last_playback_frames = 30;
      kind = travel;
    }
    ∷ []

load_document-saved_document_example :
    load_document (saved_document one_recording) fresh_helper
    ≡ (put_recordings one_recording fresh_helper, true)
load_document-saved_document_example =
    load_document-saved_document one_recording fresh_helper (omega arith) (
      record {
        loadable = record {
          named = refl;
          played = refl;
          fits = omega arith;
          valid = (ground arith, tt);
        };
        counted = omega arith;
      },
      tt,
    )
