-- ===== src/MenuHelper/Hooks/Saves.antt =====
-- Saving right after the hook that creates a menu in sandbox mode, and right after the hook that ends
-- its sequence. What discards the sandbox in between is not the subject of this file.
use xenomods.Base.{
  ℕ, ◌-◌, ◌^◌, Bool, true, false, not, ◌&&◌, ◌||◌, List, if◌then◌else◌, ◌≡◌, refl, ap, ◌∙◌, arith,
  if-elim, if-cases, if_true, if_false, option-cases, get_elem?,
}
use xenomods.MenuHelper.{
  RecordingKind, menu, travel, same_kind, armed_record, armed_playback, same_state, Recording,
  HelperData, SandboxState,
}
use xenomods.MenuHelper.Sandbox.{
  is_null, begin_sandbox_data, discard_sandbox_data, on_sandbox_menu_opened, on_sandbox_menu_closed,
  is_sandbox_data_active,
}
use xenomods.MenuHelper.Playback.{
  cannot_queue, queue_next_playback_action, start_playing, begin_active_session,
}
use xenomods.MenuHelper.Events.{
  not_armed, open_main_menu, on_menu_opened, open_travel_menu, on_travel_opened, on_menu_opening,
  on_travel_opening, on_menu_closed, on_travel_closed,
}
use xenomods.MenuHelper.Hooks.{
  MainMenu, is_skip_travel, main_menu_create_hook, main_menu_sequence_end_hook, sandbox_save_hook,
}

-- The sandbox holds the game's data.
record Sandboxed (h : HelperData) : Type 0 where
  mode : h.sandbox_mode ≡ true
  active : h.sandbox.sandbox_data_active ≡ true

queue-Sandboxed : (h : HelperData) → Sandboxed h → Sandboxed (queue_next_playback_action h)
unfolding queue_next_playback_action
queue-Sandboxed h s = if-elim Sandboxed (cannot_queue h) s (
    option-cases Sandboxed (get_elem? h.playback_actions h.playback_index)
      (λ _. record { mode = s.mode; active = s.active })
      (λ _ _. record { mode = s.mode; active = s.active }))

begin-Sandboxed :
    (kind : RecordingKind) (h : HelperData) → Sandboxed h → Sandboxed (begin_active_session kind h)
unfolding begin_active_session start_playing
begin-Sandboxed kind h s = if-elim Sandboxed (not (same_kind h.active_kind kind)) s (
    if-elim Sandboxed (same_state h.state armed_record)
      (record { mode = s.mode; active = s.active })
      (if-elim Sandboxed (same_state h.state armed_playback)
        (queue-Sandboxed (start_playing h) (record { mode = s.mode; active = s.active })) s))

reopened-Sandboxed : (h : HelperData) → Sandboxed h → Sandboxed (on_sandbox_menu_opened h)
unfolding on_sandbox_menu_opened
reopened-Sandboxed h s =
    let e : (not h.sandbox_mode || h.sandbox.sandbox_data_active) ≡ true =
      either h.sandbox_mode _ s.active in
    rw (on_sandbox_menu_opened, e) s
  where
    either : (x y : Bool) → y ≡ true → (not x || y) ≡ true
    either x y e = ground (arith, e)

menu_opened-Sandboxed : (h : HelperData) → Sandboxed h → Sandboxed (on_menu_opened h)
unfolding on_menu_opened open_main_menu
menu_opened-Sandboxed h s =
    let h1 : HelperData = record h { main_menu_open = true; main_menu_opening = false } in
    let s1 : Sandboxed (open_main_menu h) =
      reopened-Sandboxed h1 (record { mode = s.mode; active = s.active }) in
    if-elim Sandboxed (h.main_menu_open && not_armed h.state) s (
      if-elim Sandboxed (open_main_menu h).main_menu_input_ready
        (begin-Sandboxed menu (open_main_menu h) s1) s1)

travel_opened-Sandboxed : (h : HelperData) → Sandboxed h → Sandboxed (on_travel_opened h)
unfolding on_travel_opened open_travel_menu
travel_opened-Sandboxed h s =
    let h1 : HelperData = record h { travel_menu_open = true; travel_menu_opening = false } in
    let s1 : Sandboxed (open_travel_menu h) =
      reopened-Sandboxed h1 (record { mode = s.mode; active = s.active }) in
    if-elim Sandboxed (h.travel_menu_open && not_armed h.state) s
      (begin-Sandboxed travel (open_travel_menu h) s1)

-- Sandbox mode is on, and the game's store can be copied.
pub record IsReady (h : HelperData) : Type 0 where
  pub in_mode : h.sandbox_mode ≡ true
  pub inactive : h.sandbox.sandbox_data_active ≡ false
  pub found : h.sandbox.singleton_found ≡ true
  pub stored : is_null h.sandbox.singleton ≡ false

opened-Sandboxed : (h : HelperData) → IsReady h → Sandboxed (on_sandbox_menu_opened h)
unfolding on_sandbox_menu_opened begin_sandbox_data
opened-Sandboxed h r =
    rw (on_sandbox_menu_opened, begin_sandbox_data, r.in_mode, r.inactive, r.found, r.stored)
      (record { mode = refl; active = refl })

-- A menu that the game's own function creates: it returns true and leaves the sandbox as it is.
pub record Creates (create : HelperData → HelperData × Bool) (h : HelperData) : Type 0 where
  pub same_sandbox : (create h).0.sandbox ≡ h.sandbox
  pub same_mode : (create h).0.sandbox_mode ≡ h.sandbox_mode
  pub created : (create h).1 ≡ true

created-IsReady :
    (create : HelperData → HelperData × Bool) (h : HelperData)
    → Creates create h
    → IsReady h
    → IsReady (create h).0
created-IsReady create h k r = record {
  in_mode = k.same_mode ∙ r.in_mode;
  inactive = ap (λ (s : SandboxState). s.sandbox_data_active) k.same_sandbox ∙ r.inactive;
  found = ap (λ (s : SandboxState). s.singleton_found) k.same_sandbox ∙ r.found;
  stored = ap (λ (s : SandboxState). is_null s.singleton) k.same_sandbox ∙ r.stored;
}

opening-IsReady :
    (skip : Bool) (h : HelperData)
    → IsReady h
    → IsReady (if skip then on_travel_opening h else on_menu_opening h)
unfolding on_travel_opening on_menu_opening
opening-IsReady skip h r =
    if-elim IsReady skip
      (record { in_mode = r.in_mode; inactive = r.inactive; found = r.found; stored = r.stored })
      (record { in_mode = r.in_mode; inactive = r.inactive; found = r.found; stored = r.stored })

save-Sandboxed :
    (save : HelperData → HelperData × ℕ) (h : HelperData)
    → Sandboxed h
    → sandbox_save_hook save h ≡ (h, 2 ^ 32 - 1)
unfolding sandbox_save_hook is_sandbox_data_active
save-Sandboxed save h s =
    if_true (save h) (ap (λ b. b && h.sandbox.sandbox_data_active) s.mode ∙ s.active)

discard-inactive : (s : SandboxState) → (discard_sandbox_data s).sandbox_data_active ≡ false
unfolding discard_sandbox_data
discard-inactive s =
    if-cases (λ (t : SandboxState). t.sandbox_data_active ≡ false) (not s.sandbox_data_active)
      (λ e. negated s.sandbox_data_active e) (λ _. refl)
  where
    negated : (b : Bool) → not b ≡ true → b ≡ false
    negated b e = ground (arith, e)

closed-saves :
    (save : HelperData → HelperData × ℕ) (h : HelperData)
    → sandbox_save_hook save (on_sandbox_menu_closed h) ≡ save (on_sandbox_menu_closed h)
unfolding sandbox_save_hook is_sandbox_data_active on_sandbox_menu_closed
closed-saves save h =
    if_false (on_sandbox_menu_closed h, 2 ^ 32 - 1)
      (ap (λ b. h.sandbox_mode && b) (discard-inactive h.sandbox) ∙ never h.sandbox_mode)
  where
    never : (b : Bool) → (b && false) ≡ false
    never b = ground arith

module _ (saves : List Recording → Bool) (create : HelperData → HelperData × Bool) where
  created-Sandboxed :
      (kind : MainMenu) (h : HelperData)
      → IsReady h
      → ((g : HelperData) → Creates create g)
      → Sandboxed (main_menu_create_hook saves create kind h).0
  unfolding main_menu_create_hook
  created-Sandboxed kind h r creates =
      let skip = is_skip_travel kind in
      let h0 : HelperData = if skip then on_travel_opening h else on_menu_opening h in
      let made = create h0 in
      let k = creates h0 in
      let s : Sandboxed (on_sandbox_menu_opened made.0) =
        opened-Sandboxed made.0 (created-IsReady create h0 k (opening-IsReady skip h r)) in
      if-cases Sandboxed (made.1 && not skip)
        (λ _. menu_opened-Sandboxed (on_sandbox_menu_opened made.0) s)
        (λ not_menu.
          if-cases Sandboxed (made.1 && skip)
            (λ _. travel_opened-Sandboxed (on_sandbox_menu_opened made.0) s)
            (λ not_travel. absurd (either made.1 skip k.created not_menu not_travel)))
    where
      either : (x y : Bool) → x ≡ true → (x && not y) ≡ false → (x && y) ≡ false → ⊥
      either x y e f g = ground (arith, e, f, g)

  -- When sandbox mode is on, no sandbox is active yet and the game's store was found and is not null,
  -- and the game creates a menu and leaves the sandbox alone as it does, no save goes through in the
  -- state in which the create hook returns: the save hooks leave it as it is and answer 2 ^ 32 - 1,
  -- whatever the game's saving would do. When the menu's sequence ends in that state, as the game's
  -- own function says by true, saving is the game's own again right after the end hook.
  pub created-saves_nothing :
      (kind : MainMenu) (h : HelperData)
      → IsReady h
      → ((g : HelperData) → Creates create g)
      → (finish : HelperData → HelperData × Bool) → ((g : HelperData) → (finish g).1 ≡ true)
      → (save : HelperData → HelperData × ℕ)
      → let opened = (main_menu_create_hook saves create kind h).0 in
        let ended = (main_menu_sequence_end_hook saves finish opened).0 in
        (sandbox_save_hook save opened ≡ (opened, 2 ^ 32 - 1))
        × (sandbox_save_hook save ended ≡ save ended)
  unfolding main_menu_sequence_end_hook
  created-saves_nothing kind h r creates finish finishes save =
      let opened = (main_menu_create_hook saves create kind h).0 in
      let over = (finish opened).0 in
      (
        save-Sandboxed save opened (created-Sandboxed kind h r creates),
        if-cases (λ (g : HelperData). sandbox_save_hook save g ≡ save g) (finish opened).1
            (λ _. closed-saves save (on_travel_closed saves (on_menu_closed saves over)))
            (λ e. absurd (differ (finish opened).1 (finishes opened) e)),
      )
    where
      differ : (b : Bool) → b ≡ true → b ≡ false → ⊥
      differ b e f = ground (arith, e, f)
