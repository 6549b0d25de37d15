-- ===== src/MenuHelper/Sandbox.antt =====
-- The sandbox: menus opened in sandbox mode work on a copy of the game's save data.
pub mod Isolation
use xenomods.Base.{ℕ, Bool, true, false, not, ◌&&◌, ◌||◌, ◌==◌, List, [], if◌then◌else◌}
use xenomods.MenuHelper.{StorePointer, game_store, sandbox_store, SandboxState, HelperData}

-- The data behind a store pointer.
unfoldable pub read_store : StorePointer → SandboxState → List ℕ
read_store (game_store a) s = s.game_stores a
read_store sandbox_store s = s.sandbox_data_store

abbrev pub is_null : StorePointer → Bool
is_null (game_store a) = a == 0
is_null sandbox_store = false

-- *dataStoreSingleton == sandboxDataStore.data()
abbrev pub is_sandbox : StorePointer → Bool
is_sandbox (game_store a) = false
is_sandbox sandbox_store = true

-- BeginSandboxData
unfoldable pub begin_sandbox_data : SandboxState → SandboxState × Bool
unfolding read_store
begin_sandbox_data s =
    if s.sandbox_data_active
    then (s, true)
    else if not s.singleton_found || is_null s.singleton
    then (s, false)
    else (
      record s {
        real_data_store = s.singleton;
        sandbox_data_store = read_store s.singleton s;
        singleton = sandbox_store;
        sandbox_data_active = true;
      },
      true,
    )

-- DiscardSandboxData
unfoldable pub discard_sandbox_data : SandboxState → SandboxState
discard_sandbox_data s = if not s.sandbox_data_active then s else record s {
  singleton =
      if s.singleton_found && is_sandbox s.singleton then s.real_data_store else s.singleton;
  sandbox_data_active = false;
  real_data_store = game_store 0;
  sandbox_data_store = [];
}

-- FreezeSandboxData
unfoldable pub freeze_sandbox_data : SandboxState → SandboxState
unfolding read_store
freeze_sandbox_data s =
    if not s.sandbox_data_active
      || not s.singleton_found
      || is_null s.real_data_store
      || not (is_sandbox s.singleton)
    then s
    else record s { sandbox_data_store = read_store s.real_data_store s }

-- MenuHelper::OnSandboxMenuOpened
unfoldable pub on_sandbox_menu_opened : HelperData → HelperData
unfolding begin_sandbox_data
on_sandbox_menu_opened h =
    if not h.sandbox_mode || h.sandbox.sandbox_data_active
    then h
    else record h { sandbox = (begin_sandbox_data h.sandbox).0 }

-- MenuHelper::OnSandboxMenuClosed
unfoldable pub on_sandbox_menu_closed : HelperData → HelperData
unfolding discard_sandbox_data
on_sandbox_menu_closed h = record h { sandbox = discard_sandbox_data h.sandbox }

-- MenuHelper::IsSandboxDataActive
unfoldable pub is_sandbox_data_active : HelperData → Bool
is_sandbox_data_active h = h.sandbox_mode && h.sandbox.sandbox_data_active
