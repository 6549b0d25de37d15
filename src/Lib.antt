-- ===== src/Lib.antt =====
-- XenomodsTAS, the in-game tools for speedruns of Xenoblade Chronicles 2: a model of the parts that
-- decide what the game does, with their theorems.
--
-- - InputBuffer models src/xenomods/InputBuffer.cpp and include/xenomods/InputBuffer.hpp, the module
--   between the game's pad and its readers. The globals are the record InputState (State); each hook
--   and each setter is a function on it with the name of the source in snake_case: GetDownHook is
--   Buttons.get_down_hook, RequestAutoUiAction is Api.request_auto_ui_action. Buttons holds the button
--   hooks, Sticks the stick hooks, Layers the registered UI input layers, Pad the pad data of a UI
--   layer, Update the update of a UI layer, Relay the game's check of one action. What the game's own
--   function (Orig) returns is an argument; where it runs other hooks it is a function on the state.
--   A registered callback is a present flag, a note in the list of calls and a function on the state
--   (Api.Client), since the callbacks work through the setters. Memory behind a layer pointer is the
--   field layer_at.
--
-- - MenuHelper models src/xenomods/modules/MenuHelper.cpp: menu inputs are recorded and played back. The
--   record HelperData has its globals and the state of the input buffer (field input). Playback holds
--   the sessions (OnAcceptedAction, QueueNextPlaybackAction, BeginActiveSession, EndActiveSession,
--   SaveDraft), Events the handlers of shops, the main menu and skip travel, Control what the tools,
--   the frames and scene changes call (ArmPlayback, Update, OnSceneTransition), Sandbox the copy of the
--   save data that sandbox mode works on. Session puts them together: its step is one event, and run a
--   sequence of events in any order, with the input buffer's CompletePlaybackAction calling back
--   OnAcceptedAction. Whether the recordings could be written to their file is the argument saves.
--   Hooks holds the hooks on the game's menus, with what the game's own function (Orig) does and
--   returns as an argument. Repair holds RepairRecordingNameQuotes, whose loop has one more round of
--   fuel than the file has characters: each round goes past a newline or ends. Files holds LoadRecordings and SaveRecordings between the
--   helper and a Document, which is what toml++ finds in a file: its parser is an argument, and so is
--   what could be read.
--
-- - Targeting models src/xenomods/modules/Targeting.cpp and Targeting.hpp in part: the routes that press
--   buttons and move the party. Names holds NormalizeTargetNames, Entries the searches in a route
--   (MapEntryIndices, FindFirstTargetForMap, FindNextTargetForMap, RouteNumber), Route the globals of a
--   running route and their resets, Actions QueueAction and UpdateActiveAction, Delays
--   ConsumeActiveDelaySteps, whose loop has one more round of fuel than the route has entries: each
--   round goes on to a later entry. Splits holds CompleteTargetSplit and the split timer, RouteFiles
--   the numbers in the names of route files, which are ints that may overflow, and the name that
--   CreateNewRoute takes. A route holds the state of the input buffer as its field input and changes it by the
--   setters of InputBuffer. fmt::format is an argument.
--
-- - AutoTutorials models src/xenomods/modules/AutoTutorials.cpp: the tutorials that close themselves. The
--   record TutorialState has the four runtimes and the state of the input buffer; the game's memory
--   that a call reads is the argument TutorialMemory. Hooks turns each hook into the steps around
--   those of the game's own function, so a run is a list of steps in any order. Rearm, Disabled,
--   Closing and Runtimes are about AdvanceIfReady, the switch, the close event and the runtimes.
--
-- - AutoCutsceneSkips models src/xenomods/modules/AutoCutsceneSkips.cpp: the cutscenes that skip themselves.
--   Trace holds the trace (Record, StartTrace, FinishTrace, SnapshotFor), Hooks the hooks on the game,
--   Layer OnInputLayerUpdate, Events the calls of the tools and the steps that a run is made of.
--   Phases is the abstract machine of the phases, which the steps refine, with the requests of A in
--   Phases/Requests; Traced is about the trace and Timing about the frames of a confirmation. What is read of the game and its clock is the
--   argument Surroundings; the counters of hook calls, which nothing reads, are left out.
--
-- - ModuleRegistry models src/xenomods/modules/UpdatableModule.cpp and UpdatableModule.hpp: the table of modules
--   and the loops over it. The virtual functions of the modules are the argument ModuleFunctions.
--
-- - HidInput models include/xenomods/HidInput.hpp and src/xenomods/HidInput.cpp: Poll and the held, up and down
--   tests on a pad.
--
-- - Version models include/xenomods/Version.hpp and src/xenomods/Version.cpp: SemVer with its comparisons
--   and, in Runtime, RuntimeProgramID and RuntimeGame with their function statics.
--
-- A std::uint32_t mask is a native number below 2 ^ 32 (Word), a pointer is a number with 0 for nullptr,
-- a float that is only compared is its IEEE bit pattern (Float32). The other loops run over
-- arrays and lists, so they are structural and need no fuel.
--
-- Not modelled: the ImGui drawing, the TOML settings files, the installation of hooks, the engine and
-- SDK declarations, and the loader under src/skylaunch.
mod Base
pub mod Version
pub mod HidInput
pub mod Word
pub mod Float32
pub mod InputBuffer
pub mod MenuHelper
pub mod Targeting
pub mod ModuleRegistry
pub mod AutoTutorials
pub mod AutoCutsceneSkips
