-- ===== src/MenuHelper/Files/Loading.antt =====
-- What LoadRecordings of src/xenomods/modules/MenuHelper.cpp accepts, and what it leaves when it fails.
use xenomods.Base.{
  ℕ, zero, suc, ◌+◌, ◌≤◌, ◌<◌, ◌^◌, Bool, true, false, not, ◌||◌, ◌≡◌, ◌≢◌, refl, List, [], ◌∷◌,
  Option, none, some, Text, length, if-cases, if-elim, option-cases, arith,
}
use mathlib.Core.Path.{subst}
use xenomods.InputBuffer.State.{AcceptedAction}
use xenomods.MenuHelper.{Recording, HelperData, max_recordings, max_actions, RecordingKind}
use xenomods.MenuHelper.Playback.{find_recording}
use xenomods.MenuHelper.Files.{
  ActionNode, RecordingNode, Document, read_word, action_of, read_action, read_actions, is_blank,
  keep_recording, read_table, read_actions_of, read_recording, read_recordings, selected_entry,
  first_of, reselect, put_recordings, load_document, find_document, load_recordings, is_version_11,
}

-- An action with an input and a layer, in 32 bits each.
pub record IsValidAction (a : AcceptedAction) : Type 0 where
  pub input_some : a.input ≢ 0
  pub input_word : a.input < 2 ^ 32
  pub layer_some : a.layer ≢ 0
  pub layer_word : a.layer < 2 ^ 32
  pub display_word : a.display < 2 ^ 32

abbrev pub All {ℓ} : {A : Type ℓ} → (A → Type 0) → List A → Type 0
All P [] = Unit {0}
All P (x ∷ xs) = P x × All P xs

-- A recording that can be kept: named, and with between 1 and MaxActions valid actions.
pub record IsLoadable (r : Recording) : Type 0 where
  pub named : is_blank r.name ≡ false
  pub played : is_blank r.actions ≡ false
  pub fits : length r.actions ≤ max_actions
  pub valid : All IsValidAction r.actions

-- What a list of recordings is after it was loaded, with a selection among them.
pub record IsLoaded (h : HelperData) : Type 0 where
  pub few : length h.recordings ≤ max_recordings
  pub loadable : All IsLoadable h.recordings
  pub selected : (i : ℕ) → h.selected_recording ≡ some i → i < length h.recordings

read_action-IsValidAction :
    (node : Option ActionNode) (a : AcceptedAction) → read_action node ≡ some a → IsValidAction a
unfolding read_action action_of read_word
read_action-IsValidAction none a e = cc
read_action-IsValidAction (some node) a e = ground arith

read_actions-valid :
    (room : ℕ) (nodes : List (Option ActionNode))
    → (length (read_actions room nodes) ≤ room) × All IsValidAction (read_actions room nodes)
unfolding read_actions
read_actions-valid zero nodes = (omega arith, tt)
read_actions-valid (suc room) [] = (omega arith, tt)
read_actions-valid (suc room) (node ∷ rest) =
    option-cases (λ kept. (length kept ≤ suc room) × All IsValidAction kept) (read_action node)
      (λ _. read_actions-valid (suc room) rest)
      (λ a e.
        let later = read_actions-valid room rest in
        (omega (arith, later.0), (read_action-IsValidAction node a e, later.1)))

-- The kept option of a recording that is kept only if it has a name and actions.
abbrev Kept : Option Recording → Type 0
Kept none = Unit {0}
Kept (some r) = IsLoadable r

keep_recording-Kept :
    (r : Recording)
    → length r.actions ≤ max_actions
    → All IsValidAction r.actions
    → Kept (keep_recording r)
unfolding keep_recording
keep_recording-Kept r fits valid =
    if-cases Kept (is_blank r.name || is_blank r.actions) (λ _. tt)
      (λ e. record { named = ground arith; played = ground arith; fits = fits; valid = valid })

read_actions_of-Kept :
    (node : RecordingNode) (actions : Option (List (Option ActionNode)))
    → Kept (read_actions_of node actions)
unfolding read_actions_of read_table
read_actions_of-Kept node none = tt
read_actions_of-Kept node (some actions) =
    let valid = read_actions-valid max_actions actions in
    keep_recording-Kept (read_table node actions) valid.0 valid.1

read_recording-Kept : (node : Option RecordingNode) → Kept (read_recording node)
unfolding read_recording
read_recording-Kept none = tt
read_recording-Kept (some node) = read_actions_of-Kept node node.actions

read_recordings-IsLoadable :
    (room : ℕ) (nodes : List (Option RecordingNode))
    → (length (read_recordings room nodes) ≤ room) × All IsLoadable (read_recordings room nodes)
unfolding read_recordings
read_recordings-IsLoadable zero nodes = (omega arith, tt)
read_recordings-IsLoadable (suc room) [] = (omega arith, tt)
read_recordings-IsLoadable (suc room) (node ∷ rest) =
    option-cases (λ rs. (length rs ≤ suc room) × All IsLoadable rs) (read_recording node)
      (λ _. read_recordings-IsLoadable (suc room) rest)
      (λ r e.
        let later = read_recordings-IsLoadable room rest in
        (omega (arith, later.0), (subst Kept e (read_recording-Kept node), later.1)))

-- What is found is in the list.
find_recording-bounds :
    (kind : RecordingKind) (name : Text) (index : ℕ) (rs : List Recording) (i : ℕ)
    → find_recording kind name index rs ≡ some i
    → i < index + length rs
unfolding find_recording
find_recording-bounds kind name index [] i e = cc
find_recording-bounds kind name index (r ∷ rs) i e =
    ground (arith, find_recording-bounds kind name (suc index) rs i)

first_of-bounds : (rs : List Recording) (i : ℕ) → first_of rs ≡ some i → i < length rs
first_of-bounds [] i e = cc
first_of-bounds (r ∷ rs) i e = ground arith

reselect-bounds :
    (before : Option Recording) (rs : List Recording) (i : ℕ)
    → reselect before rs ≡ some i
    → i < length rs
unfolding reselect
reselect-bounds none rs i e = first_of-bounds rs i e
reselect-bounds (some before) rs i e =
    ground (arith, first_of-bounds rs i, find_recording-bounds before.kind before.name 0 rs i)

-- The outcome of a load: it fails and leaves the recordings, or they are loaded.
abbrev pub Outcome : HelperData → HelperData × Bool → Type 0
Outcome h (t, false) = t ≡ h
Outcome h (t, true) = IsLoaded t

load_document-Outcome : (d : Document) (h : HelperData) → Outcome h (load_document d h)
unfolding load_document put_recordings
load_document-Outcome d h = if-elim (Outcome h) (not (is_version_11 d.version)) refl (
    option-cases (Outcome h) d.recordings (λ _. refl)
      (λ nodes _.
        let loaded = read_recordings-IsLoadable max_recordings nodes in
        record {
          few = loaded.0;
          loadable = loaded.1;
          selected = reselect-bounds (selected_entry h) (read_recordings max_recordings nodes);
        }))

-- Whatever the file holds, a load that fails leaves everything as it was, and one that succeeds
-- leaves at most 64 recordings, each with a name and between 1 and 65536 actions whose fields
-- are in range, and a selection that is one of them.
pub load_recordings-Outcome :
    (parse : Text → Option Document) (parsed : Option Document) (contents : Option Text)
    (h : HelperData)
    → Outcome h (load_recordings parse parsed contents h)
unfolding load_recordings
load_recordings-Outcome parse parsed contents h =
    option-cases (Outcome h) (find_document parse parsed contents) (λ _. refl)
      (λ d _. load_document-Outcome d h)
