-- ===== src/MenuHelper/Files.antt =====
-- The file of the recordings: LoadRecordings and SaveRecordings of src/xenomods/modules/MenuHelper.cpp. What
-- toml++ finds in the file is a Document: each node with the values that are read of it, none where
-- a key is missing or has another type.
pub mod Loading
pub mod Saving
use xenomods.Base.{
  ℕ, zero, suc, ◌+◌, ◌-◌, ◌^◌, Bool, true, false, not, ◌&&◌, ◌||◌, ◌==◌, ◌!=◌, ltb, leb, List, [],
  ◌∷◌, map, Option, none, some, Text, same_text, if◌then◌else◌, get_elem?,
}
use xenomods.Targeting.{ℤ, pos, negsuc}
use xenomods.InputBuffer.State.{AcceptedAction}
use xenomods.MenuHelper.{
  RecordingKind, shop, menu, travel, Recording, HelperData, max_recordings, max_actions,
}
use xenomods.MenuHelper.Playback.{find_recording}
use xenomods.MenuHelper.Repair.{repair_recording_name_quotes}

-- An entry of "actions", if it is a table.
pub record ActionNode : Type 0 where
  pub input : Option ℤ
  pub layer : Option ℤ
  pub display : Option ℤ

-- An entry of "recordings", if it is a table.
pub record RecordingNode : Type 0 where
  pub name : Option Text
  pub kind : Option Text
  pub last_elapsed_frames : Option ℤ
  pub actions : Option (List (Option ActionNode))

pub record Document : Type 0 where
  pub version : Option ℤ
  pub recordings : Option (List (Option RecordingNode))

-- "menu", "travel" and "shop"
abbrev pub menu_text : Text
menu_text = 109 ∷ 101 ∷ 110 ∷ 117 ∷ []

abbrev pub travel_text : Text
travel_text = 116 ∷ 114 ∷ 97 ∷ 118 ∷ 101 ∷ 108 ∷ []

abbrev pub shop_text : Text
shop_text = 115 ∷ 104 ∷ 111 ∷ 112 ∷ []

-- A std::uint32_t of at least `least`.
unfoldable pub read_word : (least : ℕ) → Option ℤ → Option ℕ
read_word least none = none
read_word least (some (negsuc n)) = none
read_word least (some (pos n)) = if leb least n && ltb n (2 ^ 32) then some n else none

-- The action of an entry, if it has one.
unfoldable pub action_of : (input layer display : Option ℕ) → Option AcceptedAction
action_of (some input) (some layer) (some display) =
    some (record { input = input; layer = layer; display = display })
action_of _ _ _ = none

unfoldable pub read_action : Option ActionNode → Option AcceptedAction
unfolding read_word action_of
read_action none = none
read_action (some node) =
    action_of (read_word 1 node.input) (read_word 1 node.layer) (read_word 0 node.display)

-- The loop over "actions", while there is room for more.
unfoldable pub read_actions : (room : ℕ) → List (Option ActionNode) → List AcceptedAction
unfolding read_action
read_actions zero nodes = []
read_actions (suc room) [] = []
read_actions (suc room) (node ∷ rest) = elim (read_action node) [
  | none ↦ read_actions (suc room) rest
  | some action ↦ action ∷ read_actions room rest
]

abbrev pub text_or : Text → Option Text → Text
text_or other none = other
text_or other (some text) = text

unfoldable pub kind_of : Text → RecordingKind
kind_of text =
    if same_text text menu_text then menu else if same_text text travel_text then travel else shop

abbrev pub positive_or_zero : Option ℤ → ℕ
positive_or_zero none = 0
positive_or_zero (some (pos n)) = n
positive_or_zero (some (negsuc n)) = 0

abbrev pub is_blank {ℓ} : {A : Type ℓ} → List A → Bool
is_blank [] = true
is_blank (x ∷ xs) = false

-- A recording is kept if it has a name and actions.
unfoldable pub keep_recording : Recording → Option Recording
keep_recording r = if is_blank r.name || is_blank r.actions then none else some r

unfoldable pub read_table : RecordingNode → List (Option ActionNode) → Recording
unfolding read_actions kind_of
read_table node actions = record {
  name = text_or [] node.name;
  actions = read_actions max_actions actions;
  last_playback_frames = positive_or_zero node.last_elapsed_frames;
  kind = kind_of (text_or shop_text node.kind);
}

unfoldable pub read_actions_of :
    RecordingNode → Option (List (Option ActionNode)) → Option Recording
unfolding read_table keep_recording
read_actions_of node none = none
read_actions_of node (some actions) = keep_recording (read_table node actions)

unfoldable pub read_recording : Option RecordingNode → Option Recording
unfolding read_actions_of
read_recording none = none
read_recording (some node) = read_actions_of node node.actions

-- The loop over "recordings", while there is room for more.
unfoldable pub read_recordings : (room : ℕ) → List (Option RecordingNode) → List Recording
unfolding read_recording
read_recordings zero nodes = []
read_recordings (suc room) [] = []
read_recordings (suc room) (node ∷ rest) = elim (read_recording node) [
  | none ↦ read_recordings (suc room) rest
  | some recording ↦ recording ∷ read_recordings room rest
]

-- The recording that is selected.
unfoldable pub selected_entry : HelperData → Option Recording
selected_entry h = elim h.selected_recording [ none ↦ none | some i ↦ get_elem? h.recordings i ]

-- The first recording, if there is one.
abbrev pub first_of : List Recording → Option ℕ
first_of [] = none
first_of (r ∷ rs) = some 0

-- The selection among what was loaded: the recording of the same kind and name as before.
unfoldable pub reselect : Option Recording → List Recording → Option ℕ
unfolding find_recording
reselect none loaded = first_of loaded
reselect (some before) loaded = elim (find_recording before.kind before.name 0 loaded) [
  | none ↦ first_of loaded
  | some i ↦ some i
]

unfoldable pub put_recordings : List Recording → HelperData → HelperData
unfolding selected_entry reselect
put_recordings loaded h = record h {
  recordings = loaded;
  selected_recording = reselect (selected_entry h) loaded;
}

abbrev pub is_version_11 : Option ℤ → Bool
is_version_11 none = false
is_version_11 (some (pos n)) = n == 11
is_version_11 (some (negsuc n)) = false

-- LoadRecordings from the document on.
unfoldable pub load_document : Document → HelperData → HelperData × Bool
unfolding read_recordings put_recordings
load_document d h = if not (is_version_11 d.version) then (h, false) else elim d.recordings [
  | none ↦ (h, false)
  | some nodes ↦ (put_recordings (read_recordings max_recordings nodes) h, true)
]

-- The document: the file's, or that of its contents once their quotes are repaired.
unfoldable pub find_document :
    (parse : Text → Option Document)
    → (parsed : Option Document) → (contents : Option Text) → Option Document
find_document parse (some d) contents = some d
find_document parse none none = none
find_document parse none (some []) = none
find_document parse none (some (c ∷ cs)) = parse (repair_recording_name_quotes (c ∷ cs))

unfoldable pub load_recordings :
    (parse : Text → Option Document)
    → (parsed : Option Document) → (contents : Option Text) → HelperData
    → HelperData × Bool
unfolding find_document load_document
load_recordings parse parsed contents h = elim (find_document parse parsed contents) [
  | none ↦ (h, false)
  | some d ↦ load_document d h
]

-- The document that SaveRecordings writes. A std::uint64_t from 2 ^ 63 on is negative as a
-- std::int64_t.
unfoldable pub to_int64 : ℕ → ℤ
to_int64 n = if ltb n (2 ^ 63) then pos n else negsuc (2 ^ 64 - 1 - n)

abbrev pub kind_text : RecordingKind → Text
kind_text shop = shop_text
kind_text menu = menu_text
kind_text travel = travel_text

unfoldable pub action_entry : AcceptedAction → Option ActionNode
action_entry a = some (record {
  input = some (pos a.input);
  layer = some (pos a.layer);
  display = some (pos a.display);
})

unfoldable pub recording_entry : Recording → Option RecordingNode
unfolding action_entry to_int64
recording_entry r = some (record {
  name = some r.name;
  kind = some (kind_text r.kind);
  last_elapsed_frames =
      if r.last_playback_frames != 0 then some (to_int64 r.last_playback_frames) else none;
  actions = some (map action_entry r.actions);
})

unfoldable pub saved_document : List Recording → Document
unfolding recording_entry
saved_document rs = record { version = some (pos 11); recordings = some (map recording_entry rs) }
