-- ===== src/MenuHelper/Files/Saving.antt =====
-- SaveRecordings and LoadRecordings of src/xenomods/modules/MenuHelper.cpp are inverse on documents.
use xenomods.Base.{
  ℕ, zero, suc, ◌≤◌, ◌<◌, ◌^◌, true, false, ◌||◌, ◌!=◌, ◌≡◌, refl, ◌∙◌, ap, List, [], ◌∷◌, map,
  none, some, length, if_false, arith, if◌then◌else◌, same_text,
}
use xenomods.Targeting.{pos}
use xenomods.InputBuffer.State.{AcceptedAction}
use xenomods.MenuHelper.{
  Recording, RecordingKind, shop, menu, travel, HelperData, max_recordings, max_actions,
}
use xenomods.MenuHelper.Files.{
  RecordingNode, read_word, action_of, read_action, read_actions, is_blank, keep_recording,
  read_table, read_actions_of, read_recording, read_recordings, put_recordings, load_document,
  saved_document, recording_entry, action_entry, to_int64, kind_of, kind_text, positive_or_zero,
}
use xenomods.MenuHelper.Files.Loading.{IsValidAction, IsLoadable, All}

-- A loadable recording whose frame count is a std::int64_t.
pub record IsSavable (r : Recording) : Type 0 where
  pub loadable : IsLoadable r
  pub counted : r.last_playback_frames < 2 ^ 63

read_word-pos : (least n : ℕ) → least ≤ n → n < 2 ^ 32 → read_word least (some (pos n)) ≡ some n
unfolding read_word
read_word-pos least n l h = ground arith

read_action-action_entry :
    (a : AcceptedAction) → IsValidAction a → read_action (action_entry a) ≡ some a
unfolding read_action action_entry action_of
read_action-action_entry a v =
    rw
      (
        read_word-pos 1 a.input (omega (arith, v.input_some)) v.input_word,
        read_word-pos 1 a.layer (omega (arith, v.layer_some)) v.layer_word,
        read_word-pos 0 a.display (omega arith) v.display_word,
      )
      refl

read_actions-map :
    (room : ℕ) (actions : List AcceptedAction)
    → length actions ≤ room
    → All IsValidAction actions
    → read_actions room (map action_entry actions) ≡ actions
unfolding read_actions
read_actions-map zero [] h v = refl
read_actions-map zero (a ∷ rest) h v = absurd (omega (arith, h))
read_actions-map (suc room) [] h v = refl
read_actions-map (suc room) (a ∷ rest) h v =
    rw (read_action-action_entry a v.0, read_actions)
      (ap (◌∷◌ a) (read_actions-map room rest (omega (arith, h)) v.1))

kind_of-kind_text : (kind : RecordingKind) → kind_of (kind_text kind) ≡ kind
unfolding kind_of same_text
kind_of-kind_text shop = refl
kind_of-kind_text menu = refl
kind_of-kind_text travel = refl

frames_read :
    (n : ℕ) → n < 2 ^ 63 → positive_or_zero (if n != 0 then some (to_int64 n) else none) ≡ n
unfolding to_int64
frames_read n h = ground arith

keep_recording_loadable : (r : Recording) → IsLoadable r → keep_recording r ≡ some r
unfolding keep_recording
keep_recording_loadable r v = if_false none (empty_neither v.named v.played)
  where
    empty_neither :
        is_blank r.name ≡ false
        → is_blank r.actions ≡ false
        → (is_blank r.name || is_blank r.actions) ≡ false
    empty_neither p q = ground arith

-- The table that an entry is read from.
node_of : Recording → RecordingNode
node_of r = record {
  name = some r.name;
  kind = some (kind_text r.kind);
  last_elapsed_frames =
      if r.last_playback_frames != 0 then some (to_int64 r.last_playback_frames) else none;
  actions = some (map action_entry r.actions);
}

read_table-node_of :
    (r : Recording) → IsSavable r → read_table (node_of r) (map action_entry r.actions) ≡ r
unfolding read_table node_of
read_table-node_of r v =
    rw
      (
        read_actions-map max_actions r.actions v.loadable.fits v.loadable.valid,
        kind_of-kind_text r.kind,
        frames_read r.last_playback_frames v.counted,
      )
      refl

read_recording-recording_entry :
    (r : Recording) → IsSavable r → read_recording (recording_entry r) ≡ some r
unfolding read_recording recording_entry read_actions_of node_of
read_recording-recording_entry r v =
    ap keep_recording (read_table-node_of r v) ∙ keep_recording_loadable r v.loadable

read_recordings-map :
    (room : ℕ) (rs : List Recording)
    → length rs ≤ room
    → All IsSavable rs
    → read_recordings room (map recording_entry rs) ≡ rs
unfolding read_recordings
read_recordings-map zero [] h v = refl
read_recordings-map zero (r ∷ rest) h v = absurd (omega (arith, h))
read_recordings-map (suc room) [] h v = refl
read_recordings-map (suc room) (r ∷ rest) h v =
    rw (read_recording-recording_entry r v.0, read_recordings)
      (ap (◌∷◌ r) (read_recordings-map room rest (omega (arith, h)) v.1))

-- Recordings of the kind that the helper keeps, at most 64 of them and with frame counts below
-- 2 ^ 63, are what a load of the document that they were saved as restores.
pub load_document-saved_document :
    (rs : List Recording) (h : HelperData)
    → length rs ≤ max_recordings
    → All IsSavable rs
    → load_document (saved_document rs) h ≡ (put_recordings rs h, true)
unfolding load_document saved_document
load_document-saved_document rs h few v =
    ap (λ loaded. (put_recordings loaded h, true)) (read_recordings-map max_recordings rs few v)
