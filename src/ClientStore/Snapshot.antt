-- ===== src/ClientStore/Snapshot.antt =====
-- apps/web/lib/stores/room-store.ts: `applySnapshot`, `applyRoomPatch`, `setHost` and `setVideo`.
use syncstudies.Base.{
  ℕ, Bool, true, false, ◌&&◌, List, [], ◌∷◌, Option, none, some, if◌then◌else◌, leb, length,
}
use syncstudies.Base.Text.{String, str_eq}
use syncstudies.Base.Int.{ltb_ℤ}
use syncstudies.Timeline.{VideoAnchor, PlaybackControlPolicy}
use syncstudies.Permissions.{RoomPolicy}
use syncstudies.ClientStore.Data.{RoomData, RoomView, RoomSnapshot, MessageView, ChatMessage}
use syncstudies.ClientStore.Merge.{JsText, merge_messages}
use syncstudies.ClientStore.Lists.{sort_participants, sort_blocks, sort_note_items, sort_checklist}
use syncstudies.ClientStore.Messages.{first_id}

abbrev pub initial_message_count : ℕ
initial_message_count = 50

abbrev pub message_backfill_max : ℕ
message_backfill_max = 200

abbrev pub first_view_id : List MessageView → Option String
first_view_id [] = none
first_view_id (v ∷ vs) = some v.id

abbrev pub is_none {ℓ} : {A : Type ℓ} → Option A → Bool
is_none none = true
is_none (some a) = false

abbrev pub or_first : Option String → Option String → Option String
or_first none second = second
or_first (some id) second = some id

unfoldable pub is_truncated : RoomSnapshot → Bool → Bool
is_truncated snapshot backfilled = backfilled && leb message_backfill_max (length snapshot.messages)

unfoldable pub snapshot_cursor : RoomSnapshot → Bool → List ChatMessage → Option String
snapshot_cursor snapshot truncated messages =
    or_first (if truncated then first_view_id snapshot.messages else none) (first_id messages)

unfoldable pub snapshot_has_more : RoomData → RoomSnapshot → Bool → Bool
snapshot_has_more st snapshot truncated =
    if truncated
    then true
    else if is_none st.history.cursor
    then leb initial_message_count (length snapshot.messages)
    else st.history.has_more

unfoldable pub apply_snapshot : JsText → RoomData → RoomSnapshot → Bool → RoomData
apply_snapshot js st snapshot backfilled =
    let messages : List ChatMessage = merge_messages js st.messages snapshot.messages in
    let truncated : Bool = is_truncated snapshot backfilled in
    record st {
      room = some snapshot.room;
      policy = some snapshot.policy;
      participants = sort_participants js snapshot.participants;
      video = snapshot.video;
      you = some snapshot.you;
      join_error = none;
      waiting = none;
      messages = messages;
      blocks = sort_blocks js snapshot.notes.blocks;
      notes_version = snapshot.notes.version;
      block_locks = λ id. none;
      note_items = sort_note_items snapshot.note_items;
      checklist = sort_checklist js snapshot.checklist;
      history = record {
        cursor = snapshot_cursor snapshot truncated messages;
        has_more = snapshot_has_more st snapshot truncated;
        loading = false;
        error = none;
      };
    }

-- `Partial<RoomPolicy & { name, topic }>`
pub record RoomPatch : Type 0 where
  pub name : Option String
  pub topic : Option (Option String)
  pub playback_control : Option PlaybackControlPolicy
  pub chat_locked : Option Bool
  pub slow_mode_sec : Option ℕ
  pub wait_for_slow : Option Bool
  pub call_enabled : Option Bool
  pub screenshare_enabled : Option Bool
  pub annotations_enabled : Option Bool
  pub max_participants : Option ℕ

abbrev pub given {ℓ} : {A : Type ℓ} → Option A → A → A
given none old = old
given (some new) old = new

abbrev pub patch_room : RoomView → RoomPatch → RoomView
patch_room room patch = record room {
  name = given patch.name room.name;
  topic = given patch.topic room.topic;
}

abbrev pub patch_policy : RoomPolicy → RoomPatch → RoomPolicy
patch_policy policy patch = record {
  playback_control = given patch.playback_control policy.playback_control;
  chat_locked = given patch.chat_locked policy.chat_locked;
  slow_mode_sec = given patch.slow_mode_sec policy.slow_mode_sec;
  wait_for_slow = given patch.wait_for_slow policy.wait_for_slow;
  call_enabled = given patch.call_enabled policy.call_enabled;
  screenshare_enabled = given patch.screenshare_enabled policy.screenshare_enabled;
  annotations_enabled = given patch.annotations_enabled policy.annotations_enabled;
  max_participants = given patch.max_participants policy.max_participants;
}

abbrev pub patched_room : RoomData → Option RoomView → Option RoomPolicy → RoomPatch → RoomData
patched_room st none policy patch = st
patched_room st (some room) none patch = st
patched_room st (some room) (some policy) patch = record st {
  room = some (patch_room room patch);
  policy = some (patch_policy policy patch);
}

unfoldable pub apply_room_patch : RoomData → RoomPatch → RoomData
apply_room_patch st patch = patched_room st st.room st.policy patch

abbrev pub with_host : RoomData → Option RoomView → String → RoomData
with_host st none host = st
with_host st (some room) host =
    if str_eq room.host_id host
    then st
    else record st { room = some (record room { host_id = host }) }

unfoldable pub set_host : RoomData → String → RoomData
set_host st host = with_host st st.room host

unfoldable pub set_video : RoomData → VideoAnchor → RoomData
set_video st anchor =
    if ltb_ℤ anchor.revision st.video.revision then st else record st { video = anchor }
