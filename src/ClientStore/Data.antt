-- ===== src/ClientStore/Data.antt =====
-- apps/web/lib/stores/room-store.ts: the types of the store, and packages/shared/src/events.ts: the
-- views that the server sends. Moments in the video are scaled as in Timeline.
use syncstudies.Base.{ℕ, Bool, false, List, [], Option, none}
use syncstudies.Base.Text.{String}
use syncstudies.Base.Int.{ℤ, pos}
use syncstudies.Timeline.{VideoAnchor, idle_anchor, ControlRejectReason}
use syncstudies.Permissions.{Role, RoomPolicy, ResolvedPermissions}

pub data ConnState : Type 0 where
  connected reconnecting : ConnState

pub record PublicUser : Type 0 where
  pub id : String
  pub handle : String
  pub display_name : String
  pub avatar_url : Option String

pub record Participant : Type 0 where
  pub user : PublicUser
  pub role : Role
  pub conn_state : ConnState
  pub joined_at : ℤ
  pub in_call : Bool
  pub muted : Bool
  pub cam_on : Bool
  pub sharing : Bool
  pub speaking : Bool
  pub force_muted : Bool
  pub buffering : Bool

pub record RoomView : Type 0 where
  pub id : String
  pub code : String
  pub name : String
  pub topic : Option String
  pub host_id : String
  pub created_at : ℤ

pub data MessageKind : Type 0 where
  user system : MessageKind

pub record MessageView : Type 0 where
  pub id : String
  pub room_id : String
  pub author : Option PublicUser
  pub client_msg_id : Option String
  pub body : String
  pub kind : MessageKind
  pub reply_to_id : Option String
  pub video_ts : Option ℤ
  pub created_at : ℤ
  pub deleted_at : Option ℤ

pub data NoteItemKind : Type 0 where
  note question bookmark : NoteItemKind

pub record NoteItemView : Type 0 where
  pub id : String
  pub kind : NoteItemKind
  pub author : Option PublicUser
  pub body : String
  pub video_ref : Option String
  pub video_ts : Option ℤ
  pub resolved_at : Option ℤ
  pub created_at : ℤ

pub record ChecklistItemView : Type 0 where
  pub id : String
  pub label : String
  pub position : ℤ
  pub created_by : Option PublicUser
  pub completed_at : Option ℤ
  pub completed_by : Option PublicUser
  pub video_ts : Option ℤ

pub record NoteBlockView : Type 0 where
  pub id : String
  pub text : String
  pub version : ℕ
  pub position : ℤ

pub record NotesDocView : Type 0 where
  pub content : String
  pub blocks : List NoteBlockView
  pub version : ℕ
  pub updated_at : ℤ

pub record RoomSnapshot : Type 0 where
  pub room : RoomView
  pub policy : RoomPolicy
  pub participants : List Participant
  pub video : VideoAnchor
  pub server_ms : ℤ
  pub messages : List MessageView
  pub notes : NotesDocView
  pub note_items : List NoteItemView
  pub checklist : List ChecklistItemView
  pub you : ResolvedPermissions

-- What a client knows of the fate of a message.
pub data Delivery : Type 0 where
  sent sending failed : Delivery

pub record ChatMessage : Type 0 where
  pub view : MessageView
  pub delivery : Delivery

pub data ConnectionStatus : Type 0 where
  connecting is_connected is_reconnecting lost : ConnectionStatus

pub record ConnectionState : Type 0 where
  pub status : ConnectionStatus
  pub since : ℤ
  pub attempts : ℕ

pub record JoinError : Type 0 where
  pub code : String
  pub message : String

pub data NoticeLevel : Type 0 where
  info warn : NoticeLevel

pub record RoomNotice : Type 0 where
  pub level : NoticeLevel
  pub code : String
  pub message : String
  pub at : ℤ

pub record RateLimitNotice : Type 0 where
  pub event : String
  pub retry_after_ms : ℤ
  pub at : ℤ

pub record ControlRejection : Type 0 where
  pub reason : ControlRejectReason
  pub at : ℤ

pub record WaitingForSlow : Type 0 where
  pub user_ids : List String
  pub until_server_ms : ℤ

pub record ChatHistory : Type 0 where
  pub cursor : Option String
  pub has_more : Bool
  pub loading : Bool
  pub error : Option String

pub record BlockLock : Type 0 where
  pub user_id : String
  pub until_server_ms : ℤ

pub record PlayerErrorInfo : Type 0 where
  pub code : ℤ
  pub embed_denied : Bool
  pub message : String

pub data DriftState : Type 0 where
  idle in_sync correcting resyncing stalled : DriftState

pub data SyncQuality : Type 0 where
  good poor : SyncQuality

pub record SyncStatus : Type 0 where
  pub drift : DriftState
  pub drift_sec : ℤ
  pub quality : SyncQuality
  pub hard_seeks_last_minute : ℕ
  pub auto_sync_paused : Bool
  pub buffering : Bool
  pub error : Option PlayerErrorInfo
  pub needs_gesture : Bool
  pub muted_for_autoplay : Bool

abbrev pub idle_sync_status : SyncStatus
idle_sync_status = record {
  drift = idle;
  drift_sec = pos 0;
  quality = good;
  hard_seeks_last_minute = 0;
  auto_sync_paused = false;
  buffering = false;
  error = none;
  needs_gesture = false;
  muted_for_autoplay = false;
}

pub record RoomData : Type 0 where
  pub room : Option RoomView
  pub policy : Option RoomPolicy
  pub participants : List Participant
  pub video : VideoAnchor
  pub sync : SyncStatus
  pub you : Option ResolvedPermissions
  pub connection : ConnectionState
  pub join_error : Option JoinError
  pub server_time_offset_us : ℤ
  pub control_rejection : Option ControlRejection
  pub waiting : Option WaitingForSlow
  pub messages : List ChatMessage
  pub history : ChatHistory
  pub notice : Option RoomNotice
  pub rate_limit : Option RateLimitNotice
  pub blocks : List NoteBlockView
  pub notes_version : ℕ
  pub block_locks : String → Option BlockLock
  pub note_items : List NoteItemView
  pub checklist : List ChecklistItemView

unfoldable pub initial_data : RoomData
initial_data = record {
  room = none;
  policy = none;
  participants = [];
  video = idle_anchor;
  sync = idle_sync_status;
  you = none;
  connection = record { status = connecting; since = pos 0; attempts = 0 };
  join_error = none;
  server_time_offset_us = pos 0;
  control_rejection = none;
  waiting = none;
  messages = [];
  history = record { cursor = none; has_more = false; loading = false; error = none };
  notice = none;
  rate_limit = none;
  blocks = [];
  notes_version = 0;
  block_locks = λ id. none;
  note_items = [];
  checklist = [];
}
