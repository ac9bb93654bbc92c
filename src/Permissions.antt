-- ===== src/Permissions.antt =====
-- packages/shared/src/permissions.ts, `canControlVideo` of packages/shared/src/video.ts and
-- `resolvePermissions` of apps/realtime/src/handlers/context.ts.
pub mod Order
pub mod Examples
use syncstudies.Base.{ℕ, Bool, true, false, not, ◌&&◌, ◌||◌, List, [], ◌∷◌, ltb}
use syncstudies.Timeline.{PlaybackControlPolicy, everyone, host_and_cohosts, host_only}

pub data Role : Type 0 where
  host co_host member guest : Role

abbrev pub role_rank : Role → ℕ
role_rank host = 3
role_rank co_host = 2
role_rank member = 1
role_rank guest = 0

abbrev pub role_eq : Role → Role → Bool
role_eq host host = true
role_eq co_host co_host = true
role_eq member member = true
role_eq guest guest = true
role_eq _ _ = false

pub data Permission : Type 0 where
  video_set chat_send chat_delete_any notes_edit checklist_edit : Permission
  annotate call_join screenshare : Permission
  host_kick host_ban host_set_role host_transfer host_force_mute host_policy host_end : Permission

unfoldable pub grants : Permission → List Role
grants video_set = host ∷ co_host ∷ []
grants chat_send = host ∷ co_host ∷ member ∷ guest ∷ []
grants chat_delete_any = host ∷ co_host ∷ []
grants notes_edit = host ∷ co_host ∷ member ∷ []
grants checklist_edit = host ∷ co_host ∷ member ∷ []
grants annotate = host ∷ co_host ∷ member ∷ []
grants call_join = host ∷ co_host ∷ member ∷ guest ∷ []
grants screenshare = host ∷ co_host ∷ member ∷ []
grants host_kick = host ∷ co_host ∷ []
grants host_ban = host ∷ []
grants host_set_role = host ∷ []
grants host_transfer = host ∷ []
grants host_force_mute = host ∷ co_host ∷ []
grants host_policy = host ∷ []
grants host_end = host ∷ []

includes : List Role → Role → Bool
includes [] r = false
includes (x ∷ xs) r = role_eq x r || includes xs r

unfoldable pub can : Role → Permission → Bool
unfolding grants includes
can role permission = includes (grants permission) role

unfoldable pub can_act_on : Role → Role → Bool
can_act_on actor target = ltb (role_rank target) (role_rank actor)

unfoldable pub can_control_video : Role → PlaybackControlPolicy → Bool
can_control_video guest policy = false
can_control_video role everyone = true
can_control_video role host_and_cohosts = role_eq role host || role_eq role co_host
can_control_video role host_only = role_eq role host

pub record RoomPolicy : Type 0 where
  pub playback_control : PlaybackControlPolicy
  pub chat_locked : Bool
  pub slow_mode_sec : ℕ
  pub wait_for_slow : Bool
  pub call_enabled : Bool
  pub screenshare_enabled : Bool
  pub annotations_enabled : Bool
  pub max_participants : ℕ

pub record ResolvedPermissions : Type 0 where
  pub role : Role
  pub can_control_video : Bool
  pub can_set_video : Bool
  pub can_send_chat : Bool
  pub can_delete_any_message : Bool
  pub can_edit_notes : Bool
  pub can_edit_checklist : Bool
  pub can_annotate : Bool
  pub can_join_call : Bool
  pub can_screen_share : Bool
  pub can_moderate : Bool
  pub can_manage_room : Bool

unfoldable pub resolve_permissions : Role → RoomPolicy → ResolvedPermissions
unfolding can can_control_video
resolve_permissions r policy = record {
  role = r;
  can_control_video = can_control_video r policy.playback_control;
  can_set_video = can r video_set;
  can_send_chat = can r chat_send && (not policy.chat_locked || can r chat_delete_any);
  can_delete_any_message = can r chat_delete_any;
  can_edit_notes = can r notes_edit;
  can_edit_checklist = can r checklist_edit;
  can_annotate = can r annotate && policy.annotations_enabled;
  can_join_call = can r call_join && policy.call_enabled;
  can_screen_share = can r screenshare && policy.screenshare_enabled;
  can_moderate = can r host_kick;
  can_manage_room = can r host_policy;
}
