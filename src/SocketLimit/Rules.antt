-- ===== src/SocketLimit/Rules.antt =====
-- The rules of apps/realtime/src/ratelimit/tokenBucket.ts.
use syncstudies.Base.{ℕ, Bool, true, false, Option, none, some}
use syncstudies.Base.Text.{String}

pub data Scope : Type 0 where
  redis local : Scope

pub record RateRule : Type 0 where
  pub limit : ℕ
  pub window_ms : ℕ
  pub burst : Option ℕ
  pub fail_open : Bool
  pub scope : Scope

-- The events of the client, `ClientToServerEvents`.
pub data Event : Type 0 where
  time_ping room_join room_leave room_resync video_set : Event
  video_control video_buffering video_report_drift chat_send chat_delete : Event
  chat_typing notes_block_focus notes_block_update notes_item_create notes_item_update : Event
  notes_item_delete checklist_create checklist_toggle checklist_reorder checklist_delete : Event
  draw_stroke draw_clear presence_update rtc_join rtc_leave : Event
  rtc_signal rtc_ice_refresh rtc_screenshare_claim rtc_screenshare_release host_kick : Event
  host_ban host_set_role host_transfer host_force_mute host_update_policy : Event
  host_end_room : Event

abbrev rule : ℕ → ℕ → Option ℕ → Bool → Scope → RateRule
rule limit window_ms burst fail_open scope = record {
  limit = limit;
  window_ms = window_ms;
  burst = burst;
  fail_open = fail_open;
  scope = scope;
}

abbrev pub limits : Event → RateRule
limits time_ping = rule 30 10_000 none true local
limits room_join = rule 10 60_000 none false redis
limits room_leave = rule 30 60_000 none true redis
limits room_resync = rule 6 60_000 none false redis
limits video_set = rule 10 60_000 none false redis
limits video_control = rule 8 10_000 none false redis
limits video_buffering = rule 6 10_000 none true redis
limits video_report_drift = rule 1 30_000 none true redis
limits chat_send = rule 5 5_000 (some 10) true redis
limits chat_delete = rule 20 60_000 none false redis
limits chat_typing = rule 1 3_000 none true redis
limits notes_block_focus = rule 10 10_000 none true redis
limits notes_block_update = rule 10 5_000 none true redis
limits notes_item_create = rule 20 60_000 none true redis
limits notes_item_update = rule 30 60_000 none true redis
limits notes_item_delete = rule 20 60_000 none false redis
limits checklist_create = rule 30 60_000 none true redis
limits checklist_toggle = rule 40 60_000 none true redis
limits checklist_reorder = rule 40 60_000 none true redis
limits checklist_delete = rule 20 60_000 none false redis
limits draw_stroke = rule 30 1_000 none true local
limits draw_clear = rule 10 10_000 none true redis
limits presence_update = rule 10 10_000 none true redis
limits rtc_join = rule 6 60_000 none false redis
limits rtc_leave = rule 10 60_000 none true redis
limits rtc_signal = rule 120 10_000 none false redis
limits rtc_ice_refresh = rule 4 600_000 none false redis
limits rtc_screenshare_claim = rule 6 60_000 none false redis
limits rtc_screenshare_release = rule 10 60_000 none true redis
limits host_kick = rule 20 60_000 none false redis
limits host_ban = rule 10 60_000 none false redis
limits host_set_role = rule 20 60_000 none false redis
limits host_transfer = rule 5 60_000 none false redis
limits host_force_mute = rule 20 60_000 none false redis
limits host_update_policy = rule 20 60_000 none false redis
limits host_end_room = rule 2 60_000 none false redis

abbrev pub event_text : Event → String
event_text time_ping = "time:ping"
event_text room_join = "room:join"
event_text room_leave = "room:leave"
event_text room_resync = "room:resync"
event_text video_set = "video:set"
event_text video_control = "video:control"
event_text video_buffering = "video:buffering"
event_text video_report_drift = "video:report_drift"
event_text chat_send = "chat:send"
event_text chat_delete = "chat:delete"
event_text chat_typing = "chat:typing"
event_text notes_block_focus = "notes:block_focus"
event_text notes_block_update = "notes:block_update"
event_text notes_item_create = "notes:item_create"
event_text notes_item_update = "notes:item_update"
event_text notes_item_delete = "notes:item_delete"
event_text checklist_create = "checklist:create"
event_text checklist_toggle = "checklist:toggle"
event_text checklist_reorder = "checklist:reorder"
event_text checklist_delete = "checklist:delete"
event_text draw_stroke = "draw:stroke"
event_text draw_clear = "draw:clear"
event_text presence_update = "presence:update"
event_text rtc_join = "rtc:join"
event_text rtc_leave = "rtc:leave"
event_text rtc_signal = "rtc:signal"
event_text rtc_ice_refresh = "rtc:ice_refresh"
event_text rtc_screenshare_claim = "rtc:screenshare_claim"
event_text rtc_screenshare_release = "rtc:screenshare_release"
event_text host_kick = "host:kick"
event_text host_ban = "host:ban"
event_text host_set_role = "host:set_role"
event_text host_transfer = "host:transfer"
event_text host_force_mute = "host:force_mute"
event_text host_update_policy = "host:update_policy"
event_text host_end_room = "host:end_room"

abbrev pub speaking_limit : RateRule
speaking_limit = rule 4 1_000 none true redis

abbrev pub strike_limit : ℕ
strike_limit = 3

abbrev pub strike_window_ms : ℕ
strike_window_ms = 60_000

abbrev pub cooldown_ms : ℕ
cooldown_ms = 60_000
