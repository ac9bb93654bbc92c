-- ===== src/ClientStore/Status.antt =====
-- apps/web/lib/stores/room-store.ts: the reducers on the connection, the wait, the clock's offset
-- and the notices, and `syncStatusEquals` of apps/web/lib/sync/types.ts. The offset is counted in
-- microseconds.
use syncstudies.Base.{
  ℕ, suc, Bool, true, false, not, ◌&&◌, List, [], ◌∷◌, Option, none, some, if◌then◌else◌, ◌==◌,
}
use syncstudies.Base.Text.{String, str_eq}
use syncstudies.Base.Int.{ℤ, pos, negsuc, ◌-ℤ◌, ltb_ℤ, eq_ℤ}
use syncstudies.Timeline.{ControlRejectReason}
use syncstudies.ClientStore.Data.{
  RoomData, initial_data, ConnectionStatus, connecting, is_connected, is_reconnecting, lost,
  ConnectionState, JoinError, NoticeLevel, WaitingForSlow, SyncStatus, DriftState, idle, in_sync,
  correcting, resyncing, stalled, SyncQuality, good, poor, PlayerErrorInfo, idle_sync_status,
}

abbrev pub status_code : ConnectionStatus → ℕ
status_code connecting = 0
status_code is_connected = 1
status_code is_reconnecting = 2
status_code lost = 3

abbrev pub same_status : ConnectionStatus → ConnectionStatus → Bool
same_status a b = status_code a == status_code b

unfoldable pub next_connection : ConnectionState → ConnectionStatus → ℕ → ℤ → ConnectionState
next_connection cur status attempts now =
    let stamped : Bool = not (eq_ℤ cur.since (pos 0)) in
    if same_status cur.status status && (cur.attempts == attempts) && stamped then cur else record {
      status = status;
      since = if same_status cur.status status && stamped then cur.since else now;
      attempts = attempts;
    }

unfoldable pub set_connection : RoomData → ConnectionStatus → ℕ → ℤ → RoomData
set_connection st status attempts now = record st {
  connection = next_connection st.connection status attempts now;
}

abbrev pub same_ids : List String → List String → Bool
same_ids [] [] = true
same_ids [] (y ∷ ys) = false
same_ids (x ∷ xs) [] = false
same_ids (x ∷ xs) (y ∷ ys) = str_eq x y && same_ids xs ys

abbrev pub next_waiting : Option WaitingForSlow → Option WaitingForSlow → Option WaitingForSlow
next_waiting none next = next
next_waiting (some cur) none = none
next_waiting (some cur) (some next) =
    if eq_ℤ cur.until_server_ms next.until_server_ms && same_ids cur.user_ids next.user_ids
    then some cur
    else some next

unfoldable pub set_waiting : RoomData → Option WaitingForSlow → RoomData
set_waiting st waiting = record st { waiting = next_waiting st.waiting waiting }

-- An error of the code that is shown already does not replace it.
abbrev pub next_join_error : Option JoinError → Option JoinError → Option JoinError
next_join_error none error = error
next_join_error (some cur) none = none
next_join_error (some cur) (some error) =
    if str_eq cur.code error.code then some cur else some error

unfoldable pub set_join_error : RoomData → Option JoinError → RoomData
set_join_error st error = record st { join_error = next_join_error st.join_error error }

abbrev pub magnitude : ℤ → ℤ
magnitude (pos n) = pos n
magnitude (negsuc n) = pos (suc n)

unfoldable pub set_server_time_offset : RoomData → ℤ → RoomData
set_server_time_offset st offset =
    if ltb_ℤ (magnitude (st.server_time_offset_us -ℤ offset)) (pos 1_000)
    then st
    else record st { server_time_offset_us = offset }

unfoldable pub push_notice : RoomData → NoticeLevel → String → String → ℤ → RoomData
push_notice st level code message now = record st {
  notice = some (record { level = level; code = code; message = message; at = now });
}

unfoldable pub clear_notice : RoomData → RoomData
clear_notice st = record st { notice = none }

unfoldable pub note_rate_limited : RoomData → String → ℤ → ℤ → RoomData
note_rate_limited st event retry now = record st {
  rate_limit = some (record { event = event; retry_after_ms = retry; at = now });
}

unfoldable pub note_control_rejected : RoomData → ControlRejectReason → ℤ → RoomData
note_control_rejected st reason now = record st {
  control_rejection = some (record { reason = reason; at = now });
}

abbrev pub drift_code : DriftState → ℕ
drift_code idle = 0
drift_code in_sync = 1
drift_code correcting = 2
drift_code resyncing = 3
drift_code stalled = 4

abbrev pub quality_code : SyncQuality → ℕ
quality_code good = 0
quality_code poor = 1

abbrev pub same_flag : Bool → Bool → Bool
same_flag true b = b
same_flag false b = not b

-- By the code and the embedding flag; the message does not count.
abbrev pub same_player_error : Option PlayerErrorInfo → Option PlayerErrorInfo → Bool
same_player_error none none = true
same_player_error none (some b) = false
same_player_error (some a) none = false
same_player_error (some a) (some b) = eq_ℤ a.code b.code && same_flag a.embed_denied b.embed_denied

unfoldable pub sync_status_equals : SyncStatus → SyncStatus → Bool
sync_status_equals a b =
    (drift_code a.drift == drift_code b.drift)
    && eq_ℤ a.drift_sec b.drift_sec
    && (quality_code a.quality == quality_code b.quality)
    && (a.hard_seeks_last_minute == b.hard_seeks_last_minute)
    && same_flag a.auto_sync_paused b.auto_sync_paused
    && same_flag a.buffering b.buffering
    && same_flag a.needs_gesture b.needs_gesture
    && same_flag a.muted_for_autoplay b.muted_for_autoplay
    && same_player_error a.error b.error

abbrev pub or_idle : Option SyncStatus → SyncStatus
or_idle none = idle_sync_status
or_idle (some s) = s

unfoldable pub set_sync_status : RoomData → Option SyncStatus → RoomData
set_sync_status st status =
    if sync_status_equals st.sync (or_idle status) then st else record st { sync = or_idle status }

unfoldable pub reset : RoomData → RoomData
unfolding initial_data
reset st = initial_data
