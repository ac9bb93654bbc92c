-- ===== src/Guard.antt =====
-- `guardRoomEvent` of apps/realtime/src/handlers/context.ts: what stands before every handler.
-- What the schema, the room's metadata and the participants answer is an argument; the limiter is
-- the modelled one. Log lines are left out, and so is the copy of the role on the socket.
pub mod Admit
pub mod Cooldown
pub mod Examples
use syncstudies.Base.{Bool, true, false, not, ◌&&◌, Option, none, some, if◌then◌else◌}
use syncstudies.Base.Text.{String}
use syncstudies.Base.Int.{ℤ}
use syncstudies.Permissions.{Role, Permission, RoomPolicy, can}
use syncstudies.SocketLimit.{Limiter, RateRule, RateVerdict, consume, apply_cooldown}

-- The codes of `GuardFailure`, in the order in which they are tried.
pub data GuardCode : Type 0 where
  rate_limited bad_payload not_in_room room_not_found room_ended not_permitted : GuardCode

pub record RoomMeta : Type 0 where
  pub is_active : Bool
  pub policy : RoomPolicy

-- `has_room` says whether the socket has both a room's id and its code.
pub record SocketData : Type 0 where
  pub socket_id : String
  pub user_id : String
  pub has_room : Bool

-- What the schema makes of the payload, and what the two stores answer.
pub record Answers (P : Type 0) : Type 0 where
  pub parsed : Option P
  pub meta : Option RoomMeta
  pub participant : Option Role

pub data GuardOutcome (P : Type 0) : Type 0 where
  fails : GuardCode → GuardOutcome P
  admits : P → RoomMeta → Role → GuardOutcome P

-- The limiter after the guard, its outcome, and whether it has disconnected the socket.
pub record Guarded (P : Type 0) : Type 0 where
  pub limiter : Limiter
  pub outcome : GuardOutcome P
  pub retry_after_ms : Option ℤ
  pub disconnected : Bool

-- `!opts.permission || can(role, opts.permission)`
abbrev pub permits : Option Permission → Role → Bool
permits none role = true
permits (some permission) role = can role permission

module _ {P : Type 0} where
  abbrev pub with_participant : P → RoomMeta → Option Permission → Option Role → GuardOutcome P
  with_participant p meta permission none = fails not_in_room
  with_participant p meta permission (some role) =
      if not (permits permission role) then fails not_permitted else admits p meta role

  abbrev pub with_meta : P → Option Permission → Option Role → Option RoomMeta → GuardOutcome P
  with_meta p permission participant none = fails room_not_found
  with_meta p permission participant (some meta) =
      if not meta.is_active
      then fails room_ended
      else with_participant p meta permission participant

  abbrev pub with_payload :
      Bool → Option Permission → Option Role → Option RoomMeta → Option P → GuardOutcome P
  with_payload has_room permission participant meta none = fails bad_payload
  with_payload has_room permission participant meta (some p) =
      if not has_room then fails not_in_room else with_meta p permission participant meta

  -- The answer to the limiter's verdict.
  unfoldable pub after_verdict :
      SocketData → Option Permission → Answers P → ℤ → Limiter × RateVerdict → Guarded P
  after_verdict socket permission answers now (l, verdict) =
      if not verdict.allowed
      then record {
        limiter = if verdict.disconnect then apply_cooldown l socket.user_id now else l;
        outcome = fails rate_limited;
        retry_after_ms = some verdict.retry_after_ms;
        disconnected = verdict.disconnect;
      }
      else record {
        limiter = l;
        outcome =
            with_payload socket.has_room permission answers.participant answers.meta answers.parsed;
        retry_after_ms = none;
        disconnected = false;
      }

  unfoldable pub guard_room_event :
      Limiter → SocketData → String → RateRule → Option Permission → Answers P → ℤ → Guarded P
  guard_room_event l socket key_event rule permission answers now =
      after_verdict socket permission answers now (consume l socket.socket_id key_event rule now)
