-- ===== src/Guard/Admit.antt =====
-- Whom the guard lets through.
use syncstudies.Base.{◌≡◌, ◌↔◌, Bool, true, not, Option, none, some, arith, if_either}
use syncstudies.Base.Text.{String}
use syncstudies.Base.Int.{ℤ}
use syncstudies.Permissions.{Role, Permission}
use syncstudies.SocketLimit.{Limiter, RateRule, consume}
use syncstudies.Guard.{
  RoomMeta, SocketData, Answers, admits, Guarded, permits, with_payload, after_verdict,
  guard_room_event,
}

module _ {P : Type 0} where
  -- All that the guard asks, past the limiter.
  abbrev pub Entitled : Bool → Option Permission → Answers P → P → RoomMeta → Role → Type 0
  Entitled has_room permission answers p meta role =
      (answers.parsed ≡ some p)
      × (has_room ≡ true)
      × (answers.meta ≡ some meta)
      × (meta.is_active ≡ true)
      × (answers.participant ≡ some role)
      × (permits permission role ≡ true)

  with_payload-admits :
      (has_room : Bool) (permission : Option Permission) (participant : Option Role)
      (meta : Option RoomMeta) (parsed : Option P) (p : P) (m : RoomMeta) (role : Role)
      → (with_payload has_room permission participant meta parsed ≡ admits p m role) ↔ (
          (parsed ≡ some p)
          × (has_room ≡ true)
          × (meta ≡ some m)
          × (m.is_active ≡ true)
          × (participant ≡ some role)
          × (permits permission role ≡ true))
  with_payload-admits has_room permission participant meta none p m role = ground arith
  with_payload-admits has_room permission participant none (some q) p m role = ground arith
  with_payload-admits has_room permission none (some n) (some q) p m role = ground arith
  with_payload-admits has_room permission (some r) (some n) (some q) p m role = ground arith

  -- The guard admits a request exactly when the limiter allows it, its payload is valid, its socket
  -- is in a room, that room is known and active, its sender is still among the participants, and the
  -- role that stands there has the permission asked for, if one is. It admits it with that role.
  pub guard_room_event-admits :
      (l : Limiter) (socket : SocketData) (key_event : String) (rule : RateRule)
      (permission : Option Permission) (answers : Answers P) (now : ℤ) (p : P) (meta : RoomMeta)
      (role : Role)
      → ((guard_room_event l socket key_event rule permission answers now).outcome
          ≡ admits p meta role)
        ↔ (((consume l socket.socket_id key_event rule now).1.allowed ≡ true)
            × Entitled socket.has_room permission answers p meta role)
  unfolding guard_room_event after_verdict
  guard_room_event-admits l socket key_event rule permission answers now p meta role =
      if_either
        (λ (g : Guarded P). (g.outcome ≡ admits p meta role) ↔ (
          ((consume l socket.socket_id key_event rule now).1.allowed ≡ true)
          × Entitled socket.has_room permission answers p meta role))
        (not (consume l socket.socket_id key_event rule now).1.allowed) _ _ (λ over. ground arith)
        (λ within.
          let asked =
            with_payload-admits socket.has_room permission answers.participant answers.meta
              answers.parsed p meta role in
          (λ e. (ground arith, asked.0 e), λ (_, h). asked.1 h))
