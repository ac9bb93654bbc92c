-- ===== src/Guard/Cooldown.antt =====
-- What becomes of a socket that the limiter has had enough of.
use mathlib.Core.Path.{subst}
use syncstudies.Base.{◌≡◌, refl, sym, true, not, Option, some, arith, if_either, if◌then◌else◌}
use syncstudies.Base.Text.{String, str_eq_refl}
use syncstudies.Base.Int.{ℤ, pos, ◌+ℤ◌, ltb_ℤ}
use syncstudies.Permissions.{Permission}
use syncstudies.SocketLimit.{Limiter, RateRule, consume, cooldown_ms, apply_cooldown, in_cooldown}
use syncstudies.Guard.{
  SocketData, Answers, fails, rate_limited, Guarded, after_verdict, guard_room_event,
}

-- A cooldown that is written lasts for its time.
in_cooldown-apply_cooldown :
    (l : Limiter) (user_id : String) (now t : ℤ)
    → (apply_cooldown l user_id now).redis_up ≡ true
    → in_cooldown (apply_cooldown l user_id now) user_id t ≡ some (ltb_ℤ t (now +ℤ pos cooldown_ms))
unfolding in_cooldown apply_cooldown
in_cooldown-apply_cooldown l user_id now t =
    if_either
      (λ (v : Limiter).
        v.redis_up ≡ true → in_cooldown v user_id t ≡ some (ltb_ℤ t (now +ℤ pos cooldown_ms)))
      l.redis_up _ _ (λ up u. rw (u, str_eq_refl user_id)) (λ down u. ground arith)

module _ {P : Type 0} where
  -- Whoever the guard disconnects has been refused for the rate, and, Redis being up, is in
  -- cooldown until a minute has passed, on whichever node they come back.
  pub guard_room_event-disconnects :
      (l : Limiter) (socket : SocketData) (key_event : String) (rule : RateRule)
      (permission : Option Permission) (answers : Answers P) (now t : ℤ)
      → (guard_room_event l socket key_event rule permission answers now).disconnected ≡ true
      → (guard_room_event l socket key_event rule permission answers now).limiter.redis_up ≡ true
      → ((guard_room_event l socket key_event rule permission answers now).outcome
          ≡ fails rate_limited)
        × (in_cooldown
              (guard_room_event l socket key_event rule permission answers now).limiter
              socket.user_id
              t
            ≡ some (ltb_ℤ t (now +ℤ pos cooldown_ms)))
  unfolding guard_room_event after_verdict
  guard_room_event-disconnects l socket key_event rule permission answers now t =
      let (l', verdict) = consume l socket.socket_id key_event rule now in
      if_either
        (λ (g : Guarded P).
          g.disconnected ≡ true
          → g.limiter.redis_up ≡ true
          → (g.outcome ≡ fails rate_limited)
            × (in_cooldown g.limiter socket.user_id t ≡ some (ltb_ℤ t (now +ℤ pos cooldown_ms))))
        (not verdict.allowed) _ _
        (λ over struck up. (
          refl,
          subst
              (λ b.
                (if b then apply_cooldown l' socket.user_id now else l').redis_up ≡ true
                → in_cooldown (if b then apply_cooldown l' socket.user_id now else l')
                    socket.user_id t
                  ≡ some (ltb_ℤ t (now +ℤ pos cooldown_ms)))
              (sym struck) (in_cooldown-apply_cooldown l' socket.user_id now t) up,
        ))
        (λ within struck up. ground arith)
