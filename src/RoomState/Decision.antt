-- ===== src/RoomState/Decision.antt =====
-- The script decides as `decideControl` does, on the state as it is when the script runs.
use syncstudies.Base.{
  ◌≡◌, ◌≢◌, refl, sym, ◌∙◌, Bool, true, false, ◌&&◌, Option, none, some, arith, ◌⊎◌, inl, inr,
  Bool-cases, ◌↔◌,
}
use syncstudies.Base.Text.{String, str_eq}
use syncstudies.Base.Int.{ℤ, pos, ◌+ℤ◌, ◌-ℤ◌, ◌<ℤ◌, ltb_ℤ, -ℤ_parts}
use syncstudies.Timeline.{
  VideoAnchor, ControlDecision, accepted, rejected, stale_revision, recently_changed,
  decide_control, is_stale, is_locked, other_actor,
}
use syncstudies.RoomState.RedisHash.{JsNumber, Hash}
use syncstudies.RoomState.Codec.{num, or_null, anchor_from_hash}
use syncstudies.RoomState.Script.{
  ApplyControlArgs, ScriptReply, ScriptArgs, written, refused, to_number, lua_actor, lua_other,
  script_args, script_stale, script_locked, write_fields, transact_video, apply_atomic,
}

abbrev pub reply_of : ControlDecision → ℤ → ScriptReply
reply_of accepted rev = written (rev +ℤ pos 1)
reply_of (rejected reason) rev = refused reason rev

lua_actor-null : (v : Option String) → lua_actor v ≡ or_null v
lua_actor-null none = refl
lua_actor-null (some v) = refl

lua_other-other : (v : Option String) (actor : String) → lua_other v actor ≡ other_actor v actor
lua_other-other none actor = refl
lua_other-other (some v) actor = refl

abbrev pub has_actor : Option String → Bool
has_actor none = false
has_actor (some a) = true

-- The empty actor of a system control differs from every stored actor.
lua_other_system : (v : Option String) → lua_other (lua_actor v) "" ≡ has_actor (or_null v)
lua_other_system none = refl
lua_other_system (some v) = elim (Bool-cases (str_eq v "")) [ inl e ↦ rw e | inr e ↦ rw e (rw e) ]

abbrev pub system_lock : VideoAnchor → ℤ → Bool
system_lock a now_ms = has_actor a.last_actor_id && ltb_ℤ (now_ms -ℤ a.last_change_ms) (pos 0)

before_iff : (a b : ℤ) → (ltb_ℤ (a -ℤ b) (pos 0) ≡ true) ↔ (a <ℤ b)
before_iff a b = ground (arith, -ℤ_parts a b)

pub system_lock_iff :
    (a : VideoAnchor) (now_ms : ℤ)
    → (system_lock a now_ms ≡ true) ↔ ((a.last_actor_id ≢ none) × (now_ms <ℤ a.last_change_ms))
system_lock_iff a now_ms = by_actor a.last_actor_id
  where
    by_actor :
        (o : Option String)
        → ((has_actor o && ltb_ℤ (now_ms -ℤ a.last_change_ms) (pos 0)) ≡ true)
          ↔ ((o ≢ none) × (now_ms <ℤ a.last_change_ms))
    by_actor none = (λ e. cc, λ p. absurd (p.0 refl))
    by_actor (some s) =
        (λ e. (λ q. cc, (before_iff now_ms a.last_change_ms).0 e), λ p. (before_iff _ _).1 p.1)

module _ (js : JsNumber) where
  open js use {show, read-show}

  to_number-num : (v : Option String) → to_number js v ≡ num js v (pos 0)
  to_number-num none = refl
  to_number-num (some v) = refl

  to_number-show : (n : ℤ) → to_number js (some (show n)) ≡ n
  to_number-show n = rw (read-show n, to_number)

  pub script_stale-is_stale :
      (h : Hash) (args : ApplyControlArgs)
      → script_stale js h (script_args js args)
        ≡ is_stale (anchor_from_hash js h) args.expected_revision
  unfolding script_stale is_stale anchor_from_hash
  script_stale-is_stale h args =
      rw (to_number-show args.expected_revision, to_number-num (h "revision"))

  pub script_locked-is_locked :
      (h : Hash) (args : ApplyControlArgs) (actor : String)
      → args.actor_id ≡ some actor
      → script_locked js h (script_args js args)
        ≡ is_locked (anchor_from_hash js h) actor args.now_ms args.lock_ms
  unfolding script_locked is_locked anchor_from_hash
  script_locked-is_locked h args actor e = rw (
    e,
    lua_actor-null (h "lastActorId"),
    lua_other-other (or_null (h "lastActorId")) actor,
    to_number-show args.now_ms,
    to_number-show args.lock_ms,
    to_number-num (h "lastChangeMs"),
  )

  pub revision-num : (h : Hash) → to_number js (h "revision") ≡ (anchor_from_hash js h).revision
  unfolding anchor_from_hash
  revision-num h = to_number-num (h "revision")

  -- The script's three outcomes, by its two guards.
  pub transact_video-cases :
      (h : Hash) (args : ScriptArgs)
      → let rev = to_number js (h "revision") in
        ((script_stale js h args ≡ true)
          × (transact_video js h args ≡ (h, refused stale_revision rev)))
        ⊎ (((script_stale js h args ≡ false)
              × (script_locked js h args ≡ true)
              × (transact_video js h args ≡ (h, refused recently_changed rev)))
            ⊎ ((script_stale js h args ≡ false)
                × (script_locked js h args ≡ false)
                × (transact_video js h args
                    ≡ (write_fields js h args (rev +ℤ pos 1), written (rev +ℤ pos 1)))))
  unfolding transact_video
  transact_video-cases h args = elim (Bool-cases (script_stale js h args)) [
    | inl old ↦ inl (old, rw old)
    | inr new ↦ elim (Bool-cases (script_locked js h args)) [
      | inl held ↦ inr (inl (new, held, rw (new, held)))
      | inr free ↦ inr (inr (new, free, rw (new, free)))
    ]
  ]

  -- The script's reply to a person's control is what `decideControl` decides on the state that the
  -- script finds: the same reason for a refusal, the next revision for a write.
  pub apply_atomic-decides :
      (h : Hash) (args : ApplyControlArgs) (actor : String)
      → args.actor_id ≡ some actor
      → (apply_atomic js h args).1
        ≡ reply_of
            (decide_control
              (anchor_from_hash js h)
              args.expected_revision
              actor
              args.now_ms
              args.lock_ms)
            (anchor_from_hash js h).revision
  unfolding apply_atomic decide_control
  apply_atomic-decides h args actor e =
      rw
        (← script_stale-is_stale h args, ← script_locked-is_locked h args actor e, ← revision-num h)
        (elim (transact_video-cases h (script_args js args)) [
          | inl (old, t) ↦ rw (t, old)
          | inr (inl (new, held, t)) ↦ rw (t, new, held)
          | inr (inr (new, free, t)) ↦ rw (t, new, free)
        ])

  pub script_locked-system :
      (h : Hash) (args : ApplyControlArgs)
      → args.actor_id ≡ none
      → args.lock_ms ≡ pos 0
      → script_locked js h (script_args js args) ≡ system_lock (anchor_from_hash js h) args.now_ms
  unfolding script_locked anchor_from_hash
  script_locked-system h args system off = rw (
    system,
    off,
    lua_other_system (h "lastActorId"),
    to_number-show args.now_ms,
    to_number-show (pos 0),
    to_number-num (h "lastChangeMs"),
  )

  -- A system control with the lock disabled, at a revision that is not stale, is still refused for
  -- the lock when another node's clock runs ahead: exactly if a person made the last change and its
  -- time lies after `now_ms`.
  pub system_control-locked :
      (h : Hash) (args : ApplyControlArgs)
      → args.actor_id ≡ none
      → args.lock_ms ≡ pos 0
      → is_stale (anchor_from_hash js h) args.expected_revision ≡ false
      → ((apply_atomic js h args).1 ≡ refused recently_changed (anchor_from_hash js h).revision) ↔ (
          ((anchor_from_hash js h).last_actor_id ≢ none)
          × (args.now_ms <ℤ (anchor_from_hash js h).last_change_ms))
  unfolding apply_atomic
  system_control-locked h args system off fresh =
      elim (transact_video-cases h (script_args js args)) [
        | inl (old, t) ↦ cc (script_stale-is_stale h args)
        | inr (inl (new, held, t)) ↦ (
          λ _.
              (system_lock_iff (anchor_from_hash js h) args.now_ms).0
                (sym (script_locked-system h args system off) ∙ held),
          λ _. rw (t, revision-num h),
        )
        | inr (inr (new, free, t)) ↦ (
          λ e. cc t,
          λ p. cc (
            script_locked-system h args system off,
            (system_lock_iff (anchor_from_hash js h) args.now_ms).1 p,
          ),
        )
      ]
