-- ===== src/RoomState/Script.antt =====
-- transactVideo.lua, and `applyAtomic`, which calls it.
use syncstudies.Base.{Bool, false, not, ◌&&◌, List, [], ◌∷◌, Option, none, some, if◌then◌else◌}
use syncstudies.Base.Text.{String, str_eq}
use syncstudies.Base.Int.{ℤ, pos, ◌+ℤ◌, ◌-ℤ◌, ltb_ℤ, eq_ℤ}
use syncstudies.Timeline.{VideoAnchor, ControlRejectReason, stale_revision, recently_changed}
use syncstudies.RoomState.RedisHash.{Hash, hset, JsNumber}
use syncstudies.RoomState.Codec.{str, status_text}

-- ARGV[1] to ARGV[8], and the trailing pairs. ARGV[9] only sets the key's expiry.
pub record ScriptArgs : Type 0 where
  pub expected_revision : String
  pub status : String
  pub anchor_pos : String
  pub anchor_server_ms : String
  pub rate : String
  pub actor_id : String
  pub now_ms : String
  pub lock_ms : String
  pub extra : List (String × String)

-- `{1, 'ok', rev}` or `{0, '<reason>', rev}`; the third number is `reply_revision`.
pub data ScriptReply : Type 0 where
  written : ℤ → ScriptReply
  refused : ControlRejectReason → ℤ → ScriptReply

abbrev pub reply_revision : ScriptReply → ℤ
reply_revision (written r) = r
reply_revision (refused _ r) = r

abbrev pub hset_all : Hash → List (String × String) → Hash
hset_all h [] = h
hset_all h ((field, value) ∷ more) = hset_all (hset h field value) more

-- An absent field is `false` in Lua, and the empty actor is made so.
abbrev pub lua_actor : Option String → Option String
lua_actor none = none
lua_actor (some a) = if str_eq a "" then none else some a

abbrev pub lua_other : Option String → String → Bool
lua_other none actor = false
lua_other (some a) actor = not (str_eq a actor)

-- ApplyControlArgs, less the room's id.
pub record ApplyControlArgs : Type 0 where
  pub next : VideoAnchor
  pub expected_revision : ℤ
  pub actor_id : Option String
  pub now_ms : ℤ
  pub lock_ms : ℤ
  pub extra : List (String × String)

module _ (js : JsNumber) where
  open js use {show, read}

  -- `tonumber(x) or 0`
  abbrev pub to_number : Option String → ℤ
  to_number none = pos 0
  to_number (some v) = elim (read v) [ none ↦ pos 0 | some n ↦ n ]

  unfoldable pub write_fields : Hash → ScriptArgs → ℤ → Hash
  write_fields h args rev =
      let h1 : Hash = hset h "revision" (show rev) in
      let h2 : Hash = hset h1 "status" args.status in
      let h3 : Hash = hset h2 "anchorPos" args.anchor_pos in
      let h4 : Hash = hset h3 "anchorServerMs" args.anchor_server_ms in
      let h5 : Hash = hset h4 "rate" args.rate in
      let h6 : Hash = hset h5 "lastActorId" args.actor_id in
      let h7 : Hash = hset h6 "lastChangeMs" args.now_ms in hset_all h7 args.extra

  unfoldable pub script_stale : Hash → ScriptArgs → Bool
  script_stale h args =
      let expected = to_number (some args.expected_revision) in
      not (ltb_ℤ expected (pos 0)) && not (eq_ℤ expected (to_number (h "revision")))

  unfoldable pub script_locked : Hash → ScriptArgs → Bool
  script_locked h args =
      lua_other (lua_actor (h "lastActorId")) args.actor_id
      && ltb_ℤ (to_number (some args.now_ms) -ℤ to_number (h "lastChangeMs"))
          (to_number (some args.lock_ms))

  unfoldable pub transact_video : Hash → ScriptArgs → Hash × ScriptReply
  transact_video h args =
      let rev = to_number (h "revision") in
      if script_stale h args
      then (h, refused stale_revision rev)
      else if script_locked h args
      then (h, refused recently_changed rev)
      else (write_fields h args (rev +ℤ pos 1), written (rev +ℤ pos 1))

  abbrev pub script_args : ApplyControlArgs → ScriptArgs
  script_args args = record {
    expected_revision = show args.expected_revision;
    status = status_text args.next.status;
    anchor_pos = show args.next.anchor_position_sec;
    anchor_server_ms = show args.next.anchor_server_ms;
    rate = show args.next.playback_rate;
    actor_id = str args.actor_id;
    now_ms = show args.now_ms;
    lock_ms = show args.lock_ms;
    extra = args.extra;
  }

  unfoldable pub apply_atomic : Hash → ApplyControlArgs → Hash × ScriptReply
  unfolding transact_video
  apply_atomic h args = transact_video h (script_args args)
