-- ===== src/RoomState/Codec.antt =====
-- RoomStore.ts: the anchor as a Redis hash, and back.
use syncstudies.Base.{Option, none, some, if◌then◌else◌}
use syncstudies.Base.Text.{String, str_eq}
use syncstudies.Base.Int.{ℤ, pos}
use syncstudies.Timeline.{
  VideoProvider, youtube, file, PlaybackStatus, idle, playing, paused, ended, VideoAnchor,
  normal_rate,
}
use syncstudies.RoomState.RedisHash.{Hash, empty_hash, hset, JsNumber}

abbrev pub provider_text : VideoProvider → String
provider_text youtube = "youtube"
provider_text file = "file"
provider_text VideoProvider.none = "none"

abbrev pub status_text : PlaybackStatus → String
status_text idle = "idle"
status_text playing = "playing"
status_text paused = "paused"
status_text ended = "ended"

-- `v ?? ''`
abbrev pub str : Option String → String
str none = ""
str (some v) = v

abbrev pub or_null : Option String → Option String
or_null none = none
or_null (some v) = if str_eq v "" then none else some v

-- `PROVIDERS.find((p) => p === v) ?? 'none'`
abbrev pub as_provider : Option String → VideoProvider
as_provider none = VideoProvider.none
as_provider (some v) =
    if str_eq v "youtube" then youtube else if str_eq v "file" then file else VideoProvider.none

abbrev pub as_status : Option String → PlaybackStatus
as_status none = idle
as_status (some v) =
    if str_eq v "idle"
    then idle
    else if str_eq v "playing"
    then playing
    else if str_eq v "paused"
    then paused
    else if str_eq v "ended"
    then ended
    else idle

module _ (js : JsNumber) where
  open js use {show, read}

  abbrev pub num : Option String → ℤ → ℤ
  num none fallback = fallback
  num (some v) fallback = elim (read v) [ none ↦ fallback | some n ↦ n ]

  abbrev pub num_or_null : Option String → Option ℤ
  num_or_null v = elim (or_null v) [ none ↦ none | some s ↦ read s ]

  unfoldable pub anchor_from_hash : Hash → VideoAnchor
  anchor_from_hash hash = record {
    provider = as_provider (hash "provider");
    video_ref = or_null (hash "videoRef");
    title = or_null (hash "title");
    duration_sec = num_or_null (hash "duration");
    status = as_status (hash "status");
    anchor_position_sec = num (hash "anchorPos") (pos 0);
    anchor_server_ms = num (hash "anchorServerMs") (pos 0);
    playback_rate = num (hash "rate") normal_rate;
    revision = num (hash "revision") (pos 0);
    last_actor_id = or_null (hash "lastActorId");
    last_change_ms = num (hash "lastChangeMs") (pos 0);
  }

  abbrev pub duration_text : Option ℤ → String
  duration_text none = ""
  duration_text (some d) = show d

  -- HSET of every field of `anchorToHash(a)`.
  unfoldable pub write_anchor : Hash → VideoAnchor → Hash
  write_anchor h a =
      let h1 : Hash = hset h "provider" (provider_text a.provider) in
      let h2 : Hash = hset h1 "videoRef" (str a.video_ref) in
      let h3 : Hash = hset h2 "title" (str a.title) in
      let h4 : Hash = hset h3 "duration" (duration_text a.duration_sec) in
      let h5 : Hash = hset h4 "status" (status_text a.status) in
      let h6 : Hash = hset h5 "anchorPos" (show a.anchor_position_sec) in
      let h7 : Hash = hset h6 "anchorServerMs" (show a.anchor_server_ms) in
      let h8 : Hash = hset h7 "rate" (show a.playback_rate) in
      let h9 : Hash = hset h8 "revision" (show a.revision) in
      let h10 : Hash = hset h9 "lastActorId" (str a.last_actor_id) in
      hset h10 "lastChangeMs" (show a.last_change_ms)

  unfoldable pub anchor_to_hash : VideoAnchor → Hash
  unfolding write_anchor
  anchor_to_hash a = write_anchor empty_hash a

  -- `getState`: a hash with no revision is cold.
  unfoldable pub get_state : Hash → Option VideoAnchor
  get_state hash = elim (hash "revision") [ none ↦ none | some _ ↦ some (anchor_from_hash hash) ]
