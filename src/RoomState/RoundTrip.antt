-- ===== src/RoomState/RoundTrip.antt =====
-- Writing an anchor and reading it back.
use syncstudies.Base.{◌≡◌, ◌≢◌, refl, ap, Option, none, some, arith}
use syncstudies.Base.Text.{String, str_eq_iff}
use syncstudies.Base.Int.{ℤ, pos}
use syncstudies.Timeline.{
  VideoProvider, youtube, file, PlaybackStatus, idle, playing, paused, ended, VideoAnchor,
  normal_rate,
}
use syncstudies.RoomState.RedisHash.{JsNumber, Hash}
use syncstudies.RoomState.Codec.{
  provider_text, status_text, as_provider, as_status, str, or_null, num, num_or_null, duration_text,
  anchor_from_hash, write_anchor, get_state,
}

pub or_null-str : (v : Option String) → v ≢ some "" → or_null (some (str v)) ≡ v
or_null-str none h = refl
or_null-str (some v) h = ground (arith, str_eq_iff v "", h)

pub as_provider-text : (p : VideoProvider) → as_provider (some (provider_text p)) ≡ p
as_provider-text youtube = refl
as_provider-text file = refl
as_provider-text VideoProvider.none = refl

pub as_status-text : (s : PlaybackStatus) → as_status (some (status_text s)) ≡ s
as_status-text idle = refl
as_status-text playing = refl
as_status-text paused = refl
as_status-text ended = refl

module _ (js : JsNumber) where
  open js use {show, read, read-show, show-ne-empty}

  pub num-show : (n d : ℤ) → num js (some (show n)) d ≡ n
  num-show n d = rw (read-show n, num)

  show_not_null : (n : ℤ) → or_null (some (show n)) ≡ some (show n)
  show_not_null n = ground (arith, str_eq_iff (show n) "", show-ne-empty n)

  pub num_or_null-text : (d : Option ℤ) → num_or_null js (some (duration_text js d)) ≡ d
  num_or_null-text none = refl
  num_or_null-text (some d) = rw (show_not_null d, num_or_null) (read-show d)

  -- No text of the anchor is empty, which stands for null in the hash.
  pub record IsStorable (a : VideoAnchor) : Type 0 where
    pub ref_ne_empty : a.video_ref ≢ some ""
    pub title_ne_empty : a.title ≢ some ""
    pub actor_ne_empty : a.last_actor_id ≢ some ""

  pub anchor_from_hash-write_anchor :
      (h : Hash) (a : VideoAnchor) → IsStorable a → anchor_from_hash js (write_anchor js h a) ≡ a
  unfolding anchor_from_hash write_anchor
  anchor_from_hash-write_anchor h a ok = λ i. record {
    provider = as_provider-text a.provider i;
    video_ref = or_null-str a.video_ref ok.ref_ne_empty i;
    title = or_null-str a.title ok.title_ne_empty i;
    duration_sec = num_or_null-text a.duration_sec i;
    status = as_status-text a.status i;
    anchor_position_sec = num-show a.anchor_position_sec (pos 0) i;
    anchor_server_ms = num-show a.anchor_server_ms (pos 0) i;
    playback_rate = num-show a.playback_rate normal_rate i;
    revision = num-show a.revision (pos 0) i;
    last_actor_id = or_null-str a.last_actor_id ok.actor_ne_empty i;
    last_change_ms = num-show a.last_change_ms (pos 0) i;
  }

  -- An anchor written over any hash is read back whole, if none of its texts is empty.
  pub get_state-write_anchor :
      (h : Hash) (a : VideoAnchor) → IsStorable a → get_state js (write_anchor js h a) ≡ some a
  unfolding get_state write_anchor
  get_state-write_anchor h a ok = ap some (anchor_from_hash-write_anchor h a ok)
