-- ===== src/Permissions/Order.antt =====
-- Permissions grow with the rank, and moderation goes down the ranks only.
use syncstudies.Base.{◌≤◌, ◌≡◌, ◌&&◌, ◌||◌, not, Bool, true, false, arith}
use syncstudies.Timeline.{PlaybackControlPolicy}
use syncstudies.Permissions.{
  Role, host, role_rank, Permission, video_set, chat_send, chat_delete_any, notes_edit,
  checklist_edit, annotate, call_join, screenshare, host_kick, host_policy, can, can_act_on,
  can_control_video, RoomPolicy, ResolvedPermissions, resolve_permissions,
}

-- Whoever stands at least as high may do at least as much.
pub can_mono :
    (r r' : Role) (p : Permission) → role_rank r ≤ role_rank r' → can r p ≡ true → can r' p ≡ true
unfolding can
can_mono r r' p h e = ground arith

-- Acting on people is a strict order: nobody acts on themselves or on somebody who can act on them,
-- a chain of command holds, and nobody acts on a host.
pub can_act_on-order :
    (a b c : Role)
    → (can_act_on a a ≡ false)
      × (can_act_on a b ≡ true → can_act_on b a ≡ false)
      × (can_act_on a b ≡ true → can_act_on b c ≡ true → can_act_on a c ≡ true)
      × (can_act_on a host ≡ false)
unfolding can_act_on
can_act_on-order a b c = (ground arith, ground arith, λ p q. ground arith, top a)
  where
    top : (r : Role) → can_act_on r host ≡ false
    top r = ground arith

can_control_video_mono :
    (r r' : Role) (policy : PlaybackControlPolicy)
    → role_rank r ≤ role_rank r'
    → can_control_video r policy ≡ true
    → can_control_video r' policy ≡ true
unfolding can_control_video
can_control_video_mono r r' policy h e = ground arith

-- Every power of the first is one of the second.
pub record IsWithin (p q : ResolvedPermissions) : Type 0 where
  pub control : p.can_control_video ≡ true → q.can_control_video ≡ true
  pub set : p.can_set_video ≡ true → q.can_set_video ≡ true
  pub send : p.can_send_chat ≡ true → q.can_send_chat ≡ true
  pub delete_any : p.can_delete_any_message ≡ true → q.can_delete_any_message ≡ true
  pub notes : p.can_edit_notes ≡ true → q.can_edit_notes ≡ true
  pub checklist : p.can_edit_checklist ≡ true → q.can_edit_checklist ≡ true
  pub ink : p.can_annotate ≡ true → q.can_annotate ≡ true
  pub call : p.can_join_call ≡ true → q.can_join_call ≡ true
  pub share : p.can_screen_share ≡ true → q.can_screen_share ≡ true
  pub moderate : p.can_moderate ≡ true → q.can_moderate ≡ true
  pub manage : p.can_manage_room ≡ true → q.can_manage_room ≡ true

-- Two conditions that each imply another, joined.
and_mono :
    (a b a' b' : Bool)
    → (a ≡ true → a' ≡ true)
    → (b ≡ true → b' ≡ true)
    → (a && b) ≡ true
    → (a' && b') ≡ true
and_mono a b a' b' f g h = ground arith

or_mono : (a b b' : Bool) → (b ≡ true → b' ≡ true) → (a || b) ≡ true → (a || b') ≡ true
or_mono a b b' f h = ground arith

-- In one room, whatever its policy, the resolved permissions of a higher rank include those of a
-- lower one.
pub resolve_permissions_mono :
    (r r' : Role) (policy : RoomPolicy)
    → role_rank r ≤ role_rank r'
    → IsWithin (resolve_permissions r policy) (resolve_permissions r' policy)
unfolding resolve_permissions
resolve_permissions_mono r r' policy h = record {
  control = can_control_video_mono r r' policy.playback_control h;
  set = can_mono r r' video_set h;
  send =
      and_mono _ _ _ _ (can_mono r r' chat_send h)
        (or_mono (not policy.chat_locked) _ _ (can_mono r r' chat_delete_any h));
  delete_any = can_mono r r' chat_delete_any h;
  notes = can_mono r r' notes_edit h;
  checklist = can_mono r r' checklist_edit h;
  ink = and_mono _ _ _ _ (can_mono r r' annotate h) (λ e. e);
  call = and_mono _ _ _ _ (can_mono r r' call_join h) (λ e. e);
  share = and_mono _ _ _ _ (can_mono r r' screenshare h) (λ e. e);
  moderate = can_mono r r' host_kick h;
  manage = can_mono r r' host_policy h;
}

-- What the switches of a room take away: in a locked chat only those may write who may delete any
-- message, and with its switch off nobody draws, joins the call or shares a screen.
pub resolve_permissions-switches :
    (r : Role) (policy : RoomPolicy)
    → (policy.chat_locked ≡ true
        → (resolve_permissions r policy).can_send_chat ≡ can r chat_delete_any)
      × (policy.annotations_enabled ≡ false → (resolve_permissions r policy).can_annotate ≡ false)
      × (policy.call_enabled ≡ false → (resolve_permissions r policy).can_join_call ≡ false)
      × (policy.screenshare_enabled ≡ false
          → (resolve_permissions r policy).can_screen_share ≡ false)
unfolding resolve_permissions
resolve_permissions-switches r policy =
    (λ e. ground arith, λ e. ground arith, λ e. ground arith, λ e. ground arith)
