-- ===== src/ClientStore/Converge.antt =====
-- The anchors that a client is sent, in whatever order, and the connection's clock.
use mathlib.Core.Path.{subst}
use syncstudies.Base.{true, false, List, [], ◌∷◌, ◌≡◌, ◌⊎◌, inl, inr, arith, All, if_either}
use syncstudies.Base.Int.{ℤ, ◌≤ℤ◌, ltb_ℤ}
use syncstudies.Timeline.{VideoAnchor}
use syncstudies.ClientStore.Data.{RoomData}
use syncstudies.ClientStore.Snapshot.{set_video}

-- Deliveries of `video:state`, first to last.
abbrev pub set_videos : RoomData → List VideoAnchor → RoomData
set_videos st [] = st
set_videos st (a ∷ later) = set_videos (set_video st a) later

abbrev pub Among : VideoAnchor → List VideoAnchor → Type 0
Among a [] = ⊥
Among a (b ∷ bs) = (b ≡ a) ⊎ Among a bs

-- No delivery is later than `a`, and `a` is the only one of its revision.
abbrev pub NotAfter : VideoAnchor → VideoAnchor → Type 0
NotAfter a b = (b.revision ≤ℤ a.revision) × (b.revision ≡ a.revision → b ≡ a)

keeps_NotAfter :
    (a b : VideoAnchor) (st : RoomData)
    → NotAfter a st.video
    → NotAfter a b
    → NotAfter a (set_video st b).video
unfolding set_video
keeps_NotAfter a b st old new =
    if_either (λ (r : RoomData). NotAfter a r.video) (ltb_ℤ b.revision st.video.revision) _ _
      (λ late. old) (λ on_time. new)

le_both : (x y : ℤ) → x ≤ℤ y → ltb_ℤ x y ≡ false → x ≡ y
le_both x y h k = ground arith

not_before : (x y : ℤ) → x ≤ℤ y → ltb_ℤ y x ≡ true → ⊥
not_before x y h k = ground arith

takes_latest :
    (a b : VideoAnchor) (st : RoomData)
    → NotAfter a st.video
    → NotAfter a b
    → (st.video ≡ a) ⊎ (b ≡ a)
    → (set_video st b).video ≡ a
unfolding set_video
takes_latest a b st old new (inl held) =
    if_either (λ (r : RoomData). r.video ≡ a) (ltb_ℤ b.revision st.video.revision) _ _
      (λ late. held)
      (λ on_time. new.1 (
        le_both b.revision a.revision new.0
          (subst (λ v. ltb_ℤ b.revision v.revision ≡ false) held on_time)))
takes_latest a b st old new (inr comes) =
    if_either (λ (r : RoomData). r.video ≡ a) (ltb_ℤ b.revision st.video.revision) _ _
      (λ late. absurd (
        not_before st.video.revision a.revision old.0
          (subst (λ v. ltb_ℤ v.revision st.video.revision ≡ true) comes late)))
      (λ on_time. comes)

-- Whatever the order in which the anchors arrive, and however often each, a client ends at the
-- latest: if one of those delivered, or the one it held, is `a`, and none of them has a later
-- revision than `a` or is another one of its revision, the client shows `a`.
pub set_videos-latest :
    (st : RoomData) (a : VideoAnchor) (delivered : List VideoAnchor)
    → NotAfter a st.video
    → All (NotAfter a) delivered
    → (st.video ≡ a) ⊎ Among a delivered
    → (set_videos st delivered).video ≡ a
set_videos-latest st a [] old all (inl held) = held
set_videos-latest st a [] old all (inr h) = elim h [ ]
set_videos-latest st a (b ∷ later) old (new, all) (inl held) =
    set_videos-latest (set_video st b) a later (keeps_NotAfter a b st old new) all
      (inl (takes_latest a b st old new (inl held)))
set_videos-latest st a (b ∷ later) old (new, all) (inr (inl comes)) =
    set_videos-latest (set_video st b) a later (keeps_NotAfter a b st old new) all
      (inl (takes_latest a b st old new (inr comes)))
set_videos-latest st a (b ∷ later) old (new, all) (inr (inr more)) =
    set_videos-latest (set_video st b) a later (keeps_NotAfter a b st old new) all (inr more)
